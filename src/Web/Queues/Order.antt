-- ===== src/Web/Queues/Order.antt =====
-- What becomes of the requests that are put into the ten queues.
use triviabot.Common.{
  ℕ, zero, suc, ◌+◌, ◌≤◌, ◌<◌, ◌≡◌, refl, sym, ap, ◌∙◌, Bool, List, [], ◌∷◌, ◌++◌, append_assoc,
  append-nil, Option, none, some, arith, ◌==◌, if◌then◌else◌, length, inl, inr, Bool-cases, ==_iff,
  ==_refl, List-cases,
}
use mathlib.Core.Path.{subst}
use triviabot.Text.{Text}
use triviabot.Host.{Host}
use triviabot.Web.Queues.{
  FireAndForget, Queues, put_at, push, later_request, later, post_webhook, webhook_request,
  fireandforget,
}

-- The queues with their history: all requests that were submitted, and those that each thread has
-- handed on.
pub record History : Type 0 where
  pub queues : Queues
  pub submitted : List FireAndForget
  pub sent : ℕ → List FireAndForget

abbrev pub submit : (Queues → Queues) → FireAndForget → History → History
submit put f h = record { queues = put h.queues; submitted = h.submitted ++ f ∷ []; sent = h.sent }

abbrev pub hand_on : ℕ → Option FireAndForget × Queues → History → History
hand_on i (none, q) h = record h { queues = q }
hand_on i (some f, q) h = record h { queues = q; sent = put_at i (h.sent i ++ f ∷ []) h.sent }

-- A request is submitted, in one of the two ways; or one of the ten threads makes a round.
pub data Step : History → History → Type 0 where
  ask :
      (host : Host) (dev : Bool) (path body : Text) (h : History)
      → Step h (submit (later host dev path body) (later_request host dev path body) h)
  hook :
      (url embed : Text) (channel_id : ℕ) (h : History)
      → Step h (submit (post_webhook url embed channel_id) (webhook_request url embed channel_id) h)
  work : (i : ℕ) (h : History) → i < 10 → Step h (hand_on i (fireandforget i h.queues) h)

abbrev pub start : History
start = record { queues = record { faf = λ i. []; faf_index = 0 }; submitted = []; sent = λ i. [] }

pub data Reach : History → Type 0 where
  begin : Reach start
  next : {h k : History} → Reach h → Step h k → Reach k

abbrev pub after : ℕ → ℕ
after at = if at == 9 then 0 else at + 1

-- What is dealt to place `i` of ten, one by one, when the first goes to place `at`.
abbrev pub share : (i at : ℕ) → List FireAndForget → List FireAndForget
share i at [] = []
share i at (f ∷ fs) = let rest = share i (after at) fs in if at == i then f ∷ rest else rest

-- The place of the next one.
place : ℕ → List FireAndForget → ℕ
place at [] = at
place at (f ∷ fs) = place (after at) fs

place_snoc :
    (at : ℕ) (fs : List FireAndForget) (f : FireAndForget)
    → place at (fs ++ f ∷ []) ≡ after (place at fs)
unfolding place
place_snoc at [] f = refl
place_snoc at (g ∷ fs) f = place_snoc (after at) fs f

share_snoc :
    (i at : ℕ) (fs : List FireAndForget) (f : FireAndForget)
    → share i at (fs ++ f ∷ []) ≡ share i at fs ++ (if place at fs == i then f ∷ [] else [])
unfolding place
share_snoc i at [] f = refl
share_snoc i at (g ∷ fs) f = elim (Bool-cases (at == i)) [
  | inl e ↦ rw e (ap (λ r. g ∷ r) (share_snoc i (after at) fs f))
  | inr e ↦ rw e (share_snoc i (after at) fs f)
]

place-lt : (at : ℕ) (fs : List FireAndForget) → at < 10 → place at fs < 10
unfolding place
place-lt at [] h = h
place-lt at (f ∷ fs) h = place-lt (after at) fs (ground arith)

-- The abstract view of a history: the requests are dealt to the threads in turn, and each thread has
-- them in the order of their submission.
record Dealt (h : History) : Type 0 where
  next_place : h.queues.faf_index ≡ place 0 h.submitted
  dealt : (i : ℕ) → h.sent i ++ h.queues.faf i ≡ share i 0 h.submitted

put_end :
    (i at : ℕ) (f : FireAndForget) (faf : ℕ → List FireAndForget)
    → put_at at (faf at ++ f ∷ []) faf i ≡ faf i ++ (if at == i then f ∷ [] else [])
unfolding put_at
put_end i at f faf = elim (Bool-cases (at == i)) [
  | inl e ↦ rw (e, (==_iff at i).0 e) refl
  | inr e ↦ rw e (sym (append-nil (faf i)))
]

submit-Dealt : (f : FireAndForget) (h : History) → Dealt h → Dealt (submit (push f) f h)
unfolding push
submit-Dealt f h d = record {
  next_place =
      rw (place_snoc 0 h.submitted f, ← d.next_place)
        (let l : h.queues.faf_index < 10 = rw d.next_place (place-lt 0 h.submitted (omega arith)) in
          ground arith);
  dealt = λ i. rw (
    share_snoc i 0 h.submitted f,
    ← d.next_place,
    put_end i h.queues.faf_index f h.queues.faf,
    ← append_assoc (h.sent i) (h.queues.faf i) (if h.queues.faf_index == i then f ∷ [] else []),
    d.dealt i,
  );
}

hand_on-Dealt :
    (i : ℕ) (f : FireAndForget) (fs : List FireAndForget) (h : History)
    → h.queues.faf i ≡ f ∷ fs
    → Dealt h
    → Dealt (hand_on i (some f, record h.queues { faf = put_at i fs h.queues.faf }) h)
unfolding put_at
hand_on-Dealt i f fs h e d = record {
  next_place = d.next_place;
  dealt = λ j. elim (Bool-cases (i == j)) [
    | inl same ↦
        rw (same, append_assoc (h.sent i) (f ∷ []) fs, ← e, (==_iff i j).0 same) (d.dealt j)
    | inr other ↦ rw other (d.dealt j)
  ];
}

fireandforget_idle : (i : ℕ) (q : Queues) → q.faf i ≡ [] → fireandforget i q ≡ (none, q)
unfolding fireandforget
fireandforget_idle i q e = ground arith

fireandforget_busy :
    (i : ℕ) (q : Queues) (f : FireAndForget) (fs : List FireAndForget)
    → q.faf i ≡ f ∷ fs
    → fireandforget i q ≡ (some f, record q { faf = put_at i fs q.faf })
unfolding fireandforget
fireandforget_busy i q f fs e = ground arith

work-Dealt : (i : ℕ) (h : History) → Dealt h → Dealt (hand_on i (fireandforget i h.queues) h)
work-Dealt i h d = elim (List-cases (h.queues.faf i)) [
  | inl e ↦ rw (fireandforget_idle i h.queues e) d
  | inr (f, fs, e) ↦ rw (fireandforget_busy i h.queues f fs e) (hand_on-Dealt i f fs h e d)
]

Step-Dealt : {h k : History} → Step h k → Dealt h → Dealt k
unfolding later post_webhook
Step-Dealt (ask host dev path body h) d = submit-Dealt (later_request host dev path body) h d
Step-Dealt (hook url embed channel_id h) d = submit-Dealt (webhook_request url embed channel_id) h d
Step-Dealt (work i h l) d = work-Dealt i h d

Reach-Dealt : {h : History} → Reach h → Dealt h
unfolding place
Reach-Dealt begin = record { next_place = refl; dealt = λ i. refl }
Reach-Dealt (next r st) = Step-Dealt st (Reach-Dealt r)

-- However submissions by later and post_webhook and rounds of the ten threads are interleaved, each
-- thread has handed on, and then has waiting, exactly the requests that come to its place when all
-- that were submitted are dealt to the ten places in turn, in the order of their submission.
pub requests_dealt :
    {h : History} → Reach h → (i : ℕ) → h.sent i ++ h.queues.faf i ≡ share i 0 h.submitted
requests_dealt r = (Reach-Dealt r).dealt

-- Rounds of one thread, with nothing submitted in between.
abbrev pub rounds : (n i : ℕ) → History → History
rounds zero i h = h
rounds (suc n) i h = rounds n i (hand_on i (fireandforget i h.queues) h)

-- One round of a thread with a request in its queue.
abbrev sent_on : ℕ → FireAndForget → List FireAndForget → History → History
sent_on i f fs h = hand_on i (some f, record h.queues { faf = put_at i fs h.queues.faf }) h

sent_on-faf :
    (i : ℕ) (f : FireAndForget) (fs : List FireAndForget) (h : History)
    → ((sent_on i f fs h).queues.faf i ≡ fs) × ((sent_on i f fs h).sent i ≡ h.sent i ++ f ∷ [])
unfolding put_at
sent_on-faf i f fs h = (rw (==_refl i) refl, rw (==_refl i) refl)

abbrev IsDrained : ℕ → History → History → Type 0
IsDrained i h k = (k.queues.faf i ≡ []) × (k.sent i ≡ h.sent i ++ h.queues.faf i)

rounds_idle : (n i : ℕ) (h : History) → h.queues.faf i ≡ [] → IsDrained i h (rounds n i h)
rounds_idle zero i h e = (e, rw e (sym (append-nil (h.sent i))))
rounds_idle (suc n) i h e =
    subst (λ k. IsDrained i h (rounds n i (hand_on i k h))) (sym (fireandforget_idle i h.queues e))
      (rounds_idle n i h e)

rounds_drain : (n i : ℕ) (h : History) → length (h.queues.faf i) ≤ n → IsDrained i h (rounds n i h)
rounds_drain zero i h l = elim (List-cases (h.queues.faf i)) [
  | inl e ↦ rounds_idle 0 i h e
  | inr (f, fs, e) ↦ absurd (omega (arith, ap length e))
]
rounds_drain (suc n) i h l = elim (List-cases (h.queues.faf i)) [
  | inl e ↦ rounds_idle (suc n) i h e
  | inr (f, fs, e) ↦
      let now = sent_on-faf i f fs h in
      let rest = rounds_drain n i (sent_on i f fs h) (rw now.0 (omega (arith, ap length e))) in
      subst (λ k. IsDrained i h (rounds n i (hand_on i k h)))
        (sym (fireandforget_busy i h.queues f fs e))
        (rest.0, rest.1 ∙ rw (now.0, now.1, append_assoc (h.sent i) (f ∷ []) fs, e))
]

-- A thread that makes at least as many rounds as its queue has requests, with nothing submitted in
-- between, has handed on everything that ever came to its place, and nothing waits there.
rounds_send_all :
    {h : History}
    → Reach h
    → (n i : ℕ) → length (h.queues.faf i) ≤ n
    → ((rounds n i h).queues.faf i ≡ []) × ((rounds n i h).sent i ≡ share i 0 h.submitted)
rounds_send_all {h} r n i l =
    let drained = rounds_drain n i h l in (drained.0, drained.1 ∙ requests_dealt r i)
