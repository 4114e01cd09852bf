-- ===== src/Database/Background.antt =====
-- The thread that runs queries in the background: backgroundquery and bgthread of src/database.cpp.
use triviabot.Common.{
  ℕ, ◌+◌, ◌≡◌, refl, sym, ap, ◌∙◌, List, [], ◌∷◌, ◌++◌, append_assoc, append-nil, length,
  length-append, List-cases, inl, inr, arith,
}
use triviabot.Text.{Text}

-- background_query.
pub record BackgroundQuery : Type 0 where
  pub format : Text
  pub parameters : List Text

-- The queue background_queries; with the thread's own copy of it, the count `processed`, and the
-- queries that went to the database.
pub record Background : Type 0 where
  pub background_queries : List BackgroundQuery
  pub bg_copy : List BackgroundQuery
  pub processed : ℕ
  pub ran : List BackgroundQuery

-- A query that is run at once counts too. An increment is one step, though no mutex guards it.
unfoldable pub count_query : Background → Background
count_query b = record b { processed = b.processed + 1 }

unfoldable pub backgroundquery : BackgroundQuery → Background → Background
backgroundquery q b = record b { background_queries = b.background_queries ++ q ∷ [] }

-- The inner loop under the mutex: the queue is moved to the copy, one by one.
unfoldable pub move_all : (queue copy : List BackgroundQuery) → List BackgroundQuery
move_all [] copy = copy
move_all (q ∷ queue) copy = move_all queue (copy ++ q ∷ [])

-- One step of bgthread: with an empty copy it fetches the queue; else it runs the first query of it.
unfoldable pub bgthread : Background → Background
bgthread b = elim b.bg_copy [
  | [] ↦ record b { background_queries = []; bg_copy = move_all b.background_queries [] }
  | q ∷ qs ↦ record b { bg_copy = qs; processed = b.processed + 1; ran = b.ran ++ q ∷ [] }
]

-- Queries that come in for the background, steps of the thread, and queries that are run at once, in
-- any order; `n` is the number of the latter.
pub data Reach : List BackgroundQuery → ℕ → Background → Type 0 where
  begin : Reach [] 0 (record { background_queries = []; bg_copy = []; processed = 0; ran = [] })
  submit :
      {qs : List BackgroundQuery} {n : ℕ} {b : Background} (q : BackgroundQuery)
      → Reach qs n b
      → Reach (qs ++ q ∷ []) n (backgroundquery q b)
  run :
      {qs : List BackgroundQuery} {n : ℕ} {b : Background} → Reach qs n b → Reach qs n (bgthread b)
  at_once :
      {qs : List BackgroundQuery} {n : ℕ} {b : Background}
      → Reach qs n b
      → Reach qs (n + 1) (count_query b)

move_all-append : (queue copy : List BackgroundQuery) → move_all queue copy ≡ copy ++ queue
unfolding move_all
move_all-append [] copy = sym (append-nil copy)
move_all-append (q ∷ queue) copy =
    move_all-append queue (copy ++ q ∷ []) ∙ append_assoc copy (q ∷ []) queue

-- What became of the queries, in the order of their submission.
abbrev pub fate : Background → List BackgroundQuery
fate b = b.ran ++ b.bg_copy ++ b.background_queries

record IsFifo (qs : List BackgroundQuery) (n : ℕ) (b : Background) : Type 0 where
  kept : fate b ≡ qs
  counted : b.processed ≡ length b.ran + n

submit-IsFifo :
    (q : BackgroundQuery) (qs : List BackgroundQuery) (n : ℕ) (b : Background)
    → IsFifo qs n b
    → IsFifo (qs ++ q ∷ []) n (backgroundquery q b)
unfolding backgroundquery
submit-IsFifo q qs n b f = record {
  kept =
      sym (append_assoc (b.ran ++ b.bg_copy) b.background_queries (q ∷ []))
      ∙ ap (λ l. l ++ q ∷ []) f.kept;
  counted = f.counted;
}

bgthread_fetches :
    (b : Background)
    → b.bg_copy ≡ []
    → bgthread b ≡ record b { background_queries = []; bg_copy = move_all b.background_queries [] }
unfolding bgthread
bgthread_fetches b e = ground arith

bgthread_runs :
    (b : Background) (q : BackgroundQuery) (qs : List BackgroundQuery)
    → b.bg_copy ≡ q ∷ qs
    → bgthread b ≡ record b { bg_copy = qs; processed = b.processed + 1; ran = b.ran ++ q ∷ [] }
unfolding bgthread
bgthread_runs b q qs e = ground arith

bgthread-fate : (b : Background) → fate (bgthread b) ≡ fate b
bgthread-fate b = elim (List-cases b.bg_copy) [
  | inl e ↦
      let nothing : b.ran ++ b.bg_copy ≡ b.ran = ap (λ l. b.ran ++ l) e ∙ append-nil b.ran in
      let queue = b.background_queries in
      ap fate (bgthread_fetches b e)
      ∙ append-nil (b.ran ++ move_all queue [])
      ∙ ap (λ l. b.ran ++ l) (move_all-append queue [])
      ∙ sym (ap (λ l. l ++ queue) nothing)
  | inr (q, qs, e) ↦
      ap fate (bgthread_runs b q qs e)
      ∙ ap (λ l. l ++ b.background_queries) (append_assoc b.ran (q ∷ []) qs)
      ∙ sym (ap (λ l. (b.ran ++ l) ++ b.background_queries) e)
]

bgthread-counted :
    (n : ℕ) (b : Background)
    → b.processed ≡ length b.ran + n
    → (bgthread b).processed ≡ length (bgthread b).ran + n
unfolding bgthread
bgthread-counted n b c = elim (List-cases b.bg_copy) [
  | inl e ↦ ground arith
  | inr (q, qs, e) ↦ ground (arith, length-append b.ran (q ∷ []))
]

run-IsFifo :
    (qs : List BackgroundQuery) (n : ℕ) (b : Background) → IsFifo qs n b → IsFifo qs n (bgthread b)
run-IsFifo qs n b f = record {
  kept = bgthread-fate b ∙ f.kept;
  counted = bgthread-counted n b f.counted;
}

at_once-IsFifo :
    (qs : List BackgroundQuery) (n : ℕ) (b : Background)
    → IsFifo qs n b
    → IsFifo qs (n + 1) (count_query b)
unfolding count_query
at_once-IsFifo qs n b f = record { kept = f.kept; counted = omega (arith, f.counted) }

Reach-IsFifo : {qs : List BackgroundQuery} {n : ℕ} {b : Background} → Reach qs n b → IsFifo qs n b
Reach-IsFifo begin = record { kept = refl; counted = refl }
Reach-IsFifo (submit {qs} {n} {b} q r) = submit-IsFifo q qs n b (Reach-IsFifo r)
Reach-IsFifo (run {qs} {n} {b} r) = run-IsFifo qs n b (Reach-IsFifo r)
Reach-IsFifo (at_once {qs} {n} {b} r) = at_once-IsFifo qs n b (Reach-IsFifo r)

-- However submissions, steps of the thread and queries that are run at once are interleaved: the
-- background queries that ran, those that the thread has fetched and those in the queue are, in this
-- order, all that were submitted, in the order of their submission; and `processed` is the number of
-- those that ran and of the queries that were run at once.
pub background_fifo :
    {qs : List BackgroundQuery} {n : ℕ} {b : Background}
    → Reach qs n b
    → (b.ran ++ b.bg_copy ++ b.background_queries ≡ qs) × (b.processed ≡ length b.ran + n)
background_fifo r = let f = Reach-IsFifo r in (f.kept, f.counted)
