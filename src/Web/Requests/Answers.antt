-- ===== src/Web/Requests/Answers.antt =====
-- What an answer changes: the counters of the interface, the web hooks and the text.
use triviabot.Common.{
  ℕ, ◌+◌, ◌≡◌, refl, ap, ◌∙◌, Bool, true, false, ◌&&◌, not, List, [], none, some, u64, lookup,
  lookup-insert, lookup-erase, is_empty, get_elem?, inl, inr, Option-cases, ◌==◌, ltb,
  if◌then◌else◌, text_eq, text_eq_sound, arith,
}
use mathlib.Core.Path.{subst}
use triviabot.Common.TextMap.{at, at-put}
use triviabot.Text.{Text}
use triviabot.Web.Queues.{FireAndForget}
use triviabot.Web.Counters.{
  Stats, count_at, code_count, codes_at, codes_at-put, bump, bump_code, count_answer, count_error,
}
use triviabot.Web.Requests.{
  Response, Reply, no_result, result, thrown, Web, Env, act, hold_back, forget_webhook, note_limit,
  obey_limit, heed_limit, wait_out, counted, good_body, after_post, request_on, web_request, post,
}
use triviabot.Web.Requests.Parts.{web_request_ran}

-- One more, where the test holds.
abbrev pub one_more : Bool → ℕ → ℕ
one_more counts n = if counts then u64 (n + 1) else n

abbrev pub is_answered : Reply → Bool
is_answered no_result = false
is_answered (result res) = true
is_answered thrown = false

abbrev pub has_status : ℕ → Reply → Bool
has_status code no_result = false
has_status code (result res) = res.status == code
has_status code thrown = false

abbrev pub text_of : Reply → Text
text_of no_result = []
text_of (result res) = if ltb res.status 400 then res.body else []
text_of thrown = []

count_at-bump :
    (key other : Text) (counters : List (Text × ℕ))
    → count_at other (bump key counters) ≡ one_more (text_eq key other) (count_at other counters)
unfolding count_at bump
count_at-bump key other counters = elim (Option-cases (at key counters)) [
  | inl e ↦ ground (arith, at-put key other 1 counters, text_eq_sound key other)
  | inr (n, e) ↦ ground (arith, at-put key other (u64 (n + 1)) counters, text_eq_sound key other)
]

code_count-bump_code :
    (key other : ℕ) (codes : List (ℕ × ℕ))
    → code_count other (bump_code key codes) ≡ one_more (key == other) (code_count other codes)
unfolding code_count bump_code
code_count-bump_code key other codes = elim (Option-cases (lookup key codes)) [
  | inl e ↦ ground (arith, lookup-insert key other 1 codes)
  | inr (n, e) ↦ ground (arith, lookup-insert key other (u64 (n + 1)) codes)
]

codes_at-count_answer :
    (iface key : Text) (code c : ℕ) (s : Stats)
    → code_count c (codes_at key (count_answer iface code s).statuscodes)
      ≡ one_more (text_eq iface key && code == c) (code_count c (codes_at key s.statuscodes))
unfolding count_answer
codes_at-count_answer iface key code c s =
    let codes = codes_at iface s.statuscodes in
    ground (
      arith,
      codes_at-put iface key (bump_code code codes) s.statuscodes,
      code_count-bump_code code c codes,
      text_eq_sound iface key,
    )

-- What an answer does to the counters does not depend on the limits and the web hooks.
obey_limit-stats :
    (env : Env) (iface : Text) (f : FireAndForget) (res : Response) (w : Web)
    → (obey_limit env iface f res (forget_webhook env f res w)).stats ≡ w.stats
unfolding obey_limit heed_limit wait_out note_limit forget_webhook act
obey_limit-stats env iface f res w = ground arith

obey_limit-webhooks :
    (env : Env) (iface : Text) (f : FireAndForget) (res : Response) (w : Web)
    → (obey_limit env iface f res w).webhooks ≡ w.webhooks
unfolding obey_limit heed_limit wait_out note_limit act
obey_limit-webhooks env iface f res w = ground arith

forget_webhook-webhooks :
    (env : Env) (f : FireAndForget) (res : Response) (w : Web) (c : ℕ)
    → lookup c (forget_webhook env f res w).webhooks
      ≡ (if res.status == 404 && env.bot && f.channel_id == c then none else lookup c w.webhooks)
unfolding forget_webhook act
forget_webhook-webhooks env f res w c = ground (arith, lookup-erase f.channel_id c w.webhooks)

hold_back-others :
    (now c : ℕ) (w : Web)
    → ((hold_back now c w).stats ≡ w.stats) × ((hold_back now c w).webhooks ≡ w.webhooks)
unfolding hold_back act
hold_back-others now c w = elim (Option-cases (lookup c w.channellock)) [
  | inl e ↦ ground arith
  | inr (l, e) ↦ ground arith
]

-- How the counters of a request by POST stand to those before.
abbrev pub Counted : Reply → (iface : Text) → (before after : Stats) → Type 0
Counted reply iface before after =
    (key : Text)
    → (count_at key after.requests
        ≡ one_more (is_answered reply && text_eq iface key) (count_at key before.requests))
      × (count_at key after.errors
          ≡ one_more (not (is_answered reply) && text_eq iface key) (count_at key before.errors))
      × ((code : ℕ)
          → code_count code (codes_at key after.statuscodes)
            ≡ one_more (text_eq iface key && has_status code reply)
                (code_count code (codes_at key before.statuscodes)))

count_error-Counted : (iface : Text) (s : Stats) → Counted no_result iface s (count_error iface s)
unfolding count_error
count_error-Counted iface s key = (refl, count_at-bump iface key s.errors, λ code. ground arith)

count_answer-requests :
    (iface key : Text) (code : ℕ) (s : Stats)
    → (count_at key (count_answer iface code s).requests
        ≡ one_more (text_eq iface key) (count_at key s.requests))
      × (count_at key (count_answer iface code s).errors ≡ count_at key s.errors)
unfolding count_answer
count_answer-requests iface key code s = (count_at-bump iface key s.requests, refl)

count_answer-Counted :
    (iface : Text) (res : Response) (s : Stats)
    → Counted (result res) iface s (count_answer iface res.status s)
count_answer-Counted iface res s key =
    let totals = count_answer-requests iface key res.status s in
    (totals.0, totals.1, λ code. codes_at-count_answer iface key res.status code s)

after_post-Counted :
    (env : Env) (iface : Text) (f : FireAndForget) (reply : Reply) (w : Web)
    → Counted reply iface w.stats (after_post env iface f reply w).1.stats
unfolding after_post counted
after_post-Counted env iface f no_result w = count_error-Counted iface w.stats
after_post-Counted env iface f (result res) w =
    rw (obey_limit-stats env iface f res w) (count_answer-Counted iface res w.stats)
after_post-Counted env iface f thrown w = count_error-Counted iface w.stats

after_post-webhooks :
    (env : Env) (iface : Text) (f : FireAndForget) (reply : Reply) (w : Web) (c : ℕ)
    → lookup c (after_post env iface f reply w).1.webhooks
      ≡ (if has_status 404 reply && env.bot && f.channel_id == c then none else lookup c w.webhooks)
unfolding after_post counted
after_post-webhooks env iface f no_result w c = refl
after_post-webhooks env iface f (result res) w c =
    ap (lookup c) (obey_limit-webhooks env iface f res (forget_webhook env f res w))
    ∙ forget_webhook-webhooks env f res w c
after_post-webhooks env iface f thrown w c = refl

after_post-text :
    (env : Env) (iface : Text) (f : FireAndForget) (reply : Reply) (w : Web)
    → (after_post env iface f reply w).0 ≡ text_of reply
unfolding after_post good_body
after_post-text env iface f no_result w = refl
after_post-text env iface f (result res) w = refl
after_post-text env iface f thrown w = refl

pub request_on-post :
    (env : Env) (iface : Text) (f : FireAndForget) (w : Web)
    → is_empty f.body ≡ false
    → request_on env iface f w
      ≡ after_post env iface f env.reply (
          act
            (post f.host f.path f.body iface (f.channel_id == 0))
            (hold_back env.now f.channel_id w))
unfolding request_on
request_on-post env iface f w body = rw body

abbrev Posted : Env → FireAndForget → (iface : Text) → Web → Text × Web → Type 0
Posted env f iface w (text, u) =
    Counted env.reply iface w.stats u.stats
    × (text ≡ text_of env.reply)
    × ((c : ℕ)
        → lookup c u.webhooks ≡ (
            if has_status 404 env.reply && env.bot && f.channel_id == c
            then none
            else lookup c w.webhooks))

request_on-Posted :
    (env : Env) (iface : Text) (f : FireAndForget) (w : Web)
    → is_empty f.body ≡ false
    → Posted env f iface w (request_on env iface f w)
unfolding act
request_on-Posted env iface f w body =
    let held = hold_back env.now f.channel_id w in
    let posted = act (post f.host f.path f.body iface (f.channel_id == 0)) held in
    let kept = hold_back-others env.now f.channel_id w in
    rw (request_on-post env iface f w body) (
      subst (λ s. Counted env.reply iface s (after_post env iface f env.reply posted).1.stats)
          kept.0 (after_post-Counted env iface f env.reply posted),
      after_post-text env iface f env.reply posted,
      λ c.
          after_post-webhooks env iface f env.reply posted c
          ∙ ap
              (λ m.
                if has_status 404 env.reply && env.bot && f.channel_id == c
                then none
                else lookup c m)
              kept.1,
    )

-- A request by POST goes over the interface that interface_index names. It is counted once, for that
-- interface alone: as a request and under the status of its answer if it is answered, and as an error
-- if it is not, or httplib throws. It returns the body of an answer with a status below 400, and the
-- empty text otherwise. An answer 404 takes the web hook of its channel away, if `bot` is set, and
-- all other web hooks stay.
pub web_request-post :
    (env : Env) (f : FireAndForget) (w u : Web) (text : Text)
    → is_empty f.body ≡ false
    → web_request env f w ≡ some (text, u)
    → (iface : Text) × (get_elem? env.interfaces w.interface_index ≡ some iface)
      × Counted env.reply iface w.stats u.stats
      × (text ≡ text_of env.reply)
      × ((c : ℕ)
          → lookup c u.webhooks ≡ (
              if has_status 404 env.reply && env.bot && f.channel_id == c
              then none
              else lookup c w.webhooks))
web_request-post env f w u text body e =
    let (iface, moved, ran, found) = web_request_ran env f w u text e in
    let v = record w { interface_index = moved } in
    let all = subst (Posted env f iface v) ran (request_on-Posted env iface f v body) in
    (iface, found, all.0, all.1, all.2)
