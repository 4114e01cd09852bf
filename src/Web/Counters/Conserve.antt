-- ===== src/Web/Counters/Conserve.antt =====
-- What statdump writes, and what is left to write, are what was counted.
use triviabot.Common.{
  ℕ, ◌+◌, ◌≡◌, refl, ◌&&◌, List, [], ◌∷◌, ◌++◌, if◌then◌else◌, text_eq, text_eq_sound, inl, inr,
  Option-cases, ◌==◌, arith,
}
use triviabot.Common.TextMap.{at, put, at-put}
use triviabot.Text.{Text}
use triviabot.Web.Counters.{
  count_at, codes_at, Stats, Row, totals, status, dump_codes, clear_codes, dump_one, statdump,
}

-- The requests, the errors and the answers with a status that rows report of an interface.
abbrev pub requests_of : Text → Row → ℕ
requests_of key (totals iface e r) = if text_eq iface key then r else 0
requests_of key (status iface code n) = 0

abbrev pub errors_of : Text → Row → ℕ
errors_of key (totals iface e r) = if text_eq iface key then e else 0
errors_of key (status iface code n) = 0

abbrev pub answers_of : (code : ℕ) → Text → Row → ℕ
answers_of c key (totals iface e r) = 0
answers_of c key (status iface code n) = if text_eq iface key && code == c then n else 0

abbrev pub reported : (Row → ℕ) → List Row → ℕ
reported f [] = 0
reported f (row ∷ rows) = f row + reported f rows

reported-append :
    (f : Row → ℕ) (xs ys : List Row) → reported f (xs ++ ys) ≡ reported f xs + reported f ys
reported-append f [] ys = omega arith
reported-append f (x ∷ xs) ys = omega (arith, reported-append f xs ys)

count_at-put :
    (key other : Text) (value : ℕ) (counters : List (Text × ℕ))
    → count_at other (put key value counters)
      ≡ (if text_eq key other then value else count_at other counters)
unfolding count_at
count_at-put key other value counters = ground (arith, at-put key other value counters)

requests_of-codes :
    (key iface : Text) (codes : List (ℕ × ℕ))
    → reported (requests_of key) (dump_codes iface codes) ≡ 0
unfolding dump_codes
requests_of-codes key iface [] = refl
requests_of-codes key iface ((code, n) ∷ codes) = omega (arith, requests_of-codes key iface codes)

errors_of-codes :
    (key iface : Text) (codes : List (ℕ × ℕ))
    → reported (errors_of key) (dump_codes iface codes) ≡ 0
unfolding dump_codes
errors_of-codes key iface [] = refl
errors_of-codes key iface ((code, n) ∷ codes) = omega (arith, errors_of-codes key iface codes)

-- The answers with a status that a map of codes holds.
abbrev pub tally : (code : ℕ) → List (ℕ × ℕ) → ℕ
tally c [] = 0
tally c ((code, n) ∷ codes) = (if code == c then n else 0) + tally c codes

answers_of-codes :
    (c : ℕ) (key iface : Text) (codes : List (ℕ × ℕ))
    → reported (answers_of c key) (dump_codes iface codes)
      ≡ (if text_eq iface key then tally c codes else 0)
unfolding dump_codes
answers_of-codes c key iface [] = ground arith
answers_of-codes c key iface ((code, n) ∷ codes) =
    ground (arith, answers_of-codes c key iface codes)

tally-clear : (c : ℕ) (codes : List (ℕ × ℕ)) → tally c (clear_codes codes) ≡ 0
unfolding clear_codes
tally-clear c [] = refl
tally-clear c ((code, n) ∷ codes) = ground (arith, tally-clear c codes)

dump_one-requests :
    (key iface : Text) (s : Stats)
    → reported (requests_of key) (dump_one iface s).0 + count_at key (dump_one iface s).1.requests
      ≡ count_at key s.requests
unfolding dump_one
dump_one-requests key iface s = elim (Option-cases (at iface s.statuscodes)) [
  | inl e ↦ ground (arith, count_at-put iface key 0 s.requests, text_eq_sound iface key)
  | inr (codes, e) ↦ ground (
    arith,
    count_at-put iface key 0 s.requests,
    text_eq_sound iface key,
    requests_of-codes key iface codes,
  )
]

dump_one-errors :
    (key iface : Text) (s : Stats)
    → reported (errors_of key) (dump_one iface s).0 + count_at key (dump_one iface s).1.errors
      ≡ count_at key s.errors
unfolding dump_one
dump_one-errors key iface s = elim (Option-cases (at iface s.statuscodes)) [
  | inl e ↦ ground (arith, count_at-put iface key 0 s.errors, text_eq_sound iface key)
  | inr (codes, e) ↦ ground (
    arith,
    count_at-put iface key 0 s.errors,
    text_eq_sound iface key,
    errors_of-codes key iface codes,
  )
]

dump_one-answers :
    (c : ℕ) (key iface : Text) (s : Stats)
    → reported (answers_of c key) (dump_one iface s).0
        + tally c (codes_at key (dump_one iface s).1.statuscodes)
      ≡ tally c (codes_at key s.statuscodes)
unfolding dump_one codes_at
dump_one-answers c key iface s = elim (Option-cases (at iface s.statuscodes)) [
  | inl e ↦ ground arith
  | inr (codes, e) ↦ ground (
    arith,
    at-put iface key (clear_codes codes) s.statuscodes,
    text_eq_sound iface key,
    answers_of-codes c key iface codes,
    tally-clear c codes,
  )
]

-- For every network interface, whether it is in the list or not and however often: the requests that
-- one pass of statdump writes to the database, with those that are then still counted, are the
-- requests that were counted before; so are the errors, and the answers with each status.
pub statdump_conserves :
    (inter : List Text) (s : Stats) (key : Text)
    → (reported (requests_of key) (statdump inter s).0 + count_at key (statdump inter s).1.requests
        ≡ count_at key s.requests)
      × (reported (errors_of key) (statdump inter s).0 + count_at key (statdump inter s).1.errors
          ≡ count_at key s.errors)
      × ((c : ℕ)
          → reported (answers_of c key) (statdump inter s).0
              + tally c (codes_at key (statdump inter s).1.statuscodes)
            ≡ tally c (codes_at key s.statuscodes))
unfolding statdump
statdump_conserves [] s key = (omega arith, omega arith, λ c. omega arith)
statdump_conserves (iface ∷ inter) s key =
    let one = dump_one iface s in
    let rest = statdump_conserves inter one.1 key in
    let later = (statdump inter one.1).0 in
    (
      omega (
        arith,
        rest.0,
        dump_one-requests key iface s,
        reported-append (requests_of key) one.0 later,
      ),
      omega
          (arith, rest.1, dump_one-errors key iface s, reported-append (errors_of key) one.0 later),
      λ c. omega (
        arith,
        rest.2 c,
        dump_one-answers c key iface s,
        reported-append (answers_of c key) one.0 later,
      ),
    )
