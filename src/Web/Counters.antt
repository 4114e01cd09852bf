-- ===== src/Web/Counters.antt =====
-- The counters of requests of modules/trivia/webrequest.cpp, and statdump, which writes them to the
-- database.
pub mod Conserve
use triviabot.Common.{
  ℕ, ◌+◌, ◌%◌, ◌≡◌, refl, Bool, true, List, [], ◌∷◌, ◌++◌, Option, none, some, if◌then◌else◌, u64,
  text_eq, text_eq_refl, text_eq_sound, lookup, insert, inl, inr, Bool-cases, arith,
}
use triviabot.Common.TextMap.{at, put, at-put}
use triviabot.Text.{Text}

-- A counter that is not there stands at 0.
unfoldable pub count_at : Text → List (Text × ℕ) → ℕ
unfolding at
count_at key counters = elim (at key counters) [ none ↦ 0 | some n ↦ n ]

unfoldable pub code_count : ℕ → List (ℕ × ℕ) → ℕ
code_count code codes = elim (lookup code codes) [ none ↦ 0 | some n ↦ n ]

-- What is counted, by the network interface: answers by their status, requests, and errors.
pub record Stats : Type 0 where
  pub statuscodes : List (Text × List (ℕ × ℕ))
  pub requests : List (Text × ℕ)
  pub errors : List (Text × ℕ)

unfoldable pub codes_at : Text → List (Text × List (ℕ × ℕ)) → List (ℕ × ℕ)
unfolding at
codes_at iface statuscodes = elim (at iface statuscodes) [ none ↦ [] | some codes ↦ codes ]

-- `requests[iface] = 1` where there is no entry, `requests[iface]++` where there is one.
unfoldable pub bump : Text → List (Text × ℕ) → List (Text × ℕ)
unfolding at put
bump iface counters = elim (at iface counters) [
  | none ↦ put iface 1 counters
  | some n ↦ put iface (u64 (n + 1)) counters
]

unfoldable pub bump_code : ℕ → List (ℕ × ℕ) → List (ℕ × ℕ)
bump_code status codes = elim (lookup status codes) [
  | none ↦ insert status 1 codes
  | some n ↦ insert status (u64 (n + 1)) codes
]

unfoldable pub count_answer : (iface : Text) (status : ℕ) → Stats → Stats
count_answer iface status s = record s {
  statuscodes = put iface (bump_code status (codes_at iface s.statuscodes)) s.statuscodes;
  requests = bump iface s.requests;
}

unfoldable pub count_error : (iface : Text) → Stats → Stats
count_error iface s = record s { errors = bump iface s.errors }

-- The rows that statdump adds to the tables http_requests and http_status_codes.
pub data Row : Type 0 where
  totals : (iface : Text) → (hard_errors requests : ℕ) → Row
  status : (iface : Text) → (status_code requests : ℕ) → Row

-- The loop over the status codes of an interface: a row for each code, which then starts from 0.
unfoldable pub dump_codes : Text → List (ℕ × ℕ) → List Row
dump_codes iface [] = []
dump_codes iface ((code, n) ∷ codes) = status iface code n ∷ dump_codes iface codes

unfoldable pub clear_codes : List (ℕ × ℕ) → List (ℕ × ℕ)
clear_codes [] = []
clear_codes ((code, n) ∷ codes) = (code, 0) ∷ clear_codes codes

-- The body of statdump's loop, for one interface.
unfoldable pub dump_one : Text → Stats → List Row × Stats
unfolding at put count_at dump_codes clear_codes
dump_one iface s =
    let row = totals iface (count_at iface s.errors) (count_at iface s.requests) in
    elim (at iface s.statuscodes) [
      | none ↦
          (row ∷ [], record s { requests = put iface 0 s.requests; errors = put iface 0 s.errors })
      | some codes ↦ (
        row ∷ dump_codes iface codes,
        record {
          statuscodes = put iface (clear_codes codes) s.statuscodes;
          requests = put iface 0 s.requests;
          errors = put iface 0 s.errors;
        },
      )
    ]

-- One pass of statdump over the interfaces of the machine.
unfoldable pub statdump : List Text → Stats → List Row × Stats
unfolding dump_one
statdump [] s = ([], s)
statdump (iface ∷ inter) s =
    let one = dump_one iface s in let rest = statdump inter one.1 in (one.0 ++ rest.0, rest.1)

pub codes_at-put :
    (key other : Text) (codes : List (ℕ × ℕ)) (statuscodes : List (Text × List (ℕ × ℕ)))
    → codes_at other (put key codes statuscodes)
      ≡ (if text_eq key other then codes else codes_at other statuscodes)
unfolding codes_at
codes_at-put key other codes statuscodes = ground (arith, at-put key other codes statuscodes)
