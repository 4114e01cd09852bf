-- ===== src/Text/Replace.antt =====
-- ReplaceString ends, and with one byte for its search text and nothing to put there it removes
-- that byte.
use triviabot.Common.{
  ℕ, zero, suc, ◌+◌, ◌-◌, ◌≤◌, ◌<◌, ◌≡◌, ◌≢◌, refl, ap, ◌∙◌, true, [], ◌∷◌, ◌++◌, none, some, arith,
  length, keep, not, ◌==◌, Bool-cases, Option-cases, ◌⊎◌, inl, inr, append_assoc, append-nil,
}
use triviabot.Text.{
  Text, take, drop, tolower, lowercase, starts_with, find, replace_loop, replace_string, replaced,
}

length-drop : (n : ℕ) (s : Text) → length (drop n s) ≡ length s - n
unfolding drop
length-drop zero s = omega arith
length-drop (suc n) [] = omega arith
length-drop (suc n) (c ∷ s) = omega (arith, length-drop n s)

length-lowercase : (s : Text) → length (lowercase s) ≡ length s
unfolding lowercase
length-lowercase [] = refl
length-lowercase (c ∷ s) = ap suc (length-lowercase s)

starts_with-length : (p s : Text) → starts_with p s ≡ true → length p ≤ length s
unfolding starts_with
starts_with-length [] s h = omega arith
starts_with-length (c ∷ p) [] h = cc
starts_with-length (c ∷ p) (d ∷ s) h = ground (arith, starts_with-length p s)

-- An occurrence lies within the text.
find_in_range : (p s : Text) (i : ℕ) → find p s ≡ some i → i + length p ≤ length s
unfolding find
find_in_range [] [] i h = ground arith
find_in_range (c ∷ p) [] i h = cc
find_in_range p (d ∷ s) i h = elim (Bool-cases (starts_with p (d ∷ s))) [
  | inl e ↦ let le = starts_with-length p (d ∷ s) e in ground arith
  | inr e ↦ elim (Option-cases (find p s)) [
    | inl n ↦ ground arith
    | inr (j, q) ↦ let le = find_in_range p s j q in ground arith
  ]
]

replace_loop_total :
    (search replace : Text) (fuel : ℕ) (out rest : Text)
    → search ≢ []
    → length rest < fuel
    → (t : Text) × (replace_loop search replace fuel out rest ≡ some t)
unfolding replace_loop
replace_loop_total search replace zero out rest ne lt = absurd (omega arith)
replace_loop_total [] replace (suc fuel) out rest ne lt = absurd (ne refl)
replace_loop_total (c ∷ p) replace (suc fuel) out rest ne lt =
    elim (Option-cases (find (lowercase (c ∷ p)) (lowercase rest))) [
      | inl e ↦ (out ++ rest, rw (e, replace_loop))
      | inr (i, e) ↦
          let le = find_in_range (lowercase (c ∷ p)) (lowercase rest) i e in
          rw (e, replace_loop)
            (replace_loop_total (c ∷ p) replace fuel _ (drop (i + length (c ∷ p)) rest) ne (
              omega (
                arith,
                length-drop (i + length (c ∷ p)) rest,
                length-lowercase rest,
                length-lowercase (c ∷ p),
              )))
    ]

-- ReplaceString ends on every subject, if the search text is not empty.
replace_string_total :
    (subject search replace : Text)
    → search ≢ []
    → (t : Text) × (replace_string subject search replace ≡ some t)
unfolding replace_string
replace_string_total subject search replace ne =
    replace_loop_total search replace (suc (length subject)) [] subject ne (omega arith)

-- The text without the bytes that are `c` up to their case.
abbrev pub without : ℕ → Text → Text
without c = keep (λ d. not (tolower c == tolower d))

find_one :
    (c : ℕ) (s : Text)
    → ((find (lowercase (c ∷ [])) (lowercase s) ≡ none) × (without c s ≡ s))
      ⊎ ((i : ℕ) × (find (lowercase (c ∷ [])) (lowercase s) ≡ some i)
          × (without c s ≡ take i s ++ without c (drop (suc i) s)))
unfolding find lowercase keep take drop starts_with
find_one c [] = inl (refl, refl)
find_one c (d ∷ s) = elim (Bool-cases (tolower c == tolower d)) [
  | inl e ↦ inr (0, ground arith, ground arith)
  | inr e ↦ elim (find_one c s) [
    | inl (p, q) ↦ inl (ground arith, ground arith)
    | inr (i, p, q) ↦ inr (suc i, ground arith, ground arith)
  ]
]

loop_without :
    (c fuel : ℕ) (out rest : Text)
    → length rest < fuel
    → replace_loop (c ∷ []) [] fuel out rest ≡ some (out ++ without c rest)
unfolding replace_loop
loop_without c zero out rest lt = absurd (omega arith)
loop_without c (suc fuel) out rest lt = elim (find_one c rest) [
  | inl (p, q) ↦ rw (p, replace_loop, q)
  | inr (i, p, q) ↦
      let inside = find_in_range (lowercase (c ∷ [])) (lowercase rest) i p in
      let next : i + length {A = ℕ} (c ∷ []) ≡ suc i = omega arith in
      rw (p, replace_loop, next, q, append-nil (out ++ take i rest))
        (loop_without c fuel (out ++ take i rest) (drop (suc i) rest) (
            omega
              (arith, length-drop (suc i) rest, length-lowercase rest, length-lowercase (c ∷ [])))
          ∙ ap some (append_assoc out (take i rest) (without c (drop (suc i) rest))))
]

-- `ReplaceString(subject, c, "")` removes every byte that equals `c` up to the case of a letter, and
-- keeps the others in their order.
replaced-without : (subject : Text) (c : ℕ) → replaced subject (c ∷ []) [] ≡ without c subject
unfolding replaced
replaced-without subject c =
    rw (loop_without c (suc (length subject)) [] subject (omega arith), replaced)
