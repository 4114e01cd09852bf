-- ===== src/Text/Commas.antt =====
-- Comma puts commas between the digits and changes nothing else.
use triviabot.Common.{
  length, ℕ, zero, suc, ◌-◌, ◌≡◌, refl, ◌∙◌, [], ◌∷◌, ◌++◌, arith, keep, not, ◌==◌,
}
use triviabot.Text.{Text, take, drop, is_digit, to_string, comma_loop, comma}
use triviabot.Text.Decimal.{Digits, to_string-Digits}

abbrev pub without_commas : Text → Text
without_commas = keep (λ c. not (c == b','))

keep-insert : (i : ℕ) (s : Text) → without_commas (take i s ++ b',' ∷ drop i s) ≡ without_commas s
unfolding keep take drop
keep-insert zero s = refl
keep-insert (suc i) [] = refl
keep-insert (suc i) (c ∷ s) = ground (arith, keep-insert i s)

comma_loop-keep : (fuel i : ℕ) (s : Text) → without_commas (comma_loop fuel i s) ≡ without_commas s
unfolding comma_loop
comma_loop-keep zero i s = refl
comma_loop-keep (suc fuel) i s =
    ground (arith, comma_loop-keep fuel (i - 3) (take i s ++ b',' ∷ drop i s), keep-insert i s)

keep-Digits : (s : Text) → Digits s → without_commas s ≡ s
unfolding keep is_digit
keep-Digits [] d = refl
keep-Digits (c ∷ s) d = ground (arith, keep-Digits s d.1)

-- Without its commas the text of Comma is the decimal text of the number.
without-comma : (n : ℕ) → without_commas (comma n) ≡ to_string n
unfolding comma
without-comma n =
    comma_loop-keep (length (to_string n)) (length (to_string n) - 3) (to_string n)
    ∙ keep-Digits (to_string n) (to_string-Digits n)
