-- ===== src/Text/Decimal.antt =====
-- `from_string` reads back what `std::to_string` writes.
use triviabot.Common.{
  ℕ, zero, suc, ◌+◌, ◌-◌, ◌/◌, ◌%◌, ◌<◌, ◌≡◌, ◌≢◌, refl, true, [], ◌∷◌, arith, ltb, if◌then◌else◌,
  All,
}
use triviabot.Text.{
  Text, is_digit, read_digits, digits_onto, to_string, read_unsigned, from_string, values64,
}

-- Nothing but digits.
abbrev pub Digits : Text → Type 0
Digits = All (λ c. is_digit c ≡ true)

digits_onto-Digits : (fuel n : ℕ) (out : Text) → Digits out → Digits (digits_onto fuel n out)
unfolding digits_onto is_digit
digits_onto-Digits zero n out h = h
digits_onto-Digits (suc fuel) n out h =
    ground (arith, digits_onto-Digits fuel (n / 10) ((b'0' + n % 10) ∷ out))

read_last : (n : ℕ) (out : Text) → read_digits (n / 10) ((b'0' + n % 10) ∷ out) ≡ read_digits n out
unfolding read_digits
read_last n out = ground arith

read_digits_onto :
    (fuel n : ℕ) (out : Text)
    → n < fuel
    → read_digits 0 (digits_onto fuel n out) ≡ read_digits n out
unfolding digits_onto
read_digits_onto zero n out lt = absurd (omega arith)
read_digits_onto (suc fuel) n out lt =
    ground (arith, read_digits_onto fuel (n / 10) ((b'0' + n % 10) ∷ out), read_last n out)

digit_front :
    (s : Text)
    → Digits s
    → s ≢ []
    → from_string values64 s
      ≡ (if ltb (read_digits 0 s) values64 then read_digits 0 s else values64 - 1)
unfolding from_string read_unsigned is_digit
digit_front [] d ne = absurd (ne refl)
digit_front (c ∷ s) d ne = ground arith

digits_onto-ne-nil : (fuel n : ℕ) (out : Text) → 0 < fuel → digits_onto fuel n out ≢ []
unfolding digits_onto
digits_onto-ne-nil zero n out lt = absurd (omega arith)
digits_onto-ne-nil (suc zero) n out lt = ground arith
digits_onto-ne-nil (suc (suc fuel)) n out lt =
    ground (arith, digits_onto-ne-nil (suc fuel) (n / 10) ((b'0' + n % 10) ∷ out))

-- Every `uint64_t` is read back from its decimal digits.
from_string-to_string : (n : ℕ) → n < values64 → from_string values64 (to_string n) ≡ n
unfolding to_string read_digits
from_string-to_string n lt =
    let all = digits_onto-Digits (suc n) n [] tt in
    let some_digit = digits_onto-ne-nil (suc n) n [] (omega arith) in
    let read = read_digits_onto (suc n) n [] (omega arith) in
    rw (digit_front (digits_onto (suc n) n []) all some_digit, read) (ground arith)

pub to_string-Digits : (n : ℕ) → Digits (to_string n)
unfolding to_string
to_string-Digits n = digits_onto-Digits (suc n) n [] tt

pub to_string-ne-nil : (n : ℕ) → to_string n ≢ []
unfolding to_string
to_string-ne-nil n = digits_onto-ne-nil (suc n) n [] (omega arith)

pub read_digits-to_string : (n : ℕ) → read_digits 0 (to_string n) ≡ n
unfolding to_string read_digits
read_digits-to_string n = read_digits_onto (suc n) n [] (omega arith)
