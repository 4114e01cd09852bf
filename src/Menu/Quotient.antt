-- ===== src/Menu/Quotient.antt =====
-- The number of pages, which the code computes with floats.
use triviabot.Common.{
  ℕ, zero, suc, ◌+◌, ◌-◌, ◌*◌, ◌/◌, ◌^◌, ◌≤◌, ◌<◌, ◌≡◌, ◌∙◌, ap, true, ltb, inl, inr, Bool-cases,
  arith, List, length,
}
use mathlib.Core.Path.{subst}
use native.Mathlib.Nat.{div-lt_iff_lt-mul, div-eq_of_lt, mul-le-mul_right, pow-suc}
use triviabot.Text.{Text}
use triviabot.Menu.{rounded, too_wide, too_narrow, to_float, ceil_quotient, pages}

rounded_25 : (x : ℕ) → (50 * rounded x 25 ≤ 2 * x + 25) × (2 * x ≤ 50 * rounded x 25 + 25)
unfolding rounded
rounded_25 x = ground arith

rounded_1 : (x : ℕ) → rounded x 1 ≡ x
unfolding rounded
rounded_1 x = ground arith

div_between : (x p c : ℕ) → 0 < p → c * p ≤ x → x < suc c * p → x / p ≡ c
div_between x p c pos low high =
    let small : x / p < suc c = (div-lt_iff_lt-mul pos).1 high in
    elim (Bool-cases (ltb (x / p) c)) [
      | inl e ↦
          absurd (omega (arith, (div-lt_iff_lt-mul {x = x} {y = c} pos).0 (ground (arith, e)), low))
      | inr e ↦ ground (arith, e, small)
    ]

ceil_zero : (p : ℕ) → 16 ≤ p → (rounded (0 * p) 25 + (p - 1)) / p ≡ 0
unfolding rounded
ceil_zero p h = div-eq_of_lt (ground (arith, h))

product-suc : (d p : ℕ) → suc d * p ≡ d * p + p
product-suc d p = omega arith

product_low : (d p : ℕ) → (25 * d + 1) * p ≡ 25 * (d * p) + p
product_low d p = omega arith

product_high : (d p : ℕ) → 25 * suc d * p ≡ 25 * (d * p) + 25 * p
product_high d p = omega arith

-- With sixteenths or finer fractions, the rounding does not move a quotient by 25 past a whole number.
ceil_suc :
    (a p d : ℕ)
    → 16 ≤ p
    → 25 * d + 1 ≤ a
    → a ≤ 25 * suc d
    → (rounded (a * p) 25 + (p - 1)) / p ≡ suc d
ceil_suc a p d h low high =
    let (most, least) = rounded_25 (a * p) in
    let below : (25 * d + 1) * p ≤ a * p = mul-le-mul_right p low in
    let above : a * p ≤ (25 * suc d) * p = mul-le-mul_right p high in
    div_between (rounded (a * p) 25 + (p - 1)) p (suc d) (omega (arith, h))
      (omega (arith, most, least, below, h, product-suc d p, product_low d p))
      (omega (arith, most, above, h, product-suc (suc d) p, product-suc d p, product_high d p))

narrow_once :
    (fuel num : ℕ)
    → num * 2 < 25 * 16777216
    → too_narrow (suc fuel) num 25 ≡ too_narrow fuel (num * 2) 25 + 1
unfolding too_narrow
narrow_once fuel num h = ground arith

-- Fewer than 2 ^ 24 rows are divided with sixteenths or finer fractions.
narrow : (num : ℕ) → num < 16777216 → (k : ℕ) × (too_narrow 32 num 25 ≡ k + 4)
narrow num h = (
  too_narrow 28 (num * 2 * 2 * 2 * 2) 25,
  narrow_once 31 num (omega (arith, h))
      ∙ ap (λ k. k + 1)
          (narrow_once 30 (num * 2) (omega (arith, h))
            ∙ ap (λ k. k + 1)
                (narrow_once 29 (num * 2 * 2) (omega (arith, h))
                  ∙ ap (λ k. k + 1) (narrow_once 28 (num * 2 * 2 * 2) (omega (arith, h)))))
      ∙ omega arith,
)

power_low : (k : ℕ) → 16 ≤ 2 ^ (k + 4)
power_low zero = omega arith
power_low (suc k) =
    subst (λ n. 16 ≤ 2 ^ n) {x = suc (k + 4)} {y = suc k + 4} (omega arith)
      (omega (arith, pow-suc 2 (k + 4), power_low k))

too_wide_none : (fuel num den : ℕ) → num < den * 16777216 → too_wide (suc fuel) num den ≡ 0
unfolding too_wide
too_wide_none fuel num den h = ground (arith, h)

to_float_lem : (n : ℕ) → n < 16777216 → to_float n ≡ n
unfolding to_float
to_float_lem n h =
    let none_too_wide : too_wide 64 n 1 ≡ 0 = too_wide_none 63 n 1 (omega (arith, h)) in
    rw (none_too_wide, rounded_1 n) (omega arith)

ceil_lem : (n p : ℕ) → 16 ≤ p → (rounded (n * p) 25 + (p - 1)) / p ≡ (n + 24) / 25
ceil_lem n p h = elim (Bool-cases (ltb n 1)) [
  | inl e ↦
      subst (λ a. (rounded (a * p) 25 + (p - 1)) / p ≡ (a + 24) / 25) {x = 0} {y = n}
        (ground (arith, e)) (ceil_zero p h)
  | inr e ↦
      let d = (n - 1) / 25 in
      let some_rows : 1 ≤ n = ground (arith, e) in
      ceil_suc n p d h (omega (arith, some_rows)) (omega (arith, some_rows))
      ∙ omega (arith, some_rows)
]

ceil_quotient_lem : (n : ℕ) → n < 16777216 → ceil_quotient n 25 ≡ (n + 24) / 25
unfolding ceil_quotient
ceil_quotient_lem n h =
    let (k, fine) = narrow n h in
    let short : ltb n (25 * 16777216) ≡ true = ground (arith, h) in
    rw (short, fine) (ceil_lem n (2 ^ (k + 4)) (power_low k))

-- The floats give the number of pages that is meant, for fewer than 2 ^ 24 rows.
pub pages_exact :
    (names : List Text) → length names < 16777216 → pages names ≡ (length names + 24) / 25
unfolding pages
pages_exact names h =
    let rows = length names in rw (to_float_lem rows h, ceil_quotient_lem rows h) (omega (arith, h))
