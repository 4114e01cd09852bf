-- ===== src/Numbers/Roman.antt =====
-- The Roman numeral of a number is read as that number.
use triviabot.Common.{
  ℕ, zero, suc, ◌+◌, ◌-◌, ◌*◌, ◌/◌, ◌%◌, ◌≤◌, ◌<◌, ◌≡◌, refl, ap, sym, ◌∙◌, Bool, true, ◌&&◌, List,
  [], ◌∷◌, ◌++◌, ltb, ◌==◌, ==_iff, Bool-cases, inl, inr, if◌then◌else◌, arith, append_assoc,
  append-nil,
}
use triviabot.Text.{Text}
use triviabot.Numbers.{roman_while, roman_loop, numerals, roman}

-- The value of a letter.
letter : ℕ → ℕ
letter c =
    if c == b'I'
    then 1
    else if c == b'V'
    then 5
    else if c == b'X'
    then 10
    else if c == b'L'
    then 50
    else if c == b'C'
    then 100
    else if c == b'D'
    then 500
    else if c == b'M'
    then 1000
    else 0

-- How a Roman numeral is read: a letter in front of a greater one is subtracted, any other added.
pub reads : Text → ℕ
unfolding letter
reads [] = 0
reads (c ∷ []) = letter c
reads (c ∷ d ∷ s) =
    let rest = reads (d ∷ s) in
    if ltb (letter c) (letter d) then rest - letter c else letter c + rest

letter-le : (c : ℕ) → letter c ≤ 1000
unfolding letter
letter-le c = ground arith

-- `k` letters M.
ms : ℕ → Text
ms zero = []
ms (suc k) = b'M' ∷ ms k

reads-m : (s : Text) → reads (b'M' ∷ s) ≡ 1000 + reads s
unfolding reads
reads-m [] = omega arith
reads-m (d ∷ s) = let le = letter-le d in ground arith

ms-zero : (s : Text) → ms 0 ++ s ≡ s
unfolding ms
ms-zero s = refl

reads-ms : (k : ℕ) (s : Text) → reads (ms k ++ s) ≡ k * 1000 + reads s
unfolding ms
reads-ms zero s = omega arith
reads-ms (suc k) s = omega (arith, reads-m (ms k ++ s), reads-ms k s)

while_thousands :
    (k r fuel d : ℕ) (result : Text)
    → r < 1000
    → d ≡ k * 1000 + r
    → d ≤ fuel
    → roman_while fuel 1000 (b'M' ∷ []) d result ≡ (r, result ++ ms k)
unfolding roman_while ms
while_thousands zero r zero d result h e f = ground (arith, append-nil result)
while_thousands zero r (suc fuel) d result h e f = ground (arith, append-nil result)
while_thousands (suc k) r zero d result h e f = absurd (omega arith)
while_thousands (suc k) r (suc fuel) d result h e f = ground (
  arith,
  while_thousands k r fuel (d - 1000) (result ++ b'M' ∷ []) h,
  append_assoc result (b'M' ∷ []) (ms k),
)

while_prefix :
    (fuel value : ℕ) (numeral : Text) (decimal : ℕ) (p q : Text)
    → roman_while fuel value numeral decimal (p ++ q) ≡ (
      (roman_while fuel value numeral decimal q).0,
      p ++ (roman_while fuel value numeral decimal q).1,
    )
unfolding roman_while
while_prefix zero value numeral decimal p q = refl
while_prefix (suc fuel) value numeral decimal p q = ground (
  arith,
  while_prefix fuel value numeral (decimal - value) p (q ++ numeral),
  append_assoc p q numeral,
)

loop_prefix :
    (l : List (ℕ × Text)) (decimal : ℕ) (p q : Text)
    → roman_loop l decimal (p ++ q) ≡ p ++ roman_loop l decimal q
unfolding roman_loop
loop_prefix [] decimal p q = refl
loop_prefix ((value, numeral) ∷ l) decimal p q =
    rw (while_prefix decimal value numeral decimal p q) (loop_prefix l _ p _)

-- A test of `count` numbers from `first` on.
tested : (test : ℕ → Bool) (first count : ℕ) → Bool
tested test first zero = true
tested test first (suc count) = test first && tested test (first + 1) count

tested_lem :
    (test : ℕ → Bool) (first count n : ℕ)
    → tested test first count ≡ true
    → first ≤ n
    → n < first + count
    → test n ≡ true
unfolding tested
tested_lem test first zero n h low high = absurd (omega arith)
tested_lem test first (suc count) n h low high = elim (Bool-cases (n == first)) [
  | inl e ↦ (let same : n ≡ first = (==_iff n first).0 e in rw same (ground (arith, h)))
  | inr e ↦ tested_lem test (first + 1) count n (ground (arith, h)) (ground arith) (omega arith)
]

small : tested (λ n. reads (roman n) == n) 0 1000 ≡ true
unfolding tested reads roman
small = refl

-- The loop over the numerals below 1000.
abbrev rest_of : List (ℕ × Text) → List (ℕ × Text)
rest_of [] = []
rest_of (x ∷ l) = l

roman_split :
    (k r : ℕ) → r < 1000 → roman (k * 1000 + r) ≡ ms k ++ roman_loop (rest_of numerals) r []
unfolding roman numerals roman_loop
roman_split k r h =
    let n = k * 1000 + r in
    ap (λ (w : ℕ × Text). roman_loop (rest_of numerals) w.0 w.1)
      (while_thousands k r n n [] h refl (omega arith))
    ∙ ap (λ t. roman_loop (rest_of numerals) r t) (sym (append-nil (ms k)))
    ∙ loop_prefix (rest_of numerals) r (ms k) []

-- The numeral of every number is read as that number: the loops end, and add up to the number.
pub reads-roman : (n : ℕ) → reads (roman n) ≡ n
reads-roman n =
    let k = n / 1000 in
    let r = n % 1000 in
    let below : r < 1000 = omega arith in
    let whole : n ≡ k * 1000 + r = omega arith in
    let tail = roman_loop (rest_of numerals) r [] in
    let alone : reads (roman r) ≡ r =
      (==_iff _ r).0
        (tested_lem (λ n. reads (roman n) == n) 0 1000 r small (omega arith) (omega arith)) in
    let same : roman r ≡ tail =
      ap roman (let e : r ≡ 0 * 1000 + r = omega arith in e)
      ∙ roman_split 0 r below
      ∙ ms-zero tail in
    ap reads (ap roman whole ∙ roman_split k r below)
    ∙ reads-ms k tail
    ∙ ap (λ t. k * 1000 + t) (ap reads (sym same) ∙ alone)
    ∙ sym whole
