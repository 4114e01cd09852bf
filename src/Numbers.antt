-- ===== src/Numbers.antt =====
-- modules/trivia/numerics.cpp: numbers in answers and hints.
pub mod Roman
pub mod FirstHint
pub mod Convert
use triviabot.Common.{
  ℕ, zero, suc, ◌+◌, ◌-◌, ◌*◌, ◌%◌, Bool, true, false, not, ◌&&◌, ◌||◌, List, [], ◌∷◌, ◌++◌, Option,
  none, some, ltb, leb, ◌==◌, if◌then◌else◌, length, is_empty, text_eq, ◌≡◌, refl,
}
use triviabot.Text.{
  Text, ascii, take, lowercase, is_space, is_digit, replaced, to_string, from_string, values64,
}
use triviabot.Host.{Host, translate, matches}
use mathlib.Core.List.{reverse}

-- `min + rand() % ((max + 1) - min)`, where `rand` is what the C library draws.
unfoldable pub random : ℕ → ℕ → ℕ → ℕ
random rand min max = min + rand % (max + 1 - min)

-- `numbers` and `romans`, from the last index down.
pub numerals : List (ℕ × Text)
numerals =
    (1000, b'M' ∷ [])
    ∷ (900, b'C' ∷ b'M' ∷ [])
    ∷ (500, b'D' ∷ [])
    ∷ (400, b'C' ∷ b'D' ∷ [])
    ∷ (100, b'C' ∷ [])
    ∷ (90, b'X' ∷ b'C' ∷ [])
    ∷ (50, b'L' ∷ [])
    ∷ (40, b'X' ∷ b'L' ∷ [])
    ∷ (10, b'X' ∷ [])
    ∷ (9, b'I' ∷ b'X' ∷ [])
    ∷ (5, b'V' ∷ [])
    ∷ (4, b'I' ∷ b'V' ∷ [])
    ∷ (1, b'I' ∷ [])
    ∷ []

-- `while (decimal >= numbers[x])`. Each round takes at least 1, so `decimal` rounds are enough.
unfoldable pub roman_while : (fuel value : ℕ) → Text → (decimal : ℕ) → Text → ℕ × Text
roman_while zero value numeral decimal result = (decimal, result)
roman_while (suc fuel) value numeral decimal result =
    let rest = roman_while fuel value numeral (decimal - value) (result ++ numeral) in
    if leb value decimal then rest else (decimal, result)

unfoldable pub roman_loop : List (ℕ × Text) → ℕ → Text → Text
unfolding roman_while
roman_loop [] decimal result = result
roman_loop ((value, numeral) ∷ rest) decimal result =
    let (d, r) = roman_while decimal value numeral decimal result in roman_loop rest d r

-- `result`, before it is put into the language string `ROMAN`.
unfoldable pub roman : ℕ → Text
unfolding roman_loop numerals
roman decimal = roman_loop numerals decimal []

unfoldable pub dec_to_roman : Host → Text → ℕ → Text
unfolding roman translate
dec_to_roman host language decimal =
    host.format (translate host language "ROMAN") (roman decimal ∷ [])

unfoldable pub all_digits : Text → Bool
unfolding is_digit
all_digits [] = true
all_digits (c ∷ s) = is_digit c && all_digits s

unfoldable pub is_number : Text → Bool
unfolding all_digits
is_number s = not (is_empty s) && all_digits s

abbrev comma_text : Text
comma_text = b',' ∷ []

abbrev tidy_dollars : Text
tidy_dollars = ascii "^([\\d\\,]+)\\s+dollars$"

abbrev tidy_nodollars : Text
tidy_nodollars = ascii "^([\\d\\,]+)\\s+(.+?)$"

abbrev tidy_positive : Text
tidy_positive = ascii "^[\\d\\,]+$"

abbrev tidy_negative : Text
tidy_negative = ascii "^\\-[\\d\\,]+$"

-- The group of a match, empty where the pattern has no such group.
abbrev group : ℕ → List Text → Text
group n [] = []
group zero (g ∷ gs) = g
group (suc n) (g ∷ gs) = group n gs

begins_with_dollar : Text → Bool
begins_with_dollar [] = false
begins_with_dollar (c ∷ s) = c == b'$'

-- `tidy_num`, one function for each of its four tests.
module _ (host : Host) where
  tidy_step_dollars : Text → Text
  tidy_step_dollars num = elim (host.match false tidy_dollars num) [
    | none ↦ num
    | some param ↦ b'$' ∷ replaced (group 1 param) comma_text []
  ]

  tidy_step_sign : Text → Text
  unfolding begins_with_dollar
  tidy_step_sign num =
      if ltb 1 (length num) && begins_with_dollar num then replaced num comma_text [] else num

  tidy_step_suffix : Text → Text
  tidy_step_suffix num = elim (host.match false tidy_nodollars num) [
    | none ↦ num
    | some param ↦ replaced (group 1 param) comma_text [] ++ 32 ∷ group 2 param
  ]

  tidy_step_plain : Text → Text
  unfolding matches
  tidy_step_plain num =
      if matches host false tidy_positive num || matches host false tidy_negative num
      then replaced num comma_text []
      else num

  unfoldable pub tidy_num : Text → Text
  unfolding tidy_step_dollars tidy_step_sign tidy_step_suffix tidy_step_plain
  tidy_num num = tidy_step_plain (tidy_step_suffix (tidy_step_sign (tidy_step_dollars num)))

-- `std::stringstream >> word` until it fails: the words between white space.
unfoldable pub words_loop : Text → Text → List Text
unfolding is_space
words_loop [] word = if is_empty word then [] else word ∷ []
words_loop (c ∷ s) word =
    let rest = words_loop s (if is_space c then [] else word ++ c ∷ []) in
    if is_space c && not (is_empty word) then word ∷ rest else rest

unfoldable pub words : Text → List Text
unfolding words_loop
words s = words_loop s []

unfoldable pub word_value : Text → List (Text × ℕ) → Option ℕ
word_value w [] = none
word_value w ((k, v) ∷ m) = if text_eq k w then some v else word_value w m

-- The rows of the table `numstrs`, in the order of the multimap: a number, and its columns.
abbrev pub NumStrs : Type 0
NumStrs = List (ℕ × (Text → Text))

unfoldable pub find_if : ℕ → NumStrs → Option ℕ
find_if number [] = none
find_if number ((k, r) ∷ m) = if leb k number then some k else find_if number m

-- GetNearestNumberVal: the first key from the back that is at most the number.
unfoldable pub nearest : NumStrs → ℕ → ℕ
unfolding find_if
nearest numstrs number = elim (find_if number (reverse numstrs)) [ none ↦ 0 | some k ↦ k ]

find_row : ℕ → NumStrs → Option (Text → Text)
find_row number [] = none
find_row number ((k, r) ∷ m) = if k == number then some r else find_row number m

unfoldable pub numbertoname : NumStrs → Text → ℕ → Text
unfolding find_row
numbertoname numstrs language number = elim (find_row number numstrs) [
  | some row ↦
      if text_eq language (ascii "en")
      then row (ascii "description")
      else row (ascii "trans_" ++ language)
  | none ↦ to_string number
]

-- GetNearestNumber.
unfoldable pub nearest_name : NumStrs → Text → ℕ → Text
unfolding find_if numbertoname
nearest_name numstrs language number = elim (find_if number (reverse numstrs)) [
  | none ↦ ascii "0"
  | some k ↦ numbertoname numstrs language k
]

-- The loop of MakeFirstHint: the text so far and what is left of the number. Each round takes at
-- least 1, so `n` rounds are enough.
unfoldable pub hint_loop : NumStrs → Text → Text → (fuel n : ℕ) → Text → Text × ℕ
unfolding nearest nearest_name
hint_loop numstrs language plus zero n q = (q, n)
hint_loop numstrs language plus (suc fuel) n q =
    let rest =
      hint_loop numstrs language plus fuel (n - nearest numstrs n)
        (q ++ nearest_name numstrs language n ++ plus) in
    if not (nearest numstrs n == 0) && ltb 0 n then rest else (q, n)

-- `Q.substr(0, Q.length() - plus.length())`; a length below 0 wraps, and `substr` gives all of `Q`.
unfoldable pub cut_plus : Text → Text → Text
unfolding take
cut_plus plus q = if ltb (length q) (length plus) then q else take (length q - length plus) q

unfoldable pub hint_text : NumStrs → Text → Text → ℕ → Text
unfolding hint_loop cut_plus numbertoname
hint_text numstrs language plus n =
    let (q, left) = hint_loop numstrs language plus n n [] in
    cut_plus plus (if ltb 0 left then q ++ numbertoname numstrs language left else q)

-- MakeFirstHint with `indollars` false, as all its calls have it.
unfoldable pub make_first_hint : Host → Text → NumStrs → Text → Text
unfolding hint_text translate is_number from_string
make_first_hint host language numstrs s =
    let q =
      if is_number s
      then hint_text numstrs language (translate host language "COMMA_PLUS_SPACE")
          (from_string values64 s)
      else [] in
    if is_empty q then translate host language "LOWEST_NONNEG" else q
