-- ===== src/Text.antt =====
-- include/sporks/stringops.h and src/stringops.cpp: byte strings, and numbers in them.
pub mod Trim
pub mod Replace
pub mod Decimal
pub mod Commas
pub mod Words
use Prim.Native.Char.{code}
use triviabot.Common.{
  ℕ, zero, suc, ◌+◌, ◌-◌, ◌*◌, ◌/◌, ◌%◌, String, Bool, true, false, ◌&&◌, ◌||◌, List, [], ◌∷◌, ◌++◌,
  map, Option, none, some, ltb, leb, ◌==◌, if◌then◌else◌, length, is_empty, ◌≡◌, refl,
}

-- A `std::string`, as its bytes.
abbrev pub Text : Type 0
Text = List ℕ

-- The bytes of an ASCII literal.
abbrev pub ascii : String → Text
ascii String.[] = []
ascii (String.◌∷◌ c s) = code c ∷ ascii s

-- `std::string::substr` from the front, and what it leaves.
unfoldable pub take : ℕ → Text → Text
take zero s = []
take (suc n) [] = []
take (suc n) (c ∷ s) = c ∷ take n s

unfoldable pub drop : ℕ → Text → Text
drop zero s = s
drop (suc n) [] = []
drop (suc n) (c ∷ s) = drop n s

-- `tolower` of one byte; bytes of a longer UTF-8 sequence stay.
unfoldable pub tolower : ℕ → ℕ
tolower c = if leb b'A' c && leb c b'Z' then c + 32 else c

unfoldable pub lowercase : Text → Text
unfolding tolower
lowercase s = map tolower s

-- The set " \t\n\r\f\v".
unfoldable pub is_space : ℕ → Bool
is_space c = c == 32 || c == 9 || c == 10 || c == 13 || c == 12 || c == 11

unfoldable pub ltrim : Text → Text
unfolding is_space
ltrim [] = []
ltrim (c ∷ s) = if is_space c then ltrim s else c ∷ s

unfoldable pub rtrim : Text → Text
unfolding is_space
rtrim [] = []
rtrim (c ∷ s) = let rest = rtrim s in if is_space c && is_empty rest then [] else c ∷ rest

unfoldable pub trim : Text → Text
unfolding ltrim rtrim
trim s = ltrim (rtrim s)

-- `std::getline` on a stream.
unfoldable pub getline : Text → Text
getline [] = []
getline (c ∷ s) = let rest = getline s in if c == 10 then [] else c ∷ rest

-- `stream >> word`: the next word, without the white space in front of it, and what it leaves; `none`
-- where there is no word left.
unfoldable pub until_space : Text → Text × Text
unfolding is_space
until_space [] = ([], [])
until_space (c ∷ s) =
    let rest = until_space s in if is_space c then ([], c ∷ s) else (c ∷ rest.0, rest.1)

unfoldable pub next_word : Text → Option (Text × Text)
unfolding until_space ltrim
next_word s = elim (ltrim s) [ [] ↦ none | c ∷ t ↦ some (until_space (c ∷ t)) ]

-- Whether `s` begins with `p`.
unfoldable pub starts_with : Text → Text → Bool
starts_with [] s = true
starts_with (c ∷ p) [] = false
starts_with (c ∷ p) (d ∷ s) = c == d && starts_with p s

-- `std::string::find`: the first place where `p` stands in `s`.
unfoldable pub find : Text → Text → Option ℕ
unfolding starts_with
find p [] = if is_empty p then some 0 else none
find p (c ∷ s) =
    let later = find p s in
    if starts_with p (c ∷ s) then some 0 else elim later [ none ↦ none | some i ↦ some (suc i) ]

-- The loop of ReplaceString: `out` is what stands before `pos`, `rest` what stands behind it. The
-- lower-case copies are cut at the same places. `none` means that the fuel ran out.
unfoldable pub replace_loop : Text → Text → ℕ → Text → Text → Option Text
unfolding find lowercase take drop
replace_loop search replace zero out rest = none
replace_loop search replace (suc fuel) out rest = elim (find (lowercase search) (lowercase rest)) [
  | none ↦ some (out ++ rest)
  | some i ↦
      replace_loop search replace fuel (out ++ take i rest ++ replace)
        (drop (i + length search) rest)
]

unfoldable pub replace_string : Text → Text → Text → Option Text
unfolding replace_loop
replace_string subject search replace =
    replace_loop search replace (suc (length subject)) [] subject

-- ReplaceString for a search text that is not empty, where the loop ends.
unfoldable pub replaced : Text → Text → Text → Text
unfolding replace_string
replaced subject search replace = elim (replace_string subject search replace) [
  | none ↦ subject
  | some t ↦ t
]

-- `std::to_string` of an unsigned number: `n` has fewer than `fuel` digits.
unfoldable pub digits_onto : ℕ → ℕ → Text → Text
digits_onto zero n out = out
digits_onto (suc fuel) n out = elim (n / 10) [
  | zero ↦ (b'0' + n % 10) ∷ out
  | suc m ↦ digits_onto fuel (suc m) ((b'0' + n % 10) ∷ out)
]

unfoldable pub to_string : ℕ → Text
unfolding digits_onto
to_string n = digits_onto (suc n) n []

unfoldable pub is_digit : ℕ → Bool
is_digit c = leb b'0' c && leb c b'9'

-- The digits at the front of the text, as a number.
unfoldable pub read_digits : ℕ → Text → ℕ
unfolding is_digit
read_digits n [] = n
read_digits n (c ∷ s) = elim (is_digit c) [ true ↦ read_digits (n * 10 + (c - b'0')) s | false ↦ n ]

-- `from_string` of an unsigned type with `2 ^ w` values: `>>` skips white space, reads a sign and
-- digits, gives 0 where there is no digit and the greatest value where the number does not fit.
unfoldable pub read_unsigned : ℕ → Text → ℕ
unfolding read_digits
read_unsigned values [] = 0
read_unsigned values (c ∷ s) =
    let n = read_digits 0 (c ∷ s) in
    let m = read_digits 0 s in
    if c == b'-'
    then (if ltb m values then (values - m) % values else values - 1)
    else (if c == b'+'
        then (if ltb m values then m else values - 1)
        else (if ltb n values then n else values - 1))

unfoldable pub from_string : ℕ → Text → ℕ
unfolding read_unsigned ltrim
from_string values s = read_unsigned values (ltrim s)

-- `from_string<int>`, for its value where that is positive, and 0 elsewhere.
unfoldable pub from_string_int : Text → ℕ
unfolding read_digits ltrim
from_string_int s = elim (ltrim s) [
  | [] ↦ 0
  | c ∷ r ↦
      let n = read_digits 0 (if c == b'+' then r else c ∷ r) in
      if ltb n 2147483648 then n else 2147483647
]

abbrev pub values32 : ℕ
values32 = 4294967296

abbrev pub values64 : ℕ
values64 = 18446744073709551616

-- The loop of Comma: the commas go in from the right, at `i`, `i - 3`, ... while `i > 0`.
unfoldable pub comma_loop : ℕ → ℕ → Text → Text
unfolding take drop
comma_loop zero i s = s
comma_loop (suc fuel) i s =
    let rest = comma_loop fuel (i - 3) (take i s ++ b',' ∷ drop i s) in if ltb 0 i then rest else s

unfoldable pub comma : ℕ → Text
unfolding comma_loop to_string
comma n = let s = to_string n in comma_loop (length s) (length s - 3) s
