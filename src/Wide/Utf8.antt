-- ===== src/Wide/Utf8.antt =====
-- `std::wstring_convert<std::codecvt_utf8<wchar_t>>`, with 32-bit characters.
pub mod RoundTrip
use triviabot.Common.{
  ℕ, zero, suc, ◌+◌, ◌-◌, ◌*◌, ◌/◌, ◌%◌, Bool, true, false, not, ◌&&◌, ◌||◌, List, [], ◌∷◌, ◌++◌,
  Option, none, some, leb, ltb, ◌==◌, if◌then◌else◌,
}
use triviabot.Text.{Text}

-- A `std::wstring`, as its code points.
abbrev pub Wide : Type 0
Wide = List ℕ

-- What the first byte of a sequence says: how many bytes follow, its bits, and the least code point
-- that needs so many bytes.
lead : ℕ → Option (ℕ × ℕ × ℕ)
lead b =
    if ltb b 0x80
    then some (0, b, 0)
    else if ltb b 0xc2
    then none
    else if ltb b 0xe0
    then some (1, b - 0xc0, 0x80)
    else if ltb b 0xf0
    then some (2, b - 0xe0, 0x800)
    else if ltb b 0xf5
    then some (3, b - 0xf0, 0x10000)
    else none

is_scalar : ℕ → ℕ → Bool
is_scalar least c = leb least c && (ltb c 0xd800 || (leb 0xe000 c && leb c 0x10ffff))

cons_char : ℕ → Option Wide → Option Wide
cons_char c none = none
cons_char c (some s) = some (c ∷ s)

-- `pending` bytes are still to come for the character whose bits so far are `acc`.
decode : (pending acc least : ℕ) → Text → Option Wide
unfolding lead is_scalar cons_char
decode zero acc least [] = some []
decode (suc k) acc least [] = none
decode zero acc least (b ∷ s) = elim (lead b) [
  | none ↦ none
  | some (k, a, l) ↦ elim k [ zero ↦ cons_char a (decode 0 0 0 s) | suc j ↦ decode (suc j) a l s ]
]
decode (suc k) acc least (b ∷ s) =
    let c = acc * 64 + (b - 0x80) in
    elim (leb 0x80 b && ltb b 0xc0) [
      | false ↦ none
      | true ↦ elim k [
        | zero ↦ elim (is_scalar least c) [ true ↦ cons_char c (decode 0 0 0 s) | false ↦ none ]
        | suc j ↦ decode (suc j) c least s
      ]
    ]

-- `c_str()`: the text up to its first zero byte.
until_nul : Text → Text
until_nul [] = []
until_nul (b ∷ s) = if b == 0 then [] else b ∷ until_nul s

unfoldable pub from_bytes : Text → Option Wide
unfolding decode until_nul
from_bytes s = decode 0 0 0 (until_nul s)

unfoldable pub encode_char : ℕ → Text
encode_char c =
    if ltb c 0x80
    then c ∷ []
    else if ltb c 0x800
    then (0xc0 + c / 64) ∷ (0x80 + c % 64) ∷ []
    else if ltb c 0x10000
    then (0xe0 + c / 4096) ∷ (0x80 + c / 64 % 64) ∷ (0x80 + c % 64) ∷ []
    else (0xf0 + c / 262144) ∷ (0x80 + c / 4096 % 64) ∷ (0x80 + c / 64 % 64) ∷ (0x80 + c % 64) ∷ []

unfoldable pub to_bytes : Wide → Text
unfolding encode_char
to_bytes [] = []
to_bytes (c ∷ s) = encode_char c ++ to_bytes s
