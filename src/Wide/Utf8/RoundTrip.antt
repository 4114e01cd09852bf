-- ===== src/Wide/Utf8/RoundTrip.antt =====
-- UTF-8 encoding and decoding are inverse to one another on Unicode scalar values.
use triviabot.Common.{
  ℕ, zero, suc, ◌+◌, ◌-◌, ◌*◌, ◌/◌, ◌%◌, ◌≤◌, ◌<◌, ◌≡◌, refl, ap, ◌∙◌, true, ◌&&◌, [], ◌∷◌, ◌++◌,
  Option, none, some, leb, ltb, ◌==◌, Bool-cases, All, ◌⊎◌, inl, inr, arith,
}
use triviabot.Text.{Text}
use triviabot.Wide.Utf8.{
  Wide, lead, is_scalar, cons_char, decode, until_nul, from_bytes, encode_char, to_bytes,
}

-- A character that a UTF-8 text can hold behind its first zero byte is none: 1 to 0x10ffff without
-- the surrogates.
abbrev pub IsScalar : ℕ → Type 0
IsScalar c = (0 < c) × (c ≤ 0x10ffff) × ((c < 0xd800) ⊎ (0xe000 ≤ c))

one_byte : (c : ℕ) (s : Text) → c < 0x80 → decode 0 0 0 (c ∷ s) ≡ cons_char c (decode 0 0 0 s)
unfolding decode
one_byte c s h = ground arith

start :
    (b k a l : ℕ) (s : Text)
    → lead b ≡ some (suc k, a, l)
    → decode 0 0 0 (b ∷ s) ≡ decode (suc k) a l s
unfolding decode
start b k a l s h = rw (h, decode)

continue :
    (j acc l b : ℕ) (s : Text)
    → 0x80 ≤ b
    → b < 0xc0
    → decode (suc (suc j)) acc l (b ∷ s) ≡ decode (suc j) (acc * 64 + (b - 0x80)) l s
unfolding decode
continue j acc l b s lo hi =
    let e : (leb 0x80 b && ltb b 0xc0) ≡ true = ground arith in rw (e, decode)

finish :
    (acc l b c : ℕ) (s : Text)
    → 0x80 ≤ b
    → b < 0xc0
    → acc * 64 + (b - 0x80) ≡ c
    → is_scalar l c ≡ true
    → decode 1 acc l (b ∷ s) ≡ cons_char c (decode 0 0 0 s)
unfolding decode
finish acc l b c s lo hi e ok =
    let t : (leb 0x80 b && ltb b 0xc0) ≡ true = ground arith in
    let fits : is_scalar l (acc * 64 + (b - 0x80)) ≡ true = rw e ok in
    rw (t, decode, fits) (ap (λ d. cons_char d (decode 0 0 0 s)) e)

lead_two : (b : ℕ) → 0xc2 ≤ b → b < 0xe0 → lead b ≡ some (1, b - 0xc0, 0x80)
unfolding lead
lead_two b l h = ground arith

lead_three : (b : ℕ) → 0xe0 ≤ b → b < 0xf0 → lead b ≡ some (2, b - 0xe0, 0x800)
unfolding lead
lead_three b l h = ground arith

lead_four : (b : ℕ) → 0xf0 ≤ b → b < 0xf5 → lead b ≡ some (3, b - 0xf0, 0x10000)
unfolding lead
lead_four b l h = ground arith

scalar_true : (least c : ℕ) → least ≤ c → IsScalar c → is_scalar least c ≡ true
unfolding is_scalar
scalar_true least c h k = ground arith

two_bytes :
    (c : ℕ) (s : Text)
    → 0x80 ≤ c
    → c < 0x800
    → decode 0 0 0 ((0xc0 + c / 64) ∷ (0x80 + c % 64) ∷ s) ≡ cons_char c (decode 0 0 0 s)
two_bytes c s l h =
    start _ 0 _ _ _ (lead_two (0xc0 + c / 64) (omega arith) (omega arith))
    ∙ finish _ 0x80 (0x80 + c % 64) c s (omega arith) (omega arith) (omega arith)
        (scalar_true 0x80 c l (omega arith))

three_bytes :
    (c : ℕ) (s : Text)
    → 0x800 ≤ c
    → c < 0x10000
    → IsScalar c
    → decode 0 0 0 ((0xe0 + c / 4096) ∷ (0x80 + c / 64 % 64) ∷ (0x80 + c % 64) ∷ s)
      ≡ cons_char c (decode 0 0 0 s)
three_bytes c s l h k =
    start _ 1 _ _ _ (lead_three (0xe0 + c / 4096) (omega arith) (omega arith))
    ∙ continue 0 _ 0x800 (0x80 + c / 64 % 64) _ (omega arith) (omega arith)
    ∙ finish _ 0x800 (0x80 + c % 64) c s (omega arith) (omega arith) (omega arith)
        (scalar_true 0x800 c l k)

four_bytes :
    (c : ℕ) (s : Text)
    → 0x10000 ≤ c
    → IsScalar c
    → decode 0 0 0
        ((0xf0 + c / 262144) ∷ (0x80 + c / 4096 % 64) ∷ (0x80 + c / 64 % 64) ∷ (0x80 + c % 64) ∷ s)
      ≡ cons_char c (decode 0 0 0 s)
four_bytes c s l k =
    start _ 2 _ _ _ (lead_four (0xf0 + c / 262144) (omega arith) (omega arith))
    ∙ continue 1 _ 0x10000 (0x80 + c / 4096 % 64) _ (omega arith) (omega arith)
    ∙ continue 0 _ 0x10000 (0x80 + c / 64 % 64) _ (omega arith) (omega arith)
    ∙ finish _ 0x10000 (0x80 + c % 64) c s (omega arith) (omega arith) (omega arith)
        (scalar_true 0x10000 c l k)

decode-encode_char :
    (c : ℕ) (s : Text)
    → IsScalar c
    → decode 0 0 0 (encode_char c ++ s) ≡ cons_char c (decode 0 0 0 s)
unfolding encode_char
decode-encode_char c s k =
    ground (arith, one_byte c s, two_bytes c s, three_bytes c s, four_bytes c s)

decode-to_bytes : (w : Wide) → All IsScalar w → decode 0 0 0 (to_bytes w) ≡ some w
unfolding to_bytes cons_char
decode-to_bytes [] h = unfold decode in refl
decode-to_bytes (c ∷ w) h = rw (decode-encode_char c (to_bytes w) h.0, decode-to_bytes w h.1)

until_nul-encode_char :
    (c : ℕ) (s : Text) → 0 < c → until_nul (encode_char c ++ s) ≡ encode_char c ++ until_nul s
unfolding until_nul encode_char
until_nul-encode_char c s h = ground arith

until_nul-to_bytes : (w : Wide) → All IsScalar w → until_nul (to_bytes w) ≡ to_bytes w
unfolding to_bytes
until_nul-to_bytes [] h = unfold until_nul in refl
until_nul-to_bytes (c ∷ w) h =
    until_nul-encode_char c (to_bytes w) h.0.0
    ∙ ap (λ t. encode_char c ++ t) (until_nul-to_bytes w h.1)

-- The conversion to bytes and back gives the same text, for every text of Unicode characters
-- without the zero character.
pub from_bytes-to_bytes : (w : Wide) → All IsScalar w → from_bytes (to_bytes w) ≡ some w
unfolding from_bytes
from_bytes-to_bytes w h = rw (until_nul-to_bytes w h) (decode-to_bytes w h)

-- What a decoded text holds, if it decodes.
abbrev pub Decodes : Option Wide → Type 0
Decodes none = Unit {0}
Decodes (some w) = All IsScalar w

cons_char-Decodes : (c : ℕ) (o : Option Wide) → IsScalar c → Decodes o → Decodes (cons_char c o)
unfolding cons_char
cons_char-Decodes c none h k = tt
cons_char-Decodes c (some w) h k = (h, k)

lead_cases :
    (b : ℕ)
    → 0 < b
    → (lead b ≡ none)
      ⊎ ((lead b ≡ some (0, b, 0)) × (b < 0x80))
      ⊎ ((k : ℕ) × (a : ℕ) × (l : ℕ) × (lead b ≡ some (suc k, a, l)) × (0 < l))
unfolding lead
lead_cases b h = elim (Bool-cases (ltb b 0x80)) [
  | inl e ↦ inr (inl (rw e, ground arith))
  | inr e1 ↦ elim (Bool-cases (ltb b 0xc2)) [
    | inl e ↦ inl (rw (e1, e))
    | inr e2 ↦ elim (Bool-cases (ltb b 0xe0)) [
      | inl e ↦ inr (inr (0, b - 0xc0, 0x80, rw (e1, e2, e), omega arith))
      | inr e3 ↦ elim (Bool-cases (ltb b 0xf0)) [
        | inl e ↦ inr (inr (1, b - 0xe0, 0x800, rw (e1, e2, e3, e), omega arith))
        | inr e4 ↦ elim (Bool-cases (ltb b 0xf5)) [
          | inl e ↦ inr (inr (2, b - 0xf0, 0x10000, rw (e1, e2, e3, e4, e), omega arith))
          | inr e5 ↦ inl (rw (e1, e2, e3, e4, e5))
        ]
      ]
    ]
  ]
]

IsScalar-sound : (least c : ℕ) → 0 < least → is_scalar least c ≡ true → IsScalar c
unfolding is_scalar
IsScalar-sound least c h k = ground arith

decode-Decodes :
    (k acc least : ℕ) (s : Text)
    → All (λ b. 0 < b) s
    → (k ≡ 0) ⊎ (0 < least)
    → Decodes (decode k acc least s)
unfolding decode
decode-Decodes zero acc least [] p h = tt
decode-Decodes (suc k) acc least [] p h = tt
decode-Decodes zero acc least (b ∷ s) p h = elim (lead_cases b p.0) [
  | inl e ↦ rw (e, decode) tt
  | inr (inl (e, lt)) ↦
      rw (e, decode)
        (cons_char-Decodes b (decode 0 0 0 s) (omega arith) (decode-Decodes 0 0 0 s p.1 (inl refl)))
  | inr (inr (k, a, l, e, pos)) ↦ rw (e, decode) (decode-Decodes (suc k) a l s p.1 (inr pos))
]
decode-Decodes (suc zero) acc least (b ∷ s) p h = ground (
  arith,
  IsScalar-sound least (acc * 64 + (b - 0x80)),
  cons_char-Decodes (acc * 64 + (b - 0x80)) (decode 0 0 0 s),
  decode-Decodes 0 0 0 s p.1 (inl refl),
)
decode-Decodes (suc (suc j)) acc least (b ∷ s) p h =
    ground (arith, decode-Decodes (suc j) (acc * 64 + (b - 0x80)) least s p.1)

until_nul-positive : (s : Text) → All (λ b. 0 < b) (until_nul s)
unfolding until_nul
until_nul-positive [] = tt
until_nul-positive (b ∷ s) = elim (Bool-cases (b == 0)) [
  | inl e ↦ rw e tt
  | inr e ↦ rw e (ground arith, until_nul-positive s)
]

-- Whatever is decoded is a text of Unicode characters.
pub from_bytes-Decodes : (s : Text) → Decodes (from_bytes s)
unfolding from_bytes
from_bytes-Decodes s = decode-Decodes 0 0 0 (until_nul s) (until_nul-positive s) (inl refl)
