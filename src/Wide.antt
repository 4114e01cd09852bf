-- ===== src/Wide.antt =====
-- modules/trivia/wlower.cpp, and the UTF-8 conversions of the standard library that it uses.
pub mod Utf8
pub mod Homoglyph
pub mod Laws
use triviabot.Common.{
  ℕ, zero, suc, ◌+◌, ◌-◌, Bool, true, false, not, ◌&&◌, ◌||◌, List, [], ◌∷◌, map, Option, none,
  some, ◌==◌, if◌then◌else◌, length, keep,
}
use triviabot.Text.{Text}
use Utf8.{Wide, from_bytes, to_bytes}
use Homoglyph.{Picks, homoglyph_char}

-- `none` stands for the exception of a conversion whose bytes are no UTF-8.
infixl 5 ◌>>=◌
abbrev pub ◌>>=◌ {ℓ κ} : {A : Type ℓ} {B : Type κ} → Option A → (A → Option B) → Option B
none >>= f = none
some a >>= f = f a

-- The lazy grammar for Spanish: á é ó ú ü lose their accents.
unfoldable pub drop_accent : ℕ → ℕ
drop_accent c =
    if c == 0xe1
    then b'a'
    else if c == 0xe9
    then b'e'
    else if c == 0xf3
    then b'o'
    else if c == 0xfa || c == 0xfc
    then b'u'
    else c

-- `towlower` is the C library's, in the locale `en_US.UTF-8`.
module _ (towlower : ℕ → ℕ) where
  unfoldable pub lower_char : Bool → ℕ → ℕ
  unfolding drop_accent
  lower_char spanish_hack c = let l = towlower c in if spanish_hack then drop_accent l else l

  unfoldable pub utf8lower : Text → Bool → Option Text
  unfolding lower_char
  utf8lower input spanish_hack = do
    str ← from_bytes input
    some (to_bytes (map (lower_char spanish_hack) str))

  -- Latin vowels, with and without accents, and Cyrillic vowels.
  unfoldable pub is_vowel : ℕ → Bool
  is_vowel c =
      c == 0xe1
      || c == 0xe9
      || c == 0xf3
      || c == 0xfa
      || c == 0xfc
      || c == b'a'
      || c == b'e'
      || c == b'i'
      || c == b'o'
      || c == b'u'
      || (c == 0x435
          || c == 0x43e
          || c == 0x430
          || c == 0x44d
          || c == 0x44b
          || c == 0x443
          || c == 0x44f
          || c == 0x451
          || c == 0x44e
          || c == 0x438)

  -- The loop of countvowel over the characters, with the two counters.
  unfoldable pub count_loop : ℕ → ℕ → Wide → ℕ × ℕ
  unfolding is_vowel
  count_loop vowels len [] = (vowels, len)
  count_loop vowels len (c ∷ s) =
      let l = towlower c in
      count_loop (if is_vowel l then vowels + 1 else vowels) (if l == 32 then len else len + 1) s

  unfoldable pub countvowel : Text → Option (ℕ × ℕ)
  unfolding utf8lower count_loop
  countvowel input = do i ← utf8lower input true; str ← from_bytes i; some (count_loop 0 0 str)

  -- `shuffle` is the permutation that `std::random_shuffle` draws.
  unfoldable pub utf8shuffle : (Wide → Wide) → Text → Option Text
  unfolding utf8lower
  utf8shuffle shuffle input = do
    i ← utf8lower input false
    str ← from_bytes i
    some (to_bytes (shuffle str))

-- `picks` are the characters that stand first after the look-alikes of a letter are shuffled.
unfoldable pub homoglyph : Picks → Text → Option Text
unfolding homoglyph_char
homoglyph picks input = do str ← from_bytes input; some (to_bytes (map (homoglyph_char picks) str))

unfoldable pub wlength : Text → Option ℕ
wlength input = do str ← from_bytes input; some (length str)

-- The first character. The source reads past the end of an empty text, which is `none` here.
first_char : Wide → Option Text
first_char [] = none
first_char (c ∷ s) = some (to_bytes (c ∷ []))

unfoldable pub wfirst : Text → Option Text
unfolding first_char
wfirst input = do str ← from_bytes input; first_char str

last_char : Wide → Option Text
last_char [] = none
last_char (c ∷ []) = some (to_bytes (c ∷ []))
last_char (c ∷ d ∷ s) = last_char (d ∷ s)

unfoldable pub wlast : Text → Option Text
unfolding last_char
wlast input = do str ← from_bytes input; last_char str

-- The punctuation that removepunct leaves out.
unfoldable pub is_punct : ℕ → Bool
is_punct c =
    c == b','
    || c == b'.'
    || c == b':'
    || c == b'/'
    || c == b';'
    || c == b'!'
    || c == b'?'
    || c == b'('
    || c == 0x2018
    || c == 0x2019
    || c == 0x201c
    || c == 0x201d
    || c == 0xab
    || c == 0xbb
    || c == 0x2039
    || c == 0x203a
    || c == 0x300c
    || c == 0x300d
    || c == 0xfe41
    || c == 0xfe42
    || c == 0x300e
    || c == 0x300f
    || c == 0xfe43
    || c == 0xfe44
    || c == 0x300a
    || c == 0x300b
    || c == 0x3008
    || c == 0x3009
    || c == b')'
    || c == b'-'
    || c == b'"'
    || c == 0x27
    || c == 0x201e
    || c == 0xd
    || c == 0xa
    || c == 0x9
    || c == 0xb

unfoldable pub removepunct : Text → Option Text
unfolding is_punct
removepunct input = do str ← from_bytes input; some (to_bytes (keep (λ c. not (is_punct c)) str))
