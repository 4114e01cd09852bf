-- ===== src/Text/Words.antt =====
-- Words of a text, as streams read them, and its ends.
use triviabot.Common.{
  ℕ, ◌-◌, ◌≡◌, ◌≢◌, refl, ap, false, [], ◌∷◌, ◌++◌, some, length, length-append, All, arith,
}
use mathlib.Core.Path.{subst}
use triviabot.Text.{Text, take, is_space, is_digit, ltrim, rtrim, trim, until_space, next_word}
use triviabot.Text.Decimal.{Digits}

take_front : (s t : Text) → take (length s) (s ++ t) ≡ s
unfolding take
take_front [] t = ground arith
take_front (c ∷ s) t = ap (λ r. c ∷ r) (take_front s t)

-- The last character is cut off.
pub take_last : (s : Text) (c : ℕ) → take (length (s ++ c ∷ []) - 1) (s ++ c ∷ []) ≡ s
take_last s c =
    rw (length-append s (c ∷ []))
      (subst (λ n. take n (s ++ c ∷ []) ≡ s) (omega arith) (take_front s (c ∷ [])))

-- No white space.
abbrev pub IsWord : Text → Type 0
IsWord = All (λ c. is_space c ≡ false)

pub Digits-IsWord : (s : Text) → Digits s → IsWord s
unfolding is_digit is_space
Digits-IsWord [] d = tt
Digits-IsWord (c ∷ s) (d, ds) = (ground arith, Digits-IsWord s ds)

-- A text that is empty or begins with a space.
abbrev pub IsBehind : Text → Type 0
IsBehind [] = Unit {0}
IsBehind (c ∷ t) = c ≡ 32

pub until_space-append : (w t : Text) → IsWord w → IsBehind t → until_space (w ++ t) ≡ (w, t)
unfolding until_space is_space
until_space-append [] [] h b = refl
until_space-append [] (c ∷ t) h b = ground (arith, b)
until_space-append (c ∷ w) t (h, hs) b = ground (arith, h, until_space-append w t hs b)

pub ltrim_word : (w t : Text) → IsWord w → w ≢ [] → ltrim (w ++ t) ≡ w ++ t
unfolding ltrim
ltrim_word [] t h e = absurd (e refl)
ltrim_word (c ∷ w) t (h, hs) e = rw h refl

pub next_word-append :
    (w t : Text) → IsWord w → w ≢ [] → IsBehind t → next_word (w ++ t) ≡ some (w, t)
unfolding next_word
next_word-append [] t h e b = absurd (e refl)
next_word-append (c ∷ w) t h e b =
    ground (arith, ltrim_word (c ∷ w) t h e, until_space-append (c ∷ w) t h b)

-- A space in front of a text does not change what is left of it.
pub trim_space : (t : Text) → trim (32 ∷ t) ≡ trim t
unfolding trim ltrim rtrim is_space
trim_space t = ground arith
