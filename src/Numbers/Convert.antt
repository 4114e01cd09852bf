-- ===== src/Numbers/Convert.antt =====
-- conv_num of modules/trivia/numerics.cpp: a number in words.
use triviabot.Common.{
  ℕ, ◌+◌, ◌*◌, ◌≡◌, refl, Bool, true, false, not, ◌&&◌, ◌||◌, String, List, [], ◌∷◌, ◌++◌, none,
  some, if◌then◌else◌, is_empty, arith, Bool-cases, inl, inr, ◌⊎◌,
}
use triviabot.Text.{Text, lowercase, is_digit, replaced, to_string}
use triviabot.Text.Decimal.{Digits, to_string-Digits}
use triviabot.Host.{Host, translate, matches}
use triviabot.Numbers.{words, word_value}

-- The variables of the second loop.
pub record Count : Type 0 where
  pub last : ℕ
  pub initial : ℕ
  pub currency : Text

-- An amount: digits, perhaps behind a dollar sign.
abbrev pub IsAmount : Text → Type 0
IsAmount s = (d : Text) × Digits d × ((s ≡ d) ⊎ (s ≡ b'$' ∷ d))

abbrev IsCurrency : Text → Type 0
IsCurrency s = (s ≡ []) ⊎ (s ≡ b'$' ∷ [])

amount : (s d : Text) → IsCurrency s → Digits d → IsAmount (s ++ d)
amount s d (inl e) h = (d, h, inl (rw e))
amount s d (inr e) h = (d, h, inr (rw e))

module _ (host : Host) (language : Text) where
  abbrev word : String → Text
  word k = translate host language k

  -- The map `nn`. (FOURTY is the key's spelling.)
  nn : List (Text × ℕ)
  nn =
      (word "ONE", 1)
      ∷ (word "TWO", 2)
      ∷ (word "THREE", 3)
      ∷ (word "FOUR", 4)
      ∷ (word "FIVE", 5)
      ∷ (word "SIX", 6)
      ∷ (word "SEVEN", 7)
      ∷ (word "EIGHT", 8)
      ∷ (word "NINE", 9)
      ∷ (word "TEN", 10)
      ∷ (word "ELEVEN", 11)
      ∷ (word "TWELVE", 12)
      ∷ (word "THIRTEEN", 13)
      ∷ (word "FOURTEEN", 14)
      ∷ (word "FIFTEEN", 15)
      ∷ (word "SIXTEEN", 16)
      ∷ (word "SEVENTEEN", 17)
      ∷ (word "EIGHTEEN", 18)
      ∷ (word "NINETEEN", 19)
      ∷ (word "TWENTY", 20)
      ∷ (word "THIRTY", 30)
      ∷ (word "FOURTY", 40)
      ∷ (word "FIFTY", 50)
      ∷ (word "SIXTY", 60)
      ∷ (word "SEVENTY", 70)
      ∷ (word "EIGHTY", 80)
      ∷ (word "NINETY", 90)
      ∷ []

  is_word : String → Text → Bool
  is_word k s = matches host true (word k) s

  -- The test of the first loop.
  known : Text → Bool
  unfolding is_word
  known w =
      elim (word_value (lowercase w) nn) [ some v ↦ true | none ↦ false ]
      || is_word "MILLION" w
      || is_word "THOUSAND" w
      || is_word "HUNDRED" w
      || is_word "DOLLARS" w

  all_known : List Text → Bool
  all_known [] = true
  all_known (w ∷ ws) = known w && all_known ws

  lookahead : List Text → Text
  lookahead [] = []
  lookahead (w ∷ ws) = w

  -- `last` and `currency` after the word itself.
  read_word : Text → Count → Count
  unfolding is_word
  read_word nextnum c =
      let v : ℕ = elim (word_value nextnum nn) [ some v ↦ v | none ↦ c.last ] in
      if is_word "DOLLARS" nextnum
      then record c { last = 0; currency = b'$' ∷ [] }
      else record c { last = v }

  -- `initial` and `last` after the word behind it. (A `last` that no factor takes up stays.)
  scale : Text → Count → Count
  unfolding is_word
  scale ahead c =
      if not (is_word "HTM_REGEX" ahead)
      then record c { initial = c.initial + c.last; last = 0 }
      else if is_word "HUNDRED" ahead
      then record c { initial = c.initial + c.last * 100; last = 0 }
      else if is_word "THOUSAND" ahead
      then record c { initial = c.initial + c.last * 1000; last = 0 }
      else if is_word "MILLION" ahead
      then record c { initial = c.initial + c.last * 1000000; last = 0 }
      else c

  conv_loop : List Text → Count → Count
  unfolding read_word scale lookahead
  conv_loop [] c = c
  conv_loop (w ∷ ws) c = conv_loop ws (scale (lookahead ws) (read_word (lowercase w) c))

  spaced : Text → Text
  spaced datain =
      let d = if is_empty datain then word "ZERO" else datain in
      replaced (replaced (replaced d (32 ∷ 32 ∷ []) (32 ∷ [])) (b'-' ∷ []) []) (word "AND_SPACED")
        (32 ∷ [])

  unfoldable pub conv_num : Text → Text
  unfolding spaced all_known conv_loop known nn
  conv_num datain =
      let nums = words (spaced datain) in
      let c = conv_loop nums (record { last = 0; initial = 0; currency = [] }) in
      if all_known nums then c.currency ++ to_string c.initial else b'0' ∷ []

  scale-IsCurrency :
      (ahead : Text) (c : Count) → IsCurrency c.currency → IsCurrency (scale ahead c).currency
  unfolding scale
  scale-IsCurrency ahead c h = ground arith

  read_word-IsCurrency :
      (w : Text) (c : Count) → IsCurrency c.currency → IsCurrency (read_word w c).currency
  unfolding read_word
  read_word-IsCurrency w c h = ground arith

  conv_loop-IsCurrency :
      (ws : List Text) (c : Count) → IsCurrency c.currency → IsCurrency (conv_loop ws c).currency
  unfolding conv_loop
  conv_loop-IsCurrency [] c h = h
  conv_loop-IsCurrency (w ∷ ws) c h =
      conv_loop-IsCurrency ws _
        (scale-IsCurrency (lookahead ws) _ (read_word-IsCurrency (lowercase w) c h))

  -- Whatever is typed, conv_num answers with an amount.
  pub conv_num-IsAmount : (s : Text) → IsAmount (conv_num s)
  unfolding conv_num
  conv_num-IsAmount s = elim (Bool-cases (all_known (words (spaced s)))) [
    | inl e ↦
        rw (e, conv_num)
          (amount _ _ (conv_loop-IsCurrency (words (spaced s)) _ (inl refl)) (to_string-Digits _))
    | inr e ↦ rw (e, conv_num) ((b'0' ∷ []), (unfold is_digit in refl, tt), inl refl)
  ]
