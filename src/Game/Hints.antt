-- ===== src/Game/Hints.antt =====
-- The hints that do_normal_round builds (modules/trivia/state.cpp), with letterlong and vowelcount
-- of modules/trivia/trivia.cpp and modules/trivia/piglatin.cpp.
pub mod Dollar
use triviabot.Common.{
  ℕ, zero, suc, ◌+◌, ◌-◌, Bool, true, false, not, ◌&&◌, ◌||◌, List, [], ◌∷◌, ◌++◌, map, Option,
  none, some, ltb, leb, ◌==◌, if◌then◌else◌, is_empty, text_eq, ◌≡◌, refl,
}
use triviabot.Text.{Text, ascii, lowercase, replaced, to_string, from_string, values32, values64}
use triviabot.Wide.{◌>>=◌, countvowel, wlength, wfirst, wlast}
use triviabot.Host.{Host, translate, matches}
use triviabot.Numbers.{NumStrs, random, is_number, make_first_hint, dec_to_roman, words}
use triviabot.Game.State.{Question}

abbrev pub hash : ℕ
hash = b'#'

-- All but the capital letters: small letters and odd digits are hidden.
unfoldable pub mask_small : ℕ → ℕ
mask_small c =
    if (leb b'a' c && leb c b'z') || c == b'1' || c == b'3' || c == b'5' || c == b'7' || c == b'9'
    then hash
    else c

-- `toupper` of one byte.
unfoldable pub toupper : ℕ → ℕ
toupper c = if leb b'a' c && leb c b'z' then c - 32 else c

-- The vowels and the even digits are hidden.
unfoldable pub mask_vowel : ℕ → ℕ
unfolding toupper
mask_vowel c =
    let u = toupper c in
    if u == b'A'
      || u == b'E'
      || u == b'I'
      || u == b'O'
      || u == b'U'
      || u == b'2'
      || u == b'4'
      || u == b'6'
      || u == b'8'
      || u == b'0'
    then hash
    else c

unfoldable pub is_vowel : ℕ → Bool
is_vowel c =
    c == b'A'
    || c == b'E'
    || c == b'I'
    || c == b'O'
    || c == b'U'
    || c == b'a'
    || c == b'e'
    || c == b'i'
    || c == b'o'
    || c == b'u'

-- The loop of piglatinword: the letters in front of the first vowel, and the rest from it on.
unfoldable pub split_vowel : Text → Text → Option (Text × Text)
unfolding is_vowel
split_vowel front [] = none
split_vowel front (c ∷ s) =
    let rest = split_vowel (front ++ c ∷ []) s in if is_vowel c then some (front, c ∷ s) else rest

unfoldable pub piglatinword : Text → Text
unfolding split_vowel
piglatinword s = elim (split_vowel [] s) [
  | none ↦ s
  | some (front, rest) ↦ rest ++ front ++ ascii "ay"
]

unfoldable pub join_words : List Text → Text
join_words [] = []
join_words (w ∷ ws) = piglatinword w ++ 32 ∷ join_words ws

unfoldable pub piglatin : Text → Text
unfolding join_words piglatinword
piglatin s = ascii "Pig Latin: " ++ lowercase (join_words (words s))

module _ (host : Host) (language : Text) where
  unfoldable pub letterlong : Text → Option Text
  unfolding wlength wfirst wlast
  letterlong text =
      let t = replaced text (32 ∷ []) [] in
      if is_empty t then some (ascii "An empty answer") else (do
        n ← wlength t
        first ← wfirst t
        last ← wlast t
        some (
            host.format (translate host language "HINT_LETTERLONG")
              (to_string n ∷ first ∷ last ∷ [])))

  unfoldable pub vowelcount : Text → Option Text
  unfolding countvowel
  vowelcount text = do
    (vowels, len) ← countvowel host.towlower text
    some (
        host.format (translate host language "HINT_VOWELCOUNT")
          (to_string len ∷ to_string vowels ∷ []))

  unfoldable pub scrambled : Text → Text
  scrambled shuffle = host.format (translate host language "SCRAMBLED_ANSWER") (shuffle ∷ [])

  unfoldable pub is_language : Text → Bool
  is_language = text_eq language

  -- The first hint, where the question has none of its own. `rand` is what `rand()` draws.
  unfoldable pub first_hint_text : NumStrs → (rand : ℕ) → Question → Option Text
  unfolding scrambled is_language mask_small letterlong make_first_hint random
  first_hint_text numstrs rand q =
      let r = random rand 1 12 in
      if is_number q.answer
      then some (make_first_hint host language numstrs q.answer)
      else if is_language (ascii "bg")
      then some (scrambled q.shuffle1)
      else if leb r 4
      then some (map mask_small q.answer)
      else if leb r 8
      then letterlong q.answer
      else some (scrambled q.shuffle1)

  unfoldable pub dollar_pattern : Text
  dollar_pattern = ascii "^\\$(\\d+)$"

  -- The number whose hint is shown. The dollar sign is put back before the text is read, and a
  -- text that begins with it is read as 0.
  unfoldable pub hint_number : ℕ → Question → ℕ
  unfolding from_string
  hint_number values q = from_string values q.answer

  unfoldable pub second_number_hint : (rand : ℕ) → Question → Text
  unfolding hint_number random
  second_number_hint rand q =
      let r = random rand 1 13 in
      let n = to_string (hint_number values64 q) in
      if ltb r 3 && leb (hint_number values32 q) 10000
      then dec_to_roman host language (hint_number values64 q)
      else if (leb 3 r && ltb r 6) || ltb 10000 (hint_number values64 q)
      then host.format (translate host language "HEX") (n ∷ [])
      else if leb 6 r && leb r 10
      then host.format (translate host language "OCT") (n ∷ [])
      else host.format (translate host language "BIN") (n ∷ [])

  -- The second hint, where the question has none of its own.
  unfoldable pub second_hint_text : (rand : ℕ) → Question → Option Text
  unfolding second_number_hint is_language mask_vowel vowelcount piglatin dollar_pattern random
  second_hint_text rand q =
      let r = random rand 1 12 in
      if is_number q.answer || matches host false dollar_pattern q.answer
      then some (second_number_hint rand q)
      else if leb r 4 && not (is_language (ascii "bg"))
      then some (map mask_vowel q.answer)
      else if (leb 5 r && leb r 6) || not (is_language (ascii "en"))
      then vowelcount q.answer
      else some (piglatin q.answer)
