-- ===== src/Examples/Texts.antt =====
-- The operations on texts and numbers at concrete ones.
use triviabot.Common.{ℕ, ◌≤◌, ◌<◌, ◌≡◌, ◌≢◌, refl, true, List, [], ◌∷◌, some, map, All, arith}
use mathlib.Core.List.{reverse}
use triviabot.Text.{ascii}
use triviabot.Wide.{countvowel}
use triviabot.Wide.Utf8.{from_bytes, to_bytes}
use triviabot.Numbers.{NumStrs, nearest, find_if, roman, hint_text, numbertoname}
use triviabot.Numbers.Roman.{reads, reads-roman}
use triviabot.Numbers.FirstHint.{sum, has_key, join, hint_text_lem}
use triviabot.Levenstein.{distance}
use triviabot.Levenstein.Edits.{Edit}
use triviabot.Levenstein.Distance.{distance_lem}

distance_lem_example :
    Edit
      (distance (ascii "kitten") (ascii "sitting"))
      (reverse (ascii "kitten"))
      (reverse (ascii "sitting"))
    × ((k : ℕ)
        → Edit k (reverse (ascii "kitten")) (reverse (ascii "sitting"))
        → distance (ascii "kitten") (ascii "sitting") ≤ k)
distance_lem_example = distance_lem (ascii "kitten") (ascii "sitting")

two_of_four : countvowel (λ c. c) (ascii "area") ≡ some (3, 4)
unfolding countvowel from_bytes to_bytes
two_of_four = refl

reads-roman_example : reads (roman 1994) ≡ 1994
reads-roman_example = reads-roman 1994

abbrev a_table : NumStrs
a_table = (1, λ language. ascii "one") ∷ (12, λ language. ascii "a dozen") ∷ []

a_table_reaches : (k : ℕ) → 0 < k → nearest a_table k ≢ 0
unfolding nearest find_if
a_table_reaches k h = ground arith

hint_text_lem_example :
    (ks : List ℕ) × All (λ k. has_key k a_table ≡ true) ks
    × (sum ks ≡ 14)
    × (hint_text a_table (ascii "en") (ascii " + ") 14
        ≡ join (ascii " + ") (map (numbertoname a_table (ascii "en")) ks))
hint_text_lem_example = hint_text_lem a_table (ascii "en") (ascii " + ") 14 a_table_reaches
