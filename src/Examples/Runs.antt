-- ===== src/Examples/Runs.antt =====
-- Single runs of the operations on texts and numbers.
use triviabot.Common.{◌≡◌, refl, some}
use triviabot.Text.{ascii, lowercase, comma, replace_string, from_string, values64}
use triviabot.Numbers.{roman, words}
use triviabot.Levenstein.{distance}
use triviabot.Game.Hints.{piglatin}

kitten : distance (ascii "kitten") (ascii "sitting") ≡ 3
unfolding distance
kitten = refl

pig : piglatin (ascii "Trivia bot") ≡ ascii "Pig Latin: iviatray otbay "
unfolding piglatin words lowercase
pig = refl

digits_of_1234567 : comma 1234567 ≡ ascii "1,234,567"
unfolding comma
digits_of_1234567 = refl

hello : replace_string (ascii "Hello World") (ascii "o") (ascii "0") ≡ some (ascii "Hell0 W0rld")
unfolding replace_string
hello = refl

minus : from_string values64 (ascii " -1x") ≡ 18446744073709551615
unfolding from_string
minus = refl

mcmxciv : roman 1994 ≡ ascii "MCMXCIV"
unfolding roman
mcmxciv = refl
