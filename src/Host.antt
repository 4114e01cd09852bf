-- ===== src/Host.antt =====
-- What the code takes from libraries and from data files, and TriviaModule::_ of
-- modules/trivia/trivia.cpp, which looks a language string up.
use triviabot.Common.{ℕ, String, Bool, List, Option, none, some}
use triviabot.Text.{Text, ascii}

pub record Host : Type 0 where
  -- The C library's `towlower` in the locale `en_US.UTF-8`.
  pub towlower : ℕ → ℕ
  -- `fmt::format`: a format and its arguments as texts.
  pub format : Text → List Text → Text
  -- src/regex.cpp calls PCRE: the groups of a match of the pattern in the text; the flag is for a
  -- match that ignores case.
  pub match : Bool → Text → Text → Option (List Text)
  -- The parsed lang.json: the object of a key, and in it the string of a language.
  pub lang : String → Option (Text → Option Text)

unfoldable pub translate : Host → Text → String → Text
translate host language k = elim (host.lang k) [
  | none ↦ ascii k
  | some o ↦ elim (o language) [ none ↦ ascii k | some v ↦ v ]
]

unfoldable pub matches : Host → Bool → Text → Text → Bool
matches host caseless pattern s = elim (host.match caseless pattern s) [
  | none ↦ Bool.false
  | some groups ↦ Bool.true
]
