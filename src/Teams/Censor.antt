-- ===== src/Teams/Censor.antt =====
-- modules/trivia/neutrino_api.cpp: what the callback of the censor is called with.
use triviabot.Common.{Bool, true, false, List, [], ◌∷◌, Option, none, some, if◌then◌else◌}
use triviabot.Text.{Text}

-- swear_filter_t.
pub record SwearFilter : Type 0 where
  pub clean : Bool
  pub censored_content : Text

-- What the JSON library reads in the body of an answer: it throws, it finds no bad word, or it finds
-- one, with the masked text where there is one (and throws where there is none).
pub data Body : Type 0 where
  malformed : Body
  no_bad_word : Body
  bad_word : Option Text → Body

-- The answer of the service: whether the request went well, and its body, if that is not empty.
pub record Answer : Type 0 where
  pub success : Bool
  pub body : Option Body

abbrev pub unmarked : SwearFilter
unmarked = record { clean = true; censored_content = [] }

unfoldable pub after_parse : Body → List SwearFilter
after_parse malformed = unmarked ∷ unmarked ∷ []
after_parse no_bad_word = unmarked ∷ []
after_parse (bad_word none) =
    let sf : SwearFilter = record { clean = false; censored_content = [] } in sf ∷ sf ∷ []
after_parse (bad_word (some masked)) = record { clean = false; censored_content = masked } ∷ []

-- contains_bad_word: the arguments of the calls of the callback, in their order.
unfoldable pub contains_bad_word : Answer → List SwearFilter
contains_bad_word answer = elim answer.body [
  | none ↦ unmarked ∷ []
  | some body ↦ if answer.success then after_parse body else unmarked ∷ []
]
