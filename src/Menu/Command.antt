-- ===== src/Menu/Command.antt =====
-- The command that a menu composes, as handle_command and cmd_start.cpp read it.
use triviabot.Common.{
  ℕ, ◌-◌, ◌<◌, ◌≡◌, ◌≢◌, refl, sym, ◌∙◌, ap, false, List, [], ◌∷◌, ◌++◌, some, length, text_eq,
  append_assoc,
}
use mathlib.Core.Path.{subst}
use triviabot.Text.{Text, ascii, take, getline, trim, lowercase, to_string}
use triviabot.Text.Words.{IsWord, IsBehind, trim_space, take_last}
use triviabot.Commands.Handle.{base_command}
use triviabot.Start.{StartCmd, parse_request}
use triviabot.Start.Reading.{command_read}
use triviabot.Menu.{InFlight, command_name, category_list, start_message}

-- The categories with semicolons between them.
abbrev pub joined : List Text → Text
joined [] = []
joined (c ∷ []) = c
joined (c ∷ (d ∷ categories)) = c ++ 59 ∷ joined (d ∷ categories)

-- What stands behind the number of questions.
abbrev pub behind : List Text → Text
behind [] = []
behind (c ∷ categories) = 32 ∷ joined (c ∷ categories)

category_list_cons :
    (c : Text) (categories : List Text)
    → category_list (c ∷ categories) ≡ joined (c ∷ categories) ++ 59 ∷ []
unfolding category_list
category_list_cons c [] = refl
category_list_cons c (d ∷ categories) =
    ap (λ t. c ++ 59 ∷ t) (category_list_cons d categories)
    ∙ sym (append_assoc c (59 ∷ joined (d ∷ categories)) (59 ∷ []))

cut :
    (name n b : Text) (c : ℕ) (msg : Text)
    → msg ≡ name ++ 32 ∷ (n ++ (b ++ c ∷ []))
    → take (length msg - 1) msg ≡ name ++ 32 ∷ (n ++ b)
cut name n b c msg e =
    let whole : (name ++ 32 ∷ (n ++ b)) ++ c ∷ [] ≡ msg =
      append_assoc name (32 ∷ (n ++ b)) (c ∷ [])
      ∙ ap (λ t. name ++ 32 ∷ t) (append_assoc n b (c ∷ []))
      ∙ sym e in
    subst (λ m. take (length m - 1) m ≡ name ++ 32 ∷ (n ++ b)) whole
      (take_last (name ++ 32 ∷ (n ++ b)) c)

cut_behind :
    (name n : Text) (categories : List Text)
    → let msg = name ++ 32 ∷ (n ++ 32 ∷ category_list categories) in
      take (length msg - 1) msg ≡ name ++ 32 ∷ (n ++ behind categories)
unfolding category_list
cut_behind name n [] = cut name n [] 32 _ refl
cut_behind name n (c ∷ categories) =
    cut name n (32 ∷ joined (c ∷ categories)) 59 _
      (ap (λ t. name ++ 32 ∷ (n ++ 32 ∷ t)) (category_list_cons c categories))

start_message_lem :
    (i : InFlight)
    → start_message i ≡ command_name i.type ++ 32 ∷ (to_string i.questions ++ behind i.categories)
unfolding start_message
start_message_lem i = cut_behind (command_name i.type) (to_string i.questions) i.categories

behind-IsBehind : (categories : List Text) → IsBehind (behind categories)
behind-IsBehind [] = tt
behind-IsBehind (c ∷ categories) = refl

rest_line :
    (categories : List Text)
    → trim (getline (behind categories)) ≡ trim (getline (joined categories))
unfolding getline
rest_line [] = refl
rest_line (c ∷ categories) = trim_space (getline (joined (c ∷ categories)))

-- The command that a menu composes is read back: handle_command finds the command of the type of the
-- menu, in lower case; and the start command reads from the rest the number of questions and, with
-- semicolons between them, the categories, up to the end of a line and without white space at the ends.
-- The name must be a word other than "trivia", and the number between 1 and 2 ^ 31 - 1.
pub start_message-parse_request :
    (i : InFlight)
    → IsWord (command_name i.type)
    → command_name i.type ≢ []
    → text_eq (lowercase (command_name i.type)) (ascii "trivia") ≡ false
    → 0 < i.questions
    → i.questions < 2147483648
    → (args : Text) × (base_command (start_message i) ≡ (lowercase (command_name i.type), args))
      × ((cmd : StartCmd)
          → cmd.args ≡ args
          → parse_request cmd ≡ some (some i.questions, trim (getline (joined i.categories))))
start_message-parse_request i word there other low high =
    let b = behind i.categories in
    let (base, parse) =
      command_read (command_name i.type) i.questions b word there other low high
        (behind-IsBehind i.categories) in
    (
      32 ∷ (to_string i.questions ++ b),
      ap base_command (start_message_lem i) ∙ base,
      λ cmd e. parse cmd e ∙ ap (λ t. some (some i.questions, t)) (rest_line i.categories),
    )
