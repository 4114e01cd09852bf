-- ===== src/Module/Queued/Read.antt =====
-- The command of a queued start, as handle_command and cmd_start.cpp read it.
use triviabot.Common.{
  ◌<◌, ◌≡◌, ◌≢◌, refl, ◌∙◌, ap, false, [], ◌∷◌, ◌++◌, some, is_empty, text_eq, ◌==◌, if◌then◌else◌,
  inl, inr, Bool-cases,
}
use triviabot.Text.{Text, ascii, to_string, is_space, lowercase, trim, getline}
use triviabot.Host.{Host}
use triviabot.Text.Words.{IsWord, IsBehind, trim_space}
use triviabot.Start.{StartCmd, parse_request}
use triviabot.Start.Reading.{command_read}
use triviabot.Commands.Handle.{base_command}
use triviabot.Module.Queued.{QueuedStart, start_name, queued_of}

-- What stands behind the number of questions.
abbrev pub category_behind : QueuedStart → Text
category_behind r = if is_empty r.category then [] else 32 ∷ r.category

category_behind-IsBehind : (r : QueuedStart) → IsBehind (category_behind r)
category_behind-IsBehind r = elim (Bool-cases (is_empty r.category)) [
  | inl e ↦ rw e tt
  | inr e ↦ rw e refl
]

abbrev pub IsName : Text → Type 0
IsName name =
    IsWord name
    × (name ≢ [])
    × (text_eq (lowercase name) (ascii "trivia") ≡ false)
    × (lowercase name ≡ name)

hardcore-IsName : IsName (ascii "hardcore")
unfolding is_space lowercase text_eq
hardcore-IsName =
    ((refl, (refl, (refl, (refl, (refl, (refl, (refl, (refl, tt)))))))), (λ e. cc), refl, refl)

quickfire-IsName : IsName (ascii "quickfire")
unfolding is_space lowercase text_eq
quickfire-IsName = (
  (refl, (refl, (refl, (refl, (refl, (refl, (refl, (refl, (refl, tt))))))))),
  (λ e. cc),
  refl,
  refl,
)

start-IsName : IsName (ascii "start")
unfolding is_space lowercase text_eq
start-IsName = ((refl, (refl, (refl, (refl, (refl, tt))))), (λ e. cc), refl, refl)

start_name-IsName : (r : QueuedStart) → IsName (start_name r)
unfolding start_name
start_name-IsName r = elim (Bool-cases (r.hintless == 0)) [
  | inr hard ↦ rw hard hardcore-IsName
  | inl hints ↦ elim (Bool-cases (r.quickfire == 0)) [
    | inr quick ↦ rw (hints, quick) quickfire-IsName
    | inl slow ↦ rw (hints, slow) start-IsName
  ]
]

line_of :
    (category : Text)
    → trim (getline (if is_empty category then [] else 32 ∷ category)) ≡ trim (getline category)
unfolding getline
line_of [] = refl
line_of (c ∷ category) = trim_space (getline (c ∷ category))

rest_line : (r : QueuedStart) → trim (getline (category_behind r)) ≡ trim (getline r.category)
rest_line r = line_of r.category

-- A start that is queued is read as it was asked for: handle_command finds the command of its kind, and
-- the start command reads its number of questions, if that is between 1 and 2 ^ 31 - 1, and its
-- category, up to the end of a line and without white space at the ends.
pub queued_of-parse_request :
    (host : Host) (r : QueuedStart)
    → ((a b c : Text) → host.format (ascii "{} {}{}") (a ∷ b ∷ c ∷ []) ≡ a ++ 32 ∷ (b ++ c))
    → 0 < r.questions
    → r.questions < 2147483648
    → (args : Text) × (base_command (queued_of host r).msg ≡ (start_name r, args))
      × ((cmd : StartCmd)
          → cmd.args ≡ args
          → parse_request cmd ≡ some (some r.questions, trim (getline r.category)))
unfolding queued_of
queued_of-parse_request host r formats low high =
    let (word, there, other, lower) = start_name-IsName r in
    let b = category_behind r in
    let (base, parse) =
      command_read (start_name r) r.questions b word there other low high
        (category_behind-IsBehind r) in
    let args = 32 ∷ (to_string r.questions ++ b) in
    (
      args,
      ap base_command (formats (start_name r) (to_string r.questions) b)
          ∙ base
          ∙ ap (λ t. (t, args)) lower,
      λ cmd e. parse cmd e ∙ ap (λ t. some (some r.questions, t)) (rest_line r),
    )
