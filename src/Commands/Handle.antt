-- ===== src/Commands/Handle.antt =====
-- TriviaModule::handle_command of modules/trivia/commands.cpp: what becomes of a command.
use triviabot.Common.{
  ℕ, Bool, true, false, not, ◌||◌, List, [], ◌∷◌, Option, none, some, ◌==◌, if◌then◌else◌, is_empty,
  text_eq,
}
use triviabot.Text.{Text, ascii, lowercase, trim, getline, next_word}
use triviabot.Commands.{Limits, Gate, runs, warned, quiet, gate}

-- in_cmd, with the roles of its member.
pub record Command : Type 0 where
  pub msg : Text
  pub author_id : ℕ
  pub channel_id : ℕ
  pub guild_id : ℕ
  pub interaction_token : Text
  pub from_dashboard : Bool
  pub roles : List ℕ

-- What handle_command reads: the bot's mode and its test server, the owner of the guild in the
-- database, if it has a row, the permissions of the author (none where they cannot be resolved), the
-- moderator roles of the guild, the commands of the bot, each with its flag `ephemeral`, and the
-- names of the API's commands.
pub record Context : Type 0 where
  pub test_mode : Bool
  pub test_server : ℕ
  pub owner_id : Option ℕ
  pub administrator : Bool
  pub manage_guild : Bool
  pub moderator_roles : List ℕ
  pub commands : List (Text × Bool)
  pub api_commands : List Text

unfoldable pub has_role : (roles : List ℕ) → (moderator_role : ℕ) → Bool
has_role [] moderator_role = false
has_role (role ∷ roles) moderator_role = role == moderator_role || has_role roles moderator_role

unfoldable pub has_moderator_role : (moderator_roles roles : List ℕ) → Bool
has_moderator_role [] roles = false
has_moderator_role (moderator_role ∷ moderator_roles) roles =
    has_role roles moderator_role || has_moderator_role moderator_roles roles

unfoldable pub is_owner : Context → Command → Bool
is_owner ctx cmd = elim ctx.owner_id [ none ↦ false | some owner ↦ owner == cmd.author_id ]

unfoldable pub is_moderator : Context → Command → Bool
unfolding is_owner has_moderator_role has_role
is_moderator ctx cmd =
    is_owner ctx cmd
    || cmd.from_dashboard
    || ctx.administrator
    || ctx.manage_guild
    || has_moderator_role ctx.moderator_roles cmd.roles

-- The name of the command and the tokens behind it. A stream with no word leaves the text as it is.
unfoldable pub base_command : (msg : Text) → Text × Text
base_command msg = elim (next_word msg) [
  | none ↦ ([], [])
  | some (word, tokens) ↦
      if text_eq (lowercase word) (ascii "trivia")
      then elim (next_word tokens) [
        | none ↦ (lowercase word, [])
        | some (second, rest) ↦ (lowercase second, rest)
      ]
      else (lowercase word, tokens)
]

-- `std::map::find`: the key, with the flag of the command.
unfoldable pub find_command : Text → List (Text × Bool) → Option (Text × Bool)
find_command name [] = none
find_command name ((key, ephemeral) ∷ commands) =
    if text_eq key name then some (key, ephemeral) else find_command name commands

-- An interaction is looked up by its whole message first.
unfoldable pub which_command : Context → Command → Option (Text × Bool)
which_command ctx cmd =
    let by_name = find_command (base_command cmd.msg).0 ctx.commands in
    if is_empty cmd.interaction_token
    then by_name
    else elim (find_command cmd.msg ctx.commands) [ none ↦ by_name | some found ↦ some found ]

unfoldable pub is_listed : Text → List Text → Bool
is_listed name [] = false
is_listed name (n ∷ names) = text_eq n name || is_listed name names

-- Where a command goes: nowhere, in test mode or as nobody knows it; to a handler of the bot, with
-- the tokens and whether its author is a moderator; to the API, with its parameters; or it is held up
-- by the rate limit, with a warning or without.
pub data Route : Type 0 where
  dropped : Route
  unknown : Route
  handler : (name tokens : Text) → (moderator : Bool) → Route
  api : (name parameters : Text) → Route
  limited : (told : Bool) → Route

unfoldable pub let_through : Route → Gate × Limits → Route × Limits
let_through route (runs, l) = (route, l)
let_through route (warned, l) = (limited true, l)
let_through route (quiet, l) = (limited false, l)

-- The part of handle_command behind the test mode.
unfoldable pub route_command : Context → (now : ℕ) → Command → Limits → Route × Limits
route_command ctx now cmd l =
    let (name, tokens) = base_command cmd.msg in
    elim (which_command ctx cmd) [
      | some (key, ephemeral) ↦
          let_through (handler key tokens (is_moderator ctx cmd))
            (gate ephemeral cmd.from_dashboard now cmd.channel_id l)
      | none ↦
          if is_listed (trim (lowercase name)) ctx.api_commands
          then let_through (api name (trim (trim (getline tokens))))
              (gate false false now cmd.channel_id l)
          else (unknown, l)
    ]

unfoldable pub handle_command : Context → (now : ℕ) → Command → Limits → Route × Limits
handle_command ctx now cmd l =
    if not ctx.test_mode || ctx.test_server == cmd.guild_id
    then route_command ctx now cmd l
    else (dropped, l)
