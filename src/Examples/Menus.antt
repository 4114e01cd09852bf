-- ===== src/Examples/Menus.antt =====
-- The theorems about menus and queued starts at concrete inputs.
use triviabot.Common.{
  ℕ, ◌≡◌, ◌≢◌, ◌≤◌, refl, true, false, List, [], ◌∷◌, none, some, ◌<◌, map, ◌++◌, lookup, erase,
  insert, inr, ◌⊎◌, All, length, keep, text_eq, arith,
}
use mathlib.Core.Path.{subst}
use triviabot.Text.{Text, ascii, trim, getline, lowercase, take, drop, next_word, is_space}
use triviabot.Game.Counting.{Distinct}
use triviabot.Commands.Handle.{base_command}
use triviabot.Start.{StartCmd, parse_request, member, is_quickfire, wrong_number}
use triviabot.Menu.{
  InFlight, ActiveMenus, Choice, refresh_message, call, save_active_menu, choose, after_choice,
  real_interaction_token, round_type, options_to, option_loop, max_questions, button_click,
  select_click, handled, game_started, start_message, command_name, pages, page_rows, offered,
}
use triviabot.Menu.Offers.{offered_accepted}
use triviabot.Menu.Pages.{shown, pages_lem}
use triviabot.Menu.Steps.{Reach, calls, selects, no_menus, onward, started}
use triviabot.Menu.Choices.{IsOffered}
use triviabot.Menu.Command.{joined, start_message-parse_request}
use triviabot.Host.{Host}
use triviabot.Module.Queued.{
  QueuedStart, start_name, queued_of, mine, left, check_for_queued_starts,
  check_for_queued_starts_lem,
}
use triviabot.Module.Queued.Read.{queued_of-parse_request}
use triviabot.Examples.{a_guild, a_host}

abbrev names : List Text
names = ascii "Animals" ∷ ascii "Music" ∷ []

pages_lem_example :
    (shown 1 (pages names) names ≡ names)
    × ((page : ℕ) → 1 ≤ page → page ≤ pages names → page_rows page names ≢ [])
pages_lem_example = pages_lem names (omega arith)

-- The menu of user 4, with 13 questions chosen.
abbrev a_menu : InFlight
a_menu = record {
  state = 1;
  token = ascii "abc";
  categories = [];
  page = 1;
  type = ascii "normal";
  creation = 1000;
  questions = 13;
}

abbrev first_menus : ActiveMenus
first_menus = (call 1000 a_guild.premium 4 (ascii "EPHEMERALabc") (ascii "start normal") []).1

abbrev thirteen : Choice
thirteen = record {
  questions = some 13;
  type = some (ascii "normal");
  category = none;
  page = none;
}

abbrev second_menus : ActiveMenus
second_menus = (4, a_menu) ∷ []

chosen_menus :
    select_click 4 names (some thirteen) first_menus
    ≡ some (refresh_message names a_menu ∷ [], second_menus)
unfolding select_click call lookup insert keep text_eq save_active_menu choose after_choice
    real_interaction_token round_type take next_word drop lowercase refresh_message
chosen_menus = refl

thirteen_of : member 13 (offered false (ascii "normal")) ≡ true
unfolding offered max_questions options_to option_loop member text_eq
thirteen_of = refl

thirteen-IsOffered : IsOffered (some thirteen)
thirteen-IsOffered choice q f g =
    let same : 13 ≡ q = ground (arith, f, g) in
    inr (
      false,
      ascii "normal",
      subst (λ n. member n (offered false (ascii "normal")) ≡ true) {x = 13} {y = q} same
          thirteen_of,
    )

reached : Reach second_menus
reached =
    onward first_menus second_menus
      (onward [] first_menus no_menus
        (calls 1000 a_guild.premium 4 (ascii "EPHEMERALabc") (ascii "start normal") []))
      (selects 4 names (some thirteen) first_menus (refresh_message names a_menu ∷ [], second_menus)
        thirteen-IsOffered chosen_menus)

in_second : lookup 4 second_menus ≡ some a_menu
unfolding lookup
in_second = refl

started_example :
    (button_click 1010 4 names (ascii "start") second_menus ≡ (
      handled (start_message a_menu) ∷ game_started (ascii "abc") (ascii "normal") ∷ [],
      erase 4 second_menus,
    ))
    × (lookup 4 (erase 4 second_menus) ≡ none)
    × Distinct a_menu.categories
    × ((cmd : StartCmd)
        → (is_quickfire cmd ≡ true → a_guild.premium ≡ true)
        → (a_menu.questions ≡ 0) ⊎ (wrong_number a_guild cmd (some 13) ≡ none))
started_example = started a_guild second_menus 1010 4 names a_menu reached in_second

abbrev quick_command : StartCmd
quick_command = record {
  msg = ascii "quickfire 5";
  args = ascii " 5";
  base_command = ascii "quickfire";
  author_id = 4;
  channel_id = 9;
  guild_id = 7;
  from_dashboard = false;
}

is_quick : quick_command.base_command ≡ command_name (ascii "quickfire")
unfolding command_name text_eq
is_quick = refl

not_qf : text_eq (ascii "quickfire") (ascii "qf") ≡ false
unfolding text_eq
not_qf = refl

offered_accepted_example :
    All
      (λ n. wrong_number a_guild quick_command (some n) ≡ none)
      (offered a_guild.premium (ascii "quickfire"))
    × (length (offered a_guild.premium (ascii "quickfire")) ≤ 25)
offered_accepted_example =
    offered_accepted a_guild quick_command (ascii "quickfire") is_quick not_qf

start_message-parse_request_example :
    (args : Text) × (base_command (start_message a_menu)
      ≡ (lowercase (command_name a_menu.type), args))
    × ((cmd : StartCmd)
        → cmd.args ≡ args
        → parse_request cmd ≡ some (some 13, trim (getline (joined a_menu.categories))))
start_message-parse_request_example =
    start_message-parse_request a_menu
      (unfold command_name text_eq is_space in (refl, (refl, (refl, (refl, (refl, tt))))))
      (unfold command_name text_eq in λ e. cc) (unfold command_name text_eq lowercase in refl)
      (omega arith) (omega arith)

abbrev a_start : QueuedStart
a_start = record {
  guild_id = 8388608;
  channel_id = 9;
  user_id = 4;
  questions = 20;
  quickfire = 0;
  hintless = 1;
  category = ascii "Music";
}

-- It is on shard 2 of 3, and so on cluster 0 of 2.
check_for_queued_starts_lem_example :
    let own = mine 3 2 0 (a_start ∷ []) in
    (check_for_queued_starts a_host 3 2 0 (a_start ∷ [])
      ≡ some (map (queued_of a_host) own, left own (a_start ∷ [])))
    × (mine 3 2 0 (left own (a_start ∷ [])) ≡ [])
    × ((r : QueuedStart) → (k : ℕ) × (k < 2) × (mine 3 2 k (r ∷ []) ≡ r ∷ []))
    × ((r : QueuedStart) (rows : List QueuedStart)
        → check_for_queued_starts a_host 0 2 0 (r ∷ rows) ≡ none)
check_for_queued_starts_lem_example =
    check_for_queued_starts_lem a_host 3 2 0 (a_start ∷ []) (omega arith) (omega arith)

-- The formats of three texts.
abbrev formatting : Text → List Text → Text
formatting f (a ∷ (b ∷ (c ∷ []))) = a ++ 32 ∷ (b ++ c)
formatting f args = f

abbrev formatting_host : Host
formatting_host = record a_host { format = formatting }

queued_of-parse_request_example :
    (args : Text) × (base_command (queued_of formatting_host a_start).msg
      ≡ (start_name a_start, args))
    × ((cmd : StartCmd)
        → cmd.args ≡ args
        → parse_request cmd ≡ some (some 20, trim (getline (ascii "Music"))))
queued_of-parse_request_example =
    queued_of-parse_request formatting_host a_start (λ a b c. refl) (omega arith) (omega arith)
