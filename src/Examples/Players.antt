-- ===== src/Examples/Players.antt =====
-- Commands, hints, records and a restart at concrete ones.
use triviabot.Common.{
  ℕ, ◌+◌, ◌≤◌, ◌≡◌, refl, true, false, ◌&&◌, ◌||◌, List, [], ◌∷◌, none, some, arith, text_eq,
  length, get_elem?, if◌then◌else◌, ◌==◌, lookup, insert,
}
use triviabot.Text.{Text, ascii, next_word, until_space, ltrim, is_space, lowercase, tolower}
use triviabot.Wide.{utf8lower}
use triviabot.Wide.Utf8.{Wide, from_bytes, to_bytes}
use triviabot.Game.State.{State, first_hint, is_insane_round}
use triviabot.Commands.{Limits, gate, has_limit, has_rl_warn, set_limit, set_rl_warn, check_time}
use triviabot.Commands.Handle.{
  Command, Context, handle_command, route_command, which_command, find_command, base_command,
  let_through, is_listed,
}
use triviabot.Commands.Spacing.{Later, commands_spaced}
use triviabot.VoteHint.{
  Vote, personal_hint, votehint_call, Result, give_hint, can_hint, is_hint_time, compose_hint,
}
use triviabot.VoteHint.Mask.{personal_hint_lem}
use triviabot.VoteHint.Budget.{Calls, none_yet, answered, written, left, votehints_conserved}
use triviabot.Records.Scores.{Tables, row_at, update_score, update_score_only}
use triviabot.Records.Scores.Paid.{Paid, round_points, channel_of, update_score-Paid}
use triviabot.Start.{Lookups}
use triviabot.Module.{Shared}
use triviabot.Module.Resume.{ActiveGame, World, on_all_shards_ready, finished}
use triviabot.Module.Resume.Kept.{Ends, on_all_shards_ready-kept}
use triviabot.Examples.{a_host, a_guild, a_game, a_question, a_moment}

abbrev no_scores : Tables
no_scores = record {
  scores = [];
  global_scores = [];
  scores_lastgame = [];
  insane_round_statistics = [];
  stats = [];
}

update_score-Paid_example :
    Paid 1 7 4 (if true then 0 else 4) no_scores (update_score 1 7 900 5 4 true no_scores)
    × Paid 1 7 4 4 no_scores (update_score_only 1 7 4 9 no_scores)
    × ((v h : ℕ)
        → let row = row_at h v no_scores.insane_round_statistics in
          let row' = row_at h v (update_score_only 1 7 4 9 no_scores).insane_round_statistics in
          (round_points row' ≡ round_points row + (if 1 == v && 7 == h then 4 else 0))
          × (channel_of 9 row' ≡ channel_of 9 row))
update_score-Paid_example = update_score-Paid 1 7 900 5 4 9 true no_scores

abbrev no_limits : Limits
no_limits = record { limits = []; last_rl_warning = [] }

abbrev a_context : Context
a_context = record {
  test_mode = false;
  test_server = 0;
  owner_id = none;
  administrator = false;
  manage_guild = false;
  moderator_roles = [];
  commands = (ascii "stop", false) ∷ [];
  api_commands = [];
}

abbrev a_command : Command
a_command = record {
  msg = ascii "stop";
  author_id = 1;
  channel_id = 9;
  guild_id = 7;
  interaction_token = [];
  from_dashboard = false;
  roles = [];
}

abbrev limits_then : Limits
limits_then = (handle_command a_context 1000 a_command no_limits).1

commands_spaced_example : 1000 + 4 ≤ 1004
unfolding handle_command route_command which_command find_command base_command next_word until_space
    ltrim is_space lowercase tolower let_through is_listed gate has_limit has_rl_warn set_limit
    set_rl_warn check_time lookup text_eq insert
commands_spaced_example =
    commands_spaced a_context a_context 1000 1000 1004 a_command a_command no_limits limits_then
      refl refl Later.here (omega arith) refl refl refl

-- A game at its first hint, and a user with eight hints.
abbrev hinted : State
hinted = record a_game { gamestate = first_hint; question = a_question }

abbrev vote : Vote
vote = record { dm_hints = 8; remaining = 7200 }

abbrev masked : Text
masked = ascii "#a#"

abbrev a_result : Result
a_result = give_hint masked vote

cat_masked : personal_hint (λ c. c) false (ascii "cat") ≡ some masked
unfolding personal_hint utf8lower from_bytes to_bytes
cat_masked = refl

gives_hint : votehint_call (λ c. c) a_guild (some hinted) (some vote) ≡ some a_result
unfolding votehint_call can_hint is_hint_time is_insane_round compose_hint personal_hint utf8lower
    from_bytes to_bytes text_eq
gives_hint = refl

-- One hint, and then its write.
one_hint : Calls (λ c. c) 8 true 1 7 []
unfolding give_hint
one_hint = written (answered none_yet a_guild (some hinted) vote a_result refl gives_hint)

votehints_conserved_example : (8 ≤ 1 + 7) × (true ≡ true → 1 + left 7 [] ≡ 8)
votehints_conserved_example = votehints_conserved one_hint

cat_lower : utf8lower (λ c. c) (ascii "cat") false ≡ some (ascii "cat")
unfolding utf8lower from_bytes to_bytes
cat_lower = refl

cat_wide : from_bytes (ascii "cat") ≡ some (ascii "cat")
unfolding from_bytes
cat_wide = refl

personal_hint_lem_example :
    (v : Wide) × (from_bytes masked ≡ some v)
    × (length v ≡ 3)
    × ((i c : ℕ)
        → get_elem? {A = ℕ} (ascii "cat") i ≡ some c
        → get_elem? v i ≡ some (if i == 0 || i + 1 == 3 || c == 32 then 35 else c))
personal_hint_lem_example =
    personal_hint_lem (λ c. c) false (ascii "cat") masked (ascii "cat") (ascii "cat") cat_lower
      cat_wide cat_masked

abbrev lookups : Lookups
lookups = record {
  now = 1000;
  banned = λ user. false;
  whitelist = [];
  fetch_shuffle_list = λ category. [];
  scores = [];
}

abbrev a_world : World
a_world = record {
  moment = λ c. a_moment;
  settings = λ g. a_guild;
  lookups = λ c. lookups;
  fetched = λ g. [];
  parse = λ qlist. some (qlist ∷ []);
}

abbrev a_row : (channel_id qlist : Text) → ActiveGame
a_row channel_id qlist = record {
  guild_id = ascii "7";
  channel_id = channel_id;
  questions = ascii "1";
  quickfire = ascii "0";
  question_index = ascii "1";
  streak = ascii "1";
  lastanswered = ascii "0";
  state = ascii "1";
  hintless = ascii "0";
  qlist = qlist;
}

-- The row of the game of channel 9, and that of another channel.
abbrev active_rows : List ActiveGame
active_rows = a_row (ascii "9") [] ∷ a_row (ascii "8") (ascii "[5]") ∷ []

abbrev nothing_shared : Shared
nothing_shared = record { locks = []; last_streaks = []; out = [] }

in_channel_9 : lookup 9 ((9, a_game) ∷ []) ≡ some a_game
unfolding lookup
in_channel_9 = refl

on_all_shards_ready-kept_example :
    Ends
      (λ games'. lookup 9 games' ≡ some a_game)
      (on_all_shards_ready a_host [] a_world false active_rows ((9, a_game) ∷ []) nothing_shared)
    × (on_all_shards_ready a_host [] a_world true active_rows ((9, a_game) ∷ []) nothing_shared
        ≡ finished ((9, a_game) ∷ []) nothing_shared)
on_all_shards_ready-kept_example =
    on_all_shards_ready-kept a_host [] a_world false active_rows ((9, a_game) ∷ []) nothing_shared 9
      a_game in_channel_9
