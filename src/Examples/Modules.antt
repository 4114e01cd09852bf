-- ===== src/Examples/Modules.antt =====
-- The locks, the settings, and the commands at concrete ones.
use triviabot.Common.{
  ℕ, ◌+◌, ◌≤◌, ◌≡◌, ◌≢◌, refl, true, false, List, [], ◌∷◌, none, some, arith, text_eq, lookup,
}
use triviabot.Text.{Text, ascii, trim, ltrim}
use triviabot.Settings.{make_settings}
use triviabot.Locks.{can_score_on_guild}
use triviabot.Locks.Exclusive.{Attempt, attempts, one_guild_per_minute, can_score_iff}
use triviabot.Game.State.{is_ended, returned}
use triviabot.Start.{
  StartCmd, Trivia, Lookups, refused, started, other_game, call, parse_request, start_place,
  make_room, premium_games, start_fresh, wrong_number, wrong_list, cooling, is_quickfire,
  is_hintless, is_other,
}
use triviabot.Start.Limits.{Fresh, call-Fresh}
use triviabot.Start.Alone.{call-alone}
use triviabot.Module.{
  run_of, fetch_settings, get_guild_settings, stop_call, heard, command_of, real_on_message,
}
use triviabot.Module.Stop.{stopped, stop_call_lem}
use triviabot.Commands.{Limits}
use triviabot.Examples.{a_host, a_guild, a_game, a_moment}

-- In between somebody else plays, and the user tries the other guild.
abbrev calls : List Attempt
calls =
    record { user = 5; guild = 8; time = 1010 } ∷ record { user = 4; guild = 8; time = 1030 } ∷ []

granted : (can_score_on_guild 4 7 1000 []).0 ≡ true
granted = (can_score_iff 4 7 1000 []).1 (unfold lookup in tt)

one_guild_per_minute_example :
    (can_score_on_guild 4 8 1059 (attempts calls (can_score_on_guild 4 7 1000 []).1)).0 ≡ false
one_guild_per_minute_example =
    one_guild_per_minute 4 7 8 1000 1059 calls [] granted (λ e. absurd (omega (arith, e)))
      ((omega arith, omega arith), ((omega arith, omega arith), tt)) (omega arith)

abbrev nothing : Trivia
nothing = record { games = []; last_streaks = []; cooldown = []; out = [] }

abbrev ten_more : List Text → List Text
ten_more sl = let q = ascii "5" in q ∷ q ∷ q ∷ q ∷ q ∷ q ∷ q ∷ q ∷ q ∷ q ∷ sl

abbrev a_command : StartCmd
a_command = record {
  msg = ascii "start 20";
  args = ascii " 20";
  base_command = ascii "start";
  author_id = 4;
  channel_id = 9;
  guild_id = 7;
  from_dashboard = false;
}

abbrev some_lookups : Lookups
some_lookups = record {
  now = 1000;
  banned = λ user. false;
  whitelist = [];
  fetch_shuffle_list = λ category. ten_more (ten_more (ten_more (ten_more (ten_more []))));
  scores = [];
}

it_starts : (call a_guild some_lookups false a_command nothing).0 ≡ started
unfolding call parse_request start_place make_room other_game premium_games start_fresh wrong_number
    wrong_list cooling is_quickfire is_hintless lookup text_eq trim ltrim
it_starts = refl

call-Fresh_example :
    Fresh a_guild a_command (lookup 9 (call a_guild some_lookups false a_command nothing).1.games)
call-Fresh_example = call-Fresh a_guild some_lookups false a_command nothing it_starts

call-alone_example :
    other_game a_command (call a_guild some_lookups false a_command nothing).1.games ≡ none
call-alone_example = call-alone a_guild some_lookups false a_command nothing refl refl it_starts

-- The same with a game in another channel of the guild.
abbrev busy : Trivia
busy = record nothing { games = (8, record a_game { channel_id = 8 }) ∷ [] }

it_is_refused : (call a_guild some_lookups false a_command busy).0 ≡ refused "NOWAY"
unfolding call parse_request start_place make_room other_game premium_games is_other is_ended lookup
    text_eq trim ltrim
it_is_refused = refl

in_time : 1050 ≤ (get_guild_settings 1000 7 (some a_guild) []).0.time + 60
unfolding get_guild_settings fetch_settings make_settings lookup
in_time = omega arith

stop_call_lem_example :
    ((j : ℕ)
      → 9 ≢ j
      → lookup j (stop_call a_guild false 1000 7 9 ((9, a_game) ∷ []) []).1
        ≡ lookup j ((9, a_game) ∷ []))
    × (real_on_message a_host a_moment a_guild false false 9
          (record { msg = ascii "cat"; author_id = 4 })
          (stop_call a_guild false 1000 7 9 ((9, a_game) ∷ []) []).1
          (record { locks = []; last_streaks = []; out = [] })
        ≡ heard (command_of a_guild (ascii "cat")) (
            some (
              9,
              returned (
                  run_of
                    (stopped 1000 a_game)
                    (record { locks = []; last_streaks = []; out = [] })),
            )))
stop_call_lem_example =
    stop_call_lem a_host a_moment a_guild a_guild false 1000 7 9
      (record { msg = ascii "cat"; author_id = 4 }) ((9, a_game) ∷ []) [] a_game
      (record { locks = []; last_streaks = []; out = [] }) (unfold lookup in refl) refl
      (λ e. absurd (omega (arith, e)))

abbrev no_limits : Limits
no_limits = record { limits = (9, 990) ∷ []; last_rl_warning = [] }
