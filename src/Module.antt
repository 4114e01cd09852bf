-- ===== src/Module.antt =====
-- TriviaModule of modules/trivia/trivia.cpp: the cache of guild settings, the loop over the games,
-- and what a message goes to; with command_stop_t::call of modules/trivia/cmd_stop.cpp.
pub mod Cache
pub mod Stop
pub mod Resume
pub mod Queued
use triviabot.Common.{
  ℕ, zero, suc, ◌+◌, ◌-◌, ◌/◌, ◌%◌, String, Bool, true, false, not, ◌&&◌, ◌||◌, List, [], ◌∷◌, ◌++◌,
  Option, none, some, ltb, leb, ◌==◌, if◌then◌else◌, is_empty, text_eq, length, lookup, insert,
  erase,
}
use triviabot.Text.{Text, ascii, take, drop, lowercase}
use triviabot.Host.{Host}
use triviabot.Numbers.{NumStrs}
use triviabot.Settings.{GuildSettings, make_settings}
use triviabot.Locks.{Locks}
use triviabot.Game.State.{
  GameState, ended, State, LastStreak, Effect, game_end, message, Run, Moment, Outcome, returned,
  threw, fault, is_ended,
}
use triviabot.Game.Answers.{InMsg, queue_message}
use triviabot.Game.Ticks.{tick}

abbrev pub Cache : Type 0
Cache = List (ℕ × GuildSettings)

-- eraseCache.
unfoldable pub erase_cache : ℕ → Cache → Cache
erase_cache guild c = erase guild c

-- The constructor's arguments for a guild that is in no table.
unfoldable pub default_settings : (now guild : ℕ) → GuildSettings
default_settings now guild = record {
  time = now;
  guild_id = guild;
  prefix = ascii "!";
  moderator_roles = [];
  embedcolour = 3238819;
  premium = false;
  only_mods_stop = false;
  only_mods_start = false;
  role_reward_enabled = false;
  role_reward_id = 0;
  custom_url = [];
  language = ascii "en";
  question_interval = 20;
  max_normal_round = 200;
  max_quickfire_round = 15;
  max_hardcore_round = 200;
  disable_insane_rounds = false;
}

-- `emplace` leaves an entry that is there.
unfoldable pub emplace : ℕ → GuildSettings → Cache → Cache
emplace guild gs c = elim (lookup guild c) [ none ↦ insert guild gs c | some old ↦ c ]

-- The part of GetGuildSettings behind the cache: `row` is what the database holds, as the arguments
-- of the constructor.
unfoldable pub fetch_settings :
    (now guild : ℕ) → Option GuildSettings → Cache → GuildSettings × Cache
unfolding emplace default_settings
fetch_settings now guild row c =
    let gs : GuildSettings = elim row [
      | none ↦ make_settings (default_settings now guild)
      | some given ↦ make_settings (record given { time = now })
    ] in
    (gs, emplace guild gs c)

unfoldable pub get_guild_settings :
    (now guild : ℕ) → Option GuildSettings → Cache → GuildSettings × Cache
unfolding erase_cache
get_guild_settings now guild row c = elim (lookup guild c) [
  | none ↦ fetch_settings now guild row c
  | some gs ↦
      if ltb (gs.time + 60) now then fetch_settings now guild row (erase_cache guild c) else (gs, c)
]

-- GetActiveLocalGames.
unfoldable pub is_active : State → Bool
unfolding is_ended
is_active g = not (is_ended g.gamestate) && not g.terminating

unfoldable pub get_active_local_games : List (ℕ × State) → ℕ
unfolding is_active
get_active_local_games [] = 0
get_active_local_games ((j, g) ∷ m) =
    let rest = get_active_local_games m in if is_active g then 1 + rest else rest

-- What the games share.
pub record Shared : Type 0 where
  pub locks : Locks
  pub last_streaks : List (ℕ × LastStreak)
  pub out : List Effect

abbrev pub run_of : State → Shared → Run
run_of g sh = record { game = g; locks = sh.locks; last_streaks = sh.last_streaks; out = sh.out }

abbrev pub shared_of : Run → Shared
shared_of r = record { locks = r.locks; last_streaks = r.last_streaks; out = r.out }

-- Where a read past the end of a vector is undefined, there is no result.
abbrev pub run_after : Outcome → Option Run
run_after (returned r) = some r
run_after (threw r) = some r
run_after (fault r) = none

-- One pass of Tick over the games, at a time: the games that are due are ticked, and those that are
-- terminating then are taken out.
unfoldable pub tick_games :
    Host
    → NumStrs
    → (ℕ → Moment)
    → (ℕ → GuildSettings)
    → (now : ℕ) → List (ℕ × State)
    → Shared
    → Option (List (ℕ × State) × Shared)
tick_games host ns m s now [] sh = some ([], sh)
tick_games host ns m s now ((j, g) ∷ games) sh =
    if leb g.next_tick now
    then elim (run_after (tick host ns (m j) (s g.guild_id) (run_of g sh))) [
      | none ↦ none
      | some r ↦ elim (tick_games host ns m s now games (shared_of r)) [
        | none ↦ none
        | some (rest, sh') ↦ some (if r.game.terminating then rest else (j, r.game) ∷ rest, sh')
      ]
    ]
    else elim (tick_games host ns m s now games sh) [
      | none ↦ none
      | some (rest, sh') ↦ some ((j, g) ∷ rest, sh')
    ]

-- GetState.
unfoldable pub get_state : ℕ → List (ℕ × State) → Option State
get_state channel games = lookup channel games

-- command_stop_t::call, with the reply.
unfoldable pub stop_call :
    GuildSettings
    → (is_moderator : Bool) → (now guild channel : ℕ) → List (ℕ × State)
    → List Effect
    → String × List (ℕ × State) × List Effect
unfolding get_state
stop_call s is_moderator now guild channel games out = elim (get_state channel games) [
  | none ↦ ("NOTRIVIA", games, out)
  | some g ↦
      if s.only_mods_stop && not is_moderator
      then ("CANTSTOPMEIMTHEGINGERBREADMAN", games, out)
      else (
        "STOPOK",
        insert channel (record g { terminating = true; next_tick = now }) games,
        game_end guild channel ∷ out,
      )
]

-- The command in a message: what follows the prefix of the guild, in either case.
unfoldable pub command_of : GuildSettings → Text → Option Text
unfolding take drop lowercase
command_of s msg =
    if text_eq (lowercase (take (length s.prefix) msg)) (lowercase s.prefix)
    then some (drop (length s.prefix) msg)
    else none

-- What RealOnMessage does with a message: nothing, or the prefix is told, or a command is queued, if
-- there is one, and the game of the channel hears it. `games` is the map as the command leaves it,
-- since a command may start or stop the game of the channel.
pub data Routed : Type 0 where
  dropped : Routed
  prefix_told : Routed
  heard : Option Text → Option (ℕ × Outcome) → Routed

unfoldable pub real_on_message :
    Host
    → Moment
    → GuildSettings
    → (is_bot asks_prefix : Bool) → (channel : ℕ) → InMsg
    → List (ℕ × State)
    → Shared
    → Routed
unfolding get_state command_of
real_on_message host m s is_bot asks_prefix channel msg games sh =
    if is_bot || (channel == 0)
    then dropped
    else if asks_prefix
    then prefix_told
    else heard (command_of s msg.msg) (elim (get_state channel games) [
      | none ↦ none
      | some g ↦ some (channel, queue_message host m s msg (run_of g sh))
    ])

-- CheckForQueuedStarts starts a game on the cluster of the guild's shard only. A division by zero has
-- no result.
unfoldable pub cluster_of : (max_shards max_clusters guild_id : ℕ) → Option ℕ
cluster_of max_shards max_clusters guild_id =
    if max_shards == 0 || max_clusters == 0
    then none
    else some (guild_id / 4194304 % max_shards % max_clusters)
