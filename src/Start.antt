-- ===== src/Start.antt =====
-- command_start_t::call of modules/trivia/cmd_start.cpp: how a game starts.
pub mod Limits
pub mod Reading
pub mod Alone
use triviabot.Common.{
  ℕ, zero, suc, ◌+◌, String, Bool, true, false, not, ◌&&◌, ◌||◌, List, [], ◌∷◌, ◌++◌, Option, none,
  some, ltb, leb, ◌==◌, if◌then◌else◌, is_empty, text_eq, length, lookup, insert, erase,
}
use triviabot.Text.{
  until_space, getline, Text, ascii, trim, ltrim, is_space, read_digits, from_string_int,
}
use triviabot.Settings.{GuildSettings}
use triviabot.Game.State.{
  GameState, ask_question, ended, State, LastStreak, Effect, game_end, no_question, triv_interval,
  is_ended,
}

-- A command, as far as this one reads it: `args` is what follows its name in `msg`.
pub record StartCmd : Type 0 where
  pub msg : Text
  pub args : Text
  pub base_command : Text
  pub author_id : ℕ
  pub channel_id : ℕ
  pub guild_id : ℕ
  pub from_dashboard : Bool

-- The parts of TriviaModule that start and stop games, in the order of their keys, and the table
-- `insane_cooldown`.
pub record Trivia : Type 0 where
  pub games : List (ℕ × State)
  pub last_streaks : List (ℕ × LastStreak)
  pub cooldown : List (ℕ × ℕ)
  pub out : List Effect

-- What the call reads from outside.
pub record Lookups : Type 0 where
  pub now : ℕ
  pub banned : ℕ → Bool
  pub whitelist : List ℕ
  pub fetch_shuffle_list : Text → List Text
  pub scores : List (ℕ × ℕ)

-- How the call ends: with a reply that says why not, without any, by an exception, or with a game.
pub data Answer : Type 0 where
  refused : String → Answer
  silent : Answer
  failed : Answer
  started : Answer

-- `substr(find_first_of(' '), ...)` throws if there is no space.
unfoldable pub from_space : Text → Option Text
from_space [] = none
from_space (c ∷ s) = let rest = from_space s in if c == b' ' then some (c ∷ s) else rest

-- `from_string<int32_t>`; none for a negative number.
unfoldable pub read_questions : Text → Option ℕ
unfolding read_digits from_string_int
read_questions [] = some 0
read_questions (c ∷ s) =
    if (c == b'-') && ltb 0 (read_digits 0 s) then none else some (from_string_int (c ∷ s))

-- The number of questions, where it is not negative, and the category. A word that is no number
-- belongs to the category, as does everything behind the first space of the message.
unfoldable pub parse_request : StartCmd → Option (Option ℕ × Text)
unfolding until_space getline from_space read_questions
parse_request cmd =
    let (str_q, rest) = until_space (ltrim cmd.args) in
    if is_empty str_q then some (some 10, trim (getline rest)) else elim (read_questions str_q) [
      | none ↦ some (none, trim (getline rest))
      | some n ↦
          if n == 0
          then elim (from_space (trim cmd.msg)) [
            | none ↦ none
            | some category ↦ some (some 10, trim category)
          ]
          else some (some n, trim (getline rest))
    ]

unfoldable pub is_quickfire : StartCmd → Bool
is_quickfire cmd =
    text_eq cmd.base_command (ascii "quickfire") || text_eq cmd.base_command (ascii "qf")

unfoldable pub is_hintless : StartCmd → Bool
is_hintless cmd =
    text_eq cmd.base_command (ascii "hardcore") || text_eq cmd.base_command (ascii "hc")

unfoldable pub member : ℕ → List ℕ → Bool
member n [] = false
member n (k ∷ ks) = (k == n) || member n ks

-- `states[k] = g`, in the order of the keys.
unfoldable pub put : ℕ → State → List (ℕ × State) → List (ℕ × State)
put k g [] = (k, g) ∷ []
put k g ((j, h) ∷ m) =
    let rest = put k g m in
    if j == k then (k, g) ∷ m else if ltb k j then (k, g) ∷ (j, h) ∷ m else (j, h) ∷ rest

-- A game of the guild in another channel that has not ended.
unfoldable pub is_other : StartCmd → State → Bool
unfolding is_ended
is_other cmd g =
    (g.guild_id == cmd.guild_id)
    && not (is_ended g.gamestate)
    && not (g.channel_id == cmd.channel_id)

-- The loop of a guild without premium: the key of the first such game.
unfoldable pub other_game : StartCmd → List (ℕ × State) → Option ℕ
unfolding is_other
other_game cmd [] = none
other_game cmd ((j, g) ∷ m) = let rest = other_game cmd m in if is_other cmd g then some j else rest

-- The loop of a guild with premium: the games of the guild that it counts, and the one at which it
-- stops.
unfoldable pub premium_games : StartCmd → List (ℕ × State) → ℕ × Option ℕ
unfolding is_other
premium_games cmd [] = (0, none)
premium_games cmd ((j, g) ∷ m) =
    let (n, found) = premium_games cmd m in
    if g.guild_id == cmd.guild_id
    then (if cmd.from_dashboard && is_other cmd g then (0, some j) else (n + 1, found))
    else (n, found)

-- `log_game_end(...); states.erase(j)`
unfoldable pub end_other : StartCmd → ℕ → Trivia → Trivia
end_other cmd j t = record t { games = erase j t.games; out = game_end cmd.guild_id j ∷ t.out }

-- The games that are in the way: those that are left, or the reply.
unfoldable pub make_room : GuildSettings → StartCmd → Trivia → (Trivia × Option String)
unfolding other_game premium_games end_other
make_room s cmd t =
    let (n, found) = premium_games cmd t.games in
    let others : Trivia = elim found [ none ↦ t | some j ↦ end_other cmd j t ] in
    if s.premium
    then (if leb 2 n then (others, some "TOO_MANY_PREM") else (others, none))
    else elim (other_game cmd t.games) [
      | none ↦ (t, none)
      | some j ↦ if cmd.from_dashboard then (end_other cmd j t, none) else (t, some "NOWAY")
    ]

-- `max_quickfire`, and the limits on the number that is asked for.
unfoldable pub wrong_number : GuildSettings → StartCmd → Option ℕ → Option String
unfolding is_quickfire
wrong_number s cmd none = if is_quickfire cmd then some "MAX15DETAIL" else some "MAX200"
wrong_number s cmd (some n) =
    let most : ℕ = if s.premium then 200 else 15 in
    if is_quickfire cmd
    then (if ltb n 5
        then some "MAX15DETAIL"
        else if ltb most n
        then (if s.premium then some "MAX15DETAIL" else some "MAX15")
        else none)
    else if ltb n 5 || ltb 200 n
    then some "MAX200"
    else none

-- The limit that the guild has set.
unfoldable pub limited : GuildSettings → StartCmd → ℕ → ℕ
unfolding is_quickfire is_hintless
limited s cmd n =
    let most =
      if is_quickfire cmd
      then s.max_quickfire_round
      else if is_hintless cmd
      then s.max_hardcore_round
      else s.max_normal_round in
    if ltb most n then most else n

-- What is wrong with the list of questions, and the reply, if there is one.
unfoldable pub wrong_list : GuildSettings → List Text → Option (Option String)
wrong_list s (e ∷ []) =
    if text_eq e (ascii "*** No such category ***")
    then some (some "START_BAD_CATEGORY")
    else if text_eq e (ascii "*** Category too small ***")
    then some (some (if s.premium then "START_TOO_SMALL_PREM" else "START_TOO_SMALL"))
    else some none
wrong_list s sl = if ltb (length sl) 50 then some (some "SPOOPY2") else none

unfoldable pub reply : Option String → Answer
reply none = silent
reply (some k) = refused k

-- Quickfire games of a guild without premium are 900 seconds apart.
unfoldable pub cooling : GuildSettings → StartCmd → ℕ → Trivia → Bool
unfolding is_quickfire
cooling s cmd now t =
    is_quickfire cmd
    && not s.premium
    && elim (lookup cmd.guild_id t.cooldown) [ none ↦ false | some last ↦ ltb now (last + 900) ]

-- The streak of the channel's last game is carried over for ten minutes.
unfoldable pub carried : ℕ → ℕ → List (ℕ × LastStreak) → (ℕ × ℕ) × List (ℕ × LastStreak)
carried channel now streaks = elim (lookup channel streaks) [
  | none ↦ ((1, 0), streaks)
  | some l ↦
      if ltb now (l.time + 600)
      then ((l.streak, l.lastanswered), streaks)
      else ((1, 0), erase channel streaks)
]

-- The constructor of state_t; `scores` is what the database holds for the guild.
unfoldable pub new_game :
    Lookups
    → (questions streak lastanswered question_index interval channel : ℕ) (hintless : Bool)
    → List Text
    → GameState
    → (guild : ℕ) → State
new_game w questions streak lastanswered question_index interval channel hintless shuffle_list
      startstate guild =
    record {
      has_creator = true;
      next_tick = w.now;
      terminating = false;
      channel_id = channel;
      guild_id = guild;
      numquestions = questions;
      round = question_index;
      score = 0;
      start_time = w.now;
      shuffle_list = shuffle_list;
      gamestate = startstate;
      question = no_question;
      original_answer = [];
      last_to_answer = lastanswered;
      streak = streak;
      asktime = 0;
      interval = interval;
      insane_num = 0;
      insane_left = 0;
      hintless = hintless;
      insane = [];
      activity = [];
      scores = w.scores;
      insane_round_stats = [];
      question_cache = [];
    }

-- The part behind the checks: the cooldown is noted, and the game takes its place in the map.
unfoldable pub start_game :
    GuildSettings → Lookups → StartCmd → (questions : ℕ) → List Text → Trivia → Trivia
unfolding carried new_game put is_quickfire is_hintless
start_game s w cmd questions sl t =
    let ((streak, last), streaks) = carried cmd.channel_id w.now t.last_streaks in
    let interval : ℕ = if is_quickfire cmd then 5 else triv_interval in
    let g =
      new_game w (questions + 1) streak last 1 interval cmd.channel_id (is_hintless cmd) sl
        ask_question cmd.guild_id in
    record t {
      games = put cmd.channel_id g t.games;
      last_streaks = streaks;
      cooldown =
          if is_quickfire cmd && not s.premium
          then insert cmd.guild_id w.now t.cooldown
          else t.cooldown;
    }

-- From `if (!already_running)` on.
unfoldable pub start_fresh :
    GuildSettings → Lookups → StartCmd → Option ℕ → Text → Trivia → Answer × Trivia
start_fresh s w cmd asked category t = elim (wrong_number s cmd asked) [
  | some k ↦ (refused k, t)
  | none ↦ elim asked [
    | none ↦ (silent, t)
    | some n ↦
        let sl = w.fetch_shuffle_list category in
        elim (wrong_list s sl) [
          | some why ↦ (reply why, t)
          | none ↦
              if cooling s cmd w.now t
              then (refused "INSANE_COOLDOWN", t)
              else (started, start_game s w cmd (limited s cmd n) sl t)
        ]
  ]
]

-- From the loops over the games on.
unfoldable pub start_place :
    GuildSettings → Lookups → StartCmd → Option ℕ → Text → Trivia → Answer × Trivia
start_place s w cmd asked category t =
    let (t1, why) = make_room s cmd t in
    elim why [
      | some k ↦ (refused k, t1)
      | none ↦ elim (lookup cmd.channel_id t1.games) [
        | none ↦ start_fresh s w cmd asked category t1
        | some g ↦
            if cmd.from_dashboard
            then start_fresh s w cmd asked category
                (record t1 { out = game_end cmd.guild_id cmd.channel_id ∷ t1.out })
            else (refused "ALREADYRUN", t1)
      ]
    ]

-- The list of guilds that may not start is empty: it is read before the file is.
unfoldable pub call :
    GuildSettings → Lookups → (is_moderator : Bool) → StartCmd → Trivia → Answer × Trivia
unfolding member
call s w is_moderator cmd t =
    if w.banned cmd.author_id then (silent, t) else elim (parse_request cmd) [
      | none ↦ (failed, t)
      | some (asked, category) ↦
          if not cmd.from_dashboard && s.only_mods_start && not is_moderator
          then (refused "AREYOUSTARTINGSOMETHING", t)
          else if not cmd.from_dashboard
              && not (is_empty w.whitelist)
              && not (member cmd.channel_id w.whitelist)
          then (refused "NOTINWHITELIST", t)
          else start_place s w cmd asked category t
    ]
