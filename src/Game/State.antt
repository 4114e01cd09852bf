-- ===== src/Game/State.antt =====
-- The data of a game (modules/trivia/state.h), what a call on it reads from outside, and the
-- small methods of modules/trivia/state.cpp that the events share.
use triviabot.Common.{
  ℕ, zero, suc, ◌+◌, ◌%◌, String, Bool, true, false, not, ◌&&◌, List, [], ◌∷◌, none, some, ltb, leb,
  ◌==◌, if◌then◌else◌, u32, u64, lookup, insert,
}
use triviabot.Text.{Text}
use triviabot.Wide.Homoglyph.{Picks}
use triviabot.Settings.{GuildSettings}
use triviabot.Locks.{Locks}

-- trivia_state_t. A value that is cast from the database may be none of the six.
pub data GameState : Type 0 where
  ask_question first_hint second_hint time_up answer_correct ended : GameState
  invalid : ℕ → GameState

unfoldable pub from_code : ℕ → GameState
from_code zero = invalid 0
from_code (suc zero) = ask_question
from_code (suc (suc zero)) = first_hint
from_code (suc (suc (suc zero))) = second_hint
from_code (suc (suc (suc (suc zero)))) = time_up
from_code (suc (suc (suc (suc (suc zero))))) = answer_correct
from_code (suc (suc (suc (suc (suc (suc zero)))))) = ended
from_code (suc (suc (suc (suc (suc (suc (suc n))))))) = invalid (7 + n)

-- question_t. Times are counted in microseconds; in the source they are of type double.
pub record Question : Type 0 where
  pub id : ℕ
  pub guild_id : ℕ
  pub question : Text
  pub answer : Text
  pub customhint1 : Text
  pub customhint2 : Text
  pub catname : Text
  pub lastasked : ℕ
  pub timesasked : ℕ
  pub lastcorrect : Text
  pub recordtime : ℕ
  pub shuffle1 : Text
  pub shuffle2 : Text
  pub question_image : Text
  pub answer_image : Text

-- The default constructor of question_t.
unfoldable pub no_question : Question
no_question = record {
  id = 0;
  guild_id = 0;
  question = [];
  answer = [];
  customhint1 = [];
  customhint2 = [];
  catname = [];
  lastasked = 0;
  timesasked = 0;
  lastcorrect = [];
  recordtime = 0;
  shuffle1 = [];
  shuffle2 = [];
  question_image = [];
  answer_image = [];
}

-- state_t; `has_creator` says that the pointer `creator` is not null. `insane` holds the keys of
-- the map of that name. (`found` and `next_quickfire` are never read.)
pub record State : Type 0 where
  pub has_creator : Bool
  pub next_tick : ℕ
  pub terminating : Bool
  pub channel_id : ℕ
  pub guild_id : ℕ
  pub numquestions : ℕ
  pub round : ℕ
  pub score : ℕ
  pub start_time : ℕ
  pub shuffle_list : List Text
  pub gamestate : GameState
  pub question : Question
  pub original_answer : Text
  pub last_to_answer : ℕ
  pub streak : ℕ
  pub asktime : ℕ
  pub interval : ℕ
  pub insane_num : ℕ
  pub insane_left : ℕ
  pub hintless : Bool
  pub insane : List Text
  pub activity : List (ℕ × ℕ)
  pub scores : List (ℕ × ℕ)
  pub insane_round_stats : List (ℕ × ℕ)
  pub question_cache : List Question

-- last_streak_t of modules/trivia/trivia.h.
pub record LastStreak : Type 0 where
  pub streak : ℕ
  pub time : ℕ
  pub lastanswered : ℕ

-- streak_t, as get_streak reads it from the database.
pub record Streak : Type 0 where
  pub personalbest : ℕ
  pub topstreaker : ℕ
  pub bigstreak : ℕ

-- What a game sends out: messages, by the language strings that they are made of, and writes to the
-- database.
pub data Effect : Type 0 where
  message : List String → Effect
  board : List (ℕ × ℕ × ℕ) → Effect
  score_only : (user guild score : ℕ) → Effect
  full_score : (user guild time id score : ℕ) → (local_only : Bool) → Effect
  team_points : Text → (points user : ℕ) → Effect
  guild_streak : (user guild streak : ℕ) → Effect
  global_streak : (user streak : ℕ) → Effect
  cached_user : ℕ → Effect
  coins : (user amount : ℕ) → Effect
  asked : ℕ → Effect
  indexed : (round streak lastanswered : ℕ) → GameState → (qid : ℕ) → Effect
  game_end : (guild channel : ℕ) → Effect
  insane_statistics_deleted : (channel : ℕ) → Effect

-- A game with what it shares with the others: the table of score locks, last_channel_streaks of the
-- module, and what has been sent, the newest first.
pub record Run : Type 0 where
  pub game : State
  pub locks : Locks
  pub last_streaks : List (ℕ × LastStreak)
  pub out : List Effect

-- What a call reads from outside: the clocks, the database, and what `rand` draws.
pub record Moment : Type 0 where
  pub now : ℕ
  pub time_f : ℕ
  pub stopped : Bool
  pub banned : ℕ → Bool
  pub team : Text
  pub guild_best : Streak
  pub global_best : Streak
  pub known : ℕ → Bool
  pub fetch : Text → Question
  pub insane_try : ℕ → ℕ × List Text
  pub picks : Picks
  pub rand_hint1 : ℕ
  pub rand_hint2 : ℕ
  pub rand_coin : ℕ
  pub rand_amount : ℕ

-- How a call ends: it returns, or throws an exception, or reads past the end of a vector.
pub data Outcome : Type 0 where
  returned : Run → Outcome
  threw : Run → Outcome
  fault : Run → Outcome

unfoldable pub emit : Effect → Run → Run
emit e r = record r { out = e ∷ r.out }

abbrev pub with_game : State → Run → Run
with_game g r = record r { game = g }

-- TRIV_INTERVAL.
abbrev pub triv_interval : ℕ
triv_interval = 20

unfoldable pub is_insane_round : GuildSettings → State → Bool
is_insane_round s g = not s.disable_insane_rounds && (g.round % 10 == 0)

unfoldable pub get_score : ℕ → State → ℕ
get_score uid g = elim (lookup uid g.scores) [ none ↦ 0 | some n ↦ n ]

unfoldable pub set_score : ℕ → ℕ → State → State
set_score uid n g = record g { scores = insert uid n g.scores }

unfoldable pub add_score : ℕ → ℕ → State → State
unfolding get_score set_score
add_score uid addition g = set_score uid (u64 (get_score uid g + addition)) g

unfoldable pub add_insane_stats : ℕ → State → State
add_insane_stats uid g = elim (lookup uid g.insane_round_stats) [
  | some n ↦ record g { insane_round_stats = insert uid (u32 (n + 1)) g.insane_round_stats }
  | none ↦ record g { insane_round_stats = insert uid 1 g.insane_round_stats }
]

unfoldable pub record_activity : ℕ → ℕ → State → State
record_activity now uid g = record g { activity = insert uid now g.activity }

-- The loop of get_activity: those who tried to answer less than 60 seconds ago.
unfoldable pub active_since : ℕ → List (ℕ × ℕ) → ℕ
active_since now [] = 0
active_since now ((u, t) ∷ others) =
    let rest = active_since now others in if ltb now (t + 60) then 1 + rest else rest

unfoldable pub coin_probability : ℕ → ℕ
coin_probability activity =
    if leb 2 activity && leb activity 3
    then 1
    else if leb 4 activity && leb activity 7
    then 2
    else if leb 8 activity && leb activity 11
    then 3
    else if leb 12 activity && leb activity 15
    then 4
    else if leb 16 activity
    then 5
    else 0

-- `roll` is `random(1, 100)`.
unfoldable pub should_drop_coin : (now roll : ℕ) → State → Bool
unfolding active_since coin_probability
should_drop_coin now roll g = leb roll (coin_probability (active_since now g.activity))

unfoldable pub is_ended : GameState → Bool
is_ended ended = true
is_ended _ = false

-- StopGame of modules/trivia/trivia.cpp.
unfoldable pub stop_game : Run → Run
unfolding is_ended emit
stop_game r =
    if is_ended r.game.gamestate
    then r
    else emit (message ("DASH_STOP" ∷ "STOPPING" ∷ []))
        (with_game (record r.game { gamestate = ended; terminating = false }) r)

-- log_question_index of modules/trivia/webrequest.cpp; whether the dashboard has stopped the game is
-- read from the database.
unfoldable pub log_question_index : Moment → (qid : ℕ) → Run → Run
unfolding emit
log_question_index m qid r =
    emit (indexed r.game.round r.game.streak r.game.last_to_answer r.game.gamestate (u32 qid))
      (record r {
        last_streaks =
            insert r.game.channel_id
              (record {
                streak = r.game.streak;
                time = m.now;
                lastanswered = r.game.last_to_answer;
              })
              r.last_streaks;
      })

-- `if (log_question_index(...)) { StopGame(settings); }`
unfoldable pub log_or_stop : Moment → (qid : ℕ) → Run → Run
unfolding log_question_index stop_game
log_or_stop m qid r = let r' = log_question_index m qid r in if m.stopped then stop_game r' else r'
