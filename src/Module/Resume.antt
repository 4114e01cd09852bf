-- ===== src/Module/Resume.antt =====
-- Games go on after a restart: TriviaModule::OnAllShardsReady of modules/trivia/trivia.cpp, from the
-- rows of the table `active_games`.
pub mod Kept
use triviabot.Common.{
  ℕ, ◌+◌, ◌/◌, Bool, true, false, List, [], ◌∷◌, Option, none, some, if◌then◌else◌, is_empty,
  text_eq, u32, lookup, insert,
}
use triviabot.Text.{Text, ascii, from_string, values32, values64}
use triviabot.Host.{Host}
use triviabot.Numbers.{NumStrs}
use triviabot.Settings.{GuildSettings}
use triviabot.Game.State.{
  GameState, ask_question, first_hint, second_hint, time_up, answer_correct, ended, invalid,
  from_code, State, Run, Moment, Outcome, returned, threw, fault, triv_interval, is_insane_round,
}
use triviabot.Game.Rounds.{do_normal_round, do_insane_round}
use triviabot.Game.Ticks.{build_question_cache}
use triviabot.Start.{Lookups, new_game}
use triviabot.Module.{Shared, run_of, shared_of}

-- A row of `active_games`, with its columns as the texts that the query gives.
pub record ActiveGame : Type 0 where
  pub guild_id : Text
  pub channel_id : Text
  pub questions : Text
  pub quickfire : Text
  pub question_index : Text
  pub streak : Text
  pub lastanswered : Text
  pub state : Text
  pub hintless : Text
  pub qlist : Text

unfoldable pub guild_of : ActiveGame → ℕ
guild_of row = from_string values64 row.guild_id

unfoldable pub channel_of_row : ActiveGame → ℕ
channel_of_row row = from_string values64 row.channel_id

-- The list of questions: parsed from the row, where it has one, or fetched anew; `none` where the parser
-- throws.
unfoldable pub shuffle_list_of :
    (parse : Text → Option (List Text)) → (fetched : List Text) → ActiveGame → Option (List Text)
shuffle_list_of parse fetched row = if is_empty row.qlist then some fetched else parse row.qlist

-- The game that is made for a row.
unfoldable pub resumed_game : Lookups → (shuffle_list : List Text) → ActiveGame → State
resumed_game w shuffle_list row =
    new_game w (u32 (from_string values32 row.questions + 1)) (from_string values32 row.streak)
      (from_string values64 row.lastanswered) (from_string values32 row.question_index)
      (if text_eq row.quickfire (ascii "1") then triv_interval / 4 else triv_interval)
      (channel_of_row row) (text_eq row.hintless (ascii "1")) shuffle_list
      (from_code (from_string values32 row.state)) (guild_of row)

unfoldable pub resume_round :
    Host
    → NumStrs
    → Moment
    → GuildSettings
    → Lookups
    → (shuffle_list : List Text) → ActiveGame
    → Shared
    → Outcome
resume_round host numstrs m s w shuffle_list row sh =
    let r = build_question_cache m (run_of (resumed_game w shuffle_list row) sh) in
    if is_insane_round s r.game
    then do_insane_round host m s r
    else do_normal_round host numstrs m true s r

-- What OnAllShardsReady comes to: it returns, or an exception leaves it, with the games that there are
-- then; or it reads past the end of a vector.
pub data Resumed : Type 0 where
  finished : List (ℕ × State) → Shared → Resumed
  thrown : List (ℕ × State) → Shared → Resumed
  past_end : Resumed

-- What the calls for a row read from outside, by the channel or the guild, and the JSON library's parser of
-- a list of texts.
pub record World : Type 0 where
  pub moment : ℕ → Moment
  pub settings : ℕ → GuildSettings
  pub lookups : ℕ → Lookups
  pub fetched : ℕ → List Text
  pub parse : Text → Option (List Text)

unfoldable pub resume_games :
    Host → NumStrs → World → List ActiveGame → List (ℕ × State) → Shared → Resumed
resume_games host numstrs world [] games sh = finished games sh
resume_games host numstrs world (row ∷ rows) games sh =
    let c = channel_of_row row in
    let guild = guild_of row in
    elim (lookup c games) [
      | some g ↦ resume_games host numstrs world rows games sh
      | none ↦ elim (shuffle_list_of world.parse (world.fetched guild) row) [
        | none ↦ thrown games sh
        | some shuffle_list ↦
            elim (resume_round host numstrs (world.moment c) (world.settings guild)
              (world.lookups c) shuffle_list row sh) [
                | returned r ↦
                    resume_games host numstrs world rows (insert c r.game games) (shared_of r)
                | threw r ↦ thrown (insert c r.game games) (shared_of r)
                | fault r ↦ past_end
              ]
      ]
    ]

unfoldable pub on_all_shards_ready :
    Host
    → NumStrs
    → World
    → (test_mode : Bool) → List ActiveGame
    → List (ℕ × State)
    → Shared
    → Resumed
on_all_shards_ready host numstrs world test_mode active games sh =
    if test_mode then finished games sh else resume_games host numstrs world active games sh
