-- ===== src/Examples/Games.antt =====
-- The course of a game at concrete ones.
use triviabot.Common.{◌+◌, ◌≤◌, ◌≡◌, refl, true, false, List, [], ◌∷◌, inl, arith, u32}
use triviabot.Text.{ascii}
use triviabot.Game.State.{first_hint, answer_correct, Run, returned, with_game}
use triviabot.Game.Answers.{InMsg, handle_message, correct_answer}
use triviabot.Common.{text_eq, ltb, leb, ◌==◌, if◌then◌else◌, ◌&&◌, ◌||◌, sub32}
use triviabot.Text.{trim, replaced}
use triviabot.Wide.Utf8.{from_bytes}
use triviabot.Numbers.{is_number, words, word_value}
use triviabot.Host.{translate}
use triviabot.Numbers.Convert.{conv_num}
use triviabot.Numbers.{tidy_num}
use triviabot.Wide.{homoglyph}
use triviabot.Game.State.{log_or_stop, log_question_index, stop_game, is_insane_round}
use triviabot.Game.Rounds.{
  hint_shown, prepare_answer, do_first_hint, do_second_hint, do_time_up, time_up_told, unanswered,
  time_up_keys, do_end_game, ask_normal, normal_asked, normal_round_of, do_normal_round,
  do_answer_correct,
}
use triviabot.Game.Ticks.{build_question_cache, tick, tick_event, dispatch, event, caught, schedule}
use triviabot.Game.Counting.{final}
use triviabot.Game.Progress.{Placed, events_left}
use triviabot.Game.Progress.Ends.{
  Step, ticked, after, after_all, event_done, events_done, completes, events_done-le, game_ends,
}
use triviabot.Game.State.{get_score}
use triviabot.Game.Scoring.{paid, may_score, correct_answer-score, correct_answer-streak}
use triviabot.Game.Once.{answered_once, faults, do_normal_round-faults}
use triviabot.Examples.{a_host, a_guild, a_question, a_game, a_run, a_moment}

abbrev six_ticks : List Step
six_ticks = let t = ticked a_moment a_guild in t ∷ t ∷ t ∷ t ∷ t ∷ t ∷ []

a_run-Placed : Placed a_run.game
a_run-Placed = (omega arith, omega arith, (omega arith, inl refl))

done_in_six : events_done a_host [] six_ticks a_run ≡ 6
unfolding events_done event_done after tick tick_event dispatch event caught schedule completes
    final normal_round_of ask_normal prepare_answer normal_asked log_or_stop log_question_index
    stop_game is_insane_round build_question_cache do_normal_round do_first_hint do_second_hint
    hint_shown do_time_up do_answer_correct do_end_game time_up_told unanswered time_up_keys
    conv_num trim tidy_num homoglyph from_bytes is_number words replaced translate word_value
    text_eq
done_in_six = refl

-- Six ticks end the game in which nobody answers.
game_ends_example : (after_all a_host [] six_ticks a_run).game.terminating ≡ true
game_ends_example = game_ends a_host [] six_ticks a_run a_run-Placed (rw done_in_six (omega arith))

events_done-le_example :
    Placed (after_all a_host [] six_ticks a_run).game
    × (events_done a_host [] six_ticks a_run
          + events_left (after_all a_host [] six_ticks a_run).game
        ≤ 6)
events_done-le_example = events_done-le a_host [] six_ticks a_run a_run-Placed

a_message : InMsg
a_message = record { msg = ascii "Cat!"; author_id = 4 }

-- The question has been asked.
asked_run : Run
asked_run =
    with_game (record a_game { gamestate = first_hint; question = a_question; score = 4 }) a_run

answered_once_example :
    handle_message a_host a_moment a_guild a_message (correct_answer a_moment 6 asked_run)
    ≡ returned (correct_answer a_moment 6 asked_run)
answered_once_example = answered_once a_host a_moment a_moment a_guild a_message 6 asked_run

-- A list that is too short for the round.
do_normal_round-faults_example :
    faults (
      do_normal_round a_host [] a_moment false a_guild
        (with_game (record a_game { round = 2; numquestions = 9 }) a_run))
    ≡ (ltb 2 9 && (leb 1 (sub32 2 1) || leb 0 (sub32 2 1)))
do_normal_round-faults_example =
    do_normal_round-faults a_host [] a_moment false a_guild
      (with_game (record a_game { round = 2; numquestions = 9 }) a_run)

correct_answer-score_example :
    get_score 4 (correct_answer a_moment 4 asked_run).game
    ≡ paid (may_score a_moment 4 asked_run) 4 4 asked_run.game.score (get_score 4 asked_run.game)
correct_answer-score_example = correct_answer-score a_moment 4 4 asked_run

correct_answer-streak_example :
    ((correct_answer a_moment 4 asked_run).game.streak
      ≡ (if asked_run.game.last_to_answer == 4 then u32 (asked_run.game.streak + 1) else 1))
    × ((correct_answer a_moment 4 asked_run).game.last_to_answer ≡ 4)
    × ((correct_answer a_moment 4 asked_run).game.question.answer ≡ [])
    × ((correct_answer a_moment 4 asked_run).game.round ≡ asked_run.game.round)
    × ((correct_answer a_moment 4 asked_run).game.gamestate ≡ answer_correct)
correct_answer-streak_example = correct_answer-streak a_moment 4 asked_run
