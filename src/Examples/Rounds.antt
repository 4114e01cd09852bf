-- ===== src/Examples/Rounds.antt =====
-- An insane round at a concrete one.
use triviabot.Common.{◌≡◌, refl, [], ◌∷◌, text_eq}
use triviabot.Common.{keep}
use triviabot.Text.{ascii}
use triviabot.Wide.{removepunct, utf8lower}
use triviabot.Wide.Utf8.{from_bytes, to_bytes}
use triviabot.Game.State.{first_hint, Run, returned, with_game, is_insane_round, log_question_index}
use triviabot.Game.Answers.{InMsg, handle_message, holds_key}
use triviabot.Game.Rounds.{
  do_insane_round, insane_tries, insane_start, insane_map, insane_key, insane_filled, add_key,
}
use triviabot.Game.Ticks.{dispatch, event}
use triviabot.Game.Counting.{final, Counted}
use triviabot.Game.Counting.Messages.{handle_message-Counted}
use triviabot.Game.Counting.Events.{dispatch-Counted}
use triviabot.Examples.{a_host, a_guild, a_game, a_run, a_moment}

abbrev a_message : InMsg
a_message = record { msg = ascii "cat"; author_id = 4 }

-- The tenth round, with two answers.
abbrev insane_run : Run
insane_run =
    with_game
      (record a_game {
        gamestate = first_hint;
        round = 10;
        numquestions = 21;
        insane = ascii "cat" ∷ ascii "dog" ∷ [];
        insane_left = 2;
      })
      a_run

insane_run-Counted : Counted insane_run.game
unfolding holds_key text_eq
insane_run-Counted = ((refl, (refl, tt)), refl)

handle_message-Counted_example :
    Counted (final (handle_message a_host a_moment a_guild a_message insane_run)).game
handle_message-Counted_example =
    handle_message-Counted a_host a_moment a_guild a_message insane_run insane_run-Counted

-- The round begins.
abbrev tenth_run : Run
tenth_run = with_game (record a_game { round = 10; numquestions = 21 }) a_run

tenth_returns :
    dispatch a_host [] a_moment a_guild tenth_run
    ≡ returned (final (dispatch a_host [] a_moment a_guild tenth_run))
unfolding dispatch event is_insane_round do_insane_round insane_tries insane_start insane_map
    insane_key insane_filled add_key log_question_index final removepunct from_bytes utf8lower
    to_bytes keep
tenth_returns = refl

dispatch-Counted_example : Counted (final (dispatch a_host [] a_moment a_guild tenth_run)).game
dispatch-Counted_example =
    dispatch-Counted a_host [] a_moment a_guild tenth_run
      (final (dispatch a_host [] a_moment a_guild tenth_run)) (tt, refl) tenth_returns
