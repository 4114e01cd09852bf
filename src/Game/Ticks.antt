-- ===== src/Game/Ticks.antt =====
-- state_t::tick of modules/trivia/state.cpp.
use triviabot.Common.{
  ℕ, ◌+◌, Bool, true, false, not, ◌&&◌, ◌++◌, map, ◌==◌, if◌then◌else◌, is_empty,
}
use triviabot.Host.{Host}
use triviabot.Numbers.{NumStrs}
use triviabot.Settings.{GuildSettings}
use triviabot.Game.State.{
  GameState, ask_question, first_hint, second_hint, time_up, answer_correct, ended, invalid, State,
  Run, Moment, Outcome, returned, threw, fault, game_end, emit, with_game, triv_interval,
  is_insane_round,
}
use triviabot.Game.Rounds.{
  do_insane_round, do_normal_round, do_first_hint, do_second_hint, do_time_up, do_answer_correct,
  do_end_game,
}

unfoldable pub build_question_cache : Moment → Run → Run
build_question_cache m r =
    with_game
      (record r.game { question_cache = r.game.question_cache ++ map m.fetch r.game.shuffle_list })
      r

-- The event of the state. The events of a game that is stopping are skipped, but not its end.
unfoldable pub event : Host → NumStrs → Moment → GuildSettings → GameState → Run → Outcome
event host numstrs m s ask_question r =
    if is_insane_round s r.game
    then do_insane_round host m s r
    else do_normal_round host numstrs m false s r
event host numstrs m s first_hint r = do_first_hint m s r
event host numstrs m s second_hint r = do_second_hint m s r
event host numstrs m s time_up r = do_time_up m s r
event host numstrs m s answer_correct r = do_answer_correct m r
event host numstrs m s ended r = do_end_game r
event host numstrs m s (invalid n) r =
    returned (with_game (record r.game { gamestate = ended; terminating = true }) r)

-- Whether the case of a state is under `if (!terminating)`.
unfoldable pub is_guarded : GameState → Bool
is_guarded ended = false
is_guarded (invalid n) = false
is_guarded _ = true

unfoldable pub dispatch : Host → NumStrs → Moment → GuildSettings → Run → Outcome
unfolding event is_guarded
dispatch host numstrs m s r =
    if is_guarded r.game.gamestate && r.game.terminating
    then returned r
    else event host numstrs m s r.game.gamestate r

-- The delay until the next tick.
unfoldable pub delay : GuildSettings → State → GameState → ℕ
delay s g answer_correct = 0
delay s g ask_question = if g.interval == triv_interval then s.question_interval else g.interval
delay s g _ = g.interval

unfoldable pub schedule : Moment → GuildSettings → Run → Run
unfolding delay
schedule m s r = with_game (record r.game { next_tick = m.now + delay s r.game r.game.gamestate }) r

-- The `catch` blocks: what is thrown is logged, and `next_tick` stays.
unfoldable pub caught : Moment → GuildSettings → Outcome → Outcome
unfolding schedule
caught m s (returned r) = returned (schedule m s r)
caught m s (threw r) = returned r
caught m s (fault r) = fault r

-- The `try` block of tick.
unfoldable pub tick_event : Host → NumStrs → Moment → GuildSettings → Run → Outcome
tick_event host numstrs m s r =
    dispatch host numstrs m s
      (if is_empty r.game.question_cache then build_question_cache m r else r)

unfoldable pub tick : Host → NumStrs → Moment → GuildSettings → Run → Outcome
unfolding caught emit
tick host numstrs m s r =
    if not r.game.has_creator
    then returned (
        emit (game_end r.game.guild_id r.game.channel_id)
          (with_game (record r.game { terminating = true; gamestate = ended }) r))
    else caught m s (tick_event host numstrs m s r)
