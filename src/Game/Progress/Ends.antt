-- ===== src/Game/Progress/Ends.antt =====
-- A game ends, whatever is said in the channel.
use triviabot.Common.{
  ℕ, ◌+◌, ◌≤◌, ◌≡◌, refl, true, false, List, [], ◌∷◌, if◌then◌else◌, arith, Bool-cases, inl, inr,
}
use triviabot.Host.{Host}
use triviabot.Numbers.{NumStrs}
use triviabot.Settings.{GuildSettings}
use triviabot.Game.State.{State, Run, Moment, Outcome, returned, threw, fault, emit}
use triviabot.Game.Answers.{InMsg, handle_message}
use triviabot.Game.Ticks.{tick, tick_event, caught, schedule}
use triviabot.Game.Counting.{final}
use triviabot.Game.Progress.{Placed, events_left, Advances}
use triviabot.Game.Progress.Events.{tick_event-Advances, stopping-tick_event}
use triviabot.Game.Progress.Messages.{handle_message-Holds}

-- What happens to a game from outside: its time has come, or a message is handled.
pub data Step : Type 0 where
  ticked : Moment → GuildSettings → Step
  told : Moment → GuildSettings → InMsg → Step

-- Whether a call returns.
unfoldable pub completes : Outcome → ℕ
completes (returned r) = 1
completes (threw r) = 0
completes (fault r) = 0

module _ (host : Host) (ns : NumStrs) where
  unfoldable pub after : Step → Run → Run
  after (ticked m s) r = final (tick host ns m s r)
  after (told m s msg) r = final (handle_message host m s msg r)

  unfoldable pub after_all : List Step → Run → Run
  after_all [] r = r
  after_all (x ∷ xs) r = after_all xs (after x r)

  -- The ticks of a game that goes on whose events return, one for each.
  unfoldable pub event_done : Step → Run → ℕ
  event_done (ticked m s) r =
      if r.game.terminating
      then 0
      else if r.game.has_creator
      then completes (tick_event host ns m s r)
      else 1
  event_done (told m s msg) r = 0

  unfoldable pub events_done : List Step → Run → ℕ
  events_done [] r = 0
  events_done (x ∷ xs) r = event_done x r + events_done xs (after x r)

  scheduled :
      (m : Moment) (s : GuildSettings) (g : State) (o : Outcome)
      → g.terminating ≡ false
      → Advances g o
      → Placed (final (caught m s o)).game
        × (completes o + events_left (final (caught m s o)).game ≤ events_left g)
  unfolding caught schedule completes final
  scheduled m s g (returned r) live (p, l) = (p, omega arith)
  scheduled m s g (threw r) live (p, l) = (p, omega arith)
  scheduled m s g (fault r) live (p, l) = (p, omega arith)

  caught-game :
      (m : Moment) (s : GuildSettings) (o : Outcome)
      → ((final (caught m s o)).game.terminating ≡ (final o).game.terminating)
        × ((final (caught m s o)).game.gamestate ≡ (final o).game.gamestate)
        × ((final (caught m s o)).game.round ≡ (final o).game.round)
        × ((final (caught m s o)).game.numquestions ≡ (final o).game.numquestions)
        × ((final (caught m s o)).game.question ≡ (final o).game.question)
  unfolding caught schedule final
  caught-game m s (returned r) = (refl, refl, refl, refl, refl)
  caught-game m s (threw r) = (refl, refl, refl, refl, refl)
  caught-game m s (fault r) = (refl, refl, refl, refl, refl)

  ticked-Placed :
      (m : Moment) (s : GuildSettings) (r : Run)
      → Placed r.game
      → Placed (after (ticked m s) r).game
        × (event_done (ticked m s) r + events_left (after (ticked m s) r).game ≤ events_left r.game)
  unfolding after event_done tick completes final emit
  ticked-Placed m s r placed = elim (Bool-cases r.game.terminating) [
    | inl t ↦ ground (
      arith,
      caught-game m s (tick_event host ns m s r),
      stopping-tick_event host ns m s r t placed,
    )
    | inr t ↦ ground (
      arith,
      scheduled m s r.game (tick_event host ns m s r) t
          (tick_event-Advances host ns m s r t placed),
    )
  ]

  step-Placed :
      (x : Step) (r : Run)
      → Placed r.game
      → Placed (after x r).game
        × (event_done x r + events_left (after x r).game ≤ events_left r.game)
  unfolding after event_done
  step-Placed (ticked m s) r placed = ticked-Placed m s r placed
  step-Placed (told m s msg) r placed =
      let (p, l) = handle_message-Holds host m s msg r placed in (p, omega arith)

  -- A game in range stays in range, and the events that it goes through are no more than were left
  -- at first, less those that are left at last, whatever messages come in between.
  pub events_done-le :
      (steps : List Step) (r : Run)
      → Placed r.game
      → Placed (after_all steps r).game
        × (events_done steps r + events_left (after_all steps r).game ≤ events_left r.game)
  unfolding after_all events_done
  events_done-le [] r placed = (placed, omega arith)
  events_done-le (x ∷ xs) r placed =
      let (p, l) = step-Placed x r placed in
      let (p2, l2) = events_done-le xs (after x r) p in (p2, omega arith)

  -- A game in its range is over once as many of its events have returned as were left to it, whatever
  -- messages come in between: it is terminating, so that the module takes it out. (In its range: a
  -- question is asked in a round before the last one only, there is no answer before it is asked, and
  -- `round` stays below the end of its type.)
  pub game_ends :
      (steps : List Step) (r : Run)
      → Placed r.game
      → events_left r.game ≤ events_done steps r
      → (after_all steps r).game.terminating ≡ true
  game_ends steps r placed enough = let (p, l) = events_done-le steps r placed in ground arith
