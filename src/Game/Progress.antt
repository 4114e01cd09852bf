-- ===== src/Game/Progress.antt =====
-- A game ends: every event that returns brings the end nearer, and no message takes it away.
pub mod Events
pub mod Messages
pub mod Ends
use triviabot.Common.{
  ℕ, suc, ◌+◌, ◌-◌, ◌*◌, ◌≤◌, ◌<◌, ◌≡◌, refl, ◌⊎◌, inl, inr, List, [], Bool, true, false,
  if◌then◌else◌, ltb, arith,
}
use triviabot.Text.{Text}
use triviabot.Game.State.{
  GameState, ask_question, first_hint, second_hint, time_up, answer_correct, ended, invalid, State,
  Run, Outcome, returned, threw, fault,
}

-- In which rounds a game can be in a state: a question is asked in a round before `numquestions`
-- only, and the states behind it stay there. Before it is asked there is no answer.
abbrev pub InRange : GameState → Text → (round numquestions : ℕ) → Type 0
InRange ask_question answer round n = (round ≤ n + 1) × ((answer ≡ []) ⊎ (round < n))
InRange first_hint answer round n = round < n
InRange second_hint answer round n = round < n
InRange time_up answer round n = round < n
InRange answer_correct answer round n = round ≤ n
InRange ended answer round n = Unit {0}
InRange (invalid k) answer round n = Unit {0}

-- `round` stays below the end of its type.
abbrev pub Placed : State → Type 0
Placed g =
    (0 < g.numquestions)
    × (g.numquestions + 2 < 4294967296)
    × InRange g.gamestate g.question.answer g.round g.numquestions

-- The events from a state on, if no question is answered and nothing goes wrong: four for each
-- question, and two for the end.
abbrev pub left_in : GameState → (round numquestions : ℕ) → ℕ
left_in ask_question round n = 4 * (n - round) + 2
left_in first_hint round n = 4 * (n - round) + 1
left_in second_hint round n = 4 * (n - round)
left_in time_up round n = 4 * (n - round) - 1
left_in answer_correct round n = if ltb round n then 4 * (n - round) - 1 else 3
left_in ended round n = 1
left_in (invalid k) round n = 1

-- The most events that a game has left.
abbrev pub events_left : State → ℕ
events_left g = if g.terminating then 0 else left_in g.gamestate g.round g.numquestions

-- What an event does: if it returns, then fewer are left; if not, then no more are.
abbrev pub Advances : State → Outcome → Type 0
Advances g (returned r) = Placed r.game × (events_left r.game < events_left g)
Advances g (threw r) = Placed r.game × (events_left r.game ≤ events_left g)
Advances g (fault r) = Placed r.game × (events_left r.game ≤ events_left g)

-- Two games in the same place.
abbrev pub SameCore : State → State → Type 0
SameCore g h =
    (h.terminating ≡ g.terminating)
    × (h.gamestate ≡ g.gamestate)
    × (h.round ≡ g.round)
    × (h.numquestions ≡ g.numquestions)

-- What a message does: no more events are left than before.
abbrev pub Holds : State → State → Type 0
Holds g h = Placed h × (events_left h ≤ events_left g)
