-- ===== src/Game/Unanswered.antt =====
-- What is left where a question is not answered: the parts of do_time_up (modules/trivia/state.cpp).
use triviabot.Common.{◌≡◌, ◌∙◌, List, [], String, Option, none, some, arith}
use triviabot.Settings.{GuildSettings}
use triviabot.Game.State.{State, Run, Moment}
use triviabot.Game.Board.{do_insane_board}
use triviabot.Game.Rounds.{time_up_told, unanswered}

-- Two games that differ in their statistics, their streak and their question at most.
abbrev pub Alike : State → State → Type 0
Alike g h =
    (h.terminating ≡ g.terminating)
    × (h.gamestate ≡ g.gamestate)
    × (h.round ≡ g.round)
    × (h.numquestions ≡ g.numquestions)
    × (h.insane ≡ g.insane)
    × (h.insane_left ≡ g.insane_left)

abbrev pub Told : State → Option (List String × Run) → Type 0
Told g none = Unit {0}
Told g (some (keys, r)) = Alike g r.game

board_game : (m : Moment) (r : Run) → (do_insane_board m r).game ≡ r.game
unfolding do_insane_board
board_game m r = ground arith

pub time_up_told-Alike :
    (m : Moment) (s : GuildSettings) (r : Run) → Told r.game (time_up_told m s r)
unfolding time_up_told
time_up_told-Alike m s r = ground (arith, board_game m r)

-- The answer is cleared.
pub unanswered-Alike :
    (s : GuildSettings) (g : State)
    → Alike g (unanswered s g) × ((unanswered s g).question.answer ≡ [])
unfolding unanswered
unanswered-Alike s g = ground arith

pub Alike-trans : (f g h : State) → Alike f g → Alike g h → Alike f h
Alike-trans f g h (a, b, c, d, e, i) (a2, b2, c2, d2, e2, i2) =
    (a2 ∙ a, b2 ∙ b, c2 ∙ c, d2 ∙ d, e2 ∙ e, i2 ∙ i)
