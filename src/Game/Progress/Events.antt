-- ===== src/Game/Progress/Events.antt =====
-- Every event brings the end nearer.
use triviabot.Common.{
  ◌<◌, ◌≡◌, refl, ◌∙◌, Bool, true, false, ◌&&◌, [], ◌∷◌, leb, ◌==◌, get_elem?, is_empty, sub32,
  arith, Bool-cases, Option-cases, inl, inr,
}
use triviabot.Host.{Host}
use triviabot.Numbers.{NumStrs}
use triviabot.Settings.{GuildSettings}
use triviabot.Game.State.{
  GameState, ask_question, first_hint, second_hint, time_up, answer_correct, ended, invalid,
  Question, State, Run, Moment, Outcome, asked, returned, threw, fault, emit, with_game, is_ended,
  stop_game, log_question_index, log_or_stop, is_insane_round,
}
use triviabot.Game.Rounds.{
  do_insane_round, and_then, ask_normal, normal_asked, normal_round_of, do_normal_round,
  do_first_hint, do_second_hint, do_time_up, do_answer_correct, do_end_game, end_round, say,
}
use triviabot.Game.Ticks.{event, dispatch, is_guarded, build_question_cache, tick_event}
use triviabot.Game.Counting.{final}
use mathlib.Core.Path.{subst}
use triviabot.Common.{u32, ltb, if◌then◌else◌, ◌+◌}
use triviabot.Game.State.{message}
use triviabot.Game.Rounds.{time_up_told, unanswered, time_up_keys}
use triviabot.Game.Unanswered.{Alike, Told, time_up_told-Alike, unanswered-Alike, Alike-trans}
use triviabot.Game.Progress.{Placed, SameCore, Advances}

module _ (r : Run) (live : r.game.terminating ≡ false) (placed : Placed r.game) where
  do_first_hint-Advances :
      (m : Moment) (s : GuildSettings)
      → r.game.gamestate ≡ first_hint
      → Advances r.game (do_first_hint m s r)
  unfolding do_first_hint log_or_stop log_question_index stop_game
  do_first_hint-Advances m s at = ground arith

  do_second_hint-Advances :
      (m : Moment) (s : GuildSettings)
      → r.game.gamestate ≡ second_hint
      → Advances r.game (do_second_hint m s r)
  unfolding do_second_hint log_or_stop log_question_index stop_game
  do_second_hint-Advances m s at = ground arith

  do_answer_correct-Advances :
      (m : Moment) → r.game.gamestate ≡ answer_correct → Advances r.game (do_answer_correct m r)
  unfolding do_answer_correct log_or_stop log_question_index stop_game
  do_answer_correct-Advances m at = ground arith

  -- The end of do_time_up, on what the game is by then.
  time_up_end :
      (m : Moment) (r1 : Run) (g : State)
      → r.game.gamestate ≡ time_up
      → Alike r.game g
      → g.question.answer ≡ []
      → Advances r.game (
          returned (
            log_or_stop m g.question.id (
              with_game
                (record g {
                  gamestate = if ltb g.numquestions g.round then ended else ask_question;
                  round = u32 (g.round + 1);
                })
                r1)))
  unfolding log_or_stop log_question_index stop_game
  time_up_end m r1 g at alike none_left = ground arith

  do_time_up-Advances :
      (m : Moment) (s : GuildSettings)
      → r.game.gamestate ≡ time_up
      → Advances r.game (do_time_up m s r)
  unfolding do_time_up emit
  do_time_up-Advances m s at = elim (Option-cases (time_up_told m s r)) [
    | inl e ↦ rw (e, do_time_up) (placed, omega arith)
    | inr ((keys, r1), e) ↦
        (let told : Alike r.game r1.game = subst (Told r.game) e (time_up_told-Alike m s r) in
          let (alike, cleared) = unanswered-Alike s r1.game in
          let g = unanswered s r1.game in
          let r2 = emit (message (time_up_keys s r.game keys)) r1 in
          rw (e, do_time_up)
            (time_up_end m r2 g at (Alike-trans r.game r1.game g told alike) cleared))
  ]

  do_end_game-Advances : r.game.gamestate ≡ ended → Advances r.game (do_end_game r)
  unfolding do_end_game
  do_end_game-Advances at = ground arith

  module _ (at : r.game.gamestate ≡ ask_question) (early : r.game.round < r.game.numquestions) where
    normal_asked-Advances : (m : Moment) → Advances r.game (normal_asked m r)
    unfolding normal_asked log_or_stop log_question_index stop_game
    normal_asked-Advances m = ground arith

  do_insane_round-Advances :
      (host : Host) (m : Moment) (s : GuildSettings)
      → r.game.gamestate ≡ ask_question
      → Advances r.game (do_insane_round host m s r)
  unfolding do_insane_round end_round log_question_index stop_game is_ended emit
  do_insane_round-Advances host m s at = ground arith

-- A call that leaves the game where it is.
Stays : State → Outcome → Type 0
Stays g (returned r) = SameCore g r.game
Stays g (threw r) = SameCore g r.game
Stays g (fault r) = SameCore g r.game

ask_normal-Stays :
    (host : Host) (ns : NumStrs) (m : Moment) (silent : Bool) (s : GuildSettings) (r : Run)
    → Stays r.game (ask_normal host ns m silent s r)
unfolding ask_normal Stays
ask_normal-Stays host ns m silent s r = ground arith

-- A question that is asked, or a call that throws before it is.
and_then-Advances :
    (g : State) (o : Outcome) (m : Moment)
    → g.terminating ≡ false
    → Placed g
    → g.gamestate ≡ ask_question
    → g.round < g.numquestions
    → Stays g o
    → Advances g (and_then o (normal_asked m))
unfolding Stays
and_then-Advances g (returned r) m live placed at early (t, s, e, n) =
    let there : Placed r.game = ground arith in
    ground (arith, normal_asked-Advances r (t ∙ live) there (s ∙ at) (ground arith) m)
and_then-Advances g (threw r) m live placed at early (t, s, e, n) = ground arith
and_then-Advances g (fault r) m live placed at early (t, s, e, n) = ground arith

normal_round_of-Advances :
    (host : Host) (ns : NumStrs) (m : Moment) (silent : Bool) (s : GuildSettings) (r : Run)
    (q : Question)
    → r.game.terminating ≡ false
    → Placed r.game
    → r.game.gamestate ≡ ask_question
    → r.game.round < r.game.numquestions
    → Advances r.game (normal_round_of host ns m silent s r q)
unfolding normal_round_of say emit Stays
normal_round_of-Advances host ns m silent s r q live placed at early =
    let r1 = emit (asked q.id) (with_game (record r.game { question = q }) r) in
    elim (Bool-cases (q.id == 0)) [
      | inl e ↦ rw e (ground arith)
      | inr e ↦ rw e (elim (Bool-cases (is_empty q.question)) [
        | inl b ↦ rw b (
            and_then-Advances r.game (returned (say silent ("BRAIN_BROKE_IT" ∷ "FETCH_Q" ∷ []) r1))
              m live placed at early (ground arith))
        | inr b ↦ rw b (
            and_then-Advances r.game (ask_normal host ns m silent s r1) m live placed at early
              (ask_normal-Stays host ns m silent s r1))
      ])
    ]

do_normal_round-Advances :
    (host : Host) (ns : NumStrs) (m : Moment) (silent : Bool) (s : GuildSettings) (r : Run)
    → r.game.terminating ≡ false
    → Placed r.game
    → r.game.gamestate ≡ ask_question
    → Advances r.game (do_normal_round host ns m silent s r)
unfolding do_normal_round end_round
do_normal_round-Advances host ns m silent s r live placed at =
    elim (Bool-cases (leb r.game.numquestions r.game.round)) [
      | inl e ↦ rw e (ground arith)
      | inr e ↦ rw e (elim (Option-cases (get_elem? r.game.shuffle_list (sub32 r.game.round 1))) [
        | inl l ↦ rw l (ground arith)
        | inr (t, l) ↦
            rw l (elim (Option-cases (get_elem? r.game.question_cache (sub32 r.game.round 1))) [
              | inl c ↦ rw c (ground arith)
              | inr (q, c) ↦
                  rw c
                    (normal_round_of-Advances host ns m silent s r q live placed at (ground arith))
            ])
      ])
    ]

event-Advances :
    (host : Host) (ns : NumStrs) (m : Moment) (s : GuildSettings) (r : Run)
    → r.game.terminating ≡ false
    → Placed r.game
    → (state : GameState) → r.game.gamestate ≡ state
    → Advances r.game (event host ns m s state r)
unfolding event
event-Advances host ns m s r live placed ask_question at =
    elim (Bool-cases (is_insane_round s r.game)) [
      | inl e ↦ rw e (do_insane_round-Advances r live placed host m s at)
      | inr e ↦ rw e (do_normal_round-Advances host ns m false s r live placed at)
    ]
event-Advances host ns m s r live placed first_hint at = do_first_hint-Advances r live placed m s at
event-Advances host ns m s r live placed second_hint at =
    do_second_hint-Advances r live placed m s at
event-Advances host ns m s r live placed time_up at = do_time_up-Advances r live placed m s at
event-Advances host ns m s r live placed answer_correct at =
    do_answer_correct-Advances r live placed m at
event-Advances host ns m s r live placed ended at = do_end_game-Advances r live placed at
event-Advances host ns m s r live placed (invalid n) at = ground arith

dispatch-Advances :
    (host : Host) (ns : NumStrs) (m : Moment) (s : GuildSettings) (r : Run)
    → r.game.terminating ≡ false
    → Placed r.game
    → Advances r.game (dispatch host ns m s r)
unfolding dispatch
dispatch-Advances host ns m s r live placed =
    let goes : is_guarded r.game.gamestate && r.game.terminating ≡ false = ground arith in
    rw (goes, dispatch) (event-Advances host ns m s r live placed r.game.gamestate refl)

-- A tick of a game that goes on brings its end nearer, if it returns.
pub tick_event-Advances :
    (host : Host) (ns : NumStrs) (m : Moment) (s : GuildSettings) (r : Run)
    → r.game.terminating ≡ false
    → Placed r.game
    → Advances r.game (tick_event host ns m s r)
unfolding tick_event build_question_cache
tick_event-Advances host ns m s r live placed = elim (Bool-cases (is_empty r.game.question_cache)) [
  | inl e ↦ rw e (dispatch-Advances host ns m s (build_question_cache m r) live placed)
  | inr e ↦ rw e (dispatch-Advances host ns m s r live placed)
]

-- The end of a game that is stopping, by whatever state it stops in.
stopping-event :
    (host : Host) (ns : NumStrs) (m : Moment) (s : GuildSettings) (state : GameState) (r : Run)
    → r.game.terminating ≡ true
    → is_guarded state ≡ false
    → Placed r.game
    → r.game.gamestate ≡ state
    → Placed (final (event host ns m s state r)).game
      × ((final (event host ns m s state r)).game.terminating ≡ true)
unfolding event is_guarded do_end_game final
stopping-event host ns m s ask_question r t g placed at = absurd (ground arith)
stopping-event host ns m s first_hint r t g placed at = absurd (ground arith)
stopping-event host ns m s second_hint r t g placed at = absurd (ground arith)
stopping-event host ns m s time_up r t g placed at = absurd (ground arith)
stopping-event host ns m s answer_correct r t g placed at = absurd (ground arith)
stopping-event host ns m s ended r t g placed at = ground arith
stopping-event host ns m s (invalid n) r t g placed at = ground arith

stopping-dispatch :
    (host : Host) (ns : NumStrs) (m : Moment) (s : GuildSettings) (r : Run)
    → r.game.terminating ≡ true
    → Placed r.game
    → Placed (final (dispatch host ns m s r)).game
      × ((final (dispatch host ns m s r)).game.terminating ≡ true)
unfolding dispatch final
stopping-dispatch host ns m s r t placed = elim (Bool-cases (is_guarded r.game.gamestate)) [
  | inl g ↦
      (let skips : is_guarded r.game.gamestate && r.game.terminating ≡ true = ground arith in
        rw (skips, dispatch) (placed, t))
  | inr g ↦
      (let goes : is_guarded r.game.gamestate && r.game.terminating ≡ false = ground arith in
        rw (goes, dispatch) (stopping-event host ns m s r.game.gamestate r t g placed refl))
]

-- A game that is stopping stays so.
pub stopping-tick_event :
    (host : Host) (ns : NumStrs) (m : Moment) (s : GuildSettings) (r : Run)
    → r.game.terminating ≡ true
    → Placed r.game
    → Placed (final (tick_event host ns m s r)).game
      × ((final (tick_event host ns m s r)).game.terminating ≡ true)
unfolding tick_event build_question_cache
stopping-tick_event host ns m s r t placed = elim (Bool-cases (is_empty r.game.question_cache)) [
  | inl e ↦ rw e (stopping-dispatch host ns m s (build_question_cache m r) t placed)
  | inr e ↦ rw e (stopping-dispatch host ns m s r t placed)
]
