-- ===== src/Game/Counting/Events.antt =====
-- What a tick does to the map of answers.
use triviabot.Common.{
  String, ℕ, ◌≡◌, refl, ◌∙◌, Bool, false, ◌&&◌, ◌||◌, List, [], ◌∷◌, leb, get_elem?, sub32, arith,
  Bool-cases, Option-cases, inl, inr,
}
use mathlib.Core.Path.{subst}
use triviabot.Host.{Host}
use triviabot.Numbers.{NumStrs}
use triviabot.Settings.{GuildSettings}
use triviabot.Game.State.{
  GameState, ask_question, first_hint, second_hint, time_up, answer_correct, ended, invalid,
  Question, Run, Moment, Outcome, asked, returned, threw, fault, emit, with_game, is_ended,
  stop_game, log_question_index, log_or_stop, is_insane_round,
}
use triviabot.Game.Rounds.{
  insane_tries, do_insane_round, and_then, ask_normal, normal_asked, normal_round_of,
  do_normal_round, do_first_hint, do_second_hint, do_time_up, do_answer_correct, do_end_game,
  end_round, say, insane_start,
}
use triviabot.Game.Ticks.{event, dispatch, is_guarded}
use triviabot.Common.{u32, ltb, if◌then◌else◌, ◌+◌}
use triviabot.Game.State.{message, State}
use triviabot.Game.Counting.Messages.{log_or_stop-SameMap}
use triviabot.Game.Rounds.{time_up_told, unanswered, time_up_keys}
use triviabot.Game.Unanswered.{Alike, Told, time_up_told-Alike, unanswered-Alike, Alike-trans}
use triviabot.Game.Counting.{Counted, SameMap, SameMap-Counted, final, insane_start-Counted}

log_question_index-SameMap :
    (m : Moment) (qid : ℕ) (r : Run) → SameMap r.game (log_question_index m qid r).game
unfolding log_question_index
log_question_index-SameMap m qid r = (refl, refl)

-- What an event leaves, when it returns: the map and its count.
abbrev Leaves : Run → Outcome → Type 0
Leaves r o = SameMap r.game (final o).game

do_first_hint-Leaves : (m : Moment) (s : GuildSettings) (r : Run) → Leaves r (do_first_hint m s r)
unfolding do_first_hint log_or_stop log_question_index stop_game final
do_first_hint-Leaves m s r = ground arith

do_second_hint-Leaves : (m : Moment) (s : GuildSettings) (r : Run) → Leaves r (do_second_hint m s r)
unfolding do_second_hint log_or_stop log_question_index stop_game final
do_second_hint-Leaves m s r = ground arith

do_answer_correct-Leaves : (m : Moment) (r : Run) → Leaves r (do_answer_correct m r)
unfolding do_answer_correct log_or_stop log_question_index stop_game final
do_answer_correct-Leaves m r = ground arith

do_time_up-Leaves : (m : Moment) (s : GuildSettings) (r : Run) → Leaves r (do_time_up m s r)
unfolding do_time_up emit final
do_time_up-Leaves m s r = elim (Option-cases (time_up_told m s r)) [
  | inl e ↦ rw (e, do_time_up) (refl, refl)
  | inr ((keys, r1), e) ↦
      (let told : Alike r.game r1.game = subst (Told r.game) e (time_up_told-Alike m s r) in
        let (t, st, rd, n, i, l) =
          Alike-trans r.game r1.game (unanswered s r1.game) told (unanswered-Alike s r1.game).0 in
        let g = unanswered s r1.game in
        let next : State = record g {
          gamestate = if ltb g.numquestions g.round then ended else ask_question;
          round = u32 (g.round + 1);
        } in
        let (i2, l2) =
          log_or_stop-SameMap m g.question.id
            (emit (message (time_up_keys s r.game keys)) (with_game next r1)) in
        rw (e, do_time_up) (i2 ∙ i, l2 ∙ l))
]

do_end_game-Leaves : (r : Run) → Leaves r (do_end_game r)
unfolding do_end_game final
do_end_game-Leaves r = ground arith

say-Leaves :
    (silent : Bool) (keys : List String) (r : Run) → SameMap r.game (say silent keys r).game
unfolding say
say-Leaves silent keys r = ground arith

normal_asked-Leaves : (m : Moment) (r : Run) → Leaves r (normal_asked m r)
unfolding normal_asked log_or_stop log_question_index stop_game final
normal_asked-Leaves m r = ground arith

ask_normal-Leaves :
    (host : Host) (ns : NumStrs) (m : Moment) (silent : Bool) (s : GuildSettings) (r : Run)
    → Leaves r (ask_normal host ns m silent s r)
unfolding ask_normal final
ask_normal-Leaves host ns m silent s r = ground arith

and_then-Leaves :
    (r : Run) (o : Outcome) (k : Run → Outcome)
    → Leaves r o
    → ((r' : Run) → Leaves r' (k r'))
    → Leaves r (and_then o k)
unfolding final
and_then-Leaves r (returned r') k (e, l) h = (let (e2, l2) = h r' in (e2 ∙ e, l2 ∙ l))
and_then-Leaves r (threw r') k l h = l
and_then-Leaves r (fault r') k l h = l

normal_round_of-Leaves :
    (host : Host) (ns : NumStrs) (m : Moment) (silent : Bool) (s : GuildSettings) (r : Run)
    (q : Question)
    → Leaves r (normal_round_of host ns m silent s r q)
unfolding normal_round_of say emit final
normal_round_of-Leaves host ns m silent s r q =
    let r1 = emit (asked q.id) (with_game (record r.game { question = q }) r) in
    ground (
      arith,
      normal_asked-Leaves m (say silent ("BRAIN_BROKE_IT" ∷ "FETCH_Q" ∷ []) r1),
      and_then-Leaves r1 (ask_normal host ns m silent s r1) (normal_asked m)
          (ask_normal-Leaves host ns m silent s r1) (normal_asked-Leaves m),
      say-Leaves silent ("BRAIN_BROKE_IT" ∷ "FETCH_Q" ∷ []) r1,
    )

do_normal_round-Leaves :
    (host : Host) (ns : NumStrs) (m : Moment) (silent : Bool) (s : GuildSettings) (r : Run)
    → Leaves r (do_normal_round host ns m silent s r)
unfolding do_normal_round final
do_normal_round-Leaves host ns m silent s r =
    elim (Bool-cases (leb r.game.numquestions r.game.round)) [
      | inl e ↦ rw e (refl, refl)
      | inr e ↦ rw e (elim (Option-cases (get_elem? r.game.shuffle_list (sub32 r.game.round 1))) [
        | inl l ↦ rw l (refl, refl)
        | inr (t, l) ↦
            rw l (elim (Option-cases (get_elem? r.game.question_cache (sub32 r.game.round 1))) [
              | inl c ↦ rw c (refl, refl)
              | inr (q, c) ↦ rw c (normal_round_of-Leaves host ns m silent s r q)
            ])
      ])
    ]

-- If an event returns, the map is counted.
Returns : Outcome → Type 0
Returns (returned r) = Counted r.game
Returns (threw r) = Unit {0}
Returns (fault r) = Unit {0}

Leaves-Returns : (r : Run) (o : Outcome) → Counted r.game → Leaves r o → Returns o
unfolding Returns final
Leaves-Returns r (returned r') c l = SameMap-Counted r.game r'.game l c
Leaves-Returns r (threw r') c l = tt
Leaves-Returns r (fault r') c l = tt

Returns-if : (o : Outcome) → ((r : Run) → o ≡ returned r → Counted r.game) → Returns o
unfolding Returns
Returns-if (returned r) h = h r refl
Returns-if (threw r) h = tt
Returns-if (fault r) h = tt

stop_game-SameMap : (r : Run) → SameMap r.game (stop_game r).game
unfolding stop_game is_ended emit
stop_game-SameMap r = ground arith

do_insane_round-Returns :
    (host : Host) (m : Moment) (s : GuildSettings) (r : Run)
    → Counted r.game
    → Returns (do_insane_round host m s r)
unfolding do_insane_round end_round log_question_index stop_game final
do_insane_round-Returns host m s r c =
    let (id, answers, tries) = insane_tries m 5 0 (r.game.question.id, []) in
    let r1 = with_game (record r.game { question = record r.game.question { id = id } }) r in
    let r2 = log_question_index m id r1 in
    elim (Bool-cases (leb r.game.numquestions r.game.round)) [
      | inl e ↦ rw e (Leaves-Returns r (returned (end_round r)) c (refl, refl))
      | inr e ↦ rw e (elim (Bool-cases (m.stopped || leb 5 tries)) [
        | inl t ↦ rw t (Leaves-Returns r (returned (stop_game r2)) c (stop_game-SameMap r2))
        | inr t ↦
            rw t
              (Returns-if (insane_start host s answers r2) (insane_start-Counted host s answers r2))
      ])
    ]

event-Returns :
    (host : Host) (ns : NumStrs) (m : Moment) (s : GuildSettings) (state : GameState) (r : Run)
    → Counted r.game
    → Returns (event host ns m s state r)
unfolding event
event-Returns host ns m s ask_question r c = elim (Bool-cases (is_insane_round s r.game)) [
  | inl e ↦ rw e (do_insane_round-Returns host m s r c)
  | inr e ↦ rw e (Leaves-Returns r _ c (do_normal_round-Leaves host ns m false s r))
]
event-Returns host ns m s first_hint r c = Leaves-Returns r _ c (do_first_hint-Leaves m s r)
event-Returns host ns m s second_hint r c = Leaves-Returns r _ c (do_second_hint-Leaves m s r)
event-Returns host ns m s time_up r c = Leaves-Returns r _ c (do_time_up-Leaves m s r)
event-Returns host ns m s answer_correct r c = Leaves-Returns r _ c (do_answer_correct-Leaves m r)
event-Returns host ns m s ended r c = Leaves-Returns r _ c (do_end_game-Leaves r)
event-Returns host ns m s (invalid n) r c = unfold Returns in c

dispatch-Returns :
    (host : Host) (ns : NumStrs) (m : Moment) (s : GuildSettings) (r : Run)
    → Counted r.game
    → Returns (dispatch host ns m s r)
unfolding dispatch Returns
dispatch-Returns host ns m s r c =
    elim (Bool-cases (is_guarded r.game.gamestate && r.game.terminating)) [
      | inl e ↦ rw (e, dispatch) c
      | inr e ↦ rw (e, dispatch) (event-Returns host ns m s r.game.gamestate r c)
    ]

-- If the count of the answers that are left is the size of the map of an insane round, and its keys
-- are distinct, then this stays so in an event that returns.
pub dispatch-Counted :
    (host : Host) (ns : NumStrs) (m : Moment) (s : GuildSettings) (r r' : Run)
    → Counted r.game
    → dispatch host ns m s r ≡ returned r'
    → Counted r'.game
unfolding Returns
dispatch-Counted host ns m s r r' c h = subst Returns h (dispatch-Returns host ns m s r c)
