-- ===== src/Game/Once.antt =====
-- A question is paid for once, and how the round moves behind it.
use triviabot.Common.{
  ℕ, zero, suc, ◌⊎◌, ◌≡◌, refl, ◌∙◌, Bool, true, false, ◌&&◌, ◌||◌, List, [], ◌∷◌, none, some, ltb,
  leb, sub32, arith, length, get_elem?, Bool-cases, inl, inr,
}
use triviabot.Text.{Text}
use triviabot.Host.{Host}
use triviabot.Numbers.{NumStrs}
use triviabot.Settings.{GuildSettings}
use triviabot.Game.State.{
  Question, asked, Run, Moment, Outcome, returned, threw, fault, emit, with_game,
}
use triviabot.Game.Rounds.{
  do_normal_round, normal_round_of, and_then, ask_normal, normal_asked, say, end_round,
}
use triviabot.Game.Answers.{InMsg, is_open, correct_answer, handle_message}
use triviabot.Game.Scoring.{correct_answer-streak}

-- A message in a state in which no answers are taken.
not_taken :
    (host : Host) (m : Moment) (s : GuildSettings) (msg : InMsg) (r : Run)
    → is_open r.game.gamestate ≡ false
    → handle_message host m s msg r ≡ returned r
unfolding handle_message
not_taken host m s msg r shut = rw (shut, handle_message) (ground arith)

-- After a correct answer, no further message changes anything before the next tick: whoever else has
-- the answer is too late.
pub answered_once :
    (host : Host) (m later : Moment) (s : GuildSettings) (msg : InMsg) (user : ℕ) (r : Run)
    → handle_message host later s msg (correct_answer m user r) ≡ returned (correct_answer m user r)
unfolding is_open
answered_once host m later s msg user r =
    let (streak, last, answer, round, state) = correct_answer-streak m user r in
    not_taken host later s msg (correct_answer m user r) (ground (arith, state))

-- Whether a call reads past the end of a vector.
unfoldable pub faults : Outcome → Bool
faults (returned r) = false
faults (threw r) = false
faults (fault r) = true

and_then-faults :
    (o : Outcome) (k : Run → Outcome)
    → faults o ≡ false
    → ((r : Run) → faults (k r) ≡ false)
    → faults (and_then o k) ≡ false
unfolding faults
and_then-faults (returned r) k h f = f r
and_then-faults (threw r) k h f = refl
and_then-faults (fault r) k h f = cc

ask_normal-faults :
    (host : Host) (ns : NumStrs) (m : Moment) (silent : Bool) (s : GuildSettings) (r : Run)
    → faults (ask_normal host ns m silent s r) ≡ false
unfolding ask_normal faults
ask_normal-faults host ns m silent s r = ground arith

normal_asked-faults : (m : Moment) (r : Run) → faults (normal_asked m r) ≡ false
unfolding normal_asked faults
normal_asked-faults m r = refl

round_of-faults :
    (host : Host) (ns : NumStrs) (m : Moment) (silent : Bool) (s : GuildSettings) (r : Run)
    (q : Question)
    → faults (normal_round_of host ns m silent s r q) ≡ false
unfolding normal_round_of emit faults
round_of-faults host ns m silent s r q =
    let r1 = emit (asked q.id) (with_game (record r.game { question = q }) r) in
    ground (
      arith,
      normal_asked-faults m (say silent ("BRAIN_BROKE_IT" ∷ "FETCH_Q" ∷ []) r1),
      and_then-faults (ask_normal host ns m silent s r1) (normal_asked m)
          (ask_normal-faults host ns m silent s r1) (normal_asked-faults m),
    )

get_elem?-cases :
    {A : Type 0} (xs : List A) (i : ℕ)
    → ((get_elem? xs i ≡ none) × (leb (length xs) i ≡ true))
      ⊎ ((a : A) × (get_elem? xs i ≡ some a) × (leb (length xs) i ≡ false))
get_elem?-cases [] i = inl (refl, ground arith)
get_elem?-cases (x ∷ xs) zero = inr (x, refl, ground arith)
get_elem?-cases (x ∷ xs) (suc i) = elim (get_elem?-cases xs i) [
  | inl (e, l) ↦ inl (e, ground arith)
  | inr (a, e, l) ↦ inr (a, e, ground arith)
]

-- A normal round reads past the end of the question list exactly when its round is less than the number
-- of questions and the list, or the cache of its questions, has no element at the index before the
-- round, which at round 0 wraps around to the greatest one.
pub do_normal_round-faults :
    (host : Host) (ns : NumStrs) (m : Moment) (silent : Bool) (s : GuildSettings) (r : Run)
    → faults (do_normal_round host ns m silent s r) ≡ (
        ltb r.game.round r.game.numquestions
        && (leb (length r.game.shuffle_list) (sub32 r.game.round 1)
            || leb (length r.game.question_cache) (sub32 r.game.round 1)))
unfolding do_normal_round faults end_round
do_normal_round-faults host ns m silent s r =
    let index = sub32 r.game.round 1 in
    elim (Bool-cases (leb r.game.numquestions r.game.round)) [
      | inl e ↦ rw e (ground arith)
      | inr e ↦ rw e (elim (get_elem?-cases r.game.shuffle_list index) [
        | inl (l, k) ↦ rw (l, k) (ground arith)
        | inr (t, l, k) ↦
            rw (l, k)
              (elim (get_elem?-cases r.game.question_cache index) [
                | inl (c, j) ↦ rw (c, j) (ground arith)
                | inr (q, c, j) ↦ rw (c, j) (round_of-faults host ns m silent s r q ∙ ground arith)
              ])
      ])
    ]
