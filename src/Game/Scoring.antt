-- ===== src/Game/Scoring.antt =====
-- Who is paid, and how much, for an answer.
use triviabot.Common.{
  ℕ, ◌+◌, ◌≡◌, refl, Bool, [], ◌==◌, if◌then◌else◌, u32, u64, arith, lookup-insert, ap, ◌∙◌,
}
use triviabot.Locks.{can_score_on_guild}
use triviabot.Game.State.{
  is_ended, Question, State, Run, Moment, Effect, ended, answer_correct, get_score, set_score,
  add_score, emit, message, with_game, log_or_stop, stop_game, add_insane_stats,
}
use triviabot.Text.{Text}
use triviabot.Game.Answers.{
  correct_keys, after_pay, mark_answered, after_team, after_streak, after_coin, insane_paid, award,
  insane_found, correct_answer, add_to_team, update_streak, drop_coin,
}

-- add_score changes the score of one user only, by what is added.
get_score-add_score :
    (uid other n : ℕ) (g : State)
    → get_score other (add_score uid n g)
      ≡ (if uid == other then u64 (get_score uid g + n) else get_score other g)
unfolding add_score get_score set_score
get_score-add_score uid other n g =
    ground (arith, lookup-insert uid other (u64 (get_score uid g + n)) g.scores)

-- The lock's answer for the author of a message.
abbrev pub may_score : Moment → ℕ → Run → Bool
may_score m user r = (can_score_on_guild user r.game.guild_id m.now r.locks).0

-- The points that a user gets when this user or another is paid.
abbrev pub paid : Bool → (user other points old : ℕ) → ℕ
paid may user other points old =
    if may then (if user == other then u64 (old + points) else old) else old

award-score :
    (m : Moment) (user other points : ℕ) (e : Effect) (r : Run)
    → get_score other (award m user points e r).game
      ≡ paid (may_score m user r) user other points (get_score other r.game)
unfolding award
award-score m user other points e r = ground (arith, get_score-add_score user other points r.game)

log_or_stop-score :
    (m : Moment) (qid other : ℕ) (r : Run)
    → get_score other (log_or_stop m qid r).game ≡ get_score other r.game
unfolding log_or_stop get_score
log_or_stop-score m qid other r = ground arith

get_score-scores :
    (other : ℕ) (g h : State) → h.scores ≡ g.scores → get_score other h ≡ get_score other g
unfolding get_score
get_score-scores other g h e = rw e

-- The parts of a correct answer that pay nothing keep the scores.
pay-score :
    (m : Moment) (user other : ℕ) (r : Run)
    → get_score other (after_pay m user r).game
      ≡ paid (may_score m user r) user other r.game.score (get_score other r.game)
unfolding after_pay mark_answered emit
pay-score m user other r = award-score m user other r.game.score _ _ ∙ unfold get_score in refl

team_game : (m : Moment) (user : ℕ) (r : Run) → (add_to_team m user r).1.game ≡ r.game
unfolding add_to_team
team_game m user r = ground arith

coin_game : (m : Moment) (user : ℕ) (r : Run) → (drop_coin m user r).1.game ≡ r.game
unfolding drop_coin
coin_game m user r = ground arith

streak_scores :
    (m : Moment) (user : ℕ) (r : Run) → (update_streak m user r).1.game.scores ≡ r.game.scores
unfolding update_streak
streak_scores m user r = ground arith

coin_scores :
    (m : Moment) (user : ℕ) (r : Run)
    → (after_coin m user r).1.game.scores ≡ (after_pay m user r).game.scores
unfolding after_coin after_streak after_team
coin_scores m user r =
    ap (λ (g : State). g.scores) (coin_game m user _)
    ∙ streak_scores m user _
    ∙ ap (λ (g : State). g.scores) (team_game m user (after_pay m user r))

-- A correct answer pays the points of the question to its author, if the lock allows it, and changes
-- no other user's score.
pub correct_answer-score :
    (m : Moment) (user other : ℕ) (r : Run)
    → get_score other (correct_answer m user r).game
      ≡ paid (may_score m user r) user other r.game.score (get_score other r.game)
unfolding correct_answer emit
correct_answer-score m user other r =
    log_or_stop-score m r.game.question.id other _
    ∙ get_score-scores other (after_pay m user r).game _ (coin_scores m user r)
    ∙ pay-score m user other r

stats-score :
    (user other : ℕ) (g : State) → get_score other (add_insane_stats user g) ≡ get_score other g
unfolding add_insane_stats get_score
stats-score user other g = ground arith

found-score :
    (m : Moment) (user other : ℕ) (answered : Text) (r : Run)
    → paid
        (may_score m user (insane_found answered r))
        user
        other
        1
        (get_score other (insane_found answered r).game)
      ≡ paid (may_score m user r) user other 1 (get_score other r.game)
unfolding insane_found get_score emit
found-score m user other answered r = ground arith

-- An answer of an insane round pays one point to its author, if the lock allows it, and changes no
-- other user's score.
insane_paid-score :
    (m : Moment) (user other : ℕ) (answered : Text) (r : Run)
    → get_score other (insane_paid m user answered r).game
      ≡ paid (may_score m user r) user other 1 (get_score other r.game)
unfolding insane_paid emit
insane_paid-score m user other answered r =
    stats-score user other _ ∙ award-score m user other 1 _ _ ∙ found-score m user other answered r

-- What a payment leaves alone.
award-rest :
    (m : Moment) (user points : ℕ) (e : Effect) (r : Run)
    → ((award m user points e r).game.streak ≡ r.game.streak)
      × ((award m user points e r).game.last_to_answer ≡ r.game.last_to_answer)
      × ((award m user points e r).game.question ≡ r.game.question)
      × ((award m user points e r).game.round ≡ r.game.round)
      × ((award m user points e r).game.gamestate ≡ r.game.gamestate)
unfolding award add_score set_score emit
award-rest m user points e r = ground arith

stop-rest :
    (m : Moment) (qid : ℕ) (r : Run)
    → ((log_or_stop m qid r).game.streak ≡ r.game.streak)
      × ((log_or_stop m qid r).game.last_to_answer ≡ r.game.last_to_answer)
      × ((log_or_stop m qid r).game.question ≡ r.game.question)
      × ((log_or_stop m qid r).game.round ≡ r.game.round)
      × ((log_or_stop m qid r).game.gamestate ≡ (if m.stopped then ended else r.game.gamestate))
unfolding log_or_stop stop_game is_ended
stop-rest m qid r = ground arith

update_streak-rest :
    (m : Moment) (user : ℕ) (r : Run)
    → ((update_streak m user r).1.game.streak
        ≡ (if r.game.last_to_answer == user then u32 (r.game.streak + 1) else 1))
      × ((update_streak m user r).1.game.question ≡ r.game.question)
      × ((update_streak m user r).1.game.round ≡ r.game.round)
      × ((update_streak m user r).1.game.gamestate ≡ r.game.gamestate)
unfolding update_streak
update_streak-rest m user r = ground arith

after_pay-rest :
    (m : Moment) (user : ℕ) (r : Run)
    → ((after_pay m user r).game.streak ≡ r.game.streak)
      × ((after_pay m user r).game.last_to_answer ≡ r.game.last_to_answer)
      × ((after_pay m user r).game.question.answer ≡ [])
      × ((after_pay m user r).game.round ≡ r.game.round)
      × ((after_pay m user r).game.gamestate ≡ answer_correct)
unfolding after_pay mark_answered emit
after_pay-rest m user r =
    let (streak, last, question, round, state) = award-rest m user r.game.score _ _ in
    (streak, last, ap (λ (q : Question). q.answer) question, round, state)

after_streak-rest :
    (m : Moment) (user : ℕ) (r : Run)
    → ((after_streak m user r).1.game.streak
        ≡ (if r.game.last_to_answer == user then u32 (r.game.streak + 1) else 1))
      × ((after_streak m user r).1.game.question.answer ≡ [])
      × ((after_streak m user r).1.game.round ≡ r.game.round)
      × ((after_streak m user r).1.game.gamestate ≡ answer_correct)
unfolding after_streak after_team
after_streak-rest m user r = ground (
  arith,
  update_streak-rest m user (after_team m user r).1,
  team_game m user (after_pay m user r),
  after_pay-rest m user r,
)

after_coin-rest :
    (m : Moment) (user : ℕ) (r : Run)
    → ((after_coin m user r).1.game.streak
        ≡ (if r.game.last_to_answer == user then u32 (r.game.streak + 1) else 1))
      × ((after_coin m user r).1.game.question.answer ≡ [])
      × ((after_coin m user r).1.game.round ≡ r.game.round)
      × ((after_coin m user r).1.game.gamestate ≡ answer_correct)
unfolding after_coin
after_coin-rest m user r =
    rw (coin_game m user (after_streak m user r).1) (after_streak-rest m user r)

-- With a correct answer the streak grows if the same user has answered before, and is 1 otherwise. The
-- user is the last to answer, the answer is cleared, the round stays, and the game is in the state
-- of an answer, or at its end if the dashboard has stopped it.
pub correct_answer-streak :
    (m : Moment) (user : ℕ) (r : Run)
    → ((correct_answer m user r).game.streak
        ≡ (if r.game.last_to_answer == user then u32 (r.game.streak + 1) else 1))
      × ((correct_answer m user r).game.last_to_answer ≡ user)
      × ((correct_answer m user r).game.question.answer ≡ [])
      × ((correct_answer m user r).game.round ≡ r.game.round)
      × ((correct_answer m user r).game.gamestate ≡ (if m.stopped then ended else answer_correct))
unfolding correct_answer emit
correct_answer-streak m user r =
    let left = (after_coin m user r).1 in
    ground (
      arith,
      after_coin-rest m user r,
      stop-rest m r.game.question.id (
          emit (message (correct_keys m user r))
            (with_game (record left.game { last_to_answer = user }) left)),
    )
