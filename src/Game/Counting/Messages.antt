-- ===== src/Game/Counting/Messages.antt =====
-- What a message does to the map of answers.
use triviabot.Common.{
  ℕ, ◌≡◌, ◌∙◌, true, false, not, ◌||◌, u32, sub32, arith, length, Bool-cases, Option-cases, inl,
  inr,
}
use triviabot.Text.{Text}
use triviabot.Host.{Host}
use triviabot.Settings.{GuildSettings}
use triviabot.Game.State.{
  State, Run, Moment, Effect, emit, with_game, is_ended, stop_game, log_question_index, log_or_stop,
  add_score, set_score, add_insane_stats, record_activity, score_only, cached_user,
}
use triviabot.Game.Board.{do_insane_board}
use triviabot.Game.Rounds.{insane_key}
use triviabot.Game.Answers.{
  InMsg, is_open, holds_key, erase_key, award, insane_found, insane_paid, clear_insane_stats,
  insane_answer, update_streak, add_to_team, drop_coin, mark_answered, after_pay, after_team,
  after_streak, after_coin, correct_answer, open_message, handle_message,
}
use triviabot.Game.State.{message}
use triviabot.Game.Answers.{correct_keys}
use triviabot.Game.Verdict.{judge}
use triviabot.Game.State.{is_insane_round}
use triviabot.Game.Counting.{
  Counted, SameMap, SameMap-Counted, final, erase_key-gone, erase_key-Distinct, erase_key-length,
}

pub log_or_stop-SameMap :
    (m : Moment) (qid : ℕ) (r : Run) → SameMap r.game (log_or_stop m qid r).game
unfolding log_or_stop log_question_index stop_game is_ended emit
log_or_stop-SameMap m qid r = ground arith

award-SameMap :
    (m : Moment) (user points : ℕ) (e : Effect) (r : Run)
    → SameMap r.game (award m user points e r).game
unfolding award add_score set_score emit
award-SameMap m user points e r = ground arith

stats-SameMap : (user : ℕ) (g : State) → SameMap g (add_insane_stats user g)
unfolding add_insane_stats
stats-SameMap user g = ground arith

found-Counted :
    (a : Text) (r : Run)
    → holds_key a r.game.insane ≡ true
    → Counted r.game
    → Counted (insane_found a r).game × (holds_key a (insane_found a r).game.insane ≡ false)
unfolding insane_found emit
found-Counted a r h (d, c) =
    let one = erase_key-length a r.game.insane h in
    let sub : sub32 r.game.insane_left 1 ≡ u32 (length (erase_key a r.game.insane)) = omega arith in
    ground (arith, erase_key-Distinct a r.game.insane d, erase_key-gone a r.game.insane d)

board-SameMap : (m : Moment) (r : Run) → SameMap r.game (do_insane_board m r).game
unfolding do_insane_board emit
board-SameMap m r = ground arith

paid-SameMap :
    (m : Moment) (user : ℕ) (a : Text) (r : Run)
    → SameMap (insane_found a r).game (insane_paid m user a r).game
unfolding insane_paid emit
paid-SameMap m user a r =
    let r1 = emit (cached_user user) (insane_found a r) in
    let score = score_only user r.game.guild_id 1 in
    let r2 = award m user 1 score r1 in
    let (e, l) = award-SameMap m user 1 score r1 in
    let (e2, l2) = stats-SameMap user r2.game in (e2 ∙ e, l2 ∙ l)

-- What follows the last answer of a round.
closed-SameMap :
    (m : Moment) (r : Run)
    → SameMap r.game (log_or_stop m 0 (clear_insane_stats (do_insane_board m r))).game
unfolding clear_insane_stats
closed-SameMap m r =
    let r1 = clear_insane_stats (do_insane_board m r) in
    let (e, l) = board-SameMap m r in let (e2, l2) = log_or_stop-SameMap m 0 r1 in (e2 ∙ e, l2 ∙ l)

insane_answer-SameMap :
    (m : Moment) (user : ℕ) (a : Text) (r : Run)
    → SameMap (insane_found a r).game (insane_answer m user a r).game
unfolding insane_answer
insane_answer-SameMap m user a r =
    ground (arith, paid-SameMap m user a r, closed-SameMap m (insane_paid m user a r))

-- When an answer in the map of an insane round is named, and the keys are distinct and the count is
-- the size of the map, then it is taken out of the map, and the count stays the size of the map.
insane_answer-Counted :
    (m : Moment) (user : ℕ) (a : Text) (r : Run)
    → holds_key a r.game.insane ≡ true
    → Counted r.game
    → Counted (insane_answer m user a r).game
      × (holds_key a (insane_answer m user a r).game.insane ≡ false)
insane_answer-Counted m user a r h c =
    let (e, l) = insane_answer-SameMap m user a r in
    let (found, gone) = found-Counted a r h c in rw (e, l) (found, gone)

pay-SameMap : (m : Moment) (user : ℕ) (r : Run) → SameMap r.game (after_pay m user r).game
unfolding after_pay mark_answered emit
pay-SameMap m user r = award-SameMap m user r.game.score _ _

team-SameMap : (m : Moment) (user : ℕ) (r : Run) → SameMap r.game (add_to_team m user r).1.game
unfolding add_to_team
team-SameMap m user r = ground arith

streak-SameMap : (m : Moment) (user : ℕ) (r : Run) → SameMap r.game (update_streak m user r).1.game
unfolding update_streak
streak-SameMap m user r = ground arith

coin-SameMap : (m : Moment) (user : ℕ) (r : Run) → SameMap r.game (drop_coin m user r).1.game
unfolding drop_coin
coin-SameMap m user r = ground arith

correct_answer-SameMap :
    (m : Moment) (user : ℕ) (r : Run) → SameMap r.game (correct_answer m user r).game
unfolding correct_answer after_coin after_streak after_team emit
correct_answer-SameMap m user r =
    let r1 = after_pay m user r in
    let r2 = (add_to_team m user r1).1 in
    let r3 = (update_streak m user r2).1 in
    let r4 = (drop_coin m user r3).1 in
    let (e1, l1) = pay-SameMap m user r in
    let (e2, l2) = team-SameMap m user r1 in
    let (e3, l3) = streak-SameMap m user r2 in
    let (e4, l4) = coin-SameMap m user r3 in
    let r5 =
      emit (message (correct_keys m user r))
        (with_game (record r4.game { last_to_answer = user }) r4) in
    let (e5, l5) = log_or_stop-SameMap m r.game.question.id r5 in
    (e5 ∙ e4 ∙ e3 ∙ e2 ∙ e1, l5 ∙ l4 ∙ l3 ∙ l2 ∙ l1)

open_message-Counted :
    (host : Host) (m : Moment) (s : GuildSettings) (msg : InMsg) (r : Run)
    → Counted r.game
    → Counted (final (open_message host m s msg r)).game
unfolding open_message final
open_message-Counted host m s msg r c = elim (Bool-cases (is_insane_round s r.game)) [
  | inl e ↦ rw e (elim (Option-cases (insane_key host s msg.msg)) [
    | inl k ↦ rw (k, open_message) c
    | inr (a, k) ↦
        rw (k, open_message)
          (elim (Bool-cases (holds_key a r.game.insane)) [
            | inl h ↦ rw h (insane_answer-Counted m msg.author_id a r h c).0
            | inr h ↦ rw h c
          ])
  ])
  | inr e ↦ rw e (elim (Option-cases (judge host s.language r.game.question.answer msg.msg)) [
    | inl k ↦ rw (k, open_message) c
    | inr (true, k) ↦
        rw (k, open_message)
          (SameMap-Counted r.game (correct_answer m msg.author_id r).game
            (correct_answer-SameMap m msg.author_id r) c)
    | inr (false, k) ↦ rw (k, open_message) c
  ])
]

-- If the count of the answers that are left is the size of the map of an insane round, and its keys
-- are distinct, then this stays so however a message is handled, and whether or not it throws.
pub handle_message-Counted :
    (host : Host) (m : Moment) (s : GuildSettings) (msg : InMsg) (r : Run)
    → Counted r.game
    → Counted (final (handle_message host m s msg r)).game
unfolding handle_message record_activity final
handle_message-Counted host m s msg r c =
    let noted = with_game (record_activity m.now msg.author_id r.game) r in
    let opened = open_message-Counted host m s msg noted c in
    elim (Bool-cases (r.game.terminating || not r.game.has_creator)) [
      | inl e ↦ rw e c
      | inr e ↦ rw e (elim (Bool-cases (m.banned msg.author_id)) [
        | inl b ↦ rw b c
        | inr b ↦ rw b (elim (Bool-cases (is_open r.game.gamestate)) [
          | inl o ↦ rw (o, handle_message) opened
          | inr o ↦ rw (o, handle_message) c
        ])
      ])
    ]
