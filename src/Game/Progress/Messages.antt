-- ===== src/Game/Progress/Messages.antt =====
-- No message takes the end of a game away.
use triviabot.Common.{
  ℕ, ◌≡◌, ◌≢◌, refl, sym, ap, ◌∙◌, true, false, not, ◌||◌, [], some, ltb, keep, sub32, arith,
  Bool-cases, Option-cases, inl, inr,
}
use triviabot.Text.{Text}
use triviabot.Wide.{removepunct, ◌>>=◌}
use triviabot.Wide.Utf8.{from_bytes, to_bytes}
use triviabot.Host.{Host}
use triviabot.Settings.{GuildSettings}
use triviabot.Game.State.{
  State, Run, Moment, Effect, cached_user, score_only, emit, with_game, is_ended, stop_game,
  log_question_index, log_or_stop, is_insane_round, add_score, set_score, add_insane_stats,
  record_activity,
}
use triviabot.Game.Board.{do_insane_board}
use triviabot.Game.Rounds.{insane_key}
use triviabot.Game.Verdict.{judge, accepted, read_message}
use triviabot.Game.Answers.{
  InMsg, is_open, holds_key, award, insane_found, insane_paid, clear_insane_stats, insane_answer,
  update_streak, add_to_team, drop_coin, mark_answered, after_pay, after_team, after_streak,
  after_coin, correct_answer, open_message, handle_message,
}
use triviabot.Game.Scoring.{correct_answer-streak}
use triviabot.Game.Counting.{final}
use triviabot.Game.Progress.{Placed, SameCore, Holds}

SamePlace : State → State → Type 0
SamePlace g h = SameCore g h × (h.question ≡ g.question)

award-SamePlace :
    (m : Moment) (user points : ℕ) (e : Effect) (r : Run)
    → SamePlace r.game (award m user points e r).game
unfolding SamePlace award add_score set_score emit
award-SamePlace m user points e r = ground arith

stats-SamePlace : (user : ℕ) (g : State) → SamePlace g (add_insane_stats user g)
unfolding SamePlace add_insane_stats
stats-SamePlace user g = ground arith

-- The place behind a message that names an answer is that behind the answer found.
insane_paid-Holds :
    (m : Moment) (user : ℕ) (a : Text) (r : Run)
    → Placed (insane_found a r).game
    → Holds (insane_found a r).game (insane_paid m user a r).game
      × ((insane_paid m user a r).game.terminating ≡ (insane_found a r).game.terminating)
unfolding insane_paid SamePlace emit
insane_paid-Holds m user a r placed =
    let r1 = emit (cached_user user) (insane_found a r) in
    let score = score_only user r.game.guild_id 1 in
    let r2 = award m user 1 score r1 in
    let ((t, s, e, n), q) = award-SamePlace m user 1 score r1 in
    let ((t2, s2, e2, n2), q2) = stats-SamePlace user r2.game in
    (rw (t2 ∙ t, s2 ∙ s, e2 ∙ e, n2 ∙ n, q2 ∙ q) (placed, omega arith), t2 ∙ t)

closed-Holds :
    (m : Moment) (r : Run)
    → r.game.terminating ≡ false
    → Placed r.game
    → Holds r.game (log_or_stop m 0 (clear_insane_stats (do_insane_board m r))).game
unfolding log_or_stop log_question_index stop_game is_ended clear_insane_stats do_insane_board emit
closed-Holds m r live placed = ground arith

found-Holds :
    (a : Text) (r : Run)
    → r.game.terminating ≡ false
    → Placed r.game
    → is_open r.game.gamestate ≡ true
    → Holds r.game (insane_found a r).game × ((insane_found a r).game.terminating ≡ false)
unfolding insane_found is_open emit
found-Holds a r live placed taken = ground arith

insane_answer-Holds :
    (m : Moment) (user : ℕ) (a : Text) (r : Run)
    → r.game.terminating ≡ false
    → Placed r.game
    → is_open r.game.gamestate ≡ true
    → Holds r.game (insane_answer m user a r).game
unfolding insane_answer
insane_answer-Holds m user a r live placed taken =
    let ((p1, l1), live1) = found-Holds a r live placed taken in
    let ((p2, l2), live2) = insane_paid-Holds m user a r p1 in
    let (p3, l3) = closed-Holds m (insane_paid m user a r) (live2 ∙ live1) p2 in
    elim (Bool-cases (ltb (sub32 r.game.insane_left 1) 1)) [
      | inl e ↦ rw e (p3, omega arith)
      | inr e ↦ rw e (p2, omega arith)
    ]

-- A correct answer of a normal round moves neither the end nor the round.
unfoldable pub Fixed : State → State → Type 0
Fixed g h = (h.terminating ≡ g.terminating) × (h.numquestions ≡ g.numquestions)

pay-Fixed : (m : Moment) (user : ℕ) (r : Run) → Fixed r.game (after_pay m user r).game
unfolding Fixed after_pay mark_answered award add_score set_score emit
pay-Fixed m user r = ground arith

team-Fixed : (m : Moment) (user : ℕ) (r : Run) → Fixed r.game (add_to_team m user r).1.game
unfolding Fixed add_to_team
team-Fixed m user r = ground arith

streak-Fixed : (m : Moment) (user : ℕ) (r : Run) → Fixed r.game (update_streak m user r).1.game
unfolding Fixed update_streak
streak-Fixed m user r = ground arith

coin-Fixed : (m : Moment) (user : ℕ) (r : Run) → Fixed r.game (drop_coin m user r).1.game
unfolding Fixed drop_coin
coin-Fixed m user r = ground arith

after_coin-Fixed : (m : Moment) (user : ℕ) (r : Run) → Fixed r.game (after_coin m user r).1.game
unfolding Fixed after_coin after_streak after_team
after_coin-Fixed m user r =
    let r1 = after_pay m user r in
    let r2 = (add_to_team m user r1).1 in
    let r3 = (update_streak m user r2).1 in
    let (t1, n1) = pay-Fixed m user r in
    let (t2, n2) = team-Fixed m user r1 in
    let (t3, n3) = streak-Fixed m user r2 in
    let (t4, n4) = coin-Fixed m user r3 in (t4 ∙ t3 ∙ t2 ∙ t1, n4 ∙ n3 ∙ n2 ∙ n1)

pub correct_answer-Fixed :
    (m : Moment) (user : ℕ) (r : Run)
    → r.game.terminating ≡ false
    → Fixed r.game (correct_answer m user r).game
unfolding Fixed correct_answer log_or_stop log_question_index stop_game is_ended emit
correct_answer-Fixed m user r live = ground (arith, after_coin-Fixed m user r)

correct_answer-Holds :
    (m : Moment) (user : ℕ) (r : Run)
    → r.game.terminating ≡ false
    → Placed r.game
    → is_open r.game.gamestate ≡ true
    → r.game.question.answer ≢ []
    → Holds r.game (correct_answer m user r).game
unfolding is_open Fixed
correct_answer-Holds m user r live placed taken ne =
    ground (arith, correct_answer-streak m user r, correct_answer-Fixed m user r live)

nil_kept : removepunct [] ≡ some []
unfolding removepunct from_bytes to_bytes keep
nil_kept = refl

accepted-nil : (host : Host) (language t : Text) → accepted host language [] t ≡ some false
unfolding accepted
accepted-nil host language t = refl

-- An empty answer is never given.
judge-nil : (host : Host) (language msg : Text) → judge host language [] msg ≢ some true
unfolding judge
judge-nil host language msg = rw nil_kept (elim (Option-cases (read_message host language msg)) [
  | inl e ↦ rw (e, ◌>>=◌) λ h. cc
  | inr (t, e) ↦ rw (e, ◌>>=◌, accepted-nil host language t) λ h. cc
])

open_message-Holds :
    (host : Host) (m : Moment) (s : GuildSettings) (msg : InMsg) (r : Run)
    → r.game.terminating ≡ false
    → Placed r.game
    → is_open r.game.gamestate ≡ true
    → Holds r.game (final (open_message host m s msg r)).game
unfolding open_message final
open_message-Holds host m s msg r live placed taken =
    let same : Holds r.game r.game = (placed, omega arith) in
    elim (Bool-cases (is_insane_round s r.game)) [
      | inl e ↦ rw e (elim (Option-cases (insane_key host s msg.msg)) [
        | inl k ↦ rw (k, open_message) same
        | inr (a, k) ↦
            rw (k, open_message)
              (elim (Bool-cases (holds_key a r.game.insane)) [
                | inl h ↦ rw h (insane_answer-Holds m msg.author_id a r live placed taken)
                | inr h ↦ rw h same
              ])
      ])
      | inr e ↦ rw e (elim (Option-cases (judge host s.language r.game.question.answer msg.msg)) [
        | inl k ↦ rw (k, open_message) same
        | inr (true, k) ↦
            rw (k, open_message)
              (correct_answer-Holds m msg.author_id r live placed taken (λ nil.
                judge-nil host s.language msg.msg
                  (ap (λ a. judge host s.language a msg.msg) (sym nil) ∙ k)))
        | inr (false, k) ↦ rw (k, open_message) same
      ])
    ]

-- Whatever a message is, it keeps a game that is in its range there, and leaves it no more events than it had.
pub handle_message-Holds :
    (host : Host) (m : Moment) (s : GuildSettings) (msg : InMsg) (r : Run)
    → Placed r.game
    → Holds r.game (final (handle_message host m s msg r)).game
unfolding handle_message record_activity final
handle_message-Holds host m s msg r placed =
    let same : Holds r.game r.game = (placed, omega arith) in
    let noted = with_game (record_activity m.now msg.author_id r.game) r in
    elim (Bool-cases (r.game.terminating || not r.game.has_creator)) [
      | inl e ↦ rw e same
      | inr e ↦ rw e (elim (Bool-cases (m.banned msg.author_id)) [
        | inl b ↦ rw b same
        | inr b ↦ rw b (elim (Bool-cases (is_open r.game.gamestate)) [
          | inl o ↦
              rw (o, handle_message) (open_message-Holds host m s msg noted (ground arith) placed o)
          | inr o ↦ rw (o, handle_message) same
        ])
      ])
    ]
