-- ===== src/Game/Answers.antt =====
-- state_t::queue_message and handle_message of modules/trivia/state.cpp.
use triviabot.Common.{
  ℕ, ◌+◌, ◌-◌, ◌*◌, String, Bool, true, false, not, ◌&&◌, ◌||◌, List, [], ◌∷◌, ◌++◌, none, some,
  ltb, leb, ◌==◌, if◌then◌else◌, is_empty, text_eq, u32, sub32,
}
use triviabot.Text.{Text}
use triviabot.Host.{Host}
use triviabot.Numbers.{random}
use triviabot.Settings.{GuildSettings}
use triviabot.Locks.{can_score_on_guild}
use triviabot.Game.State.{
  GameState, ask_question, first_hint, second_hint, time_up, answer_correct, ended, invalid, State,
  Run, Moment, Outcome, returned, threw, Effect, message, score_only, full_score, team_points,
  guild_streak, global_streak, cached_user, coins, emit, with_game, is_insane_round, log_or_stop,
  add_score, add_insane_stats, record_activity, should_drop_coin,
}
use triviabot.Game.Board.{do_insane_board}
use triviabot.Game.Rounds.{insane_key}
use triviabot.Game.Verdict.{judge}

-- in_msg, as far as a game reads it.
pub record InMsg : Type 0 where
  pub msg : Text
  pub author_id : ℕ

-- The states in which answers are taken.
unfoldable pub is_open : GameState → Bool
is_open ask_question = true
is_open first_hint = true
is_open second_hint = true
is_open time_up = true
is_open answer_correct = false
is_open ended = false
is_open (invalid n) = false

-- `insane.find(answered)`
unfoldable pub holds_key : Text → List Text → Bool
holds_key a [] = false
holds_key a (b ∷ m) = text_eq b a || holds_key a m

-- `insane.erase(i)`: the keys differ, so one goes.
unfoldable pub erase_key : Text → List Text → List Text
erase_key a [] = []
erase_key a (b ∷ m) = let rest = erase_key a m in if text_eq b a then m else b ∷ rest

-- `if (can_score_on_guild(...)) { ...; add_score(...); }`; `paid` is the write to the database.
unfoldable pub award : Moment → (user points : ℕ) → Effect → Run → Run
unfolding emit
award m user points paid r =
    let (may, locks) = can_score_on_guild user r.game.guild_id m.now r.locks in
    let r1 = record r { locks = locks } in
    if may then emit paid (with_game (add_score user points r1.game) r1) else r1

-- The answer is taken out of the map and counted. After the last one the round moves on.
unfoldable pub insane_found : Text → Run → Run
unfolding erase_key emit
insane_found answered r =
    let g = r.game in
    let left = sub32 g.insane_left 1 in
    let g1 = record g { insane = erase_key answered g.insane; insane_left = left } in
    if ltb left 1
    then emit (message ("LAST_ONE" ∷ [])) (
        with_game
          (if leb g.round (sub32 g.numquestions 1)
            then record g1 { round = u32 (g.round + 1); gamestate = answer_correct }
            else record g1 { gamestate = ended })
          r)
    else emit (message ("INSANE_CORRECT" ∷ [])) (with_game g1 r)

unfoldable pub clear_insane_stats : Run → Run
clear_insane_stats r = with_game (record r.game { insane_round_stats = [] }) r

-- The point of an answer, and the author's count in this round.
unfoldable pub insane_paid : Moment → (user : ℕ) → Text → Run → Run
insane_paid m user answered r =
    let r2 =
      award m user 1 (score_only user r.game.guild_id 1)
        (emit (cached_user user) (insane_found answered r)) in
    with_game (add_insane_stats user r2.game) r2

-- A message that names one of the answers of an insane round.
unfoldable pub insane_answer : Moment → (user : ℕ) → Text → Run → Run
insane_answer m user answered r =
    let done = ltb (sub32 r.game.insane_left 1) 1 in
    let r3 = insane_paid m user answered r in
    if done then log_or_stop m 0 (clear_insane_stats (do_insane_board m r3)) else r3

-- The messages and writes about a streak, where the same player answers again.
unfoldable pub same_streak : Moment → (user : ℕ) → Run → List String × Run
unfolding emit
same_streak m user r =
    let g = record r.game { streak = u32 (r.game.streak + 1) } in
    let r0 = with_game g r in
    let beaten = ltb m.guild_best.personalbest g.streak in
    let r1 = if beaten then emit (guild_streak user g.guild_id g.streak) r0 else r0 in
    let r2 =
      if (g.question.guild_id == 0) && ltb m.global_best.personalbest g.streak
      then emit (global_streak user g.streak) r1
      else r1 in
    let beatdown = ltb m.guild_best.bigstreak g.streak && not (m.guild_best.topstreaker == user) in
    (
      ("ON_A_STREAK" ∷ [])
          ++ (if beaten then "BEATEN_BEST" ∷ [] else "NOT_THERE_YET" ∷ [])
          ++ (if beatdown then "STREAK_BEATDOWN" ∷ [] else []),
      r2,
    )

unfoldable pub update_streak : Moment → (user : ℕ) → Run → List String × Run
unfolding same_streak
update_streak m user r =
    let g = r.game in
    if g.last_to_answer == user
    then same_streak m user r
    else if ltb 1 g.streak && not (g.last_to_answer == 0)
    then ("STREAK_ENDER" ∷ [], with_game (record g { streak = 1 }) r)
    else ([], with_game (record g { streak = 1 }) r)

unfoldable pub add_to_team : Moment → (user : ℕ) → Run → List String × Run
unfolding emit
add_to_team m user r =
    if not (is_empty m.team) && (r.game.question.guild_id == 0)
    then ("TEAM_SCORE" ∷ [], emit (team_points m.team r.game.score user) r)
    else ([], r)

unfoldable pub drop_coin : Moment → (user : ℕ) → Run → List String × Run
unfolding emit
drop_coin m user r =
    let coin =
      r.game.question.guild_id == 0 && should_drop_coin m.now (random m.rand_coin 1 100) r.game in
    if coin
    then ("COIN_DROP" ∷ [], emit (coins user (100 + random m.rand_amount 0 50)) r)
    else ([], r)

-- The steps of a correct answer in a normal round, each on what the one before leaves. First the
-- answer is cleared.
unfoldable pub mark_answered : (user : ℕ) → Run → Run
mark_answered user r = emit (cached_user user) (
    with_game
      (record r.game {
        question = record r.game.question { answer = [] };
        gamestate = answer_correct;
      })
      r)

unfoldable pub is_record : Moment → State → Bool
is_record m g = ltb (m.time_f - g.asktime * 1000000) g.question.recordtime

unfoldable pub submit_time : Moment → State → ℕ
unfolding is_record
submit_time m g = if is_record m g then m.time_f - g.asktime * 1000000 else g.question.recordtime

unfoldable pub after_pay : Moment → (user : ℕ) → Run → Run
after_pay m user r =
    let g = r.game in
    award m user g.score
      (full_score user g.guild_id (submit_time m g) g.question.id g.score
        (not (g.question.guild_id == 0)))
      (mark_answered user r)

unfoldable pub after_team : Moment → (user : ℕ) → Run → List String × Run
after_team m user r = add_to_team m user (after_pay m user r)

unfoldable pub after_streak : Moment → (user : ℕ) → Run → List String × Run
after_streak m user r = update_streak m user (after_team m user r).1

unfoldable pub after_coin : Moment → (user : ℕ) → Run → List String × Run
after_coin m user r = drop_coin m user (after_streak m user r).1

unfoldable pub correct_keys : Moment → (user : ℕ) → Run → List String
correct_keys m user r =
    let g = r.game in
    let coming = leb (u32 (g.round + 1)) (sub32 g.numquestions 2) in
    ("NORM_CORRECT" ∷ [])
    ++ (if is_record m g then "RECORD_TIME" ∷ [] else [])
    ++ ("SCORE_UPDATE" ∷ [])
    ++ (after_team m user r).0
    ++ (after_streak m user r).0
    ++ (after_coin m user r).0
    ++ (if coming then "COMING_UP" ∷ [] else [])

-- A message that answers the question of a normal round.
unfoldable pub correct_answer : Moment → (user : ℕ) → Run → Run
unfolding correct_keys
correct_answer m user r =
    let r5 = (after_coin m user r).1 in
    log_or_stop m r.game.question.id (
      emit (message (correct_keys m user r))
        (with_game (record r5.game { last_to_answer = user }) r5))

-- A round in which answers are taken, with the activity of the author noted.
unfoldable pub open_message : Host → Moment → GuildSettings → InMsg → Run → Outcome
open_message host m s msg r =
    if is_insane_round s r.game
    then elim (insane_key host s msg.msg) [
      | none ↦ threw r
      | some answered ↦
          returned (
            if holds_key answered r.game.insane
            then insane_answer m msg.author_id answered r
            else r)
    ]
    else elim (judge host s.language r.game.question.answer msg.msg) [
      | none ↦ threw r
      | some true ↦ returned (correct_answer m msg.author_id r)
      | some false ↦ returned r
    ]

unfoldable pub handle_message : Host → Moment → GuildSettings → InMsg → Run → Outcome
unfolding is_open
handle_message host m s msg r =
    if r.game.terminating || not r.game.has_creator
    then returned r
    else if m.banned msg.author_id
    then returned r
    else if is_open r.game.gamestate
    then open_message host m s msg (with_game (record_activity m.now msg.author_id r.game) r)
    else returned r

unfoldable pub queue_message : Host → Moment → GuildSettings → InMsg → Run → Outcome
unfolding handle_message
queue_message host m s msg r =
    if r.game.terminating then returned r else handle_message host m s msg r
