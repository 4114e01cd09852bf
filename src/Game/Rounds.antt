-- ===== src/Game/Rounds.antt =====
-- The events of a round in modules/trivia/state.cpp: do_insane_round, do_normal_round, the hints,
-- do_time_up, do_answer_correct and do_end_game.
mod Insane
unfoldable pub use Insane.*
use triviabot.Common.{
  ℕ, zero, suc, ◌+◌, ◌/◌, String, Bool, true, false, not, ◌&&◌, ◌||◌, List, [], ◌∷◌, ◌++◌, Option,
  none, some, ltb, leb, ◌==◌, if◌then◌else◌, is_empty, text_eq, u32, sub32, length, get_elem?,
}
use triviabot.Text.{Text, ascii, trim}
use triviabot.Wide.{◌>>=◌, utf8lower, removepunct, homoglyph}
use triviabot.Host.{Host}
use triviabot.Numbers.{NumStrs, is_number, tidy_num}
use triviabot.Numbers.Convert.{conv_num}
use triviabot.Settings.{GuildSettings}
use triviabot.Game.State.{
  GameState, ask_question, first_hint, second_hint, time_up, ended, Question, State, Run, Moment,
  Outcome, returned, threw, fault, message, asked, game_end, emit, with_game, triv_interval,
  is_insane_round, stop_game, log_or_stop, log_question_index,
}
use triviabot.Game.Board.{do_insane_board}
use triviabot.Game.Hints.{first_hint_text, second_hint_text}

-- The answer as it is compared: trimmed, and a number in words as digits.
unfoldable pub prepare_answer : Host → Text → Question → Question
unfolding trim
prepare_answer host language q =
    let a = trim q.answer in
    let t = conv_num host language a in
    let b = if is_number t && not (text_eq t (ascii "0")) then t else a in
    record q { answer = tidy_num host b }

-- A hint of the question's own is kept.
unfoldable pub own_or : Text → Option Text → Option Text
own_or own made = if is_empty own then made else some own

unfoldable pub say : Bool → List String → Run → Run
unfolding emit
say silent keys r = if silent then r else emit (message keys) r

-- The part of do_normal_round for a question with a text.
unfoldable pub ask_normal : Host → NumStrs → Moment → Bool → GuildSettings → Run → Outcome
unfolding own_or say
ask_normal host numstrs m silent s r =
    let g = r.game in
    let q = prepare_answer host s.language g.question in
    let g1 = record g {
      asktime = m.time_f / 1000000;
      original_answer = trim g.question.answer;
      question = q;
    } in
    or_throw (with_game g1 r)
      (own_or q.customhint1 (first_hint_text host s.language numstrs m.rand_hint1 q))
      λ h1.
        let q1 = record q { customhint1 = h1 } in
        let g2 = record g1 { question = q1 } in
        or_throw (with_game g2 r)
          (own_or q.customhint2 (second_hint_text host s.language m.rand_hint2 q1))
          λ h2.
            let r3 = with_game (record g2 { question = record q1 { customhint2 = h2 } }) r in
            or_throw r3 (if silent then some [] else homoglyph m.picks q.catname)
              λ _. returned (say silent ("QUESTION_COUNTER" ∷ "CATEGORY" ∷ "QUESTION" ∷ []) r3)

-- The end of do_normal_round: the points, and the next state.
unfoldable pub normal_asked : Moment → Run → Outcome
normal_asked m r =
    let g = r.game in
    returned (
      log_or_stop m g.question.id (
        with_game
          (record g {
            score = if g.hintless then 6 else if g.interval == triv_interval then 4 else 8;
            gamestate = if g.hintless then time_up else first_hint;
          })
          r))

-- do_normal_round, once `question_cache[round - 1]` is read.
unfoldable pub normal_round_of :
    Host → NumStrs → Moment → Bool → GuildSettings → Run → Question → Outcome
unfolding emit
normal_round_of host numstrs m silent s r q =
    let r1 = emit (asked q.id) (with_game (record r.game { question = q }) r) in
    if q.id == 0
    then returned (
        say silent
          ("Q_FETCH_ERROR" ∷ "Q_SPOOPY" ∷ "Q_CONTACT_DEVS" ∷ "ROUND_STOPPING" ∷ "ERROR_BROKE_IT"
            ∷ [])
          (with_game
            (record r.game { question = record q { answer = [] }; gamestate = ended; score = 0 })
            r1))
    else if is_empty q.question
    then normal_asked m (say silent ("BRAIN_BROKE_IT" ∷ "FETCH_Q" ∷ []) r1)
    else and_then (ask_normal host numstrs m silent s r1) (normal_asked m)

-- `shuffle_list[round - 1]` is read for the log before `question_cache[round - 1]`.
unfoldable pub do_normal_round :
    Host → NumStrs → Moment → (silent : Bool) → GuildSettings → Run → Outcome
unfolding end_round
do_normal_round host numstrs m silent s r =
    let g = r.game in
    let index = sub32 g.round 1 in
    if leb g.numquestions g.round
    then returned (end_round r)
    else elim (get_elem? g.shuffle_list index) [
      | none ↦ fault r
      | some _ ↦ elim (get_elem? g.question_cache index) [
        | none ↦ fault r
        | some q ↦ normal_round_of host numstrs m silent s r q
      ]
    ]

-- The end of both hint events.
unfoldable pub hint_shown : Moment → GameState → (points : ℕ) → Run → Outcome
unfolding log_or_stop
hint_shown m next points r = returned (
    log_or_stop m r.game.question.id
      (with_game (record r.game { gamestate = next; score = points }) r))

unfoldable pub do_first_hint : Moment → GuildSettings → Run → Outcome
unfolding hint_shown emit
do_first_hint m s r =
    let g = r.game in
    let points : ℕ = if g.interval == triv_interval then 2 else 4 in
    if is_insane_round s g
    then hint_shown m second_hint points (emit (message ("SECS_LEFT" ∷ [])) r)
    else or_throw r (homoglyph m.picks g.question.customhint1)
        λ _. hint_shown m second_hint points (emit (message ("FIRST_HINT" ∷ [])) r)

unfoldable pub do_second_hint : Moment → GuildSettings → Run → Outcome
unfolding hint_shown emit
do_second_hint m s r =
    let g = r.game in
    let points : ℕ = if g.interval == triv_interval then 1 else 2 in
    if is_insane_round s g
    then hint_shown m time_up points (emit (message ("SECS_LEFT" ∷ [])) r)
    else or_throw r (homoglyph m.picks g.question.customhint2)
        λ _. hint_shown m time_up points (emit (message ("SECOND_HINT" ∷ [])) r)

-- What do_time_up says first; after an insane round the score table comes with it.
unfoldable pub time_up_told : Moment → GuildSettings → Run → Option (List String × Run)
time_up_told m s r =
    let g = r.game in
    let told = do_insane_board m r in
    if is_insane_round s g
    then some
        ("INSANE_FOUND" ∷ "TIME_UP" ∷ [], with_game (record g { insane_round_stats = [] }) told)
    else if is_empty g.question.answer
    then some ([], r)
    else (do _ ← homoglyph m.picks g.question.answer; some ("ANS_WAS" ∷ "OUT_OF_TIME" ∷ [], r))

-- The answer is cleared, and a streak is lost if the round is no insane one.
unfoldable pub unanswered : GuildSettings → State → State
unanswered s g =
    if is_empty g.question.answer
    then g
    else (let cleared = record g { question = record g.question { answer = [] } } in
        if is_insane_round s g then cleared else record cleared { last_to_answer = 0; streak = 1 })

unfoldable pub time_up_keys : GuildSettings → State → List String → List String
time_up_keys s g keys =
    let smashed =
      not (is_empty g.question.answer)
      && not (is_insane_round s g)
      && ltb 1 g.streak
      && not (g.last_to_answer == 0) in
    keys
    ++ (if smashed then "STREAK_SMASHED" ∷ [] else [])
    ++ (if leb g.round (sub32 g.numquestions 2) then "COMING_UP" ∷ [] else [])

unfoldable pub do_time_up : Moment → GuildSettings → Run → Outcome
unfolding emit
do_time_up m s r = or_throw r (time_up_told m s r) λ (keys, r1).
    let g = unanswered s r1.game in
    returned (
      log_or_stop m g.question.id (
        emit (message (time_up_keys s r.game keys)) (
          with_game
            (record g {
              gamestate = if ltb g.numquestions g.round then ended else ask_question;
              round = u32 (g.round + 1);
            })
            r1)))

unfoldable pub do_answer_correct : Moment → Run → Outcome
unfolding log_or_stop
do_answer_correct m r =
    let g = r.game in
    returned (
      log_or_stop m g.question.id (
        with_game
          (record g {
            round = u32 (g.round + 1);
            question = record g.question { answer = [] };
            gamestate = ask_question;
          })
          r))

unfoldable pub do_end_game : Run → Outcome
unfolding emit
do_end_game r =
    let g = r.game in
    returned (
      emit (message ("LEADERBOARD" ∷ "TOP_TEN" ∷ "MORE_INFO" ∷ "LEADER_LINK" ∷ [])) (
        emit (message ("END1" ∷ "END_TITLE" ∷ [])) (
          emit (game_end g.guild_id g.channel_id) (with_game (record g { terminating = true }) r))))
