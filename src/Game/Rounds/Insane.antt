-- ===== src/Game/Rounds/Insane.antt =====
-- do_insane_round of modules/trivia/state.cpp, and how a call goes on or throws.
use triviabot.Common.{
  ℕ, zero, suc, ◌+◌, Bool, true, false, ◌||◌, List, [], ◌∷◌, ◌++◌, Option, none, some, leb,
  if◌then◌else◌, text_eq, u32, length,
}
use triviabot.Text.{Text, ascii, trim}
use triviabot.Wide.{◌>>=◌, utf8lower, removepunct}
use triviabot.Host.{Host}
use triviabot.Settings.{GuildSettings}
use triviabot.Game.State.{
  first_hint, ended, Run, Moment, Outcome, returned, threw, fault, message, emit, with_game,
  stop_game, log_question_index,
}

-- What follows a call, if the call returns.
abbrev pub and_then : Outcome → (Run → Outcome) → Outcome
and_then (returned r) k = k r
and_then (threw r) k = threw r
and_then (fault r) k = fault r

-- Where a conversion throws, the call throws in the state that it has reached.
abbrev pub or_throw {ℓ} : {A : Type ℓ} → Run → Option A → (A → Outcome) → Outcome
or_throw r none k = threw r
or_throw r (some a) k = k a

unfoldable pub end_round : Run → Run
end_round r = with_game (record r.game { gamestate = ended; score = 0 }) r

-- The loop over the tries of do_insane_round: the id and the answers of the last one, and `tries`.
unfoldable pub insane_tries : Moment → (left tries : ℕ) → ℕ × List Text → ℕ × List Text × ℕ
insane_tries m zero tries (id, answers) = (id, answers, tries)
insane_tries m (suc left) tries _ =
    let (id, answers) = m.insane_try tries in
    let again = insane_tries m left (tries + 1) (id, answers) in
    if leb 2 (length answers) then (id, answers, 0) else again

unfoldable pub contains : Text → List Text → Bool
contains a [] = false
contains a (b ∷ m) = text_eq b a || contains a m

-- The key of an answer in the map `insane`; the same of a message.
unfoldable pub insane_key : Host → GuildSettings → Text → Option Text
insane_key host s n = do
  p ← removepunct n
  utf8lower host.towlower p (text_eq s.language (ascii "es"))

unfoldable pub add_key : Text → List Text → List Text
unfolding contains
add_key a keys = if contains a keys then keys else keys ++ a ∷ []

-- `insane[a] = true`, for each answer behind the question; false if a conversion throws, with the
-- keys so far.
unfoldable pub insane_map : Host → GuildSettings → List Text → List Text → List Text × Bool
unfolding add_key
insane_map host s [] keys = (keys, true)
insane_map host s (n ∷ ns) keys = elim (insane_key host s n) [
  | none ↦ (keys, false)
  | some a ↦ insane_map host s ns (add_key a keys)
]

-- The rest of do_insane_round, with the map filled or half filled.
unfoldable pub insane_filled : List Text × Bool → Run → Outcome
unfolding emit
insane_filled (keys, false) r = threw (with_game (record r.game { insane = keys }) r)
insane_filled (keys, true) r = returned (
    emit (message ("QUESTION_COUNTER" ∷ "INSANE_ROUND" ∷ "INSANE_ANS_COUNT" ∷ "QUESTION" ∷ [])) (
      with_game
        (record r.game {
          insane = keys;
          insane_left = u32 (length keys);
          insane_num = u32 (length keys);
          gamestate = first_hint;
        })
        r))

-- The first answer is the question.
unfoldable pub insane_start : Host → GuildSettings → List Text → Run → Outcome
unfolding insane_map insane_filled
insane_start host s [] r = insane_filled ([], true) r
insane_start host s (q ∷ answers) r =
    insane_filled (insane_map host s answers [])
      (with_game (record r.game { question = record r.game.question { question = trim q } }) r)

unfoldable pub do_insane_round : Host → Moment → GuildSettings → Run → Outcome
unfolding insane_tries insane_start end_round log_question_index stop_game
do_insane_round host m s r =
    let g = r.game in
    let (id, answers, tries) = insane_tries m 5 0 (g.question.id, []) in
    let r1 = with_game (record g { question = record g.question { id = id } }) r in
    let r2 = log_question_index m id r1 in
    if leb g.numquestions g.round
    then returned (end_round r)
    else if m.stopped || leb 5 tries
    then returned (stop_game r2)
    else insane_start host s answers r2
