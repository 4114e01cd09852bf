-- ===== src/Game/Board.antt =====
-- do_insane_board of modules/trivia/state.cpp: the score table of an insane round.
use triviabot.Common.{ℕ, ◌+◌, Bool, List, [], ◌∷◌, leb, if◌then◌else◌, is_empty}
use mathlib.Core.List.{reverse}
use triviabot.Game.State.{Run, Moment, board, insane_statistics_deleted, emit}

-- `ordered.insert`: a `std::multimap` puts a new entry behind those with the same key.
unfoldable pub ordered_insert : ℕ × ℕ → List (ℕ × ℕ) → List (ℕ × ℕ)
ordered_insert (n, u) [] = (n, u) ∷ []
ordered_insert (n, u) ((k, v) ∷ m) =
    let later = ordered_insert (n, u) m in if leb k n then (k, v) ∷ later else (n, u) ∷ (k, v) ∷ m

-- The first loop, over the scores by user; the keys are the scores.
unfoldable pub ordered : List (ℕ × ℕ) → List (ℕ × ℕ) → List (ℕ × ℕ)
unfolding ordered_insert
ordered [] m = m
ordered ((user, score) ∷ stats) m = ordered stats (ordered_insert (score, user) m)

-- The second loop: place, user and score of the users that the database knows.
unfoldable pub places : (ℕ → Bool) → ℕ → List (ℕ × ℕ) → List (ℕ × ℕ × ℕ)
places known i [] = []
places known i ((score, user) ∷ m) =
    let rest = places known (i + 1) m in if known user then (i, user, score) ∷ rest else rest

unfoldable pub do_insane_board : Moment → Run → Run
unfolding ordered places emit
do_insane_board m r =
    let rows = places m.known 1 (reverse (ordered r.game.insane_round_stats [])) in
    emit (insane_statistics_deleted r.game.channel_id)
      (if is_empty rows then r else emit (board rows) r)
