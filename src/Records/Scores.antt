-- ===== src/Records/Scores.antt =====
-- update_score and update_score_only of modules/trivia/webrequest.cpp, on the tables that they write.
pub mod Paid
use triviabot.Common.{
  ℕ, ◌+◌, ◌≡◌, refl, Bool, true, false, ◌&&◌, not, List, [], ◌∷◌, Option, none, some, ◌==◌,
  if◌then◌else◌, lookup, insert, arith,
}

-- A table with a key of two columns.
module _ {ℓ} {V : Type ℓ} where
  unfoldable pub row_at : (a b : ℕ) → List (ℕ × ℕ × V) → Option V
  row_at a b [] = none
  row_at a b ((x, y, v) ∷ rows) = if x == a && y == b then some v else row_at a b rows

  -- "INSERT … ON DUPLICATE KEY UPDATE …": `written` is the row that is written, given that which is
  -- there.
  unfoldable pub upsert : (a b : ℕ) → (Option V → V) → List (ℕ × ℕ × V) → List (ℕ × ℕ × V)
  upsert a b written [] = (a, b, written none) ∷ []
  upsert a b written ((x, y, v) ∷ rows) =
      let kept = (x, y, v) ∷ upsert a b written rows in
      if x == a && y == b then (x, y, written (some v)) ∷ rows else kept

  pub row_at-upsert :
      (a b c d : ℕ) (written : Option V → V) (rows : List (ℕ × ℕ × V))
      → row_at c d (upsert a b written rows)
        ≡ (if a == c && b == d then some (written (row_at c d rows)) else row_at c d rows)
  unfolding row_at upsert
  row_at-upsert a b c d written [] = ground arith
  row_at-upsert a b c d written ((x, y, v) ∷ rows) =
      ground (arith, row_at-upsert a b c d written rows)

-- A row of `scores` and of `global_scores`.
pub record Score : Type 0 where
  pub score : ℕ
  pub dayscore : ℕ
  pub weekscore : ℕ
  pub monthscore : ℕ

-- The tables `scores` by user and guild, `global_scores` by user, `scores_lastgame` by guild and user,
-- `insane_round_statistics` by guild and user (its primary key), with the channel and the score, and of
-- `stats` the columns `lastcorrect` and `record_time` by question.
pub record Tables : Type 0 where
  pub scores : List (ℕ × ℕ × Score)
  pub global_scores : List (ℕ × Score)
  pub scores_lastgame : List (ℕ × ℕ × ℕ)
  pub insane_round_statistics : List (ℕ × ℕ × (ℕ × ℕ))
  pub stats : List (ℕ × ℕ × ℕ)

unfoldable pub raised : (score : ℕ) → Option Score → Score
raised score none = record {
  score = score;
  dayscore = score;
  weekscore = score;
  monthscore = score;
}
raised score (some row) = record {
  score = row.score + score;
  dayscore = row.dayscore + score;
  weekscore = row.weekscore + score;
  monthscore = row.monthscore + score;
}

unfoldable pub more : (score : ℕ) → Option ℕ → ℕ
more score none = score
more score (some n) = n + score

unfoldable pub raise_global : (snowflake_id score : ℕ) → List (ℕ × Score) → List (ℕ × Score)
raise_global snowflake_id score rows =
    insert snowflake_id (raised score (lookup snowflake_id rows)) rows

-- A row of the statistics keeps the channel that it was made for.
unfoldable pub more_in_channel : (channel_id score : ℕ) → Option (ℕ × ℕ) → ℕ × ℕ
more_in_channel channel_id score none = (channel_id, score)
more_in_channel channel_id score (some (channel, n)) = (channel, n + score)

unfoldable pub update_score_only : (snowflake_id guild_id score channel_id : ℕ) → Tables → Tables
update_score_only snowflake_id guild_id score channel_id t = record t {
  scores = upsert snowflake_id guild_id (raised score) t.scores;
  global_scores = raise_global snowflake_id score t.global_scores;
  scores_lastgame = upsert guild_id snowflake_id (more score) t.scores_lastgame;
  insane_round_statistics =
      upsert guild_id snowflake_id (more_in_channel channel_id score) t.insane_round_statistics;
}

-- "UPDATE stats SET lastcorrect = …, record_time = … WHERE id = …".
unfoldable pub set_record : (id snowflake_id recordtime : ℕ) → List (ℕ × ℕ × ℕ) → List (ℕ × ℕ × ℕ)
set_record id snowflake_id recordtime [] = []
set_record id snowflake_id recordtime ((x, last, time) ∷ rows) =
    let rest = set_record id snowflake_id recordtime rows in
    if x == id then (x, snowflake_id, recordtime) ∷ rest else (x, last, time) ∷ rest

unfoldable pub update_score :
    (snowflake_id guild_id recordtime id score : ℕ) → (local_only : Bool) → Tables → Tables
update_score snowflake_id guild_id recordtime id score local_only t = record t {
  stats = set_record id snowflake_id recordtime t.stats;
  scores = upsert snowflake_id guild_id (raised score) t.scores;
  global_scores =
      if local_only then t.global_scores else raise_global snowflake_id score t.global_scores;
  scores_lastgame = upsert guild_id snowflake_id (more score) t.scores_lastgame;
}
