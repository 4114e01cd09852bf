-- ===== src/Records/Scores/Paid.antt =====
-- What a score that is written adds up to.
use triviabot.Common.{
  ℕ, ◌+◌, ◌≡◌, refl, Bool, true, false, ◌&&◌, List, Option, none, some, ◌==◌, if◌then◌else◌, lookup,
  lookup-insert, inl, inr, Bool-cases, arith,
}
use triviabot.Records.Scores.{
  row_at, upsert, row_at-upsert, Score, Tables, raised, more, more_in_channel, raise_global,
  update_score_only, update_score,
}

-- The total score, and that of the day, the week and the month, of a row; 0 where there is none.
abbrev pub totals : Option Score → ℕ × ℕ × ℕ × ℕ
totals none = (0, 0, 0, 0)
totals (some row) = (row.score, row.dayscore, row.weekscore, row.monthscore)

abbrev pub plus : ℕ → ℕ × ℕ × ℕ × ℕ → ℕ × ℕ × ℕ × ℕ
plus n (a, b, c, d) = (a + n, b + n, c + n, d + n)

abbrev pub points : Option ℕ → ℕ
points none = 0
points (some n) = n

-- The score of a row of the statistics of an insane round, and its channel, or `channel` where there is
-- none.
abbrev pub round_points : Option (ℕ × ℕ) → ℕ
round_points none = 0
round_points (some (channel, n)) = n

abbrev pub channel_of : (channel : ℕ) → Option (ℕ × ℕ) → ℕ
channel_of channel none = channel
channel_of channel (some (c, n)) = c

totals-raised : (n : ℕ) (o : Option Score) → totals (some (raised n o)) ≡ plus n (totals o)
unfolding raised
totals-raised n none = ground arith
totals-raised n (some row) = refl

points-more : (n : ℕ) (o : Option ℕ) → more n o ≡ points o + n
unfolding more
points-more n none = omega arith
points-more n (some m) = refl

-- What is paid to a user on a guild: the rows of everybody, by whether they are that user's.
abbrev pub Paid : (user guild paid global : ℕ) → Tables → Tables → Type 0
Paid user guild paid global t t' =
    (v h : ℕ)
    → (totals (row_at v h t'.scores)
        ≡ plus (if user == v && guild == h then paid else 0) (totals (row_at v h t.scores)))
      × (totals (lookup v t'.global_scores)
          ≡ plus (if user == v then global else 0) (totals (lookup v t.global_scores)))
      × (points (row_at h v t'.scores_lastgame)
          ≡ points (row_at h v t.scores_lastgame) + (if user == v && guild == h then paid else 0))

scores-Paid :
    (u g n v h : ℕ) (rows : List (ℕ × ℕ × Score))
    → totals (row_at v h (upsert u g (raised n) rows))
      ≡ plus (if u == v && g == h then n else 0) (totals (row_at v h rows))
scores-Paid u g n v h rows = elim (Bool-cases (u == v && g == h)) [
  | inl e ↦ rw (row_at-upsert u g v h (raised n) rows, e) (totals-raised n (row_at v h rows))
  | inr e ↦ rw (row_at-upsert u g v h (raised n) rows, e) (ground arith)
]

global-Paid :
    (u n v : ℕ) (rows : List (ℕ × Score))
    → totals (lookup v (raise_global u n rows))
      ≡ plus (if u == v then n else 0) (totals (lookup v rows))
unfolding raise_global
global-Paid u n v rows = elim (Bool-cases (u == v)) [
  | inl e ↦
      ground
        (arith, lookup-insert u v (raised n (lookup u rows)) rows, totals-raised n (lookup u rows))
  | inr e ↦ ground (arith, lookup-insert u v (raised n (lookup u rows)) rows)
]

points-Paid :
    (a b n c d : ℕ) (rows : List (ℕ × ℕ × ℕ))
    → points (row_at c d (upsert a b (more n) rows))
      ≡ points (row_at c d rows) + (if a == c && b == d then n else 0)
points-Paid a b n c d rows = elim (Bool-cases (a == c && b == d)) [
  | inl e ↦ rw (row_at-upsert a b c d (more n) rows, e) (points-more n (row_at c d rows))
  | inr e ↦ rw (row_at-upsert a b c d (more n) rows, e) (omega arith)
]

lastgame-Paid :
    (u g n v h : ℕ) (rows : List (ℕ × ℕ × ℕ))
    → points (row_at h v (upsert g u (more n) rows))
      ≡ points (row_at h v rows) + (if u == v && g == h then n else 0)
lastgame-Paid u g n v h rows = ground (arith, points-Paid g u n h v rows)

round_more :
    (channel n : ℕ) (o : Option (ℕ × ℕ))
    → (round_points (some (more_in_channel channel n o)) ≡ round_points o + n)
      × (channel_of channel (some (more_in_channel channel n o)) ≡ channel_of channel o)
unfolding more_in_channel
round_more channel n none = (omega arith, refl)
round_more channel n (some (c, k)) = (refl, refl)

round-Paid :
    (u g n channel v h : ℕ) (rows : List (ℕ × ℕ × (ℕ × ℕ)))
    → let row' = row_at h v (upsert g u (more_in_channel channel n) rows) in
      (round_points row' ≡ round_points (row_at h v rows) + (if u == v && g == h then n else 0))
      × (channel_of channel row' ≡ channel_of channel (row_at h v rows))
round-Paid u g n channel v h rows = elim (Bool-cases (g == h && u == v)) [
  | inl e ↦
      let same : (u == v && g == h) ≡ true = ground (arith, e) in
      rw (row_at-upsert g u h v (more_in_channel channel n) rows, e, same)
        (round_more channel n (row_at h v rows))
  | inr e ↦
      let other : (u == v && g == h) ≡ false = ground (arith, e) in
      rw (row_at-upsert g u h v (more_in_channel channel n) rows, e, other) (omega arith, refl)
]

global_unless :
    (local_only : Bool) (u n v : ℕ) (rows : List (ℕ × Score))
    → totals (lookup v (if local_only then rows else raise_global u n rows))
      ≡ plus (if u == v then (if local_only then 0 else n) else 0) (totals (lookup v rows))
global_unless true u n v rows = ground arith
global_unless false u n v rows = global-Paid u n v rows

-- A score outside of an insane round is added to all four totals of the player on the guild, to their
-- score in the game of the guild, and, unless it counts only locally, to all four of their totals
-- everywhere; in an insane round likewise, always everywhere, and to their score in the round of the
-- guild, where a row that is there keeps its channel, whatever the channel of the answer. Nobody else's
-- rows change, and none of the player on another guild.
pub update_score-Paid :
    (u g time id n channel : ℕ) (local_only : Bool) (t : Tables)
    → Paid u g n (if local_only then 0 else n) t (update_score u g time id n local_only t)
      × Paid u g n n t (update_score_only u g n channel t)
      × ((v h : ℕ)
          → let row = row_at h v t.insane_round_statistics in
            let row' = row_at h v (update_score_only u g n channel t).insane_round_statistics in
            (round_points row' ≡ round_points row + (if u == v && g == h then n else 0))
            × (channel_of channel row' ≡ channel_of channel row))
unfolding update_score update_score_only
update_score-Paid u g time id n channel local_only t = (
  λ v h. (
    scores-Paid u g n v h t.scores,
    global_unless local_only u n v t.global_scores,
    lastgame-Paid u g n v h t.scores_lastgame,
  ),
  λ v h. (
    scores-Paid u g n v h t.scores,
    global-Paid u n v t.global_scores,
    lastgame-Paid u g n v h t.scores_lastgame,
  ),
  λ v h. round-Paid u g n channel v h t.insane_round_statistics,
)
