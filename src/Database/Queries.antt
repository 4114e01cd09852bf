-- ===== src/Database/Queries.antt =====
-- The connections of the pool, and the parameters of a query.
use triviabot.Common.{ℕ, zero, suc, ◌+◌, ◌<◌, ◌≤◌, Bool, arith}
use triviabot.Database.{skip_busy, take_connection}

skip_busy-bounds :
    (busy : ℕ → Bool) (tries c curr_index : ℕ)
    → c < 10
    → curr_index ≤ 10
    → ((skip_busy busy tries c curr_index).0 < 10) × ((skip_busy busy tries c curr_index).1 ≤ 10)
unfolding skip_busy
skip_busy-bounds busy zero c curr_index h k = (h, k)
skip_busy-bounds busy (suc tries) c curr_index h k = ground (
  arith,
  skip_busy-bounds busy tries 0 0 (omega arith) (omega arith),
  λ (l : curr_index + 1 < 10).
      skip_busy-bounds busy tries (curr_index + 1) (curr_index + 1) l (omega arith),
)

-- Whichever connections are busy, a query takes one of the pool's ten, and leaves the index in its
-- range.
take_connection-bounds :
    (busy : ℕ → Bool) (curr_index : ℕ)
    → curr_index ≤ 10
    → ((take_connection busy curr_index).0 < 10) × ((take_connection busy curr_index).1 ≤ 10)
unfolding take_connection
take_connection-bounds busy curr_index h = ground (
  arith,
  skip_busy-bounds busy 11 0 0 (omega arith) (omega arith),
  λ (l : curr_index < 10). skip_busy-bounds busy 11 curr_index (curr_index + 1) l (omega arith),
)
