-- ===== src/Locks.antt =====
-- The table `score_locks` and can_score_on_guild of modules/trivia/state.cpp.
pub mod Exclusive
use triviabot.Common.{
  ℕ, ◌+◌, Bool, true, false, List, [], ◌∷◌, Option, none, some, ◌||◌, ◌==◌, leb, if◌then◌else◌,
  lookup, insert,
}

-- A row of the table; `user_id` is its key.
pub record Lock : Type 0 where
  pub guild_id : ℕ
  pub updated_at : ℕ

abbrev pub Locks : Type 0
Locks = List (ℕ × Lock)

-- `ON DUPLICATE KEY UPDATE`: the assignments run from left to right, so the second one reads the
-- guild that the first one has set. `updated_at <= now - 60` is written without the subtraction.
refresh : ℕ → ℕ → Lock → Lock
refresh guild now l =
    let g = if l.guild_id == guild || leb (l.updated_at + 60) now then guild else l.guild_id in
    record {
      guild_id = g;
      updated_at = if g == guild || leb (l.updated_at + 60) now then now else l.updated_at;
    }

upsert : ℕ → ℕ → ℕ → Locks → Locks
unfolding refresh
upsert user guild now db = elim (lookup user db) [
  | none ↦ insert user (record { guild_id = guild; updated_at = now }) db
  | some l ↦ insert user (refresh guild now l) db
]

-- `SELECT guild_id ...` and the comparison.
holds_lock : ℕ → ℕ → Locks → Bool
holds_lock user guild db = elim (lookup user db) [ none ↦ false | some l ↦ l.guild_id == guild ]

-- The answer of can_score_on_guild at time `now`, with the table that it leaves.
unfoldable pub can_score_on_guild : ℕ → ℕ → ℕ → Locks → Bool × Locks
unfolding upsert holds_lock
can_score_on_guild user guild now db =
    let db' = upsert user guild now db in (holds_lock user guild db', db')
