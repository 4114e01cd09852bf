-- ===== src/Records/Streaks.antt =====
-- change_streak and get_streak of modules/trivia/webrequest.cpp, on the tables `streaks` (for a guild)
-- and `global_streaks`.
pub mod Best
use triviabot.Common.{
  ℕ, ◌+◌, Bool, true, false, ◌&&◌, List, [], ◌∷◌, Option, none, some, ltb, ◌==◌, if◌then◌else◌,
  keep,
}
use triviabot.Game.State.{Streak}

-- A row of `streaks`; those of `global_streaks` have no guild.
pub record Row : Type 0 where
  pub nick : ℕ
  pub guild_id : ℕ
  pub streak : ℕ

unfoldable pub is_row_of : (nick guild_id : ℕ) → Row → Bool
is_row_of nick guild_id row = row.nick == nick && row.guild_id == guild_id

-- "INSERT … ON DUPLICATE KEY UPDATE streak = …": the row of a user on a guild is written, or added.
unfoldable pub change_streak : (snowflake_id guild_id score : ℕ) → List Row → List Row
unfolding is_row_of
change_streak snowflake_id guild_id score [] =
    record { nick = snowflake_id; guild_id = guild_id; streak = score } ∷ []
change_streak snowflake_id guild_id score (row ∷ rows) =
    let kept = row ∷ change_streak snowflake_id guild_id score rows in
    if is_row_of snowflake_id guild_id row then record row { streak = score } ∷ rows else kept

-- "ORDER BY streak DESC LIMIT 1": of equal rows, the first.
unfoldable pub best : List Row → Option Row
best [] = none
best (row ∷ rows) = elim (best rows) [
  | none ↦ some row
  | some top ↦ if ltb row.streak top.streak then some top else some row
]

unfoldable pub first : List Row → Option Row
first [] = none
first (row ∷ rows) = some row

unfoldable pub on_guild : (guild_id : ℕ) → List Row → List Row
on_guild guild_id = keep (λ (row : Row). row.guild_id == guild_id)

-- `from_string<uint32_t>` of a number.
unfoldable pub as_uint32 : ℕ → ℕ
as_uint32 n = if ltb n 4294967296 then n else 4294967295

unfoldable pub personal_best : Option Row → ℕ
unfolding as_uint32
personal_best none = 0
personal_best (some row) = as_uint32 row.streak

unfoldable pub streak_of : (own top : Option Row) → Streak
streak_of own none = record {
  personalbest = personal_best own;
  topstreaker = 0;
  bigstreak = 9999999;
}
streak_of own (some row) = record {
  personalbest = personal_best own;
  topstreaker = row.nick;
  bigstreak = as_uint32 row.streak;
}

-- get_streak on a guild; on `global_streaks` it is the same with the rows of no guild.
unfoldable pub get_streak : (snowflake_id guild_id : ℕ) → List Row → Streak
get_streak snowflake_id guild_id rows =
    streak_of (first (keep (is_row_of snowflake_id guild_id) rows)) (best (on_guild guild_id rows))
