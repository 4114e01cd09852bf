-- ===== src/Commands.antt =====
-- The rate limit of modules/trivia/commands.cpp: how often a channel runs a command.
pub mod Rate
pub mod Handle
pub mod Passing
pub mod Spacing
use triviabot.Common.{
  ℕ, ◌+◌, Bool, true, false, not, ◌&&◌, ◌||◌, List, [], ◌∷◌, Option, none, some, ltb, leb, ◌==◌,
  if◌then◌else◌, lookup, insert, erase,
}

-- PER_CHANNEL_RATE_LIMIT, in seconds.
abbrev pub per_channel_rate_limit : ℕ
per_channel_rate_limit = 4

-- The maps `limits` and `last_rl_warning`: the time at which the entry of a channel ends.
abbrev pub Times : Type 0
Times = List (ℕ × ℕ)

pub record Limits : Type 0 where
  pub limits : Times
  pub last_rl_warning : Times

-- has_limit and has_rl_warn on their maps: whether there is a limit, and the map without an entry that
-- has ended. (The end of either map is the same null iterator.)
unfoldable pub check_time : (now channel : ℕ) → Times → Bool × Times
check_time now channel t = elim (lookup channel t) [
  | none ↦ (false, t)
  | some end ↦ if ltb now end then (true, t) else (false, erase channel t)
]

unfoldable pub has_limit : (now channel : ℕ) → Limits → Bool × Limits
unfolding check_time
has_limit now channel l =
    let (r, t) = check_time now channel l.limits in (r, record l { limits = t })

unfoldable pub has_rl_warn : (now channel : ℕ) → Limits → Bool × Limits
unfolding check_time
has_rl_warn now channel l =
    let (r, t) = check_time now channel l.last_rl_warning in (r, record l { last_rl_warning = t })

unfoldable pub set_limit : (now channel : ℕ) → Limits → Limits
set_limit now channel l = record l {
  limits = insert channel (now + per_channel_rate_limit) l.limits;
}

unfoldable pub set_rl_warn : (now channel : ℕ) → Limits → Limits
set_rl_warn now channel l = record l {
  last_rl_warning = insert channel (now + per_channel_rate_limit) l.last_rl_warning;
}

-- What handle_command does with a command that it knows: it runs, or a warning is sent, or nothing.
pub data Gate : Type 0 where
  runs : Gate
  warned : Gate
  quiet : Gate

-- A command of the bot itself; the flags are those of the command and of where it comes from. A
-- command of the API passes neither flag.
unfoldable pub gate : (ephemeral from_dashboard : Bool) → (now channel : ℕ) → Limits → Gate × Limits
unfolding has_limit has_rl_warn set_limit set_rl_warn
gate ephemeral from_dashboard now channel l =
    let (limited, l1) = has_limit now channel l in
    let l2 = if limited then l1 else set_limit now channel l1 in
    let (told, l3) = has_rl_warn now channel l2 in
    if not limited || from_dashboard || ephemeral
    then (runs, l2)
    else if told
    then (quiet, l3)
    else (warned, set_rl_warn now channel l3)
