-- ===== src/Settings/Bounds.antt =====
-- The limits that the constructor of the settings puts on the values from the database.
use triviabot.Common.{◌≤◌, ◌≡◌, false, arith}
use triviabot.Settings.{GuildSettings, make_settings}

pub record IsBounded (s : GuildSettings) : Type 0 where
  pub interval_low : 20 ≤ s.question_interval
  pub interval_high : s.question_interval ≤ 3600
  pub normal : s.max_normal_round ≤ 200
  pub quickfire : s.max_quickfire_round ≤ 200
  pub hardcore : s.max_hardcore_round ≤ 200
  pub free : s.premium ≡ false → s.max_quickfire_round ≤ 15

-- Whatever the database holds, the settings that the constructor makes have an interval of 20 to
-- 3600 seconds and rounds of at most 200 questions, and at most 15 quickfire questions without
-- premium.
make_settings-IsBounded : (given : GuildSettings) → IsBounded (make_settings given)
unfolding make_settings
make_settings-IsBounded given = record {
  interval_low = ground arith;
  interval_high = ground arith;
  normal = ground arith;
  quickfire = ground arith;
  hardcore = ground arith;
  free = ground arith;
}
