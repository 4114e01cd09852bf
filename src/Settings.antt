-- ===== src/Settings.antt =====
-- modules/trivia/settings.h and settings.cpp: the settings of a guild.
pub mod Bounds
use triviabot.Common.{ℕ, Bool, List, ltb, ◌||◌, if◌then◌else◌}

pub record GuildSettings : Type 0 where
  pub time : ℕ
  pub guild_id : ℕ
  pub prefix : List ℕ
  pub embedcolour : ℕ
  pub moderator_roles : List ℕ
  pub premium : Bool
  pub only_mods_stop : Bool
  pub only_mods_start : Bool
  pub role_reward_enabled : Bool
  pub role_reward_id : ℕ
  pub custom_url : List ℕ
  pub language : List ℕ
  pub question_interval : ℕ
  pub max_normal_round : ℕ
  pub max_quickfire_round : ℕ
  pub max_hardcore_round : ℕ
  pub disable_insane_rounds : Bool

-- `x > limit ? limit : x`
abbrev cap_at : ℕ → ℕ → ℕ
cap_at limit x = if ltb limit x then limit else x

-- The constructor. Its argument `given` holds the constructor's own arguments, in the fields that
-- they initialise.
unfoldable pub make_settings : GuildSettings → GuildSettings
make_settings given = record given {
  question_interval =
      if ltb given.question_interval 20 || ltb 3600 given.question_interval
      then 20
      else given.question_interval;
  max_normal_round = cap_at 200 given.max_normal_round;
  max_quickfire_round =
      if given.premium
      then cap_at 200 given.max_quickfire_round
      else cap_at 15 given.max_quickfire_round;
  max_hardcore_round = cap_at 200 given.max_hardcore_round;
}
