-- ===== src/Examples.antt =====
-- A host, settings, questions and games for the examples.
pub mod Requests
pub mod Teams
pub mod Players
pub mod Loaders
pub mod Menus
pub mod Games
pub mod Rounds
pub mod Runs
pub mod Texts
pub mod Modules
use triviabot.Common.{ℕ, String, Bool, true, false, List, [], ◌∷◌, ◌++◌, Option, none, some}
use triviabot.Text.{Text, ascii}
use triviabot.Wide.Homoglyph.{Picks}
use triviabot.Host.{Host}
use triviabot.Settings.{GuildSettings, make_settings}
use triviabot.Game.State.{
  GameState, ask_question, Question, no_question, State, Streak, Run, Moment,
}
use triviabot.Module.{default_settings}

-- A host without translations, whose regular expressions match nothing.
abbrev pub a_host : Host
a_host = record {
  towlower = λ c. c;
  format = λ f args. f;
  match = λ caseless pattern s. none;
  lang = λ k. none;
}

abbrev pub a_guild : GuildSettings
a_guild = record {
  time = 1000;
  guild_id = 7;
  prefix = ascii "!";
  moderator_roles = [];
  embedcolour = 0;
  premium = false;
  only_mods_stop = false;
  only_mods_start = false;
  role_reward_enabled = false;
  role_reward_id = 0;
  custom_url = [];
  language = ascii "en";
  question_interval = 20;
  max_normal_round = 200;
  max_quickfire_round = 15;
  max_hardcore_round = 200;
  disable_insane_rounds = false;
}

abbrev pub a_question : Question
a_question = record {
  id = 5;
  guild_id = 0;
  question = ascii "What purrs?";
  answer = ascii "cat";
  customhint1 = ascii "#a#";
  customhint2 = ascii "#at";
  catname = ascii "pets";
  lastasked = 0;
  timesasked = 0;
  lastcorrect = [];
  recordtime = 0;
  shuffle1 = ascii "tac";
  shuffle2 = ascii "act";
  question_image = [];
  answer_image = [];
}

-- A game of one question, which is about to be asked.
abbrev pub a_game : State
a_game = record {
  has_creator = true;
  next_tick = 1000;
  terminating = false;
  channel_id = 9;
  guild_id = 7;
  numquestions = 2;
  round = 1;
  score = 0;
  start_time = 1000;
  shuffle_list = ascii "5" ∷ [];
  gamestate = ask_question;
  question = record a_question { answer = [] };
  original_answer = [];
  last_to_answer = 0;
  streak = 1;
  asktime = 0;
  interval = 20;
  insane_num = 0;
  insane_left = 0;
  hintless = false;
  insane = [];
  activity = [];
  scores = [];
  insane_round_stats = [];
  question_cache = [];
}

abbrev pub a_run : Run
a_run = record { game = a_game; locks = []; last_streaks = []; out = [] }

abbrev pub a_streak : Streak
a_streak = record { personalbest = 3; topstreaker = 4; bigstreak = 9 }

abbrev pub a_moment : Moment
a_moment = record {
  now = 1000;
  time_f = 1000000000;
  stopped = false;
  banned = λ user. false;
  team = [];
  guild_best = a_streak;
  global_best = a_streak;
  known = λ user. true;
  fetch = λ id. a_question;
  insane_try = λ n. (5, ascii "pets" ∷ ascii "cat" ∷ ascii "dog" ∷ []);
  picks = record { vowel_a_upper = 0; vowel_e_upper = 0; vowel_o_upper = 0 };
  rand_hint1 = 0;
  rand_hint2 = 0;
  rand_coin = 0;
  rand_amount = 0;
}
