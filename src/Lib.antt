-- ===== src/Lib.antt =====
-- TriviaBot, a Discord bot that runs trivia games, in the part that decides: how a game goes from
-- question to question, who is paid for an answer, what counts as an answer, which hints are shown, who
-- may start and stop a game, what the records of players and teams come to, how commands and web requests
-- are limited and ordered, and how modules are loaded. The code is C++; the files named here are those
-- of the repository.
--
-- The parts, and the files that model them:
--
--   Settings    the limits on a guild's settings (modules/trivia/settings.cpp)
--   Locks       the table score_locks and can_score_on_guild (modules/trivia/state.cpp)
--   Text        include/sporks/stringops.h and src/stringops.cpp: trim, ReplaceString, from_string, Comma
--   Wide        modules/trivia/wlower.cpp, with the UTF-8 codec of the standard library that it uses
--   Host        what the code takes from the C library, fmt, PCRE (src/regex.cpp) and lang.json
--   Numbers     modules/trivia/numerics.cpp: numerals, numbers in words, the first hint
--   Levenstein  modules/trivia/levenstein.cpp
--   Game        state_t (modules/trivia/state.cpp). State has its data and small methods; Rounds the
--               events of a round; Hints what do_normal_round shows (with modules/trivia/piglatin.cpp);
--               Board do_insane_board; Verdict and Answers handle_message; Ticks state_t::tick
--   Start       command_start_t::call (modules/trivia/cmd_start.cpp)
--   Module      TriviaModule (modules/trivia/trivia.cpp): the settings cache, the loop over the games, the
--               routing of messages; modules/trivia/cmd_stop.cpp; and in Module.Resume OnAllShardsReady,
--               which makes the games of the table active_games again, and in
--               Module.Queued CheckForQueuedStarts
--   Commands    modules/trivia/commands.cpp: the rate limits, and in Commands.Handle handle_command
--   Menu        modules/trivia/cmd_context_start.cpp: the menus from which a game is started
--   VoteHint    modules/trivia/cmd_votehint.cpp
--   Records     the scores, streaks and histories of modules/trivia/webrequest.cpp
--   Teams       the teams of modules/trivia/webrequest.cpp and the commands modules/trivia/cmd_join.cpp,
--               cmd_leave.cpp and cmd_create.cpp; Teams.Censor is modules/trivia/neutrino_api.cpp
--   Web         the rest of modules/trivia/webrequest.cpp: Queues has the threads that post web hooks and
--               API calls, Requests web_request with its rate limits, Counters statdump
--   Loader      ModuleLoader (src/modules.cpp) and FOREACH_MOD (include/sporks/modules.h)
--   Database    src/database.cpp: the text of a query, the choice of a connection, and in
--               Database.Background the thread of the background queries
--   Common      lists, maps, tests and machine words that the parts share
--   Examples    the theorems at concrete inputs
--
-- How they interact: the loop of TriviaModule ticks the games that are due and passes a message to the
-- game of its channel, both under the mutex of the states, so that a game lives through a sequence of
-- ticks and messages (Game.Progress.Ends.Step). A game is a State; with what it shares with other games
-- (the locks, the last streaks, what has been sent) it is a Run, and an event or a message is a function
-- from a Run to an Outcome: it returns, it throws, or it reads past the end of a vector. What a call
-- reads from outside is a Moment: the clocks, the database and the draws of rand. What it sends is a list
-- of Effects, in which a message is named by the keys of the language strings that it is made of.
--
-- The other parts are functions on states of their own. A command passes handle_command, which may hold it
-- back, before its call changes the games (Start, Module.Stop, VoteHint), the menus (Menu) or the teams
-- (Teams); a menu composes a command that Commands and Start read (Menu.Command). Answers and
-- commands write Records, and post what they have to say with Web, whose queues are states that the
-- submitting side and the threads step in turn (Web.Queues.Order.Step), as is that of the database
-- (Database.Background). Module.Resume starts the rounds of Game with the rows of the table active_games.
--
-- Numbers are natural numbers; `u32`, `u64` and `sub32` write out where uint32_t and uint64_t wrap. Texts
-- are lists of bytes, and wide texts lists of characters. Times in seconds are natural numbers, and the
-- times of type double are counted in microseconds.
--
-- Loops are structural, but for these on fuel: ReplaceString (Text), with a theorem that its fuel is
-- enough; the numerals (Numbers), whose theorem reads the numeral back as the whole number; the hint
-- loop, whose fuel is the number that it counts down; the numbers of a menu (Menu), with a lemma that
-- more fuel changes nothing; the division of floats (Menu), with 64 doublings for a number that is
-- rounded and 32 for the quotient, which Menu.Quotient shows exact for fewer than 2 ^ 24 rows; and the
-- tries of do_insane_round and of query, which the code bounds itself.
--
-- Not modelled: MySQL, Discord, HTTP, JSON, the dynamic linker and the files that the code reads, beyond
-- the answers that a call gets from them; the texts of messages; the interleaving of threads inside a
-- step, since every step on a game, a queue or the counters holds its mutex; a click on a menu and the
-- start of a game, which take their mutex for a part of the time only, are taken as one step, and so
-- is an increment of the count of queries, which takes none. A web request is one call of
-- web_request where it runs alone; Web.Requests.Limits takes it apart at its sleeps, and other threads
-- run between the parts. The writes of VoteHint wait in the background (VoteHint.Budget.Calls), while
-- Records and Teams take a statement that is run in the background to have run before the next one is
-- asked. A module whose init_module throws after it has attached its handlers is a case of Loader. The
-- JSON parser of the list of questions in active_games is a parameter. A correct answer that is no
-- UTF-8, at which homoglyph throws while the reply is made, is not a case of Answers. Of webrequest.cpp,
-- creating a web hook, the caches of users and guilds and the fetching of questions are left out; of
-- trivia.cpp, the presence and the statistics of the shards; of commands.cpp, the
-- registration of slash commands; and the commands that are a query and a reply.
pub mod Common
pub mod Settings
pub mod Locks
pub mod Text
pub mod Wide
pub mod Host
pub mod Numbers
pub mod Levenstein
pub mod Game
pub mod Start
pub mod Module
pub mod Web
pub mod Loader
pub mod Records
pub mod Teams
pub mod VoteHint
pub mod Menu
pub mod Commands
pub mod Database
pub mod Examples
