-- ===== src/Game.antt =====
-- modules/trivia/state.h and state.cpp: one game on one channel.
pub mod State
pub mod Board
pub mod Hints
pub mod Rounds
pub mod Unanswered
pub mod Verdict
pub mod Answers
pub mod Ticks
pub mod Counting
pub mod Once
pub mod Progress
pub mod Scoring
pub mod Rewards
