-- ===== src/Records.antt =====
-- The records of modules/trivia/webrequest.cpp on the players of a game: streaks, scores, and the
-- scores of a game that has ended.
pub mod Streaks
pub mod Scores
pub mod History
