-- ===== src/Web.antt =====
-- modules/trivia/webrequest.cpp: requests that are sent later, requests to the web, and what is
-- counted about them.
pub mod Queues
pub mod Counters
pub mod Requests
