-- ===== src/Game/Rewards.antt =====
-- The chance of a coin (should_drop_coin of modules/trivia/state.cpp).
use triviabot.Common.{ℕ, ◌<◌, ◌≤◌, ◌≡◌, false, List, [], ◌∷◌, arith, length, ◌↔◌}
use triviabot.Game.State.{State, active_since, coin_probability, should_drop_coin}

-- The chance of a coin is at most 5 in 100, grows with the players that are active, and is none with fewer
-- than two.
coin_probability_lem :
    (few many : ℕ)
    → few ≤ many
    → (coin_probability few ≤ coin_probability many)
      × (coin_probability many ≤ 5)
      × ((coin_probability few ≡ 0) ↔ (few < 2))
unfolding coin_probability
coin_probability_lem few many h = ground arith

active_since-le : (now : ℕ) (activity : List (ℕ × ℕ)) → active_since now activity ≤ length activity
unfolding active_since
active_since-le now [] = omega arith
active_since-le now ((u, t) ∷ others) = ground (arith, active_since-le now others)

-- No coin is dropped for a game in which a single player has tried to answer, whatever is rolled from
-- 1 on.
should_drop_coin-alone :
    (now roll : ℕ) (g : State)
    → length g.activity < 2
    → 0 < roll
    → should_drop_coin now roll g ≡ false
unfolding should_drop_coin coin_probability
should_drop_coin-alone now roll g few rolled = ground (arith, active_since-le now g.activity)
