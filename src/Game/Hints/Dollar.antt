-- ===== src/Game/Hints/Dollar.antt =====
-- The second hint of an answer in dollars.
use triviabot.Common.{ℕ, ◌<◌, ◌≡◌, refl, ◌∷◌, arith}
use triviabot.Text.{
  Text, from_string, read_unsigned, read_digits, is_digit, ltrim, is_space, values32, values64,
}
use triviabot.Game.State.{Question}
use triviabot.Host.{Host}
use triviabot.Game.Hints.{hint_number, second_number_hint}

dollar_read : (values : ℕ) (amount : Text) → 0 < values → from_string values (b'$' ∷ amount) ≡ 0
unfolding from_string read_unsigned ltrim is_space read_digits is_digit
dollar_read values amount h = ground arith

hint_number-dollar :
    (host : Host) (language : Text) (values : ℕ) (q : Question) (amount : Text)
    → 0 < values
    → q.answer ≡ b'$' ∷ amount
    → hint_number host language values q ≡ 0
unfolding hint_number
hint_number-dollar host language values q amount h e = rw e (dollar_read values amount h)

-- Whatever the amount is, an answer that begins with a dollar sign is read as 0 where the second hint
-- is made, so that two questions with such answers have the same hint for the same draw.
second_number_hint-dollar :
    (host : Host) (language : Text) (rand : ℕ) (q r : Question) (amount other : Text)
    → q.answer ≡ b'$' ∷ amount
    → r.answer ≡ b'$' ∷ other
    → second_number_hint host language rand q ≡ second_number_hint host language rand r
unfolding second_number_hint
second_number_hint-dollar host language rand q r amount other e f =
    rw
      (
        hint_number-dollar host language values32 q amount (omega arith) e,
        hint_number-dollar host language values64 q amount (omega arith) e,
        hint_number-dollar host language values32 r other (omega arith) f,
        hint_number-dollar host language values64 r other (omega arith) f,
      )
      refl
