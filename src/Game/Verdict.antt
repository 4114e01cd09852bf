-- ===== src/Game/Verdict.antt =====
-- Whether a message answers the question: the tests of state_t::handle_message for a normal round
-- (modules/trivia/state.cpp).
use triviabot.Common.{
  Bool, true, false, ◌||◌, Option, none, some, ltb, leb, if◌then◌else◌, is_empty, text_eq, length,
}
use triviabot.Text.{Text, ascii, from_string_int}
use triviabot.Wide.{◌>>=◌, utf8lower, removepunct}
use triviabot.Levenstein.{levenstein}
use triviabot.Host.{Host, matches}
use triviabot.Numbers.{tidy_num}
use triviabot.Numbers.Convert.{conv_num}

module _ (host : Host) (language : Text) where
  unfoldable pub spanish : Bool
  spanish = text_eq language (ascii "es")

  -- `utf8lower(answer) == utf8lower(trivia_message)`
  unfoldable pub same_lower : Text → Text → Option Bool
  unfolding spanish
  same_lower answer tm = do
    a ← utf8lower host.towlower answer spanish
    b ← utf8lower host.towlower tm spanish
    some (text_eq a b)

  unfoldable pub is_amount : Text → Bool
  is_amount answer =
      matches host false (ascii "^\\$(\\d+)$") answer
      || matches host false (ascii "^(\\d+)$") answer

  -- `a || b`, where a test may throw.
  abbrev or_else : Option Bool → Option Bool → Option Bool
  or_else none b = none
  or_else (some true) b = some true
  or_else (some false) b = b

  unfoldable pub close : Text → Text → Option Bool
  close answer tm =
      if leb (length answer) (length tm)
      then (do d ← levenstein host.towlower tm answer; some (ltb d 2))
      else some false

  unfoldable pub direct : Text → Text → Option Bool
  unfolding same_lower
  direct answer tm = if leb (length answer) (length tm) then same_lower answer tm else some false

  unfoldable pub misspelt : Text → Text → Option Bool
  unfolding is_amount close same_lower
  misspelt answer tm =
      if is_amount answer
      then some false
      else if ltb 5 (length answer)
      then or_else (same_lower answer tm) (close answer tm)
      else some false

  -- The condition of the `if`, on the answer and the message as they are compared.
  unfoldable pub accepted : Text → Text → Option Bool
  unfolding direct misspelt
  accepted answer tm =
      if is_empty answer then some false else or_else (direct answer tm) (misspelt answer tm)

  -- The message as it is compared: without punctuation, or a number in words as digits.
  unfoldable pub read_message : Text → Option Text
  read_message msg = do
    tm ← removepunct msg
    let c = conv_num host language msg
    some (tidy_num host (if ltb 0 (from_string_int c) then c else tm))

  unfoldable pub judge : (answer msg : Text) → Option Bool
  judge answer msg = do a ← removepunct answer; t ← read_message msg; accepted a t
