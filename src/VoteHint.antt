-- ===== src/VoteHint.antt =====
-- modules/trivia/cmd_votehint.cpp: the personal hints that a user has for a vote.
pub mod Mask
pub mod Budget
use triviabot.Common.{
  ℕ, ◌+◌, ◌-◌, ◌/◌, ◌%◌, Bool, true, false, not, ◌&&◌, ◌||◌, List, [], ◌∷◌, map, Option, none, some,
  ltb, ◌==◌, if◌then◌else◌, is_empty, text_eq,
}
use triviabot.Text.{Text, ascii}
use triviabot.Settings.{GuildSettings}
use triviabot.Wide.{◌>>=◌, utf8lower}
use triviabot.Wide.Utf8.{Wide, from_bytes, to_bytes}
use triviabot.Game.State.{
  GameState, first_hint, second_hint, time_up, ask_question, answer_correct, ended, invalid, State,
  is_insane_round,
}

-- `wide[wide.length() - 1] = L'#'`
unfoldable pub hash_last : Wide → Wide
hash_last [] = []
hash_last (c ∷ w) = elim w [ [] ↦ 35 ∷ [] | d ∷ v ↦ c ∷ hash_last w ]

-- The first and the last character are hidden; with no character there is none to hide.
unfoldable pub hash_ends : Wide → Option Wide
hash_ends [] = none
hash_ends (c ∷ w) = some (hash_last (35 ∷ w))

unfoldable pub hash_spaces : Wide → Wide
hash_spaces w = map (λ c. if c == 32 then 35 else c) w

-- The hint for an answer, where the conversions from bytes do not throw.
unfoldable pub personal_hint :
    (towlower : ℕ → ℕ) → (spanish_hack : Bool) → (answer : Text) → Option Text
unfolding hash_ends hash_spaces hash_last
personal_hint towlower spanish_hack answer = do
  lower ← utf8lower towlower answer spanish_hack
  wide ← from_bytes lower
  ends ← hash_ends wide
  some (to_bytes (hash_spaces ends))

-- The row of `infobot_votes` of a user who has voted in the last twelve hours: the hints that are
-- left, and the seconds until the vote is over.
pub record Vote : Type 0 where
  pub dm_hints : ℕ
  pub remaining : ℕ

-- The reply: in the channel or to the user alone, with the language strings NOROUND, WAITABIT,
-- NOTVOTED and NOMOREHINTS; or a hint, with the hints that are left and the hours and minutes.
pub data Reply : Type 0 where
  noround : Reply
  waitabit : Reply
  notvoted : Reply
  nomorehints : Reply
  hint : (personal : Text) → (left hours mins : ℕ) → Reply

unfoldable pub is_hint_time : GameState → Bool
is_hint_time ask_question = false
is_hint_time first_hint = true
is_hint_time second_hint = true
is_hint_time time_up = true
is_hint_time answer_correct = false
is_hint_time ended = false
is_hint_time (invalid n) = false

-- What a call sends, and the number that it writes to `dm_hints`, if it does.
pub record Result : Type 0 where
  pub reply : Reply
  pub written : Option ℕ

unfoldable pub give_hint : (personal : Text) → Vote → Result
give_hint personal vote = record {
  reply = hint personal (vote.dm_hints - 1) (vote.remaining / 60 / 60) (vote.remaining / 60 % 60);
  written = some (vote.dm_hints - 1);
}

-- The part of command_votehint_t::call behind the vote.
unfoldable pub compose_hint :
    (towlower : ℕ → ℕ) → GuildSettings → (answer : Text) → Option Vote → Option Result
compose_hint towlower s answer none = some (record { reply = notvoted; written = none })
compose_hint towlower s answer (some vote) =
    if ltb vote.dm_hints 1
    then some (record { reply = nomorehints; written = none })
    else elim (personal_hint towlower (text_eq s.language (ascii "es")) answer) [
      | none ↦ none
      | some personal ↦ some (give_hint personal vote)
    ]

unfoldable pub can_hint : GuildSettings → State → Bool
can_hint s g =
    is_hint_time g.gamestate && not (is_insane_round s g) && not (is_empty g.question.answer)

-- command_votehint_t::call, with the game of the channel and the user's vote, where there are such.
-- There is no result where a conversion throws, or the answer has no character.
unfoldable pub votehint_call :
    (towlower : ℕ → ℕ) → GuildSettings → Option State → Option Vote → Option Result
votehint_call towlower s none vote = some (record { reply = noround; written = none })
votehint_call towlower s (some g) vote =
    if can_hint s g
    then compose_hint towlower s g.question.answer vote
    else some (record { reply = waitabit; written = none })
