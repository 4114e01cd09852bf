-- ===== src/Start/Reading.antt =====
-- A command as handle_command and cmd_start.cpp read it: a word, a number of questions and the rest.
use triviabot.Common.{
  ℕ, ◌<◌, ◌≡◌, ◌≢◌, refl, ◌∙◌, ap, false, [], ◌∷◌, ◌++◌, some, text_eq, is_empty, arith,
}
use triviabot.Text.{
  Text, ascii, is_digit, ltrim, getline, trim, lowercase, next_word, until_space, to_string,
  read_digits, from_string_int,
}
use triviabot.Text.Decimal.{to_string-Digits, to_string-ne-nil, read_digits-to_string, Digits}
use triviabot.Text.Words.{
  IsWord, IsBehind, Digits-IsWord, next_word-append, until_space-append, ltrim_word,
}
use triviabot.Commands.Handle.{base_command}
use triviabot.Start.{StartCmd, parse_request, read_questions}

int_front :
    (s : Text) (n : ℕ)
    → Digits s
    → s ≢ []
    → read_digits 0 s ≡ n
    → n < 2147483648
    → from_string_int s ≡ n
unfolding from_string_int is_digit
int_front [] n d e r high = absurd (e refl)
int_front (c ∷ s) n (d, ds) e r high = ground (arith, r, d)

read_front :
    (s : Text) (n : ℕ)
    → Digits s
    → s ≢ []
    → read_digits 0 s ≡ n
    → n < 2147483648
    → read_questions s ≡ some n
unfolding read_questions is_digit
read_front [] n d e r high = absurd (e refl)
read_front (c ∷ s) n (d, ds) e r high =
    let plain : from_string_int (c ∷ s) ≡ n = int_front (c ∷ s) n (d, ds) e r high in
    ground (arith, plain)

-- A number that is neither 0 nor too large for an int is read as it was written.
read_number : (n : ℕ) → 0 < n → n < 2147483648 → read_questions (to_string n) ≡ some n
read_number n low high =
    read_front (to_string n) n (to_string-Digits n) (to_string-ne-nil n) (read_digits-to_string n)
      high

base_word :
    (msg word args : Text)
    → next_word msg ≡ some (word, args)
    → text_eq (lowercase word) (ascii "trivia") ≡ false
    → base_command msg ≡ (lowercase word, args)
unfolding base_command
base_word msg word args e other = ground (arith, e, other)

parse_number :
    (cmd : StartCmd) (str_q rest : Text) (n : ℕ)
    → until_space (ltrim cmd.args) ≡ (str_q, rest)
    → is_empty str_q ≡ false
    → read_questions str_q ≡ some n
    → 0 < n
    → parse_request cmd ≡ some (some n, trim (getline rest))
unfolding parse_request
parse_number cmd str_q rest n split there number low = ground (arith, split, there, number)

full : (s : Text) → s ≢ [] → is_empty s ≡ false
full [] e = absurd (e refl)
full (c ∷ s) e = refl

number_split :
    (n : ℕ) (b : Text)
    → IsBehind b
    → until_space (ltrim (32 ∷ (to_string n ++ b))) ≡ (to_string n, b)
unfolding ltrim
number_split n b behind_it =
    let word = Digits-IsWord (to_string n) (to_string-Digits n) in
    rw (ltrim_word (to_string n) b word (to_string-ne-nil n))
      (until_space-append (to_string n) b word behind_it)

-- The word is the command's name, in lower case, and the number and the rest are read as they stand.
pub command_read :
    (name : Text) (n : ℕ) (b : Text)
    → IsWord name
    → name ≢ []
    → text_eq (lowercase name) (ascii "trivia") ≡ false
    → 0 < n
    → n < 2147483648
    → IsBehind b
    → let args = 32 ∷ (to_string n ++ b) in
      (base_command (name ++ args) ≡ (lowercase name, args))
      × ((cmd : StartCmd) → cmd.args ≡ args → parse_request cmd ≡ some (some n, trim (getline b)))
command_read name n b word there other low high behind_it =
    let digits = to_string n in
    let args = 32 ∷ (digits ++ b) in
    (
      base_word _ name args (next_word-append name args word there refl) other,
      λ cmd e.
          parse_number cmd digits b n
            (ap (λ t. until_space (ltrim t)) e ∙ number_split n b behind_it)
            (full digits (to_string-ne-nil n)) (read_number n low high) low,
    )
