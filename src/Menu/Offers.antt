-- ===== src/Menu/Offers.antt =====
-- The numbers of questions that the menu offers, against what cmd_start.cpp accepts.
use triviabot.Common.{
  ℕ, zero, suc, ◌+◌, ◌≤◌, ◌<◌, ◌≡◌, refl, Bool, true, false, List, [], ◌∷◌, none, some, length,
  text_eq, leb, ◌==◌, if◌then◌else◌, inl, inr, ◌⊎◌, ◌||◌, Bool-cases, All, arith,
}
use mathlib.Core.Path.{subst}
use triviabot.Text.{Text, ascii}
use triviabot.Settings.{GuildSettings}
use triviabot.Start.{member, StartCmd, is_quickfire, wrong_number}
use triviabot.Menu.{option_loop, options_to, max_questions, offered, command_name}

-- Once there is enough fuel, the numbers do not depend on it.
option_loop_enough :
    (fuel more step max i : ℕ)
    → 0 < step
    → max < fuel + i
    → max < more + i
    → option_loop more step max i ≡ option_loop fuel step max i
unfolding option_loop
option_loop_enough zero zero step max i s h k = refl
option_loop_enough zero (suc more) step max i s h k = ground arith
option_loop_enough (suc fuel) zero step max i s h k = ground arith
option_loop_enough (suc fuel) (suc more) step max i s h k =
    let j = if i == 197 then 200 else i in
    ground (arith, option_loop_enough fuel more step max (j + step) s (ground arith) (ground arith))

-- The numbers lie between 5 and the maximum.
option_loop-between :
    (fuel step max i : ℕ)
    → 5 ≤ i
    → (max ≡ 200) ⊎ (max < 197)
    → All (λ n. (5 ≤ n) × (n ≤ max)) (option_loop fuel step max i)
unfolding option_loop
option_loop-between zero step max i low m = tt
option_loop-between (suc fuel) step max i low m =
    let j = if i == 197 then 200 else i in
    let rest = option_loop-between fuel step max (j + step) (ground arith) m in
    elim (Bool-cases (leb i max)) [
      | inl e ↦ rw e ((ground arith, ground arith), rest)
      | inr e ↦ rw e tt
    ]

between_200 : All (λ n. (5 ≤ n) × (n ≤ 200)) (options_to 200)
unfolding options_to
between_200 = option_loop-between 200 8 200 5 (omega arith) (inl refl)

between_15 : All (λ n. (5 ≤ n) × (n ≤ 15)) (options_to 15)
unfolding options_to
between_15 = option_loop-between 15 1 15 5 (omega arith) (inr (omega arith))

length_200 : length (options_to 200) ≡ 25
unfolding options_to option_loop
length_200 = refl

length_15 : length (options_to 15) ≡ 11
unfolding options_to option_loop
length_15 = refl

all_accepted :
    (s : GuildSettings) (cmd : StartCmd) (most : ℕ) (ns : List ℕ)
    → most ≤ 200
    → (is_quickfire cmd ≡ true → most ≤ (if s.premium then 200 else 15))
    → All (λ n. (5 ≤ n) × (n ≤ most)) ns
    → All (λ n. wrong_number s cmd (some n) ≡ none) ns
unfolding wrong_number
all_accepted s cmd most [] small quick a = tt
all_accepted s cmd most (n ∷ ns) small quick (b, a) =
    (ground (arith, quick, b), all_accepted s cmd most ns small quick a)

-- Only a round of quick fire becomes a command of quick fire.
not_quickfire :
    (type : Text)
    → text_eq type (ascii "qf") ≡ false
    → text_eq type (ascii "quickfire") ≡ false
    → (text_eq (command_name type) (ascii "quickfire") ≡ false)
      × (text_eq (command_name type) (ascii "qf") ≡ false)
unfolding command_name text_eq
not_quickfire type qf quick = elim (Bool-cases (text_eq type (ascii "normal"))) [
  | inl e ↦ rw e (refl, refl)
  | inr e ↦ rw e (quick, qf)
]

max_questions_cases :
    (premium : Bool) (type : Text)
    → (max_questions premium type ≡ 200) ⊎ (max_questions premium type ≡ 15)
unfolding max_questions
max_questions_cases premium type = ground arith

max_questions-le : (premium : Bool) (type : Text) → max_questions premium type ≤ 200
unfolding max_questions
max_questions-le premium type = ground arith

options :
    (most : ℕ)
    → (most ≡ 200) ⊎ (most ≡ 15)
    → All (λ n. (5 ≤ n) × (n ≤ most)) (options_to most) × (length (options_to most) ≤ 25)
options most (inl e) = rw e (between_200, omega (arith, length_200))
options most (inr e) = rw e (between_15, omega (arith, length_15))

member-All :
    (most n : ℕ) (ns : List ℕ)
    → All (λ n. (5 ≤ n) × (n ≤ most)) ns
    → most ≤ 200
    → member n ns ≡ true
    → (5 ≤ n) × (n ≤ 200)
unfolding member
member-All most n [] a small m = cc
member-All most n (k ∷ ns) (b, a) small m = elim (Bool-cases (k == n)) [
  | inl same ↦ (ground (arith, same), ground (arith, same))
  | inr other ↦ member-All most n ns a small (ground (arith, other, m))
]

pub offered-between :
    (premium : Bool) (type : Text) (n : ℕ)
    → member n (offered premium type) ≡ true
    → (5 ≤ n) × (n ≤ 200)
unfolding offered
offered-between premium type n m =
    let most = max_questions premium type in
    member-All most n (options_to most) (options most (max_questions_cases premium type)).0
      (max_questions-le premium type) m

quick_most :
    (s : GuildSettings) (cmd : StartCmd) (type : Text)
    → cmd.base_command ≡ command_name type
    → text_eq type (ascii "qf") ≡ false
    → is_quickfire cmd ≡ true
    → max_questions s.premium type ≤ (if s.premium then 200 else 15)
unfolding is_quickfire max_questions
quick_most s cmd type name qf quick = elim (Bool-cases (text_eq type (ascii "quickfire"))) [
  | inl e ↦ ground (arith, e)
  | inr e ↦
      let other = not_quickfire type qf e in
      let quick' =
        subst (λ t. (text_eq t (ascii "quickfire") || text_eq t (ascii "qf")) ≡ true) name quick in
      absurd (ground (arith, other, quick'))
]

-- Where the menu of a type of round, other than the short name "qf", leads to a command, no number of
-- questions that it offers is refused by the command; and it offers at most 25 of them, as many as a
-- menu can hold.
pub offered_accepted :
    (s : GuildSettings) (cmd : StartCmd) (type : Text)
    → cmd.base_command ≡ command_name type
    → text_eq type (ascii "qf") ≡ false
    → All (λ n. wrong_number s cmd (some n) ≡ none) (offered s.premium type)
      × (length (offered s.premium type) ≤ 25)
unfolding offered
offered_accepted s cmd type name qf =
    let most = max_questions s.premium type in
    let (a, few) = options most (max_questions_cases s.premium type) in
    (
      all_accepted s cmd most (options_to most) (max_questions-le s.premium type)
          (quick_most s cmd type name qf) a,
      few,
    )
