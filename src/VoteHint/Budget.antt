-- ===== src/VoteHint/Budget.antt =====
-- The hints of a vote run out.
use triviabot.Common.{
  ℕ, ◌+◌, ◌≡◌, ◌≤◌, ◌++◌, ◌&&◌, Bool, true, List, [], ◌∷◌, All, is_empty, append-nil, sym, Option,
  none, some, ltb, text_eq, inl, inr, Bool-cases, Option-cases, arith,
}
use mathlib.Core.Path.{subst, ap}
use triviabot.Text.{Text, ascii}
use triviabot.Settings.{GuildSettings}
use triviabot.Game.State.{State}
use triviabot.VoteHint.{
  Vote, Reply, noround, waitabit, notvoted, nomorehints, hint, Result, give_hint, compose_hint,
  can_hint, votehint_call, personal_hint,
}

abbrev pub is_given : Reply → ℕ
is_given noround = 0
is_given waitabit = 0
is_given notvoted = 0
is_given nomorehints = 0
is_given (hint personal left hours mins) = 1

-- The row of the vote after a call has written to it.
abbrev pub after_call : Option ℕ → Vote → Vote
after_call none vote = vote
after_call (some n) vote = record vote { dm_hints = n }

-- What one call of a user with a vote comes to.
abbrev pub Spends : Vote → Option Result → Type 0
Spends vote none = Unit {0}
Spends vote (some r) = (after_call r.written vote).dm_hints + is_given r.reply ≡ vote.dm_hints

compose_hint-Spends :
    (towlower : ℕ → ℕ) (s : GuildSettings) (answer : Text) (vote : Vote)
    → Spends vote (compose_hint towlower s answer (some vote))
unfolding compose_hint give_hint
compose_hint-Spends towlower s answer vote = elim (Bool-cases (ltb vote.dm_hints 1)) [
  | inl e ↦ rw (e, compose_hint) (omega arith)
  | inr e ↦ elim (Option-cases (personal_hint towlower (text_eq s.language (ascii "es")) answer)) [
    | inl threw ↦ rw (e, threw, compose_hint) tt
    | inr (personal, given) ↦ rw (e, given, compose_hint) (ground arith)
  ]
]

votehint_call-Spends :
    (towlower : ℕ → ℕ) (s : GuildSettings) (game : Option State) (vote : Vote)
    → Spends vote (votehint_call towlower s game (some vote))
unfolding votehint_call
votehint_call-Spends towlower s none vote = omega arith
votehint_call-Spends towlower s (some g) vote = elim (Bool-cases (can_hint s g)) [
  | inl e ↦ rw (e, votehint_call) (compose_hint-Spends towlower s g.question.answer vote)
  | inr e ↦ rw (e, votehint_call) (omega arith)
]

spent :
    (vote : Vote) (o : Option Result) (r : Result)
    → Spends vote o
    → o ≡ some r
    → Spends vote (some r)
spent vote none r h e = absurd (cc)
spent vote (some r') r h e = subst (Spends vote) e h

-- What a call has the background write to `dm_hints`.
abbrev pub writes : Option ℕ → List ℕ
writes none = []
writes (some n) = n ∷ []

-- Calls of one user while the vote is good, each of which finds a game or none and reads the number in
-- the table, and the writes that wait for the thread of the background queries, which runs them in
-- their order. It is calm as long as no call is made while a write waits.
pub data Calls (towlower : ℕ → ℕ) (first : ℕ)
    : (calm : Bool) → (given hints : ℕ) → (waiting : List ℕ) → Type 0 where
  none_yet : Calls towlower first true 0 first []
  threw :
      {calm : Bool} {given hints : ℕ} {waiting : List ℕ}
      → Calls towlower first calm given hints waiting
      → (s : GuildSettings) (game : Option State) (vote : Vote) → vote.dm_hints ≡ hints
      → votehint_call towlower s game (some vote) ≡ none
      → Calls towlower first (calm && is_empty waiting) given hints waiting
  answered :
      {calm : Bool} {given hints : ℕ} {waiting : List ℕ}
      → Calls towlower first calm given hints waiting
      → (s : GuildSettings) (game : Option State) (vote : Vote) (r : Result) → vote.dm_hints ≡ hints
      → votehint_call towlower s game (some vote) ≡ some r
      → Calls towlower first
          (calm && is_empty waiting)
          (given + is_given r.reply)
          hints
          (waiting ++ writes r.written)
  written :
      {calm : Bool} {given hints w : ℕ} {waiting : List ℕ}
      → Calls towlower first calm given hints (w ∷ waiting)
      → Calls towlower first calm given w waiting

-- The number in the table when all that waits has been written.
abbrev pub left : (hints : ℕ) → (waiting : List ℕ) → ℕ
left hints [] = hints
left hints (w ∷ waiting) = left w waiting

record IsKept (first : ℕ) (calm : Bool) (given hints : ℕ) (waiting : List ℕ) : Type 0 where
  low : All (λ n. first ≤ given + n) (hints ∷ waiting)
  exact : calm ≡ true → given + left hints waiting ≡ first

given_more :
    (first given more : ℕ) (ns : List ℕ)
    → All (λ n. first ≤ given + n) ns
    → All (λ n. first ≤ given + more + n) ns
given_more first given more [] a = tt
given_more first given more (n ∷ ns) (h, a) = (omega (arith, h), given_more first given more ns a)

All-append :
    (first given : ℕ) (ns ms : List ℕ)
    → All (λ n. first ≤ given + n) ns
    → All (λ n. first ≤ given + n) ms
    → All (λ n. first ≤ given + n) (ns ++ ms)
All-append first given [] ms a b = b
All-append first given (n ∷ ns) ms (h, a) b = (h, All-append first given ns ms a b)

calm_more :
    (calm : Bool) (given hints : ℕ) (waiting : List ℕ) (more first : ℕ)
    → (calm ≡ true → given + left hints waiting ≡ first)
    → more ≡ 0
    → calm && is_empty waiting ≡ true
    → given + more + left hints waiting ≡ first
calm_more calm given hints waiting more first exact nothing quiet =
    omega (arith, exact (ground (arith, quiet)), nothing)

calm_written :
    (calm : Bool) (given hints : ℕ) (waiting : List ℕ) (more first n : ℕ)
    → (calm ≡ true → given + left hints waiting ≡ first)
    → n + more ≡ hints
    → calm && is_empty waiting ≡ true
    → given + more + left hints (waiting ++ n ∷ []) ≡ first
calm_written calm given hints [] more first n exact spends quiet =
    omega (arith, exact (ground (arith, quiet)), spends)
calm_written calm given hints (w ∷ waiting) more first n exact spends quiet =
    absurd (ground (arith, quiet))

answer-IsKept :
    (first : ℕ) (calm : Bool) (given hints : ℕ) (waiting : List ℕ) (vote : Vote) (more : ℕ)
    → (wrote : Option ℕ) → IsKept first calm given hints waiting
    → vote.dm_hints ≡ hints
    → (after_call wrote vote).dm_hints + more ≡ vote.dm_hints
    → IsKept first (calm && is_empty waiting) (given + more) hints (waiting ++ writes wrote)
answer-IsKept first calm given hints waiting vote more none k read spends = record {
  low =
      subst (All (λ n. first ≤ given + more + n)) {x = hints ∷ waiting}
        {y = hints ∷ (waiting ++ [])} (ap (λ l. hints ∷ l) (sym (append-nil waiting)))
        (given_more first given more (hints ∷ waiting) k.low);
  exact = λ quiet.
      subst (λ l. given + more + left hints l ≡ first) {x = waiting} {y = waiting ++ []}
        (sym (append-nil waiting))
        (calm_more calm given hints waiting more first k.exact (omega (arith, spends)) quiet);
}
answer-IsKept first calm given hints waiting vote more (some n) k read spends = record {
  low =
      All-append first (given + more) (hints ∷ waiting) (n ∷ [])
        (given_more first given more (hints ∷ waiting) k.low)
        (omega (arith, k.low.0, spends, read), tt);
  exact = λ quiet.
      calm_written calm given hints waiting more first n k.exact (omega (arith, spends, read))
        quiet;
}

Calls-IsKept :
    {towlower : ℕ → ℕ} {first : ℕ} {calm : Bool} {given hints : ℕ} {waiting : List ℕ}
    → Calls towlower first calm given hints waiting
    → IsKept first calm given hints waiting
Calls-IsKept none_yet = record { low = (omega arith, tt); exact = λ e. omega arith }
Calls-IsKept (threw {calm} {given} {hints} {waiting} c s game vote read e) =
    let k = Calls-IsKept c in
    record { low = k.low; exact = λ quiet. k.exact (ground (arith, quiet)) }
Calls-IsKept {towlower} {first} (answered {calm} {given} {hints} {waiting} c s game vote r read e) =
    answer-IsKept first calm given hints waiting vote (is_given r.reply) r.written (Calls-IsKept c)
      read
      (spent vote (votehint_call towlower s game (some vote)) r
        (votehint_call-Spends towlower s game vote) e)
Calls-IsKept (written {calm} {given} {hints} {w} {waiting} c) =
    let k = Calls-IsKept c in record { low = k.low.1; exact = k.exact }

-- However often a user asks, in whatever games and guilds, and whenever the writes of the calls reach
-- the table: the hints that they have been given with a vote and those that the table has left are,
-- together, never fewer than the hints of the vote; and as long as no call is made while a write
-- waits, those given and those left when all is written are exactly the hints of the vote.
pub votehints_conserved :
    {towlower : ℕ → ℕ} {first : ℕ} {calm : Bool} {given hints : ℕ} {waiting : List ℕ}
    → Calls towlower first calm given hints waiting
    → (first ≤ given + hints) × (calm ≡ true → given + left hints waiting ≡ first)
votehints_conserved c = let k = Calls-IsKept c in (k.low.0, k.exact)
