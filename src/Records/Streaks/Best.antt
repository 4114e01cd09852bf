-- ===== src/Records/Streaks/Best.antt =====
-- A streak that is written is read back, and counts for the best of the guild.
use triviabot.Common.{
  ℕ, ◌≤◌, ◌≡◌, ◌≢◌, refl, ap, sym, ◌∙◌, false, ◌&&◌, List, [], ◌∷◌, Option, none, some, ltb, ◌==◌,
  if◌then◌else◌, keep, inl, inr, Bool-cases, arith,
}
use triviabot.Records.Streaks.{
  Row, is_row_of, change_streak, best, first, on_guild, as_uint32, personal_best, streak_of,
  get_streak,
}

first-keep-change_streak :
    (u g n : ℕ) (rows : List Row)
    → first (keep (is_row_of u g) (change_streak u g n rows))
      ≡ some (record { nick = u; guild_id = g; streak = n })
unfolding first keep is_row_of change_streak
first-keep-change_streak u g n [] = ground arith
first-keep-change_streak u g n (row ∷ rows) = ground (arith, first-keep-change_streak u g n rows)

first-keep-others :
    (u g v h n : ℕ) (rows : List Row)
    → (u == v && g == h) ≡ false
    → first (keep (is_row_of v h) (change_streak u g n rows)) ≡ first (keep (is_row_of v h) rows)
unfolding first keep is_row_of change_streak
first-keep-others u g v h n [] other = ground arith
first-keep-others u g v h n (row ∷ rows) other = ground (arith, first-keep-others u g v h n rows)

-- The best streak of a list of rows.
highest : List Row → ℕ
highest [] = 0
highest (row ∷ rows) = if ltb row.streak (highest rows) then highest rows else row.streak

abbrev Highest : List Row → Option Row → Type 0
Highest rows none = highest rows ≡ 0
Highest rows (some row) = row.streak ≡ highest rows

best-Highest : (rows : List Row) → Highest rows (best rows)
unfolding best highest
best-Highest [] = refl
best-Highest (row ∷ rows) = best_step row rows (best rows) (best-Highest rows)
  where
    best_step :
        (row : Row) (rows : List Row) (top : Option Row)
        → Highest rows top
        → Highest (row ∷ rows) (elim top [
          | none ↦ some row
          | some t ↦ if ltb row.streak t.streak then some t else some row
        ])
    best_step row rows none h = ground arith
    best_step row rows (some t) h = elim (Bool-cases (ltb row.streak t.streak)) [
      | inl e ↦ rw e (ground arith)
      | inr e ↦ rw e (ground arith)
    ]

highest-change_streak :
    (u g n : ℕ) (rows : List Row) → n ≤ highest (on_guild g (change_streak u g n rows))
unfolding highest on_guild keep change_streak is_row_of
highest-change_streak u g n [] = ground arith
highest-change_streak u g n (row ∷ rows) = ground (arith, highest-change_streak u g n rows)

on_guild-others :
    (u g h n : ℕ) (rows : List Row)
    → g ≢ h
    → on_guild h (change_streak u g n rows) ≡ on_guild h rows
unfolding on_guild keep change_streak is_row_of
on_guild-others u g h n [] other = ground arith
on_guild-others u g h n (row ∷ rows) other = ground (arith, on_guild-others u g h n rows other)

bigstreak-le :
    (n : ℕ) (own top : Option Row) (rows : List Row)
    → n ≤ highest rows
    → Highest rows top
    → as_uint32 n ≤ (streak_of own top).bigstreak
unfolding streak_of as_uint32
bigstreak-le n own none rows le h = ground arith
bigstreak-le n own (some row) rows le h = ground arith

personal-streak_of : (own top : Option Row) → (streak_of own top).personalbest ≡ personal_best own
unfolding streak_of
personal-streak_of own none = refl
personal-streak_of own (some row) = refl

-- A streak that is written is read back as the user's personal best on the guild, up to the 32 bits
-- that the reader has; the best of the guild is then no less; the personal bests of other users and on
-- other guilds stay, and so does all that is read on another guild.
get_streak-change_streak :
    (u g n : ℕ) (rows : List Row)
    → ((get_streak u g (change_streak u g n rows)).personalbest
        ≡ (if ltb n 4294967296 then n else 4294967295))
      × ((get_streak u g (change_streak u g n rows)).personalbest
          ≤ (get_streak u g (change_streak u g n rows)).bigstreak)
      × ((v h : ℕ)
          → (u == v && g == h) ≡ false
          → (get_streak v h (change_streak u g n rows)).personalbest
            ≡ (get_streak v h rows).personalbest)
      × ((v h : ℕ) → g ≢ h → get_streak v h (change_streak u g n rows) ≡ get_streak v h rows)
unfolding get_streak personal_best as_uint32
get_streak-change_streak u g n rows =
    let own = first-keep-change_streak u g n rows in
    let after = change_streak u g n rows in
    let mine = first (keep (is_row_of u g) after) in
    let guild = best (on_guild g after) in
    let read = personal-streak_of mine guild ∙ ap personal_best own in
    (
      read,
      rw read (
          bigstreak-le n mine guild (on_guild g after) (highest-change_streak u g n rows)
            (best-Highest (on_guild g after))),
      λ v h other.
          personal-streak_of (first (keep (is_row_of v h) after)) (best (on_guild h after))
          ∙ ap personal_best (first-keep-others u g v h n rows other)
          ∙ sym (personal-streak_of (first (keep (is_row_of v h) rows)) (best (on_guild h rows))),
      λ v h ne.
          let other : (u == v && g == h) ≡ false = ground arith in
          ap (λ o. streak_of o (best (on_guild h after))) (first-keep-others u g v h n rows other)
          ∙ ap (λ l. streak_of (first (keep (is_row_of v h) rows)) (best l))
              (on_guild-others u g h n rows ne),
    )
