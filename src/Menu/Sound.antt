-- ===== src/Menu/Sound.antt =====
-- Menus that are sound stay so, whatever their users do.
use triviabot.Common.{
  ℕ, ◌≤◌, ◌≡◌, refl, Bool, List, [], ◌∷◌, Option, none, some, keep, text_eq, ◌==◌, inl, inr, ◌⊎◌,
  Bool-cases, Option-cases, lookup, insert, erase, lookup-insert, lookup-erase, arith,
}
use mathlib.Core.Path.{subst}
use triviabot.Text.{Text, ascii}
use triviabot.Game.Counting.{Distinct}
use triviabot.Menu.{
  InFlight, ActiveMenus, is_fresh, save_active_menu, Effect, call, click_menu, button_click, stoi,
}

-- Nothing chosen, or a number that menus offer, in guilds with premium or without.
abbrev pub IsPossible : (n : ℕ) → Type 0
IsPossible n = (n ≡ 0) ⊎ ((5 ≤ n) × (n ≤ 200))

-- A menu has a possible number, and categories that differ.
pub record IsSound (i : InFlight) : Type 0 where
  pub distinct : Distinct i.categories
  pub chosen : IsPossible i.questions

-- The menus are sound, and each user has one at most.
abbrev pub AreSound : ActiveMenus → Type 0
AreSound [] = Unit {0}
AreSound ((user, i) ∷ menus) = IsSound i × (lookup user menus ≡ none) × AreSound menus

pub lookup-Sound :
    (user : ℕ) (menus : ActiveMenus) (i : InFlight)
    → AreSound menus
    → lookup user menus ≡ some i
    → IsSound i
unfolding lookup
lookup-Sound user [] i a e = ground arith
lookup-Sound user ((at, h) ∷ menus) i (s, n, a) e = elim (Bool-cases (at == user)) [
  | inl same ↦ subst IsSound (ground (arith, same, e)) s
  | inr other ↦ lookup-Sound user menus i a (ground (arith, other, e))
]

pub insert-Sound :
    (user : ℕ) (i : InFlight) (menus : ActiveMenus)
    → IsSound i
    → AreSound menus
    → AreSound (insert user i menus)
unfolding insert lookup
insert-Sound user i [] s a = (s, refl, tt)
insert-Sound user i ((at, h) ∷ menus) s (t, n, a) = elim (Bool-cases (at == user)) [
  | inl same ↦ rw same (s, ground (arith, same, n), a)
  | inr other ↦
      rw other
        (t, ground (arith, other, n, lookup-insert user at i menus), insert-Sound user i menus s a)
]

erase-Sound : (user : ℕ) (menus : ActiveMenus) → AreSound menus → AreSound (erase user menus)
unfolding erase
erase-Sound user [] a = tt
erase-Sound user ((at, h) ∷ menus) (t, n, a) =
    let rest = erase-Sound user menus a in
    elim (Bool-cases (at == user)) [
      | inl same ↦ rw same rest
      | inr other ↦ rw other (t, ground (arith, n, lookup-erase user at menus), rest)
    ]

keep_missing :
    (now user : ℕ) (menus : ActiveMenus)
    → lookup user menus ≡ none
    → lookup user (keep (is_fresh now) menus) ≡ none
unfolding keep lookup
keep_missing now user [] e = refl
keep_missing now user ((at, h) ∷ menus) e = ground (arith, keep_missing now user menus)

keep-Sound : (now : ℕ) (menus : ActiveMenus) → AreSound menus → AreSound (keep (is_fresh now) menus)
unfolding keep
keep-Sound now [] a = tt
keep-Sound now ((at, h) ∷ menus) (t, n, a) =
    let rest = keep-Sound now menus a in
    elim (Bool-cases (is_fresh now (at, h))) [
      | inl fresh ↦ rw fresh (t, keep_missing now at menus n, rest)
      | inr stale ↦ rw stale rest
    ]

save-Sound :
    (now user : ℕ) (i : InFlight) (menus : ActiveMenus)
    → IsSound i
    → AreSound menus
    → AreSound (save_active_menu now user i menus)
unfolding save_active_menu
save-Sound now user i menus s a =
    insert-Sound user i (keep (is_fresh now) menus) s (keep-Sound now menus a)

pub call-Sound :
    (now : ℕ) (premium : Bool) (user : ℕ) (token tokens : Text) (menus : ActiveMenus)
    → AreSound menus
    → AreSound (call now premium user token tokens menus).1
unfolding call
call-Sound now premium user token tokens menus a =
    save-Sound now user _ menus (record { distinct = tt; chosen = inl refl }) a

-- Turning the page leaves a menu sound.
turned-Sound : (i : InFlight) (page : ℕ) → IsSound i → IsSound (record i { page = page })
turned-Sound i page s = record { distinct = s.distinct; chosen = s.chosen }

click_menu-Sound :
    (now user : ℕ) (names : List Text) (msg : Text) (i : InFlight) (menus : ActiveMenus)
    → IsSound i
    → AreSound menus
    → AreSound (click_menu now user names msg i menus).1
unfolding click_menu
click_menu-Sound now user names msg i menus s a = elim (Bool-cases (text_eq msg (ascii "start"))) [
  | inl start ↦ rw start (erase-Sound user menus a)
  | inr other ↦ elim (Bool-cases (text_eq msg (ascii "cancel"))) [
    | inl cancel ↦ rw (other, cancel) (erase-Sound user menus a)
    | inr number ↦ elim (Option-cases (stoi msg)) [
      | inl bad ↦ rw (other, number, bad) (save-Sound now user i menus s a)
      | inr (page, good) ↦
          rw (other, number, good) (save-Sound now user _ menus (turned-Sound i page s) a)
    ]
  ]
]

clicked-Sound :
    (now user : ℕ) (names : List Text) (msg : Text) (found : Option InFlight) (menus : ActiveMenus)
    → ((i : InFlight) → found ≡ some i → IsSound i)
    → AreSound menus
    → AreSound
        (elim found as (λ f. List Effect × ActiveMenus) [
          | none ↦ ([], menus)
          | some i ↦ click_menu now user names msg i menus
        ]).1
clicked-Sound now user names msg none menus s a = a
clicked-Sound now user names msg (some i) menus s a =
    click_menu-Sound now user names msg i menus (s i refl) a

pub button_click-Sound :
    (now user : ℕ) (names : List Text) (msg : Text) (menus : ActiveMenus)
    → AreSound menus
    → AreSound (button_click now user names msg menus).1
unfolding button_click
button_click-Sound now user names msg menus a =
    clicked-Sound now user names msg (lookup user menus) menus
      (λ i e. lookup-Sound user menus i a e) a
