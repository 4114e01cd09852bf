-- ===== src/Menu/Choices.antt =====
-- A choice leaves the menus sound, if it is of a number that was offered.
use triviabot.Common.{
  ℕ, ◌≡◌, refl, sym, ◌∙◌, Bool, true, List, [], Option, none, some, leb, ◌==◌, inl, inr,
  Option-cases, Bool-cases, ◌⊎◌, lookup, arith,
}
use mathlib.Core.Path.{subst}
use triviabot.Text.{Text}
use triviabot.Game.Counting.{Distinct, add_key-Distinct}
use triviabot.Game.Rounds.{add_key}
use triviabot.Start.{member}
use triviabot.Menu.{
  InFlight, ActiveMenus, offered, Effect, Choice, choose, after_choice, select_click,
}
use triviabot.Menu.Offers.{offered-between}
use triviabot.Menu.Sound.{IsPossible, IsSound, AreSound, lookup-Sound, insert-Sound}

-- A choice of a number that some menu has offered, of whatever type and in whatever guild, or of 0,
-- which a menu with nothing chosen shows when its page is turned.
abbrev pub IsOffered : Option Choice → Type 0
IsOffered j =
    (choice : Choice) (q : ℕ)
    → j ≡ some choice
    → choice.questions ≡ some q
    → (q ≡ 0) ⊎ ((premium : Bool) × (type : Text) × (member q (offered premium type) ≡ true))

offered-IsPossible :
    (j : Option Choice) (choice : Choice) (q : ℕ)
    → IsOffered j
    → j ≡ some choice
    → choice.questions ≡ some q
    → IsPossible q
offered-IsPossible j choice q offers e f = elim (offers choice q e f) [
  | inl nothing ↦ inl nothing
  | inr (premium, type, m) ↦ inr (offered-between premium type q m)
]

chosen-Sound :
    (user : ℕ) (names : List Text) (i : InFlight) (menus : ActiveMenus)
    → Distinct i.categories
    → IsPossible i.questions
    → AreSound menus
    → AreSound (after_choice user names i menus).1
unfolding after_choice
chosen-Sound user names i menus d m a = elim (Bool-cases (leb i.state 1)) [
  | inl e ↦ rw e (insert-Sound user _ menus (record { distinct = d; chosen = m }) a)
  | inr e ↦ rw e (insert-Sound user i menus (record { distinct = d; chosen = m }) a)
]

abbrev Fits : InFlight → Type 0
Fits i = Distinct i.categories × IsPossible i.questions

same_menu : (i j : InFlight) → Option.some i ≡ some j → Fits i → Fits j
same_menu i j e f = subst Fits {x = i} {y = j} (ground (arith, e)) f

add_choice :
    (n : ℕ) (page : Option ℕ) (category : Option Text) (i chosen : InFlight)
    → IsSound i
    → IsPossible n
    → (elim category [
      | none ↦ none
      | some c ↦ elim page [
        | none ↦ none
        | some p ↦ some (record i { questions = n; page = p; categories = add_key c i.categories })
      ]
    ])
      ≡ some chosen
    → Fits chosen
add_choice n page none i chosen s m e = ground arith
add_choice n none (some c) i chosen s m e = ground arith
add_choice n (some p) (some c) i chosen s m e =
    same_menu (record i { questions = n; page = p; categories = add_key c i.categories }) chosen e
      (add_key-Distinct c i.categories s.distinct, m)

-- A choice is taken with its number; a category that is added differs from those chosen before.
choose-Fits :
    (q page : Option ℕ) (type category : Option Text) (i chosen : InFlight)
    → IsSound i
    → ((n : ℕ) → q ≡ some n → IsPossible n)
    → choose (record { questions = q; type = type; category = category; page = page }) i
      ≡ some chosen
    → Fits chosen
unfolding choose
choose-Fits none page type category i chosen s m e = ground arith
choose-Fits (some n) page none category i chosen s m e = ground arith
choose-Fits (some n) page (some type) category i chosen s m e = elim (Bool-cases (i.state == 1)) [
  | inr first ↦
      same_menu (record i { questions = n }) chosen (sym (rw first refl) ∙ e) (s.distinct, m n refl)
  | inl more ↦ add_choice n page category i chosen s (m n refl) (sym (rw more refl) ∙ e)
]

same_result :
    (r result : List Effect × ActiveMenus)
    → Option.some r ≡ some result
    → AreSound r.1
    → AreSound result.1
same_result r result e a =
    subst (λ (t : List Effect × ActiveMenus). AreSound t.1) {x = r} {y = result} (ground (arith, e))
      a

-- What select_click does with the menu that it finds.
selected-Sound :
    (user : ℕ) (names : List Text) (found : Option InFlight) (j : Option Choice)
    (menus : ActiveMenus)
    → (result : List Effect × ActiveMenus) → ((i : InFlight) → found ≡ some i → IsSound i)
    → IsOffered j
    → AreSound menus
    → elim found as (λ f. Option (List Effect × ActiveMenus)) [
      | none ↦ some ([], menus)
      | some i ↦ elim j [
        | none ↦ none
        | some choice ↦ elim (choose choice i) [
          | none ↦ none
          | some chosen ↦ some (after_choice user names chosen menus)
        ]
      ]
    ]
      ≡ some result
    → AreSound result.1
selected-Sound user names none j menus result s offers a e = same_result ([], menus) result e a
selected-Sound user names (some i) none menus result s offers a e = ground arith
selected-Sound user names (some i) (some choice) menus result s offers a e =
    elim (Option-cases (choose choice i)) [
      | inl bad ↦ ground (arith, bad)
      | inr (chosen, good) ↦
          let (d, m) =
            choose-Fits choice.questions choice.page choice.type choice.category i chosen (s i refl)
              (λ n q. offered-IsPossible (some choice) choice n offers refl q) good in
          same_result (after_choice user names chosen menus) result (sym (rw good refl) ∙ e)
            (chosen-Sound user names chosen menus d m a)
    ]

pub select_click-Sound :
    (user : ℕ) (names : List Text) (j : Option Choice) (menus : ActiveMenus)
    → (result : List Effect × ActiveMenus) → IsOffered j
    → AreSound menus
    → select_click user names j menus ≡ some result
    → AreSound result.1
unfolding select_click
select_click-Sound user names j menus result offers a e =
    selected-Sound user names (lookup user menus) j menus result
      (λ i there. lookup-Sound user menus i a there) offers a e
