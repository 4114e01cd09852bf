-- ===== src/Menu/Steps.antt =====
-- The menus of all users over time, and the click that starts a game.
use triviabot.Common.{
  ℕ, ◌≡◌, refl, ◌∙◌, Bool, true, List, [], ◌∷◌, Option, none, some, text_eq, inl, inr, ◌⊎◌, lookup,
  erase, lookup-erase, arith,
}
use triviabot.Text.{Text, ascii}
use triviabot.Game.Counting.{Distinct}
use triviabot.Settings.{GuildSettings}
use triviabot.Start.{StartCmd, is_quickfire, wrong_number}
use triviabot.Menu.{
  InFlight, ActiveMenus, Effect, handled, game_started, call, start_message, click_menu,
  button_click, Choice, select_click,
}
use triviabot.Menu.Sound.{IsPossible, AreSound, lookup-Sound, call-Sound, button_click-Sound}
use triviabot.Menu.Choices.{select_click-Sound, IsOffered}

-- A user asks for a menu, in a guild with premium or without, clicks on a button, or chooses an option
-- that some menu has shown; an exception leaves the menus as they are.
pub data Step : ActiveMenus → ActiveMenus → Type 0 where
  calls :
      (now : ℕ) (premium : Bool) (user : ℕ) (token tokens : Text) (menus : ActiveMenus)
      → Step menus (call now premium user token tokens menus).1
  clicks :
      (now user : ℕ) (names : List Text) (msg : Text) (menus : ActiveMenus)
      → Step menus (button_click now user names msg menus).1
  selects :
      (user : ℕ) (names : List Text) (j : Option Choice) (menus : ActiveMenus)
      → (result : List Effect × ActiveMenus) → IsOffered j
      → select_click user names j menus ≡ some result
      → Step menus result.1

-- The menus that users can come to, from none.
pub data Reach : ActiveMenus → Type 0 where
  no_menus : Reach []
  onward : (before after : ActiveMenus) → Reach before → Step before after → Reach after

Step-Sound : (before after : ActiveMenus) → Step before after → AreSound before → AreSound after
Step-Sound _ _ (calls now premium user token tokens menus) a =
    call-Sound now premium user token tokens menus a
Step-Sound _ _ (clicks now user names msg menus) a = button_click-Sound now user names msg menus a
Step-Sound _ _ (selects user names j menus result offers e) a =
    select_click-Sound user names j menus result offers a e

Reach-Sound : (menus : ActiveMenus) → Reach menus → AreSound menus
Reach-Sound _ no_menus = tt
Reach-Sound _ (onward before after r step) = Step-Sound before after step (Reach-Sound before r)

not_refused :
    (s : GuildSettings) (cmd : StartCmd) (n : ℕ)
    → IsPossible n
    → (is_quickfire cmd ≡ true → s.premium ≡ true)
    → (n ≡ 0) ⊎ (wrong_number s cmd (some n) ≡ none)
unfolding wrong_number
not_refused s cmd n (inl nothing) quick = inl nothing
not_refused s cmd n (inr (low, high)) quick = inr (ground (arith, quick, low, high))

click_start :
    (now user : ℕ) (names : List Text) (i : InFlight) (menus : ActiveMenus)
    → click_menu now user names (ascii "start") i menus
      ≡ (handled (start_message i) ∷ game_started i.token i.type ∷ [], erase user menus)
unfolding click_menu text_eq
click_start now user names i menus = refl

click_found :
    (now user : ℕ) (names : List Text) (msg : Text) (i : InFlight) (menus : ActiveMenus)
    → lookup user menus ≡ some i
    → button_click now user names msg menus ≡ click_menu now user names msg i menus
unfolding button_click
click_found now user names msg i menus there = ground (arith, there)

-- However users have opened menus, in whatever guilds, clicked on buttons, and chosen options that some
-- menu has shown: when one of them clicks on "start", the command of their menu is handled once and the
-- menu is gone; its categories differ; and the start command does not refuse its number of questions,
-- if one has been chosen, in any guild, save that a game of quick fire needs premium there.
pub started :
    (s : GuildSettings) (menus : ActiveMenus) (now user : ℕ) (names : List Text) (i : InFlight)
    → Reach menus
    → lookup user menus ≡ some i
    → (button_click now user names (ascii "start") menus
        ≡ (handled (start_message i) ∷ game_started i.token i.type ∷ [], erase user menus))
      × (lookup user (erase user menus) ≡ none)
      × Distinct i.categories
      × ((cmd : StartCmd)
          → (is_quickfire cmd ≡ true → s.premium ≡ true)
          → (i.questions ≡ 0) ⊎ (wrong_number s cmd (some i.questions) ≡ none))
started s menus now user names i r there =
    let sound = lookup-Sound user menus i (Reach-Sound menus r) there in
    (
      click_found now user names (ascii "start") i menus there ∙ click_start now user names i menus,
      ground (arith, lookup-erase user user menus),
      sound.distinct,
      λ cmd quick. not_refused s cmd i.questions sound.chosen quick,
    )
