-- ===== src/Menu.antt =====
-- The interactive start of a game: modules/trivia/cmd_context_start.cpp.
pub mod Offers
pub mod Pages
pub mod Quotient
pub mod Sound
pub mod Choices
pub mod Steps
pub mod Command
use triviabot.Common.{
  ℕ, zero, suc, ◌+◌, ◌-◌, ◌*◌, ◌^◌, ◌%◌, ◌||◌, ◌/◌, Bool, true, false, ◌&&◌, not, List, [], ◌∷◌,
  ◌++◌, Option, none, some, if◌then◌else◌, is_empty, length, keep, text_eq, ltb, leb, ◌==◌, u32,
  sub32, lookup, insert, erase,
}
use triviabot.Game.Rounds.{add_key}
use triviabot.Text.{Text, ascii, take, drop, ltrim, lowercase, next_word, read_digits, to_string}

-- in_flight. The page is an int, here as the uint32_t that it is computed with.
pub record InFlight : Type 0 where
  pub state : ℕ
  pub token : Text
  pub categories : List Text
  pub page : ℕ
  pub type : Text
  pub creation : ℕ
  pub questions : ℕ

-- active_menus, by user.
abbrev pub ActiveMenus : Type 0
ActiveMenus = List (ℕ × InFlight)

-- save_active_menu: menus that are five minutes old go.
unfoldable pub is_fresh : (now : ℕ) → ℕ × InFlight → Bool
is_fresh now (user, i) = not (leb (i.creation + 300) now)

unfoldable pub save_active_menu : (now user : ℕ) → InFlight → ActiveMenus → ActiveMenus
save_active_menu now user i menus = insert user i (keep (is_fresh now) menus)

-- The numbers of questions that are offered, on fuel.
unfoldable pub option_loop : (fuel step max_questions i : ℕ) → List ℕ
option_loop zero step max_questions i = []
option_loop (suc fuel) step max_questions i =
    let j = if i == 197 then 200 else i in
    let rest = option_loop fuel step max_questions (j + step) in
    if leb i max_questions then j ∷ rest else []

unfoldable pub options_to : (max_questions : ℕ) → List ℕ
options_to max_questions =
    option_loop max_questions (if ltb max_questions 25 then 1 else max_questions / 25) max_questions
      5

unfoldable pub max_questions : (premium : Bool) → (round_type : Text) → ℕ
max_questions premium round_type =
    if text_eq round_type (ascii "quickfire") then (if premium then 200 else 15) else 200

unfoldable pub offered : (premium : Bool) → (round_type : Text) → List ℕ
offered premium round_type = options_to (max_questions premium round_type)

unfoldable pub real_interaction_token : Text → Text
real_interaction_token token =
    if text_eq (take 9 token) (ascii "EPHEMERAL") then drop 9 token else token

-- The second word of the tokens, in lower case, or nothing.
unfoldable pub round_type : (tokens : Text) → Text
round_type tokens = elim (next_word tokens) [
  | none ↦ []
  | some (dummy, rest) ↦ elim (next_word rest) [ none ↦ [] | some (word, more) ↦ lowercase word ]
]

-- SQL's LIMIT: the rows behind the first ones, and so many of them.
unfoldable pub skip_rows : ℕ → List Text → List Text
skip_rows zero rows = rows
skip_rows (suc n) [] = []
skip_rows (suc n) (row ∷ rows) = skip_rows n rows

unfoldable pub first_rows : ℕ → List Text → List Text
first_rows zero rows = []
first_rows (suc n) [] = []
first_rows (suc n) (row ∷ rows) = row ∷ first_rows n rows

-- A quotient, rounded to the nearest number, and to the even one of two.
unfoldable pub rounded : (num den : ℕ) → ℕ
rounded num den =
    let q = num / den in
    let r = num % den in if ltb (2 * r) den || (2 * r == den && q % 2 == 0) then q else q + 1

-- How often a divisor is doubled until a quotient has 24 bits, and how often a dividend can be doubled
-- while it has.
unfoldable pub too_wide : (fuel num den : ℕ) → ℕ
too_wide zero num den = 0
too_wide (suc fuel) num den =
    let more = too_wide fuel num (den * 2) in if ltb num (den * 16777216) then 0 else more + 1

unfoldable pub too_narrow : (fuel num den : ℕ) → ℕ
too_narrow zero num den = 0
too_narrow (suc fuel) num den =
    let more = too_narrow fuel (num * 2) den in
    if ltb (num * 2) (den * 16777216) then more + 1 else 0

-- A size_t as a float, whose value is whole.
unfoldable pub to_float : ℕ → ℕ
to_float n = let scale = 2 ^ too_wide 64 n 1 in rounded n scale * scale

-- `ceil` of the quotient of two whole floats as a float. A quotient below 2 ^ 24 has bits behind the
-- point; no more than 32 are needed, since the dividend is 0 or at least 1.
unfoldable pub ceil_quotient : (num den : ℕ) → ℕ
ceil_quotient num den =
    if ltb num (den * 16777216)
    then (let scale = 2 ^ too_narrow 32 num den in
        (rounded (num * scale) den + (scale - 1)) / scale)
    else (let scale = 2 ^ too_wide 64 num den in rounded num (den * scale) * scale)

-- `ceil((float)rows / (float)length)`, as a uint32_t.
unfoldable pub pages : (names : List Text) → ℕ
pages names = u32 (ceil_quotient (to_float (length names)) 25)

unfoldable pub page_rows : (page : ℕ) → (names : List Text) → List Text
page_rows page names = first_rows 25 (skip_rows (u32 (sub32 page 1 * 25)) names)

-- What a click comes to: the message of the menu is shown again, with the categories that are chosen
-- and those to choose from; a command is handled; or the menu ends.
pub data Effect : Type 0 where
  asked : (token : Text) → (options : List ℕ) → Effect
  refreshed :
      (token type : Text)
      → (questions : ℕ) → (categories : List Text) → (pages : ℕ) → (options : List Text) → Effect
  handled : (msg : Text) → Effect
  game_started : (token type : Text) → Effect
  game_cancelled : (token type : Text) → Effect

-- RefreshMessage; `names` are the categories that are not disabled, in their order.
unfoldable pub refresh_message : (names : List Text) → InFlight → Effect
refresh_message names i =
    refreshed i.token i.type i.questions i.categories (pages names) (page_rows i.page names)

-- command_context_user_t::call
unfoldable pub call :
    (now : ℕ)
    → (premium : Bool) → (user : ℕ) → (interaction_token tokens : Text) → ActiveMenus
    → List Effect × ActiveMenus
call now premium user interaction_token tokens menus =
    let token = real_interaction_token interaction_token in
    let type = round_type tokens in
    (
      asked token (offered premium type) ∷ [],
      save_active_menu now user
          (record {
            state = 0;
            token = token;
            categories = [];
            page = 1;
            type = type;
            creation = now;
            questions = 0;
          })
          menus,
    )

unfoldable pub command_name : (type : Text) → Text
command_name type = if text_eq type (ascii "normal") then ascii "start" else type

unfoldable pub category_list : List Text → Text
category_list [] = []
category_list (c ∷ categories) = c ++ 59 ∷ category_list categories

-- The command of the button "start".
unfoldable pub start_message : InFlight → Text
start_message i =
    let msg =
      command_name i.type ++ 32 ∷ (to_string i.questions ++ 32 ∷ category_list i.categories) in
    take (length msg - 1) msg

unfoldable pub begins_with_digit : Text → Bool
begins_with_digit [] = false
begins_with_digit (c ∷ s) = leb 48 c && leb c 57

-- `std::stoi`, as a uint32_t; `none` where it throws.
unfoldable pub stoi : Text → Option ℕ
stoi s = elim (ltrim s) [
  | [] ↦ none
  | c ∷ t ↦
      let digits = if c == 45 then t else if c == 43 then t else c ∷ t in
      let n = read_digits 0 digits in
      if not (begins_with_digit digits)
      then none
      else if c == 45
      then (if leb n 2147483648 then some (u32 (4294967296 - n)) else none)
      else (if ltb n 2147483648 then some n else none)
]

-- button_click on the menu of the user who clicks.
unfoldable pub click_menu :
    (now user : ℕ)
    → (names : List Text) → (msg : Text) → InFlight
    → ActiveMenus
    → List Effect × ActiveMenus
click_menu now user names msg i menus =
    if text_eq msg (ascii "start")
    then (handled (start_message i) ∷ game_started i.token i.type ∷ [], erase user menus)
    else if text_eq msg (ascii "cancel")
    then (game_cancelled i.token i.type ∷ [], erase user menus)
    else elim (stoi msg) [
      | none ↦ ([], save_active_menu now user i menus)
      | some page ↦
          let turned : InFlight = record i { page = page } in
          (refresh_message names turned ∷ [], save_active_menu now user turned menus)
    ]

unfoldable pub button_click :
    (now user : ℕ) → (names : List Text) → (msg : Text) → ActiveMenus → List Effect × ActiveMenus
button_click now user names msg menus = elim (lookup user menus) [
  | none ↦ ([], menus)
  | some i ↦ click_menu now user names msg i menus
]

-- The members of the JSON object of an option; `none` where one is missing or of another type.
pub record Choice : Type 0 where
  pub questions : Option ℕ
  pub type : Option Text
  pub category : Option Text
  pub page : Option ℕ

-- What the choice makes of a menu, before its state is set; `none` where `at` throws.
unfoldable pub choose : Choice → InFlight → Option InFlight
choose j i = elim j.questions [
  | none ↦ none
  | some questions ↦ elim j.type [
    | none ↦ none
    | some type ↦
        if i.state == 1
        then elim j.category [
          | none ↦ none
          | some category ↦ elim j.page [
            | none ↦ none
            | some page ↦ some (record i {
              questions = questions;
              page = page;
              categories = add_key category i.categories;
            })
          ]
        ]
        else some (record i { questions = questions })
  ]
]

-- The switch shows the menu in the states 0 and 1, which it leaves in state 1.
unfoldable pub after_choice :
    (user : ℕ) → (names : List Text) → InFlight → ActiveMenus → List Effect × ActiveMenus
after_choice user names i menus =
    if leb i.state 1
    then (refresh_message names i ∷ [], insert user (record i { state = 1 }) menus)
    else ([], insert user i menus)

-- select_click; `none` where an exception leaves it. `j` is `none` where the text is no JSON.
unfoldable pub select_click :
    (user : ℕ)
    → (names : List Text) → (j : Option Choice) → ActiveMenus
    → Option (List Effect × ActiveMenus)
select_click user names j menus = elim (lookup user menus) [
  | none ↦ some ([], menus)
  | some i ↦ elim j [
    | none ↦ none
    | some choice ↦ elim (choose choice i) [
      | none ↦ none
      | some chosen ↦ some (after_choice user names chosen menus)
    ]
  ]
]
