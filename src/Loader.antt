-- ===== src/Loader.antt =====
-- ModuleLoader of src/modules.cpp, and the macro FOREACH_MOD of include/sporks/modules.h: modules are
-- loaded and unloaded, and events are passed to those that have attached to them.
pub mod Handlers
pub mod Invariant
pub mod Live
use triviabot.Common.{
  ℕ, ◌+◌, Bool, true, false, ◌&&◌, ◌||◌, not, List, [], ◌∷◌, ◌++◌, Option, none, some, ◌==◌,
  if◌then◌else◌,
}
use triviabot.Common.TextMap.{at, put, erase_at}
use triviabot.Text.{Text, ascii}

-- `std::find` on a vector of modules; a module is a number, that of its object.
unfoldable pub mem : ℕ → List ℕ → Bool
mem a [] = false
mem a (x ∷ xs) = x == a || mem a xs

unfoldable pub erase_first : ℕ → List ℕ → List ℕ
erase_first a [] = []
erase_first a (x ∷ xs) = let rest = x ∷ erase_first a xs in if x == a then xs else rest

-- EventHandlers.
abbrev pub Handlers : Type 0
Handlers = ℕ → List ℕ

unfoldable pub with_event : ℕ → List ℕ → Handlers → Handlers
with_event n mods handlers j = if n == j then mods else handlers j

unfoldable pub attach : List ℕ → (mod_ : ℕ) → Handlers → Handlers
unfolding mem with_event
attach [] mod_ handlers = handlers
attach (n ∷ i) mod_ handlers =
    attach i mod_
      (if mem mod_ (handlers n) then handlers else with_event n (handlers n ++ mod_ ∷ []) handlers)

unfoldable pub detach : List ℕ → (mod_ : ℕ) → Handlers → Handlers
unfolding erase_first with_event
detach [] mod_ handlers = handlers
detach (n ∷ i) mod_ handlers = detach i mod_ (with_event n (erase_first mod_ (handlers n)) handlers)

-- From I_BEGIN to the one before I_END.
abbrev pub all_events : List ℕ
all_events = 0 ∷ 1 ∷ 2 ∷ 3 ∷ 4 ∷ 5 ∷ 6 ∷ 7 ∷ 8 ∷ 9 ∷ 10 ∷ 11 ∷ 12 ∷ 13 ∷ []

-- Modules and ModuleList, which hold the object of a loaded file; the handlers; and the last error.
pub record Loader : Type 0 where
  pub modules : List (Text × ℕ)
  pub module_list : List (Text × ℕ)
  pub handlers : Handlers
  pub lasterror : Text

-- What the dynamic linker and the module's own init_module give: the file cannot be opened, has no
-- such symbol, gives no valid object, or gives an object that has attached to some events; or the
-- constructor of the object throws, behind attaching it to some events.
pub data Linked : Type 0 where
  cannot_open : (dlerror : Text) → Linked
  no_symbol : (dlerror : Text) → Linked
  no_object : Linked
  object : (mod_ : ℕ) → (attached : List ℕ) → Linked
  threw : (mod_ : ℕ) → (attached : List ℕ) → Linked

unfoldable pub failed : Text → Loader → Loader
failed err l = record l { lasterror = err }

-- `none` where an exception leaves Load.
unfoldable pub load_linked : (filename : Text) → Linked → Loader → Option Bool × Loader
unfolding failed
load_linked filename (cannot_open err) l = (some false, failed err l)
load_linked filename (no_symbol err) l = (some false, failed err l)
load_linked filename no_object l =
    (some false, failed (ascii "Not a module (symbol init_module not found)") l)
load_linked filename (threw mod_ attached) l =
    (none, record l { handlers = attach attached mod_ l.handlers })
load_linked filename (object mod_ attached) l = (
  some true,
  record {
    modules = put filename mod_ l.modules;
    module_list = put filename mod_ l.module_list;
    handlers = attach attached mod_ l.handlers;
    lasterror = [];
  },
)

unfoldable pub load : (filename : Text) → Linked → Loader → Option Bool × Loader
load filename linked l = elim (at filename l.modules) [
  | none ↦ load_linked filename linked l
  | some mod_ ↦ (some false, failed (ascii "Module already loaded!") l)
]

unfoldable pub unload : (filename : Text) → Loader → Bool × Loader
unload filename l = elim (at filename l.modules) [
  | none ↦ (false, failed (ascii "Module is not loaded") l)
  | some mod_ ↦ (
    true,
    record l {
      modules = erase_at filename l.modules;
      module_list = erase_at filename l.module_list;
      handlers = detach all_events mod_ l.handlers;
    },
  )
]

unfoldable pub reload : (filename : Text) → Linked → Loader → Option Bool × Loader
reload filename linked l =
    let (done, l') = unload filename l in if done then load filename linked l' else (some false, l')

-- What a module does with an event: it returns whether the next one gets it too, or throws.
pub data Handled : Type 0 where
  returns : Bool → Handled
  throws : Handled

-- FOREACH_MOD over the copy of the handlers: the modules that are called, in order.
unfoldable pub foreach_mod : (ℕ → Handled) → List ℕ → List ℕ
foreach_mod call [] = []
foreach_mod call (mod_ ∷ mods) =
    let rest = mod_ ∷ foreach_mod call mods in
    elim (call mod_) [ returns go_on ↦ if go_on then rest else mod_ ∷ [] | throws ↦ rest ]
