-- ===== src/Examples/Loaders.antt =====
-- The module loader and the background queries at concrete ones.
use triviabot.Common.{
  ℕ, ◌≡◌, ◌≢◌, refl, true, false, [], ◌∷◌, ◌++◌, ◌+◌, none, some, arith, text_eq, length,
  if◌then◌else◌,
}
use triviabot.Common.TextMap.{at, put}
use triviabot.Text.{Text, ascii}
use triviabot.Loader.{mem, Loader, Linked, object, load, load_linked, attach, with_event, unload}
use triviabot.Loader.Invariant.{IsNew, IsKnown}
use triviabot.Loader.Handlers.{attached}
use triviabot.Loader.Live.{begin, loads, no_modules, handlers_live, unload_gone}
use triviabot.Database.Background
use triviabot.Database.Background.{
  Background, BackgroundQuery, backgroundquery, bgthread, submit, run, at_once, count_query,
  background_fifo,
}

abbrev file : Text
file = ascii "a.so"

-- A module that listens to messages.
abbrev linked : Linked
linked = object 5 (1 ∷ [])

abbrev with_module : Loader
with_module = (load file linked no_modules).1

is_new : IsNew linked no_modules
unfolding at mem
is_new = (λ f h. cc, λ j h. ground arith)

is_loaded : at file with_module.modules ≡ some 5
unfolding load load_linked at put text_eq
is_loaded = refl

is_attached : mem 5 (with_module.handlers 1) ≡ true
unfolding load load_linked at put text_eq attach with_event mem
is_attached = refl

handlers_live_example :
    ((a j : ℕ)
      → mem a (with_module.handlers j) ≡ true
      → IsKnown [] a with_module × (attached a (with_module.handlers j) ≡ 1))
    × ((f : Text) → at f with_module.module_list ≡ at f with_module.modules)
unfolding at
handlers_live_example = handlers_live (loads begin file linked is_new)

unload_gone_example :
    ((unload file with_module).0 ≡ true)
    × ((j : ℕ) → mem 5 ((unload file with_module).1.handlers j) ≡ false)
    × ((b j : ℕ)
        → 5 ≢ b
        → attached b ((unload file with_module).1.handlers j) ≡ attached b (with_module.handlers j))
    × ((g : Text)
        → at g (unload file with_module).1.modules
          ≡ (if text_eq file g then none else at g with_module.modules))
    × ((g : Text)
        → at g (unload file with_module).1.module_list
          ≡ (if text_eq file g then none else at g with_module.module_list))
unload_gone_example = unload_gone (loads begin file linked is_new) file 5 is_loaded

abbrev a_query : BackgroundQuery
a_query = record { format = ascii "SELECT 1"; parameters = [] }

abbrev idle : Background
idle = record { background_queries = []; bg_copy = []; processed = 0; ran = [] }

abbrev after_one : Background
after_one = count_query (bgthread (bgthread (backgroundquery a_query idle)))

background_fifo_example :
    (after_one.ran ++ after_one.bg_copy ++ after_one.background_queries ≡ [] ++ a_query ∷ [])
    × (after_one.processed ≡ length after_one.ran + (0 + 1))
background_fifo_example =
    background_fifo (at_once (run (run (submit a_query Background.Reach.begin))))
