-- ===== src/Loader/Live.antt =====
-- An event never reaches a module that is not loaded.
use triviabot.Common.{
  ℕ, ◌<◌, ◌≡◌, ◌≢◌, refl, ap, ◌∙◌, true, false, List, [], none, some, if◌then◌else◌, inl, inr,
  Bool-cases, text_eq, arith, ltb,
}
use triviabot.Common.TextMap.{at, erase_at, at-erase_at}
use triviabot.Text.{Text}
use triviabot.Loader.{mem, attach, detach, all_events, Loader, Linked, load, unload, reload}
use triviabot.Loader.Invariant.{
  IsLive, IsKnown, lost_by, AreEvents, IsNew, attach-IsLive, detach-IsLive, load-IsLive,
  unload-IsLive, mem-all_events,
}
use triviabot.Loader.Handlers.{attached, mem-attached, attached-detach}

abbrev pub no_modules : Loader
no_modules = record { modules = []; module_list = []; handlers = λ j. []; lasterror = [] }

-- The file of a module that is loaded is loaded again.
abbrev pub lost_again : Text → Linked → (lost : List ℕ) → Loader → List ℕ
lost_again f linked lost l =
    if (unload f l).0 then lost_by (at f (unload f l).1.modules) linked lost else lost

reload-IsLive :
    (f : Text) (linked : Linked) (lost : List ℕ) (l : Loader)
    → IsNew linked (unload f l).1
    → IsLive lost l
    → IsLive (lost_again f linked lost l) (reload f linked l).1
unfolding reload
reload-IsLive f linked lost l new v = elim (Bool-cases (unload f l).0) [
  | inl e ↦ rw e (load-IsLive f linked lost (unload f l).1 new (unload-IsLive f lost l v))
  | inr e ↦ rw e (unload-IsLive f lost l v)
]

-- What happens to the loader: a file is loaded, unloaded or loaded again, or a module that is loaded
-- attaches to events, or one detaches from some. The objects whose constructors have thrown are lost.
pub data Reach : List ℕ → Loader → Type 0 where
  begin : Reach [] no_modules
  loads :
      {lost : List ℕ} {l : Loader}
      → Reach lost l
      → (f : Text) (linked : Linked) → IsNew linked l
      → Reach (lost_by (at f l.modules) linked lost) (load f linked l).1
  unloads : {lost : List ℕ} {l : Loader} → Reach lost l → (f : Text) → Reach lost (unload f l).1
  reloads :
      {lost : List ℕ} {l : Loader}
      → Reach lost l
      → (f : Text) (linked : Linked) → IsNew linked (unload f l).1
      → Reach (lost_again f linked lost l) (reload f linked l).1
  attaches :
      {lost : List ℕ} {l : Loader}
      → Reach lost l
      → (f : Text) (a : ℕ) (i : List ℕ) → at f l.modules ≡ some a
      → AreEvents i
      → Reach lost (record l { handlers = attach i a l.handlers })
  detaches :
      {lost : List ℕ} {l : Loader}
      → Reach lost l
      → (a : ℕ) (i : List ℕ) → Reach lost (record l { handlers = detach i a l.handlers })

nothing_at : (f : Text) (a : ℕ) → at {V = ℕ} f [] ≡ some a → ⊥
unfolding at
nothing_at f a e = cc

Reach-IsLive : {lost : List ℕ} {l : Loader} → Reach lost l → IsLive lost l
Reach-IsLive begin = record {
  once = λ a j. omega arith;
  loaded = λ a j h. absurd (omega arith);
  listed = λ f. refl;
  apart = λ f g a p q. absurd (nothing_at f a p);
  inside = λ a j h. refl;
}
Reach-IsLive (loads {lost} {l} r f linked new) = load-IsLive f linked lost l new (Reach-IsLive r)
Reach-IsLive (unloads {lost} {l} r f) = unload-IsLive f lost l (Reach-IsLive r)
Reach-IsLive (reloads {lost} {l} r f linked new) =
    reload-IsLive f linked lost l new (Reach-IsLive r)
Reach-IsLive (attaches {lost} {l} r f a i own events) =
    attach-IsLive i a lost l events (inl (f, own)) (Reach-IsLive r)
Reach-IsLive (detaches {lost} {l} r a i) = detach-IsLive i a lost l (Reach-IsLive r)

-- Whatever is loaded, unloaded, loaded again, attached and detached, as long as a new module is an
-- object of its own and modules attach to events only: a module that is among the handlers of an event
-- is there once, and is the object of a file that is loaded, or one whose constructor has thrown; and
-- the list of modules that is shown has the files that are loaded, with their objects.
pub handlers_live :
    {lost : List ℕ} {l : Loader}
    → Reach lost l
    → ((a j : ℕ) → mem a (l.handlers j) ≡ true → IsKnown lost a l × (attached a (l.handlers j) ≡ 1))
      × ((f : Text) → at f l.module_list ≡ at f l.modules)
handlers_live {lost} {l} r =
    let v = Reach-IsLive r in
    (
      λ a j m.
          let some_times : 0 < attached a (l.handlers j) =
            ground (arith, mem-attached a (l.handlers j)) in
          (v.loaded a j some_times, omega (arith, v.once a j)),
      v.listed,
    )

unloaded :
    (f : Text) (l : Loader) (a : ℕ)
    → at f l.modules ≡ some a
    → unload f l ≡ (
      true,
      record l {
        modules = erase_at f l.modules;
        module_list = erase_at f l.module_list;
        handlers = detach all_events a l.handlers;
      },
    )
unfolding unload
unloaded f l a there = rw (there, unload) refl

detached_everywhere :
    (a j : ℕ) (lost : List ℕ) (l : Loader)
    → IsLive lost l
    → mem a (detach all_events a l.handlers j) ≡ false
detached_everywhere a j lost l v =
    let now = attached-detach all_events a a j l.handlers (v.once a j) in
    elim (Bool-cases (ltb j 14)) [
      | inl e ↦ ground (
        arith,
        mem-attached a (detach all_events a l.handlers j),
        mem-all_events j (ground arith),
      )
      | inr e ↦
          ground
            (arith, mem-attached a (detach all_events a l.handlers j), v.inside a j (ground arith))
    ]

-- When a file that is loaded is unloaded, no event has its module among the handlers any more, the
-- file is no longer listed, neither among the loaded files nor in the list that is shown, and the
-- handlers of every other module and all other files stay.
pub unload_gone :
    {lost : List ℕ} {l : Loader}
    → Reach lost l
    → (f : Text) (a : ℕ) → at f l.modules ≡ some a
    → ((unload f l).0 ≡ true)
      × ((j : ℕ) → mem a ((unload f l).1.handlers j) ≡ false)
      × ((b j : ℕ) → a ≢ b → attached b ((unload f l).1.handlers j) ≡ attached b (l.handlers j))
      × ((g : Text) → at g (unload f l).1.modules ≡ (if text_eq f g then none else at g l.modules))
      × ((g : Text)
          → at g (unload f l).1.module_list ≡ (if text_eq f g then none else at g l.module_list))
unload_gone {lost} {l} r f a there =
    let v = Reach-IsLive r in
    let done = unloaded f l a there in
    (
      ap (λ u. u.0) done,
      λ j. ap (λ u. mem a (u.1.handlers j)) done ∙ detached_everywhere a j lost l v,
      λ b j ne.
          ap (λ u. attached b (u.1.handlers j)) done
          ∙ attached-detach all_events a b j l.handlers (v.once a j)
          ∙ ground arith,
      λ g. ap (λ u. at g u.1.modules) done ∙ at-erase_at f g l.modules,
      λ g. ap (λ u. at g u.1.module_list) done ∙ at-erase_at f g l.module_list,
    )
