-- ===== src/Loader/Invariant.antt =====
-- The invariant of the module loader, and that each of its steps keeps it.
use triviabot.Common.{
  ℕ, ◌≤◌, ◌<◌, ◌≡◌, ◌≢◌, refl, true, List, [], ◌∷◌, none, some, ◌==◌, inl, inr, ◌⊎◌, Option,
  Bool-cases, Option-cases, text_eq_refl, text_eq_sound, arith, ltb,
}
use triviabot.Common.TextMap.{at, put, erase_at, at-put, at-erase_at}
use mathlib.Core.Path.{subst}
use triviabot.Text.{Text}
use triviabot.Loader.{
  mem, attach, detach, all_events, Loader, Linked, cannot_open, no_symbol, no_object, object, threw,
  failed, load_linked, load, unload,
}
use triviabot.Loader.Handlers.{attached, attached-attach, attached-detach}

-- The object of a file that is loaded, or one whose constructor has thrown.
abbrev pub IsKnown : (lost : List ℕ) (a : ℕ) → Loader → Type 0
IsKnown lost a l = ((f : Text) × (at f l.modules ≡ some a)) ⊎ (mem a lost ≡ true)

-- The objects that are lost when their constructors throw.
abbrev pub lost_by : (loaded : Option ℕ) → Linked → (lost : List ℕ) → List ℕ
lost_by (some a) linked lost = lost
lost_by none (cannot_open err) lost = lost
lost_by none (no_symbol err) lost = lost
lost_by none no_object lost = lost
lost_by none (object mod_ attached) lost = lost
lost_by none (threw mod_ attached) lost = mod_ ∷ lost

-- Each module is attached to an event at most once, and is loaded or lost; files have objects of their
-- own, and are listed with them; and nothing is attached to a number that is no event.
pub record IsLive (lost : List ℕ) (l : Loader) : Type 0 where
  pub once : (a j : ℕ) → attached a (l.handlers j) ≤ 1
  pub loaded : (a j : ℕ) → 0 < attached a (l.handlers j) → IsKnown lost a l
  pub listed : (f : Text) → at f l.module_list ≡ at f l.modules
  pub apart : (f g : Text) (a : ℕ) → at f l.modules ≡ some a → at g l.modules ≡ some a → f ≡ g
  pub inside : (a j : ℕ) → 14 ≤ j → attached a (l.handlers j) ≡ 0

-- Only events are asked for.
abbrev pub AreEvents : List ℕ → Type 0
AreEvents i = (j : ℕ) → mem j i ≡ true → j < 14

-- A new object is not that of a module which is loaded.
abbrev pub IsNew : Linked → Loader → Type 0
IsNew (cannot_open err) l = Unit {0}
IsNew (no_symbol err) l = Unit {0}
IsNew no_object l = Unit {0}
IsNew (threw mod_ attached) l = AreEvents attached
IsNew (object mod_ attached) l = ((f : Text) → at f l.modules ≢ some mod_) × AreEvents attached

pub attach-IsLive :
    (i : List ℕ) (a : ℕ) (lost : List ℕ) (l : Loader)
    → AreEvents i
    → IsKnown lost a l
    → IsLive lost l
    → IsLive lost (record l { handlers = attach i a l.handlers })
attach-IsLive i a lost l events own v = record {
  once = λ b j. rw (attached-attach i a b j l.handlers) (ground (arith, v.once b j));
  loaded = λ b j h. elim (Bool-cases (a == b)) [
    | inl same ↦ subst (λ c. IsKnown lost c l) {x = a} {y = b} (ground arith) own
    | inr other ↦ v.loaded b j (ground (arith, attached-attach i a b j l.handlers))
  ];
  listed = v.listed;
  apart = v.apart;
  inside = λ b j h.
      let none_there = v.inside b j h in
      rw (attached-attach i a b j l.handlers) (elim (Bool-cases (mem j i)) [
        | inl m ↦ absurd (omega (arith, events j m))
        | inr m ↦ ground arith
      ]);
}

pub detach-IsLive :
    (i : List ℕ) (a : ℕ) (lost : List ℕ) (l : Loader)
    → IsLive lost l
    → IsLive lost (record l { handlers = detach i a l.handlers })
detach-IsLive i a lost l v = record {
  once = λ b j. ground (arith, attached-detach i a b j l.handlers (v.once a j), v.once b j);
  loaded = λ b j h. v.loaded b j (ground (arith, attached-detach i a b j l.handlers (v.once a j)));
  listed = v.listed;
  apart = v.apart;
  inside = λ b j h. ground (arith, attached-detach i a b j l.handlers (v.once a j), v.inside b j h);
}

failed-IsLive :
    (err : Text) (lost : List ℕ) (l : Loader) → IsLive lost l → IsLive lost (failed err l)
unfolding failed
failed-IsLive err lost l v = record {
  once = v.once;
  loaded = v.loaded;
  listed = v.listed;
  apart = v.apart;
  inside = v.inside;
}

-- More objects may be lost.
lose-IsLive : (a : ℕ) (lost : List ℕ) (l : Loader) → IsLive lost l → IsLive (a ∷ lost) l
unfolding mem
lose-IsLive a lost l v = record {
  once = v.once;
  loaded = λ b j h. elim (v.loaded b j h) [
    | inl known ↦ inl known
    | inr gone ↦ inr (ground (arith, gone))
  ];
  listed = v.listed;
  apart = v.apart;
  inside = v.inside;
}

put-IsLive :
    (f : Text) (a : ℕ) (lost : List ℕ) (l : Loader)
    → at f l.modules ≡ none
    → ((g : Text) → at g l.modules ≢ some a)
    → IsLive lost l
    → (err : Text)
    → IsLive lost (record {
      modules = put f a l.modules;
      module_list = put f a l.module_list;
      handlers = l.handlers;
      lasterror = err;
    })
put-IsLive f a lost l free new v err = record {
  once = v.once;
  loaded = λ b j h. elim (v.loaded b j h) [
    | inl (g, there) ↦ inl (g, ground (arith, at-put f g a l.modules, text_eq_sound f g))
    | inr gone ↦ inr gone
  ];
  listed = λ g. ground (arith, at-put f g a l.modules, at-put f g a l.module_list, v.listed g);
  apart = λ g h b p q. ground (
    arith,
    at-put f g a l.modules,
    at-put f h a l.modules,
    text_eq_sound f g,
    text_eq_sound f h,
    v.apart g h b,
    new g,
    new h,
  );
  inside = v.inside;
}

load_linked-IsLive :
    (f : Text) (linked : Linked) (lost : List ℕ) (l : Loader)
    → at f l.modules ≡ none
    → IsNew linked l
    → IsLive lost l
    → IsLive (lost_by none linked lost) (load_linked f linked l).1
unfolding load_linked
load_linked-IsLive f (cannot_open err) lost l free new v = failed-IsLive err lost l v
load_linked-IsLive f (no_symbol err) lost l free new v = failed-IsLive err lost l v
load_linked-IsLive f no_object lost l free new v = failed-IsLive _ lost l v
load_linked-IsLive f (threw a attached) lost l free new v =
    attach-IsLive attached a (a ∷ lost) l new (inr (unfold mem in ground arith))
      (lose-IsLive a lost l v)
load_linked-IsLive f (object a attached) lost l free new v =
    let l' : Loader = record {
      modules = put f a l.modules;
      module_list = put f a l.module_list;
      handlers = l.handlers;
      lasterror = [];
    } in
    let there : at f l'.modules ≡ some a = rw (at-put f f a l.modules, text_eq_refl f) refl in
    attach-IsLive attached a lost l' new.1 (inl (f, there)) (put-IsLive f a lost l free new.0 v [])

pub load-IsLive :
    (f : Text) (linked : Linked) (lost : List ℕ) (l : Loader)
    → IsNew linked l
    → IsLive lost l
    → IsLive (lost_by (at f l.modules) linked lost) (load f linked l).1
unfolding load
load-IsLive f linked lost l new v = elim (Option-cases (at f l.modules)) [
  | inl free ↦ rw (free, load) (load_linked-IsLive f linked lost l free new v)
  | inr (a, there) ↦ rw (there, load) (failed-IsLive _ lost l v)
]

pub mem-all_events : (j : ℕ) → j < 14 → mem j all_events ≡ true
unfolding mem
mem-all_events j h = ground arith

-- What is left when a loaded file is taken out.
taken_out :
    (f : Text) (a : ℕ) (lost : List ℕ) (l : Loader)
    → at f l.modules ≡ some a
    → IsLive lost l
    → IsLive lost (record l {
      modules = erase_at f l.modules;
      module_list = erase_at f l.module_list;
      handlers = detach all_events a l.handlers;
    })
taken_out f a lost l own v = record {
  once =
      λ b j. ground (arith, attached-detach all_events a b j l.handlers (v.once a j), v.once b j);
  loaded = λ b j h.
      let now = attached-detach all_events a b j l.handlers (v.once a j) in
      let before : 0 < attached b (l.handlers j) = ground arith in
      let event : j < 14 = elim (Bool-cases (ltb j 14)) [
        | inl e ↦ ground arith
        | inr e ↦ absurd (omega (arith, v.inside b j (ground arith)))
      ] in
      elim (v.loaded b j before) [
        | inl (g, there) ↦ inl (
          g,
          ground (arith, at-erase_at f g l.modules, text_eq_sound f g, mem-all_events j event),
        )
        | inr gone ↦ inr gone
      ];
  listed =
      λ g. ground (arith, at-erase_at f g l.modules, at-erase_at f g l.module_list, v.listed g);
  apart = λ g h b p q.
      ground (arith, at-erase_at f g l.modules, at-erase_at f h l.modules, v.apart g h b);
  inside = λ b j h.
      ground (arith, attached-detach all_events a b j l.handlers (v.once a j), v.inside b j h);
}

pub unload-IsLive :
    (f : Text) (lost : List ℕ) (l : Loader) → IsLive lost l → IsLive lost (unload f l).1
unfolding unload
unload-IsLive f lost l v = elim (Option-cases (at f l.modules)) [
  | inl free ↦ rw (free, unload) (failed-IsLive _ lost l v)
  | inr (a, there) ↦ rw (there, unload) (taken_out f a lost l there v)
]
