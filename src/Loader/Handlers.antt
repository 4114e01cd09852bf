-- ===== src/Loader/Handlers.antt =====
-- What attaching and detaching does to the handlers of each event.
use triviabot.Common.{
  ℕ, ◌+◌, ◌-◌, ◌≤◌, ◌≡◌, refl, ◌∙◌, true, false, ◌&&◌, List, [], ◌∷◌, ◌++◌, ◌==◌, if◌then◌else◌,
  arith,
}
use triviabot.Loader.{mem, erase_first, Handlers, with_event, attach, detach}

-- How often a module is in a list.
abbrev pub attached : (mod_ : ℕ) (handlers : List ℕ) → ℕ
attached mod_ [] = 0
attached mod_ (m ∷ handlers) =
    let rest = attached mod_ handlers in if m == mod_ then rest + 1 else rest

pub mem-attached : (a : ℕ) (xs : List ℕ) → mem a xs ≡ (if attached a xs == 0 then false else true)
unfolding mem
mem-attached a [] = refl
mem-attached a (x ∷ xs) = ground (arith, mem-attached a xs)

attached-last :
    (m mod_ : ℕ) (handlers : List ℕ)
    → attached mod_ (handlers ++ m ∷ [])
      ≡ (if m == mod_ then attached mod_ handlers + 1 else attached mod_ handlers)
attached-last m mod_ [] = ground arith
attached-last m mod_ (h ∷ handlers) = ground (arith, attached-last m mod_ handlers)

attached-erase_first :
    (a b : ℕ) (xs : List ℕ)
    → attached b (erase_first a xs) ≡ (if a == b then attached b xs - 1 else attached b xs)
unfolding erase_first
attached-erase_first a b [] = ground arith
attached-erase_first a b (x ∷ xs) = ground (arith, attached-erase_first a b xs)

attached-attach_one :
    (n a b j : ℕ) (h : Handlers)
    → attached b ((if mem a (h n) then h else with_event n (h n ++ a ∷ []) h) j)
      ≡ (if a == b && n == j && attached b (h j) == 0 then 1 else attached b (h j))
unfolding with_event
attached-attach_one n a b j h = ground (arith, mem-attached a (h n), attached-last a b (h n))

-- A module is attached to an event of the list if it was not; all else stays.
pub attached-attach :
    (i : List ℕ) (a b j : ℕ) (h : Handlers)
    → attached b (attach i a h j)
      ≡ (if a == b && mem j i && attached b (h j) == 0 then 1 else attached b (h j))
unfolding attach mem
attached-attach [] a b j h = ground arith
attached-attach (n ∷ i) a b j h =
    let h' = if mem a (h n) then h else with_event n (h n ++ a ∷ []) h in
    attached-attach i a b j h' ∙ ground (arith, attached-attach_one n a b j h)

attached-detach_one :
    (n a b j : ℕ) (h : Handlers)
    → attached b (with_event n (erase_first a (h n)) h j)
      ≡ (if a == b && n == j then attached b (h j) - 1 else attached b (h j))
unfolding with_event
attached-detach_one n a b j h = ground (arith, attached-erase_first a b (h n))

-- A module that is attached to each event at most once is detached from those of the list; all else
-- stays.
pub attached-detach :
    (i : List ℕ) (a b j : ℕ) (h : Handlers)
    → attached a (h j) ≤ 1
    → attached b (detach i a h j) ≡ (if a == b && mem j i then 0 else attached b (h j))
unfolding detach mem
attached-detach [] a b j h once = ground arith
attached-detach (n ∷ i) a b j h once =
    let h' = with_event n (erase_first a (h n)) h in
    let one = attached-detach_one n a b j h in
    let once' : attached a (h' j) ≤ 1 = ground (arith, attached-detach_one n a a j h) in
    attached-detach i a b j h' once' ∙ ground (arith, one)
