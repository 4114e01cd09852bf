-- ===== src/Common/TextMap.antt =====
-- A `std::map` with text keys, as a list of entries. An entry in front hides one behind it.
use Prim.Native.Nat.{ℕ}
use mathlib.Core.Path.{◌≡◌, refl}
use mathlib.Core.List.{List, [], ◌∷◌}
use mathlib.Core.Option.{Option, none, some}
use native.Mathlib.Omega.{arith}
use triviabot.Common.Tests.{if◌then◌else◌}
use triviabot.Common.Lists.{text_eq, text_eq_refl, text_eq_sound}

module _ {ℓ} {V : Type ℓ} where
  unfoldable pub at : List ℕ → List (List ℕ × V) → Option V
  at key [] = none
  at key ((k, v) ∷ entries) = if text_eq k key then some v else at key entries

  unfoldable pub put : List ℕ → V → List (List ℕ × V) → List (List ℕ × V)
  put key value [] = (key, value) ∷ []
  put key value ((k, v) ∷ entries) =
      let kept = (k, v) ∷ put key value entries in
      if text_eq k key then (key, value) ∷ entries else kept

  unfoldable pub erase_at : List ℕ → List (List ℕ × V) → List (List ℕ × V)
  erase_at key [] = []
  erase_at key ((k, v) ∷ entries) =
      let rest = erase_at key entries in if text_eq k key then rest else (k, v) ∷ rest

  pub at-put :
      (key other : List ℕ) (value : V) (entries : List (List ℕ × V))
      → at other (put key value entries)
        ≡ (if text_eq key other then some value else at other entries)
  unfolding at put
  at-put key other value [] = refl
  at-put key other value ((k, v) ∷ entries) = ground (
    arith,
    text_eq_sound k key,
    text_eq_sound k other,
    text_eq_sound key other,
    text_eq_refl other,
    at-put key other value entries,
  )

  pub at-erase_at :
      (key other : List ℕ) (entries : List (List ℕ × V))
      → at other (erase_at key entries) ≡ (if text_eq key other then none else at other entries)
  unfolding at erase_at
  at-erase_at key other [] = ground arith
  at-erase_at key other ((k, v) ∷ entries) = ground (
    arith,
    text_eq_sound k key,
    text_eq_sound k other,
    text_eq_sound key other,
    text_eq_refl other,
    at-erase_at key other entries,
  )
