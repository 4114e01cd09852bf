-- ===== src/VoteHint/Mask.antt =====
-- What a personal hint hides, and what it shows.
use triviabot.Common.{
  ℕ, zero, suc, ◌+◌, ◌≡◌, refl, ap, sym, ◌∙◌, Bool, true, false, ◌||◌, [], ◌∷◌, map, Option, none,
  some, ◌==◌, if◌then◌else◌, length, get_elem?, All, inl, arith,
}
use mathlib.Core.Path.{subst}
use triviabot.Text.{Text}
use triviabot.Wide.{◌>>=◌, utf8lower}
use triviabot.Wide.Utf8.{Wide, from_bytes, to_bytes}
use triviabot.Wide.Utf8.RoundTrip.{IsScalar, Decodes, from_bytes-to_bytes, from_bytes-Decodes}
use triviabot.VoteHint.{hash_last, hash_ends, hash_spaces, personal_hint}

length-hash_last : (w : Wide) → length (hash_last w) ≡ length w
unfolding hash_last
length-hash_last [] = refl
length-hash_last (c ∷ []) = refl
length-hash_last (c ∷ (d ∷ w)) = ap suc (length-hash_last (d ∷ w))

get_elem?-hash_last :
    (w : Wide) (i : ℕ) (c : ℕ)
    → get_elem? w i ≡ some c
    → get_elem? (hash_last w) i ≡ some (if i + 1 == length w then 35 else c)
unfolding hash_last
get_elem?-hash_last [] i c e = absurd (cc)
get_elem?-hash_last (b ∷ []) zero c e = ground arith
get_elem?-hash_last (b ∷ []) (suc i) c e = absurd (cc)
get_elem?-hash_last (b ∷ (d ∷ w)) zero c e = ground arith
get_elem?-hash_last (b ∷ (d ∷ w)) (suc i) c e = ground (arith, get_elem?-hash_last (d ∷ w) i c e)

length-map : (f : ℕ → ℕ) (w : Wide) → length (map f w) ≡ length w
length-map f [] = refl
length-map f (c ∷ w) = ap suc (length-map f w)

get_elem?-map :
    (f : ℕ → ℕ) (w : Wide) (i c : ℕ) → get_elem? w i ≡ some c → get_elem? (map f w) i ≡ some (f c)
get_elem?-map f [] i c e = absurd (cc)
get_elem?-map f (b ∷ w) zero c e = ground arith
get_elem?-map f (b ∷ w) (suc i) c e = get_elem?-map f w i c e

hash-IsScalar : IsScalar 35
hash-IsScalar = (omega arith, omega arith, inl (omega arith))

hash_last-IsScalar : (w : Wide) → All IsScalar w → All IsScalar (hash_last w)
unfolding hash_last
hash_last-IsScalar [] h = tt
hash_last-IsScalar (c ∷ []) h = (hash-IsScalar, tt)
hash_last-IsScalar (c ∷ (d ∷ w)) h = (h.0, hash_last-IsScalar (d ∷ w) h.1)

hash_spaces-IsScalar : (w : Wide) → All IsScalar w → All IsScalar (hash_spaces w)
unfolding hash_spaces
hash_spaces-IsScalar [] h = tt
hash_spaces-IsScalar (c ∷ w) h = (one (c == 32), hash_spaces-IsScalar w h.1)
  where
    one : (b : Bool) → IsScalar (if b then 35 else c)
    one true = hash-IsScalar
    one false = h.0

get_elem?-front :
    (c : ℕ) (w : Wide) (i d : ℕ)
    → get_elem? {A = ℕ} (c ∷ w) i ≡ some d
    → get_elem? {A = ℕ} (35 ∷ w) i ≡ some (if i == 0 then 35 else d)
get_elem?-front c w zero d e = refl
get_elem?-front c w (suc i) d e = ground arith

mask_at :
    (c : ℕ) (w : Wide) (i d : ℕ)
    → get_elem? {A = ℕ} (c ∷ w) i ≡ some d
    → get_elem? (hash_spaces (hash_last (35 ∷ w))) i
      ≡ some (if i == 0 || i + 1 == length {A = ℕ} (c ∷ w) || d == 32 then 35 else d)
unfolding hash_spaces
mask_at c w i d e =
    let front : ℕ = if i == 0 then 35 else d in
    let back : ℕ = if i + 1 == length {A = ℕ} (35 ∷ w) then 35 else front in
    let hide = λ (b : ℕ). if b == 32 then 35 else b in
    let lasts = get_elem?-hash_last (35 ∷ w) i front (get_elem?-front c w i d e) in
    get_elem?-map hide (hash_last (35 ∷ w)) i back lasts ∙ ground arith

decoded : (w : Wide) (o : Option Wide) → Decodes o → o ≡ some w → All IsScalar w
decoded w none d e = absurd (cc)
decoded w (some v) d e = subst (All IsScalar) (ground arith) d

length-hash_spaces : (w : Wide) → length (hash_spaces w) ≡ length w
unfolding hash_spaces
length-hash_spaces w = length-map (λ c. if c == 32 then 35 else c) w

abbrev Shows : Wide → Text → Type 0
Shows w personal =
    (v : Wide) × (from_bytes personal ≡ some v)
    × (length v ≡ length w)
    × ((i c : ℕ)
        → get_elem? w i ≡ some c
        → get_elem? v i ≡ some (if i == 0 || i + 1 == length w || c == 32 then 35 else c))

masked_Shows :
    (w : Wide) (personal : Text)
    → All IsScalar w
    → (hash_ends w >>= λ ends. some (to_bytes (hash_spaces ends))) ≡ some personal
    → Shows w personal
unfolding hash_ends
masked_Shows [] personal h e = absurd (cc)
masked_Shows (c ∷ w) personal h e =
    let ends = hash_last (35 ∷ w) in
    let scalars = hash_spaces-IsScalar ends (hash_last-IsScalar (35 ∷ w) (hash-IsScalar, h.1)) in
    let bytes : to_bytes (hash_spaces ends) ≡ personal = cc in
    (
      hash_spaces ends,
      sym (ap from_bytes bytes) ∙ from_bytes-to_bytes (hash_spaces ends) scalars,
      length-hash_spaces ends ∙ length-hash_last (35 ∷ w),
      λ i d at. mask_at c w i d at,
    )

personal_hint_at :
    (towlower : ℕ → ℕ) (spanish_hack : Bool) (answer lower : Text) (w : Wide)
    → utf8lower towlower answer spanish_hack ≡ some lower
    → from_bytes lower ≡ some w
    → personal_hint towlower spanish_hack answer
      ≡ (hash_ends w >>= λ ends. some (to_bytes (hash_spaces ends)))
unfolding personal_hint
personal_hint_at towlower spanish_hack answer lower w l e = rw (l, e, personal_hint) refl

-- A personal hint, if there is one, decodes to the characters of the answer in lower case: as many of
-- them, each in its place, but for the first, the last and the spaces, which are all shown as `#`.
pub personal_hint_lem :
    (towlower : ℕ → ℕ) (spanish_hack : Bool) (answer personal lower : Text) (w : Wide)
    → utf8lower towlower answer spanish_hack ≡ some lower
    → from_bytes lower ≡ some w
    → personal_hint towlower spanish_hack answer ≡ some personal
    → (v : Wide) × (from_bytes personal ≡ some v)
      × (length v ≡ length w)
      × ((i c : ℕ)
          → get_elem? w i ≡ some c
          → get_elem? v i ≡ some (if i == 0 || i + 1 == length w || c == 32 then 35 else c))
personal_hint_lem towlower spanish_hack answer personal lower w l e p =
    let scalars : All IsScalar w = decoded w (from_bytes lower) (from_bytes-Decodes lower) e in
    masked_Shows w personal scalars
      (sym (personal_hint_at towlower spanish_hack answer lower w l e) ∙ p)
