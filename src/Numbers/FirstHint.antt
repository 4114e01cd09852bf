-- ===== src/Numbers/FirstHint.antt =====
-- MakeFirstHint takes a number apart into numbers of the table.
use triviabot.Common.{
  ℕ, zero, suc, ◌+◌, ◌-◌, ◌≤◌, ◌<◌, ◌≡◌, ◌≢◌, refl, ap, sym, ◌∙◌, false, not, ◌&&◌, List, [], ◌∷◌,
  ◌++◌, some, ltb, ◌==◌, Option-cases, Bool-cases, Bool, true, All, map, ◌||◌, inl, inr, ◌⊎◌,
  if◌then◌else◌, arith, append_assoc, append-nil, length, length-append,
}
use mathlib.Core.List.{reverse, reverse-cons}
use triviabot.Text.{Text, take}
use triviabot.Numbers.{
  NumStrs, find_if, nearest, nearest_name, numbertoname, hint_loop, hint_text, cut_plus,
}

find_if-le : (n k : ℕ) (m : NumStrs) → find_if n m ≡ some k → k ≤ n
unfolding find_if
find_if-le n k [] h = cc
find_if-le n k ((j, r) ∷ m) h = ground (arith, find_if-le n k m)

nearest-le : (m : NumStrs) (n : ℕ) → nearest m n ≤ n
unfolding nearest
nearest-le m n = elim (Option-cases (find_if n (reverse m))) [
  | inl e ↦ rw (e, nearest) (omega arith)
  | inr (k, e) ↦ rw (e, nearest) (find_if-le n k (reverse m) e)
]

-- Whether a number is in the table.
abbrev pub has_key : ℕ → NumStrs → Bool
has_key k [] = false
has_key k ((j, r) ∷ m) = j == k || has_key k m

has_key-append : (k : ℕ) (m l : NumStrs) → has_key k (m ++ l) ≡ (has_key k m || has_key k l)
has_key-append k [] l = refl
has_key-append k ((j, r) ∷ m) l = ground (arith, has_key-append k m l)

has_key-reverse : (k : ℕ) (m : NumStrs) → has_key k (reverse m) ≡ has_key k m
has_key-reverse k [] = refl
has_key-reverse k ((j, r) ∷ m) =
    rw (reverse-cons (j, r) m)
      (ground (arith, has_key-append k (reverse m) ((j, r) ∷ []), has_key-reverse k m))

find_if-has_key : (n k : ℕ) (m : NumStrs) → find_if n m ≡ some k → has_key k m ≡ true
unfolding find_if
find_if-has_key n k [] h = cc
find_if-has_key n k ((j, r) ∷ m) h = ground (arith, find_if-has_key n k m)

-- The number taken for a positive one is in the table, and its name is what the hint shows.
nearest_known :
    (m : NumStrs) (language : Text) (n : ℕ)
    → nearest m n ≢ 0
    → (has_key (nearest m n) m ≡ true)
      × (nearest_name m language n ≡ numbertoname m language (nearest m n))
unfolding nearest nearest_name
nearest_known m language n h = elim (Option-cases (find_if n (reverse m))) [
  | inl e ↦ absurd (h (rw (e, nearest) refl))
  | inr (k, e) ↦
      rw (e, nearest, nearest_name)
        (sym (has_key-reverse k m) ∙ find_if-has_key n k (reverse m) e, refl)
]

-- The keys that the loop takes, one for each round.
pub parts : NumStrs → (fuel n : ℕ) → List ℕ
parts m zero n = []
parts m (suc fuel) n =
    let rest = parts m fuel (n - nearest m n) in
    if not (nearest m n == 0) && ltb 0 n then nearest m n ∷ rest else []

pub sum : List ℕ → ℕ
sum [] = 0
sum (x ∷ xs) = x + sum xs

-- The names of the parts.
names : NumStrs → Text → (fuel n : ℕ) → List Text
names m language zero n = []
names m language (suc fuel) n =
    let rest = names m language fuel (n - nearest m n) in
    if not (nearest m n == 0) && ltb 0 n then nearest_name m language n ∷ rest else []

-- Each text followed by the separator.
ended : Text → List Text → Text
ended plus [] = []
ended plus (t ∷ ts) = t ++ (plus ++ ended plus ts)

-- The texts with the separator between them.
pub join : Text → List Text → Text
join plus [] = []
join plus (t ∷ []) = t
join plus (t ∷ u ∷ ts) = t ++ (plus ++ join plus (u ∷ ts))

ended-join : (plus t : Text) (ts : List Text) → ended plus (t ∷ ts) ≡ join plus (t ∷ ts) ++ plus
unfolding ended join
ended-join plus t [] = ap (λ s. t ++ s) (append-nil plus)
ended-join plus t (u ∷ ts) = ap (λ s. t ++ (plus ++ s)) (ended-join plus u ts) ∙ simp append_assoc

take-append : (s t : Text) → take (length s) (s ++ t) ≡ s
unfolding take
take-append [] t = refl
take-append (c ∷ s) t = ap (◌∷◌ c) (take-append s t)

cut_plus-append : (plus s : Text) → cut_plus plus (s ++ plus) ≡ s
unfolding cut_plus
cut_plus-append plus s =
    let all = length-append s plus in
    let short : ltb (length (s ++ plus)) (length plus) ≡ false = ground arith in
    let rest : length (s ++ plus) - length plus ≡ length s = omega arith in
    rw (short, rest) (take-append s plus)

cut_plus-nil : (plus : Text) → cut_plus plus [] ≡ []
unfolding cut_plus take
cut_plus-nil [] = refl
cut_plus-nil (c ∷ plus) = ground arith

module _ (m : NumStrs) (language plus : Text) where
  hint_loop-ended :
      (fuel n : ℕ) (q : Text)
      → (hint_loop m language plus fuel n q).0 ≡ q ++ ended plus (names m language fuel n)
  unfolding hint_loop names ended
  hint_loop-ended zero n q = sym (append-nil q)
  hint_loop-ended (suc fuel) n q = ground (
    arith,
    append-nil q,
    hint_loop-ended fuel (n - nearest m n) (q ++ nearest_name m language n ++ plus),
    append_assoc q (nearest_name m language n) plus,
    append_assoc q (nearest_name m language n ++ plus)
        (ended plus (names m language fuel (n - nearest m n))),
    append_assoc (nearest_name m language n) plus
        (ended plus (names m language fuel (n - nearest m n))),
  )

  hint_loop-sum :
      (fuel n : ℕ) (q : Text) → sum (parts m fuel n) + (hint_loop m language plus fuel n q).1 ≡ n
  unfolding hint_loop parts sum
  hint_loop-sum zero n q = omega arith
  hint_loop-sum (suc fuel) n q = ground (
    arith,
    nearest-le m n,
    hint_loop-sum fuel (n - nearest m n) (q ++ nearest_name m language n ++ plus),
  )

  hint_loop_ends :
      (fuel n : ℕ) (q : Text)
      → n ≤ fuel
      → let left = (hint_loop m language plus fuel n q).1 in (left ≡ 0) ⊎ (nearest m left ≡ 0)
  unfolding hint_loop
  hint_loop_ends zero n q h = inl (omega arith)
  hint_loop_ends (suc fuel) n q h =
      ground (arith, hint_loop_ends fuel (n - nearest m n) (q ++ nearest_name m language n ++ plus))

  cut-ended : (ts : List Text) → cut_plus plus (ended plus ts) ≡ join plus ts
  cut-ended [] = unfold ended join in cut_plus-nil plus
  cut-ended (t ∷ ts) = rw (ended-join plus t ts) (cut_plus-append plus (join plus (t ∷ ts)))

  parts_known :
      (fuel n : ℕ)
      → All (λ k. has_key k m ≡ true) (parts m fuel n)
        × (names m language fuel n ≡ map (numbertoname m language) (parts m fuel n))
  unfolding parts names
  parts_known zero n = (tt, refl)
  parts_known (suc fuel) n =
      let (keys, rest) = parts_known fuel (n - nearest m n) in
      elim (Bool-cases (not (nearest m n == 0) && ltb 0 n)) [
        | inl e ↦
            let (key, name) = nearest_known m language n (ground (arith, e)) in
            rw e ((key, keys), rw name (ap (λ t. numbertoname m language (nearest m n) ∷ t) rest))
        | inr e ↦ rw e (tt, refl)
      ]

  -- Where the table has a number at most every positive number (so that it has 1), the hint for a
  -- number is the names of some numbers of the table that add up to it, with the separator between
  -- them.
  pub hint_text_lem :
      (n : ℕ)
      → ((k : ℕ) → 0 < k → nearest m k ≢ 0)
      → (ks : List ℕ) × All (λ k. has_key k m ≡ true) ks
        × (sum ks ≡ n)
        × (hint_text m language plus n ≡ join plus (map (numbertoname m language) ks))
  unfolding hint_text
  hint_text_lem n table =
      let done : (hint_loop m language plus n n []).1 ≡ 0 =
        elim (hint_loop_ends n n [] (omega arith)) [
          | inl e ↦ e
          | inr e ↦ ground (arith, table (hint_loop m language plus n n []).1)
        ] in
      let total = hint_loop-sum n n [] in
      let (keys, named) = parts_known n n in
      (
        parts m n n,
        keys,
        omega arith,
        rw (done, hint_loop-ended n n []) (cut-ended (names m language n n)) ∙ ap (join plus) named,
      )
