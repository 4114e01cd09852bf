-- ===== src/Levenstein/Edits.antt =====
-- The distance by recursion, and the edits that it counts. Texts are read from their last
-- character, as the table's recursion does.
use triviabot.Common.{
  ℕ, suc, ◌+◌, ◌≤◌, ◌≡◌, refl, min, [], ◌∷◌, ◌==◌, ==_iff, length, arith, Bool-cases, inl, inr,
}
use triviabot.Wide.Utf8.{Wide}
use mathlib.Core.Path.{subst}
use native.Mathlib.Decide.{dec_le}
use triviabot.Levenstein.{cell, min3}

unfoldable pub dist : Wide → Wide → ℕ
dist [] b = length b
dist (x ∷ a) [] = suc (length a)
dist (x ∷ a) (y ∷ b) = cell x y (dist (x ∷ a) b) (dist a (y ∷ b)) (dist a b)

-- The ways to turn one text into the other, with their numbers of insertions, removals and
-- replacements.
pub data Edit : ℕ → Wide → Wide → Type 0 where
  done : Edit 0 [] []
  same : {k : ℕ} {a b : Wide} (c : ℕ) → Edit k a b → Edit k (c ∷ a) (c ∷ b)
  insertion : {k : ℕ} {a b : Wide} (c : ℕ) → Edit k a b → Edit (suc k) a (c ∷ b)
  removal : {k : ℕ} {a b : Wide} (c : ℕ) → Edit k a b → Edit (suc k) (c ∷ a) b
  replacement : {k : ℕ} {a b : Wide} (c d : ℕ) → Edit k a b → Edit (suc k) (c ∷ a) (d ∷ b)

-- One character more on one side changes the distance by at most one.
record Near (a b : Wide) : Type 0 where
  longer_left : (x : ℕ) → dist (x ∷ a) b ≤ 1 + dist a b
  shorter_left : (x : ℕ) → dist a b ≤ 1 + dist (x ∷ a) b
  longer_right : (y : ℕ) → dist a (y ∷ b) ≤ 1 + dist a b
  shorter_right : (y : ℕ) → dist a b ≤ 1 + dist a (y ∷ b)

near : (a b : Wide) → Near a b
unfolding dist cell
near [] [] = record {
  longer_left = λ x. omega arith;
  shorter_left = λ x. omega arith;
  longer_right = λ y. omega arith;
  shorter_right = λ y. omega arith;
}
near [] (y ∷ b) =
    let n = near [] b in
    record {
      longer_left = λ x. ground (arith, n.longer_left x);
      shorter_left = λ x. ground (arith, n.shorter_left x);
      longer_right = λ z. omega arith;
      shorter_right = λ z. omega arith;
    }
near (x ∷ a) [] =
    let n = near a [] in
    record {
      longer_left = λ z. omega arith;
      shorter_left = λ z. omega arith;
      longer_right = λ y. ground (arith, n.longer_right y);
      shorter_right = λ y. ground (arith, n.shorter_right y);
    }
near (x ∷ a) (y ∷ b) =
    let n = near (x ∷ a) b in
    let m = near a (y ∷ b) in
    record {
      longer_left = λ z. ground (arith, n.shorter_right y);
      shorter_left = λ z. ground (arith, n.longer_right y, n.shorter_left z);
      longer_right = λ z. ground (arith, m.shorter_left x);
      shorter_right = λ z. ground (arith, m.longer_left x, m.shorter_right z);
    }

dist-nil : (a : Wide) → dist a [] ≡ length a
unfolding dist
dist-nil [] = refl
dist-nil (x ∷ a) = refl

cell_same : (x y l u d : ℕ) → x ≡ y → cell x y l u d ≡ d
unfolding cell
cell_same x y l u d e = ground arith

cell-le-diagonal : (x y l u d : ℕ) → cell x y l u d ≤ suc d
unfolding cell
cell-le-diagonal x y l u d = ground arith

-- No way is shorter than the distance.
pub dist-le-Edit : {k : ℕ} {a b : Wide} → Edit k a b → dist a b ≤ k
dist-le-Edit done = unfold dist in omega arith
dist-le-Edit (same {k} {a} {b} c e) =
    let eq : dist (c ∷ a) (c ∷ b) ≡ dist a b = unfold dist in cell_same c c _ _ _ refl in
    omega (arith, dist-le-Edit e)
dist-le-Edit (insertion {k} {a} {b} c e) = omega (arith, dist-le-Edit e, (near a b).longer_right c)
dist-le-Edit (removal {k} {a} {b} c e) = omega (arith, dist-le-Edit e, (near a b).longer_left c)
dist-le-Edit (replacement {k} {a} {b} c d e) =
    let le : dist (c ∷ a) (d ∷ b) ≤ suc (dist a b) = unfold dist in cell-le-diagonal c d _ _ _ in
    omega (arith, dist-le-Edit e)

insertions : (b : Wide) → Edit (length b) [] b
insertions [] = done
insertions (y ∷ b) = insertion y (insertions b)

removals : (a : Wide) → Edit (length a) a []
removals [] = done
removals (x ∷ a) = removal x (removals a)

shorter : {p q : ℕ} {a b : Wide} → Edit p a b → Edit q a b → Edit (min p q) a b
shorter {p} {q} {a} {b} e f = elim (dec_le p q) [
  | yes h ↦ subst (λ k. Edit k a b) (omega arith) e
  | no h ↦ subst (λ k. Edit k a b) (omega arith) f
]

fewest :
    {l u d : ℕ} {a b : Wide}
    → Edit (suc l) a b
    → Edit (suc u) a b
    → Edit (suc d) a b
    → Edit (1 + min3 l u d) a b
unfolding min3
fewest {l} {u} {d} {a} {b} e f g = subst (λ k. Edit k a b) (omega arith) (shorter (shorter e f) g)

cell-Edit :
    (x y l u d : ℕ) (a b : Wide)
    → Edit l (x ∷ a) b
    → Edit u a (y ∷ b)
    → Edit d a b
    → Edit (cell x y l u d) (x ∷ a) (y ∷ b)
unfolding cell
cell-Edit x y l u d a b el eu ed = elim (Bool-cases (x == y)) [
  | inl e ↦ rw e (subst (λ z. Edit d (x ∷ a) (z ∷ b)) ((==_iff x y).0 e) (same x ed))
  | inr e ↦ rw e (fewest (insertion y el) (removal x eu) (replacement x y ed))
]

-- Some way has just that length.
pub dist-Edit : (a b : Wide) → Edit (dist a b) a b
unfolding dist
dist-Edit [] b = insertions b
dist-Edit (x ∷ a) [] = removals (x ∷ a)
dist-Edit (x ∷ a) (y ∷ b) =
    cell-Edit x y _ _ _ a b (dist-Edit (x ∷ a) b) (dist-Edit a (y ∷ b)) (dist-Edit a b)
