-- ===== src/Levenstein/Distance.antt =====
-- The table holds the distances, and `levenstein` returns the least number of edits.
use triviabot.Common.{
  ℕ, suc, ◌≤◌, ◌≡◌, refl, ap, sym, ◌∙◌, List, [], ◌∷◌, ◌++◌, length, arith, ◌↔◌, append_assoc,
  append-nil,
}
use mathlib.Core.List.{reverse, reverse-cons, reverse-reverse}
use mathlib.Core.Path.{subst}
use triviabot.Wide.Utf8.{Wide}
use triviabot.Levenstein.{fill_row, next_row, fill_rows, first_row, last_cell, distance}
use triviabot.Levenstein.Edits.{
  dist, Edit, done, same, insertion, removal, replacement, dist-le-Edit, dist-Edit,
}

-- The cells of a row behind the first: the distances of `a` to ever longer texts.
cells : Wide → Wide → Wide → List ℕ
cells a b [] = []
cells a b (y ∷ ys) = dist a (y ∷ b) ∷ cells a (y ∷ b) ys

row : Wide → Wide → List ℕ
row a str2 = dist a [] ∷ cells a [] str2

fill_row-cells :
    (x : ℕ) (a b ys : Wide)
    → fill_row x ys (dist (x ∷ a) b) (dist a b) (cells a b ys) ≡ cells (x ∷ a) b ys
unfolding fill_row cells dist
fill_row-cells x a b [] = refl
fill_row-cells x a b (y ∷ ys) = ap (◌∷◌ (dist (x ∷ a) (y ∷ b))) (fill_row-cells x a (y ∷ b) ys)

next_row-row :
    (x : ℕ) (a str2 : Wide) → next_row (suc (length a)) x str2 (row a str2) ≡ row (x ∷ a) str2
unfolding next_row row
next_row-row x a str2 = unfold dist in ap (◌∷◌ (suc (length a))) (fill_row-cells x a [] str2)

reverse-snoc : (x : ℕ) (xs a : Wide) → reverse (x ∷ xs) ++ a ≡ reverse xs ++ x ∷ a
reverse-snoc x xs a = ap (λ r. r ++ a) (reverse-cons x xs) ∙ append_assoc (reverse xs) (x ∷ []) a

fill_rows-row :
    (xs a str2 : Wide)
    → fill_rows (suc (length a)) xs str2 (row a str2) ≡ row (reverse xs ++ a) str2
unfolding fill_rows
fill_rows-row [] a str2 = refl
fill_rows-row (x ∷ xs) a str2 =
    rw (next_row-row x a str2)
      (fill_rows-row xs (x ∷ a) str2 ∙ ap (λ r. row r str2) (sym (reverse-snoc x xs a)))

first_row-cells : (b ys : Wide) → first_row (length b) ys ≡ dist [] b ∷ cells [] b ys
unfolding first_row cells dist
first_row-cells b [] = refl
first_row-cells b (y ∷ ys) = ap (◌∷◌ (length b)) (first_row-cells (y ∷ b) ys)

last-cells : (a b ys : Wide) → last_cell (dist a b ∷ cells a b ys) ≡ dist a (reverse ys ++ b)
unfolding last_cell cells
last-cells a b [] = refl
last-cells a b (y ∷ ys) = last-cells a (y ∷ b) ys ∙ ap (dist a) (sym (reverse-snoc y ys b))

distance-dist : (str1 str2 : Wide) → distance str1 str2 ≡ dist (reverse str1) (reverse str2)
unfolding distance row
distance-dist str1 str2 =
    ap (λ r. last_cell (fill_rows 1 str1 str2 r)) (first_row-cells [] str2)
    ∙ ap last_cell (fill_rows-row str1 [] str2)
    ∙ rw (append-nil (reverse str1))
        (last-cells (reverse str1) [] str2 ∙ ap (dist (reverse str1)) (append-nil (reverse str2)))

-- `distance` is the least number of insertions, removals and replacements that turn one text into
-- the other: some way takes just so many, and no way takes fewer.
pub distance_lem :
    (str1 str2 : Wide)
    → Edit (distance str1 str2) (reverse str1) (reverse str2)
      × ((k : ℕ) → Edit k (reverse str1) (reverse str2) → distance str1 str2 ≤ k)
distance_lem str1 str2 =
    rw (distance-dist str1 str2) (dist-Edit (reverse str1) (reverse str2), λ k e. dist-le-Edit e)

Edit-zero : {k : ℕ} {a b : Wide} → Edit k a b → k ≡ 0 → a ≡ b
Edit-zero done h = refl
Edit-zero (same c e) h = ap (◌∷◌ c) (Edit-zero e h)
Edit-zero (insertion c e) h = absurd (omega arith)
Edit-zero (removal c e) h = absurd (omega arith)
Edit-zero (replacement c d e) h = absurd (omega arith)

Edit-refl : (a : Wide) → Edit 0 a a
Edit-refl [] = done
Edit-refl (c ∷ a) = same c (Edit-refl a)

-- `distance` is 0 exactly between a text and itself.
distance_zero_iff : (str1 str2 : Wide) → (distance str1 str2 ≡ 0) ↔ (str1 ≡ str2)
distance_zero_iff str1 str2 = (
  λ h.
      sym (reverse-reverse str1)
      ∙ ap reverse (Edit-zero (distance_lem str1 str2).0 h)
      ∙ reverse-reverse str2,
  λ e.
      let least =
        (distance_lem str1 str2).1 0
          (subst (λ r. Edit 0 (reverse str1) (reverse r)) e (Edit-refl (reverse str1))) in
      omega arith,
)
