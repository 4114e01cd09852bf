-- ===== src/Levenstein.antt =====
-- modules/trivia/levenstein.cpp: the edit distance of two answers.
pub mod Edits
pub mod Distance
use triviabot.Common.{
  ℕ, suc, ◌+◌, min, Bool, false, List, [], ◌∷◌, Option, some, ◌==◌, if◌then◌else◌, ◌≡◌, refl,
}
use triviabot.Text.{Text, ascii}
use triviabot.Wide.Utf8.{Wide, from_bytes}
use triviabot.Wide.{◌>>=◌, utf8lower}

unfoldable pub min3 : ℕ → ℕ → ℕ → ℕ
min3 x y z = min (min x y) z

-- `dp[i][j]`, from the cells to the left, above, and above to the left.
unfoldable pub cell : (x y left up diagonal : ℕ) → ℕ
unfolding min3
cell x y left up diagonal = if x == y then diagonal else 1 + min3 left up diagonal

-- The cells of row i behind the first, for j = 1 to n; `ups` are the cells of row i - 1. (The rows
-- have one length, so the last clause is never used.)
unfoldable pub fill_row : (x : ℕ) → Wide → (left diagonal : ℕ) → List ℕ → List ℕ
unfolding cell
fill_row x [] left diagonal ups = []
fill_row x (y ∷ ys) left diagonal (up ∷ ups) =
    let c = cell x y left up diagonal in c ∷ fill_row x ys c up ups
fill_row x (y ∷ ys) left diagonal [] = []

-- Row i from row i - 1, whose first cell is `diagonal`.
next_row : (i x : ℕ) → Wide → List ℕ → List ℕ
unfolding fill_row
next_row i x str2 [] = []
next_row i x str2 (diagonal ∷ ups) = i ∷ fill_row x str2 i diagonal ups

-- The rows for the characters of `str1` that are left, behind the row `prev`; the last one is kept.
unfoldable pub fill_rows : (i : ℕ) → Wide → Wide → List ℕ → List ℕ
unfolding next_row
fill_rows i [] str2 prev = prev
fill_rows i (x ∷ xs) str2 prev = fill_rows (suc i) xs str2 (next_row i x str2 prev)

-- Row 0: `dp[0][j] = j`.
unfoldable pub first_row : (j : ℕ) → Wide → List ℕ
first_row j [] = j ∷ []
first_row j (y ∷ ys) = j ∷ first_row (suc j) ys

-- `dp[m][n]`.
unfoldable pub last_cell : List ℕ → ℕ
last_cell [] = 0
last_cell (d ∷ []) = d
last_cell (d ∷ e ∷ ds) = last_cell (e ∷ ds)

unfoldable pub distance : Wide → Wide → ℕ
unfolding fill_rows first_row last_cell
distance str1 str2 = last_cell (fill_rows 1 str1 str2 (first_row 0 str2))

-- `none` stands for the exception of a text that is no UTF-8.
unfoldable pub levenstein : (ℕ → ℕ) → Text → Text → Option ℕ
unfolding distance utf8lower
levenstein towlower s1 s2 = do
  l1 ← utf8lower towlower s1 false
  l2 ← utf8lower towlower s2 false
  str1 ← from_bytes l1
  str2 ← from_bytes l2
  some (distance str1 str2)
