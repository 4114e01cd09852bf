-- ===== src/Menu/Pages.antt =====
-- The pages of categories.
use triviabot.Common.{
  ℕ, zero, suc, ◌+◌, ◌-◌, ◌*◌, ◌/◌, ◌≤◌, ◌<◌, ◌≡◌, ◌≢◌, refl, sym, ◌∙◌, ap, List, [], ◌∷◌, ◌++◌,
  length, u32, sub32, arith,
}
use mathlib.Core.Path.{subst}
use triviabot.Text.{Text}
use triviabot.Menu.Quotient.{pages_exact}
use triviabot.Menu.{skip_rows, first_rows, pages, page_rows}

-- What some pages show, one behind the other.
abbrev pub shown : (page count : ℕ) → List Text → List Text
shown page zero names = []
shown page (suc count) names = page_rows page names ++ shown (page + 1) count names

first-skip : (n : ℕ) (rows : List Text) → first_rows n rows ++ skip_rows n rows ≡ rows
unfolding first_rows skip_rows
first-skip zero rows = refl
first-skip (suc n) [] = refl
first-skip (suc n) (r ∷ rows) = ap (λ t. r ∷ t) (first-skip n rows)

skip_nil : (n : ℕ) → skip_rows n [] ≡ []
unfolding skip_rows
skip_nil zero = refl
skip_nil (suc n) = refl

skip-skip : (n m : ℕ) (rows : List Text) → skip_rows n (skip_rows m rows) ≡ skip_rows (m + n) rows
unfolding skip_rows
skip-skip n zero rows = ap (λ k. skip_rows k rows) (omega arith)
skip-skip n (suc m) [] = skip_nil n ∙ sym (skip_nil (suc m + n))
skip-skip n (suc m) (r ∷ rows) =
    skip-skip n m rows ∙ ap (λ k. skip_rows k (r ∷ rows)) {x = suc (m + n)} (omega arith)

skip_all : (n : ℕ) (rows : List Text) → length rows ≤ n → skip_rows n rows ≡ []
unfolding skip_rows
skip_all zero [] h = refl
skip_all zero (r ∷ rows) h = absurd (omega (arith, h))
skip_all (suc n) [] h = refl
skip_all (suc n) (r ∷ rows) h = skip_all n rows (omega (arith, h))

-- Where the rows of a page begin, when no product wraps.
page_start : (page : ℕ) → page * 25 < 4294967296 → u32 (sub32 (page + 1) 1 * 25) ≡ page * 25
page_start page small = omega (arith, small)

next :
    (page : ℕ) (names : List Text)
    → skip_rows ((page + 1) * 25) names ≡ skip_rows 25 (skip_rows (page * 25) names)
next page names =
    ap (λ k. skip_rows k names) {x = (page + 1) * 25} {y = page * 25 + 25} (omega arith)
    ∙ sym (skip-skip 25 (page * 25) names)

shown_from :
    (count page : ℕ) (names : List Text)
    → length names ≤ (page + count) * 25
    → (page + count) * 25 < 4294967296
    → shown (page + 1) count names ≡ skip_rows (page * 25) names
unfolding page_rows
shown_from zero page names enough small = sym (skip_all (page * 25) names (omega (arith, enough)))
shown_from (suc count) page names enough small =
    let rest = shown_from count (page + 1) names (omega (arith, enough)) (omega (arith, small)) in
    let start = page_start page (omega (arith, small)) in
    let now = skip_rows (page * 25) names in
    ap (λ t. page_rows (page + 1) names ++ t) (rest ∙ next page names)
    ∙ ap (λ k. first_rows 25 (skip_rows k names) ++ skip_rows 25 now) start
    ∙ first-skip 25 now

row_there : (k : ℕ) (names : List Text) → k < length names → first_rows 25 (skip_rows k names) ≢ []
unfolding first_rows skip_rows
row_there k [] h e = absurd (omega (arith, h))
row_there zero (r ∷ names) h e = cc
row_there (suc k) (r ∷ names) h e = row_there k names (omega (arith, h)) e

page_there :
    (page : ℕ) (names : List Text)
    → page * 25 < length names
    → length names < 4294967296
    → page_rows (page + 1) names ≢ []
unfolding page_rows
page_there page names h small =
    rw (page_start page (omega (arith, h, small))) (row_there (page * 25) names h)

-- The pages for which the menu has buttons, of which the code computes the number with floats, show
-- every category exactly once, in their order, and there is no page that is empty, as long as there are
-- fewer than 2 ^ 24 categories.
pub pages_lem :
    (names : List Text)
    → length names < 16777216
    → (shown 1 (pages names) names ≡ names)
      × ((page : ℕ) → 1 ≤ page → page ≤ pages names → page_rows page names ≢ [])
unfolding skip_rows
pages_lem names small =
    let exact = pages_exact names small in
    (
      rw exact (
          shown_from ((length names + 24) / 25) 0 names (omega (arith, small))
            (omega (arith, small))),
      λ page low high.
          subst (λ p. page_rows p names ≢ []) {x = page - 1 + 1} (omega (arith, low))
            (page_there (page - 1) names (omega (arith, low, high, exact)) (omega (arith, small))),
    )
