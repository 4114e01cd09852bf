-- ===== src/Text/Trim.antt =====
-- What `trim` leaves.
use triviabot.Common.{
  ℕ, ◌≡◌, refl, ap, ◌∙◌, true, false, [], ◌∷◌, ◌++◌, is_empty, Bool-cases, inl, inr, All,
  if◌then◌else◌, ◌&&◌, append_assoc,
}
use triviabot.Text.{Text, is_space, ltrim, rtrim, trim}

-- No white space in front.
abbrev pub Fronted : Text → Type 0
Fronted [] = Unit {0}
Fronted (c ∷ s) = is_space c ≡ false

-- No white space at the end.
abbrev pub Ended : Text → Type 0
Ended [] = Unit {0}
Ended (c ∷ []) = is_space c ≡ false
Ended (c ∷ d ∷ s) = Ended (d ∷ s)

abbrev pub IsBlank : Text → Type 0
IsBlank = All (λ c. is_space c ≡ true)

ltrim-Fronted : (s : Text) → Fronted (ltrim s)
unfolding ltrim
ltrim-Fronted [] = tt
ltrim-Fronted (c ∷ s) = elim (Bool-cases (is_space c)) [
  | inl e ↦ rw e (ltrim-Fronted s)
  | inr e ↦ rw e e
]

rtrim_cases : (c : ℕ) (r : Text) → Ended r → Ended (if is_space c && is_empty r then [] else c ∷ r)
rtrim_cases c [] h = elim (Bool-cases (is_space c)) [ inl e ↦ rw e tt | inr e ↦ rw e e ]
rtrim_cases c (d ∷ s) h = elim (Bool-cases (is_space c)) [ inl e ↦ rw e h | inr e ↦ rw e h ]

rtrim-Ended : (s : Text) → Ended (rtrim s)
unfolding rtrim
rtrim-Ended [] = tt
rtrim-Ended (c ∷ s) = rtrim_cases c (rtrim s) (rtrim-Ended s)

ltrim-Ended : (s : Text) → Ended s → Ended (ltrim s)
unfolding ltrim
ltrim-Ended [] h = tt
ltrim-Ended (c ∷ []) h = elim (Bool-cases (is_space c)) [ inl e ↦ rw e tt | inr e ↦ rw e e ]
ltrim-Ended (c ∷ d ∷ s) h = elim (Bool-cases (is_space c)) [
  | inl e ↦ rw e (ltrim-Ended (d ∷ s) h)
  | inr e ↦ rw e h
]

-- What is cut off is blank.
abbrev pub Cut : Text → Text → Type 0
Cut s t = (front : Text) × (back : Text) × (s ≡ front ++ (t ++ back)) × IsBlank front × IsBlank back

ltrim_cut : (s : Text) → (front : Text) × (s ≡ front ++ ltrim s) × IsBlank front
unfolding ltrim
ltrim_cut [] = ([], refl, tt)
ltrim_cut (c ∷ s) = elim (Bool-cases (is_space c)) [
  | inl e ↦ let (f, p, b) = ltrim_cut s in (c ∷ f, rw e (ap (◌∷◌ c) p), (e, b))
  | inr e ↦ ([], rw e, tt)
]

rtrim_cut_cases :
    (c : ℕ) (s r : Text)
    → (back : Text) × (s ≡ r ++ back) × IsBlank back
    → (back : Text) × (c ∷ s ≡ (if is_space c && is_empty r then [] else c ∷ r) ++ back)
      × IsBlank back
rtrim_cut_cases c s [] (b, p, w) = elim (Bool-cases (is_space c)) [
  | inl e ↦ (c ∷ b, rw (e) (ap (◌∷◌ c) p), (e, w))
  | inr e ↦ (b, rw e (ap (◌∷◌ c) p), w)
]
rtrim_cut_cases c s (d ∷ r) (b, p, w) = elim (Bool-cases (is_space c)) [
  | inl e ↦ (b, rw e (ap (◌∷◌ c) p), w)
  | inr e ↦ (b, rw e (ap (◌∷◌ c) p), w)
]

rtrim_cut : (s : Text) → (back : Text) × (s ≡ rtrim s ++ back) × IsBlank back
unfolding rtrim
rtrim_cut [] = ([], refl, tt)
rtrim_cut (c ∷ s) = rtrim_cut_cases c s (rtrim s) (rtrim_cut s)

-- `trim` cuts a blank front and a blank back off, and what is left neither begins nor ends with
-- white space.
trim_lem : (s : Text) → Cut s (trim s) × Fronted (trim s) × Ended (trim s)
unfolding trim
trim_lem s =
    let (back, p, w) = rtrim_cut s in
    let (front, q, v) = ltrim_cut (rtrim s) in
    (
      (front, back, p ∙ ap (λ t. t ++ back) q ∙ append_assoc front (ltrim (rtrim s)) back, v, w),
      ltrim-Fronted (rtrim s),
      ltrim-Ended (rtrim s) (rtrim-Ended s),
    )
