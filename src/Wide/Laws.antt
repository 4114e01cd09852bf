-- ===== src/Wide/Laws.antt =====
-- What the text functions of wlower.cpp guarantee.
use triviabot.Common.{
  ℕ, ◌+◌, ◌≤◌, ◌≡◌, refl, ap, Bool, true, false, not, [], ◌∷◌, Option, none, some, ◌==◌, Bool-cases,
  Option-cases, if◌then◌else◌, All, ◌⊎◌, inl, inr, arith, keep,
}
use triviabot.Text.{Text}
use triviabot.Wide.Utf8.{Wide, from_bytes, to_bytes}
use triviabot.Wide.Utf8.RoundTrip.{IsScalar, Decodes, from_bytes-to_bytes, from_bytes-Decodes}
use triviabot.Wide.{is_punct, removepunct, is_vowel, count_loop, countvowel, utf8lower}

module _ (p : ℕ → Bool) where
  keep-IsScalar : (w : Wide) → All IsScalar w → All IsScalar (keep p w)
  unfolding keep
  keep-IsScalar [] h = tt
  keep-IsScalar (c ∷ w) h = elim (Bool-cases (p c)) [
    | inl e ↦ rw e (h.0, keep-IsScalar w h.1)
    | inr e ↦ rw e (keep-IsScalar w h.1)
  ]

  keep-All : (w : Wide) → All (λ c. p c ≡ true) (keep p w)
  unfolding keep
  keep-All [] = tt
  keep-All (c ∷ w) = elim (Bool-cases (p c)) [
    | inl e ↦ rw e (e, keep-All w)
    | inr e ↦ rw e (keep-All w)
  ]

  keep_whole : (w : Wide) → All (λ c. p c ≡ true) w → keep p w ≡ w
  unfolding keep
  keep_whole [] h = refl
  keep_whole (c ∷ w) h = ground (arith, keep_whole w h.1)

abbrev pub not_punct : ℕ → Bool
not_punct c = not (is_punct c)

-- removepunct fails exactly on a text that is no UTF-8; otherwise the result is a UTF-8 text, its
-- characters are those of the input that are no punctuation, in their order, and a second call
-- changes nothing.
removepunct_lem :
    (s : Text)
    → ((from_bytes s ≡ none) × (removepunct s ≡ none))
      ⊎ ((w : Wide) × (t : Text) × (from_bytes s ≡ some w)
          × (removepunct s ≡ some t)
          × (from_bytes t ≡ some (keep not_punct w))
          × (removepunct t ≡ some t))
unfolding removepunct
removepunct_lem s = elim (Option-cases (from_bytes s)) [
  | inl e ↦ inl (e, rw e)
  | inr (w, e) ↦
      let decoded : Decodes (some w) = rw e at (from_bytes-Decodes s) in
      let clean = keep-IsScalar not_punct w decoded in
      let back = from_bytes-to_bytes (keep not_punct w) clean in
      let same = keep_whole not_punct (keep not_punct w) (keep-All not_punct w) in
      inr
        (w, to_bytes (keep not_punct w), e, rw e, back, rw back (ap (λ v. some (to_bytes v)) same))
]

module _ (towlower : ℕ → ℕ) where
  space_no_vowel : (c : ℕ) → c ≡ 32 → is_vowel towlower c ≡ false
  unfolding is_vowel
  space_no_vowel c e = rw e

  count_loop-le :
      (s : Wide) (v n : ℕ) → v ≤ n → (count_loop towlower v n s).0 ≤ (count_loop towlower v n s).1
  unfolding count_loop
  count_loop-le [] v n h = h
  count_loop-le (c ∷ s) v n h = count_loop-le s v' n' (ground (arith, space_no_vowel (towlower c)))
    where
      v' : ℕ
      v' = if is_vowel towlower (towlower c) then v + 1 else v

      n' : ℕ
      n' = if towlower c == 32 then n else n + 1

  abbrev Fewer : Option (ℕ × ℕ) → Type 0
  Fewer none = Unit {0}
  Fewer (some (v, n)) = v ≤ n

  countvowel-Fewer : (s : Text) → Fewer (countvowel towlower s)
  unfolding countvowel
  countvowel-Fewer s = elim (Option-cases (utf8lower towlower s true)) [
    | inl e ↦ rw (e, countvowel) tt
    | inr (i, e) ↦ elim (Option-cases (from_bytes i)) [
      | inl f ↦ rw (e, countvowel, f) tt
      | inr (w, f) ↦ rw (e, countvowel, f) (count_loop-le w 0 0 (omega arith))
    ]
  ]

  -- countvowel never counts more vowels than letters, on whatever text it succeeds.
  pub countvowel-le : (s : Text) {v n : ℕ} → countvowel towlower s ≡ some (v, n) → v ≤ n
  countvowel-le s {v} {n} h = rw h at (countvowel-Fewer s)
