-- ===== src/Core/Review/Diff/Trim.antt =====
-- The common prefix and suffix of two sequences.
use nisaba.Prelude.{
  ℕ, zero, suc, ◌-◌, ◌≤◌, ◌≡◌, refl, sym, ap, ◌∙◌, true, Bool, Bool-cases, inl, inr, List, [], ◌∷◌,
  ◌++◌, length, length-append, length-take, length-drop, take, drop, take-append-drop, arith,
}
use mathlib.Core.Path.{ap₂}
use mathlib.Core.List.{reverse, reverse-cons, reverse-append, reverse-reverse}
use nisaba.Core.Review.Diff.{common_prefix, common_suffix}

module _ {ℓ} {A : Type ℓ} where
  pub take-append_left : (u v : List A) (n : ℕ) → n ≡ length u → take n (u ++ v) ≡ u
  take-append_left [] v zero h = refl
  take-append_left [] v (suc n) h = absurd (omega arith)
  take-append_left (x ∷ u) v zero h = absurd (omega arith)
  take-append_left (x ∷ u) v (suc n) h = ap (λ z. x ∷ z) (take-append_left u v n (omega arith))

  pub length-reverse : (u : List A) → length (reverse u) ≡ length u
  length-reverse [] = refl
  length-reverse (x ∷ u) =
      ap length (reverse-cons x u)
      ∙ length-append (reverse u) (x ∷ [])
      ∙ omega (arith, length-reverse u)

  -- A sequence as what its reversal drops and what it takes.
  ends : (u : List A) (s : ℕ) → u ≡ reverse (drop s (reverse u)) ++ reverse (take s (reverse u))
  ends u s =
      sym (reverse-reverse u)
      ∙ ap reverse (sym (take-append-drop s (reverse u)))
      ∙ reverse-append (take s (reverse u)) (drop s (reverse u))

module _ {ℓ} {A : Type ℓ} (eq : A → A → Bool) where
  pub common_prefix-le :
      (a b : List A) → (common_prefix eq a b ≤ length a) × (common_prefix eq a b ≤ length b)
  unfolding common_prefix
  common_prefix-le [] b = (omega arith, omega arith)
  common_prefix-le (x ∷ a) [] = (omega arith, omega arith)
  common_prefix-le (x ∷ a) (y ∷ b) = ground (arith, common_prefix-le a b)

module _ {ℓ} {A : Type ℓ} (eq : A → A → Bool) (same : (x y : A) → eq x y ≡ true → x ≡ y) where
  pub take-common_prefix :
      (a b : List A) → take (common_prefix eq a b) a ≡ take (common_prefix eq a b) b
  unfolding common_prefix
  take-common_prefix [] [] = refl
  take-common_prefix [] (y ∷ b) = refl
  take-common_prefix (x ∷ a) [] = refl
  take-common_prefix (x ∷ a) (y ∷ b) = elim (Bool-cases (eq x y)) [
    | inl e ↦ rw e (ap₂ ◌∷◌ (same x y e) (take-common_prefix a b))
    | inr e ↦ rw e refl
  ]

  -- Behind what remains of each, the sequences end alike.
  pub common_end :
      (a b : List A)
      → (e : List A) × (length e ≡ common_suffix eq a b)
        × (a ≡ take (length a - common_suffix eq a b) a ++ e)
        × (b ≡ take (length b - common_suffix eq a b) b ++ e)
  common_end a b =
      let s = common_suffix eq a b in
      let (sa, sb) = common_prefix-le eq (reverse a) (reverse b) in
      let e = reverse (take s (reverse a)) in
      let f = ap reverse (take-common_prefix (reverse a) (reverse b)) in
      let long =
        length-reverse (take s (reverse a))
        ∙ length-take s (reverse a)
        ∙ omega (arith, length-reverse a) in
      (
        e,
        long,
        cut a s e (ends a s) long,
        cut b s e (ends b s ∙ ap (λ z. reverse (drop s (reverse b)) ++ z) (sym f)) long,
      )
    where
      cut :
          (u : List A) (s : ℕ) (e : List A)
          → u ≡ reverse (drop s (reverse u)) ++ e
          → length e ≡ s
          → u ≡ take (length u - s) u ++ e
      cut u s e h l =
          let front = reverse (drop s (reverse u)) in
          let count =
            length-reverse (drop s (reverse u))
            ∙ length-drop s (reverse u)
            ∙ ap (λ n. n - s) (length-reverse u) in
          h
          ∙ ap (λ z. z ++ e)
              (sym
                (ap (take (length u - s)) h ∙ take-append_left front e (length u - s) (sym count)))

module _ {ℓ} {A : Type ℓ} where
  pub drop-append_left : (u v : List A) (n : ℕ) → n ≡ length u → drop n (u ++ v) ≡ v
  drop-append_left [] v zero h = refl
  drop-append_left [] v (suc n) h = absurd (omega arith)
  drop-append_left (x ∷ u) v zero h = absurd (omega arith)
  drop-append_left (x ∷ u) v (suc n) h = drop-append_left u v n (omega arith)
