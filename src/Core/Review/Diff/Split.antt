-- ===== src/Core/Review/Diff/Split.antt =====
-- The indices at which the diff slices its sequences lie within them.
use nisaba.Prelude.{
  ℕ, suc, ◌+◌, ◌/◌, ◌≤◌, ◌<◌, ◌≡◌, refl, ap, max, if◌then◌else◌, Bool, Option, none, some, List, [],
  ◌∷◌, length, length-replicate, length-drop, take, drop, replicate, arith,
}
use mathlib.Core.List.{reverse}
use nisaba.Core.Review.Diff.{
  head_or, row_from, prefix_rows, lcs_row_prefix, lcs_row_suffix, best_split, split_at, one_later,
  common_prefix, common_suffix, position,
}
use nisaba.Core.Review.Diff.Trim.{length-reverse, common_prefix-le}

best_split-le :
    (j best split n : ℕ) (left right : List ℕ)
    → split ≤ n
    → j + length left ≤ n + 1
    → best_split j best split left right ≤ n
unfolding best_split
best_split-le j best split n [] right h k = h
best_split-le j best split n (l ∷ left) [] h k = h
best_split-le j best split n (l ∷ left) (r ∷ right) h k = ground (
  arith,
  best_split-le (suc j) (l + r) j n left right (omega arith) (omega arith),
  best_split-le (suc j) best split n left right h (omega arith),
)

-- The index that is found, if one is, lies before the bound.
abbrev pub IsBefore : Option ℕ → ℕ → Type 0
IsBefore none n = Unit
IsBefore (some k) n = k < n

module _ {ℓ} {A : Type ℓ} (eq : A → A → Bool) where
  length-row_from :
      (x : A) (left : ℕ) (prev : List ℕ) (b : List A)
      → length prev ≡ length b + 1
      → length (row_from eq x left prev b) ≡ length b
  unfolding row_from
  length-row_from x left prev [] h = refl
  length-row_from x left [] (y ∷ b) h = absurd (omega arith)
  length-row_from x left (p ∷ prev) (y ∷ b) h =
      ap suc
        (length-row_from x (if eq x y then p + 1 else max left (head_or prev)) prev b (omega arith))

  length-prefix_rows :
      (a b : List A) (prev : List ℕ)
      → length prev ≡ length b + 1
      → length (prefix_rows eq a b prev) ≡ length b + 1
  unfolding prefix_rows
  length-prefix_rows [] b prev h = h
  length-prefix_rows (x ∷ a) b prev h =
      length-prefix_rows a b _ (omega (arith, length-row_from x 0 prev b h))

  split_at-le : (a b : List A) → split_at eq a b ≤ length b
  unfolding split_at lcs_row_prefix
  split_at-le a b =
      let mid = length a / 2 in
      let left = lcs_row_prefix eq (take mid a) b in
      let right = lcs_row_suffix eq (drop mid a) b in
      let rows : length left ≡ length b + 1 =
        length-prefix_rows (take mid a) b (replicate {A = ℕ} (length b + 1) 0)
          (length-replicate {A = ℕ} (length b + 1) 0) in
      best_split-le 0 (head_or left + head_or right) 0 (length b) left right (omega arith)
        (omega arith)

  common_suffix-le :
      (a b : List A) → (common_suffix eq a b ≤ length a) × (common_suffix eq a b ≤ length b)
  common_suffix-le a b =
      let (f, g) = common_prefix-le eq (reverse a) (reverse b) in
      (omega (arith, f, length-reverse a), omega (arith, g, length-reverse b))

  position-IsBefore : (x : A) (b : List A) → IsBefore (position eq x b) (length b)
  unfolding position
  position-IsBefore x [] = tt
  position-IsBefore x (y ∷ b) = later (position eq x b) (position-IsBefore x b)
    where
      later :
          (o : Option ℕ)
          → IsBefore o (length b)
          → IsBefore (if eq y x then some 0 else one_later o) (length (y ∷ b))
      later none h = ground arith
      later (some k) h = ground (arith, h)

  -- The common prefix of two sequences and the common suffix of what it leaves fit in both together,
  -- half the length of the first is within the first, the split of the second is within the second,
  -- and the index at which an element is found in the second lies before its end.
  pub slices-IsWithin :
      (a b : List A) (x : A)
      → let prefix = common_prefix eq a b in
        let suffix = common_suffix eq (drop prefix a) (drop prefix b) in
        (prefix + suffix ≤ length a)
        × (prefix + suffix ≤ length b)
        × (length a / 2 ≤ length a)
        × (split_at eq a b ≤ length b)
        × IsBefore (position eq x b) (length b)
  slices-IsWithin a b x =
      let prefix = common_prefix eq a b in
      let (p, q) = common_prefix-le eq a b in
      let (f, g) = common_suffix-le (drop prefix a) (drop prefix b) in
      (
        omega (arith, p, f, length-drop prefix a),
        omega (arith, q, g, length-drop prefix b),
        omega arith,
        split_at-le a b,
        position-IsBefore x b,
      )
