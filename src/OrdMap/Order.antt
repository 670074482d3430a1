-- ===== src/OrdMap/Order.antt =====
-- Keys with a comparison: numbers, and texts in the order of their characters.
use nisaba.Prelude.{ℕ, ◌≡◌, refl, compare, Ordering, [], ◌∷◌, Text, arith}
use Prim.Native.Nat.Ordering.{lt, eq, gt}

-- `Ordering::reverse`.
abbrev pub flip : Ordering → Ordering
flip lt = gt
flip eq = eq
flip gt = lt

pub record Ord {ℓ} (K : Type ℓ) : Type ℓ where
  pub cmp : K → K → Ordering
  pub cmp_self : (k : K) → cmp k k ≡ eq
  pub cmp_flip : (j k : K) → cmp k j ≡ flip (cmp j k)
  pub same_key : (j k : K) → cmp j k ≡ eq → j ≡ k
  pub ascend : (i j k : K) → cmp i j ≡ lt → cmp j k ≡ lt → cmp i k ≡ lt

-- `Ordering::then_with`.
abbrev pub then_with : Ordering → Ordering → Ordering
then_with lt second = lt
then_with eq second = second
then_with gt second = gt

-- Texts compare as `str` does: UTF-8 keeps the order of the scalar values.
abbrev pub compare_text : Text → Text → Ordering
compare_text [] [] = eq
compare_text [] (d ∷ ds) = lt
compare_text (c ∷ cs) [] = gt
compare_text (c ∷ cs) (d ∷ ds) = then_with (compare c d) (compare_text cs ds)

pub nat_cmp_self : (k : ℕ) → compare k k ≡ eq
nat_cmp_self k = ground arith

pub nat_cmp_flip : (j k : ℕ) → compare k j ≡ flip (compare j k)
nat_cmp_flip j k = ground arith

pub nat_same_key : (j k : ℕ) → compare j k ≡ eq → j ≡ k
nat_same_key j k h = ground arith

pub nat_ascend : (i j k : ℕ) → compare i j ≡ lt → compare j k ≡ lt → compare i k ≡ lt
nat_ascend i j k h g = ground arith

instance abbrev pub nat_ord : Ord ℕ
nat_ord = record {
  cmp = compare;
  cmp_self = nat_cmp_self;
  cmp_flip = nat_cmp_flip;
  same_key = nat_same_key;
  ascend = nat_ascend;
}

pub text_cmp_self : (t : Text) → compare_text t t ≡ eq
text_cmp_self [] = refl
text_cmp_self (c ∷ cs) = ground (arith, text_cmp_self cs)

pub text_cmp_flip : (s t : Text) → compare_text t s ≡ flip (compare_text s t)
text_cmp_flip [] [] = refl
text_cmp_flip [] (d ∷ ds) = refl
text_cmp_flip (c ∷ cs) [] = refl
text_cmp_flip (c ∷ cs) (d ∷ ds) = ground (arith, text_cmp_flip cs ds)

pub text_same_key : (s t : Text) → compare_text s t ≡ eq → s ≡ t
text_same_key [] [] h = refl
text_same_key [] (d ∷ ds) h = ground arith
text_same_key (c ∷ cs) [] h = ground arith
text_same_key (c ∷ cs) (d ∷ ds) h = ground (arith, text_same_key cs ds)

pub text_ascend :
    (r s t : Text) → compare_text r s ≡ lt → compare_text s t ≡ lt → compare_text r t ≡ lt
text_ascend [] [] t h g = ground arith
text_ascend [] (d ∷ ds) [] h g = ground arith
text_ascend [] (d ∷ ds) (e ∷ es) h g = refl
text_ascend (c ∷ cs) [] t h g = ground arith
text_ascend (c ∷ cs) (d ∷ ds) [] h g = ground arith
text_ascend (c ∷ cs) (d ∷ ds) (e ∷ es) h g = ground (arith, text_ascend cs ds es)

instance abbrev pub text_ord : Ord Text
text_ord = record {
  cmp = compare_text;
  cmp_self = text_cmp_self;
  cmp_flip = text_cmp_flip;
  same_key = text_same_key;
  ascend = text_ascend;
}
