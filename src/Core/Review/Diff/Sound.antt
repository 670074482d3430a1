-- ===== src/Core/Review/Diff/Sound.antt =====
-- The runs of the diff take the whole of both sequences.
use nisaba.Prelude.{
  ℕ, zero, suc, ◌+◌, ◌-◌, ◌/◌, ◌<◌, ◌≡◌, refl, sym, subst, ap, ◌∙◌, true, Bool, Bool-cases,
  Option-cases, Option, none, some, inl, inr, List, [], ◌∷◌, ◌++◌, append-nil, append_assoc, length,
  length-take, length-drop, take, drop, take-append-drop, ltb, arith,
}
use nisaba.Core.Review.Diff.{
  DiffOp, equal_op, delete_op, insert_op, push_op, position, common_prefix, common_suffix, split_at,
  diff_one, diff_mid, diff_trimmed, diff_rec, diff_seq, diff_work_limit,
}
use nisaba.Core.Review.Diff.Runs.{Edits, done, Edits-congruence, Edits-push_op}
use nisaba.Core.Review.Diff.Trim.{take-common_prefix, common_prefix-le, common_end}

none-some {ℓ} : {A : Type ℓ} {k : A} → none ≡ some k → ⊥
none-some h = ground arith

module _ {ℓ} {A : Type ℓ} (eq : A → A → Bool) (same : (x y : A) → eq x y ≡ true → x ≡ y) where
  -- A function that appends the runs for two sequences to those before.
  abbrev IsDiff : (List A → List A → List DiffOp → List DiffOp) → List A → Type ℓ
  IsDiff rec a =
      (b : List A) (out : List DiffOp) (x y : List A)
      → Edits out x y
      → Edits (rec a b out) (x ++ a) (y ++ b)

  push_deleted :
      (out : List DiffOp) (x y a : List A)
      → Edits out x y
      → Edits (push_op out (delete_op (length a))) (x ++ a) y
  push_deleted out x y a h =
      Edits-congruence _ (x ++ a) (y ++ []) _ _ refl (append-nil y)
        (Edits-push_op out (delete_op (length a)) x y a [] h (refl, refl))

  push_inserted :
      (out : List DiffOp) (x y b : List A) (n : ℕ)
      → length b ≡ n
      → Edits out x y
      → Edits (push_op out (insert_op n)) x (y ++ b)
  push_inserted out x y b n e h =
      Edits-congruence _ (x ++ []) (y ++ b) _ _ (append-nil x) refl
        (Edits-push_op out (insert_op n) x y [] b h (refl, e))

  -- The element stands at the index.
  abbrev At : A → List A → ℕ → Type ℓ
  At x b k = (k < length b) × (b ≡ take k b ++ x ∷ drop (suc k) b)

  found_first : (x y : A) (b : List A) (k : ℕ) → eq y x ≡ true → some 0 ≡ some k → At x (y ∷ b) k
  found_first x y b zero e h = (omega arith, ap (λ z. z ∷ b) (same y x e))
  found_first x y b (suc k) e h = absurd (ground arith)

  found_later : (x y : A) (b : List A) (j k : ℕ) → some (suc j) ≡ some k → At x b j → At x (y ∷ b) k
  found_later x y b j zero h w = absurd (ground arith)
  found_later x y b j (suc k) h w =
      let e : j ≡ k = ground arith in
      subst (λ i. At x (y ∷ b) (suc i)) e (omega (arith, w.0), ap (λ z. y ∷ z) w.1)

  find_position : (x : A) (b : List A) (k : ℕ) → position eq x b ≡ some k → At x b k
  unfolding position
  find_position x [] k h = absurd (ground arith)
  find_position x (y ∷ b) k h = elim (Bool-cases (eq y x)) [
    | inl e ↦ found_first x y b k e (rw e at h)
    | inr e ↦ elim (Option-cases (position eq x b)) [
      | inl p ↦ absurd (none-some (rw (e, p) at h))
      | inr (j, p) ↦ found_later x y b j k (rw (e, p) at h) (find_position x b j p)
    ]
  ]

  diff_one-Edits :
      (a : A) (b : List A) (o : Option ℕ) (out : List DiffOp) (x y : List A)
      → position eq a b ≡ o
      → Edits out x y
      → Edits (diff_one eq o b out) (x ++ a ∷ []) (y ++ b)
  diff_one-Edits a b none out x y e h =
      push_inserted _ (x ++ a ∷ []) y b (length b) refl (push_deleted out x y (a ∷ []) h)
  diff_one-Edits a b (some k) out x y e h =
      let (lt, w) = find_position a b k e in
      let h1 = push_inserted out x y (take k b) k (length-take k b ∙ omega arith) h in
      let h2 = Edits-push_op _ (equal_op 1) x (y ++ take k b) (a ∷ []) (a ∷ []) h1 (refl, refl) in
      let h3 =
        push_inserted _ (x ++ a ∷ []) ((y ++ take k b) ++ a ∷ []) (drop (suc k) b)
          (length b - k - 1) (length-drop (suc k) b ∙ omega arith) h2 in
      Edits-congruence _ (x ++ a ∷ []) (((y ++ take k b) ++ a ∷ []) ++ drop (suc k) b) _ _ refl
        (append_assoc (y ++ take k b) (a ∷ []) (drop (suc k) b)
          ∙ append_assoc y (take k b) (a ∷ drop (suc k) b)
          ∙ ap (λ z. y ++ z) (sym w))
        h3

  -- The recursion is on both halves of a sequence of at least two.
  halves :
      (rec : List A → List A → List DiffOp → List DiffOp) (mid split : ℕ) (a b : List A)
      (out : List DiffOp) (x y : List A)
      → IsDiff rec (take mid a)
      → IsDiff rec (drop mid a)
      → Edits out x y
      → Edits
          (rec (drop mid a) (drop split b) (rec (take mid a) (take split b) out))
          (x ++ a)
          (y ++ b)
  halves rec mid split a b out x y f g h =
      Edits-congruence _ ((x ++ take mid a) ++ drop mid a) ((y ++ take split b) ++ drop split b) _ _
        (append_assoc x (take mid a) (drop mid a) ∙ ap (λ z. x ++ z) (take-append-drop mid a))
        (append_assoc y (take split b) (drop split b) ∙ ap (λ z. y ++ z) (take-append-drop split b))
        (g (drop split b) _ (x ++ take mid a) (y ++ take split b) (f (take split b) out x y h))

  diff_mid-Edits :
      (rec : List A → List A → List DiffOp → List DiffOp) (a b : List A) (out : List DiffOp)
      (x y : List A)
      → ((a' : List A) → length a' < length a → IsDiff rec a')
      → Edits out x y
      → Edits (diff_mid eq rec a b out) (x ++ a) (y ++ b)
  unfolding diff_mid
  diff_mid-Edits rec [] b out x y f h =
      Edits-congruence _ x (y ++ b) _ _ (sym (append-nil x)) refl
        (push_inserted out x y b (length b) refl h)
  diff_mid-Edits rec (c ∷ a) [] out x y f h =
      Edits-congruence _ (x ++ c ∷ a) y _ _ refl (sym (append-nil y))
        (push_deleted out x y (c ∷ a) h)
  diff_mid-Edits rec (c ∷ []) (d ∷ b) out x y f h = diff_one-Edits c (d ∷ b) _ out x y refl h
  diff_mid-Edits rec (c ∷ e ∷ a) (d ∷ b) out x y f h =
      let mid = length (c ∷ e ∷ a) / 2 in
      halves rec mid (split_at eq (c ∷ e ∷ a) (d ∷ b)) (c ∷ e ∷ a) (d ∷ b) out x y
        (f (take mid (c ∷ e ∷ a)) (omega (arith, length-take mid (c ∷ e ∷ a))))
        (f (drop mid (c ∷ e ∷ a)) (omega (arith, length-drop mid (c ∷ e ∷ a)))) h

  diff_trimmed-Edits :
      (rec : List A → List A → List DiffOp → List DiffOp) (a b : List A) (out : List DiffOp)
      (x y : List A)
      → ((a' : List A) → length a' < length a → IsDiff rec a')
      → Edits out x y
      → Edits (diff_trimmed eq rec a b out) (x ++ a) (y ++ b)
  unfolding diff_trimmed
  diff_trimmed-Edits rec a b out x y f h =
      let p = common_prefix eq a b in
      let ra = drop p a in
      let rb = drop p b in
      let s = common_suffix eq ra rb in
      let ma = take (length ra - s) ra in
      let mb = take (length rb - s) rb in
      let (e, len, ea, eb) = common_end eq same ra rb in
      let bound = common_prefix-le eq a b in
      let h1 =
        Edits-push_op out (equal_op p) x y (take p a) (take p b) h
          (length-take p a ∙ omega (arith, bound.0), take-common_prefix eq same a b) in
      let h2 =
        diff_mid-Edits rec ma mb _ (x ++ take p a) (y ++ take p b)
          (λ a' l. f a' (omega (arith, l, length-take (length ra - s) ra, length-drop p a))) h1 in
      let h3 =
        Edits-push_op _ (equal_op s) ((x ++ take p a) ++ ma) ((y ++ take p b) ++ mb) e e h2
          (len, refl) in
      Edits-congruence _ (((x ++ take p a) ++ ma) ++ e) (((y ++ take p b) ++ mb) ++ e) _ _
        (whole x a p ma e ea) (whole y b p mb e eb) h3
    where
      whole :
          (x a : List A) (p : ℕ) (m e : List A)
          → drop p a ≡ m ++ e
          → ((x ++ take p a) ++ m) ++ e ≡ x ++ a
      whole x a p m e w =
          append_assoc (x ++ take p a) m e
          ∙ append_assoc x (take p a) (m ++ e)
          ∙ ap (λ z. x ++ z) (ap (λ z. take p a ++ z) (sym w) ∙ take-append-drop p a)

  diff_rec-Edits : (fuel : ℕ) (a : List A) → length a < fuel → IsDiff (diff_rec eq fuel) a
  unfolding diff_rec
  diff_rec-Edits zero a lt b out x y h = absurd (omega arith)
  diff_rec-Edits (suc fuel) [] lt b out x y h =
      Edits-congruence _ x (y ++ b) _ _ (sym (append-nil x)) refl
        (push_inserted out x y b (length b) refl h)
  diff_rec-Edits (suc fuel) (c ∷ a) lt [] out x y h =
      Edits-congruence _ (x ++ c ∷ a) y _ _ refl (sym (append-nil y))
        (push_deleted out x y (c ∷ a) h)
  diff_rec-Edits (suc fuel) (c ∷ a) lt (d ∷ b) out x y h =
      elim (Bool-cases (ltb (diff_work_limit / length (d ∷ b)) (length (c ∷ a)))) [
        | inl e ↦
            rw e (push_inserted _ (x ++ c ∷ a) y (d ∷ b) _ refl (push_deleted out x y (c ∷ a) h))
        | inr e ↦ rw e (
            diff_trimmed-Edits (diff_rec eq fuel) (c ∷ a) (d ∷ b) out x y
              (λ a' l. diff_rec-Edits fuel a' (omega arith)) h)
      ]

  -- The runs of a diff take the whole of both sequences, where the elements of an equal run are the
  -- same in both.
  pub diff_seq-Edits : (a b : List A) → Edits (diff_seq eq a b) a b
  unfolding diff_seq
  diff_seq-Edits a b = diff_rec-Edits (length a + 1) a (omega arith) b [] [] [] (done refl refl)
