-- ===== src/Core/Review/Diff/Runs.antt =====
-- What runs say about two sequences, and that pushing a run keeps it.
use nisaba.Prelude.{
  ◌+◌, ◌≡◌, refl, sym, subst, ap, ◌∙◌, List, [], ◌∷◌, ◌++◌, append-nil, append_assoc, length,
  length-append, Bool-cases, inl, inr, ◌==◌, arith,
}
use mathlib.Core.Path.{ap₂}
use nisaba.Core.Review.Diff.{
  DiffOp, equal_op, delete_op, insert_op, op_len, merge_op, merge_last, push_op,
}

module _ {ℓ} {A : Type ℓ} where
  -- The run takes `x` from the old sequence and `y` from the new one.
  abbrev pub Takes : DiffOp → List A → List A → Type ℓ
  Takes (equal_op n) x y = (length x ≡ n) × (x ≡ y)
  Takes (delete_op n) x y = (length x ≡ n) × (y ≡ [])
  Takes (insert_op n) x y = (x ≡ []) × (length y ≡ n)

  -- The runs take the whole of both.
  pub data Edits : List DiffOp → List A → List A → Type ℓ where
    done : {x y : List A} → x ≡ [] → y ≡ [] → Edits [] x y
    run :
        {op : DiffOp} {ops : List DiffOp} {x y : List A} (x1 x2 y1 y2 : List A)
        → x ≡ x1 ++ x2
        → y ≡ y1 ++ y2
        → Takes op x1 y1
        → Edits ops x2 y2
        → Edits (op ∷ ops) x y

  pub one : (op : DiffOp) (x y : List A) → Takes op x y → Edits (op ∷ []) x y
  one op x y t = run x [] y [] (sym (append-nil x)) (sym (append-nil y)) t (done refl refl)

  Takes-nothing : (op : DiffOp) (x y : List A) → op_len op ≡ 0 → Takes op x y → (x ≡ []) × (y ≡ [])
  Takes-nothing (equal_op n) [] y h t = (refl, sym t.1)
  Takes-nothing (equal_op n) (c ∷ x) y h t = absurd (omega arith)
  Takes-nothing (delete_op n) [] y h t = (refl, t.1)
  Takes-nothing (delete_op n) (c ∷ x) y h t = absurd (omega arith)
  Takes-nothing (insert_op n) x [] h t = (t.0, refl)
  Takes-nothing (insert_op n) x (c ∷ y) h t = absurd (omega arith)

  cons_one :
      (op op' : DiffOp) (x y x' y' : List A)
      → Takes op x y
      → Takes op' x' y'
      → Edits (op ∷ op' ∷ []) (x ++ x') (y ++ y')
  cons_one op op' x y x' y' t t' = run x x' y y' refl refl t (one op' x' y' t')

  Edits-merge_op :
      (op op' : DiffOp) (x y x' y' : List A)
      → Takes op x y
      → Takes op' x' y'
      → Edits (merge_op op op') (x ++ x') (y ++ y')
  Edits-merge_op (equal_op a) (equal_op b) x y x' y' t t' =
      one (equal_op (a + b)) _ _ (omega (arith, length-append x x'), ap₂ ◌++◌ t.1 t'.1)
  Edits-merge_op (delete_op a) (delete_op b) x y x' y' t t' =
      one (delete_op (a + b)) _ _ (omega (arith, length-append x x'), ap₂ ◌++◌ t.1 t'.1)
  Edits-merge_op (insert_op a) (insert_op b) x y x' y' t t' =
      one (insert_op (a + b)) _ _ (ap₂ ◌++◌ t.0 t'.0, omega (arith, length-append y y'))
  Edits-merge_op (equal_op a) (delete_op b) x y x' y' t t' =
      cons_one (equal_op a) (delete_op b) x y x' y' t t'
  Edits-merge_op (equal_op a) (insert_op b) x y x' y' t t' =
      cons_one (equal_op a) (insert_op b) x y x' y' t t'
  Edits-merge_op (delete_op a) (equal_op b) x y x' y' t t' =
      cons_one (delete_op a) (equal_op b) x y x' y' t t'
  Edits-merge_op (delete_op a) (insert_op b) x y x' y' t t' =
      cons_one (delete_op a) (insert_op b) x y x' y' t t'
  Edits-merge_op (insert_op a) (equal_op b) x y x' y' t t' =
      cons_one (insert_op a) (equal_op b) x y x' y' t t'
  Edits-merge_op (insert_op a) (delete_op b) x y x' y' t t' =
      cons_one (insert_op a) (delete_op b) x y x' y' t t'

  -- The same runs for equal sequences.
  pub Edits-congruence :
      (ops : List DiffOp) (x y x' y' : List A) → x ≡ x' → y ≡ y' → Edits ops x y → Edits ops x' y'
  Edits-congruence ops x y x' y' e f h =
      subst (λ a. Edits ops a y') e (subst (λ b. Edits ops x b) f h)

  Edits-merge_last :
      (ops : List DiffOp) (op : DiffOp) (x y x' y' : List A)
      → Edits ops x y
      → Takes op x' y'
      → Edits (merge_last ops op) (x ++ x') (y ++ y')
  Edits-merge_last [] op x y x' y' (done e f) t =
      Edits-congruence (op ∷ []) x' y' _ _ (ap (λ z. z ++ x') (sym e)) (ap (λ z. z ++ y') (sym f))
        (one op x' y' t)
  Edits-merge_last (last ∷ []) op x y x' y' (run x1 x2 y1 y2 e f s (done g h)) t =
      Edits-congruence (merge_op last op) (x1 ++ x') (y1 ++ y') _ _
        (ap (λ z. z ++ x') (sym (e ∙ ap (λ z. x1 ++ z) g ∙ append-nil x1)))
        (ap (λ z. z ++ y') (sym (f ∙ ap (λ z. y1 ++ z) h ∙ append-nil y1)))
        (Edits-merge_op last op x1 y1 x' y' s t)
  Edits-merge_last (o ∷ p ∷ ops) op x y x' y' (run x1 x2 y1 y2 e f s r) t =
      run x1 (x2 ++ x') y1 (y2 ++ y') (ap (λ z. z ++ x') e ∙ append_assoc x1 x2 x')
        (ap (λ z. z ++ y') f ∙ append_assoc y1 y2 y') s
        (Edits-merge_last (p ∷ ops) op x2 y2 x' y' r t)

  pub Edits-push_op :
      (ops : List DiffOp) (op : DiffOp) (x y x' y' : List A)
      → Edits ops x y
      → Takes op x' y'
      → Edits (push_op ops op) (x ++ x') (y ++ y')
  unfolding push_op
  Edits-push_op ops op x y x' y' h t = elim (Bool-cases (op_len op == 0)) [
    | inl e ↦
        let (p, q) = Takes-nothing op x' y' (ground arith) t in
        rw e (
          Edits-congruence ops x y _ _ (sym (ap (λ z. x ++ z) p ∙ append-nil x))
            (sym (ap (λ z. y ++ z) q ∙ append-nil y)) h)
    | inr e ↦ rw e (Edits-merge_last ops op x y x' y' h t)
  ]
