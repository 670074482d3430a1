-- ===== src/OrdMap/Keys.antt =====
-- How many entries there are, and lookups in maps keyed by numbers, decided by the test of the keys.
use nisaba.Prelude.{
  ℕ, suc, ◌+◌, ◌≤◌, ◌==◌, if◌then◌else◌, Bool, true, false, Bool-cases, inl, inr, ◌≡◌, sym, subst,
  Option, none, some, [], ◌∷◌, length, arith,
}
use nisaba.OrdMap.{OrdMap, get, insert, remove}
use nisaba.OrdMap.Order.{Ord, nat_ord}
use nisaba.OrdMap.Laws.{
  IsSorted, Above, Above-trans, get-Above, remove-IsSorted, get-insert_self, get-insert_ne,
  get-remove_self, get-remove_ne,
}

abbrev pub is_there {ℓ} : {A : Type ℓ} → Option A → Bool
is_there none = false
is_there (some a) = true

module _ {ℓ κ} {K : Type ℓ} {V : Type κ} ⦃o : Ord K⦄ where
  pub length-remove : (p : K) (m : OrdMap K V) → length (remove p m) ≤ length m
  unfolding remove
  length-remove p [] = omega arith
  length-remove p ((k, v) ∷ m) = ground (arith, length-remove p m)

  pub length-insert : (p : K) (v : V) (m : OrdMap K V) → length (insert p v m) ≤ length m + 1
  unfolding insert
  length-insert p v [] = omega arith
  length-insert p v ((k, w) ∷ m) = ground (arith, length-insert p v m)

  -- An entry that is there is replaced.
  pub length-insert_found :
      (p : K) (v : V) (m : OrdMap K V)
      → IsSorted m
      → is_there (get p m) ≡ true
      → length (insert p v m) ≤ length m
  unfolding get insert
  length-insert_found p v [] s h = absurd (ground arith)
  length-insert_found p v ((k, w) ∷ m) s h =
      ground (arith, length-insert_found p v m s.1, get-Above p m, Above-trans p k m, s.0)

  -- An entry that is there is one that a removal takes.
  pub length-remove_found :
      (p : K) (m : OrdMap K V) → is_there (get p m) ≡ true → suc (length (remove p m)) ≡ length m
  unfolding get remove
  length-remove_found p [] h = absurd (ground arith)
  length-remove_found p ((k, v) ∷ m) h = ground (arith, length-remove_found p m)

module _ {ℓ} {V : Type ℓ} where
  pub get-insert_if :
      (q p : ℕ) (v : V) (m : OrdMap ℕ V)
      → get q (insert p v m) ≡ (if q == p then some v else get q m)
  get-insert_if q p v m = elim (Bool-cases (q == p)) [
    | inl e ↦
        let same : q ≡ p = ground arith in
        rw e (subst (λ x. get x (insert p v m) ≡ some v) (sym same) (get-insert_self p v m))
    | inr e ↦ rw e (get-insert_ne p q v m (λ x. ground arith))
  ]

  pub get-remove_if :
      (q p : ℕ) (m : OrdMap ℕ V)
      → IsSorted m
      → get q (remove p m) ≡ (if q == p then none else get q m)
  get-remove_if q p m h = elim (Bool-cases (q == p)) [
    | inl e ↦
        let same : q ≡ p = ground arith in
        rw e (subst (λ x. get x (remove p m) ≡ none) (sym same) (get-remove_self p m h))
    | inr e ↦ rw e (get-remove_ne p q m (λ x. ground arith))
  ]

  pub get_head :
      (q k : ℕ) (v : V) (m : OrdMap ℕ V) → get q ((k, v) ∷ m) ≡ (if q == k then some v else get q m)
  unfolding get
  get_head q k v m = ground arith

  -- A key of the tail is not the head's.
  tail_differs :
      (q k : ℕ) (m : OrdMap ℕ V) → Above k m → is_there (get q m) ≡ true → (q == k) ≡ false
  tail_differs q k m a h = elim (Bool-cases (q == k)) [
    | inl e ↦
        let same : q ≡ k = ground arith in
        let gone : get q m ≡ none = subst (λ x. get x m ≡ none) (sym same) (get-Above k m a) in
        absurd (ground (arith, gone))
    | inr e ↦ e
  ]

module _ {ℓ κ} {V : Type ℓ} {W : Type κ} where
  -- The keys of the first are keys of the second.
  abbrev pub IsSubset : OrdMap ℕ V → OrdMap ℕ W → Type 0
  IsSubset m n = (q : ℕ) → is_there (get q m) ≡ true → is_there (get q n) ≡ true

  tail-IsSubset :
      (k : ℕ) (v : V) (m : OrdMap ℕ V) (n : OrdMap ℕ W)
      → Above k m
      → IsSubset ((k, v) ∷ m) n
      → IsSorted n
      → IsSubset m (remove k n)
  tail-IsSubset k v m n a h s q e =
      let d = tail_differs q k m a e in
      let there : is_there (get q ((k, v) ∷ m)) ≡ true = rw (get_head q k v m, d) e in
      rw (get-remove_if q k n s, d) (h q there)

  -- A map whose keys are keys of another has no more entries.
  pub length-IsSubset :
      (m : OrdMap ℕ V) (n : OrdMap ℕ W)
      → IsSorted m
      → IsSorted n
      → IsSubset m n
      → length m ≤ length n
  length-IsSubset [] n s t h = omega arith
  length-IsSubset ((k, v) ∷ m) n s t h =
      let head : is_there (get k ((k, v) ∷ m)) ≡ true = rw (get_head k k v m) (ground arith) in
      let rest =
        length-IsSubset m (remove k n) s.1 (remove-IsSorted k n t)
          (tail-IsSubset k v m n s.0 h t) in
      omega (arith, rest, length-remove_found k n (h k head))
