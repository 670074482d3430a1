-- ===== src/OrdMap/Laws.antt =====
-- What the operations of the ordered map do to lookups and to the order of the keys.
use nisaba.Prelude.{◌≡◌, refl, ◌≢◌, none, some, [], ◌∷◌, ◌++◌, arith}
use Prim.Native.Nat.Ordering.{lt}
use nisaba.OrdMap.Order.{Ord}
use nisaba.OrdMap.{OrdMap, get, insert, remove}

module _ {ℓ κ} {K : Type ℓ} {V : Type κ} ⦃o : Ord K⦄ where
  -- Every key is greater than the bound.
  abbrev pub Above : K → OrdMap K V → Type 0
  Above b [] = Unit
  Above b ((k, v) ∷ m) = (o.cmp b k ≡ lt) × Above b m

  -- The keys ascend strictly.
  abbrev pub IsSorted : OrdMap K V → Type 0
  IsSorted [] = Unit
  IsSorted ((k, v) ∷ m) = Above k m × IsSorted m

  pub Above-trans : (a b : K) (m : OrdMap K V) → o.cmp a b ≡ lt → Above b m → Above a m
  Above-trans a b [] h s = tt
  Above-trans a b ((k, v) ∷ m) h s = (o.ascend a b k h s.0, Above-trans a b m h s.1)

  pub Above-insert :
      (b k : K) (v : V) (m : OrdMap K V) → o.cmp b k ≡ lt → Above b m → Above b (insert k v m)
  unfolding insert
  Above-insert b k v [] h s = (h, tt)
  Above-insert b k v ((j, w) ∷ m) h s = ground (arith, Above-insert b k v m h s.1)

  pub Above-remove : (b k : K) (m : OrdMap K V) → Above b m → Above b (remove k m)
  unfolding remove
  Above-remove b k [] s = tt
  Above-remove b k ((j, w) ∷ m) s = ground (arith, Above-remove b k m s.1)

  pub insert-IsSorted : (k : K) (v : V) (m : OrdMap K V) → IsSorted m → IsSorted (insert k v m)
  unfolding insert
  insert-IsSorted k v [] s = (tt, tt)
  insert-IsSorted k v ((j, w) ∷ m) s =
      ground
        (arith, insert-IsSorted k v m s.1, Above-insert j k v m, Above-trans k j m, o.cmp_flip k j)

  pub remove-IsSorted : (k : K) (m : OrdMap K V) → IsSorted m → IsSorted (remove k m)
  unfolding remove
  remove-IsSorted k [] s = tt
  remove-IsSorted k ((j, w) ∷ m) s = ground (arith, remove-IsSorted k m s.1, Above-remove j k m s.0)

  pub get-insert_self : (k : K) (v : V) (m : OrdMap K V) → get k (insert k v m) ≡ some v
  unfolding get insert
  get-insert_self k v [] = ground (arith, o.cmp_self k)
  get-insert_self k v ((j, w) ∷ m) = ground (arith, o.cmp_self k, get-insert_self k v m)

  pub get-insert_ne : (k p : K) (v : V) (m : OrdMap K V) → p ≢ k → get p (insert k v m) ≡ get p m
  unfolding get insert
  get-insert_ne k p v [] n = ground (arith, o.same_key p k)
  get-insert_ne k p v ((j, w) ∷ m) n =
      ground (arith, o.same_key p k, o.same_key k j, get-insert_ne k p v m n)

  -- A key below all others is not found.
  pub get-Above : (k : K) (m : OrdMap K V) → Above k m → get k m ≡ none
  unfolding get
  get-Above k [] s = refl
  get-Above k ((j, v) ∷ m) s = ground (arith, get-Above k m s.1)

  pub get-remove_self : (k : K) (m : OrdMap K V) → IsSorted m → get k (remove k m) ≡ none
  unfolding get remove
  get-remove_self k [] s = refl
  get-remove_self k ((j, w) ∷ m) s =
      ground (arith, get-remove_self k m s.1, get-Above j m s.0, o.same_key k j)

  pub get-remove_ne : (k p : K) (m : OrdMap K V) → p ≢ k → get p (remove k m) ≡ get p m
  unfolding get remove
  get-remove_ne k p [] n = refl
  get-remove_ne k p ((j, w) ∷ m) n =
      ground (arith, o.same_key p j, o.same_key k j, get-remove_ne k p m n)

  -- Every key is less than the bound.
  abbrev pub Below : OrdMap K V → K → Type 0
  Below [] b = Unit
  Below ((k, v) ∷ m) b = (o.cmp k b ≡ lt) × Below m b

  -- A key beyond all others goes to the end.
  pub insert-Below : (k : K) (v : V) (m : OrdMap K V) → Below m k → insert k v m ≡ m ++ (k, v) ∷ []
  unfolding insert
  insert-Below k v [] s = refl
  insert-Below k v ((j, w) ∷ m) s = ground (arith, o.cmp_flip j k, insert-Below k v m s.1)
