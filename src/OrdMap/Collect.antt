-- ===== src/OrdMap/Collect.antt =====
-- Collecting an iterator of entries into an ordered map (`FromIterator`).
use nisaba.Prelude.{◌≡◌, refl, ap, ◌∙◌, Option, none, some, List, [], ◌∷◌, arith}
use Prim.Native.Nat.{Ordering}
use Prim.Native.Nat.Ordering.{lt, eq, gt}
use nisaba.OrdMap.{OrdMap, get, insert}
use nisaba.OrdMap.Order.{Ord}
use nisaba.OrdMap.Laws.{IsSorted, get-Above, insert-IsSorted}

abbrev pub or_else {ℓ} : {V : Type ℓ} → Option V → Option V → Option V
or_else none o = o
or_else (some v) o = some v

or_else_assoc {ℓ} :
    {V : Type ℓ} (a b c : Option V) → or_else a (or_else b c) ≡ or_else (or_else a b) c
or_else_assoc none b c = refl
or_else_assoc (some v) b c = refl

pub or_else-none {ℓ} : {V : Type ℓ} (a : Option V) → or_else a none ≡ a
or_else-none none = refl
or_else-none (some v) = refl

abbrev pub map_option {ℓ κ} : {V : Type ℓ} {W : Type κ} → (V → W) → Option V → Option W
map_option f none = none
map_option f (some v) = some (f v)

abbrev pub if_equal {ℓ} : {V : Type ℓ} → Ordering → V → Option V
if_equal eq v = some v
if_equal lt v = none
if_equal gt v = none

module _ {ℓ κ} {K : Type ℓ} {V : Type κ} ⦃o : Ord K⦄ where
  -- Later entries replace those before with their keys.
  unfoldable pub collect : List (K × V) → OrdMap K V → OrdMap K V
  unfolding insert
  collect [] m = m
  collect ((k, v) ∷ es) m = collect es (insert k v m)

  abbrev pub at_key : K → K → V → Option V
  at_key k j v = if_equal (o.cmp k j) v

  -- The last value that a list of entries has for a key.
  abbrev pub last_value : K → List (K × V) → Option V
  last_value k [] = none
  last_value k ((j, v) ∷ es) = or_else (last_value k es) (at_key k j v)

  get-insert :
      (k j : K) (v : V) (m : OrdMap K V) → get k (insert j v m) ≡ or_else (at_key k j v) (get k m)
  unfolding get insert
  get-insert k j v [] = ground arith
  get-insert k j v ((i, w) ∷ m) =
      ground
        (arith, o.same_key j i, ap (o.cmp k), get-insert k j v m, o.same_key k i, o.cmp_flip j i)

  pub get-collect :
      (k : K) (es : List (K × V)) (m : OrdMap K V)
      → get k (collect es m) ≡ or_else (last_value k es) (get k m)
  unfolding collect
  get-collect k [] m = refl
  get-collect k ((j, v) ∷ es) m =
      get-collect k es (insert j v m)
      ∙ ap (or_else (last_value k es)) (get-insert k j v m)
      ∙ or_else_assoc (last_value k es) (at_key k j v) (get k m)

  pub collect-IsSorted : (es : List (K × V)) (m : OrdMap K V) → IsSorted m → IsSorted (collect es m)
  unfolding collect
  collect-IsSorted [] m h = h
  collect-IsSorted ((k, v) ∷ es) m h = collect-IsSorted es (insert k v m) (insert-IsSorted k v m h)

module _ {ℓ κ μ} {K : Type ℓ} {V : Type κ} {W : Type μ} ⦃o : Ord K⦄ (f : K → V → W) where
  -- The entries with other values.
  abbrev pub with_values : OrdMap K V → List (K × W)
  with_values [] = []
  with_values ((k, v) ∷ m) = (k, f k v) ∷ with_values m

  pub last_value-with_values :
      (k : K) (m : OrdMap K V)
      → IsSorted m
      → last_value k (with_values m) ≡ map_option (f k) (get k m)
  unfolding get
  last_value-with_values k [] h = refl
  last_value-with_values k ((j, v) ∷ m) h =
      ground (arith, last_value-with_values k m h.1, get-Above j m h.0, o.same_key k j)
