-- ===== src/OrdMap.antt =====
-- The ordered map of the standard library (`BTreeMap`), as the list of its entries in key order.
pub mod Order
pub mod Laws
pub mod Collect
pub mod Keys
use nisaba.Prelude.{Option, none, some, List, [], ◌∷◌, map}
use Prim.Native.Nat.Ordering.{lt, eq, gt}
use Order.{Ord}

abbrev pub OrdMap {ℓ κ} : Type ℓ → Type κ → Type (ℓ ⊔ κ)
OrdMap K V = List (K × V)

module _ {ℓ κ} {K : Type ℓ} {V : Type κ} where
  -- `BTreeMap::values`, in key order.
  abbrev pub values : OrdMap K V → List V
  values [] = []
  values ((k, v) ∷ m) = v ∷ values m

module _ {ℓ κ} {K : Type ℓ} {V : Type κ} ⦃o : Ord K⦄ where
  unfoldable pub get : K → OrdMap K V → Option V
  get k [] = none
  get k ((j, v) ∷ m) = elim (o.cmp k j) [ eq ↦ some v | lt ↦ get k m | gt ↦ get k m ]

  unfoldable pub insert : K → V → OrdMap K V → OrdMap K V
  insert k v [] = (k, v) ∷ []
  insert k v ((j, w) ∷ m) = elim (o.cmp k j) [
    | lt ↦ (k, v) ∷ (j, w) ∷ m
    | eq ↦ (j, v) ∷ m
    | gt ↦ (j, w) ∷ insert k v m
  ]

  unfoldable pub remove : K → OrdMap K V → OrdMap K V
  remove k [] = []
  remove k ((j, v) ∷ m) = elim (o.cmp k j) [
    | lt ↦ (j, v) ∷ remove k m
    | eq ↦ m
    | gt ↦ (j, v) ∷ remove k m
  ]
