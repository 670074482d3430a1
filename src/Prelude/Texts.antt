-- ===== src/Prelude/Texts.antt =====
-- A text is the list of its Unicode scalar values, and the selection of characters by index.
use Prim.Native.Nat.{ℕ, suc, ◌+◌, ◌≤◌, ◌<◌}
use mathlib.Core.Path.{◌≡◌, refl, ap}
use mathlib.Core.Bool.{Bool, true, false, ◌&&◌}
use mathlib.Core.Logic.{inl, inr}
use mathlib.Core.List.{List, [], ◌∷◌}
use native.Mathlib.Omega.{arith}
use nisaba.Prelude.Tests.{if◌then◌else◌, Bool-cases}
use nisaba.Prelude.Lists.{length}

abbrev pub Text : Type 0
Text = List ℕ

-- The characters whose index, counted from `i`, satisfies the test.
unfoldable pub select : (ℕ → Bool) → ℕ → Text → Text
select p i [] = []
select p i (c ∷ cs) = let rest = select p (suc i) cs in if p i then c ∷ rest else rest

-- Two tests that agree on the indices of the text select the same characters.
pub select-ext :
    (p q : ℕ → Bool) (i : ℕ) (t : Text)
    → ((j : ℕ) → i ≤ j → j < i + length t → p j ≡ q j)
    → select p i t ≡ select q i t
unfolding select
select-ext p q i [] h = refl
select-ext p q i (c ∷ cs) h = ground (
  arith,
  h i (omega arith) (omega arith),
  select-ext p q (suc i) cs (λ j a b. h j (omega arith) (omega arith)),
)

pub select-all :
    (p : ℕ → Bool) (i : ℕ) (t : Text)
    → ((j : ℕ) → i ≤ j → j < i + length t → p j ≡ true)
    → select p i t ≡ t
unfolding select
select-all p i [] h = refl
select-all p i (c ∷ cs) h = ground (
  arith,
  h i (omega arith) (omega arith),
  select-all p (suc i) cs (λ j a b. h j (omega arith) (omega arith)),
)

-- A selection from a selection, where `to` gives each kept index its new place.
pub select-select :
    (p r : ℕ → Bool) (to : ℕ → ℕ)
    → ((j : ℕ) → r j ≡ true → to (suc j) ≡ suc (to j))
    → ((j : ℕ) → r j ≡ false → to (suc j) ≡ to j)
    → (i : ℕ) (t : Text) → select p (to i) (select r i t) ≡ select (λ j. r j && p (to j)) i t
unfolding select
select-select p r to kept dropped i [] = refl
select-select p r to kept dropped i (c ∷ cs) =
    let ih = select-select p r to kept dropped (suc i) cs in
    elim (Bool-cases (r i)) [
      | inl e ↦
          rw (e, select) (ap (λ rest. if p (to i) then c ∷ rest else rest) (rw (kept i e) at ih))
      | inr e ↦ rw (e, select) (rw (dropped i e) at ih)
    ]
