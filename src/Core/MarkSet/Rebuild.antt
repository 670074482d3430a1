-- ===== src/Core/MarkSet/Rebuild.antt =====
-- Collecting marks whose ids ascend gives a set that iterates over them in their order.
use nisaba.Prelude.{
  ℕ, ◌<◌, ◌≤◌, ◌≡◌, refl, ◌∙◌, ap, not, ◌==◌, Bool, List, [], ◌∷◌, ◌++◌, map, All, All-keep, keep,
  append_assoc, append-nil, sym, arith, All-imp,
}
use nisaba.OrdMap
use nisaba.OrdMap.{OrdMap, values}
use nisaba.OrdMap.Order.{nat_ord}
use nisaba.OrdMap.Laws.{IsSorted, Above, Below, insert-Below}
use nisaba.Core.Mark.{Mark, MarkId}
use nisaba.Core.MarkSet.{MarkSet, insert, remove, iter, extend, from_iter}
use nisaba.Core.MarkSet.Laws.{IsValid, IsKeyed}

-- The ids ascend strictly.
abbrev pub Ascends : List Mark → Type 0
Ascends [] = Unit
Ascends (m ∷ ms) = All (λ x. m.id < x.id) ms × Ascends ms

abbrev entries : List Mark → MarkSet
entries ms = map (λ m. (m.id, m)) ms

Below-snoc : (s : MarkSet) (m : Mark) (b : ℕ) → Below s b → m.id < b → Below (s ++ (m.id, m) ∷ []) b
Below-snoc [] m b h k = (ground arith, tt)
Below-snoc ((j, w) ∷ s) m b h k = (h.0, Below-snoc s m b h.1 k)

Below-snoc-All :
    (s : MarkSet) (m : Mark) (ms : List Mark)
    → All (λ x. Below s x.id) ms
    → All (λ x. m.id < x.id) ms
    → All (λ x. Below (s ++ (m.id, m) ∷ []) x.id) ms
Below-snoc-All s m [] h k = tt
Below-snoc-All s m (x ∷ ms) h k = (Below-snoc s m x.id h.0 k.0, Below-snoc-All s m ms h.1 k.1)

extend-entries :
    (s : MarkSet) (ms : List Mark)
    → All (λ m. Below s m.id) ms
    → Ascends ms
    → extend s ms ≡ s ++ entries ms
unfolding extend insert
extend-entries s [] h a = sym (append-nil s)
extend-entries s (m ∷ ms) h a = rw (insert-Below m.id m s h.0) (
    extend-entries (s ++ (m.id, m) ∷ []) ms (Below-snoc-All s m ms h.1 a.0) a.1
    ∙ append_assoc s ((m.id, m) ∷ []) (entries ms))

values-entries : (ms : List Mark) → values (entries ms) ≡ ms
values-entries [] = refl
values-entries (m ∷ ms) = ap (◌∷◌ m) (values-entries ms)

All-Below_empty : (ms : List Mark) → All (λ m. Below {V = Mark} [] m.id) ms
All-Below_empty [] = tt
All-Below_empty (m ∷ ms) = (tt, All-Below_empty ms)

-- Marks whose ids ascend come back in their order.
pub iter-from_iter : (ms : List Mark) → Ascends ms → iter (from_iter ms) ≡ ms
unfolding from_iter
iter-from_iter ms a = rw (extend-entries [] ms (All-Below_empty ms) a) (values-entries ms)

pub Above-iter : (b : ℕ) (s : MarkSet) → IsKeyed s → Above b s → All (λ x. b < x.id) (iter s)
Above-iter b [] k a = tt
Above-iter b ((j, m) ∷ s) k a = (ground arith, Above-iter b s k.1 a.1)

iter-Ascends' : (s : MarkSet) → IsKeyed s → IsSorted s → Ascends (iter s)
iter-Ascends' [] k a = tt
iter-Ascends' ((j, m) ∷ s) k a = (
  All-imp (λ x. j < x.id) (λ x. m.id < x.id) (λ x h. ground arith) (iter s)
      (Above-iter j s k.1 a.0),
  iter-Ascends' s k.1 a.1,
)

pub iter-Ascends : (s : MarkSet) → IsValid s → Ascends (iter s)
iter-Ascends s v = iter-Ascends' s v.keyed v.sorted

pub keep-Ascends : (q : Mark → Bool) (ms : List Mark) → Ascends ms → Ascends (keep q ms)
keep-Ascends q [] a = tt
keep-Ascends q (m ∷ ms) a =
    ground (arith, keep-Ascends q ms a.1, All-keep (λ x. m.id < x.id) q ms a.0)

module _ (f : Mark → Mark) (same_id : (m : Mark) → (f m).id ≡ m.id) where
  All-map_id : (b : ℕ) (ms : List Mark) → All (λ x. b < x.id) ms → All (λ x. b < x.id) (map f ms)
  All-map_id b [] h = tt
  All-map_id b (m ∷ ms) h = (rw (same_id m) h.0, All-map_id b ms h.1)

  -- A change that keeps the ids keeps their order.
  pub map-Ascends : (ms : List Mark) → Ascends ms → Ascends (map f ms)
  map-Ascends [] a = tt
  map-Ascends (m ∷ ms) a = (rw (same_id m) (All-map_id m.id ms a.0), map-Ascends ms a.1)

-- Marks beyond an id are none of them removed.
remove-All :
    (b id : MarkId) (ms : List Mark)
    → id ≤ b
    → All (λ x. b < x.id) ms
    → keep (λ m. not (m.id == id)) ms ≡ ms
remove-All b id [] e h = refl
remove-All b id (m ∷ ms) e h = ground (arith, remove-All b id ms e h.1)

iter-remove' :
    (id : MarkId) (s : MarkSet)
    → IsKeyed s
    → IsSorted s
    → iter (OrdMap.remove id s) ≡ keep (λ m. not (m.id == id)) (iter s)
unfolding OrdMap.remove
iter-remove' id [] k a = refl
iter-remove' id ((j, m) ∷ s) k a = ground (
  arith,
  iter-remove' id s k.1 a.1,
  λ (e : id ≤ j). remove-All j id (iter s) e (Above-iter j s k.1 a.0),
)

-- Removing an id keeps the other marks, in their order.
pub iter-remove :
    (id : MarkId) (s : MarkSet)
    → IsValid s
    → iter (remove id s) ≡ keep (λ m. not (m.id == id)) (iter s)
unfolding remove
iter-remove id s v = iter-remove' id s v.keyed v.sorted
