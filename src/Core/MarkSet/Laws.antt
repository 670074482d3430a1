-- ===== src/Core/MarkSet/Laws.antt =====
-- The invariant of a mark set: ids ascend, and each mark is stored under its own id.
use nisaba.Prelude.{
  ◌≡◌, refl, Bool, List, [], ◌∷◌, any, ◌∙◌, keep, ◌&&◌, arith, any-sort_by, any-keep,
}
use nisaba.OrdMap
use nisaba.OrdMap.Order.{nat_ord}
use nisaba.OrdMap.Laws.{IsSorted, insert-IsSorted, remove-IsSorted}
use nisaba.Core.Mark.{Mark, MarkId, MarkKind, same_kind}
use nisaba.Core.MarkSet.{
  MarkSet, insert, remove, iter, extend, from_iter, of_kind, range_order, sort_by_range,
}

abbrev pub IsKeyed : MarkSet → Type 0
IsKeyed [] = Unit
IsKeyed ((k, m) ∷ s) = (k ≡ m.id) × IsKeyed s

pub record IsValid (s : MarkSet) : Type 0 where
  pub sorted : IsSorted s
  pub keyed : IsKeyed s

insert-IsKeyed : (m : Mark) (s : MarkSet) → IsKeyed s → IsKeyed (OrdMap.insert m.id m s)
unfolding OrdMap.insert
insert-IsKeyed m [] h = (refl, tt)
insert-IsKeyed m ((k, w) ∷ s) h = ground (arith, insert-IsKeyed m s h.1)

remove-IsKeyed : (id : MarkId) (s : MarkSet) → IsKeyed s → IsKeyed (OrdMap.remove id s)
unfolding OrdMap.remove
remove-IsKeyed id [] h = tt
remove-IsKeyed id ((k, w) ∷ s) h = ground (arith, remove-IsKeyed id s h.1)

pub insert-IsValid : (m : Mark) (s : MarkSet) → IsValid s → IsValid (insert m s)
unfolding insert
insert-IsValid m s v = record {
  sorted = insert-IsSorted m.id m s v.sorted;
  keyed = insert-IsKeyed m s v.keyed;
}

pub remove-IsValid : (id : MarkId) (s : MarkSet) → IsValid s → IsValid (remove id s)
unfolding remove
remove-IsValid id s v = record {
  sorted = remove-IsSorted id s v.sorted;
  keyed = remove-IsKeyed id s v.keyed;
}

pub extend-IsValid : (ms : List Mark) (s : MarkSet) → IsValid s → IsValid (extend s ms)
unfolding extend
extend-IsValid [] s v = v
extend-IsValid (m ∷ ms) s v = extend-IsValid ms (insert m s) (insert-IsValid m s v)

pub from_iter-IsValid : (ms : List Mark) → IsValid (from_iter ms)
unfolding from_iter
from_iter-IsValid ms = extend-IsValid ms [] (record { sorted = tt; keyed = tt })

-- Some mark of the kind satisfies a test exactly when some mark does that has the kind.
pub any-of_kind :
    (p : Mark → Bool) (k : MarkKind) (s : MarkSet)
    → any p (of_kind k s) ≡ any (λ m. same_kind m.kind k && p m) (iter s)
unfolding of_kind sort_by_range
any-of_kind p k s =
    any-sort_by range_order p (keep (λ m. same_kind m.kind k) (iter s)) ∙ any-keep p _ (iter s)
