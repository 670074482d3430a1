-- ===== src/Core/MarkSet.antt =====
-- crates/nisaba-core/src/mark.rs: the marks of a document, keyed by their ids.
pub mod Laws
pub mod Rebuild
use nisaba.Prelude.{
  ℕ, compare, Ordering, Bool, true, false, Option, List, [], ◌∷◌, length, keep, sort_by,
}
use nisaba.OrdMap
use nisaba.OrdMap.{OrdMap, values}
use nisaba.OrdMap.Order.{nat_ord, then_with}
use nisaba.Core.Range.{TextRange, overlaps, contains_range}
use nisaba.Core.Mark.{Mark, MarkId, MarkKind, same_kind, occurrence_order}

abbrev pub MarkSet : Type 0
MarkSet = OrdMap MarkId Mark

abbrev pub empty : MarkSet
empty = []

unfoldable pub insert : Mark → MarkSet → MarkSet
insert m s = OrdMap.insert m.id m s

unfoldable pub remove : MarkId → MarkSet → MarkSet
remove id s = OrdMap.remove id s

unfoldable pub get : MarkId → MarkSet → Option Mark
get id s = OrdMap.get id s

abbrev pub len : MarkSet → ℕ
len s = length s

unfoldable pub is_empty : MarkSet → Bool
is_empty [] = true
is_empty (e ∷ s) = false

-- `iter`, in id order.
abbrev pub iter : MarkSet → List Mark
iter s = values s

-- By start, then end, then occurrence.
unfoldable pub range_order : Mark → Mark → Ordering
unfolding occurrence_order
range_order a b =
    then_with (then_with (compare a.range.start b.range.start) (compare a.range.end b.range.end))
      (occurrence_order a b)

unfoldable pub sort_by_range : List Mark → List Mark
unfolding sort_by range_order
sort_by_range ms = sort_by range_order ms

unfoldable pub of_kind : MarkKind → MarkSet → List Mark
unfolding sort_by_range
of_kind k s = sort_by_range (keep (λ m. same_kind m.kind k) (iter s))

unfoldable pub overlapping : TextRange → MarkSet → List Mark
unfolding sort_by_range overlaps
overlapping r s = sort_by_range (keep (λ m. overlaps m.range r) (iter s))

unfoldable pub contained_in : TextRange → MarkSet → List Mark
unfolding sort_by_range contains_range
contained_in r s = sort_by_range (keep (λ m. contains_range r m.range) (iter s))

-- `FromIterator`: a later mark replaces an earlier one with its id.
unfoldable pub extend : MarkSet → List Mark → MarkSet
unfolding insert
extend s [] = s
extend s (m ∷ ms) = extend (insert m s) ms

unfoldable pub from_iter : List Mark → MarkSet
unfolding extend
from_iter ms = extend empty ms
