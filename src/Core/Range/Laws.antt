-- ===== src/Core/Range/Laws.antt =====
-- The operations on ranges against the positions that a range contains.
use nisaba.Prelude.{
  ◌≤◌, ◌≡◌, ◌↔◌, ◌&&◌, if◌then◌else◌, ltb, leb, Bool, true, false, Option, none, some, arith,
}
use nisaba.Core.Position.{Position}
use nisaba.Core.Range.{
  TextRange, is_empty, is_well_ordered, point, contains_pos, contains_range, overlaps, intersect,
  union, clamp,
}

-- Whether a position lies in a range that may be missing.
abbrev pub contains_in : Option TextRange → Position → Bool
contains_in none p = false
contains_in (some r) p = contains_pos r p

abbrev pub is_some : Option TextRange → Bool
is_some none = false
is_some (some r) = true

-- The intersection contains the positions that both ranges contain, and there is one exactly when
-- the ranges overlap.
pub intersect_exact :
    (r s : TextRange) (p : Position)
    → (contains_in (intersect r s) p ≡ (contains_pos r p && contains_pos s p))
      × (is_some (intersect r s) ≡ overlaps r s)
unfolding intersect contains_pos overlaps
intersect_exact r s p = (ground arith, ground arith)

-- A range as the union counts it: an empty one is the point where it starts.
abbrev pub extent : TextRange → TextRange
extent r = if is_empty r then point r.start else r

-- The union of any two ranges, empty ones too, is well ordered and contains both, and a range
-- contains it exactly when it contains both, where an empty one counts as the point where it starts.
pub union_smallest :
    (r s t : TextRange)
    → (is_well_ordered (union r s) ≡ true)
      × (contains_range (union r s) r ≡ true)
      × (contains_range (union r s) s ≡ true)
      × (contains_range t (union r s)
          ≡ (contains_range t (extent r) && contains_range t (extent s)))
unfolding union contains_range is_empty is_well_ordered point
union_smallest r s t = (ground arith, ground arith, ground arith, ground arith)

-- A range that meets the bounds is clamped to the positions of it that lie between them.
pub clamp_within :
    (r : TextRange) (low high : Position)
    → low ≤ high
    → r.start ≤ high
    → (low ≤ (clamp r low high).start)
      × ((clamp r low high).start ≤ (clamp r low high).end)
      × ((clamp r low high).end ≤ high)
unfolding clamp
clamp_within r low high h k = (ground arith, ground arith, ground arith)

-- The range clamped to bounds in order is well ordered, starts at the lower bound or later and
-- contains the positions of the range between the bounds, and it ends within the upper bound exactly
-- when the range starts within it.
pub clamp_exact :
    (r : TextRange) (low high p : Position)
    → low ≤ high
    → (is_well_ordered (clamp r low high) ≡ true)
      × (low ≤ (clamp r low high).start)
      × (contains_pos (clamp r low high) p ≡ (contains_pos r p && (leb low p && ltb p high)))
      × (((clamp r low high).end ≤ high) ↔ (r.start ≤ high))
unfolding clamp contains_pos is_empty is_well_ordered
clamp_exact r low high p h = (ground arith, ground arith, ground arith, ground arith)
