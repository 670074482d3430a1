-- ===== src/Core/Deleted.antt =====
-- crates/nisaba-core/src/validation.rs: whether deletions cover a whole range.
pub mod Sweep
pub mod Exact
use nisaba.Prelude.{
  ℕ, compare, Ordering, ltb, leb, if◌then◌else◌, Bool, true, false, Option, none, some, List, [],
  ◌∷◌, max, sort_by, u32_or_max,
}
use nisaba.OrdMap.Order.{then_with}
use nisaba.Core.Range.{TextRange, is_empty, intersect}
use nisaba.Core.Mark.{Mark}

-- The push of one part.
abbrev pub push_part : Option TextRange → List (ℕ × ℕ) → List (ℕ × ℕ)
push_part none parts = parts
push_part (some part) parts = (u32_or_max part.start, u32_or_max part.end) ∷ parts

-- The parts of the range that the deletions cover.
unfoldable pub coverage : TextRange → List Mark → List (ℕ × ℕ)
unfolding intersect
coverage range [] = []
coverage range (d ∷ ds) = push_part (intersect d.range range) (coverage range ds)

-- The derived order of the pairs.
abbrev pub pair_order : ℕ × ℕ → ℕ × ℕ → Ordering
pair_order a b = then_with (compare a.0 b.0) (compare a.1 b.1)

-- The sweep over the sorted parts.
unfoldable pub sweep : ℕ → ℕ → List (ℕ × ℕ) → Bool
sweep end cursor [] = leb end cursor
sweep end cursor ((s, e) ∷ parts) =
    let reached = max cursor e in
    let rest = sweep end reached parts in
    if ltb cursor s then false else if leb end reached then true else rest

abbrev pub sweep_parts : TextRange → List (ℕ × ℕ) → Bool
sweep_parts range [] = false
sweep_parts range (p ∷ parts) =
    sweep (u32_or_max range.end) (u32_or_max range.start) (sort_by pair_order (p ∷ parts))

unfoldable pub is_range_fully_deleted : TextRange → List Mark → Bool
unfolding is_empty coverage sweep
is_range_fully_deleted range deletes =
    if is_empty range then false else sweep_parts range (coverage range deletes)
