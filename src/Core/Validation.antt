-- ===== src/Core/Validation.antt =====
-- crates/nisaba-core/src/validation.rs: the issues of a text with marks.
pub mod Conflicts
pub mod Clean
use nisaba.Prelude.{
  ℕ, ◌&&◌, ◌||◌, not, compare, Ordering, ltb, leb, ◌==◌, if◌then◌else◌, Bool, true, false, Option,
  none, some, List, [], ◌∷◌, ◌++◌, Text, min, max, any, keep, sort_by, u32_or_max,
}
use nisaba.OrdMap.Order.{then_with}
use nisaba.Core.Range.{TextRange, new, is_empty, is_well_ordered}
use nisaba.Core.Mark.{Mark, MarkId, insertion, deletion, comment, same_kind}
use nisaba.Core.MarkSet.{MarkSet, iter, of_kind}
use nisaba.Core.Flags.{char_len, char_flags, has_flag, flag_insert, flag_delete}
use nisaba.Core.Deleted.{is_range_fully_deleted}

pub data ValidationIssue : Type 0 where
  inverted_range : MarkId → TextRange → ValidationIssue
  out_of_bounds : MarkId → TextRange → ℕ → ValidationIssue
  insert_delete_conflict : MarkId → MarkId → TextRange → ValidationIssue
  orphaned_comment : MarkId → TextRange → ValidationIssue

abbrev same_range : TextRange → TextRange → Bool
same_range r s = r.start == s.start && r.end == s.end

-- The derived `==` of two conflicts; only conflicts are compared.
abbrev pub same_issue : ValidationIssue → ValidationIssue → Bool
same_issue (insert_delete_conflict a b r) (insert_delete_conflict c d s) =
    a == c && (b == d && same_range r s)
same_issue _ _ = false

-- The first loop, over every mark of a text with `n` characters.
unfoldable pub structural_issues : ℕ → List Mark → List ValidationIssue
unfolding is_well_ordered
structural_issues n [] = []
structural_issues n (m ∷ ms) =
    let rest = structural_issues n ms in
    if not (is_well_ordered m.range)
    then inverted_range m.id m.range ∷ rest
    else if ltb n m.range.start || ltb n m.range.end
    then out_of_bounds m.id m.range (u32_or_max n) ∷ rest
    else rest

unfoldable pub has_conflict : List ℕ → Bool
unfolding has_flag
has_conflict flags = any (λ f. has_flag f flag_insert && has_flag f flag_delete) flags

pub record Span : Type 0 where
  pub start : ℕ
  pub end : ℕ
  pub id : MarkId

-- `clamped`, with the mark's id.
unfoldable pub clamped : ℕ → Mark → Option Span
clamped n m =
    let s = min m.range.start n in
    let e = min m.range.end n in
    if ltb s e then some (record { start = s; end = e; id = m.id }) else none

abbrev pub push_span : Option Span → List Span → List Span
push_span none spans = spans
push_span (some x) spans = x ∷ spans

-- `filter_map` with `clamped`.
unfoldable pub clamped_spans : ℕ → List Mark → List Span
unfolding clamped
clamped_spans n [] = []
clamped_spans n (m ∷ ms) = push_span (clamped n m) (clamped_spans n ms)

-- The inner loop, for one insertion.
unfoldable pub conflicts_with : Span → List Span → List ValidationIssue
unfolding new
conflicts_with ins [] = []
conflicts_with ins (del ∷ deletes) =
    let rest = conflicts_with ins deletes in
    let overlap_s = max ins.start del.start in
    let overlap_e = min ins.end del.end in
    if ltb overlap_s overlap_e
    then (insert_delete_conflict ins.id del.id (new (u32_or_max overlap_s) (u32_or_max overlap_e))
        ∷ rest)
    else rest

unfoldable pub conflict_pairs : List Span → List Span → List ValidationIssue
unfolding conflicts_with
conflict_pairs [] deletes = []
conflict_pairs (ins ∷ inserts) deletes =
    conflicts_with ins deletes ++ conflict_pairs inserts deletes

abbrev conflict_key : ValidationIssue → ℕ × ℕ
conflict_key (insert_delete_conflict a b r) = (a, b)
conflict_key _ = (0, 0)

abbrev pub conflict_order : ValidationIssue → ValidationIssue → Ordering
conflict_order x y =
    then_with (compare (conflict_key x).0 (conflict_key y).0)
      (compare (conflict_key x).1 (conflict_key y).1)

-- `Vec::dedup`: an issue equal to the one kept before it is dropped.
unfoldable pub dedup_after : ValidationIssue → List ValidationIssue → List ValidationIssue
dedup_after x [] = []
dedup_after x (y ∷ ys) =
    let dropped = dedup_after x ys in
    let kept = y ∷ dedup_after y ys in if same_issue x y then dropped else kept

abbrev pub dedup : List ValidationIssue → List ValidationIssue
dedup [] = []
dedup (x ∷ xs) = x ∷ dedup_after x xs

-- The pairs of an insertion and a deletion that share characters, in order.
unfoldable pub found_conflicts : Text → MarkSet → List ValidationIssue
unfolding clamped_spans of_kind conflict_pairs sort_by
found_conflicts text marks =
    let n = char_len text in
    let inserts = clamped_spans n (keep (λ m. same_kind m.kind insertion) (iter marks)) in
    let deletes = clamped_spans n (of_kind deletion marks) in
    dedup (sort_by conflict_order (conflict_pairs inserts deletes))

-- The second part.
unfoldable pub conflict_issues : Text → MarkSet → List ValidationIssue
unfolding has_conflict char_flags found_conflicts
conflict_issues text marks =
    if has_conflict (char_flags text marks) then found_conflicts text marks else []

-- The third loop, over the comments.
unfoldable pub orphans : List Mark → List Mark → List ValidationIssue
unfolding is_empty is_range_fully_deleted
orphans deletes [] = []
orphans deletes (c ∷ cs) =
    let rest = orphans deletes cs in
    if is_empty c.range
    then rest
    else if is_range_fully_deleted c.range deletes
    then orphaned_comment c.id c.range ∷ rest
    else rest

abbrev orphan_key : ValidationIssue → ℕ
orphan_key (orphaned_comment c r) = c
orphan_key _ = 0

abbrev pub orphan_order : ValidationIssue → ValidationIssue → Ordering
orphan_order x y = compare (orphan_key x) (orphan_key y)

unfoldable pub validate : Text → MarkSet → List ValidationIssue
unfolding structural_issues conflict_issues orphans of_kind sort_by
validate text marks =
    structural_issues (char_len text) (iter marks)
    ++ (conflict_issues text marks
        ++ sort_by orphan_order (orphans (of_kind deletion marks) (of_kind comment marks)))

unfoldable pub is_valid : Text → MarkSet → Bool
unfolding validate
is_valid text marks = elim (validate text marks) [ [] ↦ true | ◌∷◌ x xs ↦ false ]
