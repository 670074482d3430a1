-- ===== src/Core/Review/Bulk.antt =====
-- crates/nisaba-core/src/review.rs: resolving a batch of changes.
pub mod Views
pub mod Total
use nisaba.Prelude.{ℕ, Ordering, Bool, Option, none, some, List, [], ◌∷◌, ◌++◌, Text, sort_by}
use nisaba.Core.Range.{TextRange}
use nisaba.Core.Mark.{Mark, MarkId, occurrence_order}
use nisaba.Core.MarkSet
use nisaba.Core.MarkSet.{MarkSet}
use nisaba.Core.Resolution.{Resolution, ResolutionOutcome, Result, ok, err, resolve}

pub record BulkResolutionOperation : Type 0 where
  pub id : MarkId
  pub text_changed : Bool
  pub removed_range : Option TextRange
  pub remapped : ℕ
  pub emptied : List MarkId

pub record BulkResolutionOutcome : Type 0 where
  pub operations : List BulkResolutionOperation
  pub text : Text
  pub marks : MarkSet

abbrev pub push_found : MarkId → Option Mark → List (MarkId × Mark) → List (MarkId × Mark)
push_found id none rest = rest
push_found id (some m) rest = (id, m) ∷ rest

-- The ids of the set's marks, with their marks.
unfoldable pub found_marks : MarkSet → List MarkId → List (MarkId × Mark)
unfolding MarkSet.get
found_marks marks [] = []
found_marks marks (id ∷ ids) = push_found id (MarkSet.get id marks) (found_marks marks ids)

abbrev pub selected_order : MarkId × Mark → MarkId × Mark → Ordering
selected_order a b = occurrence_order a.1 b.1

unfoldable pub selected : MarkSet → List MarkId → List (MarkId × Mark)
unfolding found_marks sort_by occurrence_order
selected marks ids = sort_by selected_order (found_marks marks ids)

unfoldable pub operation : MarkId → ResolutionOutcome → BulkResolutionOperation
operation id outcome = record {
  id = id;
  text_changed = outcome.text_changed;
  removed_range = outcome.removed_range;
  remapped = outcome.remapped;
  emptied = outcome.emptied;
}

-- The state of the loop after a resolution.
unfoldable pub after : MarkId → ResolutionOutcome → BulkResolutionOutcome → BulkResolutionOutcome
unfolding operation
after id outcome now = record {
  operations = now.operations ++ operation id outcome ∷ [];
  text = outcome.text;
  marks = outcome.marks;
}

-- The loop over the selection.
unfoldable pub bulk_loop :
    Resolution → List (MarkId × Mark) → BulkResolutionOutcome → Result BulkResolutionOutcome
unfolding MarkSet.get resolve after
bulk_loop r [] now = ok now
bulk_loop r ((id, m) ∷ rest) now = elim (MarkSet.get id now.marks) [
  | none ↦ bulk_loop r rest now
  | some _ ↦ elim (resolve now.text now.marks id r) [
    | err e ↦ err e
    | ok outcome ↦ bulk_loop r rest (after id outcome now)
  ]
]

unfoldable pub resolve_bulk :
    Text → MarkSet → List MarkId → Resolution → Result BulkResolutionOutcome
unfolding selected bulk_loop
resolve_bulk text marks ids r =
    bulk_loop r (selected marks ids) (record { operations = []; text = text; marks = marks })
