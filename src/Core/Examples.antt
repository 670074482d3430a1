-- ===== src/Core/Examples.antt =====
-- Runs of the model on small documents, and the theorems at concrete inputs.
use nisaba.Prelude.{
  leb, ltb, ℕ, ◌<◌, ◌≤◌, ◌≡◌, ◌↔◌, refl, true, false, not, List, sort_by, ◌&&◌, none, some, [], ◌∷◌,
  Text, any, All, get_or, select, arith,
}
use nisaba.OrdMap
use nisaba.OrdMap.{OrdMap}
use nisaba.OrdMap.Order.{nat_ord}
use nisaba.Core.Position.{len_utf8, to_byte, from_byte, to_utf16, from_utf16}
use nisaba.Core.Position.Offsets.{to_byte-from_byte, to_utf16-from_utf16}
use nisaba.Core.Range.{
  is_well_ordered, TextRange, is_empty, contains_pos, contains_range, overlaps, intersect, union,
  clamp,
}
use nisaba.Core.Range.Laws.{
  contains_in, is_some, intersect_exact, extent, union_smallest, clamp_within, clamp_exact,
}
use nisaba.Core.Range.Slices.{slice_chars, slice_chars_exact}
use nisaba.Core.Mark.{Mark, is_change, MarkKind, insertion, deletion, secret}
use nisaba.Core.MarkSet
use nisaba.Core.MarkSet.{MarkSet, iter, of_kind}
use nisaba.Core.MarkSet.Laws.{IsValid}
use nisaba.Core.Flags.{flag_insert, has_flag, char_flags}
use nisaba.Core.Flags.Covered.{covered, char_flags-covered}
use nisaba.Core.Delimiters.{
  classify_inline_safety, opens_one_content_block, non_square_delimiters_clean,
}
use nisaba.Core.RedlineStyle.{scalars, new_default, validate, wrap_change}
use nisaba.Core.Redline.{redline, redline_with_report, flag_to_run_kind}
use nisaba.Core.Redline.Safe.{classify-redline}
use nisaba.Core.Redline.Runs.{in_run, redline_runs}
use nisaba.Core.Projection.{baseline, proposed, redlined, public, project}
use nisaba.Core.Projection.Visible.{visible, project-visible}
use nisaba.Core.Resolution.{accepted, rejected, ok, removed, resolve}
use nisaba.Core.Resolution.Bounds.{IsSound, Fits, resolve-IsSound}
use nisaba.Core.Deleted.{is_range_fully_deleted}
use nisaba.Core.Deleted.Exact.{deleted_at, is_range_fully_deleted_exact}
use nisaba.Core.Validation.{is_valid}
use nisaba.Core.Validation.Clean.{some_orphan, is_valid_exact}
use nisaba.Core.Review.Bulk.{
  BulkResolutionOutcome, found_marks, selected, after, bulk_loop, resolve_bulk,
}
use nisaba.Core.Review.Bulk.Views.{resolve_bulk_keeps_view}
use nisaba.Core.Review.Bulk.Total.{AreChanges, listed, resolve_bulk_total}
use nisaba.Core.Resolution.Remap.{InU32}
use nisaba.Core.Resolution.Views.{resolve_keeps_view}
use nisaba.Core.Review.Threads.{
  CommentThread, CommentThreadId, new, open_state, resolved_state, orphaned_state, is_lost,
  refresh_comment_threads,
}
use nisaba.Core.Review.Threads.Refresh.{ids_of, refresh_exact}
use nisaba.Core.DocumentPath.{split, segments, join, is_traversal, normalized}
use nisaba.Core.DocumentPath.Normal.{normalized_twice}

abbrev mark : ℕ → MarkKind → ℕ → ℕ → Mark
mark id kind s e = record {
  id = id;
  range = record { start = s; end = e };
  kind = kind;
  author = scalars "alice";
  timestamp = id;
  note = none;
}

abbrev text : Text
text = scalars "ABCDE"

-- B is inserted, D deleted, C and D secret.
abbrev marks : MarkSet
marks = (1, mark 1 insertion 1 2) ∷ (2, mark 2 deletion 3 4) ∷ (3, mark 3 secret 2 4) ∷ []

marks-IsValid : IsValid marks
marks-IsValid = record {
  sorted = ((refl, (refl, tt)), ((refl, tt), (tt, tt)));
  keyed = (refl, (refl, (refl, tt)));
}

marks-InU32 : All InU32 (iter marks)
marks-InU32 = omega arith

baseline_test : project text marks baseline ≡ scalars "ACDE"
unfolding project char_flags select has_flag
baseline_test = refl

public_test : project text marks public ≡ scalars "ABE"
unfolding project char_flags select has_flag
public_test = refl

redline_test : project text marks redlined ≡ scalars "A#review.add[B]C#review.del[D]E"
unfolding project redline char_flags new_default classify_inline_safety has_flag flag_to_run_kind
    len_utf8 wrap_change
redline_test = refl

default_style : validate new_default ≡ []
unfolding validate new_default opens_one_content_block non_square_delimiters_clean
    classify_inline_safety
default_style = refl

clamp_test : clamp (record { start = 10; end = 12 }) 0 5 ≡ record { start = 10; end = 10 }
unfolding clamp
clamp_test = refl

-- a, é, a supplementary-plane character, z
abbrev wide : Text
wide = b'a' ∷ 0xe9 ∷ 0x1f600 ∷ b'z' ∷ []

to_byte-from_byte_example : (to_byte 3 wide ≡ some 7) ↔ (from_byte wide 7 ≡ some 3)
to_byte-from_byte_example = to_byte-from_byte wide 3 7 (omega arith)

to_utf16-from_utf16_example : (to_utf16 3 wide ≡ some 4) ↔ (from_utf16 wide 4 ≡ some 3)
to_utf16-from_utf16_example = to_utf16-from_utf16 wide 3 4 (omega arith)

slice_chars_exact_example :
    slice_chars wide (record { start = 1; end = 3 }) ≡ some (0xe9 ∷ 0x1f600 ∷ [])
slice_chars_exact_example = slice_chars_exact wide (record { start = 1; end = 3 })

intersect_exact_example :
    (contains_in (intersect (record { start = 1; end = 4 }) (record { start = 3; end = 7 })) 3 ≡ (
      contains_pos (record { start = 1; end = 4 }) 3
      && contains_pos (record { start = 3; end = 7 }) 3))
    × (is_some (intersect (record { start = 1; end = 4 }) (record { start = 3; end = 7 }))
        ≡ overlaps (record { start = 1; end = 4 }) (record { start = 3; end = 7 }))
intersect_exact_example =
    intersect_exact (record { start = 1; end = 4 }) (record { start = 3; end = 7 }) 3

abbrev low : TextRange
low = record { start = 1; end = 3 }

abbrev high : TextRange
high = record { start = 5; end = 9 }

union_smallest_example :
    (is_well_ordered (union low high) ≡ true)
    × (contains_range (union low high) low ≡ true)
    × (contains_range (union low high) high ≡ true)
    × (contains_range low (union low high)
        ≡ (contains_range low (extent low) && contains_range low (extent high)))
union_smallest_example = union_smallest low high low

clamp_within_example :
    (2 ≤ (clamp high 2 7).start)
    × ((clamp high 2 7).start ≤ (clamp high 2 7).end)
    × ((clamp high 2 7).end ≤ 7)
clamp_within_example = clamp_within high 2 7 (omega arith) (omega arith)

clamp_exact_example :
    (is_well_ordered (clamp high 2 7) ≡ true)
    × (2 ≤ (clamp high 2 7).start)
    × (contains_pos (clamp high 2 7) 6 ≡ (contains_pos high 6 && (leb 2 6 && ltb 6 7)))
    × (((clamp high 2 7).end ≤ 7) ↔ (high.start ≤ 7))
clamp_exact_example = clamp_exact high 2 7 6 (omega arith)

char_flags-covered_example :
    has_flag (get_or (char_flags text marks) 1 0) flag_insert ≡ covered insertion 5 1 (iter marks)
char_flags-covered_example =
    char_flags-covered text marks insertion flag_insert 1 refl (omega arith)

project-visible_example : project text marks public ≡ select (visible public 5 (iter marks)) 0 text
project-visible_example = project-visible text marks public (λ e. ground arith)

classify-redline_example :
    classify_inline_safety (redline text marks new_default) ≡ classify_inline_safety text
classify-redline_example = classify-redline text marks new_default default_style

redline_runs_example :
    (any (in_run deletion 3) (redline_with_report text marks new_default).runs
      ≡ covered deletion 5 3 (iter marks))
    × (any (in_run insertion 3) (redline_with_report text marks new_default).runs
        ≡ (covered insertion 5 3 (iter marks) && not (covered deletion 5 3 (iter marks))))
redline_runs_example = redline_runs text marks new_default 3 (omega arith) (omega arith)

accept_deletion : resolve text marks 2 accepted ≡ ok (removed text marks 2 3 4)
unfolding resolve MarkSet.get OrdMap.get
accept_deletion = refl

resolve_keeps_view_example :
    project (removed text marks 2 3 4).text (removed text marks 2 3 4).marks proposed
    ≡ project text marks proposed
resolve_keeps_view_example =
    resolve_keeps_view text marks 2 accepted proposed (removed text marks 2 3 4) marks-IsValid
      marks-InU32 accept_deletion refl

marks-IsSound : IsSound text marks
marks-IsSound = record { valid = marks-IsValid; small = marks-InU32; fits = omega arith }

resolve-IsSound_example : IsSound (removed text marks 2 3 4).text (removed text marks 2 3 4).marks
resolve-IsSound_example =
    resolve-IsSound text marks 2 accepted (removed text marks 2 3 4) marks-IsSound accept_deletion

abbrev deletes : List Mark
deletes = mark 4 deletion 3 6 ∷ mark 5 deletion 1 3 ∷ []

is_range_fully_deleted_exact_example :
    (is_range_fully_deleted (record { start = 2; end = 5 }) deletes ≡ true) ↔ (
      (is_empty (record { start = 2; end = 5 }) ≡ false)
      × ((p : ℕ)
          → contains_pos (record { start = 2; end = 5 }) p ≡ true
          → deleted_at deletes p ≡ true))
is_range_fully_deleted_exact_example =
    is_range_fully_deleted_exact (record { start = 2; end = 5 }) deletes (omega arith)

is_valid_exact_example : (is_valid text marks ≡ true) ↔ (
    All (Fits 5) (iter marks)
    × ((i : ℕ)
        → i < 5
        → (covered insertion 5 i (iter marks) && covered deletion 5 i (iter marks)) ≡ false)
    × (some_orphan marks ≡ false))
is_valid_exact_example = is_valid_exact text marks

abbrev bulk_result : BulkResolutionOutcome
bulk_result =
    after 2 (removed text marks 2 3 4) (record { operations = []; text = text; marks = marks })

bulk_run : resolve_bulk text marks (2 ∷ 9 ∷ []) accepted ≡ ok bulk_result
unfolding resolve_bulk selected found_marks bulk_loop resolve MarkSet.get OrdMap.get sort_by
bulk_run = refl

resolve_bulk_keeps_view_example :
    (project bulk_result.text bulk_result.marks public ≡ project text marks public)
    × IsSound bulk_result.text bulk_result.marks
resolve_bulk_keeps_view_example =
    resolve_bulk_keeps_view text marks (2 ∷ 9 ∷ []) accepted public bulk_result refl marks-IsSound
      bulk_run

asked_changes : AreChanges (listed (2 ∷ 1 ∷ [])) marks
unfolding is_change
asked_changes = ((λ h. refl), ((λ h. refl), ((λ h. absurd (ground arith)), tt)))

resolve_bulk_total_example :
    (o : BulkResolutionOutcome) × (resolve_bulk text marks (2 ∷ 1 ∷ []) rejected ≡ ok o)
resolve_bulk_total_example =
    resolve_bulk_total text marks (2 ∷ 1 ∷ []) rejected marks-IsSound asked_changes

abbrev threads : OrdMap CommentThreadId CommentThread
threads = (1, new 1 3) ∷ (2, new 2 7) ∷ []

refresh_exact_example :
    (ids_of (refresh_comment_threads marks threads) ≡ 1 ∷ 2 ∷ [])
    × (t' : CommentThread) × (OrdMap.get 2 (refresh_comment_threads marks threads) ≡ some t')
    × (t'.id ≡ 2)
    × (t'.anchor ≡ 7)
    × (t'.messages ≡ [])
    × ((t'.state ≡ orphaned_state)
        ↔ (is_lost (of_kind deletion marks) (MarkSet.get 7 marks) ≡ true))
    × ((t'.state ≡ resolved_state) ↔ (
        (open_state ≡ resolved_state)
        × (is_lost (of_kind deletion marks) (MarkSet.get 7 marks) ≡ false)))
    × (refresh_comment_threads marks (refresh_comment_threads marks threads)
        ≡ refresh_comment_threads marks threads)
unfolding OrdMap.get
refresh_exact_example = refresh_exact marks 2 threads (new 2 7) refl

-- "/a\b//c"
abbrev path : Text
path = 47 ∷ 97 ∷ 92 ∷ 98 ∷ 47 ∷ 47 ∷ 99 ∷ []

abbrev normal_path : Text
normal_path = 97 ∷ 47 ∷ 98 ∷ 47 ∷ 99 ∷ []

path_run : normalized path ≡ some normal_path
unfolding normalized segments split join
path_run = refl

normalized_twice_example :
    (segments normal_path ≡ segments path)
    × (any is_traversal (segments normal_path) ≡ false)
    × (normalized normal_path ≡ some normal_path)
normalized_twice_example = normalized_twice path normal_path path_run
