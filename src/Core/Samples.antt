-- ===== src/Core/Samples.antt =====
-- Runs of the diff, of projects and of milestones, and the theorems at concrete inputs.
use nisaba.Prelude.{◌≡◌, ◌≤◌, ◌+◌, ◌/◌, drop, refl, List, [], ◌∷◌, Text, length, ◌==◌}
use nisaba.OrdMap
use nisaba.OrdMap.{OrdMap}
use nisaba.OrdMap.Order.{text_ord}
use nisaba.Core.RedlineStyle.{scalars}
use nisaba.Core.Projection.{baseline, proposed}
use nisaba.Core.Document.{from_text}
use nisaba.Core.Project.{Project}
use nisaba.Core.Project.Laws.{
  IsValid, ProjectOp, inserting, changing, removing, run, contents, run_to, run_refines,
}
use nisaba.Core.Review.Diff.{
  equal_op, delete_op, insert_op, diff_seq, split_at, common_prefix, common_suffix, position,
}
use nisaba.Core.Review.Diff.Split.{IsBefore, slices-IsWithin}
use nisaba.Core.Review.Tiers.{deleted, inserted, equal, diff_chars, same_text}
use nisaba.Core.Review.Diff.Runs.{Edits}
use nisaba.Core.Review.Diff.Sound.{diff_seq-Edits}
use nisaba.Core.Review.Tiers.Tokens.{same_text-eq}
use nisaba.Core.Review.Tiers.Sides.{old_side, new_side}
use nisaba.Core.Review.Tiers.Regions.{diff_chars_sides}
use nisaba.Core.Milestone.{capture, compare_milestones}
use nisaba.Core.Milestone.Compared.{Compares, projected, compare_milestones-Compares}

abbrev old_lines : List Text
old_lines = (1 ∷ []) ∷ (2 ∷ []) ∷ []

abbrev new_lines : List Text
new_lines = (2 ∷ []) ∷ (1 ∷ []) ∷ []

diff_seq-Edits_example : Edits (diff_seq same_text old_lines new_lines) old_lines new_lines
diff_seq-Edits_example = diff_seq-Edits same_text same_text-eq old_lines new_lines

slices-IsWithin_example :
    let prefix = common_prefix same_text old_lines new_lines in
    let suffix = common_suffix same_text (drop prefix old_lines) (drop prefix new_lines) in
    (prefix + suffix ≤ length old_lines)
    × (prefix + suffix ≤ length new_lines)
    × (length old_lines / 2 ≤ length old_lines)
    × (split_at same_text old_lines new_lines ≤ length new_lines)
    × IsBefore (position same_text (1 ∷ []) new_lines) (length new_lines)
slices-IsWithin_example = slices-IsWithin same_text old_lines new_lines (1 ∷ [])

diff_seq_test :
    diff_seq (λ a b. a == b) (1 ∷ 2 ∷ 3 ∷ []) (1 ∷ 3 ∷ 4 ∷ [])
    ≡ equal_op 1 ∷ delete_op 1 ∷ equal_op 1 ∷ insert_op 1 ∷ []
unfolding diff_seq
diff_seq_test = refl

abbrev old_text : Text
old_text = scalars "one cat sat"

abbrev new_text : Text
new_text = scalars "one bat sat down"

diff_chars_test :
    diff_chars old_text new_text
    ≡ equal (scalars "one ")
      ∷ deleted (scalars "c")
      ∷ inserted (scalars "b")
      ∷ equal (scalars "at sat")
      ∷ inserted (scalars " down")
      ∷ []
unfolding diff_chars
diff_chars_test = refl

diff_chars_sides_example :
    (old_side (diff_chars old_text new_text) ≡ old_text)
    × (new_side (diff_chars old_text new_text) ≡ new_text)
diff_chars_sides_example = diff_chars_sides old_text new_text

abbrev small : Project
small = record {
  id = scalars "p";
  documents =
      (scalars "a", record { path = scalars "a"; document = from_text old_text })
      ∷ (scalars "b", record { path = scalars "b"; document = from_text new_text })
      ∷ [];
}

abbrev other : Project
other = record {
  id = scalars "q";
  documents = (scalars "b", record { path = scalars "b"; document = from_text old_text }) ∷ [];
}

small-IsValid : IsValid small
small-IsValid = record { sorted = ((refl, tt), (tt, tt)); keyed = (refl, (refl, tt)) }

other-IsValid : IsValid other
other-IsValid = record { sorted = (tt, tt); keyed = (refl, tt) }

abbrev some_ops : List ProjectOp
some_ops =
    inserting (scalars "c") (from_text new_text)
    ∷ changing (scalars "c") (λ d. from_text old_text)
    ∷ removing (scalars "b")
    ∷ []

run_refines_example :
    IsValid (run some_ops small)
    × (contents (run some_ops small) ≡ run_to some_ops (contents small))
run_refines_example = run_refines some_ops small small-IsValid

compare_milestones-Compares_example :
    Compares (projected baseline (scalars "b") small) (projected proposed (scalars "b") other) (
      OrdMap.get
        (scalars "b")
        (compare_milestones
          (capture small (scalars "v1") baseline)
          (capture other (scalars "v2") proposed)).documents)
compare_milestones-Compares_example =
    compare_milestones-Compares small other (scalars "v1") (scalars "v2") baseline proposed
      (scalars "b") small-IsValid other-IsValid
