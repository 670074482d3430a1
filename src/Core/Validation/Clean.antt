-- ===== src/Core/Validation/Clean.antt =====
-- A document without issues.
use nisaba.Prelude.{
  ℕ, ◌<◌, ◌≡◌, ◌↔◌, refl, sym, ap, ◌∙◌, ◌&&◌, ◌||◌, not, Bool, true, false, List, [], ◌∷◌, Text,
  any, any-append, any-sort_by, All, arith,
}
use nisaba.Core.Range.{is_well_ordered}
use nisaba.Core.Mark.{Mark, insertion, deletion, comment, same_kind}
use nisaba.Core.MarkSet.{MarkSet, iter, of_kind}
use nisaba.Core.MarkSet.Laws.{any-of_kind}
use nisaba.Core.Flags.{char_len}
use nisaba.Core.Flags.Covered.{covered}
use nisaba.Core.Deleted.{is_range_fully_deleted}
use nisaba.Core.Resolution.Bounds.{Fits}
use nisaba.Core.Validation.{
  ValidationIssue, structural_issues, orphans, orphan_order, conflict_issues, validate, is_valid,
}
use nisaba.Core.Validation.Conflicts.{nonempty, no_conflict}

structural_clean :
    (n : ℕ) (ms : List Mark) → nonempty (structural_issues n ms) ≡ false → All (Fits n) ms
unfolding structural_issues is_well_ordered
structural_clean n [] h = tt
structural_clean n (m ∷ ms) h = ground (arith, structural_clean n ms)

clean_structural :
    (n : ℕ) (ms : List Mark) → All (Fits n) ms → nonempty (structural_issues n ms) ≡ false
unfolding structural_issues is_well_ordered
clean_structural n [] h = refl
clean_structural n (m ∷ ms) h = ground (arith, clean_structural n ms h.1)

nonempty-orphans :
    (ds cs : List Mark) → nonempty (orphans ds cs) ≡ any (λ c. is_range_fully_deleted c.range ds) cs
unfolding orphans is_range_fully_deleted
nonempty-orphans ds [] = refl
nonempty-orphans ds (c ∷ cs) = ground (arith, nonempty-orphans ds cs)

-- Some comment's whole range is deleted.
abbrev pub some_orphan : MarkSet → Bool
some_orphan marks =
    any (λ c. same_kind c.kind comment && is_range_fully_deleted c.range (of_kind deletion marks))
      (iter marks)

nonempty-validate :
    (text : Text) (marks : MarkSet)
    → nonempty (validate text marks) ≡ (
        nonempty (structural_issues (char_len text) (iter marks))
        || (nonempty (conflict_issues text marks) || some_orphan marks))
unfolding validate
nonempty-validate text marks =
    let yes = (λ (x : ValidationIssue). true) in
    let found = orphans (of_kind deletion marks) (of_kind comment marks) in
    any-append yes (structural_issues (char_len text) (iter marks)) _
    ∙ ap (λ b. nonempty (structural_issues (char_len text) (iter marks)) || b)
        (any-append yes (conflict_issues text marks) _
          ∙ ap (λ b. nonempty (conflict_issues text marks) || b)
              (any-sort_by orphan_order yes found
                ∙ nonempty-orphans (of_kind deletion marks) (of_kind comment marks)
                ∙ any-of_kind _ comment marks))

is_valid-nonempty :
    (text : Text) (marks : MarkSet) → is_valid text marks ≡ not (nonempty (validate text marks))
unfolding is_valid
is_valid-nonempty text marks = ground arith

-- A document is valid exactly when every mark's range is in order and within the text, no character
-- is both inserted and deleted, and no comment's range is fully deleted.
pub is_valid_exact :
    (text : Text) (marks : MarkSet)
    → (is_valid text marks ≡ true) ↔ (
        All (Fits (char_len text)) (iter marks)
        × ((i : ℕ)
            → i < char_len text
            → (covered insertion (char_len text) i (iter marks)
                && covered deletion (char_len text) i (iter marks))
              ≡ false)
        × (some_orphan marks ≡ false))
is_valid_exact text marks =
    let (quiet, silent) = no_conflict text marks in
    let issues = nonempty-validate text marks in
    (
      λ v.
          let (a, b, c) =
            none_of (nonempty (structural_issues (char_len text) (iter marks)))
              (nonempty (conflict_issues text marks)) (some_orphan marks)
              (sym (ap not issues) ∙ sym (is_valid-nonempty text marks) ∙ v) in
          (structural_clean _ _ a, quiet b, c),
      λ (a, b, c).
          is_valid-nonempty text marks
          ∙ ap not issues
          ∙ all_false (nonempty (structural_issues (char_len text) (iter marks)))
              (nonempty (conflict_issues text marks)) (some_orphan marks) (clean_structural _ _ a)
              (silent b) c,
    )
  where
    none_of : (a b c : Bool) → not (a || (b || c)) ≡ true → (a ≡ false) × (b ≡ false) × (c ≡ false)
    none_of a b c h = (ground arith, ground arith, ground arith)

    all_false : (a b c : Bool) → a ≡ false → b ≡ false → c ≡ false → not (a || (b || c)) ≡ true
    all_false a b c h k l = ground arith
