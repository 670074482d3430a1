-- ===== src/Core/Redline/Runs.antt =====
-- The report names the changed characters, each in a run of its kind.
use nisaba.Prelude.{
  ℕ, zero, suc, ◌+◌, ◌-◌, ◌<◌, ◌≤◌, ◌≡◌, refl, Bool, true, not, ◌&&◌, ◌||◌, leb, ltb, List, [], ◌∷◌,
  Text, length, drop, get_or, any, any-append, u32_max, arith, ◌∙◌,
}
use nisaba.Core.Position.{Position}
use nisaba.Core.Mark.{MarkKind, insertion, deletion, same_kind}
use nisaba.Core.MarkSet.{MarkSet, iter}
use nisaba.Core.Flags.{flag_insert, flag_delete, char_flags, char_len}
use nisaba.Core.Flags.Covered.{length-char_flags, char_flags-covered, covered}
use nisaba.Core.RedlineStyle.{RedlineStyle}
use nisaba.Core.Redline.{
  RedlineRunRecord, RedlineReport, RunKind, plain, inserted, deleted, same_run, flag_to_run_kind,
  run_end, emit_run, redline_with_report,
}
use nisaba.Core.Redline.Cut.{loop_rule, end_of, end_of_bounds}

-- The run has the kind and contains the character.
abbrev pub in_run : MarkKind → Position → RedlineRunRecord → Bool
in_run k j run = same_kind run.kind k && (leb run.range.start j && ltb j run.range.end)

abbrev run_of : MarkKind → RunKind
run_of insertion = inserted
run_of deletion = deleted
run_of _ = plain

data IsChange : MarkKind → Type 0 where
  ins : {k : MarkKind} → k ≡ insertion → IsChange k
  del : {k : MarkKind} → k ≡ deletion → IsChange k

runs-emit_run :
    (run : RunKind) (k : MarkKind) (r : RedlineReport) (span : Text) (s e j : ℕ)
    (style : RedlineStyle)
    → IsChange k
    → s ≤ u32_max
    → e ≤ u32_max
    → any (in_run k j) (emit_run run r span s e style).runs
      ≡ (any (in_run k j) r.runs || (same_run run (run_of k) && (leb s j && ltb j e)))
unfolding emit_run
runs-emit_run plain k r span s e j style (ins c) hs he = rw c (ground arith)
runs-emit_run plain k r span s e j style (del c) hs he = rw c (ground arith)
runs-emit_run inserted k r span s e j style (ins c) hs he =
    rw (c, any-append (in_run insertion j) r.runs) (ground arith)
runs-emit_run inserted k r span s e j style (del c) hs he =
    rw (c, any-append (in_run deletion j) r.runs) (ground arith)
runs-emit_run deleted k r span s e j style (ins c) hs he =
    rw (c, any-append (in_run insertion j) r.runs) (ground arith)
runs-emit_run deleted k r span s e j style (del c) hs he =
    rw (c, any-append (in_run deletion j) r.runs) (ground arith)

-- Every character of a run has its kind.
run_end_kind :
    (kind : RunKind) (i d : ℕ) (fs : List ℕ)
    → i + d < run_end kind i fs
    → same_run (flag_to_run_kind (get_or fs d 0)) kind ≡ true
unfolding run_end
run_end_kind kind i d [] h = absurd (omega arith)
run_end_kind kind i zero (f ∷ fs) h = ground arith
run_end_kind kind i (suc d) (f ∷ fs) h = ground (arith, run_end_kind kind (suc i) d fs)

get_or-drop : (i j : ℕ) (fs : List ℕ) → get_or (drop i fs) j 0 ≡ get_or fs (i + j) 0
get_or-drop zero j fs = ground arith
get_or-drop (suc i) j [] = ground arith
get_or-drop (suc i) j (f ∷ fs) = ground (arith, get_or-drop i j fs)

same_run-eq : (a b c : RunKind) → same_run a b ≡ true → same_run a c ≡ same_run b c
same_run-eq a b c h = ground arith

run_kind_at :
    (i j : ℕ) (flags : List ℕ) (c : RunKind)
    → i ≤ j
    → j < end_of i flags
    → same_run (flag_to_run_kind (get_or flags j 0)) c
      ≡ same_run (flag_to_run_kind (get_or flags i 0)) c
run_kind_at i j flags c h k =
    let kind = flag_to_run_kind (get_or flags i 0) in
    let place : i + (j - i) ≡ j = omega arith in
    same_run-eq (flag_to_run_kind (get_or flags j 0)) kind c (
      rw (get_or-drop i (j - i) flags, place) at
        (run_end_kind kind i (j - i) (drop i flags) (rw place k)))

abbrev RunsTo : List ℕ → MarkKind → ℕ → ℕ → RedlineReport → Type 0
RunsTo flags k j i r =
    any (in_run k j) r.runs ≡ (ltb j i && same_run (flag_to_run_kind (get_or flags j 0)) (run_of k))

RunsTo-step :
    (flags : List ℕ) (k : MarkKind) (j i : ℕ) (r : RedlineReport) (span : Text)
    (style : RedlineStyle)
    → IsChange k
    → i < length flags
    → length flags ≤ u32_max
    → RunsTo flags k j i r
    → RunsTo flags k j
        (end_of i flags)
        (emit_run (flag_to_run_kind (get_or flags i 0)) r span i (end_of i flags) style)
RunsTo-step flags k j i r span style c h small p =
    let kind = flag_to_run_kind (get_or flags i 0) in
    let e = end_of i flags in
    let b = end_of_bounds i flags h in
    runs-emit_run kind k r span i e j style c (omega arith) (omega arith)
    ∙ ground (arith, p, b, λ (l : i ≤ j) (m : j < e). run_kind_at i j flags (run_of k) l m)

runs_exact :
    (text : Text) (marks : MarkSet) (style : RedlineStyle) (k : MarkKind) (j : ℕ)
    → IsChange k
    → char_len text ≤ u32_max
    → any (in_run k j) (redline_with_report text marks style).runs ≡ (
        ltb j (char_len text)
        && same_run (flag_to_run_kind (get_or (char_flags text marks) j 0)) (run_of k))
unfolding redline_with_report
runs_exact text marks style k j c small =
    let flags = char_flags text marks in
    let n = length-char_flags text marks in
    loop_rule (RunsTo flags k j) text flags style n
      (λ i r h p. RunsTo-step flags k j i r _ style c (rw n h) (rw n small) p) (char_len text) 0
      (record { output = []; runs = [] }) (omega arith) (omega arith) (ground arith)

-- For a text whose length fits `u32`: a character lies in a deletion run of the report exactly
-- when a deletion covers it, and in an insertion run exactly when an insertion covers it and no
-- deletion does.
pub redline_runs :
    (text : Text) (marks : MarkSet) (style : RedlineStyle) (j : Position)
    → char_len text ≤ u32_max
    → j < char_len text
    → let runs = (redline_with_report text marks style).runs in
      (any (in_run deletion j) runs ≡ covered deletion (char_len text) j (iter marks))
      × (any (in_run insertion j) runs ≡ (
          covered insertion (char_len text) j (iter marks)
          && not (covered deletion (char_len text) j (iter marks))))
unfolding flag_to_run_kind
redline_runs text marks style j small h =
    let n = char_len text in
    let i_flag = char_flags-covered text marks insertion flag_insert j refl h in
    let d_flag = char_flags-covered text marks deletion flag_delete j refl h in
    let d_runs = runs_exact text marks style deletion j (del refl) small in
    let i_runs = runs_exact text marks style insertion j (ins refl) small in
    (d_runs ∙ ground (arith, d_flag), i_runs ∙ ground (arith, i_flag, d_flag))
