-- ===== src/Core/Resolution/Views.antt =====
-- Accepting keeps the proposed and the public view, rejecting keeps the baseline.
use nisaba.Prelude.{
  ℕ, ◌-◌, ◌<◌, ◌≡◌, ◌≢◌, ap, ◌∙◌, sym, Bool, true, false, ◌&&◌, leb, ltb, Bool-cases, inl, inr,
  subst, some, [], map, All, keep, min, u32_or_max-eq, length, Text, select, select-ext,
  select-select, arith,
}
use nisaba.Core.Mark.{Mark, MarkId, MarkKind, same_kind, is_change}
use nisaba.Core.MarkSet
use nisaba.Core.MarkSet.{MarkSet, iter}
use nisaba.Core.MarkSet.Laws.{IsValid}
use nisaba.Core.Flags.{char_len}
use nisaba.Core.Flags.Covered.{covers}
use nisaba.Core.Projection.{View, baseline, proposed, redlined, public, editor, project}
use nisaba.Core.Projection.Visible.{visible, project-visible}
use nisaba.Core.Resolution.{
  Resolution, removed, resolve, ResolutionOutcome, ok, accepted, rejected, removes_text, remap_mark,
}
use nisaba.Core.Resolution.Remap.{InU32, shift, iter-remapped, covered-remapped, others}
use nisaba.Core.Resolution.Cut.{
  out, shift_kept, shift_dropped, remove-select, length-remove_char_range,
}
use nisaba.Core.Resolution.Cases.{Done, kept, nothing, cut, resolve-Done}
use nisaba.Core.Resolution.Outcome.{
  hides, visible-congr, hidden, found_alone, found_covers, found_All, covered-others, dropped_view,
}

same_kind_refl : (k : MarkKind) → same_kind k k ≡ true
same_kind_refl k = ground arith

and_false : (a b : Bool) → b ≡ false → (a && b) ≡ false
and_false a b h = ground arith

module _ (text : Text) (marks : MarkSet) (id : MarkId) (mk : Mark) (v : View) (w : IsValid marks)
    (small : All InU32 (iter marks)) (mk_small : InU32 mk) (found : MarkSet.get id marks ≡ some mk)
    (s e : ℕ) (s_lem : s ≡ min mk.range.start (char_len text))
    (e_lem : e ≡ min mk.range.end (char_len text)) (h : s < e) where
  abbrev after : ResolutionOutcome
  after = removed text marks id s e

  text_after : after.text ≡ select (out s e) 0 text
  unfolding removed
  text_after = remove-select text s e h (omega arith)

  length_after : length after.text ≡ char_len text - (e - s)
  unfolding removed
  length_after = length-remove_char_range text s e h (omega arith)

  marks_after : iter after.marks ≡ map (remap_mark s e) (keep (others id) (iter marks))
  unfolding removed
  marks_after =
      rw (u32_or_max-eq s (omega arith), u32_or_max-eq e (omega arith))
        (iter-remapped id s e marks 0 [] w)

  covers_mark : (j : ℕ) → covers (char_len text) j mk ≡ (leb s j && ltb j e)
  covers_mark j = rw (s_lem, e_lem)

  module _ (nr : v ≢ redlined) (hiding : hides v mk.kind ≡ true) where
    -- A removed character was hidden, and a surviving one is shown as before.
    same_view :
        (j : ℕ)
        → j < char_len text
        → (out s e j && visible v (length after.text) (iter after.marks) (shift s e j))
          ≡ visible v (char_len text) (iter marks) j
    unfolding MarkSet.get
    same_view j b = elim (Bool-cases (leb s j && ltb j e)) [
      | inl k ↦ rw k (
          sym (
            hidden v mk.kind (char_len text) j (iter marks) hiding (
              found_covers id mk marks mk.kind (char_len text) j found
                (rw (same_kind_refl mk.kind) (covers_mark j ∙ k)))))
      | inr k ↦
          rw (k, length_after, marks_after)
            (visible-congr v _ (char_len text) (shift s e j) j _ (iter marks) λ kind g.
              covered-remapped kind (others id) s e (char_len text) j (iter marks) (omega arith)
                (omega arith) b k small
              ∙ covered-others id mk kind (char_len text) j (iter marks)
                  (found_alone id mk marks w.keyed w.sorted found)
                  (and_false (same_kind mk.kind kind) _ (covers_mark j ∙ k)))
    ]

    removed_view : project after.text after.marks v ≡ project text marks v
    removed_view =
        let shown = visible v (length after.text) (iter after.marks) in
        let zero_lem : shift s e 0 ≡ 0 = ground arith in
        project-visible after.text after.marks v nr
        ∙ ap (select shown 0) text_after
        ∙ rw zero_lem at (
            select-select shown (out s e) (shift s e) (λ j. shift_kept s e j (omega arith))
              (λ j. shift_dropped s e j (omega arith)) 0 text)
        ∙ select-ext _ _ 0 text (λ j a b. same_view j (omega arith))
        ∙ sym (project-visible text marks v nr)

-- Which resolution keeps which view.
abbrev pub keeps : Resolution → View → Bool
keeps rejected baseline = true
keeps accepted proposed = true
keeps accepted public = true
keeps _ editor = false
keeps _ _ = false

-- The mark of a change that keeps its text hides nothing from the views that the resolution keeps.
free_kept :
    (k l : MarkKind) (r : Resolution) (v : View)
    → is_change k ≡ true
    → removes_text k r ≡ false
    → keeps r v ≡ true
    → hides v l ≡ true
    → same_kind k l ≡ false
unfolding is_change
free_kept k l r v c n q g = ground arith

hides_cut :
    (k : MarkKind) (r : Resolution) (v : View)
    → removes_text k r ≡ true
    → keeps r v ≡ true
    → hides v k ≡ true
hides_cut k r v y q = ground arith

keeps_filter : (r : Resolution) (v : View) → keeps r v ≡ true → v ≢ redlined
keeps_filter r v q = ground arith

-- In a valid set of marks with `u32` ranges, accepting a change leaves the proposed and the public
-- view as they were, and rejecting a change leaves the baseline as it was.
pub resolve_keeps_view :
    (text : Text) (marks : MarkSet) (id : MarkId) (r : Resolution) (v : View)
    (o : ResolutionOutcome)
    → IsValid marks
    → All InU32 (iter marks)
    → resolve text marks id r ≡ ok o
    → keeps r v ≡ true
    → project o.text o.marks v ≡ project text marks v
unfolding MarkSet.get
resolve_keeps_view text marks id r v o w small h q =
    let (mk, found, change, d) = resolve-Done text marks id r o h in by_case mk found change d
  where
    by_case :
        (mk : Mark)
        → MarkSet.get id marks ≡ some mk
        → is_change mk.kind ≡ true
        → Done text marks id mk r o
        → project o.text o.marks v ≡ project text marks v
    by_case mk found change (kept e n) =
        subst (λ x. project x.text x.marks v ≡ project text marks v) (sym e)
          (dropped_view text marks id mk v w found (keeps_filter r v q)
            λ k i g. ground (arith, free_kept mk.kind k r v change n q g))
    by_case mk found change (nothing e l) =
        subst (λ x. project x.text x.marks v ≡ project text marks v) (sym e)
          (dropped_view text marks id mk v w found (keeps_filter r v q)
            λ k i g. and_false (same_kind mk.kind k) _ (ground arith))
    by_case mk found change (cut s t hs ht lt y e) =
        subst (λ x. project x.text x.marks v ≡ project text marks v) (sym e)
          (removed_view text marks id mk v w small mk_small found s t hs ht lt (keeps_filter r v q)
            (hides_cut mk.kind r v y q))
      where
        mk_small : InU32 mk
        mk_small = found_All InU32 id mk marks found small
