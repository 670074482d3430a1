-- ===== src/Core/Review/Bulk/Total.antt =====
-- Resolving a batch of changes succeeds.
use nisaba.Prelude.{
  ◌≡◌, refl, sym, subst, true, Bool, Option, none, some, Option-cases, inl, inr, List, [], ◌∷◌, All,
  All-sort_by, Text, ◌==◌, any, arith, All-imp,
}
use nisaba.Core.Mark.{Mark, MarkId, is_change}
use nisaba.Core.MarkSet
use nisaba.Core.MarkSet.{MarkSet, iter}
use nisaba.Core.Resolution.{Resolution, ok, remap_mark}
use nisaba.Core.Resolution.Bounds.{IsSound, resolve-IsSound}
use nisaba.Core.Resolution.Outcome.{found_All}
use nisaba.Core.Resolution.Survivors.{found_id, resolve_total, resolve-All}
use nisaba.Core.Review.Bulk.{
  BulkResolutionOutcome, selected_order, push_found, found_marks, selected, bulk_loop, resolve_bulk,
  after,
}

-- The marks whose ids pass the test are changes.
abbrev pub AreChanges : (MarkId → Bool) → MarkSet → Type 0
AreChanges asked marks = All (λ m. asked m.id ≡ true → is_change m.kind ≡ true) (iter marks)

module _ (asked : MarkId → Bool) (r : Resolution) where
  bulk_loop_total :
      (xs : List (MarkId × Mark)) (now : BulkResolutionOutcome)
      → All (λ x. asked x.0 ≡ true) xs
      → IsSound now.text now.marks
      → AreChanges asked now.marks
      → (o : BulkResolutionOutcome) × (bulk_loop r xs now ≡ ok o)
  unfolding bulk_loop remap_mark
  bulk_loop_total [] now a w c = (now, refl)
  bulk_loop_total ((id, m) ∷ xs) now a w c = elim (Option-cases (MarkSet.get id now.marks)) [
    | inl e ↦ let (o, h) = bulk_loop_total xs now a.1 w c in (o, rw (e, bulk_loop) h)
    | inr (mk, e) ↦
        let here =
          found_All (λ m. asked m.id ≡ true → is_change m.kind ≡ true) id mk now.marks e c in
        let mine =
          subst (λ i. asked i ≡ true) (sym (found_id id mk now.marks w.valid.keyed e)) a.0 in
        let (out, f) = resolve_total now.text now.marks id mk r e (here mine) in
        let still =
          resolve-All (λ m. asked m.id ≡ true → is_change m.kind ≡ true) (λ s t m k. k) now.text
            now.marks id r out w.valid c f in
        let (o, h) =
          bulk_loop_total xs (after id out now) a.1
            (resolve-IsSound now.text now.marks id r out w f) still in
        (o, rw (e, f, bulk_loop) h)
  ]

abbrev pub listed : List MarkId → MarkId → Bool
listed ids id = any (λ i. i == id) ids

found-listed :
    (marks : MarkSet) (ids : List MarkId) → All (λ x. listed ids x.0 ≡ true) (found_marks marks ids)
unfolding found_marks
found-listed marks [] = tt
found-listed marks (id ∷ ids) =
    push (MarkSet.get id marks)
      (All-imp _ _ (λ x h. ground arith) (found_marks marks ids) (found-listed marks ids))
  where
    push :
        (o : Option Mark)
        → All (λ x. listed (id ∷ ids) x.0 ≡ true) (found_marks marks ids)
        → All (λ x. listed (id ∷ ids) x.0 ≡ true) (push_found id o (found_marks marks ids))
    push none h = h
    push (some m) h = (ground arith, h)

-- Where the marks are stored under their own ids and each range has u32 bounds, in order and within
-- the text, resolving a batch of ids of which the set holds only changes succeeds.
pub resolve_bulk_total :
    (text : Text) (marks : MarkSet) (ids : List MarkId) (r : Resolution)
    → IsSound text marks
    → AreChanges (listed ids) marks
    → (o : BulkResolutionOutcome) × (resolve_bulk text marks ids r ≡ ok o)
unfolding resolve_bulk selected
resolve_bulk_total text marks ids r w c =
    bulk_loop_total (listed ids) r (selected marks ids)
      (record { operations = []; text = text; marks = marks })
      (All-sort_by selected_order _ (found_marks marks ids) (found-listed marks ids)) w c
