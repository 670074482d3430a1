-- ===== src/Core/Review/Bulk/Views.antt =====
-- Resolving a batch keeps what resolving one change keeps, and does not fail on changes.
use nisaba.Prelude.{
  ◌≡◌, refl, subst, ◌∙◌, true, Option-cases, ◌⊎◌, inl, inr, List, [], ◌∷◌, Text, arith,
}
use nisaba.Core.Mark.{Mark, MarkId}
use nisaba.Core.MarkSet
use nisaba.Core.MarkSet.{MarkSet}
use nisaba.Core.Projection.{View, project}
use nisaba.Core.Resolution.{Resolution, Result, ok, err, resolve}
use nisaba.Core.Resolution.Bounds.{IsSound, resolve-IsSound}
use nisaba.Core.Resolution.Views.{keeps, resolve_keeps_view}
use nisaba.Core.Review.Bulk.{BulkResolutionOutcome, selected, bulk_loop, resolve_bulk, after}

Result-cases {ℓ} : {A : Type ℓ} (x : Result A) → ((a : A) × (x ≡ ok a)) ⊎ ((e : _) × (x ≡ err e))
Result-cases (ok a) = inl (a, refl)
Result-cases (err e) = inr (e, refl)

ok_eq {ℓ} : {A : Type ℓ} (a b : A) → ok a ≡ ok b → a ≡ b
ok_eq a b h = cc

-- The document after the batch against the one before.
abbrev Kept : View → BulkResolutionOutcome → BulkResolutionOutcome → Type 0
Kept v now o = (project o.text o.marks v ≡ project now.text now.marks v) × IsSound o.text o.marks

bulk_loop_keeps :
    (r : Resolution) (v : View) (xs : List (MarkId × Mark)) (now o : BulkResolutionOutcome)
    → keeps r v ≡ true
    → IsSound now.text now.marks
    → bulk_loop r xs now ≡ ok o
    → Kept v now o
unfolding bulk_loop
bulk_loop_keeps r v [] now o q w h =
    let same : now ≡ o = ok_eq now o h in subst (Kept v now) same (refl, w)
bulk_loop_keeps r v ((id, m) ∷ xs) now o q w h = elim (Option-cases (MarkSet.get id now.marks)) [
  | inl e ↦ bulk_loop_keeps r v xs now o q w (rw (e, bulk_loop) at h)
  | inr (mk, e) ↦ elim (Result-cases (resolve now.text now.marks id r)) [
    | inr (x, f) ↦ absurd (ground arith)
    | inl (out, f) ↦
        let (k, z) =
          bulk_loop_keeps r v xs (after id out now) o q
            (resolve-IsSound now.text now.marks id r out w f) (rw (e, f, bulk_loop) at h) in
        (k ∙ resolve_keeps_view now.text now.marks id r v out w.valid w.small f q, z)
  ]
]

-- Accepting a batch of changes leaves the proposed and the public view as they were, rejecting it
-- the baseline, and the marks stay stored under their ids, in order and within the text.
pub resolve_bulk_keeps_view :
    (text : Text) (marks : MarkSet) (ids : List MarkId) (r : Resolution) (v : View)
    (o : BulkResolutionOutcome)
    → keeps r v ≡ true
    → IsSound text marks
    → resolve_bulk text marks ids r ≡ ok o
    → (project o.text o.marks v ≡ project text marks v) × IsSound o.text o.marks
unfolding resolve_bulk
resolve_bulk_keeps_view text marks ids r v o q w h =
    bulk_loop_keeps r v (selected marks ids) _ o q w h
