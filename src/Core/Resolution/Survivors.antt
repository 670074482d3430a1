-- ===== src/Core/Resolution/Survivors.antt =====
-- A resolution of a change succeeds, and what holds of every mark still does when remapping keeps it.
use nisaba.Prelude.{
  ◌≡◌, refl, sym, ap, ◌∙◌, subst, ℕ, true, ◌==◌, some, [], ◌∷◌, All, All-imp, All-keep, All-map,
  Text, leb, min, Bool-cases, inl, inr, arith,
}
use nisaba.OrdMap
use nisaba.OrdMap.Order.{nat_ord}
use nisaba.Core.Mark.{Mark, MarkId, is_change}
use nisaba.Core.MarkSet
use nisaba.Core.MarkSet.{MarkSet, iter}
use nisaba.Core.MarkSet.Laws.{IsValid, IsKeyed}
use nisaba.Core.MarkSet.Rebuild.{iter-remove}
use nisaba.Core.Flags.{char_len}
use nisaba.Core.Resolution.{
  Resolution, ResolutionOutcome, ok, dropped, removed, removes_text, resolve_mark, resolve,
  remap_mark,
}
use nisaba.Core.Resolution.Remap.{others, iter-remapped}
use nisaba.Core.Resolution.Cases.{Done, kept, nothing, cut, resolve-Done}

-- A mark is found under its own id.
pub found_id :
    (id : MarkId) (mk : Mark) (s : MarkSet) → IsKeyed s → MarkSet.get id s ≡ some mk → mk.id ≡ id
unfolding MarkSet.get OrdMap.get
found_id id mk [] k h = absurd (ground arith)
found_id id mk ((j, m) ∷ s) k h = elim (Bool-cases (id == j)) [
  | inl e ↦ let same : m ≡ mk = ground arith in sym (ap (λ x. x.id) same) ∙ ground arith
  | inr e ↦ found_id id mk s k.1 (ground arith)
]

resolve_mark_total :
    (text : Text) (marks : MarkSet) (id : MarkId) (mk : Mark) (r : Resolution)
    → is_change mk.kind ≡ true
    → (o : ResolutionOutcome) × (resolve_mark text marks id mk r ≡ ok o)
unfolding resolve_mark
resolve_mark_total text marks id mk r c = elim (Bool-cases (removes_text mk.kind r)) [
  | inr n ↦ (dropped text marks id, rw (c, n) refl)
  | inl y ↦
      elim (Bool-cases
        (leb (min mk.range.end (char_len text)) (min mk.range.start (char_len text)))) [
          | inl l ↦ (dropped text marks id, rw (c, y, l) refl)
          | inr l ↦ (
            removed text marks id (min mk.range.start (char_len text))
                (min mk.range.end (char_len text)),
            rw (c, y, l) refl,
          )
        ]
]

-- Resolving a change that the set holds succeeds.
pub resolve_total :
    (text : Text) (marks : MarkSet) (id : MarkId) (mk : Mark) (r : Resolution)
    → MarkSet.get id marks ≡ some mk
    → is_change mk.kind ≡ true
    → (o : ResolutionOutcome) × (resolve text marks id r ≡ ok o)
unfolding resolve
resolve_total text marks id mk r found c =
    let (o, h) = resolve_mark_total text marks id mk r c in (o, rw (found, resolve) h)

module _ {κ} (P : Mark → Type κ) (moved : (s e : ℕ) (m : Mark) → P m → P (remap_mark s e m)) where
  dropped-All :
      (text : Text) (marks : MarkSet) (id : MarkId)
      → IsValid marks
      → All P (iter marks)
      → All P (iter (dropped text marks id).marks)
  unfolding dropped
  dropped-All text marks id v h = rw (iter-remove id marks v) (All-keep P _ (iter marks) h)

  removed-All :
      (text : Text) (marks : MarkSet) (id : MarkId) (s e : ℕ)
      → IsValid marks
      → All P (iter marks)
      → All P (iter (removed text marks id s e).marks)
  unfolding removed
  removed-All text marks id s e v h =
      rw (iter-remapped id _ _ marks 0 [] v) (
        All-map P _ _
          (All-keep _ (others id) (iter marks) (All-imp P _ (moved _ _) (iter marks) h)))

  pub resolve-All :
      (text : Text) (marks : MarkSet) (id : MarkId) (r : Resolution) (o : ResolutionOutcome)
      → IsValid marks
      → All P (iter marks)
      → resolve text marks id r ≡ ok o
      → All P (iter o.marks)
  resolve-All text marks id r o v h q =
      let (mk, found, change, d) = resolve-Done text marks id r o q in by_case mk d
    where
      by_case : (mk : Mark) → Done text marks id mk r o → All P (iter o.marks)
      by_case mk (kept e n) =
          subst (λ x. All P (iter x.marks)) (sym e) (dropped-All text marks id v h)
      by_case mk (nothing e l) =
          subst (λ x. All P (iter x.marks)) (sym e) (dropped-All text marks id v h)
      by_case mk (cut s t hs ht lt y e) =
          subst (λ x. All P (iter x.marks)) (sym e) (removed-All text marks id s t v h)
