-- ===== src/Core/Resolution/Outcome.antt =====
-- What a resolution leaves of the views.
use nisaba.Prelude.{
  ℕ, ◌≤◌, ◌<◌, ◌≡◌, ◌≢◌, refl, ap, ◌∙◌, sym, Bool, true, false, not, ◌&&◌, ◌==◌, Bool-cases, inl,
  inr, some, List, [], ◌∷◌, keep, All, any-keep-All, subst, Text, select-ext, arith,
}
use nisaba.OrdMap
use nisaba.OrdMap.Order.{nat_ord}
use nisaba.OrdMap.Laws.{IsSorted}
use nisaba.Core.Mark.{Mark, MarkId, MarkKind, insertion, deletion, secret, same_kind}
use nisaba.Core.MarkSet
use nisaba.Core.MarkSet.{MarkSet, iter}
use nisaba.Core.MarkSet.Laws.{IsValid, IsKeyed}
use nisaba.Core.MarkSet.Rebuild.{iter-remove, Above-iter}
use nisaba.Core.Flags.{char_len}
use nisaba.Core.Flags.Covered.{covers, covered}
use nisaba.Core.Projection.{View, baseline, proposed, redlined, public, editor, project}
use nisaba.Core.Projection.Visible.{visible, project-visible}
use nisaba.Core.Resolution.{dropped}
use nisaba.Core.Resolution.Remap.{others}

-- The kinds of mark that hide a character from a view.
abbrev pub hides : View → MarkKind → Bool
hides baseline insertion = true
hides proposed deletion = true
hides public deletion = true
hides public secret = true
hides _ _ = false

-- A view depends on the coverage by those kinds alone.
pub visible-congr :
    (v : View) (n n' i i' : ℕ) (ms ms' : List Mark)
    → ((k : MarkKind) → hides v k ≡ true → covered k n i ms ≡ covered k n' i' ms')
    → visible v n ms i ≡ visible v n' ms' i'
visible-congr baseline n n' i i' ms ms' h = ap not (h insertion refl)
visible-congr proposed n n' i i' ms ms' h = ap not (h deletion refl)
visible-congr public n n' i i' ms ms' h = rw (h deletion refl, h secret refl)
visible-congr editor n n' i i' ms ms' h = refl
visible-congr redlined n n' i i' ms ms' h = refl

pub hidden :
    (v : View) (k : MarkKind) (n i : ℕ) (ms : List Mark)
    → hides v k ≡ true
    → covered k n i ms ≡ true
    → visible v n ms i ≡ false
hidden baseline insertion n i ms h c = rw c
hidden proposed deletion n i ms h c = rw c
hidden public deletion n i ms h c = rw c
hidden public secret n i ms h c = ground arith
hidden v k n i ms h c = absurd (ground arith)

above_differs :
    (b id : MarkId) (mk : Mark) (ms : List Mark)
    → id ≤ b
    → All (λ x. b < x.id) ms
    → All (λ m. (m.id == id) ≡ true → m ≡ mk) ms
above_differs b id mk [] e h = tt
above_differs b id mk (m ∷ ms) e h = (λ f. absurd (ground arith), above_differs b id mk ms e h.1)

-- The mark found under an id is the only one with the id.
pub found_alone :
    (id : MarkId) (mk : Mark) (s : MarkSet)
    → IsKeyed s
    → IsSorted s
    → OrdMap.get id s ≡ some mk
    → All (λ m. (m.id == id) ≡ true → m ≡ mk) (iter s)
unfolding OrdMap.get
found_alone id mk [] k a h = tt
found_alone id mk ((j, m) ∷ s) k a h = elim (Bool-cases (id == j)) [
  | inl e ↦
      let same : m ≡ mk = ground arith in
      (λ f. same, above_differs j id mk (iter s) (ground arith) (Above-iter j s k.1 a.0))
  | inr e ↦ (λ f. absurd (ground arith), found_alone id mk s k.1 a.1 (ground arith))
]

pub found_All {κ} :
    (P : Mark → Type κ) (id : MarkId) (mk : Mark) (s : MarkSet)
    → OrdMap.get id s ≡ some mk
    → All P (iter s)
    → P mk
unfolding OrdMap.get
found_All P id mk [] g h = absurd (ground arith)
found_All P id mk ((j, m) ∷ s) g h = elim (Bool-cases (id == j)) [
  | inl e ↦ let same : m ≡ mk = ground arith in subst P same h.0
  | inr e ↦ found_All P id mk s (ground arith) h.1
]

-- It covers what it covers.
pub found_covers :
    (id : MarkId) (mk : Mark) (s : MarkSet) (k : MarkKind) (n i : ℕ)
    → OrdMap.get id s ≡ some mk
    → (same_kind mk.kind k && covers n i mk) ≡ true
    → covered k n i (iter s) ≡ true
unfolding OrdMap.get
found_covers id mk [] k n i h c = absurd (ground arith)
found_covers id mk ((j, m) ∷ s) k n i h c =
    ground (arith, λ (g : OrdMap.get id s ≡ some mk). found_covers id mk s k n i g c)

-- Leaving out the mark with the id changes no coverage that the mark has no part in.
pub covered-others :
    (id : MarkId) (mk : Mark) (k : MarkKind) (n i : ℕ) (ms : List Mark)
    → All (λ m. (m.id == id) ≡ true → m ≡ mk) ms
    → (same_kind mk.kind k && covers n i mk) ≡ false
    → covered k n i (keep (others id) ms) ≡ covered k n i ms
covered-others id mk k n i ms h c =
    any-keep-All (λ m. same_kind m.kind k && covers n i m) (others id) ms (uncovered ms h)
  where
    uncovered :
        (xs : List Mark)
        → All (λ m. (m.id == id) ≡ true → m ≡ mk) xs
        → All (λ m. others id m ≡ false → (same_kind m.kind k && covers n i m) ≡ false) xs
    uncovered [] g = tt
    uncovered (x ∷ xs) g = (
      λ f. subst (λ y. (same_kind y.kind k && covers n i y) ≡ false) (sym (g.0 (ground arith))) c,
      uncovered xs g.1,
    )

-- A mark that hides nothing from a view can be dropped without a change of the view.
pub dropped_view :
    (text : Text) (marks : MarkSet) (id : MarkId) (mk : Mark) (v : View)
    → IsValid marks
    → MarkSet.get id marks ≡ some mk
    → v ≢ redlined
    → ((k : MarkKind) (i : ℕ)
        → hides v k ≡ true
        → (same_kind mk.kind k && covers (char_len text) i mk) ≡ false)
    → project (dropped text marks id).text (dropped text marks id).marks v ≡ project text marks v
unfolding dropped MarkSet.get
dropped_view text marks id mk v w g nr free =
    let n = char_len text in
    project-visible text (MarkSet.remove id marks) v nr
    ∙ select-ext _ _ 0 text (λ i a b.
      visible-congr v n n i i (iter (MarkSet.remove id marks)) (iter marks) λ k h.
        rw (iter-remove id marks w) (
          covered-others id mk k n i (iter marks) (found_alone id mk marks w.keyed w.sorted g)
            (free k i h)))
    ∙ sym (project-visible text marks v nr)
