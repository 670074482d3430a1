-- ===== src/Core/Deleted/Exact.antt =====
-- The coverage check against the positions that the range and the deletions contain.
use nisaba.Prelude.{
  ℕ, ◌≤◌, ◌<◌, ◌≡◌, ◌↔◌, refl, sym, ap, ◌∙◌, ◌&&◌, ◌||◌, Bool, true, false, Option, Bool-cases, inl,
  inr, none, some, List, [], ◌∷◌, any, sort_by, any-sort_by, u32_max, u32_or_max, u32_or_max-eq,
  arith,
}
use nisaba.Core.Range.{TextRange, is_empty, contains_pos, intersect}
use nisaba.Core.Range.Laws.{contains_in, intersect_exact}
use nisaba.Core.Mark.{Mark}
use nisaba.Core.Deleted.{push_part, coverage, pair_order, sweep_parts, is_range_fully_deleted}
use nisaba.Core.Deleted.Sweep.{in_part, sort_by-InOrder, sweep_sound, sweep_complete}

-- Some deletion contains the position.
abbrev pub deleted_at : List Mark → ℕ → Bool
deleted_at ds p = any (λ d. contains_pos d.range p) ds

intersect_within :
    (d r part : TextRange)
    → intersect d r ≡ some part
    → (part.start < part.end) × (part.end ≤ r.end)
unfolding intersect
intersect_within d r part h = ground arith

contains_pos-in_part :
    (r : TextRange) (p : ℕ)
    → r.start < r.end
    → r.end ≤ u32_max
    → in_part p (u32_or_max r.start, u32_or_max r.end) ≡ contains_pos r p
unfolding contains_pos is_empty
contains_pos-in_part r p lt h =
    rw (u32_or_max-eq r.start (omega arith), u32_or_max-eq r.end h) (ground arith)

meet : (a b c : Bool) → ((a && b) || (b && c)) ≡ (b && (a || c))
meet a b c = ground arith

and_right : (a b : Bool) → (a && b) ≡ true → b ≡ true
and_right a b h = ground arith

and_both : (a b : Bool) → a ≡ true → b ≡ true → (a && b) ≡ true
and_both a b h k = ground arith

low : (r : TextRange) (p : ℕ) → contains_pos r p ≡ true → r.start ≤ p
unfolding contains_pos
low r p h = ground arith

high : (r : TextRange) (p : ℕ) → contains_pos r p ≡ true → p < r.end
unfolding contains_pos
high r p h = ground arith

inside : (r : TextRange) (p : ℕ) → r.start ≤ p → p < r.end → contains_pos r p ≡ true
unfolding contains_pos is_empty
inside r p h k = ground arith

any-push_part :
    (r : TextRange) (o : Option TextRange) (parts : List (ℕ × ℕ)) (d : TextRange) (p : ℕ)
    → r.end ≤ u32_max
    → intersect d r ≡ o
    → any (in_part p) (push_part o parts) ≡ (contains_in o p || any (in_part p) parts)
any-push_part r none parts d p h e = refl
any-push_part r (some part) parts d p h e =
    let w = intersect_within d r part e in rw (contains_pos-in_part part p w.0 (omega arith)) refl

any-coverage :
    (r : TextRange) (ds : List Mark) (p : ℕ)
    → r.end ≤ u32_max
    → any (in_part p) (coverage r ds) ≡ (contains_pos r p && deleted_at ds p)
unfolding coverage
any-coverage r [] p h = ground arith
any-coverage r (d ∷ ds) p h =
    any-push_part r (intersect d.range r) (coverage r ds) d.range p h refl
    ∙ ap (λ b. contains_in (intersect d.range r) p || b) (any-coverage r ds p h)
    ∙ ap (λ b. b || (contains_pos r p && deleted_at ds p)) (intersect_exact d.range r p).0
    ∙ meet (contains_pos d.range p) (contains_pos r p) (deleted_at ds p)

sorted_any :
    (p : ℕ) (parts : List (ℕ × ℕ))
    → any (in_part p) (sort_by pair_order parts) ≡ any (in_part p) parts
sorted_any p parts = any-sort_by pair_order (in_part p) parts

parts_exact :
    (r : TextRange) (parts : List (ℕ × ℕ))
    → r.start < r.end
    → r.end ≤ u32_max
    → (sweep_parts r parts ≡ true)
      ↔ ((p : ℕ) → r.start ≤ p → p < r.end → any (in_part p) parts ≡ true)
parts_exact r [] lt h = (λ e. absurd (ground arith), λ f. f r.start (omega arith) lt)
parts_exact r (x ∷ xs) lt h =
    rw (u32_or_max-eq r.start (omega arith), u32_or_max-eq r.end h)
      (
        λ e p k l.
            sym (sorted_any p (x ∷ xs))
            ∙ sweep_sound r.end r.start p (sort_by pair_order (x ∷ xs)) e k l,
        λ f.
            sweep_complete r.end r.start (sort_by pair_order (x ∷ xs)) (sort_by-InOrder (x ∷ xs)) lt
              λ p k l. sorted_any p (x ∷ xs) ∙ f p k l,
      )

nonempty : (r : TextRange) → is_empty r ≡ false → r.start < r.end
unfolding is_empty
nonempty r h = ground arith

covers_all :
    (r : TextRange) (ds : List Mark)
    → r.start < r.end
    → r.end ≤ u32_max
    → (sweep_parts r (coverage r ds) ≡ true)
      ↔ ((false ≡ false) × ((p : ℕ) → contains_pos r p ≡ true → deleted_at ds p ≡ true))
covers_all r ds lt h =
    let (there, back) = parts_exact r (coverage r ds) lt h in
    (
      λ k. (
        refl,
        λ p c.
            and_right (contains_pos r p) (deleted_at ds p)
              (sym (any-coverage r ds p h) ∙ there k p (low r p c) (high r p c)),
      ),
      λ k.
          back
            λ p a b. any-coverage r ds p h ∙ and_both _ _ (inside r p a b) (k.1 p (inside r p a b)),
    )

-- A range within `u32` is found to be fully deleted exactly when it is not empty and each position
-- in it lies in some deletion.
pub is_range_fully_deleted_exact :
    (r : TextRange) (ds : List Mark)
    → r.end ≤ u32_max
    → (is_range_fully_deleted r ds ≡ true)
      ↔ ((is_empty r ≡ false) × ((p : ℕ) → contains_pos r p ≡ true → deleted_at ds p ≡ true))
unfolding is_range_fully_deleted
is_range_fully_deleted_exact r ds h = elim (Bool-cases (is_empty r)) [
  | inl e ↦ rw e (λ k. absurd (ground arith), λ k. absurd (ground (arith, k.0)))
  | inr e ↦ rw e (covers_all r ds (nonempty r e) h)
]
