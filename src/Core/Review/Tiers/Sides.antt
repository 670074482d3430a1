-- ===== src/Core/Review/Tiers/Sides.antt =====
-- The changes of a diff hold both texts.
use nisaba.Prelude.{◌≡◌, refl, sym, ap, ◌∙◌, List, [], ◌∷◌, ◌++◌, append-nil, append_assoc, Text}
use nisaba.Core.Review.Tiers.{SnapshotChange, deleted, inserted, equal, merge_change, push_change}

-- The old text and the new one, read off the changes.
abbrev pub old_side : List SnapshotChange → Text
old_side [] = []
old_side (deleted t ∷ cs) = t ++ old_side cs
old_side (inserted t ∷ cs) = old_side cs
old_side (equal t ∷ cs) = t ++ old_side cs

abbrev pub new_side : List SnapshotChange → Text
new_side [] = []
new_side (deleted t ∷ cs) = new_side cs
new_side (inserted t ∷ cs) = t ++ new_side cs
new_side (equal t ∷ cs) = t ++ new_side cs

-- The changes `out'` are `out` with an old and a new text more.
pub record Extends (out out' : List SnapshotChange) (u v : Text) : Type 0 where
  pub old_part : old_side out' ≡ old_side out ++ u
  pub new_part : new_side out' ≡ new_side out ++ v

pub both_sides :
    {out out' : List SnapshotChange} {u v : Text}
    → old_side out' ≡ old_side out ++ u
    → new_side out' ≡ new_side out ++ v
    → Extends out out' u v
both_sides h k = record { old_part = h; new_part = k }

pub Extends-trans :
    (a b c : List SnapshotChange) (u v u' v' : Text)
    → Extends a b u v
    → Extends b c u' v'
    → Extends a c (u ++ u') (v ++ v')
Extends-trans a b c u v u' v' h k =
    both_sides (k.old_part ∙ ap (λ z. z ++ u') h.old_part ∙ append_assoc (old_side a) u u')
      (k.new_part ∙ ap (λ z. z ++ v') h.new_part ∙ append_assoc (new_side a) v v')

pub Extends-congruence :
    (a b : List SnapshotChange) (u v u' v' : Text)
    → u ≡ u'
    → v ≡ v'
    → Extends a b u v
    → Extends a b u' v'
Extends-congruence a b u v u' v' e f h =
    both_sides (h.old_part ∙ ap (λ z. old_side a ++ z) e) (h.new_part ∙ ap (λ z. new_side a ++ z) f)

merge_sides :
    (last c : SnapshotChange)
    → Extends (last ∷ []) (merge_change last c) (old_side (c ∷ [])) (new_side (c ∷ []))
merge_sides (equal a) (equal b) =
    both_sides (append_assoc a b [] ∙ sym (append_assoc a [] (b ++ [])))
      (append_assoc a b [] ∙ sym (append_assoc a [] (b ++ [])))
merge_sides (deleted a) (deleted b) =
    both_sides (append_assoc a b [] ∙ sym (append_assoc a [] (b ++ []))) (refl)
merge_sides (inserted a) (inserted b) =
    both_sides (refl) (append_assoc a b [] ∙ sym (append_assoc a [] (b ++ [])))
merge_sides (equal a) (deleted b) =
    both_sides (sym (append_assoc a [] (b ++ []))) (sym (append-nil (a ++ [])))
merge_sides (equal a) (inserted b) =
    both_sides (sym (append-nil (a ++ []))) (sym (append_assoc a [] (b ++ [])))
merge_sides (deleted a) (equal b) = both_sides (sym (append_assoc a [] (b ++ []))) (refl)
merge_sides (deleted a) (inserted b) = both_sides (sym (append-nil (a ++ []))) (refl)
merge_sides (inserted a) (equal b) = both_sides (refl) (sym (append_assoc a [] (b ++ [])))
merge_sides (inserted a) (deleted b) = both_sides (refl) (sym (append-nil (a ++ [])))

cons_sides :
    (x : SnapshotChange) (ys zs : List SnapshotChange) (u v : Text)
    → Extends ys zs u v
    → Extends (x ∷ ys) (x ∷ zs) u v
cons_sides (equal a) ys zs u v h =
    both_sides (ap (λ z. a ++ z) h.old_part ∙ sym (append_assoc a (old_side ys) u))
      (ap (λ z. a ++ z) h.new_part ∙ sym (append_assoc a (new_side ys) v))
cons_sides (deleted a) ys zs u v h =
    both_sides (ap (λ z. a ++ z) h.old_part ∙ sym (append_assoc a (old_side ys) u)) h.new_part
cons_sides (inserted a) ys zs u v h =
    both_sides h.old_part (ap (λ z. a ++ z) h.new_part ∙ sym (append_assoc a (new_side ys) v))

push_sides :
    (out : List SnapshotChange) (c : SnapshotChange)
    → Extends out (push_change out c) (old_side (c ∷ [])) (new_side (c ∷ []))
unfolding push_change
push_sides [] c = both_sides refl refl
push_sides (last ∷ []) c = merge_sides last c
push_sides (x ∷ y ∷ ys) c =
    cons_sides x (y ∷ ys) (push_change (y ∷ ys) c) (old_side (c ∷ [])) (new_side (c ∷ []))
      (push_sides (y ∷ ys) c)

pub push_equal :
    (out : List SnapshotChange) (t u : Text) → t ≡ u → Extends out (push_change out (equal t)) t u
push_equal out t u e =
    Extends-congruence out (push_change out (equal t)) (t ++ []) (t ++ []) t u (append-nil t)
      (append-nil t ∙ e) (push_sides out (equal t))

pub push_deleted :
    (out : List SnapshotChange) (t : Text) → Extends out (push_change out (deleted t)) t []
push_deleted out t =
    Extends-congruence out (push_change out (deleted t)) (t ++ []) [] t [] (append-nil t) refl
      (push_sides out (deleted t))

pub push_inserted :
    (out : List SnapshotChange) (t : Text) → Extends out (push_change out (inserted t)) [] t
push_inserted out t =
    Extends-congruence out (push_change out (inserted t)) [] (t ++ []) [] t refl (append-nil t)
      (push_sides out (inserted t))

-- The function appends changes that hold both texts.
abbrev pub IsDiff : (Text → Text → List SnapshotChange → List SnapshotChange) → Type 0
IsDiff f = (old new : Text) (out : List SnapshotChange) → Extends out (f old new out) old new
