-- ===== src/Core/DocumentPath/Normal.antt =====
-- A normalized path is its own normal form.
use nisaba.Prelude.{
  ◌≡◌, refl, sym, ap, ◌∙◌, ◌==◌, true, false, Bool-cases, inl, inr, some, List, [], ◌∷◌, ◌++◌, Text,
  any, keep, All, All-keep, arith, ℕ,
}
use nisaba.Core.DocumentPath.{
  slash, backslash, to_slash, slashed, push_first, split, is_nonempty, is_traversal, segments, join,
  joined, normalized,
}

-- The character stands in no separator.
abbrev Plain : ℕ → Type 0
Plain c = ((c == slash) ≡ false) × ((c == backslash) ≡ false)

push_first-Plain :
    (c : ℕ) (ss : List Text) → Plain c → All (All Plain) ss → All (All Plain) (push_first c ss)
push_first-Plain c [] p h = ((p, tt), tt)
push_first-Plain c (s ∷ ss) p h = ((p, h.0), h.1)

split-Plain : (t : Text) → All (All Plain) (split (slashed t))
unfolding split
split-Plain [] = (tt, tt)
split-Plain (c ∷ cs) = elim (Bool-cases (to_slash c == slash)) [
  | inl e ↦ rw e (tt, split-Plain cs)
  | inr e ↦ rw e (push_first-Plain (to_slash c) _ (e, ground arith) (split-Plain cs))
]

All-nonempty : (ss : List Text) → All (λ s. is_nonempty s ≡ true) (keep is_nonempty ss)
All-nonempty [] = tt
All-nonempty (s ∷ ss) = elim (Bool-cases (is_nonempty s)) [
  | inl e ↦ rw e (e, All-nonempty ss)
  | inr e ↦ rw e (All-nonempty ss)
]

keep-nonempty : (ss : List Text) → All (λ s. is_nonempty s ≡ true) ss → keep is_nonempty ss ≡ ss
keep-nonempty [] h = refl
keep-nonempty (s ∷ ss) h = rw (h.0, keep-nonempty ss h.1) refl

split_one : (s : Text) → All Plain s → split s ≡ s ∷ []
unfolding split
split_one [] h = refl
split_one (c ∷ cs) h = rw (h.0.0, split_one cs h.1) refl

split-append : (s t : Text) → All Plain s → split (s ++ slash ∷ t) ≡ s ∷ split t
unfolding split
split-append [] t h = refl
split-append (c ∷ cs) t h = rw (h.0.0, split-append cs t h.1) refl

split-join : (s : Text) (ss : List Text) → All (All Plain) (s ∷ ss) → split (join (s ∷ ss)) ≡ s ∷ ss
unfolding join
split-join s [] h = split_one s h.0
split-join s (t ∷ ss) h = split-append s (join (t ∷ ss)) h.0 ∙ ap (λ r. s ∷ r) (split-join t ss h.1)

slashed_same : (s : Text) → All Plain s → slashed s ≡ s
slashed_same [] h = refl
slashed_same (c ∷ cs) h = rw (h.0.1, slashed_same cs h.1) refl

slashed-append : (s t : Text) → slashed (s ++ t) ≡ slashed s ++ slashed t
slashed-append [] t = refl
slashed-append (c ∷ cs) t = ap (λ r. to_slash c ∷ r) (slashed-append cs t)

slashed-join : (ss : List Text) → All (All Plain) ss → slashed (join ss) ≡ join ss
unfolding join
slashed-join [] h = refl
slashed-join (s ∷ []) h = slashed_same s h.0
slashed-join (s ∷ t ∷ ss) h =
    slashed-append s (slash ∷ join (t ∷ ss))
    ∙ rw (slashed_same s h.0, slashed-join (t ∷ ss) h.1) refl

segments-join :
    (s : Text) (ss : List Text)
    → All (All Plain) (s ∷ ss)
    → All (λ x. is_nonempty x ≡ true) (s ∷ ss)
    → segments (join (s ∷ ss)) ≡ s ∷ ss
unfolding segments
segments-join s ss p n =
    ap (λ t. keep is_nonempty (split t)) (slashed-join (s ∷ ss) p)
    ∙ ap (keep is_nonempty) (split-join s ss p)
    ∙ keep-nonempty (s ∷ ss) n

segments-Plain : (t : Text) → All (All Plain) (segments t)
unfolding segments
segments-Plain t = All-keep (All Plain) is_nonempty (split (slashed t)) (split-Plain t)

segments-nonempty : (t : Text) → All (λ s. is_nonempty s ≡ true) (segments t)
unfolding segments
segments-nonempty t = All-nonempty (split (slashed t))

some_eq : (a b : Text) → some a ≡ some b → a ≡ b
some_eq a b h = ground arith

joined_again :
    (ss : List Text) (p : Text)
    → All (All Plain) ss
    → All (λ s. is_nonempty s ≡ true) ss
    → joined ss ≡ some p
    → (segments p ≡ ss) × (any is_traversal ss ≡ false)
joined_again [] p a n h = absurd (ground arith)
joined_again (s ∷ ss) p a n h = elim (Bool-cases (any is_traversal (s ∷ ss))) [
  | inl e ↦ absurd (ground arith)
  | inr e ↦
      let same : join (s ∷ ss) ≡ p = some_eq (join (s ∷ ss)) p (ground arith) in
      (sym (ap segments same) ∙ segments-join s ss a n, e)
]

-- A path that is accepted has a normal form with the segments of the path, of which none is `.` or
-- `..`, and the normal form is accepted as it is.
pub normalized_twice :
    (path p : Text)
    → normalized path ≡ some p
    → (segments p ≡ segments path)
      × (any is_traversal (segments p) ≡ false)
      × (normalized p ≡ some p)
unfolding normalized
normalized_twice path p h =
    let (same, none_there) =
      joined_again (segments path) p (segments-Plain path) (segments-nonempty path) h in
    (same, ap (any is_traversal) same ∙ none_there, ap joined same ∙ h)
