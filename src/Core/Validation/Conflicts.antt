-- ===== src/Core/Validation/Conflicts.antt =====
-- The conflicts that validation reports, against the characters that are inserted and deleted.
use nisaba.Prelude.{
  ℕ, zero, suc, ◌<◌, ◌≡◌, ◌↔◌, refl, sym, subst, ◌∙◌, ◌&&◌, ◌||◌, leb, ltb, Bool, true, false,
  Bool-cases, inl, inr, List, [], ◌∷◌, Text, length, get_or, any, any-append, any-keep, keep,
  sort_by, any-sort_by, arith,
}
use nisaba.Core.Mark.{Mark, insertion, deletion, same_kind}
use nisaba.Core.MarkSet.{MarkSet, iter, of_kind}
use nisaba.Core.MarkSet.Laws.{any-of_kind}
use nisaba.Core.Flags.{char_len, char_flags, has_flag, flag_insert, flag_delete}
use nisaba.Core.Flags.Covered.{covers, covered, length-char_flags, char_flags-covered}
use nisaba.Core.Validation.{
  ValidationIssue, Span, clamped, push_span, clamped_spans, conflicts_with, conflict_pairs,
  has_conflict, conflict_order, dedup, found_conflicts, conflict_issues,
}

abbrev pub nonempty {ℓ} : {A : Type ℓ} → List A → Bool
nonempty xs = any (λ x. true) xs

abbrev has_char : ℕ → Span → Bool
has_char i s = leb s.start i && ltb i s.end

-- A character has a property when a flag of the list does.
any_at :
    (t : ℕ → Bool) (fs : List ℕ) (i : ℕ)
    → i < length fs
    → t (get_or fs i 0) ≡ true
    → any t fs ≡ true
any_at t [] i lt h = absurd (omega arith)
any_at t (f ∷ fs) zero lt h = ground arith
any_at t (f ∷ fs) (suc i) lt h = ground (arith, any_at t fs i (omega arith) h)

any_where :
    (t : ℕ → Bool) (fs : List ℕ)
    → any t fs ≡ true
    → (i : ℕ) × (i < length fs) × (t (get_or fs i 0) ≡ true)
any_where t [] h = absurd (ground arith)
any_where t (f ∷ fs) h = elim (Bool-cases (t f)) [
  | inl e ↦ (0, omega arith, e)
  | inr e ↦ let (i, lt, k) = any_where t fs (ground (arith, h, e)) in (suc i, omega arith, k)
]

any-push_span :
    (n i : ℕ) (m : Mark) (xs : List Span)
    → any (has_char i) (push_span (clamped n m) xs) ≡ (covers n i m || any (has_char i) xs)
unfolding clamped
any-push_span n i m xs = ground arith

any-clamped_spans :
    (n i : ℕ) (ms : List Mark) → any (has_char i) (clamped_spans n ms) ≡ any (covers n i) ms
unfolding clamped_spans
any-clamped_spans n i [] = refl
any-clamped_spans n i (m ∷ ms) =
    ground (arith, any-push_span n i m (clamped_spans n ms), any-clamped_spans n i ms)

nonempty-conflicts_with :
    (i : ℕ) (x : Span) (ds : List Span)
    → has_char i x ≡ true
    → any (has_char i) ds ≡ true
    → nonempty (conflicts_with x ds) ≡ true
unfolding conflicts_with
nonempty-conflicts_with i x [] h k = absurd (ground arith)
nonempty-conflicts_with i x (d ∷ ds) h k = ground (arith, nonempty-conflicts_with i x ds h)

-- A character in a span of each list gives a pair.
nonempty-conflict_pairs :
    (i : ℕ) (xs ds : List Span)
    → any (has_char i) xs ≡ true
    → any (has_char i) ds ≡ true
    → nonempty (conflict_pairs xs ds) ≡ true
unfolding conflict_pairs
nonempty-conflict_pairs i [] ds h k = absurd (ground arith)
nonempty-conflict_pairs i (x ∷ xs) ds h k = ground (
  arith,
  any-append (λ (s : ValidationIssue). true) (conflicts_with x ds) (conflict_pairs xs ds),
  nonempty-conflicts_with i x ds,
  nonempty-conflict_pairs i xs ds,
)

nonempty-dedup : (xs : List ValidationIssue) → nonempty (dedup xs) ≡ nonempty xs
nonempty-dedup [] = refl
nonempty-dedup (x ∷ xs) = refl

-- The flags of a character.
conflict_at :
    (text : Text) (marks : MarkSet) (i : ℕ)
    → i < char_len text
    → (has_flag (get_or (char_flags text marks) i 0) flag_insert
        && has_flag (get_or (char_flags text marks) i 0) flag_delete)
      ≡ (covered insertion (char_len text) i (iter marks)
          && covered deletion (char_len text) i (iter marks))
conflict_at text marks i h =
    rw
      (
        char_flags-covered text marks insertion flag_insert i refl h,
        char_flags-covered text marks deletion flag_delete i refl h,
      )
      refl

nonempty-found_conflicts :
    (text : Text) (marks : MarkSet) (i : ℕ)
    → covered insertion (char_len text) i (iter marks) ≡ true
    → covered deletion (char_len text) i (iter marks) ≡ true
    → nonempty (found_conflicts text marks) ≡ true
unfolding found_conflicts
nonempty-found_conflicts text marks i h k =
    let n = char_len text in
    let ins = clamped_spans n (keep (λ m. same_kind m.kind insertion) (iter marks)) in
    let del = clamped_spans n (of_kind deletion marks) in
    nonempty-dedup (sort_by conflict_order (conflict_pairs ins del))
    ∙ any-sort_by conflict_order (λ x. true) (conflict_pairs ins del)
    ∙ nonempty-conflict_pairs i ins del
        (any-clamped_spans n i _
          ∙ any-keep (covers n i) (λ m. same_kind m.kind insertion) (iter marks)
          ∙ h)
        (any-clamped_spans n i _ ∙ any-of_kind (covers n i) deletion marks ∙ k)

both : (a b : Bool) → (a && b) ≡ true → (a ≡ true) × (b ≡ true)
both true b h = (refl, h)
both false b h = absurd (ground arith)

quiet :
    (text : Text) (marks : MarkSet) (i : ℕ)
    → has_conflict (char_flags text marks) ≡ false
    → i < char_len text
    → (covered insertion (char_len text) i (iter marks)
        && covered deletion (char_len text) i (iter marks))
      ≡ false
unfolding has_conflict
quiet text marks i e lt =
    elim (Bool-cases (
      covered insertion (char_len text) i (iter marks)
      && covered deletion (char_len text) i (iter marks))) [
        | inr z ↦ z
        | inl z ↦ absurd (
            ground (
              arith,
              e,
              any_at (λ f. has_flag f flag_insert && has_flag f flag_delete) (char_flags text marks)
                  i (subst (λ n. i < n) (sym (length-char_flags text marks)) lt)
                  (conflict_at text marks i lt ∙ z),
            ))
      ]

-- No conflict is reported exactly when no character is both inserted and deleted.
pub no_conflict :
    (text : Text) (marks : MarkSet)
    → (nonempty (conflict_issues text marks) ≡ false) ↔ (
        (i : ℕ)
        → i < char_len text
        → (covered insertion (char_len text) i (iter marks)
            && covered deletion (char_len text) i (iter marks))
          ≡ false)
unfolding conflict_issues has_conflict
no_conflict text marks = elim (Bool-cases (has_conflict (char_flags text marks))) [
  | inl e ↦
      let (i, lt, k) = any_where _ (char_flags text marks) e in
      let below = subst (λ n. i < n) (length-char_flags text marks) lt in
      let (h, l) = both _ _ (sym (conflict_at text marks i below) ∙ k) in
      (
        λ z. absurd (ground (arith, z, e, nonempty-found_conflicts text marks i h l)),
        λ f. absurd (ground (arith, f i below, h, l)),
      )
  | inr e ↦ (λ z i lt. quiet text marks i e lt, λ f. rw e refl)
]
