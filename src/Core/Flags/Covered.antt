-- ===== src/Core/Flags/Covered.antt =====
-- The flags against their meaning: a character has the flag of a kind when a mark of the kind
-- covers it.
use nisaba.Prelude.{
  ℕ, zero, suc, ◌+◌, ◌<◌, ◌≡◌, refl, ap, ◌∙◌, ◌&&◌, ◌||◌, not, ltb, leb, ◌==◌, if◌then◌else◌, Bool,
  true, false, Option-cases, inl, inr, none, some, List, [], ◌∷◌, Text, length, get_or, replicate,
  length-replicate, get_or-replicate, min, any, All, arith, ltb→lt,
}
use native.Mathlib.Nat.{add-zero, add-suc, suc-add}
use Prim.Native.Nat.{bit_or}
use nisaba.Core.Mark.{Mark, MarkKind, insertion, deletion, comment, secret, same_kind}
use nisaba.Core.MarkSet.{MarkSet, iter}
use nisaba.Core.Flags.{flag_bit, has_flag, or_range, flag_mark, flag_marks, char_flags, char_len}

-- The mark covers the character with index `i` of a text with `n` characters.
abbrev pub covers : ℕ → ℕ → Mark → Bool
covers n i m = leb (min m.range.start n) i && ltb i (min m.range.end n)

-- Some mark of the kind covers the character.
abbrev pub covered : MarkKind → ℕ → ℕ → List Mark → Bool
covered k n i ms = any (λ m. same_kind m.kind k && covers n i m) ms

-- The test holds of every number below the bound.
holds_below : (ℕ → Bool) → ℕ → Bool
holds_below test zero = true
holds_below test (suc n) = if test n then holds_below test n else false

holds_below_lem : (test : ℕ → Bool) (n i : ℕ) → i < n → holds_below test n ≡ true → test i ≡ true
unfolding holds_below
holds_below_lem test zero i lt h = absurd (omega arith)
holds_below_lem test (suc n) i lt h = ground (arith, holds_below_lem test n i)

abbrev same_bool : Bool → Bool → Bool
same_bool true b = b
same_bool false b = not b

same_bool-eq : (a b : Bool) → same_bool a b ≡ true → a ≡ b
same_bool-eq true true h = refl
same_bool-eq true false h = ground arith
same_bool-eq false true h = ground arith
same_bool-eq false false h = refl

and_true : (a b : Bool) → (a && b) ≡ true → (a ≡ true) × (b ≡ true)
and_true true b h = (refl, h)
and_true false b h = absurd (ground arith)

-- Setting the bit `b` of a byte below 8 sets the flag `b`, keeps the others, and stays below 8.
abbrev or_row : ℕ → ℕ → ℕ → Bool
or_row b k f = same_bool (has_flag (bit_or f b) k) ((b == k) || has_flag f k) && ltb (bit_or f b) 8

data IsBit : ℕ → Type 0 where
  one : {b : ℕ} → b ≡ 1 → IsBit b
  two : {b : ℕ} → b ≡ 2 → IsBit b
  four : {b : ℕ} → b ≡ 4 → IsBit b

or_table : (b k : ℕ) → IsBit b → IsBit k → holds_below (or_row b k) 8 ≡ true
unfolding holds_below has_flag
or_table b k (one e) (one h) = rw (e, h)
or_table b k (one e) (two h) = rw (e, h)
or_table b k (one e) (four h) = rw (e, h)
or_table b k (two e) (one h) = rw (e, h)
or_table b k (two e) (two h) = rw (e, h)
or_table b k (two e) (four h) = rw (e, h)
or_table b k (four e) (one h) = rw (e, h)
or_table b k (four e) (two h) = rw (e, h)
or_table b k (four e) (four h) = rw (e, h)

or_lem :
    (b k f : ℕ)
    → IsBit b
    → IsBit k
    → f < 8
    → (has_flag (bit_or f b) k ≡ ((b == k) || has_flag f k)) × (bit_or f b < 8)
or_lem b k f hb hk h =
    let t = holds_below_lem (or_row b k) 8 f h (or_table b k hb hk) in
    let r =
      and_true (same_bool (has_flag (bit_or f b) k) ((b == k) || has_flag f k)) (ltb (bit_or f b) 8)
        t in
    (same_bool-eq _ _ r.0, ltb→lt _ _ r.1)

abbrev AllSmall : List ℕ → Type 0
AllSmall fs = All (λ f. f < 8) fs

get_or-small : (i : ℕ) (fs : List ℕ) → AllSmall fs → get_or fs i 0 < 8
get_or-small i [] h = omega arith
get_or-small zero (f ∷ fs) h = h.0
get_or-small (suc i) (f ∷ fs) h = get_or-small i fs h.1

get_or-or_range :
    (bit s e i j : ℕ) (fs : List ℕ)
    → j < length fs
    → get_or (or_range bit s e i fs) j 0
      ≡ (if leb s (i + j) && ltb (i + j) e then bit_or (get_or fs j 0) bit else get_or fs j 0)
unfolding or_range
get_or-or_range bit s e i j [] h = absurd (omega arith)
get_or-or_range bit s e i zero (f ∷ fs) h = rw add-zero refl
get_or-or_range bit s e i (suc j) (f ∷ fs) h =
    rw (add-suc, ← suc-add) (get_or-or_range bit s e (suc i) j fs (omega arith))

length-or_range : (bit s e i : ℕ) (fs : List ℕ) → length (or_range bit s e i fs) ≡ length fs
unfolding or_range
length-or_range bit s e i [] = refl
length-or_range bit s e i (f ∷ fs) = ap suc (length-or_range bit s e (suc i) fs)

small-or_range :
    (bit s e i : ℕ) (fs : List ℕ) → IsBit bit → AllSmall fs → AllSmall (or_range bit s e i fs)
unfolding or_range
small-or_range bit s e i [] b h = tt
small-or_range bit s e i (f ∷ fs) b h =
    (ground (arith, (or_lem bit bit f b b h.0).1), small-or_range bit s e (suc i) fs b h.1)

flag_bit-IsBit : (k : MarkKind) (b : ℕ) → flag_bit k ≡ some b → IsBit b
flag_bit-IsBit insertion b h = one (ground arith)
flag_bit-IsBit deletion b h = two (ground arith)
flag_bit-IsBit comment b h = absurd (ground arith)
flag_bit-IsBit secret b h = four (ground arith)

same_kind-bits :
    (k l : MarkKind) (a b : ℕ)
    → flag_bit k ≡ some a
    → flag_bit l ≡ some b
    → (a == b) ≡ same_kind k l
same_kind-bits k l a b h g = ground arith

no_bit : (k l : MarkKind) (b : ℕ) → flag_bit k ≡ none → flag_bit l ≡ some b → same_kind k l ≡ false
no_bit k l b h g = ground arith

module _ (k : MarkKind) (b : ℕ) (is_flag : flag_bit k ≡ some b) (n : ℕ) where
  flag_mark_lem :
      (m : Mark) (i : ℕ) (fs : List ℕ)
      → AllSmall fs
      → i < length fs
      → has_flag (get_or (flag_mark n m fs) i 0) b
        ≡ ((same_kind m.kind k && covers n i m) || has_flag (get_or fs i 0) b)
  unfolding flag_mark
  flag_mark_lem m i fs small h = elim (Option-cases (flag_bit m.kind)) [
    | inl e ↦ rw (e, flag_mark) (rw (no_bit m.kind k b e is_flag))
    | inr (c, e) ↦
        rw (e, flag_mark)
          (ground (
            arith,
            same_kind-bits m.kind k c b e is_flag,
            get_or-or_range c (min m.range.start n) (min m.range.end n) 0 i fs h,
            or_lem c b (get_or fs i 0) (flag_bit-IsBit m.kind c e) (flag_bit-IsBit k b is_flag)
                (get_or-small i fs small),
          ))
  ]

small-flag_mark : (n : ℕ) (m : Mark) (fs : List ℕ) → AllSmall fs → AllSmall (flag_mark n m fs)
unfolding flag_mark
small-flag_mark n m fs h = elim (Option-cases (flag_bit m.kind)) [
  | inl e ↦ rw (e, flag_mark) h
  | inr (c, e) ↦
      rw (e, flag_mark)
        (ground (
          arith,
          small-or_range c (min m.range.start n) (min m.range.end n) 0 fs
              (flag_bit-IsBit m.kind c e) h,
        ))
]

length-flag_mark : (n : ℕ) (m : Mark) (fs : List ℕ) → length (flag_mark n m fs) ≡ length fs
unfolding flag_mark
length-flag_mark n m fs = elim (Option-cases (flag_bit m.kind)) [
  | inl e ↦ rw (e, flag_mark)
  | inr (c, e) ↦
      rw (e, flag_mark)
        (ground (arith, length-or_range c (min m.range.start n) (min m.range.end n) 0 fs))
]

length-flag_marks : (n : ℕ) (ms : List Mark) (fs : List ℕ) → length (flag_marks n ms fs) ≡ length fs
unfolding flag_marks
length-flag_marks n [] fs = refl
length-flag_marks n (m ∷ ms) fs =
    length-flag_marks n ms (flag_mark n m fs) ∙ length-flag_mark n m fs

-- There is one flag byte for each character, so that the filter's indexing is in bounds.
pub length-char_flags :
    (text : Text) (marks : MarkSet) → length (char_flags text marks) ≡ char_len text
unfolding char_flags
length-char_flags text marks =
    length-flag_marks (char_len text) (iter marks) (replicate (char_len text) 0)
    ∙ length-replicate (char_len text) 0

module _ (k : MarkKind) (b : ℕ) (is_flag : flag_bit k ≡ some b) (n : ℕ) where
  flag_marks_lem :
      (ms : List Mark) (i : ℕ) (fs : List ℕ)
      → AllSmall fs
      → i < length fs
      → has_flag (get_or (flag_marks n ms fs) i 0) b
        ≡ (covered k n i ms || has_flag (get_or fs i 0) b)
  unfolding flag_marks
  flag_marks_lem [] i fs small h = refl
  flag_marks_lem (m ∷ ms) i fs small h = ground (
    arith,
    flag_marks_lem ms i (flag_mark n m fs) (small-flag_mark n m fs small)
        (rw (length-flag_mark n m fs) h),
    flag_mark_lem k b is_flag n m i fs small h,
  )

small_zeros : (n : ℕ) → AllSmall (replicate n 0)
small_zeros zero = tt
small_zeros (suc n) = (omega arith, small_zeros n)

no_flag : (b : ℕ) → IsBit b → has_flag 0 b ≡ false
unfolding has_flag
no_flag b (one e) = rw e
no_flag b (two e) = rw e
no_flag b (four e) = rw e

-- A character of the text has the flag of a kind exactly when a mark of that kind, clamped to the
-- text, covers it.
pub char_flags-covered :
    (text : Text) (marks : MarkSet) (k : MarkKind) (b i : ℕ)
    → flag_bit k ≡ some b
    → i < char_len text
    → has_flag (get_or (char_flags text marks) i 0) b ≡ covered k (char_len text) i (iter marks)
unfolding char_flags
char_flags-covered text marks k b i e h = ground (
  arith,
  flag_marks_lem k b e (char_len text) (iter marks) i (replicate (char_len text) 0)
      (small_zeros (char_len text)) (rw (length-replicate {A = ℕ} (char_len text) 0) h),
  get_or-replicate {A = ℕ} (char_len text) i 0,
  no_flag b (flag_bit-IsBit k b e),
)
