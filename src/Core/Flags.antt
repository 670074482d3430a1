-- ===== src/Core/Flags.antt =====
-- crates/nisaba-core/src/projection.rs: the flags of each character, a bit for each kind of mark
-- that covers it.
pub mod Covered
use nisaba.Prelude.{
  ℕ, suc, ◌&&◌, not, ltb, leb, ◌==◌, if◌then◌else◌, Bool, Option, none, some, List, [], ◌∷◌, Text,
  length, get_or, replicate, min,
}
use Prim.Native.Nat.{bit_and, bit_or}
use nisaba.Core.Mark.{Mark, MarkKind, insertion, deletion, comment, secret}
use nisaba.Core.MarkSet.{MarkSet, iter}

abbrev pub flag_insert : ℕ
flag_insert = 1

abbrev pub flag_delete : ℕ
flag_delete = 2

abbrev pub flag_secret : ℕ
flag_secret = 4

-- `char_len`: the number of scalar values.
abbrev pub char_len : Text → ℕ
char_len text = length text

abbrev pub flag_bit : MarkKind → Option ℕ
flag_bit insertion = some flag_insert
flag_bit deletion = some flag_delete
flag_bit secret = some flag_secret
flag_bit comment = none

-- `f & bit != 0`.
unfoldable pub has_flag : ℕ → ℕ → Bool
has_flag f bit = not (bit_and f bit == 0)

-- `for f in &mut flags[s..e] { *f |= bit; }`, where the head of the list has index `i`.
unfoldable pub or_range : ℕ → ℕ → ℕ → ℕ → List ℕ → List ℕ
or_range bit s e i [] = []
or_range bit s e i (f ∷ fs) =
    (if leb s i && ltb i e then bit_or f bit else f) ∷ or_range bit s e (suc i) fs

-- One round of the loop over the marks, with the range clamped to the text length.
unfoldable pub flag_mark : ℕ → Mark → List ℕ → List ℕ
unfolding or_range
flag_mark n m flags = elim (flag_bit m.kind) [
  | none ↦ flags
  | some bit ↦
      let s = min m.range.start n in
      let e = min m.range.end n in if leb e s then flags else or_range bit s e 0 flags
]

unfoldable pub flag_marks : ℕ → List Mark → List ℕ → List ℕ
unfolding flag_mark
flag_marks n [] flags = flags
flag_marks n (m ∷ ms) flags = flag_marks n ms (flag_mark n m flags)

unfoldable pub char_flags : Text → MarkSet → List ℕ
unfolding flag_marks
char_flags text marks = flag_marks (char_len text) (iter marks) (replicate (char_len text) 0)

pub record CharVisibility : Type 0 where
  pub inserted : Bool
  pub deleted : Bool
  pub secret : Bool

unfoldable pub from_flags : ℕ → CharVisibility
unfolding has_flag
from_flags f = record {
  inserted = has_flag f flag_insert;
  deleted = has_flag f flag_delete;
  secret = has_flag f flag_secret;
}
