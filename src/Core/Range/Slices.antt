-- ===== src/Core/Range/Slices.antt =====
-- `slice_chars`, which cuts by characters although it works on byte offsets. `str_get` is
-- `str::get` of the standard library on a range of byte offsets.
use nisaba.Prelude.{
  ℕ, zero, suc, ◌+◌, ◌-◌, ◌≤◌, ◌≡◌, refl, ltb, leb, ◌==◌, if◌then◌else◌, Option, none, some, ◌&&◌,
  [], ◌∷◌, Text, length, take, drop, length-drop, arith,
}
use native.Mathlib.Nat.{zero-add, suc-add}
use nisaba.Core.Position.{len_utf8, byte_len, to_byte_from, to_byte}
use nisaba.Core.Position.Offsets.{len_utf8_pos}
use nisaba.Core.Range.{TextRange, is_well_ordered}

-- The characters before a byte offset that lies on a character boundary.
unfoldable pub bytes_before : ℕ → Text → Option Text
bytes_before b [] = if b == 0 then some [] else none
bytes_before b (c ∷ cs) =
    let rest = bytes_before (b - len_utf8 c) cs in
    if b == 0
    then some []
    else if ltb b (len_utf8 c)
    then none
    else elim rest [ none ↦ none | some xs ↦ some (c ∷ xs) ]

unfoldable pub bytes_after : ℕ → Text → Option Text
bytes_after b [] = if b == 0 then some [] else none
bytes_after b (c ∷ cs) =
    let rest = bytes_after (b - len_utf8 c) cs in
    if b == 0 then some (c ∷ cs) else if ltb b (len_utf8 c) then none else rest

-- `text.get(from..to)`.
unfoldable pub str_get : Text → ℕ → ℕ → Option Text
unfolding bytes_before bytes_after
str_get text from to =
    if ltb to from
    then none
    else elim (bytes_after from text) [ none ↦ none | some rest ↦ bytes_before (to - from) rest ]

unfoldable pub slice_chars : Text → TextRange → Option Text
unfolding to_byte byte_len str_get is_well_ordered
slice_chars text r =
    if is_well_ordered r
    then elim (to_byte r.start text) [
      | none ↦ none
      | some from ↦ elim (to_byte r.end text) [
        | none ↦ none
        | some to ↦
            if ltb to from
            then none
            else if ltb (byte_len text) to
            then none
            else str_get text from to
      ]
    ]
    else none

-- The byte offset of the `k`-th character from here on.
to_byte_from_lem :
    (p seen b k : ℕ) (t : Text)
    → p ≡ seen + k
    → to_byte_from p seen b t ≡ (if leb k (length t) then some (b + byte_len (take k t)) else none)
unfolding to_byte_from byte_len
to_byte_from_lem p seen b zero [] h = ground arith
to_byte_from_lem p seen b (suc k) [] h = ground arith
to_byte_from_lem p seen b zero (c ∷ cs) h = ground arith
to_byte_from_lem p seen b (suc k) (c ∷ cs) h =
    ground (arith, to_byte_from_lem p (suc seen) (b + len_utf8 c) k cs (omega arith))

byte_len-take-le : (n : ℕ) (t : Text) → byte_len (take n t) ≤ byte_len t
unfolding byte_len
byte_len-take-le zero t = omega arith
byte_len-take-le (suc n) [] = omega arith
byte_len-take-le (suc n) (c ∷ cs) = omega (arith, byte_len-take-le n cs)

byte_len-take-add :
    (s d : ℕ) (t : Text)
    → byte_len (take (s + d) t) ≡ byte_len (take s t) + byte_len (take d (drop s t))
unfolding byte_len
byte_len-take-add zero d t = rw zero-add (omega arith)
byte_len-take-add (suc s) zero [] = rw suc-add refl
byte_len-take-add (suc s) (suc d) [] = rw suc-add refl
byte_len-take-add (suc s) d (c ∷ cs) = rw suc-add (omega (arith, byte_len-take-add s d cs))

bytes_after-byte_len :
    (k : ℕ) (t : Text) → k ≤ length t → bytes_after (byte_len (take k t)) t ≡ some (drop k t)
unfolding bytes_after byte_len
bytes_after-byte_len zero [] h = refl
bytes_after-byte_len zero (c ∷ cs) h = refl
bytes_after-byte_len (suc k) [] h = absurd (omega arith)
bytes_after-byte_len (suc k) (c ∷ cs) h =
    let e : len_utf8 c + byte_len (take k cs) - len_utf8 c ≡ byte_len (take k cs) = omega arith in
    ground (arith, len_utf8_pos c, e, bytes_after-byte_len k cs)

bytes_before-byte_len :
    (k : ℕ) (t : Text) → k ≤ length t → bytes_before (byte_len (take k t)) t ≡ some (take k t)
unfolding bytes_before byte_len
bytes_before-byte_len zero [] h = refl
bytes_before-byte_len zero (c ∷ cs) h = refl
bytes_before-byte_len (suc k) [] h = absurd (omega arith)
bytes_before-byte_len (suc k) (c ∷ cs) h =
    let e : len_utf8 c + byte_len (take k cs) - len_utf8 c ≡ byte_len (take k cs) = omega arith in
    ground (arith, len_utf8_pos c, e, bytes_before-byte_len k cs)

-- The bytes between two character boundaries are the characters between them.
pub str_get_lem :
    (text : Text) (s e : ℕ)
    → s ≤ e
    → e ≤ length text
    → str_get text (byte_len (take s text)) (byte_len (take e text))
      ≡ some (take (e - s) (drop s text))
unfolding str_get
str_get_lem text s e h k = ground (
  arith,
  byte_len-take-add s (e - s) text,
  bytes_after-byte_len s text (omega arith),
  bytes_before-byte_len (e - s) (drop s text),
  length-drop s text,
)

-- `slice_chars` returns the characters from `start` up to `end` when the range is well ordered and
-- ends within the text, and nothing otherwise.
pub slice_chars_exact :
    (text : Text) (r : TextRange)
    → slice_chars text r ≡ (
        if leb r.start r.end && leb r.end (length text)
        then some (take (r.end - r.start) (drop r.start text))
        else none)
unfolding slice_chars
slice_chars_exact text r = ground (
  arith,
  to_byte_from_lem r.start 0 0 r.start text (omega arith),
  to_byte_from_lem r.end 0 0 r.end text (omega arith),
  byte_len-take-add r.start (r.end - r.start) text,
  byte_len-take-le r.end text,
  bytes_after-byte_len r.start text,
  bytes_before-byte_len (r.end - r.start) (drop r.start text),
  length-drop r.start text,
)
