-- ===== src/Core/Position/Offsets.antt =====
-- The conversions of a position to an offset and back are inverse to one another.
use nisaba.Prelude.{ℕ, suc, ◌+◌, ◌≤◌, ◌<◌, ◌≡◌, ◌↔◌, some, [], ◌∷◌, Text, length, arith, u32_max}
use nisaba.Core.Position.{
  Position, len_utf8, len_utf16, to_byte_from, to_byte, to_utf16_from, to_utf16, from_utf16_from,
  from_utf16, from_byte_from, from_byte,
}

pub len_utf8_pos : (c : ℕ) → 0 < len_utf8 c
unfolding len_utf8
len_utf8_pos c = ground arith

len_utf16_pos : (c : ℕ) → 0 < len_utf16 c
unfolding len_utf16
len_utf16_pos c = ground arith

-- An offset that is found is not before the one where the search starts; so for an index.
to_byte_from_le : (p seen b o : ℕ) (t : Text) → to_byte_from p seen b t ≡ some o → b ≤ o
unfolding to_byte_from
to_byte_from_le p seen b o [] h = ground arith
to_byte_from_le p seen b o (c ∷ cs) h =
    ground (arith, to_byte_from_le p (suc seen) (b + len_utf8 c) o cs)

from_byte_from_le :
    (o b seen p : ℕ) (t : Text)
    → seen + length t ≤ u32_max
    → from_byte_from o b seen t ≡ some p
    → seen ≤ p
unfolding from_byte_from
from_byte_from_le o b seen p [] n h = ground arith
from_byte_from_le o b seen p (c ∷ cs) n h =
    ground (arith, from_byte_from_le o (b + len_utf8 c) (suc seen) p cs)

to_utf16_from_le : (p seen b o : ℕ) (t : Text) → to_utf16_from p seen b t ≡ some o → b ≤ o
unfolding to_utf16_from
to_utf16_from_le p seen b o [] h = ground arith
to_utf16_from_le p seen b o (c ∷ cs) h =
    ground (arith, to_utf16_from_le p (suc seen) (b + len_utf16 c) o cs)

from_utf16_from_le :
    (o b seen p : ℕ) (t : Text)
    → seen + length t ≤ u32_max
    → from_utf16_from o b seen t ≡ some p
    → seen ≤ p
unfolding from_utf16_from
from_utf16_from_le o b seen p [] n h = ground arith
from_utf16_from_le o b seen p (c ∷ cs) n h =
    ground (arith, from_utf16_from_le o (b + len_utf16 c) (suc seen) p cs)

byte_walks :
    (p o seen b : ℕ) (t : Text)
    → seen + length t ≤ u32_max
    → (to_byte_from p seen b t ≡ some o) ↔ (from_byte_from o b seen t ≡ some p)
unfolding to_byte_from from_byte_from
byte_walks p o seen b [] n = ground arith
byte_walks p o seen b (c ∷ cs) n = ground (
  arith,
  byte_walks p o (suc seen) (b + len_utf8 c) cs (omega arith),
  to_byte_from_le p (suc seen) (b + len_utf8 c) o cs,
  from_byte_from_le o (b + len_utf8 c) (suc seen) p cs (omega arith),
  len_utf8_pos c,
)

utf16_walks :
    (p o seen b : ℕ) (t : Text)
    → seen + length t ≤ u32_max
    → (to_utf16_from p seen b t ≡ some o) ↔ (from_utf16_from o b seen t ≡ some p)
unfolding to_utf16_from from_utf16_from
utf16_walks p o seen b [] n = ground arith
utf16_walks p o seen b (c ∷ cs) n = ground (
  arith,
  utf16_walks p o (suc seen) (b + len_utf16 c) cs (omega arith),
  to_utf16_from_le p (suc seen) (b + len_utf16 c) o cs,
  from_utf16_from_le o (b + len_utf16 c) (suc seen) p cs (omega arith),
  len_utf16_pos c,
)

-- In a text whose length fits `u32`, `to_byte` gives a position the byte offset that `from_byte`
-- gives back the position for, and no other.
pub to_byte-from_byte :
    (text : Text) (p : Position) (offset : ℕ)
    → length text ≤ u32_max
    → (to_byte p text ≡ some offset) ↔ (from_byte text offset ≡ some p)
unfolding to_byte from_byte
to_byte-from_byte text p offset h = byte_walks p offset 0 0 text (omega arith)

-- In a text whose length fits `u32`, `to_utf16` gives a position the UTF-16 offset that
-- `from_utf16` gives back the position for, and no other.
pub to_utf16-from_utf16 :
    (text : Text) (p : Position) (offset : ℕ)
    → length text ≤ u32_max
    → (to_utf16 p text ≡ some offset) ↔ (from_utf16 text offset ≡ some p)
unfolding to_utf16 from_utf16
to_utf16-from_utf16 text p offset h = utf16_walks p offset 0 0 text (omega arith)
