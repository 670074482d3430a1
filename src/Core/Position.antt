-- ===== src/Core/Position.antt =====
-- crates/nisaba-core/src/position.rs: character positions, and their conversion to and from
-- offsets in UTF-8 bytes and UTF-16 units. A `&str` is the list of its scalar values.
pub mod Offsets
use nisaba.Prelude.{
  ℕ, suc, ◌+◌, ◌-◌, ltb, leb, ◌==◌, if◌then◌else◌, Option, none, some, [], ◌∷◌, ◌&&◌, Text, min,
  u32_max, add_u32,
}

-- `Position(u32)`: a count of scalar values.
abbrev pub Position : Type 0
Position = ℕ

unfoldable pub saturating_add : Position → ℕ → Position
saturating_add p n = min (p + n) u32_max

unfoldable pub saturating_sub : Position → ℕ → Position
saturating_sub p n = p - n

pub data PositionTooLarge : Type 0 where
  too_large : ℕ → PositionTooLarge

pub data Conversion : Type 0 where
  ok : Position → Conversion
  err : PositionTooLarge → Conversion

-- `Position::try_from(usize)`.
unfoldable pub try_from : ℕ → Conversion
try_from i = if leb i u32_max then ok i else err (too_large i)

-- `char::len_utf8` and `char::len_utf16`.
unfoldable pub len_utf8 : ℕ → ℕ
len_utf8 c = if ltb c 0x80 then 1 else if ltb c 0x800 then 2 else if ltb c 0x10000 then 3 else 4

unfoldable pub len_utf16 : ℕ → ℕ
len_utf16 c = if ltb c 0x10000 then 1 else 2

-- `text.len()`.
unfoldable pub byte_len : Text → ℕ
byte_len [] = 0
byte_len (c ∷ cs) = len_utf8 c + byte_len cs

-- The loop of `to_byte`: the byte offset `bytes` belongs to the character with index `seen`.
unfoldable pub to_byte_from : ℕ → ℕ → ℕ → Text → Option ℕ
to_byte_from target seen bytes [] = if seen == target then some bytes else none
to_byte_from target seen bytes (c ∷ cs) =
    let rest = to_byte_from target (suc seen) (bytes + len_utf8 c) cs in
    if seen == target then some bytes else rest

unfoldable pub to_byte : Position → Text → Option ℕ
to_byte p text = to_byte_from p 0 0 text

unfoldable pub to_utf16_from : ℕ → ℕ → ℕ → Text → Option ℕ
to_utf16_from target seen units [] = if seen == target then some units else none
to_utf16_from target seen units (c ∷ cs) =
    let rest = to_utf16_from target (suc seen) (units + len_utf16 c) cs in
    if seen == target then some units else rest

unfoldable pub to_utf16 : Position → Text → Option ℕ
to_utf16 p text = to_utf16_from p 0 0 text

-- The loop of `from_utf16`; the count of scalars is a `u32`.
unfoldable pub from_utf16_from : ℕ → ℕ → ℕ → Text → Option Position
from_utf16_from offset units seen [] = if units == offset then some seen else none
from_utf16_from offset units seen (c ∷ cs) =
    let rest = from_utf16_from offset (units + len_utf16 c) (add_u32 seen 1) cs in
    if units == offset then some seen else rest

unfoldable pub from_utf16 : Text → ℕ → Option Position
from_utf16 text offset = from_utf16_from offset 0 0 text

unfoldable pub from_byte_from : ℕ → ℕ → ℕ → Text → Option Position
from_byte_from offset bytes seen [] = if bytes == offset then some seen else none
from_byte_from offset bytes seen (c ∷ cs) =
    let rest = from_byte_from offset (bytes + len_utf8 c) (add_u32 seen 1) cs in
    if bytes == offset then some seen else rest

unfoldable pub from_byte : Text → ℕ → Option Position
from_byte text offset = from_byte_from offset 0 0 text
