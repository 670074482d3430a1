-- ===== src/Core/Range.antt =====
-- crates/nisaba-core/src/position.rs: half-open ranges of positions.
pub mod Laws
pub mod Slices
use nisaba.Prelude.{
  ℕ, ◌-◌, ltb, leb, not, ◌&&◌, if◌then◌else◌, Bool, false, Option, none, some, min, max,
}
use nisaba.Core.Position.{Position}

pub record TextRange : Type 0 where
  pub start : Position
  pub end : Position

unfoldable pub new : Position → Position → TextRange
new s e = record { start = s; end = e }

unfoldable pub point : Position → TextRange
point p = record { start = p; end = p }

unfoldable pub collapsed_to_start : TextRange → TextRange
unfolding point
collapsed_to_start r = point r.start

unfoldable pub char_len : TextRange → ℕ
char_len r = r.end - r.start

unfoldable pub is_empty : TextRange → Bool
is_empty r = leb r.end r.start

unfoldable pub is_well_ordered : TextRange → Bool
is_well_ordered r = leb r.start r.end

unfoldable pub contains_pos : TextRange → Position → Bool
unfolding is_empty
contains_pos r p = not (is_empty r) && (leb r.start p && ltb p r.end)

unfoldable pub contains_range : TextRange → TextRange → Bool
contains_range r other = leb r.start other.start && leb other.end r.end

unfoldable pub overlaps : TextRange → TextRange → Bool
unfolding is_empty
overlaps r other =
    if is_empty r
    then false
    else if is_empty other
    then false
    else (ltb r.start other.end && ltb other.start r.end)

unfoldable pub intersect : TextRange → TextRange → Option TextRange
unfolding new
intersect r other =
    let s = max r.start other.start in
    let e = min r.end other.end in if ltb s e then some (new s e) else none

-- An empty range counts as the point where it starts.
unfoldable pub extent_end : TextRange → Position
unfolding is_empty
extent_end r = if is_empty r then r.start else r.end

unfoldable pub union : TextRange → TextRange → TextRange
unfolding extent_end new
union r other = new (min r.start other.start) (max (extent_end r) (extent_end other))

unfoldable pub clamp : TextRange → Position → Position → TextRange
unfolding new point
clamp r low high =
    let s = max r.start low in let e = min r.end high in if leb s e then new s e else point s
