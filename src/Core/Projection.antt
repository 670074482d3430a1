-- ===== src/Core/Projection.antt =====
-- crates/nisaba-core/src/projection.rs: the five views of a text and its marks.
pub mod Visible
use nisaba.Prelude.{ℕ, ◌&&◌, not, Bool, Text, get_or, select}
use nisaba.Core.MarkSet.{MarkSet}
use nisaba.Core.Flags.{flag_insert, flag_delete, flag_secret, has_flag, char_flags}
use nisaba.Core.RedlineStyle.{RedlineStyle, new_default}
use nisaba.Core.Redline.{redline}

pub data View : Type 0 where
  baseline proposed redlined public editor : View

-- The characters whose flags satisfy the test, in order.
unfoldable pub filter : Text → MarkSet → (ℕ → Bool) → Text
filter text marks keep =
    let flags = char_flags text marks in select (λ i. keep (get_or flags i 0)) 0 text

unfoldable pub project_with : Text → MarkSet → View → RedlineStyle → Text
unfolding filter
project_with text marks baseline style = filter text marks (λ f. not (has_flag f flag_insert))
project_with text marks proposed style = filter text marks (λ f. not (has_flag f flag_delete))
project_with text marks public style =
    filter text marks (λ f. not (has_flag f flag_delete) && not (has_flag f flag_secret))
project_with text marks editor style = text
project_with text marks redlined style = redline text marks style

unfoldable pub project : Text → MarkSet → View → Text
unfolding project_with
project text marks view = project_with text marks view new_default
