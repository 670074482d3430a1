-- ===== src/Core/Projection/Visible.antt =====
-- The views that filter, by the marks that cover a character.
use nisaba.Prelude.{
  ℕ, ◌≡◌, ◌≢◌, refl, ap, true, ◌&&◌, not, Bool, Text, select, select-ext, select-all, List, arith,
  sym,
}
use nisaba.Core.Mark.{Mark, insertion, deletion, secret}
use nisaba.Core.MarkSet.{MarkSet, iter}
use nisaba.Core.Flags.{flag_insert, flag_delete, flag_secret, char_len}
use nisaba.Core.Flags.Covered.{char_flags-covered, covered}
use nisaba.Core.Projection.{View, baseline, proposed, redlined, public, editor, filter, project}

-- Whether a view shows the character with index `i` of a text with `n` characters.
abbrev pub visible : View → ℕ → List Mark → ℕ → Bool
visible baseline n ms i = not (covered insertion n i ms)
visible proposed n ms i = not (covered deletion n i ms)
visible public n ms i = not (covered deletion n i ms) && not (covered secret n i ms)
visible editor n ms i = true
visible redlined n ms i = true

-- Every view but the redline shows, in order, the characters that no mark hides from it: the
-- baseline those that no insertion covers, the proposed view those that no deletion covers, the
-- public view those that neither a deletion nor a secret covers, the editor all.
pub project-visible :
    (text : Text) (marks : MarkSet) (view : View)
    → view ≢ redlined
    → project text marks view ≡ select (visible view (char_len text) (iter marks)) 0 text
unfolding project filter
project-visible text marks baseline h =
    select-ext _ _ 0 text
      λ j a b. ap not (char_flags-covered text marks insertion flag_insert j refl (omega arith))
project-visible text marks proposed h =
    select-ext _ _ 0 text
      λ j a b. ap not (char_flags-covered text marks deletion flag_delete j refl (omega arith))
project-visible text marks public h = select-ext _ _ 0 text λ j a b. ground (
  arith,
  char_flags-covered text marks deletion flag_delete j refl (omega arith),
  char_flags-covered text marks secret flag_secret j refl (omega arith),
)
project-visible text marks editor h = sym (select-all (λ i. true) 0 text (λ j a b. refl))
project-visible text marks redlined h = absurd (h refl)
