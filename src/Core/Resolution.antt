-- ===== src/Core/Resolution.antt =====
-- crates/nisaba-core/src/resolution.rs: accepting and rejecting one change.
pub mod Remap
pub mod Cut
pub mod Bounds
pub mod Cases
pub mod Outcome
pub mod Views
pub mod Survivors
use nisaba.Prelude.{
  ℕ, suc, ◌+◌, ◌-◌, ◌&&◌, ◌||◌, not, ltb, leb, ◌==◌, if◌then◌else◌, Bool, true, false, Option, none,
  some, List, [], ◌∷◌, ◌++◌, Text, select, min, u32_or_max,
}
use nisaba.Core.Position.{Position}
use nisaba.Core.Range.{TextRange, new, is_empty}
use nisaba.Core.Mark.{Mark, MarkId, MarkKind, insertion, deletion, comment, secret, is_change}
use nisaba.Core.MarkSet
use nisaba.Core.MarkSet.{MarkSet, iter}
use nisaba.Core.Flags.{char_len}

pub data Resolution : Type 0 where
  accepted rejected : Resolution

pub data ResolutionError : Type 0 where
  mark_not_found : MarkId → ResolutionError
  not_a_change : MarkId → MarkKind → ResolutionError

pub record ResolutionOutcome : Type 0 where
  pub text : Text
  pub marks : MarkSet
  pub text_changed : Bool
  pub removed_range : Option TextRange
  pub remapped : ℕ
  pub emptied : List MarkId

pub data Result {ℓ} (A : Type ℓ) : Type ℓ where
  ok : A → Result A
  err : ResolutionError → Result A

unfoldable pub remap_position_after_deletion : Position → Position → Position → Position
remap_position_after_deletion pos del_start del_end =
    if leb pos del_start
    then pos
    else if leb del_end pos
    then u32_or_max (pos - (del_end - del_start))
    else del_start

unfoldable pub remap_range_after_deletion : TextRange → Position → Position → TextRange
unfolding remap_position_after_deletion new
remap_range_after_deletion r del_start del_end =
    new (remap_position_after_deletion r.start del_start del_end)
      (remap_position_after_deletion r.end del_start del_end)

unfoldable pub remove_char_range : Text → ℕ → ℕ → Text
remove_char_range text start end =
    if leb end start || leb (char_len text) start
    then text
    else (let last = min end (char_len text) in
        select (λ i. not (leb start i && ltb i last)) 0 text)

-- Whether two ranges are equal.
abbrev pub same_range : TextRange → TextRange → Bool
same_range r s = r.start == s.start && r.end == s.end

-- The variables of the loop over the surviving marks.
pub record Remapping : Type 0 where
  pub new_marks : MarkSet
  pub remapped : ℕ
  pub emptied : List MarkId

unfoldable pub remap_mark : Position → Position → Mark → Mark
unfolding remap_range_after_deletion
remap_mark del_s del_e m = record m { range = remap_range_after_deletion m.range del_s del_e }

-- The body of the loop.
unfoldable pub remap_step : MarkId → Position → Position → Mark → Remapping → Remapping
unfolding remap_mark is_empty MarkSet.insert
remap_step id del_s del_e m acc =
    let nm = remap_mark del_s del_e m in
    if m.id == id then acc else record {
      new_marks = MarkSet.insert nm acc.new_marks;
      remapped = if same_range nm.range m.range then acc.remapped else acc.remapped + 1;
      emptied =
          if not (is_empty m.range) && is_empty nm.range
          then acc.emptied ++ nm.id ∷ []
          else acc.emptied;
    }

unfoldable pub remap_marks : MarkId → Position → Position → List Mark → Remapping → Remapping
unfolding remap_step
remap_marks id del_s del_e [] acc = acc
remap_marks id del_s del_e (m ∷ ms) acc =
    remap_marks id del_s del_e ms (remap_step id del_s del_e m acc)

abbrev pub removes_text : MarkKind → Resolution → Bool
removes_text insertion rejected = true
removes_text deletion accepted = true
removes_text _ _ = false

-- The mark is dropped and nothing else moves.
unfoldable pub dropped : Text → MarkSet → MarkId → ResolutionOutcome
unfolding MarkSet.remove
dropped text marks id = record {
  text = text;
  marks = MarkSet.remove id marks;
  text_changed = false;
  removed_range = none;
  remapped = 0;
  emptied = [];
}

-- The characters of the mark are removed and the surviving marks remapped.
unfoldable pub removed : Text → MarkSet → MarkId → ℕ → ℕ → ResolutionOutcome
unfolding remove_char_range remap_marks new
removed text marks id del_start del_end =
    let del_s = u32_or_max del_start in
    let del_e = u32_or_max del_end in
    let loop =
      remap_marks id del_s del_e (iter marks)
        (record { new_marks = MarkSet.empty; remapped = 0; emptied = [] }) in
    record {
      text = remove_char_range text del_start del_end;
      marks = loop.new_marks;
      text_changed = true;
      removed_range = some (new del_s del_e);
      remapped = loop.remapped;
      emptied = loop.emptied;
    }

unfoldable pub resolve_mark : Text → MarkSet → MarkId → Mark → Resolution → Result ResolutionOutcome
unfolding is_change
resolve_mark text marks id mark resolution =
    let del_start = min mark.range.start (char_len text) in
    let del_end = min mark.range.end (char_len text) in
    if not (is_change mark.kind)
    then err (not_a_change id mark.kind)
    else if not (removes_text mark.kind resolution)
    then ok (dropped text marks id)
    else if leb del_end del_start
    then ok (dropped text marks id)
    else ok (removed text marks id del_start del_end)

unfoldable pub resolve : Text → MarkSet → MarkId → Resolution → Result ResolutionOutcome
unfolding resolve_mark
resolve text marks id resolution = elim (MarkSet.get id marks) [
  | none ↦ err (mark_not_found id)
  | some mark ↦ resolve_mark text marks id mark resolution
]

unfoldable pub accept : Text → MarkSet → MarkId → Result ResolutionOutcome
unfolding resolve
accept text marks id = resolve text marks id accepted

unfoldable pub reject : Text → MarkSet → MarkId → Result ResolutionOutcome
unfolding resolve
reject text marks id = resolve text marks id rejected
