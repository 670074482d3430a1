-- ===== src/Core/RedlineStyle.antt =====
-- crates/nisaba-core/src/redline.rs: the marker strings that the redline injects, and their safety
-- contract.
use nisaba.Prelude.{◌≡◌, ◌++◌, Bool, true, false, if◌then◌else◌, some, List, [], ◌∷◌, Text, arith}
use Prim.Native.Char.{code}
use Prim.Native.String.{String}
use nisaba.Core.Mark.{MarkKind, insertion, deletion, comment, secret, is_change}
use nisaba.Core.Delimiters.{
  InlineSafety, inline_safe, block_replaced, Scan, scan, classify_inline_safety,
  opens_one_content_block, non_square_delimiters_clean,
}
use nisaba.Core.Delimiters.Balance.{Same}
use nisaba.Core.Delimiters.Block.{block_scan}

-- The scalar values of a literal.
abbrev pub scalars : String → Text
scalars String.[] = []
scalars (String.◌∷◌ c s) = code c ∷ scalars s

pub record RedlineStyle : Type 0 where
  pub insert_open : Text
  pub insert_close : Text
  pub delete_open : Text
  pub delete_close : Text
  pub replaced_open : Text
  pub replaced_close : Text

unfoldable pub new_default : RedlineStyle
new_default = record {
  insert_open = scalars "#review.add[";
  insert_close = scalars "]";
  delete_open = scalars "#review.del[";
  delete_close = scalars "]";
  replaced_open = scalars "#review.rep-open[]";
  replaced_close = scalars "#review.rep-close[]";
}

unfoldable pub inline_markers : RedlineStyle → MarkKind → Text × Text
inline_markers s insertion = (s.insert_open, s.insert_close)
inline_markers s deletion = (s.delete_open, s.delete_close)
inline_markers s comment = (s.replaced_open, s.replaced_close)
inline_markers s secret = (s.replaced_open, s.replaced_close)

-- The messages of `RedlineStyle::validate`.
pub data Problem : Type 0 where
  insert_not_a_block insert_open_unclean insert_close_unclean : Problem
  delete_not_a_block delete_open_unclean delete_close_unclean : Problem
  replaced_open_incomplete replaced_close_incomplete : Problem

abbrev is_safe : InlineSafety → Bool
is_safe inline_safe = true
is_safe (block_replaced r) = false

-- `if !passed { problems.push(problem) }`, before the problems that follow.
abbrev check : Bool → Problem → List Problem → List Problem
check passed problem rest = if passed then rest else problem ∷ rest

unfoldable pub validate : RedlineStyle → List Problem
validate s = check (opens_one_content_block s.insert_open s.insert_close) insert_not_a_block (
    check (non_square_delimiters_clean s.insert_open) insert_open_unclean (
      check (non_square_delimiters_clean s.insert_close) insert_close_unclean (
        check (opens_one_content_block s.delete_open s.delete_close) delete_not_a_block (
          check (non_square_delimiters_clean s.delete_open) delete_open_unclean (
            check (non_square_delimiters_clean s.delete_close) delete_close_unclean (
              check (is_safe (classify_inline_safety s.replaced_open)) replaced_open_incomplete (
                check (is_safe (classify_inline_safety s.replaced_close)) replaced_close_incomplete
                  [])))))))

-- The contract, as the emitter relies on it.
pub record IsContract (s : RedlineStyle) : Type 0 where
  pub insert_block : opens_one_content_block s.insert_open s.insert_close ≡ true
  pub insert_open_clean : non_square_delimiters_clean s.insert_open ≡ true
  pub insert_close_clean : non_square_delimiters_clean s.insert_close ≡ true
  pub delete_block : opens_one_content_block s.delete_open s.delete_close ≡ true
  pub delete_open_clean : non_square_delimiters_clean s.delete_open ≡ true
  pub delete_close_clean : non_square_delimiters_clean s.delete_close ≡ true
  pub replaced_open_safe : classify_inline_safety s.replaced_open ≡ inline_safe
  pub replaced_close_safe : classify_inline_safety s.replaced_close ≡ inline_safe

pub validate-IsContract : (s : RedlineStyle) → validate s ≡ [] → IsContract s
unfolding validate
validate-IsContract s h = ground arith

-- `wrap_change`: the text between the inline markers of the kind, behind the output so far.
unfoldable pub wrap_change : Text → Text → MarkKind → RedlineStyle → Text
unfolding inline_markers
wrap_change out text kind s =
    let markers = inline_markers s kind in out ++ (markers.0 ++ (text ++ markers.1))

-- Under a valid style a safe text stays safe inside the markers of a change.
pub inline_scan :
    (s : RedlineStyle) (kind : MarkKind) (span : Text) (a : Scan)
    → IsContract s
    → is_change kind ≡ true
    → classify_inline_safety span ≡ inline_safe
    → (b : Scan) × (scan ((inline_markers s kind).0 ++ (span ++ (inline_markers s kind).1)) a
        ≡ some b)
      × Same a b
unfolding inline_markers is_change
inline_scan s insertion span a v c safe =
    block_scan s.insert_open span s.insert_close a v.insert_block v.insert_open_clean
      v.insert_close_clean safe
inline_scan s deletion span a v c safe =
    block_scan s.delete_open span s.delete_close a v.delete_block v.delete_open_clean
      v.delete_close_clean safe
inline_scan s comment span a v c safe = absurd (ground arith)
inline_scan s secret span a v c safe = absurd (ground arith)
