-- ===== src/Core/Redline.antt =====
-- crates/nisaba-core/src/redline.rs: the full text with change markers around each run of inserted
-- or deleted characters.
pub mod Cut
pub mod Safe
pub mod Runs
use nisaba.Prelude.{
  ℕ, zero, suc, ◌+◌, ◌++◌, ltb, leb, if◌then◌else◌, Bool, true, false, Option, none, some, List, [],
  ◌∷◌, Text, get_elem?, get_or, drop, u32_or_max,
}
use nisaba.Core.Position.{len_utf8}
use nisaba.Core.Range.{TextRange, new}
use nisaba.Core.Range.Slices.{str_get}
use nisaba.Core.Mark.{MarkKind, insertion, deletion}
use nisaba.Core.MarkSet.{MarkSet}
use nisaba.Core.Flags.{flag_insert, flag_delete, has_flag, char_flags, char_len}
use nisaba.Core.Delimiters.{InlineSafety, inline_safe, block_replaced, classify_inline_safety}
use nisaba.Core.RedlineStyle.{RedlineStyle, wrap_change}

pub record RedlineRunRecord : Type 0 where
  pub range : TextRange
  pub kind : MarkKind
  pub safety : InlineSafety

pub record RedlineReport : Type 0 where
  pub output : Text
  pub runs : List RedlineRunRecord

pub data RunKind : Type 0 where
  plain inserted deleted : RunKind

abbrev pub same_run : RunKind → RunKind → Bool
same_run plain plain = true
same_run inserted inserted = true
same_run deleted deleted = true
same_run _ _ = false

unfoldable pub flag_to_run_kind : ℕ → RunKind
flag_to_run_kind f =
    if has_flag f flag_delete then deleted else if has_flag f flag_insert then inserted else plain

-- The byte offset of each character, and that of the end.
unfoldable pub offsets_from : ℕ → Text → List ℕ
offsets_from byte [] = byte ∷ []
offsets_from byte (c ∷ cs) = byte ∷ offsets_from (byte + len_utf8 c) cs

-- `&text[a..b]` where `str_get` gives nothing would be a panic; `char_slice_lem` excludes it.
unfoldable pub char_slice : Text → ℕ → ℕ → List ℕ → Text
unfolding str_get
char_slice text start end offsets =
    let from = get_or offsets start 0 in
    if leb end start then [] else elim (get_elem? offsets end) [
      | none ↦ []
      | some to ↦
          if leb from to then elim (str_get text from to) [ none ↦ [] | some span ↦ span ] else []
    ]

-- The inner loop: the end of the run of this kind, where the head of the list has index `end`.
unfoldable pub run_end : RunKind → ℕ → List ℕ → ℕ
run_end kind end [] = end
run_end kind end (f ∷ fs) =
    let further = run_end kind (suc end) fs in
    if same_run (flag_to_run_kind f) kind then further else end

abbrev pub marked : InlineSafety → Text → Text → MarkKind → RedlineStyle → Text
marked inline_safe out span kind style = wrap_change out span kind style
marked (block_replaced r) out span kind style =
    out ++ (style.replaced_open ++ (span ++ style.replaced_close))

unfoldable pub emit_change : RedlineReport → Text → ℕ → ℕ → MarkKind → RedlineStyle → RedlineReport
unfolding new
emit_change report span start end kind style =
    let safety = classify_inline_safety span in
    record {
      output = marked safety report.output span kind style;
      runs =
          report.runs
          ++ record {
            range = new (u32_or_max start) (u32_or_max end);
            kind = kind;
            safety = safety;
          }
            ∷ [];
    }

unfoldable pub emit_run : RunKind → RedlineReport → Text → ℕ → ℕ → RedlineStyle → RedlineReport
unfolding emit_change
emit_run plain report span start end style = record report { output = report.output ++ span }
emit_run inserted report span start end style = emit_change report span start end insertion style
emit_run deleted report span start end style = emit_change report span start end deletion style

-- The outer loop, with fuel: each round ends beyond the character where it started.
unfoldable pub redline_loop :
    ℕ → ℕ → Text → List ℕ → List ℕ → RedlineStyle → RedlineReport → RedlineReport
unfolding emit_run run_end char_slice
redline_loop zero idx text flags offsets style report = report
redline_loop (suc fuel) idx text flags offsets style report =
    let kind = flag_to_run_kind (get_or flags idx 0) in
    let end = run_end kind idx (drop idx flags) in
    let span = char_slice text idx end offsets in
    let next =
      redline_loop fuel end text flags offsets style (emit_run kind report span idx end style) in
    if ltb idx (char_len text) then next else report

unfoldable pub redline_with_report : Text → MarkSet → RedlineStyle → RedlineReport
unfolding redline_loop offsets_from
redline_with_report text marks style =
    redline_loop (char_len text) 0 text (char_flags text marks) (offsets_from 0 text) style
      (record { output = []; runs = [] })

unfoldable pub redline : Text → MarkSet → RedlineStyle → Text
unfolding redline_with_report
redline text marks style = (redline_with_report text marks style).output
