-- ===== src/Core/Delimiters.antt =====
-- crates/nisaba-core/src/redline.rs: the scan of a span for unbalanced Typst delimiters. The
-- depths are `i64` in the source and never negative past a test, so they are numbers here.
pub mod Balance
pub mod Block
use nisaba.Prelude.{
  ℕ, suc, ◌+◌, ◌-◌, ◌%◌, ◌&&◌, ◌||◌, not, ◌==◌, if◌then◌else◌, Bool, true, false, Option, none,
  some, [], ◌∷◌, Text,
}

pub data ReplacedReason : Type 0 where
  unbalanced_brackets unbalanced_math unbalanced_raw : ReplacedReason

pub data InlineSafety : Type 0 where
  inline_safe : InlineSafety
  block_replaced : ReplacedReason → InlineSafety

-- The variables of the loop.
pub record Scan : Type 0 where
  pub sq : ℕ
  pub cu : ℕ
  pub pa : ℕ
  pub dollars : ℕ
  pub backticks : ℕ

abbrev pub start : Scan
start = record { sq = 0; cu = 0; pa = 0; dollars = 0; backticks = 0 }

-- One character; `none` is the early return on a negative depth.
unfoldable pub scan_char : ℕ → Scan → Option Scan
scan_char c s =
    if c == b'['
    then some (record s { sq = s.sq + 1 })
    else if c == b']'
    then (if s.sq == 0 then none else some (record s { sq = s.sq - 1 }))
    else if c == b'{'
    then some (record s { cu = s.cu + 1 })
    else if c == b'}'
    then (if s.cu == 0 then none else some (record s { cu = s.cu - 1 }))
    else if c == b'('
    then some (record s { pa = s.pa + 1 })
    else if c == b')'
    then (if s.pa == 0 then none else some (record s { pa = s.pa - 1 }))
    else if c == b'$'
    then some (record s { dollars = s.dollars + 1 })
    else if c == 0x60
    then some (record s { backticks = s.backticks + 1 })
    else some s

unfoldable pub scan : Text → Scan → Option Scan
unfolding scan_char
scan [] s = some s
scan (c ∷ cs) s = elim (scan_char c s) [ none ↦ none | some s' ↦ scan cs s' ]

-- The tests behind the loop.
unfoldable pub finish : Scan → InlineSafety
finish s =
    if not (s.sq == 0) || (not (s.cu == 0) || not (s.pa == 0))
    then block_replaced unbalanced_brackets
    else if not (s.dollars % 2 == 0)
    then block_replaced unbalanced_math
    else if not (s.backticks % 2 == 0)
    then block_replaced unbalanced_raw
    else inline_safe

abbrev pub conclude : Option Scan → InlineSafety
conclude none = block_replaced unbalanced_brackets
conclude (some s) = finish s

unfoldable pub classify_inline_safety : Text → InlineSafety
unfolding scan finish
classify_inline_safety span = conclude (scan span start)

-- The square depth alone, as both loops of `opens_one_content_block` count it.
unfoldable pub square_depth : Text → ℕ → Option ℕ
square_depth [] d = some d
square_depth (c ∷ cs) d =
    let deeper = square_depth cs (d + 1) in
    let shallower = square_depth cs (d - 1) in
    let same = square_depth cs d in
    if c == b'[' then deeper else if c == b']' then (if d == 0 then none else shallower) else same

unfoldable pub opens_one_content_block : Text → Text → Bool
unfolding square_depth
opens_one_content_block opening closing = elim (square_depth opening 0) [
  | none ↦ false
  | some d ↦
      if not (d == 1)
      then false
      else elim (square_depth closing d) [ none ↦ false | some e ↦ e == 0 ]
]

-- One character of `non_square_delimiters_clean`, which leaves `sq` alone.
unfoldable pub clean_char : ℕ → Scan → Option Scan
clean_char c s =
    if c == b'{'
    then some (record s { cu = s.cu + 1 })
    else if c == b'}'
    then (if s.cu == 0 then none else some (record s { cu = s.cu - 1 }))
    else if c == b'('
    then some (record s { pa = s.pa + 1 })
    else if c == b')'
    then (if s.pa == 0 then none else some (record s { pa = s.pa - 1 }))
    else if c == b'$'
    then some (record s { dollars = s.dollars + 1 })
    else if c == 0x60
    then some (record s { backticks = s.backticks + 1 })
    else some s

unfoldable pub clean_scan : Text → Scan → Option Scan
unfolding clean_char
clean_scan [] s = some s
clean_scan (c ∷ cs) s = elim (clean_char c s) [ none ↦ none | some s' ↦ clean_scan cs s' ]

abbrev pub is_clean : Option Scan → Bool
is_clean none = false
is_clean (some s) = s.cu == 0 && (s.pa == 0 && (s.dollars % 2 == 0 && s.backticks % 2 == 0))

unfoldable pub non_square_delimiters_clean : Text → Bool
unfolding clean_scan
non_square_delimiters_clean s = is_clean (clean_scan s start)
