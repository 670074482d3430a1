-- ===== src/Core/Redline/Safe.antt =====
-- The markers of a valid style neither balance nor unbalance anything.
use nisaba.Prelude.{
  ℕ, ◌-◌, ◌≡◌, refl, ◌⊎◌, inl, inr, true, ◌++◌, [], Text, take, drop, get_or, subst, arith,
}
use nisaba.Core.Mark.{MarkKind, insertion, deletion, is_change}
use nisaba.Core.MarkSet.{MarkSet}
use nisaba.Core.Flags.{char_flags, char_len}
use nisaba.Core.Flags.Covered.{length-char_flags}
use nisaba.Core.Delimiters.{
  InlineSafety, ReplacedReason, inline_safe, block_replaced, classify_inline_safety,
}
use nisaba.Core.Delimiters.Balance.{
  Equi, Equi-refl, Equi-trans, Equi-append, Equi-sym, Equi-of_scan, Equi-of_safe, Equi-append_safe,
  classify-Equi,
}
use nisaba.Core.RedlineStyle.{
  RedlineStyle, IsContract, validate, validate-IsContract, inline_markers, wrap_change, inline_scan,
}
use nisaba.Core.Redline.{
  RunKind, plain, inserted, deleted, marked, emit_run, redline, RedlineReport, flag_to_run_kind,
}
use nisaba.Core.Redline.Cut.{loop_rule, end_of, end_of_bounds, take-append-take, take-length}

InlineSafety-cases :
    (s : InlineSafety) → (s ≡ inline_safe) ⊎ ((r : ReplacedReason) × (s ≡ block_replaced r))
InlineSafety-cases inline_safe = inl refl
InlineSafety-cases (block_replaced r) = inr (r, refl)

Equi-marked :
    (style : RedlineStyle) (out span : Text) (kind : MarkKind)
    → IsContract style
    → is_change kind ≡ true
    → Equi (marked (classify_inline_safety span) out span kind style) (out ++ span)
unfolding wrap_change
Equi-marked style out span kind v c = elim (InlineSafety-cases (classify_inline_safety span)) [
  | inl e ↦
      let m = inline_markers style kind in
      let inner = m.0 ++ (span ++ m.1) in
      let wrapped = Equi-of_scan inner (λ s. inline_scan style kind span s v c e) in
      rw e (
        Equi-append out out inner span (Equi-refl out)
          (Equi-trans inner [] span wrapped (Equi-sym span [] (Equi-of_safe span e))))
  | inr (r, e) ↦
      let opening = style.replaced_open in
      let rest = span ++ style.replaced_close in
      rw e (
        Equi-append out out (opening ++ rest) span (Equi-refl out) (
          Equi-append opening [] rest span (Equi-of_safe opening v.replaced_open_safe)
            (Equi-append_safe span style.replaced_close v.replaced_close_safe)))
]

Equi-emit_run :
    (style : RedlineStyle) (kind : RunKind) (r : RedlineReport) (span : Text) (s e : ℕ)
    → IsContract style
    → Equi (emit_run kind r span s e style).output (r.output ++ span)
unfolding emit_run is_change
Equi-emit_run style plain r span s e v = Equi-refl (r.output ++ span)
Equi-emit_run style inserted r span s e v = Equi-marked style r.output span insertion v refl
Equi-emit_run style deleted r span s e v = Equi-marked style r.output span deletion v refl

Equi-redline :
    (text : Text) (marks : MarkSet) (style : RedlineStyle)
    → IsContract style
    → Equi (redline text marks style) text
unfolding redline
Equi-redline text marks style v =
    let flags = char_flags text marks in
    let all =
      loop_rule (λ i r. Equi r.output (take i text)) text flags style (length-char_flags text marks)
        (λ i r h k.
          let kind = flag_to_run_kind (get_or flags i 0) in
          let e = end_of i flags in
          let span = take (e - i) (drop i text) in
          let b = end_of_bounds i flags (rw (length-char_flags text marks) h) in
          subst (λ t. Equi (emit_run kind r span i e style).output t)
            (take-append-take i e text (omega arith))
            (Equi-trans _ (r.output ++ span) (take i text ++ span)
              (Equi-emit_run style kind r span i e v)
              (Equi-append r.output (take i text) span span k (Equi-refl span))))
        (char_len text) 0 (record { output = []; runs = [] }) (omega arith) (omega arith)
        (Equi-refl []) in
    subst (λ t. Equi (redline text marks style) t) (take-length text) all

-- Under a style that `RedlineStyle::validate` accepts, the markers change nothing in how the
-- delimiters of the text balance: the redline is classified as the text itself is.
pub classify-redline :
    (text : Text) (marks : MarkSet) (style : RedlineStyle)
    → validate style ≡ []
    → classify_inline_safety (redline text marks style) ≡ classify_inline_safety text
classify-redline text marks style h =
    classify-Equi (redline text marks style) text
      (Equi-redline text marks style (validate-IsContract style h))
