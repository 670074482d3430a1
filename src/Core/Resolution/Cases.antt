-- ===== src/Core/Resolution/Cases.antt =====
-- The ways in which a resolution succeeds.
use nisaba.Prelude.{
  ℕ, ◌≤◌, ◌<◌, ◌≡◌, refl, sym, true, false, leb, leb→le, Bool-cases, Option-cases, inl, inr, some,
  min, Text, arith,
}
use nisaba.Core.Mark.{Mark, MarkId, is_change}
use nisaba.Core.MarkSet
use nisaba.Core.MarkSet.{MarkSet}
use nisaba.Core.Flags.{char_len}
use nisaba.Core.Resolution.{
  Resolution, ResolutionOutcome, ok, removes_text, dropped, removed, resolve_mark, resolve,
}

-- What a resolution that succeeds has done, by the range clamped to the text.
pub data Done (text : Text) (marks : MarkSet) (id : MarkId) (mk : Mark) (r : Resolution)
    : ResolutionOutcome → Type 0 where
  kept :
      {o : ResolutionOutcome}
      → o ≡ dropped text marks id
      → removes_text mk.kind r ≡ false
      → Done text marks id mk r o
  nothing :
      {o : ResolutionOutcome}
      → o ≡ dropped text marks id
      → min mk.range.end (char_len text) ≤ min mk.range.start (char_len text)
      → Done text marks id mk r o
  cut :
      {o : ResolutionOutcome} (s e : ℕ)
      → s ≡ min mk.range.start (char_len text)
      → e ≡ min mk.range.end (char_len text)
      → s < e
      → removes_text mk.kind r ≡ true
      → o ≡ removed text marks id s e
      → Done text marks id mk r o

ok-injective : (o o' : ResolutionOutcome) → ok o ≡ ok o' → o ≡ o'
ok-injective o o' h = cc

resolve_mark-Done :
    (text : Text) (marks : MarkSet) (id : MarkId) (mk : Mark) (r : Resolution)
    (o : ResolutionOutcome)
    → resolve_mark text marks id mk r ≡ ok o
    → (is_change mk.kind ≡ true) × Done text marks id mk r o
unfolding resolve_mark
resolve_mark-Done text marks id mk r o h =
    let s = min mk.range.start (char_len text) in
    let e = min mk.range.end (char_len text) in
    elim (Bool-cases (is_change mk.kind)) [
      | inr c ↦ absurd (ground arith)
      | inl c ↦ elim (Bool-cases (removes_text mk.kind r)) [
        | inr n ↦ (c, kept (sym (ok-injective _ _ (rw (c, n) at h))) n)
        | inl y ↦ elim (Bool-cases (leb e s)) [
          | inl l ↦ (c, nothing (sym (ok-injective _ _ (rw (c, y, l) at h))) (leb→le _ _ l))
          | inr l ↦
              (c, cut s e refl refl (ground arith) y (sym (ok-injective _ _ (rw (c, y, l) at h))))
        ]
      ]
    ]

pub resolve-Done :
    (text : Text) (marks : MarkSet) (id : MarkId) (r : Resolution) (o : ResolutionOutcome)
    → resolve text marks id r ≡ ok o
    → (mk : Mark) × (MarkSet.get id marks ≡ some mk)
      × (is_change mk.kind ≡ true)
      × Done text marks id mk r o
unfolding resolve
resolve-Done text marks id r o h = elim (Option-cases (MarkSet.get id marks)) [
  | inl e ↦ absurd (ground arith)
  | inr (mk, e) ↦
      let d = resolve_mark-Done text marks id mk r o (rw (e, resolve) at h) in (mk, e, d.0, d.1)
]
