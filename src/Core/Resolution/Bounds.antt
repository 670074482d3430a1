-- ===== src/Core/Resolution/Bounds.antt =====
-- A resolution keeps the marks well formed: stored under their ids, ordered, and within the text.
use nisaba.Prelude.{
  ℕ, ◌-◌, ◌≤◌, ◌<◌, ◌≡◌, sym, subst, some, List, [], ◌∷◌, All, All-imp, All-keep, All-map, u32_max,
  u32_or_max-eq, Text, arith,
}
use nisaba.OrdMap.Order.{nat_ord}
use nisaba.Core.Mark.{Mark, MarkId}
use nisaba.Core.MarkSet
use nisaba.Core.MarkSet.{MarkSet, iter}
use nisaba.Core.MarkSet.Laws.{IsValid, remove-IsValid, extend-IsValid}
use nisaba.Core.MarkSet.Rebuild.{iter-remove}
use nisaba.Core.Flags.{char_len}
use nisaba.Core.Resolution.{
  Resolution, ResolutionOutcome, ok, dropped, removed, resolve, remap_mark,
  remap_position_after_deletion,
}
use nisaba.Core.Resolution.Remap.{InU32, remap-shift, others, iter-remapped, remap_marks_lem}
use nisaba.Core.Resolution.Cut.{length-remove_char_range}
use nisaba.Core.Resolution.Cases.{Done, kept, nothing, cut, resolve-Done}
use nisaba.Core.Resolution.Outcome.{found_All}

-- The mark lies in order within a text of `n` characters.
abbrev pub Fits : ℕ → Mark → Type 0
Fits n m = (m.range.start ≤ m.range.end) × (m.range.end ≤ n)

-- What the model's readers rely on.
pub record IsSound (text : Text) (marks : MarkSet) : Type 0 where
  pub valid : IsValid marks
  pub small : All InU32 (iter marks)
  pub fits : All (Fits (char_len text)) (iter marks)

remap-InU32 : (s e : ℕ) (m : Mark) → InU32 m → InU32 (remap_mark s e m)
unfolding remap_mark remap_position_after_deletion
remap-InU32 s e m h = (ground arith, ground arith)

remap-Fits :
    (n s e : ℕ) (m : Mark)
    → s ≤ e
    → e ≤ n
    → InU32 m
    → Fits n m
    → Fits (n - (e - s)) (remap_mark s e m)
unfolding remap_mark
remap-Fits n s e m h k small f =
    rw (remap-shift m.range.start s e small.0, remap-shift m.range.end s e small.1)
      (ground arith, ground arith)

dropped-IsSound :
    (text : Text) (marks : MarkSet) (id : MarkId)
    → IsSound text marks
    → IsSound (dropped text marks id).text (dropped text marks id).marks
unfolding dropped
dropped-IsSound text marks id w = record {
  valid = remove-IsValid id marks w.valid;
  small = rw (iter-remove id marks w.valid) (All-keep InU32 _ (iter marks) w.small);
  fits = rw (iter-remove id marks w.valid) (All-keep (Fits (char_len text)) _ (iter marks) w.fits);
}

remap-All-Fits :
    (n s e : ℕ) (ms : List Mark)
    → s ≤ e
    → e ≤ n
    → All InU32 ms
    → All (Fits n) ms
    → All (λ m. Fits (n - (e - s)) (remap_mark s e m)) ms
remap-All-Fits n s e [] h k u f = tt
remap-All-Fits n s e (m ∷ ms) h k u f =
    (remap-Fits n s e m h k u.0 f.0, remap-All-Fits n s e ms h k u.1 f.1)

removed-IsSound :
    (text : Text) (marks : MarkSet) (id : MarkId) (s e : ℕ)
    → s < e
    → e ≤ char_len text
    → s ≤ u32_max
    → e ≤ u32_max
    → IsSound text marks
    → IsSound (removed text marks id s e).text (removed text marks id s e).marks
unfolding removed
removed-IsSound text marks id s e lt le hs he w =
    rw (u32_or_max-eq s hs, u32_or_max-eq e he)
      record {
        valid =
            subst IsValid (sym (remap_marks_lem id s e (iter marks) _))
              (extend-IsValid _ [] (record { sorted = tt; keyed = tt }));
        small = rw (iter-remapped id s e marks 0 [] w.valid) (
            All-map InU32 (remap_mark s e) _ (
              All-keep (λ m. InU32 (remap_mark s e m)) (others id) (iter marks)
                (All-imp InU32 _ (remap-InU32 s e) (iter marks) w.small)));
        fits =
            rw (length-remove_char_range text s e lt le, iter-remapped id s e marks 0 [] w.valid)
              (All-map (Fits (char_len text - (e - s))) (remap_mark s e) _ (
                All-keep _ (others id) (iter marks) (
                  remap-All-Fits (char_len text) s e (iter marks) (omega arith) le w.small
                    w.fits)));
      }

-- Resolving a change in a text whose marks are stored under their ids, have `u32` ranges and lie in
-- order within the text gives a text and marks of which the same holds.
pub resolve-IsSound :
    (text : Text) (marks : MarkSet) (id : MarkId) (r : Resolution) (o : ResolutionOutcome)
    → IsSound text marks
    → resolve text marks id r ≡ ok o
    → IsSound o.text o.marks
unfolding MarkSet.get
resolve-IsSound text marks id r o w h =
    let (mk, found, change, d) = resolve-Done text marks id r o h in by_case mk found d
  where
    by_case :
        (mk : Mark)
        → MarkSet.get id marks ≡ some mk
        → Done text marks id mk r o
        → IsSound o.text o.marks
    by_case mk found (kept e n) =
        subst (λ x. IsSound x.text x.marks) (sym e) (dropped-IsSound text marks id w)
    by_case mk found (nothing e l) =
        subst (λ x. IsSound x.text x.marks) (sym e) (dropped-IsSound text marks id w)
    by_case mk found (cut s t hs ht lt y e) =
        subst (λ x. IsSound x.text x.marks) (sym e)
          (removed-IsSound text marks id s t lt (omega arith) (omega (arith, small))
            (omega (arith, small)) w)
      where
        small : InU32 mk
        small = found_All InU32 id mk marks found w.small
