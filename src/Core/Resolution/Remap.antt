-- ===== src/Core/Resolution/Remap.antt =====
-- The remapped marks cover the surviving characters as the marks did before.
use nisaba.Prelude.{
  ℕ, ◌-◌, ◌≤◌, ◌<◌, ◌≡◌, refl, ap, ◌∙◌, Bool, true, false, not, ◌&&◌, leb, ltb, ◌==◌, if◌then◌else◌,
  List, [], ◌∷◌, map, keep, All, min, u32_max, Bool-cases, inl, inr, arith,
}
use mathlib.Core.Path.{ap₂}
use nisaba.Core.Mark.{Mark, MarkId, MarkKind}
use nisaba.Core.MarkSet
use nisaba.Core.MarkSet.{MarkSet, iter}
use nisaba.Core.MarkSet.Laws.{IsValid}
use nisaba.Core.MarkSet.Rebuild.{iter-Ascends, iter-from_iter, keep-Ascends, map-Ascends}
use nisaba.Core.Flags.Covered.{covers, covered}
use nisaba.Core.Resolution.{
  remap_position_after_deletion, remap_mark, remap_step, remap_marks, Remapping,
}

-- The positions of a `u32` range, as the type of the source says.
abbrev pub InU32 : Mark → Type 0
InU32 m = (m.range.start ≤ u32_max) × (m.range.end ≤ u32_max)

-- Where a character goes when those from `s` up to `e` are removed.
abbrev pub shift : ℕ → ℕ → ℕ → ℕ
shift s e i = if leb i s then i else if leb e i then i - (e - s) else s

pub remap-shift : (p s e : ℕ) → p ≤ u32_max → remap_position_after_deletion p s e ≡ shift s e p
unfolding remap_position_after_deletion
remap-shift p s e h = ground arith

shift_start :
    (s e n i a : ℕ)
    → s ≤ e
    → e ≤ n
    → i < n
    → (leb s i && ltb i e) ≡ false
    → leb (min (shift s e a) (n - (e - s))) (shift s e i) ≡ leb (min a n) i
shift_start s e n i a h k l out = ground arith

shift_end :
    (s e n i b : ℕ)
    → s ≤ e
    → e ≤ n
    → i < n
    → (leb s i && ltb i e) ≡ false
    → ltb (shift s e i) (min (shift s e b) (n - (e - s))) ≡ ltb i (min b n)
shift_end s e n i b h k l out = ground arith

-- A surviving character is covered by the remapped mark exactly when the mark covered it.
covers-remap :
    (s e n i : ℕ) (m : Mark)
    → s ≤ e
    → e ≤ n
    → i < n
    → (leb s i && ltb i e) ≡ false
    → InU32 m
    → covers (n - (e - s)) (shift s e i) (remap_mark s e m) ≡ covers n i m
unfolding remap_mark
covers-remap s e n i m h k l out small =
    rw (remap-shift m.range.start s e small.0, remap-shift m.range.end s e small.1)
      (ap₂ ◌&&◌ (shift_start s e n i m.range.start h k l out)
        (shift_end s e n i m.range.end h k l out))

remap_mark_id : (s e : ℕ) (m : Mark) → (remap_mark s e m).id ≡ m.id
unfolding remap_mark
remap_mark_id s e m = refl

remap_mark_kind : (s e : ℕ) (m : Mark) → (remap_mark s e m).kind ≡ m.kind
unfolding remap_mark
remap_mark_kind s e m = refl

abbrev pub others : MarkId → Mark → Bool
others id m = not (m.id == id)

remap_step_self :
    (id : MarkId) (s e : ℕ) (m : Mark) (acc : Remapping)
    → (m.id == id) ≡ true
    → remap_step id s e m acc ≡ acc
unfolding remap_step
remap_step_self id s e m acc h = rw h

-- The loop inserts the remapped marks, but for the resolved one, in their order.
pub remap_marks_lem :
    (id : MarkId) (s e : ℕ) (ms : List Mark) (acc : Remapping)
    → (remap_marks id s e ms acc).new_marks
      ≡ MarkSet.extend acc.new_marks (map (remap_mark s e) (keep (others id) ms))
unfolding remap_marks MarkSet.extend
remap_marks_lem id s e [] acc = refl
remap_marks_lem id s e (m ∷ ms) acc = elim (Bool-cases (m.id == id)) [
  | inl h ↦
      ap (λ a. (remap_marks id s e ms a).new_marks) (remap_step_self id s e m acc h)
      ∙ rw h (remap_marks_lem id s e ms acc)
  | inr h ↦ remap_marks_lem id s e ms (remap_step id s e m acc) ∙ rw h
]

pub iter-remapped :
    (id : MarkId) (s e : ℕ) (marks : MarkSet) (r : ℕ) (em : List MarkId)
    → IsValid marks
    → iter
        (remap_marks id s e
          (iter marks)
          (record { new_marks = []; remapped = r; emptied = em })).new_marks
      ≡ map (remap_mark s e) (keep (others id) (iter marks))
unfolding MarkSet.from_iter
iter-remapped id s e marks r em v =
    ap iter (remap_marks_lem id s e (iter marks) _)
    ∙ iter-from_iter _ (
        map-Ascends (remap_mark s e) (remap_mark_id s e) _
          (keep-Ascends (others id) (iter marks) (iter-Ascends marks v)))

-- A surviving character is covered by the remapped marks of a kind exactly when one of those kept
-- covered it.
pub covered-remapped :
    (k : MarkKind) (q : Mark → Bool) (s e n i : ℕ) (ms : List Mark)
    → s ≤ e
    → e ≤ n
    → i < n
    → (leb s i && ltb i e) ≡ false
    → All InU32 ms
    → covered k (n - (e - s)) (shift s e i) (map (remap_mark s e) (keep q ms))
      ≡ covered k n i (keep q ms)
covered-remapped k q s e n i [] h l lt out small = refl
covered-remapped k q s e n i (m ∷ ms) h l lt out small = ground (
  arith,
  remap_mark_kind s e m,
  covers-remap s e n i m h l lt out small.0,
  covered-remapped k q s e n i ms h l lt out small.1,
)
