-- ===== src/Core/Redline/Cut.antt =====
-- The loop cuts the text into consecutive runs, and emits each character once and in order.
use nisaba.Prelude.{
  ℕ, zero, suc, ◌+◌, ◌-◌, ◌≤◌, ◌<◌, ◌≡◌, refl, ap, ◌++◌, true, some, List, [], ◌∷◌, Text, length,
  get_elem?, get_or, take, drop, length-drop, arith, ltb, ltb→lt, Bool-cases, inl, inr,
}
use nisaba.Core.Position.{len_utf8, byte_len}
use nisaba.Core.Range.Slices.{str_get_lem}
use nisaba.Core.RedlineStyle.{RedlineStyle}
use nisaba.Core.Redline.{
  RunKind, same_run, flag_to_run_kind, offsets_from, char_slice, run_end, emit_run, redline_loop,
  RedlineReport,
}

offsets_lem :
    (b k : ℕ) (t : Text)
    → k ≤ length t
    → get_elem? (offsets_from b t) k ≡ some (b + byte_len (take k t))
unfolding offsets_from byte_len
offsets_lem b zero [] h = ground arith
offsets_lem b (suc k) [] h = absurd (omega arith)
offsets_lem b zero (c ∷ cs) h = ground arith
offsets_lem b (suc k) (c ∷ cs) h = ground (arith, offsets_lem (b + len_utf8 c) k cs)

get_or_of_elem : (i d v : ℕ) (xs : List ℕ) → get_elem? xs i ≡ some v → get_or xs i d ≡ v
get_or_of_elem i d v [] h = absurd (ground arith)
get_or_of_elem zero d v (x ∷ xs) h = ground arith
get_or_of_elem (suc i) d v (x ∷ xs) h = get_or_of_elem i d v xs h

byte_len-take_mono : (s e : ℕ) (t : Text) → s ≤ e → byte_len (take s t) ≤ byte_len (take e t)
unfolding byte_len
byte_len-take_mono zero e t h = omega arith
byte_len-take_mono (suc s) zero t h = absurd (omega arith)
byte_len-take_mono (suc s) (suc e) [] h = omega arith
byte_len-take_mono (suc s) (suc e) (c ∷ cs) h =
    omega (arith, byte_len-take_mono s e cs (omega arith))

-- The byte slice is the slice of characters.
pub char_slice_lem :
    (text : Text) (s e : ℕ)
    → s < e
    → e ≤ length text
    → char_slice text s e (offsets_from 0 text) ≡ take (e - s) (drop s text)
unfolding char_slice
char_slice_lem text s e h k =
    let es = offsets_lem 0 s text (omega arith) in
    ground (
      arith,
      offsets_lem 0 e text k,
      get_or_of_elem s 0 (0 + byte_len (take s text)) (offsets_from 0 text) es,
      byte_len-take_mono s e text (omega arith),
      str_get_lem text s e (omega arith) k,
    )

take-nil : (n : ℕ) → take {A = ℕ} n [] ≡ []
take-nil zero = refl
take-nil (suc n) = refl

-- A slice continues the characters before it.
pub take-append-take :
    (s e : ℕ) (text : Text) → s ≤ e → take s text ++ take (e - s) (drop s text) ≡ take e text
take-append-take zero e text h = ground arith
take-append-take (suc s) zero text h = absurd (omega arith)
take-append-take (suc s) (suc e) [] h = take-nil (suc e - suc s)
take-append-take (suc s) (suc e) (c ∷ cs) h = ground (arith, take-append-take s e cs (omega arith))

pub take-length : (text : Text) → take (length text) text ≡ text
take-length [] = refl
take-length (c ∷ cs) = ap (◌∷◌ c) (take-length cs)

-- The end of a run lies beyond its start and within the flags.
run_end_bounds :
    (kind : RunKind) (i : ℕ) (fs : List ℕ)
    → (i ≤ run_end kind i fs) × (run_end kind i fs ≤ i + length fs)
unfolding run_end
run_end_bounds kind i [] = (omega arith, omega arith)
run_end_bounds kind i (f ∷ fs) = ground (arith, run_end_bounds kind (suc i) fs)

same_run_refl : (k : RunKind) → same_run k k ≡ true
same_run_refl k = ground arith

-- The run that starts with a character of its kind has at least that character.
run_end_grows : (i : ℕ) (f : ℕ) (fs : List ℕ) → i < run_end (flag_to_run_kind f) i (f ∷ fs)
unfolding run_end
run_end_grows i f fs =
    ground
      (arith, same_run_refl (flag_to_run_kind f), run_end_bounds (flag_to_run_kind f) (suc i) fs)

drop-head : (i : ℕ) (fs : List ℕ) → i < length fs → drop i fs ≡ get_or fs i 0 ∷ drop (suc i) fs
drop-head i [] h = absurd (omega arith)
drop-head zero (f ∷ fs) h = refl
drop-head (suc i) (f ∷ fs) h = drop-head i fs (omega arith)

abbrev pub end_of : ℕ → List ℕ → ℕ
end_of i flags = run_end (flag_to_run_kind (get_or flags i 0)) i (drop i flags)

pub end_of_bounds :
    (i : ℕ) (flags : List ℕ)
    → i < length flags
    → (i < end_of i flags) × (end_of i flags ≤ length flags)
end_of_bounds i flags h =
    let kind = flag_to_run_kind (get_or flags i 0) in
    (
      rw (drop-head i flags h) (run_end_grows i (get_or flags i 0) (drop (suc i) flags)),
      omega (arith, run_end_bounds kind i (drop i flags), length-drop i flags),
    )

-- A property of the report holds of the loop's result when it holds at the start and each run that
-- starts where the last one ended keeps it. The fuel is at least the number of characters left.
pub loop_rule {ℓ} :
    (P : ℕ → RedlineReport → Type ℓ) (text : Text) (flags : List ℕ) (style : RedlineStyle)
    → length flags ≡ length text
    → ((i : ℕ) (r : RedlineReport)
        → i < length text
        → P i r
        → P (end_of i flags) (
            emit_run
              (flag_to_run_kind (get_or flags i 0))
              r
              (take (end_of i flags - i) (drop i text))
              i
              (end_of i flags)
              style))
    → (fuel i : ℕ) (r : RedlineReport) → i ≤ length text
    → length text - i ≤ fuel
    → P i r
    → P (length text) (redline_loop fuel i text flags (offsets_from 0 text) style r)
unfolding redline_loop
loop_rule P text flags style same step zero i r h k p =
    let e : i ≡ length text = omega arith in rw (← e) p
loop_rule P text flags style same step (suc fuel) i r h k p =
    elim (Bool-cases (ltb i (length text))) [
      | inl l ↦
          let less = ltb→lt i (length text) l in
          let e = end_of i flags in
          let b = end_of_bounds i flags (omega arith) in
          rw l (
            loop_rule P text flags style same step fuel e _ (omega arith) (omega arith)
              (rw (char_slice_lem text i e b.0 (omega arith)) (step i r less p)))
      | inr l ↦ let e : i ≡ length text = ground arith in rw l (rw (← e) p)
    ]
