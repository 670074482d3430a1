-- ===== src/Core/Resolution/Cut.antt =====
-- Removing characters, and where the others go.
use nisaba.Prelude.{
  ℕ, suc, ◌+◌, ◌-◌, ◌≤◌, ◌<◌, ◌≡◌, Bool, true, false, not, ◌&&◌, ◌||◌, leb, ltb, Bool-cases, inl,
  inr, [], ◌∷◌, min, length, Text, select, arith,
}
use native.Mathlib.Nat.{add-zero, add-suc, suc-add}
use nisaba.Core.Resolution.{remove_char_range}
use nisaba.Core.Resolution.Remap.{shift}

abbrev pub out : ℕ → ℕ → ℕ → Bool
out s e i = not (leb s i && ltb i e)

pub shift_kept : (s e i : ℕ) → s ≤ e → out s e i ≡ true → shift s e (suc i) ≡ suc (shift s e i)
shift_kept s e i h k = ground arith

pub shift_dropped : (s e i : ℕ) → s ≤ e → out s e i ≡ false → shift s e (suc i) ≡ shift s e i
shift_dropped s e i h k = ground arith

shift-length :
    (s e i : ℕ) (t : Text)
    → s ≤ e
    → shift s e i + length (select (out s e) i t) ≡ shift s e (i + length t)
unfolding select
shift-length s e i [] h = rw (add-zero, add-zero)
shift-length s e i (c ∷ cs) h =
    let ih = shift-length s e (suc i) cs h in
    elim (Bool-cases (out s e i)) [
      | inl k ↦ rw (k, select, add-suc, add-suc) (rw (shift_kept s e i h k, suc-add, suc-add) at ih)
      | inr k ↦ rw (k, select, add-suc) (rw (shift_dropped s e i h k, suc-add) at ih)
    ]

-- Removing the characters from `s` up to `e` selects the others.
pub remove-select :
    (text : Text) (s e : ℕ)
    → s < e
    → e ≤ length text
    → remove_char_range text s e ≡ select (out s e) 0 text
unfolding remove_char_range
remove-select text s e h k =
    let last : min e (length text) ≡ e = omega arith in
    let test : (leb e s || leb (length text) s) ≡ false = ground arith in rw (test, last)

pub length-remove_char_range :
    (text : Text) (s e : ℕ)
    → s < e
    → e ≤ length text
    → length (remove_char_range text s e) ≡ length text - (e - s)
length-remove_char_range text s e h k =
    rw (remove-select text s e h k) (ground (arith, shift-length s e 0 text (omega arith)))
