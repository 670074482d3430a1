-- ===== src/Core/Deleted/Sweep.antt =====
-- The sweep over parts in order of their starts finds out whether they leave a gap.
use nisaba.Prelude.{
  ℕ, ◌≤◌, ◌<◌, ◌≡◌, refl, ◌&&◌, ltb, leb, Bool, true, false, List, [], ◌∷◌, All, All-imp, any, max,
  insert_by, sort_by, arith,
}
use nisaba.Core.Deleted.{pair_order, sweep}

abbrev pub in_part : ℕ → ℕ × ℕ → Bool
in_part p part = leb part.0 p && ltb p part.1

-- The parts are in order of their starts.
abbrev pub InOrder : List (ℕ × ℕ) → Type 0
InOrder [] = Unit
InOrder (x ∷ xs) = All (λ y. x.0 ≤ y.0) xs × InOrder xs

All-insert_by_start :
    (b : ℕ) (x : ℕ × ℕ) (xs : List (ℕ × ℕ))
    → b ≤ x.0
    → All (λ y. b ≤ y.0) xs
    → All (λ y. b ≤ y.0) (insert_by pair_order x xs)
unfolding insert_by
All-insert_by_start b x [] h k = (h, k)
All-insert_by_start b x (y ∷ ys) h k = ground (arith, All-insert_by_start b x ys h k.1)

All-start_mono :
    (b c : ℕ) (xs : List (ℕ × ℕ)) → b ≤ c → All (λ y. c ≤ y.0) xs → All (λ y. b ≤ y.0) xs
All-start_mono b c xs h = All-imp (λ y. c ≤ y.0) (λ y. b ≤ y.0) (λ y k. omega arith) xs

insert_by-InOrder :
    (x : ℕ × ℕ) (xs : List (ℕ × ℕ)) → InOrder xs → InOrder (insert_by pair_order x xs)
unfolding insert_by
insert_by-InOrder x [] h = (tt, tt)
insert_by-InOrder x (y ∷ ys) h =
    ground
      (arith, insert_by-InOrder x ys h.1, All-insert_by_start y.0 x ys, All-start_mono x.0 y.0 ys)

pub sort_by-InOrder : (xs : List (ℕ × ℕ)) → InOrder (sort_by pair_order xs)
unfolding sort_by
sort_by-InOrder [] = tt
sort_by-InOrder (x ∷ xs) = insert_by-InOrder x (sort_by pair_order xs) (sort_by-InOrder xs)

-- A sweep that succeeds leaves no position between its cursor and the end uncovered.
pub sweep_sound :
    (end c p : ℕ) (xs : List (ℕ × ℕ))
    → sweep end c xs ≡ true
    → c ≤ p
    → p < end
    → any (in_part p) xs ≡ true
unfolding sweep
sweep_sound end c p [] h k l = absurd (ground arith)
sweep_sound end c p ((s, e) ∷ xs) h k l = ground (arith, sweep_sound end (max c e) p xs)

nothing_before :
    (p b : ℕ) (xs : List (ℕ × ℕ)) → p < b → All (λ y. b ≤ y.0) xs → any (in_part p) xs ≡ false
nothing_before p b [] h k = refl
nothing_before p b (x ∷ xs) h k = ground (arith, nothing_before p b xs h k.1)

-- It succeeds when the ordered parts leave none.
pub sweep_complete :
    (end c : ℕ) (xs : List (ℕ × ℕ))
    → InOrder xs
    → c < end
    → ((p : ℕ) → c ≤ p → p < end → any (in_part p) xs ≡ true)
    → sweep end c xs ≡ true
unfolding sweep
sweep_complete end c [] o h f = absurd (ground (arith, f c (omega arith) h))
sweep_complete end c ((s, e) ∷ xs) o h f = ground (
  arith,
  f c (omega arith) h,
  λ (g : c < s). nothing_before c s xs g o.0,
  λ (g : max c e < end).
      sweep_complete end (max c e) xs o.1 g λ p a b. ground (arith, f p (omega arith) b),
)
