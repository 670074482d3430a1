-- ===== src/Core/Review/Tiers/Whole.antt =====
-- Each tier of the diff appends changes that hold both texts.
use nisaba.Prelude.{
  ℕ, ◌+◌, ◌≤◌, ◌≡◌, refl, sym, subst, ap, ◌∙◌, true, ◌==◌, List, [], ◌∷◌, ◌++◌, append-nil,
  append_assoc, Text, length, length-append, take, drop, arith,
}
use nisaba.Core.Review.Diff.{DiffOp, equal_op, delete_op, insert_op}
use nisaba.Core.Review.Diff.Runs.{Edits, done, run}
use nisaba.Core.Review.Diff.Trim.{take-append_left, drop-append_left}
use nisaba.Core.Review.Diff.Sound.{diff_seq-Edits}
use nisaba.Core.Review.Tiers.{
  SnapshotChange, deleted, inserted, equal, push_change, refine_loop, refine_chars, concat, Cursors,
  advance, old_slice, new_slice, group,
}
use nisaba.Core.Review.Tiers.Sides.{
  old_side, new_side, Extends, both_sides, Extends-trans, Extends-congruence, push_equal,
  push_deleted, push_inserted, IsDiff,
}

same_number : (x y : ℕ) → (x == y) ≡ true → x ≡ y
same_number x y h = ground arith

module _ (n : ℕ) (t x1 x2 : Text) (e : t ≡ x1 ++ x2) (l : length x1 ≡ n) where
  front : take n t ≡ x1
  front = ap (take n) e ∙ take-append_left x1 x2 n (sym l)

  back : drop n t ≡ x2
  back = ap (drop n) e ∙ drop-append_left x1 x2 n (sym l)

refine_loop-Extends :
    (ops : List DiffOp) (old new : Text) (out : List SnapshotChange)
    → Edits ops old new
    → Extends out (refine_loop ops old new out) old new
unfolding refine_loop
refine_loop-Extends [] old new out (done e f) =
    both_sides (sym (append-nil (old_side out)) ∙ ap (λ z. old_side out ++ z) (sym e))
      (sym (append-nil (new_side out)) ∙ ap (λ z. new_side out ++ z) (sym f))
refine_loop-Extends (equal_op n ∷ ops) old new out (run x1 x2 y1 y2 e f (l, s) r) =
    rw (front n old x1 x2 e l, back n old x1 x2 e l, back n new y1 y2 f (ap length (sym s) ∙ l))
      (Extends-congruence out _ (x1 ++ x2) (y1 ++ y2) old new (sym e) (sym f) (
        Extends-trans out (push_change out (equal x1)) _ x1 y1 x2 y2 (push_equal out x1 y1 s)
          (refine_loop-Extends ops x2 y2 (push_change out (equal x1)) r)))
refine_loop-Extends (delete_op n ∷ ops) old new out (run x1 x2 y1 y2 e f (l, s) r) =
    rw (front n old x1 x2 e l, back n old x1 x2 e l)
      (Extends-congruence out _ (x1 ++ x2) new old new (sym e) refl (
        Extends-trans out (push_change out (deleted x1)) _ x1 [] x2 new (push_deleted out x1) (
          refine_loop-Extends ops x2 new (push_change out (deleted x1))
            (subst (λ z. Edits ops x2 z) (ap (λ z. z ++ y2) (sym s) ∙ sym f) r))))
refine_loop-Extends (insert_op n ∷ ops) old new out (run x1 x2 y1 y2 e f (s, l) r) =
    rw (front n new y1 y2 f l, back n new y1 y2 f l)
      (Extends-congruence out _ old (y1 ++ y2) old new refl (sym f) (
        Extends-trans out (push_change out (inserted y1)) _ [] y1 old y2 (push_inserted out y1) (
          refine_loop-Extends ops old y2 (push_change out (inserted y1))
            (subst (λ z. Edits ops z y2) (ap (λ z. z ++ x2) (sym s) ∙ sym e) r))))

pub refine_chars-IsDiff : IsDiff refine_chars
unfolding refine_chars
refine_chars-IsDiff [] new out = push_inserted out new
refine_chars-IsDiff (c ∷ old) [] out = push_deleted out (c ∷ old)
refine_chars-IsDiff (c ∷ old) (d ∷ new) out =
    refine_loop-Extends _ (c ∷ old) (d ∷ new) out
      (diff_seq-Edits ◌==◌ same_number (c ∷ old) (d ∷ new))

concat-append : (ss ts : List Text) → concat (ss ++ ts) ≡ concat ss ++ concat ts
concat-append [] ts = refl
concat-append (s ∷ ss) ts =
    ap (λ z. s ++ z) (concat-append ss ts) ∙ sym (append_assoc s (concat ss) (concat ts))

-- The texts are those of the tokens.
abbrev pub Agree : Cursors → Type 0
Agree c = (c.old ≡ concat c.old_tokens) × (c.new ≡ concat c.new_tokens)

-- What a group takes of the tokens, added to the sums so far, and what it leaves.
pub record Grouped (ops : List DiffOp) (x y : List Text) (del ins : ℕ) : Type 0 where
  pub x1 : List Text
  pub x2 : List Text
  pub y1 : List Text
  pub y2 : List Text
  pub old_parts : x ≡ x1 ++ x2
  pub new_parts : y ≡ y1 ++ y2
  pub dels : del + length x1 ≡ (group ops del ins).0
  pub inss : ins + length y1 ≡ (group ops del ins).1
  pub rest : Edits (group ops del ins).2 x2 y2
  pub fewer : length (group ops del ins).2 ≤ length ops

pub group_lem :
    (ops : List DiffOp) (x y : List Text) (del ins : ℕ) → Edits ops x y → Grouped ops x y del ins
unfolding group
group_lem [] x y del ins h = record {
  x1 = [];
  x2 = x;
  y1 = [];
  y2 = y;
  old_parts = refl;
  new_parts = refl;
  dels = omega arith;
  inss = omega arith;
  rest = h;
  fewer = omega arith;
}
group_lem (equal_op n ∷ ops) x y del ins h = record {
  x1 = [];
  x2 = x;
  y1 = [];
  y2 = y;
  old_parts = refl;
  new_parts = refl;
  dels = omega arith;
  inss = omega arith;
  rest = h;
  fewer = omega arith;
}
group_lem (delete_op n ∷ ops) x y del ins (run x1 x2 y1 y2 e f (l, s) r) =
    let g = group_lem ops x2 y2 (del + n) ins r in
    record {
      x1 = x1 ++ g.x1;
      x2 = g.x2;
      y1 = g.y1;
      y2 = g.y2;
      old_parts = e ∙ ap (λ z. x1 ++ z) g.old_parts ∙ sym (append_assoc x1 g.x1 g.x2);
      new_parts = f ∙ ap (λ z. z ++ y2) s ∙ g.new_parts;
      dels = omega (arith, length-append x1 g.x1, g.dels);
      inss = g.inss;
      rest = g.rest;
      fewer = omega (arith, g.fewer);
    }
group_lem (insert_op n ∷ ops) x y del ins (run x1 x2 y1 y2 e f (s, l) r) =
    let g = group_lem ops x2 y2 del (ins + n) r in
    record {
      x1 = g.x1;
      x2 = g.x2;
      y1 = y1 ++ g.y1;
      y2 = g.y2;
      old_parts = e ∙ ap (λ z. z ++ x2) s ∙ g.old_parts;
      new_parts = f ∙ ap (λ z. y1 ++ z) g.new_parts ∙ sym (append_assoc y1 g.y1 g.y2);
      dels = g.dels;
      inss = omega (arith, length-append y1 g.y1, g.inss);
      rest = g.rest;
      fewer = omega (arith, g.fewer);
    }

-- The cursors behind the tokens `x1` and `y1`.
pub record Ahead (c : Cursors) (del ins : ℕ) (x1 x2 y1 y2 : List Text) : Type 0 where
  pub old_slice_lem : old_slice del c ≡ concat x1
  pub new_slice_lem : new_slice ins c ≡ concat y1
  pub old_whole : concat x1 ++ (advance del ins c).old ≡ c.old
  pub new_whole : concat y1 ++ (advance del ins c).new ≡ c.new
  pub old_tokens_lem : x2 ≡ (advance del ins c).old_tokens
  pub new_tokens_lem : y2 ≡ (advance del ins c).new_tokens
  pub agree : Agree (advance del ins c)

module _ (n : ℕ) (t : Text) (ts x1 x2 : List Text) (a : t ≡ concat ts) (e : ts ≡ x1 ++ x2)
    (l : length x1 ≡ n) where
  taken : take n ts ≡ x1
  taken = ap (take n) e ∙ take-append_left x1 x2 n (sym l)

  left_over : drop n ts ≡ x2
  left_over = ap (drop n) e ∙ drop-append_left x1 x2 n (sym l)

  parts : t ≡ concat x1 ++ concat x2
  parts = a ∙ ap concat e ∙ concat-append x1 x2

  slice : take (length (concat (take n ts))) t ≡ concat x1
  slice =
      ap (λ z. take (length (concat z)) t) taken
      ∙ ap (take (length (concat x1))) parts
      ∙ take-append_left (concat x1) (concat x2) (length (concat x1)) refl

  after_slice : drop (length (concat (take n ts))) t ≡ concat x2
  after_slice =
      ap (λ z. drop (length (concat z)) t) taken
      ∙ ap (drop (length (concat x1))) parts
      ∙ drop-append_left (concat x1) (concat x2) (length (concat x1)) refl

pub advance_lem :
    (c : Cursors) (del ins : ℕ) (x1 x2 y1 y2 : List Text)
    → Agree c
    → c.old_tokens ≡ x1 ++ x2
    → c.new_tokens ≡ y1 ++ y2
    → length x1 ≡ del
    → length y1 ≡ ins
    → Ahead c del ins x1 x2 y1 y2
unfolding advance
advance_lem c del ins x1 x2 y1 y2 (a, b) e f l m = record {
  old_slice_lem = slice del c.old c.old_tokens x1 x2 a e l;
  new_slice_lem = slice ins c.new c.new_tokens y1 y2 b f m;
  old_whole =
      ap (λ z. concat x1 ++ z) (after_slice del c.old c.old_tokens x1 x2 a e l)
      ∙ sym (parts del c.old c.old_tokens x1 x2 a e l);
  new_whole =
      ap (λ z. concat y1 ++ z) (after_slice ins c.new c.new_tokens y1 y2 b f m)
      ∙ sym (parts ins c.new c.new_tokens y1 y2 b f m);
  old_tokens_lem = sym (left_over del c.old c.old_tokens x1 x2 a e l);
  new_tokens_lem = sym (left_over ins c.new c.new_tokens y1 y2 b f m);
  agree = (
    after_slice del c.old c.old_tokens x1 x2 a e l
        ∙ ap concat (sym (left_over del c.old c.old_tokens x1 x2 a e l)),
    after_slice ins c.new c.new_tokens y1 y2 b f m
        ∙ ap concat (sym (left_over ins c.new c.new_tokens y1 y2 b f m)),
  );
}
