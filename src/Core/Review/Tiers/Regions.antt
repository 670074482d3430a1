-- ===== src/Core/Review/Tiers/Regions.antt =====
-- The loop over the runs of a region, and the diff as a whole.
use nisaba.Prelude.{
  ℕ, zero, suc, ◌+◌, ◌≤◌, ◌≡◌, refl, sym, ap, ◌∙◌, ltb, Bool-cases, inl, inr, List, [], ◌∷◌, ◌++◌,
  append-nil, Text, length, arith,
}
use nisaba.Core.Review.Diff.{DiffOp, equal_op, delete_op, insert_op, diff_seq}
use nisaba.Core.Review.Diff.Runs.{Edits, Edits-congruence, done, run}
use nisaba.Core.Review.Diff.Sound.{diff_seq-Edits}
use nisaba.Core.Review.Tiers.{
  SnapshotChange, deleted, equal, push_change, refine_chars, refine_limit_chars, concat, Cursors,
  advance, old_slice, new_slice, group, replace_group, region_loop, diff_tokens, diff_region, Tier,
  line_tier, word_tier, char_tier, same_text, whole_text, diff_chars, split_lines, split_words,
}
use nisaba.Core.Review.Tiers.Tokens.{same_text-eq, concat-split_lines, concat-split_words}
use nisaba.Core.Review.Tiers.Sides.{
  old_side, new_side, Extends, both_sides, Extends-trans, Extends-congruence, push_equal,
  push_deleted, push_inserted, IsDiff,
}
use nisaba.Core.Review.Tiers.Whole.{refine_chars-IsDiff, Agree, group_lem, advance_lem}

group_fewer : (ops : List DiffOp) (del ins : ℕ) → length (group ops del ins).2 ≤ length ops
unfolding group
group_fewer [] del ins = omega arith
group_fewer (equal_op n ∷ ops) del ins = omega arith
group_fewer (delete_op n ∷ ops) del ins = omega (arith, group_fewer ops (del + n) ins)
group_fewer (insert_op n ∷ ops) del ins = omega (arith, group_fewer ops del (ins + n))

module _ (finer : Text → Text → List SnapshotChange → List SnapshotChange)
    (sound : IsDiff finer) where
  replace_group-IsDiff : IsDiff (replace_group finer)
  unfolding replace_group
  replace_group-IsDiff old new out =
      elim (Bool-cases (ltb refine_limit_chars (length old + length new))) [
        | inr e ↦ rw e (sound old new out)
        | inl e ↦ rw e (
            Extends-congruence out _ (old ++ []) new old new (append-nil old) refl (
              Extends-trans out (push_change out (deleted old)) _ old [] [] new
                (push_deleted out old) (push_inserted (push_change out (deleted old)) new)))
      ]

  -- What the loop does from the cursors on.
  abbrev Finishes : ℕ → List DiffOp → Type 0
  Finishes fuel ops =
      (c : Cursors) (out : List SnapshotChange)
      → Edits ops c.old_tokens c.new_tokens
      → Agree c
      → Extends out (region_loop finer fuel ops c out) c.old c.new

  after_group :
      (fuel : ℕ) (ops : List DiffOp) (c : Cursors) (out : List SnapshotChange)
      → Finishes fuel (group ops 0 0).2
      → Edits ops c.old_tokens c.new_tokens
      → Agree c
      → Extends out
          (region_loop finer fuel
            (group ops 0 0).2
            (advance (group ops 0 0).0 (group ops 0 0).1 c)
            (replace_group finer
              (old_slice (group ops 0 0).0 c)
              (new_slice (group ops 0 0).1 c)
              out))
          c.old
          c.new
  after_group fuel ops c out f h a =
      let g = group_lem ops c.old_tokens c.new_tokens 0 0 h in
      let del = (group ops 0 0).0 in
      let ins = (group ops 0 0).1 in
      let w =
        advance_lem c del ins g.x1 g.x2 g.y1 g.y2 a g.old_parts g.new_parts (omega (arith, g.dels))
          (omega (arith, g.inss)) in
      let mid = replace_group finer (old_slice del c) (new_slice ins c) out in
      let first =
        Extends-congruence out mid _ _ (concat g.x1) (concat g.y1) w.old_slice_lem w.new_slice_lem
          (replace_group-IsDiff (old_slice del c) (new_slice ins c) out) in
      let second =
        f (advance del ins c) mid
          (Edits-congruence _ g.x2 g.y2 _ _ w.old_tokens_lem w.new_tokens_lem g.rest) w.agree in
      Extends-congruence out _ _ _ c.old c.new w.old_whole w.new_whole
        (Extends-trans out mid _ (concat g.x1) (concat g.y1) _ _ first second)

  region_loop-Extends : (fuel : ℕ) (ops : List DiffOp) → length ops ≤ fuel → Finishes fuel ops
  unfolding region_loop
  region_loop-Extends zero [] lt c out (done e f) (a, b) =
      Extends-congruence out out [] [] c.old c.new (sym (a ∙ ap concat e)) (sym (b ∙ ap concat f))
        (both_sides (sym (append-nil (old_side out))) (sym (append-nil (new_side out))))
  region_loop-Extends zero (op ∷ ops) lt c out h a = absurd (omega arith)
  region_loop-Extends (suc fuel) [] lt c out (done e f) (a, b) =
      Extends-congruence out out [] [] c.old c.new (sym (a ∙ ap concat e)) (sym (b ∙ ap concat f))
        (both_sides (sym (append-nil (old_side out))) (sym (append-nil (new_side out))))
  region_loop-Extends (suc fuel) (equal_op n ∷ ops) lt c out (run x1 x2 y1 y2 e f (l, s) r) a =
      let w = advance_lem c n n x1 x2 y1 y2 a e f l (ap length (sym s) ∙ l) in
      let mid = push_change out (equal (old_slice n c)) in
      let first =
        Extends-congruence out mid _ _ (concat x1) (concat y1) w.old_slice_lem refl
          (push_equal out (old_slice n c) (concat y1) (w.old_slice_lem ∙ ap concat s)) in
      let second =
        region_loop-Extends fuel ops (omega arith) (advance n n c) mid
          (Edits-congruence ops x2 y2 _ _ w.old_tokens_lem w.new_tokens_lem r) w.agree in
      Extends-congruence out _ _ _ c.old c.new w.old_whole w.new_whole
        (Extends-trans out mid _ (concat x1) (concat y1) _ _ first second)
  region_loop-Extends (suc fuel) (delete_op n ∷ ops) lt c out h a =
      after_group fuel (delete_op n ∷ ops) c out
        (region_loop-Extends fuel (group (delete_op n ∷ ops) 0 0).2
          (omega (arith, group_fewer ops (0 + n) 0)))
        h a
  region_loop-Extends (suc fuel) (insert_op n ∷ ops) lt c out h a =
      after_group fuel (insert_op n ∷ ops) c out
        (region_loop-Extends fuel (group (insert_op n ∷ ops) 0 0).2
          (omega (arith, group_fewer ops 0 (0 + n))))
        h a

  diff_tokens-IsDiff :
      (split : Text → List Text)
      → ((t : Text) → concat (split t) ≡ t)
      → IsDiff (diff_tokens finer split)
  unfolding diff_tokens
  diff_tokens-IsDiff split parts old new out =
      region_loop-Extends (length (diff_seq same_text (split old) (split new))) _ (omega arith) _
        out (diff_seq-Edits same_text same_text-eq (split old) (split new))
        (sym (parts old), sym (parts new))

diff_region-IsDiff : (tier : Tier) → IsDiff (diff_region tier)
unfolding diff_region
diff_region-IsDiff char_tier = refine_chars-IsDiff
diff_region-IsDiff word_tier =
    diff_tokens-IsDiff refine_chars refine_chars-IsDiff split_words concat-split_words
diff_region-IsDiff line_tier =
    diff_tokens-IsDiff (diff_tokens refine_chars split_words)
      (diff_tokens-IsDiff refine_chars refine_chars-IsDiff split_words concat-split_words)
      split_lines concat-split_lines

whole_sides : (t : Text) → (old_side (whole_text t) ≡ t) × (new_side (whole_text t) ≡ t)
whole_sides [] = (refl, refl)
whole_sides (c ∷ cs) = (append-nil (c ∷ cs), append-nil (c ∷ cs))

-- The equal and deleted texts of a diff are the old text in order, the equal and inserted texts the
-- new one.
pub diff_chars_sides :
    (old new : Text) → (old_side (diff_chars old new) ≡ old) × (new_side (diff_chars old new) ≡ new)
unfolding diff_chars
diff_chars_sides old new = elim (Bool-cases (same_text old new)) [
  | inl e ↦ rw e ((whole_sides old).0, (whole_sides old).1 ∙ same_text-eq old new e)
  | inr e ↦ let h = diff_region-IsDiff line_tier old new [] in rw e (h.old_part, h.new_part)
]
