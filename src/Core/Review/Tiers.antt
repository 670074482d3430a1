-- ===== src/Core/Review/Tiers.antt =====
-- crates/nisaba-core/src/review.rs: the diff of two texts by lines, then words, then characters.
pub mod Tokens
pub mod Sides
pub mod Whole
pub mod Regions
use nisaba.Prelude.{
  ℕ, zero, suc, ◌+◌, ◌&&◌, ◌||◌, ◌==◌, ltb, leb, if◌then◌else◌, Bool, true, false, List, [], ◌∷◌,
  ◌++◌, Text, length, take, drop,
}
use nisaba.OrdMap.Order.{compare_text}
use Prim.Native.Nat.Ordering.{lt, eq, gt}
use nisaba.Core.Review.Diff.{
  DiffOp, equal_op, delete_op, insert_op, diff_seq, push_op, position, split_at,
}

pub data SnapshotChange : Type 0 where
  deleted inserted equal : Text → SnapshotChange

abbrev pub refine_limit_chars : ℕ
refine_limit_chars = 8192

-- `==` of texts.
abbrev pub same_text : Text → Text → Bool
same_text [] [] = true
same_text [] (y ∷ b) = false
same_text (x ∷ a) [] = false
same_text (x ∷ a) (y ∷ b) = x == y && same_text a b

abbrev pub push_token : ℕ → List Text → List Text
push_token c [] = (c ∷ []) ∷ []
push_token c (t ∷ ts) = (c ∷ t) ∷ ts

-- A line ends with its newline.
unfoldable pub split_lines : Text → List Text
split_lines [] = []
split_lines (c ∷ cs) =
    let rest = split_lines cs in if c == 10 then (c ∷ []) ∷ rest else push_token c rest

-- `char::is_whitespace`
abbrev pub is_whitespace : ℕ → Bool
is_whitespace c =
    (leb 9 c && leb c 13)
    || (c == 0x20
        || (c == 0x85
            || (c == 0xa0
                || (c == 0x1680
                    || ((leb 0x2000 c && leb c 0x200a)
                        || (c == 0x2028
                            || (c == 0x2029 || (c == 0x202f || (c == 0x205f || c == 0x3000)))))))))

abbrev pub same_bool : Bool → Bool → Bool
same_bool true b = b
same_bool false true = false
same_bool false false = true

-- The character joins the atom of the next when both are white space or neither is.
abbrev pub joins : ℕ → Text → Bool
joins c [] = false
joins c (d ∷ cs) = same_bool (is_whitespace c) (is_whitespace d)

unfoldable pub split_words : Text → List Text
split_words [] = []
split_words (c ∷ cs) =
    let rest = split_words cs in if joins c cs then push_token c rest else (c ∷ []) ∷ rest

-- The last change and the next: one change when their kinds agree.
abbrev pub merge_change : SnapshotChange → SnapshotChange → List SnapshotChange
merge_change (equal a) (equal b) = equal (a ++ b) ∷ []
merge_change (deleted a) (deleted b) = deleted (a ++ b) ∷ []
merge_change (inserted a) (inserted b) = inserted (a ++ b) ∷ []
merge_change last change = last ∷ change ∷ []

unfoldable pub push_change : List SnapshotChange → SnapshotChange → List SnapshotChange
push_change [] change = change ∷ []
push_change (last ∷ []) change = merge_change last change
push_change (x ∷ y ∷ ys) change = x ∷ push_change (y ∷ ys) change

-- The loop over the runs, where `old` and `new` start at the cursors.
unfoldable pub refine_loop : List DiffOp → Text → Text → List SnapshotChange → List SnapshotChange
unfolding push_change
refine_loop [] old new out = out
refine_loop (equal_op n ∷ ops) old new out =
    refine_loop ops (drop n old) (drop n new) (push_change out (equal (take n old)))
refine_loop (delete_op n ∷ ops) old new out =
    refine_loop ops (drop n old) new (push_change out (deleted (take n old)))
refine_loop (insert_op n ∷ ops) old new out =
    refine_loop ops old (drop n new) (push_change out (inserted (take n new)))

unfoldable pub refine_chars : Text → Text → List SnapshotChange → List SnapshotChange
unfolding refine_loop diff_seq push_change
refine_chars [] new out = push_change out (inserted new)
refine_chars (c ∷ old) [] out = push_change out (deleted (c ∷ old))
refine_chars (c ∷ old) (d ∷ new) out =
    refine_loop (diff_seq ◌==◌ (c ∷ old) (d ∷ new)) (c ∷ old) (d ∷ new) out

-- The text of some tokens; the source slices it from the text between two cursors.
abbrev pub concat : List Text → Text
concat [] = []
concat (t ∷ ts) = t ++ concat ts

-- Where the loop over the runs stands: the tokens and the texts from the cursors on.
pub record Cursors : Type 0 where
  pub old_tokens : List Text
  pub new_tokens : List Text
  pub old : Text
  pub new : Text

-- `old[old_byte..]` behind the next `n` tokens, and likewise for `new`.
unfoldable pub advance : ℕ → ℕ → Cursors → Cursors
advance del ins c = record {
  old_tokens = drop del c.old_tokens;
  new_tokens = drop ins c.new_tokens;
  old = drop (length (concat (take del c.old_tokens))) c.old;
  new = drop (length (concat (take ins c.new_tokens))) c.new;
}

abbrev pub old_slice : ℕ → Cursors → Text
old_slice n c = take (length (concat (take n c.old_tokens))) c.old

abbrev pub new_slice : ℕ → Cursors → Text
new_slice n c = take (length (concat (take n c.new_tokens))) c.new

-- One replacement group: the sums of the consecutive runs that are not equal, and the runs after.
unfoldable pub group : List DiffOp → ℕ → ℕ → ℕ × ℕ × List DiffOp
group [] del ins = (del, ins, [])
group (equal_op n ∷ ops) del ins = (del, ins, equal_op n ∷ ops)
group (delete_op n ∷ ops) del ins = group ops (del + n) ins
group (insert_op n ∷ ops) del ins = group ops del (ins + n)

module _ (finer : Text → Text → List SnapshotChange → List SnapshotChange) where
  -- A replacement, refined when it is not too large.
  unfoldable pub replace_group : Text → Text → List SnapshotChange → List SnapshotChange
  unfolding push_change
  replace_group old new out =
      if ltb refine_limit_chars (length old + length new)
      then push_change (push_change out (deleted old)) (inserted new)
      else finer old new out

  -- The loop over the runs; each round takes at least one of them, so their number is enough fuel.
  unfoldable pub region_loop : ℕ → List DiffOp → Cursors → List SnapshotChange → List SnapshotChange
  unfolding push_change advance group replace_group
  region_loop zero ops c out = out
  region_loop (suc fuel) [] c out = out
  region_loop (suc fuel) (equal_op n ∷ ops) c out =
      region_loop fuel ops (advance n n c) (push_change out (equal (old_slice n c)))
  region_loop (suc fuel) (delete_op n ∷ ops) c out =
      let (del, ins, rest) = group (delete_op n ∷ ops) 0 0 in
      region_loop fuel rest (advance del ins c)
        (replace_group (old_slice del c) (new_slice ins c) out)
  region_loop (suc fuel) (insert_op n ∷ ops) c out =
      let (del, ins, rest) = group (insert_op n ∷ ops) 0 0 in
      region_loop fuel rest (advance del ins c)
        (replace_group (old_slice del c) (new_slice ins c) out)

  -- `diff_region` at the tier whose tokens are given.
  unfoldable pub diff_tokens :
      (Text → List Text) → Text → Text → List SnapshotChange → List SnapshotChange
  unfolding region_loop diff_seq
  diff_tokens split old new out =
      let ops = diff_seq same_text (split old) (split new) in
      region_loop (length ops) ops
        (record { old_tokens = split old; new_tokens = split new; old = old; new = new }) out

pub data Tier : Type 0 where
  line_tier word_tier char_tier : Tier

-- `diff_region`, where each tier hands what it refines to the next.
unfoldable pub diff_region : Tier → Text → Text → List SnapshotChange → List SnapshotChange
unfolding refine_chars diff_tokens split_lines split_words
diff_region char_tier = refine_chars
diff_region word_tier = diff_tokens refine_chars split_words
diff_region line_tier = diff_tokens (diff_tokens refine_chars split_words) split_lines

abbrev pub whole_text : Text → List SnapshotChange
whole_text [] = []
whole_text (c ∷ cs) = equal (c ∷ cs) ∷ []

unfoldable pub diff_chars : Text → Text → List SnapshotChange
unfolding diff_region
diff_chars old new = if same_text old new then whole_text old else diff_region line_tier old new []
