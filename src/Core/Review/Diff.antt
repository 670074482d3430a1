-- ===== src/Core/Review/Diff.antt =====
-- crates/nisaba-core/src/review.rs: the linear-space diff of two sequences, as compact runs.
pub mod Runs
pub mod Trim
pub mod Sound
pub mod Split
use nisaba.Prelude.{
  ℕ, zero, suc, ◌+◌, ◌-◌, ◌/◌, ◌==◌, ltb, if◌then◌else◌, Bool, true, false, Option, none, some,
  List, [], ◌∷◌, ◌++◌, length, take, drop, replicate, max,
}
use mathlib.Core.List.{reverse}

-- A run, with its length in elements.
pub data DiffOp : Type 0 where
  equal_op delete_op insert_op : ℕ → DiffOp

abbrev pub diff_work_limit : ℕ
diff_work_limit = 67108864

abbrev pub op_len : DiffOp → ℕ
op_len (equal_op n) = n
op_len (delete_op n) = n
op_len (insert_op n) = n

-- The last run and the next: one run when their kinds agree.
abbrev pub merge_op : DiffOp → DiffOp → List DiffOp
merge_op (equal_op a) (equal_op b) = equal_op (a + b) ∷ []
merge_op (delete_op a) (delete_op b) = delete_op (a + b) ∷ []
merge_op (insert_op a) (insert_op b) = insert_op (a + b) ∷ []
merge_op last op = last ∷ op ∷ []

abbrev pub merge_last : List DiffOp → DiffOp → List DiffOp
merge_last [] op = op ∷ []
merge_last (last ∷ []) op = merge_op last op
merge_last (x ∷ y ∷ ys) op = x ∷ merge_last (y ∷ ys) op

unfoldable pub push_op : List DiffOp → DiffOp → List DiffOp
push_op out op = if op_len op == 0 then out else merge_last out op

abbrev pub one_later : Option ℕ → Option ℕ
one_later none = none
one_later (some k) = some (suc k)

abbrev pub head_or : List ℕ → ℕ
head_or [] = 0
head_or (n ∷ ns) = n

-- The loop for the split with the greatest sum, from the index `j` on.
unfoldable pub best_split : ℕ → ℕ → ℕ → List ℕ → List ℕ → ℕ
best_split j best split [] right = split
best_split j best split (l ∷ left) [] = split
best_split j best split (l ∷ left) (r ∷ right) =
    let better = best_split (suc j) (l + r) j left right in
    let same = best_split (suc j) best split left right in if ltb best (l + r) then better else same

module _ {ℓ} {A : Type ℓ} (eq : A → A → Bool) where
  -- The loop that counts `prefix`.
  unfoldable pub common_prefix : List A → List A → ℕ
  common_prefix [] b = 0
  common_prefix (x ∷ a) [] = 0
  common_prefix (x ∷ a) (y ∷ b) = let rest = common_prefix a b in if eq x y then suc rest else 0

  -- The loop that counts `suffix`, from the ends of what the prefix leaves.
  abbrev pub common_suffix : List A → List A → ℕ
  common_suffix a b = common_prefix (reverse a) (reverse b)

  -- `position`
  unfoldable pub position : A → List A → Option ℕ
  position x [] = none
  position x (y ∷ b) = let rest = position x b in if eq y x then some 0 else one_later rest

  -- The entries `cur[j + 1]` from `cur[j]`, `prev[j..]` and `b[j..]`.
  unfoldable pub row_from : A → ℕ → List ℕ → List A → List ℕ
  row_from x left prev [] = []
  row_from x left [] (y ∷ b) = []
  row_from x left (p ∷ prev) (y ∷ b) =
      let cur = if eq x y then p + 1 else max left (head_or prev) in cur ∷ row_from x cur prev b

  unfoldable pub prefix_rows : List A → List A → List ℕ → List ℕ
  unfolding row_from
  prefix_rows [] b prev = prev
  prefix_rows (x ∷ a) b prev = prefix_rows a b (0 ∷ row_from x 0 prev b)

  unfoldable pub lcs_row_prefix : List A → List A → List ℕ
  unfolding prefix_rows
  lcs_row_prefix a b = prefix_rows a b (replicate (length b + 1) 0)

  -- The entries `cur[j..]` from `prev[j..]` and `b[j..]`.
  unfoldable pub row_back : A → List ℕ → List A → List ℕ
  row_back x prev [] = 0 ∷ []
  row_back x [] (y ∷ b) = 0 ∷ []
  row_back x (p ∷ prev) (y ∷ b) =
      let rest = row_back x prev b in
      (if eq x y then head_or prev + 1 else max (head_or rest) p) ∷ rest

  unfoldable pub suffix_rows : List A → List A → List ℕ → List ℕ
  unfolding row_back
  suffix_rows [] b prev = prev
  suffix_rows (x ∷ a) b prev = suffix_rows a b (row_back x prev b)

  unfoldable pub lcs_row_suffix : List A → List A → List ℕ
  unfolding suffix_rows
  lcs_row_suffix a b = suffix_rows (reverse a) b (replicate (length b + 1) 0)

  unfoldable pub split_at : List A → List A → ℕ
  unfolding lcs_row_prefix lcs_row_suffix best_split
  split_at a b =
      let mid = length a / 2 in
      let left = lcs_row_prefix (take mid a) b in
      let right = lcs_row_suffix (drop mid a) b in
      best_split 0 (head_or left + head_or right) 0 left right

  -- The single element `x` against its first occurrence.
  abbrev pub diff_one : Option ℕ → List A → List DiffOp → List DiffOp
  diff_one (some k) b out =
      push_op (push_op (push_op out (insert_op k)) (equal_op 1)) (insert_op (length b - k - 1))
  diff_one none b out = push_op (push_op out (delete_op 1)) (insert_op (length b))

  -- The cases for the middles, with the recursion as an argument.
  unfoldable pub diff_mid :
      (List A → List A → List DiffOp → List DiffOp) → List A → List A → List DiffOp → List DiffOp
  unfolding push_op position split_at
  diff_mid rec [] b out = push_op out (insert_op (length b))
  diff_mid rec (x ∷ a) [] out = push_op out (delete_op (length (x ∷ a)))
  diff_mid rec (x ∷ []) (y ∷ b) out = diff_one (position x (y ∷ b)) (y ∷ b) out
  diff_mid rec (x ∷ w ∷ a) (y ∷ b) out =
      let mid = length (x ∷ w ∷ a) / 2 in
      let split = split_at (x ∷ w ∷ a) (y ∷ b) in
      rec (drop mid (x ∷ w ∷ a)) (drop split (y ∷ b))
        (rec (take mid (x ∷ w ∷ a)) (take split (y ∷ b)) out)

  -- What follows the guards: the prefix, the middles and the suffix.
  unfoldable pub diff_trimmed :
      (List A → List A → List DiffOp → List DiffOp) → List A → List A → List DiffOp → List DiffOp
  unfolding push_op common_prefix diff_mid
  diff_trimmed rec a b out =
      let prefix = common_prefix a b in
      let a_rest = drop prefix a in
      let b_rest = drop prefix b in
      let suffix = common_suffix a_rest b_rest in
      push_op
        (diff_mid rec (take (length a_rest - suffix) a_rest) (take (length b_rest - suffix) b_rest)
          (push_op out (equal_op prefix)))
        (equal_op suffix)

  -- On fuel: the recursion is on shorter sequences, so more than the length of the first is enough.
  unfoldable pub diff_rec : ℕ → List A → List A → List DiffOp → List DiffOp
  unfolding push_op diff_trimmed
  diff_rec zero a b out = out
  diff_rec (suc fuel) [] b out = push_op out (insert_op (length b))
  diff_rec (suc fuel) (x ∷ a) [] out = push_op out (delete_op (length (x ∷ a)))
  diff_rec (suc fuel) (x ∷ a) (y ∷ b) out =
      if ltb (diff_work_limit / length (y ∷ b)) (length (x ∷ a))
      then push_op (push_op out (delete_op (length (x ∷ a)))) (insert_op (length (y ∷ b)))
      else diff_trimmed (diff_rec fuel) (x ∷ a) (y ∷ b) out

  unfoldable pub diff_seq : List A → List A → List DiffOp
  unfolding diff_rec
  diff_seq a b = diff_rec (length a + 1) a b []
