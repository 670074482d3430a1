-- ===== src/Sync/Bytes.antt =====
-- Bytes as numbers below 256: big-endian integers and the splitting of a buffer.
use nisaba.Prelude.{
  ℕ, zero, suc, ◌+◌, ◌-◌, ◌*◌, ◌/◌, ◌%◌, ◌≤◌, ◌<◌, ◌≡◌, refl, ap, ◌∙◌, List, [], ◌∷◌, ◌++◌, length,
  length-append, take, drop, arith,
}

abbrev pub Bytes : Type 0
Bytes = List ℕ

-- `to_be_bytes` of an integer with `w` bytes.
unfoldable pub to_be_bytes : ℕ → ℕ → Bytes
to_be_bytes zero v = []
to_be_bytes (suc w) v = to_be_bytes w (v / 256) ++ v % 256 ∷ []

unfoldable pub from_be : ℕ → Bytes → ℕ
from_be acc [] = acc
from_be acc (b ∷ bs) = from_be (acc * 256 + b) bs

-- `from_be_bytes`.
abbrev pub from_be_bytes : Bytes → ℕ
from_be_bytes bs = from_be 0 bs

-- How many integers have `w` bytes.
abbrev pub capacity : ℕ → ℕ
capacity zero = 1
capacity (suc w) = 256 * capacity w

from_be-append : (acc b : ℕ) (bs : Bytes) → from_be acc (bs ++ b ∷ []) ≡ from_be acc bs * 256 + b
unfolding from_be
from_be-append acc b [] = refl
from_be-append acc b (x ∷ bs) = from_be-append (acc * 256 + x) b bs

pub from_be_bytes-to_be_bytes : (w v : ℕ) → v < capacity w → from_be_bytes (to_be_bytes w v) ≡ v
unfolding to_be_bytes from_be
from_be_bytes-to_be_bytes zero v h = omega arith
from_be_bytes-to_be_bytes (suc w) v h =
    from_be-append 0 (v % 256) (to_be_bytes w (v / 256))
    ∙ omega (arith, from_be_bytes-to_be_bytes w (v / 256) (omega arith))

pub length-to_be_bytes : (w v : ℕ) → length (to_be_bytes w v) ≡ w
unfolding to_be_bytes
length-to_be_bytes zero v = refl
length-to_be_bytes (suc w) v =
    length-append (to_be_bytes w (v / 256)) (v % 256 ∷ [])
    ∙ omega (arith, length-to_be_bytes w (v / 256))

pub take-append : (n : ℕ) (xs ys : Bytes) → n ≡ length xs → take n (xs ++ ys) ≡ xs
take-append zero [] ys h = refl
take-append zero (x ∷ xs) ys h = absurd (omega arith)
take-append (suc n) [] ys h = absurd (omega arith)
take-append (suc n) (x ∷ xs) ys h = ap (λ l. x ∷ l) (take-append n xs ys (omega arith))

pub drop-append : (n : ℕ) (xs ys : Bytes) → n ≡ length xs → drop n (xs ++ ys) ≡ ys
drop-append zero [] ys h = refl
drop-append zero (x ∷ xs) ys h = absurd (omega arith)
drop-append (suc n) [] ys h = absurd (omega arith)
drop-append (suc n) (x ∷ xs) ys h = drop-append n xs ys (omega arith)

-- Taking past the first list takes all of it.
pub take-past :
    (n : ℕ) (xs ys : Bytes) → length xs ≤ n → take n (xs ++ ys) ≡ xs ++ take (n - length xs) ys
take-past n [] ys h = ap (λ m. take m ys) (omega arith)
take-past zero (x ∷ xs) ys h = absurd (omega arith)
take-past (suc n) (x ∷ xs) ys h =
    ap (λ l. x ∷ l) (take-past n xs ys (omega arith) ∙ ap (λ m. xs ++ take m ys) (omega arith))
