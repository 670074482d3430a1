-- ===== src/Sync/OpLog/Replay.antt =====
-- What a replay of a log reads back.
use nisaba.Prelude.{
  ℕ, zero, suc, ◌+◌, ◌-◌, ◌≤◌, ◌<◌, ◌≡◌, refl, sym, ap, ◌∙◌, ◌++◌, append-nil, append_assoc, length,
  length-append, length-drop, length-take, All-append, ltb→lt, take, drop, ltb, false, some, List,
  [], ◌∷◌, All, u32_max, arith, Bool-cases, inl, inr,
}
use nisaba.Sync.Bytes.{
  Bytes, to_be_bytes, from_be_bytes, from_be_bytes-to_be_bytes, length-to_be_bytes, take-append,
  take-past, drop-append,
}
use nisaba.Sync.OpLog.{max_update_bytes, frame, append, read_loop, read_records}

abbrev pub Fits : Bytes → Type 0
Fits u = length u ≤ max_update_bytes

-- The file after appending the updates in order.
unfoldable pub log : List Bytes → Bytes
log [] = []
log (u ∷ us) = frame u ++ log us

module _ (u rest : Bytes) (h : length u ≤ u32_max) where
  head_len : from_be_bytes (take 4 (frame u ++ rest)) ≡ length u
  unfolding frame
  head_len =
      ap from_be_bytes (
        ap (take 4) (append_assoc (to_be_bytes 4 (length u)) u rest)
        ∙ take-append 4 (to_be_bytes 4 (length u)) (u ++ rest)
            (sym (length-to_be_bytes 4 (length u))))
      ∙ from_be_bytes-to_be_bytes 4 (length u) (omega arith)

  head_body : drop 4 (frame u ++ rest) ≡ u ++ rest
  unfolding frame
  head_body =
      ap (drop 4) (append_assoc (to_be_bytes 4 (length u)) u rest)
      ∙ drop-append 4 (to_be_bytes 4 (length u)) (u ++ rest) (sym (length-to_be_bytes 4 (length u)))

  length-frame : length (frame u) ≡ 4 + length u
  unfolding frame
  length-frame =
      length-append (to_be_bytes 4 (length u)) u
      ∙ ap (λ n. n + length u) (length-to_be_bytes 4 (length u))

at_least : (a b : ℕ) → ltb a b ≡ false → b ≤ a
at_least a b h = ground arith

read_frame :
    (n : ℕ) (u rest : Bytes) → Fits u → read_loop (suc n) (frame u ++ rest) ≡ u ∷ read_loop n rest
unfolding read_loop
read_frame n u rest h =
    rw
      (
        head_len u rest (omega arith),
        head_body u rest (omega arith),
        take-append (length u) u rest refl,
        drop-append (length u) u rest refl,
        long,
        short,
        whole,
      )
      refl
  where
    long : ltb (length (frame u ++ rest)) 4 ≡ false
    long = ground (arith, length-append (frame u) rest, length-frame u rest (omega arith))

    short : ltb max_update_bytes (length u) ≡ false
    short = ground arith

    whole : ltb (length (u ++ rest)) (length u) ≡ false
    whole = ground (arith, length-append u rest)

rest_shorter :
    (n : ℕ) (file : Bytes)
    → length file ≤ suc n
    → ltb (length file) 4 ≡ false
    → length (drop (from_be_bytes (take 4 file)) (drop 4 file)) ≤ n
rest_shorter n file h k = omega (
  arith,
  length-drop (from_be_bytes (take 4 file)) (drop 4 file),
  length-drop 4 file,
  at_least (length file) 4 k,
)

-- Fuel for the length of the file is as good as more.
pub read_loop_fuel :
    (n m : ℕ) (file : Bytes)
    → length file ≤ n
    → length file ≤ m
    → read_loop n file ≡ read_loop m file
unfolding read_loop
read_loop_fuel zero zero file h k = refl
read_loop_fuel zero (suc m) file h k = ground arith
read_loop_fuel (suc n) zero file h k = ground arith
read_loop_fuel (suc n) (suc m) file h k = elim (Bool-cases (ltb (length file) 4)) [
  | inl e ↦ rw e refl
  | inr e ↦ rw (read_loop_fuel n m _ (rest_shorter n file h e) (rest_shorter m file k e)) refl
]

read_log :
    (n m : ℕ) (us : List Bytes) (rest : Bytes)
    → All Fits us
    → length (log us ++ rest) ≤ n
    → length rest ≤ m
    → read_loop n (log us ++ rest) ≡ us ++ read_loop m rest
unfolding log
read_log n m [] rest f h k = read_loop_fuel n m rest h k
read_log zero m (u ∷ us) rest f h k = absurd (
    omega (
      arith,
      length-append (frame u ++ log us) rest,
      length-append (frame u) (log us),
      length-frame u [] (omega arith),
    ))
read_log (suc n) m (u ∷ us) rest f h k =
    ap (read_loop (suc n)) (append_assoc (frame u) (log us) rest)
    ∙ read_frame n u (log us ++ rest) f.0
    ∙ ap (λ l. u ∷ l)
        (read_log n m us rest f.1
          (omega (
            arith,
            length-append (frame u ++ log us) rest,
            length-append (frame u) (log us),
            length-append (log us) rest,
            length-frame u [] (omega arith),
          ))
          k)

-- A file that ends in bytes that give no record is read up to them.
records_before :
    (us : List Bytes) (tail : Bytes)
    → All Fits us
    → read_records tail ≡ []
    → read_records (log us ++ tail) ≡ us
unfolding read_records
records_before us tail f h =
    read_log (length (log us ++ tail)) (length tail) us tail f (omega arith) (omega arith)
    ∙ ap (λ l. us ++ l) h
    ∙ append-nil us

no_header : (n : ℕ) (f : Bytes) → length f < 4 → read_loop (suc n) f ≡ []
unfolding read_loop
no_header n f h = ground arith

torn_body :
    (n len : ℕ) (f p : Bytes)
    → from_be_bytes (take 4 f) ≡ len
    → drop 4 f ≡ p
    → length p < len
    → read_loop (suc n) f ≡ []
unfolding read_loop
torn_body n len f p e d h = rw (e, d) (ground arith)

-- Bytes that are shorter than the record that they start give no record.
short_record :
    (x p : Bytes)
    → length x ≤ u32_max
    → length p < length x
    → read_records (to_be_bytes 4 (length x) ++ p) ≡ []
unfolding read_records
short_record x p h k =
    read_loop_fuel (length file) (suc (length file)) file (omega arith) (omega arith)
    ∙ torn_body (length file) (length x) file p len body k
  where
    file : Bytes
    file = to_be_bytes 4 (length x) ++ p

    len : from_be_bytes (take 4 file) ≡ length x
    len =
        ap from_be_bytes
          (take-append 4 (to_be_bytes 4 (length x)) p (sym (length-to_be_bytes 4 (length x))))
        ∙ from_be_bytes-to_be_bytes 4 (length x) (omega arith)

    body : drop 4 file ≡ p
    body = drop-append 4 (to_be_bytes 4 (length x)) p (sym (length-to_be_bytes 4 (length x)))

log-append : (us : List Bytes) (u : Bytes) → log (us ++ u ∷ []) ≡ log us ++ frame u
unfolding log
log-append [] u = append-nil (frame u)
log-append (v ∷ us) u =
    ap (λ l. frame v ++ l) (log-append us u) ∙ sym (append_assoc (frame v) (log us) (frame u))

empty_file : read_records [] ≡ []
unfolding read_records read_loop
empty_file = refl

short_header : (f : Bytes) → length f < 4 → read_records f ≡ []
unfolding read_records
short_header f h =
    read_loop_fuel (length f) (suc (length f)) f (omega arith) (omega arith)
    ∙ no_header (length f) f h

torn :
    (x : Bytes) (k : ℕ)
    → length x ≤ u32_max
    → k < length (frame x)
    → read_records (take k (frame x)) ≡ []
unfolding frame
torn x k h lt = elim (Bool-cases (ltb k 4)) [
  | inl e ↦ short_header (take k (frame x)) (omega (arith, length-take k (frame x), ltb→lt k 4 e))
  | inr e ↦
      ap read_records (
        take-past k (to_be_bytes 4 (length x)) x
          (omega (arith, at_least k 4 e, length-to_be_bytes 4 (length x))))
      ∙ short_record x _ h (
          omega (
            arith,
            length-take (k - length (to_be_bytes 4 (length x))) x,
            length-to_be_bytes 4 (length x),
            at_least k 4 e,
            length-frame x [] h,
          ))
]

-- Appending an update that the reader accepts to a log of such updates succeeds, and the replay of
-- the file then gives the updates in order with the new one last.
pub read_records-append :
    (us : List Bytes) (u : Bytes)
    → All Fits us
    → Fits u
    → (file : Bytes) × (append (log us) u ≡ some file) × (read_records file ≡ us ++ u ∷ [])
unfolding append
read_records-append us u f h = (
  log us ++ frame u,
  ground arith,
  ap read_records (sym (log-append us u) ∙ sym (append-nil (log (us ++ u ∷ []))))
      ∙ records_before (us ++ u ∷ []) [] (All-append Fits us (u ∷ []) f (h, tt)) empty_file,
)

-- A crash that leaves any proper part of a record at the end of the log costs no record before it.
pub read_records_torn :
    (us : List Bytes) (x : Bytes) (k : ℕ)
    → All Fits us
    → length x ≤ u32_max
    → k < length (frame x)
    → read_records (log us ++ take k (frame x)) ≡ us
read_records_torn us x k f h lt = records_before us (take k (frame x)) f (torn x k h lt)

-- After a crash that leaves a header and part of its update at the end of the log, an update that is
-- appended later is not read back when it fits in what is missing of the torn one, although its
-- append succeeds.
pub append_after_torn :
    (us : List Bytes) (x p u : Bytes)
    → All Fits us
    → length x ≤ u32_max
    → Fits u
    → length p + length (frame u) < length x
    → (file : Bytes) × (append (log us ++ (to_be_bytes 4 (length x) ++ p)) u ≡ some file)
      × (read_records file ≡ us)
unfolding append
append_after_torn us x p u f h g lt = (
  (log us ++ (to_be_bytes 4 (length x) ++ p)) ++ frame u,
  ground arith,
  ap read_records (
        append_assoc (log us) (to_be_bytes 4 (length x) ++ p) (frame u)
        ∙ ap (λ l. log us ++ l) (append_assoc (to_be_bytes 4 (length x)) p (frame u)))
      ∙ records_before us (to_be_bytes 4 (length x) ++ (p ++ frame u)) f
          (short_record x (p ++ frame u) h (omega (arith, length-append p (frame u)))),
)
