-- ===== src/Sync/Presence/Roster.antt =====
-- The roster's codec.
use nisaba.Prelude.{
  ℕ, suc, ◌<◌, ◌≤◌, ◌≡◌, refl, sym, ap, ◌∙◌, false, ltb, some, List, [], ◌∷◌, ◌++◌, length,
  length-append, ◌+◌, take, drop, All, u32_max, u32_or_max-eq, arith,
}
use nisaba.Sync.Bytes.{
  Bytes, to_be_bytes, from_be_bytes, capacity, from_be_bytes-to_be_bytes, length-to_be_bytes,
  take-append, drop-append,
}
use nisaba.Sync.Presence.{push_entry, encode_entries, encode_roster, decode_entries, decode_roster}

-- A peer's id is a `u64`, and its state has a `u32` length.
abbrev pub EntryFits : ℕ × Bytes → Type 0
EntryFits e = (e.0 < capacity 8) × (length e.1 ≤ u32_max)

module _ (w v : ℕ) (rest : Bytes) (h : v < capacity w) where
  take-to_be_bytes : from_be_bytes (take w (to_be_bytes w v ++ rest)) ≡ v
  take-to_be_bytes =
      ap from_be_bytes (take-append w (to_be_bytes w v) rest (sym (length-to_be_bytes w v)))
      ∙ from_be_bytes-to_be_bytes w v h

  drop-to_be_bytes : drop w (to_be_bytes w v ++ rest) ≡ rest
  drop-to_be_bytes = drop-append w (to_be_bytes w v) rest (sym (length-to_be_bytes w v))

  length-field : length (to_be_bytes w v ++ rest) ≡ w + length rest
  length-field =
      length-append (to_be_bytes w v) rest ∙ ap (λ n. n + length rest) (length-to_be_bytes w v)

decode_entry :
    (n p : ℕ) (buf s tail : Bytes)
    → from_be_bytes (take 8 buf) ≡ p
    → from_be_bytes (take 4 (drop 8 buf)) ≡ length s
    → drop 4 (drop 8 buf) ≡ s ++ tail
    → ltb (length buf) 12 ≡ false
    → decode_entries (suc n) buf ≡ push_entry (p, s) (decode_entries n tail)
unfolding decode_entries
decode_entry n p buf s tail a b c d =
    rw (a, b, c, take-append (length s) s tail refl, drop-append (length s) s tail refl, d, whole)
      refl
  where
    whole : ltb (length (s ++ tail)) (length s) ≡ false
    whole = ground (arith, length-append s tail)

abbrev after_peer : Bytes → Bytes → Bytes
after_peer s tail = to_be_bytes 4 (length s) ++ (s ++ tail)

decode_first :
    (n p : ℕ) (s tail : Bytes)
    → EntryFits (p, s)
    → decode_entries (suc n) (to_be_bytes 8 p ++ after_peer s tail)
      ≡ push_entry (p, s) (decode_entries n tail)
decode_first n p s tail (hp, hs) =
    decode_entry n p (to_be_bytes 8 p ++ after_peer s tail) s tail
      (take-to_be_bytes 8 p (after_peer s tail) hp)
      (ap (λ l. from_be_bytes (take 4 l)) (drop-to_be_bytes 8 p (after_peer s tail) hp)
        ∙ take-to_be_bytes 4 (length s) (s ++ tail) (omega arith))
      (ap (drop 4) (drop-to_be_bytes 8 p (after_peer s tail) hp)
        ∙ drop-to_be_bytes 4 (length s) (s ++ tail) (omega arith))
      (ground (
        arith,
        length-field 8 p (after_peer s tail) hp,
        length-field 4 (length s) (s ++ tail) (omega arith),
      ))

encode_first :
    (p : ℕ) (s : Bytes) (r : List (ℕ × Bytes))
    → length s ≤ u32_max
    → encode_entries ((p, s) ∷ r) ≡ to_be_bytes 8 p ++ after_peer s (encode_entries r)
unfolding encode_entries
encode_first p s r h =
    ap (λ n. to_be_bytes 8 p ++ (to_be_bytes 4 n ++ (s ++ encode_entries r)))
      (u32_or_max-eq (length s) h)

decode_no_entry : (buf : Bytes) → decode_entries 0 buf ≡ some []
unfolding decode_entries
decode_no_entry buf = refl

decode_entries_lem :
    (r : List (ℕ × Bytes)) → All EntryFits r → decode_entries (length r) (encode_entries r) ≡ some r
decode_entries_lem [] h = decode_no_entry _
decode_entries_lem ((p, s) ∷ r) (e, h) =
    ap (decode_entries (suc (length r))) (encode_first p s r e.1)
    ∙ decode_first (length r) p s (encode_entries r) e
    ∙ ap (push_entry (p, s)) (decode_entries_lem r h)

decode_counted :
    (n : ℕ) (buf rest : Bytes)
    → from_be_bytes (take 4 buf) ≡ n
    → drop 4 buf ≡ rest
    → ltb (length buf) 4 ≡ false
    → decode_roster buf ≡ decode_entries n rest
unfolding decode_roster
decode_counted n buf rest a b c = rw (a, b, c) refl

-- A roster of at most `u32::MAX` peers whose ids are `u64` and whose states have a `u32` length is
-- decoded from its encoding.
pub decode_roster-encode_roster :
    (r : List (ℕ × Bytes))
    → length r ≤ u32_max
    → All EntryFits r
    → decode_roster (encode_roster r) ≡ some r
unfolding encode_roster
decode_roster-encode_roster r n h =
    ap (λ c. decode_roster (to_be_bytes 4 c ++ encode_entries r)) (u32_or_max-eq (length r) n)
    ∙ decode_counted (length r) (to_be_bytes 4 (length r) ++ encode_entries r) (encode_entries r)
        (take-to_be_bytes 4 (length r) (encode_entries r) (omega arith))
        (drop-to_be_bytes 4 (length r) (encode_entries r) (omega arith))
        (ground (arith, length-field 4 (length r) (encode_entries r) (omega arith)))
    ∙ decode_entries_lem r h
