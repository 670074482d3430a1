-- ===== src/Core/Delimiters/Block.antt =====
-- A pair of markers that opens one content block and is clean of other delimiters, around an
-- inline-safe text, leaves a scan as it was.
use nisaba.Prelude.{
  ℕ, ◌+◌, ◌-◌, ◌%◌, ◌<◌, ◌≡◌, sym, ◌∙◌, ap, Bool-cases, true, false, ◌==◌, some, Option-cases, inl,
  inr, [], ◌∷◌, ◌++◌, Text, arith,
}
use nisaba.Core.Delimiters.{
  inline_safe, Scan, start, scan_char, scan, classify_inline_safety, square_depth,
  opens_one_content_block, clean_char, clean_scan, non_square_delimiters_clean,
}
use nisaba.Core.Delimiters.Balance.{scan-append, scan-plus, plus_start, safe_scan, plus, Same}

-- The full scan of one character from the two partial ones.
scan_char_open :
    (c d : ℕ) (s : Scan)
    → (c == b'[') ≡ true
    → (scan_char c (record s { sq = d }) ≡ some (record s { sq = d + 1 }))
      × (clean_char c s ≡ some s)
unfolding scan_char clean_char
scan_char_open c d s h = (ground arith, ground arith)

scan_char_close :
    (c d : ℕ) (s : Scan)
    → (c == b']') ≡ true
    → (d == 0) ≡ false
    → (scan_char c (record s { sq = d }) ≡ some (record s { sq = d - 1 }))
      × (clean_char c s ≡ some s)
unfolding scan_char clean_char
scan_char_close c d s h k = (ground arith, ground arith)

scan_char_other :
    (c d : ℕ) (s t : Scan)
    → (c == b'[') ≡ false
    → (c == b']') ≡ false
    → clean_char c s ≡ some t
    → scan_char c (record s { sq = d }) ≡ some (record t { sq = d })
unfolding scan_char clean_char
scan_char_other c d s t h k e = ground arith

scan_parts :
    (xs : Text) (d e : ℕ) (s t : Scan)
    → square_depth xs d ≡ some e
    → clean_scan xs s ≡ some t
    → scan xs (record s { sq = d }) ≡ some (record t { sq = e })
unfolding scan square_depth clean_scan
scan_parts [] d e s t h k = ground arith
scan_parts (c ∷ cs) d e s t h k = elim (Bool-cases (c == b'[')) [
  | inl o ↦ ground (arith, scan_char_open c d s o, scan_parts cs (d + 1) e s t)
  | inr n ↦ elim (Bool-cases (c == b']')) [
    | inl o ↦ ground (arith, scan_char_close c d s o, scan_parts cs (d - 1) e s t)
    | inr m ↦ elim (Option-cases (clean_char c s)) [
      | inl f ↦ absurd (ground arith)
      | inr (s', f) ↦ ground (arith, scan_char_other c d s s' n m f, scan_parts cs d e s' t)
    ]
  ]
]

clean_state :
    (xs : Text)
    → non_square_delimiters_clean xs ≡ true
    → (t : Scan) × (clean_scan xs start ≡ some t)
      × (t.cu ≡ 0)
      × (t.pa ≡ 0)
      × (t.dollars % 2 ≡ 0)
      × (t.backticks % 2 ≡ 0)
unfolding non_square_delimiters_clean
clean_state xs h = elim (Option-cases (clean_scan xs start)) [
  | inl e ↦ absurd (ground arith)
  | inr (t, e) ↦ (t, e, ground arith, ground arith, ground arith, ground arith)
]

-- The opening marker raises the square depth by one and the closing one lowers it again.
square_depths :
    (opening closing : Text)
    → opens_one_content_block opening closing ≡ true
    → (square_depth opening 0 ≡ some 1) × (square_depth closing 1 ≡ some 0)
unfolding opens_one_content_block
square_depths opening closing h = elim (Option-cases (square_depth opening 0)) [
  | inl e ↦ absurd (ground arith)
  | inr (d, e) ↦ elim (Option-cases (square_depth closing d)) [
    | inl f ↦ absurd (ground arith)
    | inr (g, f) ↦ ground arith
  ]
]

close_state :
    (v : Scan) → 0 < v.sq → plus (record start { sq = 1 }) (record v { sq = v.sq - 1 }) ≡ v
close_state v h = ground arith

-- A safe text between such markers leaves every scan as it was, up to even counts.
pub block_scan :
    (opening span closing : Text) (s : Scan)
    → opens_one_content_block opening closing ≡ true
    → non_square_delimiters_clean opening ≡ true
    → non_square_delimiters_clean closing ≡ true
    → classify_inline_safety span ≡ inline_safe
    → (t : Scan) × (scan (opening ++ (span ++ closing)) s ≡ some t) × Same s t
block_scan opening span closing s one clean_open clean_close safe =
    let depths = square_depths opening closing one in
    let (o, eo, ocu, opa, od, ob) = clean_state opening clean_open in
    let (c, ec, ccu, cpa, cd, cb) = clean_state closing clean_close in
    let u = plus (record o { sq = 1 }) s in
    let at_open : scan opening s ≡ some u =
      ap (scan opening) (sym (plus_start s))
      ∙ scan-plus opening start (record o { sq = 1 }) s
          (scan_parts opening 0 1 start o depths.0 eo) in
    let (v, ev, same) = safe_scan span u safe in
    let w = record v { sq = v.sq - 1 } in
    let at_close : scan closing v ≡ some (plus (record c { sq = 0 }) w) =
      ap (scan closing) (sym (close_state v (omega arith)))
      ∙ scan-plus closing (record start { sq = 1 }) (record c { sq = 0 }) w
          (scan_parts closing 1 0 start c depths.1 ec) in
    (
      plus (record c { sq = 0 }) w,
      rw (scan-append opening (span ++ closing) s, at_open)
          (rw (scan-append span closing u, ev) at_close),
      ground arith,
    )
