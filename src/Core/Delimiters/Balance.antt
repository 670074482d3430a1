-- ===== src/Core/Delimiters/Balance.antt =====
-- What the scans say of a text: how they behave on a text put together from parts, and from a
-- depth other than zero.
use nisaba.Prelude.{
  ℕ, ◌+◌, ◌%◌, ◌≡◌, refl, sym, ◌∙◌, ap, Option, none, some, Option-cases, inl, inr, [], ◌∷◌, ◌++◌,
  Text, arith, subst, append-nil,
}
use nisaba.Core.Delimiters.{
  inline_safe, Scan, start, scan_char, scan, finish, conclude, classify_inline_safety,
}

abbrev then_scan : Option Scan → Text → Option Scan
then_scan none t = none
then_scan (some s) t = scan t s

pub scan-append : (xs ys : Text) (s : Scan) → scan (xs ++ ys) s ≡ then_scan (scan xs s) ys
unfolding scan
scan-append [] ys s = refl
scan-append (c ∷ cs) ys s = elim (Option-cases (scan_char c s)) [
  | inl e ↦ rw (e, scan)
  | inr (s', e) ↦ rw (e, scan) (scan-append cs ys s')
]

none-ne-some : (t : Scan) → none ≡ some t → ⊥
none-ne-some t h = ground arith

-- Two states that the tests behind the loop tell apart in no text.
pub record Same (s t : Scan) : Type 0 where
  pub sq : s.sq ≡ t.sq
  pub cu : s.cu ≡ t.cu
  pub pa : s.pa ≡ t.pa
  pub dollars : s.dollars % 2 ≡ t.dollars % 2
  pub backticks : s.backticks % 2 ≡ t.backticks % 2

abbrev pub SameEnd : Option Scan → Option Scan → Type 0
SameEnd none none = Unit
SameEnd none (some t) = ⊥
SameEnd (some s) none = ⊥
SameEnd (some s) (some t) = Same s t

scan_char-Same : (c : ℕ) (s t : Scan) → Same s t → SameEnd (scan_char c s) (scan_char c t)
unfolding scan_char
scan_char-Same c s t h = ground arith

SameEnd-then :
    (a b : Option Scan) (cs : Text)
    → ((x y : Scan) → Same x y → SameEnd (scan cs x) (scan cs y))
    → SameEnd a b
    → SameEnd
        (elim a [ none ↦ none | some x ↦ scan cs x ])
        (elim b [ none ↦ none | some x ↦ scan cs x ])
SameEnd-then none none cs ih k = tt
SameEnd-then none (some y) cs ih k = absurd k
SameEnd-then (some x) none cs ih k = absurd k
SameEnd-then (some x) (some y) cs ih k = ih x y k

pub scan-Same : (xs : Text) (s t : Scan) → Same s t → SameEnd (scan xs s) (scan xs t)
unfolding scan
scan-Same [] s t h = h
scan-Same (c ∷ cs) s t h =
    SameEnd-then (scan_char c s) (scan_char c t) cs (scan-Same cs) (scan_char-Same c s t h)

pub conclude-SameEnd : (a b : Option Scan) → SameEnd a b → conclude a ≡ conclude b
unfolding finish
conclude-SameEnd none none h = refl
conclude-SameEnd none (some y) h = absurd h
conclude-SameEnd (some x) none h = absurd h
conclude-SameEnd (some x) (some y) h = ground arith

-- The scan from a state with `k` added to every count.
abbrev pub plus : Scan → Scan → Scan
plus s k = record {
  sq = s.sq + k.sq;
  cu = s.cu + k.cu;
  pa = s.pa + k.pa;
  dollars = s.dollars + k.dollars;
  backticks = s.backticks + k.backticks;
}

scan_char-plus :
    (c : ℕ) (s t k : Scan) → scan_char c s ≡ some t → scan_char c (plus s k) ≡ some (plus t k)
unfolding scan_char
scan_char-plus c s t k h = ground arith

-- Only the early return depends on how deep the scan starts.
pub scan-plus :
    (xs : Text) (s t k : Scan) → scan xs s ≡ some t → scan xs (plus s k) ≡ some (plus t k)
unfolding scan
scan-plus [] s t k h = ground arith
scan-plus (c ∷ cs) s t k h = elim (Option-cases (scan_char c s)) [
  | inl e ↦ absurd (none-ne-some t (rw (e, scan) at h))
  | inr (s', e) ↦ rw (scan_char-plus c s s' k e, scan) (scan-plus cs s' t k (rw (e, scan) at h))
]

pub plus_start : (s : Scan) → plus start s ≡ s
plus_start s = ground arith

-- An inline-safe text leaves every scan as it was, up to an even count of `$` and of backticks.
pub safe_scan :
    (xs : Text) (s : Scan)
    → classify_inline_safety xs ≡ inline_safe
    → (t : Scan) × (scan xs s ≡ some t) × Same s t
unfolding classify_inline_safety finish
safe_scan xs s h = elim (Option-cases (scan xs start)) [
  | inl e ↦ absurd (ground arith)
  | inr (t, e) ↦
      (plus t s, ap (scan xs) (sym (plus_start s)) ∙ scan-plus xs start t s e, ground arith)
]

Same-refl : (s : Scan) → Same s s
Same-refl s = ground arith

Same-sym : (s t : Scan) → Same s t → Same t s
Same-sym s t h = ground arith

Same-trans : (s t u : Scan) → Same s t → Same t u → Same s u
Same-trans s t u h k = ground arith

SameEnd-refl : (a : Option Scan) → SameEnd a a
SameEnd-refl none = tt
SameEnd-refl (some s) = Same-refl s

SameEnd-trans : (a b c : Option Scan) → SameEnd a b → SameEnd b c → SameEnd a c
SameEnd-trans none none none h k = tt
SameEnd-trans none none (some z) h k = k
SameEnd-trans none (some y) c h k = absurd h
SameEnd-trans (some x) none c h k = absurd h
SameEnd-trans (some x) (some y) none h k = k
SameEnd-trans (some x) (some y) (some z) h k = Same-trans x y z h k

-- Texts that no scan tells apart.
abbrev pub Equi : Text → Text → Type 0
Equi xs ys = (s : Scan) → SameEnd (scan xs s) (scan ys s)

pub Equi-refl : (xs : Text) → Equi xs xs
Equi-refl xs s = SameEnd-refl (scan xs s)

pub Equi-trans : (xs ys zs : Text) → Equi xs ys → Equi ys zs → Equi xs zs
Equi-trans xs ys zs h k s = SameEnd-trans (scan xs s) (scan ys s) (scan zs s) (h s) (k s)

then_scan-SameEnd :
    (a b : Option Scan) (zs ws : Text)
    → SameEnd a b
    → Equi zs ws
    → SameEnd (then_scan a zs) (then_scan b ws)
then_scan-SameEnd none none zs ws h k = tt
then_scan-SameEnd none (some y) zs ws h k = absurd h
then_scan-SameEnd (some x) none zs ws h k = absurd h
then_scan-SameEnd (some x) (some y) zs ws h k =
    SameEnd-trans (scan zs x) (scan zs y) (scan ws y) (scan-Same zs x y h) (k y)

pub Equi-append : (xs ys zs ws : Text) → Equi xs ys → Equi zs ws → Equi (xs ++ zs) (ys ++ ws)
Equi-append xs ys zs ws h k s =
    rw (scan-append xs zs s, scan-append ys ws s)
      (then_scan-SameEnd (scan xs s) (scan ys s) zs ws (h s) k)

SameEnd-sym : (a b : Option Scan) → SameEnd a b → SameEnd b a
SameEnd-sym none none h = tt
SameEnd-sym none (some y) h = h
SameEnd-sym (some x) none h = h
SameEnd-sym (some x) (some y) h = Same-sym x y h

pub Equi-sym : (xs ys : Text) → Equi xs ys → Equi ys xs
Equi-sym xs ys h s = SameEnd-sym (scan xs s) (scan ys s) (h s)

-- A text that leaves every scan as it was adds nothing.
pub Equi-of_scan :
    (xs : Text) → ((s : Scan) → (t : Scan) × (scan xs s ≡ some t) × Same s t) → Equi xs []
unfolding scan
Equi-of_scan xs h s = let (t, e, same) = h s in rw e (Same-sym s t same)

pub Equi-of_safe : (xs : Text) → classify_inline_safety xs ≡ inline_safe → Equi xs []
Equi-of_safe xs h = Equi-of_scan xs (λ s. safe_scan xs s h)

pub Equi-append_safe : (xs ys : Text) → classify_inline_safety ys ≡ inline_safe → Equi (xs ++ ys) xs
Equi-append_safe xs ys h =
    subst (λ t. Equi (xs ++ ys) t) (append-nil xs)
      (Equi-append xs xs ys [] (Equi-refl xs) (Equi-of_safe ys h))

pub classify-Equi :
    (xs ys : Text) → Equi xs ys → classify_inline_safety xs ≡ classify_inline_safety ys
unfolding classify_inline_safety
classify-Equi xs ys h = conclude-SameEnd (scan xs start) (scan ys start) (h start)
