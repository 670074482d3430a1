-- ===== src/Sync/Utf8.antt =====
-- UTF-8, as the standard library encodes and validates it.
use nisaba.Prelude.{
  ℕ, zero, suc, ◌+◌, ◌-◌, ◌*◌, ◌/◌, ◌%◌, ◌≤◌, ◌<◌, ◌≡◌, refl, ap, ◌∙◌, ◌&&◌, ◌||◌, ltb, leb,
  if◌then◌else◌, Bool, true, Bool-cases, ltb→lt, inl, inr, Option, none, some, [], ◌∷◌, ◌++◌, Text,
  All, arith,
}
use nisaba.Sync.Bytes.{Bytes}

abbrev pub is_scalar : ℕ → Bool
is_scalar c = ltb c 0xd800 || (leb 0xe000 c && leb c 0x10ffff)

-- The continuation byte that carries the lowest six bits.
abbrev pub cont : ℕ → ℕ
cont n = 0x80 + n % 64

abbrev pub two_bytes : ℕ → Bytes
two_bytes c = (0xc0 + c / 64) ∷ cont c ∷ []

abbrev pub three_bytes : ℕ → Bytes
three_bytes c = (0xe0 + c / 4096) ∷ cont (c / 64) ∷ cont c ∷ []

abbrev pub four_bytes : ℕ → Bytes
four_bytes c = (0xf0 + c / 262144) ∷ cont (c / 4096) ∷ cont (c / 64) ∷ cont c ∷ []

abbrev pub char_bytes : ℕ → Bytes
char_bytes c =
    if ltb c 0x80
    then c ∷ []
    else if ltb c 0x800
    then two_bytes c
    else if ltb c 0x10000
    then three_bytes c
    else four_bytes c

-- `str::as_bytes`.
unfoldable pub as_bytes : Text → Bytes
as_bytes [] = []
as_bytes (c ∷ cs) = char_bytes c ++ as_bytes cs

-- The bytes that a character still needs, its bits so far, and the least it may be.
pub record Pending : Type 0 where
  pub needs : ℕ
  pub bits : ℕ
  pub least : ℕ

abbrev pub idle : Pending
idle = record { needs = 0; bits = 0; least = 0 }

pub data Next : Type 0 where
  bad : Next
  more : Pending → Next
  complete : ℕ → Next

abbrev pub pending : ℕ → ℕ → ℕ → Pending
pending n b l = record { needs = n; bits = b; least = l }

abbrev pub lead : ℕ → Next
lead b =
    if ltb b 0x80
    then complete b
    else if leb 0xc0 b && ltb b 0xe0
    then more (pending 1 (b - 0xc0) 0x80)
    else if leb 0xe0 b && ltb b 0xf0
    then more (pending 2 (b - 0xe0) 0x800)
    else if leb 0xf0 b && ltb b 0xf8
    then more (pending 3 (b - 0xf0) 0x10000)
    else bad

abbrev pub last_byte : ℕ → ℕ → Next
last_byte bits least = if leb least bits && is_scalar bits then complete bits else bad

abbrev pub follow : ℕ → ℕ → ℕ → Next
follow zero bits least = last_byte bits least
follow (suc n) bits least = more (pending (suc n) bits least)

abbrev pub continued : ℕ → Pending → ℕ → Next
continued n p b =
    if leb 0x80 b && ltb b 0xc0 then follow n (p.bits * 64 + (b - 0x80)) p.least else bad

abbrev pub next_byte : Pending → ℕ → Next
next_byte p b = elim p.needs [ zero ↦ lead b | suc n ↦ continued n p b ]

abbrev pub push_char : ℕ → Option Text → Option Text
push_char c none = none
push_char c (some t) = some (c ∷ t)

unfoldable pub utf8_from : Pending → Bytes → Option Text
utf8_from p [] = elim p.needs [ zero ↦ some [] | suc n ↦ none ]
utf8_from p (b ∷ bs) = elim (next_byte p b) [
  | bad ↦ none
  | more q ↦ utf8_from q bs
  | complete c ↦ push_char c (utf8_from idle bs)
]

-- `std::str::from_utf8`.
abbrev pub from_utf8 : Bytes → Option Text
from_utf8 bs = utf8_from idle bs

lead_one : (c : ℕ) → c < 0x80 → lead c ≡ complete c
lead_one c h = ground arith

lead_two : (a : ℕ) → a < 32 → lead (0xc0 + a) ≡ more (pending 1 a 0x80)
lead_two a h = ground arith

lead_three : (a : ℕ) → a < 16 → lead (0xe0 + a) ≡ more (pending 2 a 0x800)
lead_three a h = ground arith

lead_four : (a : ℕ) → a < 8 → lead (0xf0 + a) ≡ more (pending 3 a 0x10000)
lead_four a h = ground arith

continued_more :
    (k bits least n : ℕ)
    → next_byte (pending (suc (suc k)) bits least) (cont n)
      ≡ more (pending (suc k) (bits * 64 + n % 64) least)
continued_more k bits least n = ground arith

continued_last :
    (bits least n c : ℕ)
    → bits * 64 + n % 64 ≡ c
    → least ≤ c
    → is_scalar c ≡ true
    → next_byte (pending 1 bits least) (cont n) ≡ complete c
continued_last bits least n c e l h = ground arith

step_more :
    (p q : Pending) (b : ℕ) (bs : Bytes)
    → next_byte p b ≡ more q
    → utf8_from p (b ∷ bs) ≡ utf8_from q bs
unfolding utf8_from
step_more p q b bs e = rw (e, utf8_from) refl

step_complete :
    (p : Pending) (b c : ℕ) (bs : Bytes)
    → next_byte p b ≡ complete c
    → utf8_from p (b ∷ bs) ≡ push_char c (utf8_from idle bs)
unfolding utf8_from
step_complete p b c bs e = rw (e, utf8_from) refl

one_byte_lem :
    (c : ℕ) (bs : Bytes) → c < 0x80 → utf8_from idle (c ∷ bs) ≡ push_char c (utf8_from idle bs)
one_byte_lem c bs h = step_complete idle c c bs (lead_one c h)

two_bytes_lem :
    (c : ℕ) (bs : Bytes)
    → 0x80 ≤ c
    → c < 0x800
    → is_scalar c ≡ true
    → utf8_from idle (two_bytes c ++ bs) ≡ push_char c (utf8_from idle bs)
two_bytes_lem c bs l h k =
    step_more idle (pending 1 (c / 64) 0x80) _ _ (lead_two (c / 64) (omega arith))
    ∙ step_complete _ _ c bs (continued_last (c / 64) 0x80 c c (omega arith) l k)

three_bytes_lem :
    (c : ℕ) (bs : Bytes)
    → 0x800 ≤ c
    → c < 0x10000
    → is_scalar c ≡ true
    → utf8_from idle (three_bytes c ++ bs) ≡ push_char c (utf8_from idle bs)
three_bytes_lem c bs l h k =
    step_more idle (pending 2 (c / 4096) 0x800) _ _ (lead_three (c / 4096) (omega arith))
    ∙ step_more _ _ _ _ (continued_more 0 (c / 4096) 0x800 (c / 64))
    ∙ step_complete _ _ c bs (continued_last _ 0x800 c c (omega arith) l k)

four_bytes_lem :
    (c : ℕ) (bs : Bytes)
    → 0x10000 ≤ c
    → c ≤ 0x10ffff
    → is_scalar c ≡ true
    → utf8_from idle (four_bytes c ++ bs) ≡ push_char c (utf8_from idle bs)
four_bytes_lem c bs l h k =
    step_more idle (pending 3 (c / 262144) 0x10000) _ _ (lead_four (c / 262144) (omega arith))
    ∙ step_more _ _ _ _ (continued_more 1 (c / 262144) 0x10000 (c / 4096))
    ∙ step_more _ _ _ _ (continued_more 0 _ 0x10000 (c / 64))
    ∙ step_complete _ _ c bs (continued_last _ 0x10000 c c (omega arith) l k)

scalar_max : (c : ℕ) → is_scalar c ≡ true → c ≤ 0x10ffff
scalar_max c h = ground arith

utf8_from-char_bytes :
    (c : ℕ) (bs : Bytes)
    → is_scalar c ≡ true
    → utf8_from idle (char_bytes c ++ bs) ≡ push_char c (utf8_from idle bs)
utf8_from-char_bytes c bs h = elim (Bool-cases (ltb c 0x80)) [
  | inl a ↦ rw a (one_byte_lem c bs (ltb→lt c 0x80 a))
  | inr a ↦ elim (Bool-cases (ltb c 0x800)) [
    | inl b ↦ rw (a, b) (two_bytes_lem c bs (ground arith) (ltb→lt c 0x800 b) h)
    | inr b ↦ elim (Bool-cases (ltb c 0x10000)) [
      | inl d ↦ rw (a, b, d) (three_bytes_lem c bs (ground arith) (ltb→lt c 0x10000 d) h)
      | inr d ↦ rw (a, b, d) (four_bytes_lem c bs (ground arith) (scalar_max c h) h)
    ]
  ]
]

utf8_from-append :
    (c : ℕ) (cs : Text)
    → is_scalar c ≡ true
    → utf8_from idle (as_bytes (c ∷ cs)) ≡ push_char c (utf8_from idle (as_bytes cs))
unfolding as_bytes
utf8_from-append c cs h = utf8_from-char_bytes c (as_bytes cs) h

pub from_utf8-as_bytes :
    (t : Text) → All (λ c. is_scalar c ≡ true) t → from_utf8 (as_bytes t) ≡ some t
unfolding as_bytes utf8_from
from_utf8-as_bytes [] h = refl
from_utf8-as_bytes (c ∷ cs) h =
    utf8_from-append c cs h.0 ∙ ap (push_char c) (from_utf8-as_bytes cs h.1)
