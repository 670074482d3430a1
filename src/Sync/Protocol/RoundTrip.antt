-- ===== src/Sync/Protocol/RoundTrip.antt =====
-- What the encoder writes the decoder reads.
use nisaba.Prelude.{
  ℕ, ◌≤◌, ◌<◌, ◌≡◌, refl, sym, ap, ◌∙◌, ◌++◌, append-nil, append_assoc, length, length-append, ltb,
  true, false, some, [], ◌∷◌, Text, All, u32_max, arith,
}
use nisaba.Sync.Bytes.{
  Bytes, to_be_bytes, capacity, from_be_bytes-to_be_bytes, length-to_be_bytes, take-append,
  drop-append,
}
use nisaba.Sync.Utf8.{is_scalar, as_bytes, from_utf8-as_bytes}
use nisaba.Sync.Protocol.{
  ok, Frame, hello, welcome, update, snapshot, presence, heartbeat, error, bye, joined,
  joined_no_catch_up, CatchUp, nothing, updates, snapshot_of, write_u16, write_u64, write_bytes,
  write_str, encode_fields, encode, read_u8, read_be, read_len, read_bytes, read_str, decode_fields,
  decode, msg_type, tag, MsgType, hello_type, welcome_type, update_type, snapshot_type,
  presence_type, heartbeat_type, error_type, bye_type, type_byte, from_u8, WelcomeStatus,
  status_byte, status_of, catch_up_writes, read_catch_up,
}

read_be-to_be_bytes :
    (w v : ℕ) (rest : Bytes) → v < capacity w → read_be w (to_be_bytes w v ++ rest) ≡ ok (v, rest)
unfolding read_be
read_be-to_be_bytes w v rest h =
    rw
      (
        take-append w (to_be_bytes w v) rest (sym (length-to_be_bytes w v)),
        drop-append w (to_be_bytes w v) rest (sym (length-to_be_bytes w v)),
        from_be_bytes-to_be_bytes w v h,
        enough,
      )
      refl
  where
    enough : ltb (length (to_be_bytes w v ++ rest)) w ≡ false
    enough = ground (arith, length-append (to_be_bytes w v) rest, length-to_be_bytes w v)

abbrev blob : Bytes → Bytes
blob b = to_be_bytes 4 (length b) ++ b

module _ (max_blob : ℕ) (small : max_blob ≤ u32_max) where
  write_blob : (b : Bytes) → length b ≤ max_blob → write_bytes b ≡ some (blob b)
  unfolding write_bytes
  write_blob b h = ground arith

  read_len-to_be_bytes :
      (n : ℕ) (rest : Bytes)
      → n ≤ max_blob
      → read_len max_blob (to_be_bytes 4 n ++ rest) ≡ ok (n, rest)
  unfolding read_len
  read_len-to_be_bytes n rest h = rw (read_be-to_be_bytes 4 n rest (omega arith)) (ground arith)

  read_blob :
      (b rest : Bytes) → length b ≤ max_blob → read_bytes max_blob (blob b ++ rest) ≡ ok (b, rest)
  unfolding read_bytes
  read_blob b rest h =
      rw
        (
          append_assoc (to_be_bytes 4 (length b)) b rest,
          read_len-to_be_bytes (length b) (b ++ rest) h,
          take-append (length b) b rest refl,
          drop-append (length b) b rest refl,
          enough,
        )
        refl
    where
      enough : ltb (length (b ++ rest)) (length b) ≡ false
      enough = ground (arith, length-append b rest)

  read_text :
      (t : Text) (rest : Bytes)
      → All (λ c. is_scalar c ≡ true) t
      → length (as_bytes t) ≤ max_blob
      → read_str max_blob (blob (as_bytes t) ++ rest) ≡ ok (t, rest)
  unfolding read_str
  read_text t rest s h = rw (read_blob (as_bytes t) rest h, from_utf8-as_bytes t s) refl

  read_last : (b : Bytes) → length b ≤ max_blob → read_bytes max_blob (blob b) ≡ ok (b, [])
  read_last b h = sym (ap (read_bytes max_blob) (append-nil (blob b))) ∙ read_blob b [] h

  read_last_text :
      (t : Text)
      → All (λ c. is_scalar c ≡ true) t
      → length (as_bytes t) ≤ max_blob
      → read_str max_blob (blob (as_bytes t)) ≡ ok (t, [])
  read_last_text t s h =
      sym (ap (read_str max_blob) (append-nil (blob (as_bytes t)))) ∙ read_text t [] s h

abbrev catch_up_bytes : CatchUp → Bytes
catch_up_bytes nothing = []
catch_up_bytes (updates b) = blob b
catch_up_bytes (snapshot_of b) = blob b

-- A text of scalar values whose bytes fit.
abbrev pub TextFits : ℕ → Text → Type 0
TextFits max_blob t = All (λ c. is_scalar c ≡ true) t × (length (as_bytes t) ≤ max_blob)

abbrev pub CatchUpFits : ℕ → CatchUp → Type 0
CatchUpFits max_blob nothing = Unit
CatchUpFits max_blob (updates b) = length b ≤ max_blob
CatchUpFits max_blob (snapshot_of b) = length b ≤ max_blob

-- The integers have their type's width, and the blobs fit the reader's bound.
abbrev pub IsSendable : ℕ → Frame → Type 0
IsSendable max_blob (hello proto doc_id peer token last_vv) =
    TextFits max_blob doc_id
    × (peer < capacity 8)
    × TextFits max_blob token
    × (length last_vv ≤ max_blob)
IsSendable max_blob (welcome status note catchup) =
    TextFits max_blob note × CatchUpFits max_blob catchup
IsSendable max_blob (update b) = length b ≤ max_blob
IsSendable max_blob (snapshot b) = length b ≤ max_blob
IsSendable max_blob (presence b) = length b ≤ max_blob
IsSendable max_blob heartbeat = Unit
IsSendable max_blob bye = Unit
IsSendable max_blob (error code msg) = (code < capacity 2) × TextFits max_blob msg

-- The bytes of a frame's fields.
abbrev field_bytes : Frame → Bytes
field_bytes (hello proto doc_id peer token last_vv) =
    proto
    ∷ (blob (as_bytes doc_id) ++ (to_be_bytes 8 peer ++ (blob (as_bytes token) ++ blob last_vv)))
field_bytes (welcome status note catchup) =
    status_byte status ∷ (blob (as_bytes note) ++ (tag catchup ∷ catch_up_bytes catchup))
field_bytes (update b) = blob b
field_bytes (snapshot b) = blob b
field_bytes (presence b) = blob b
field_bytes heartbeat = []
field_bytes bye = []
field_bytes (error code msg) = to_be_bytes 2 code ++ blob (as_bytes msg)

module _ (max_blob : ℕ) (small : max_blob ≤ u32_max) where
  write_text : (t : Text) → TextFits max_blob t → write_str t ≡ some (blob (as_bytes t))
  unfolding write_str
  write_text t h = write_blob max_blob small (as_bytes t) h.1

  write_catch_up :
      (c : CatchUp) → CatchUpFits max_blob c → catch_up_writes c ≡ some (catch_up_bytes c)
  write_catch_up nothing h = refl
  write_catch_up (updates b) h = write_blob max_blob small b h
  write_catch_up (snapshot_of b) h = write_blob max_blob small b h

  encode_fields_lem : (f : Frame) → IsSendable max_blob f → encode_fields f ≡ some (field_bytes f)
  unfolding encode_fields write_u16 write_u64
  encode_fields_lem (hello proto doc_id peer token last_vv) (d, p, t, v) =
      rw (write_text doc_id d, write_text token t, write_blob max_blob small last_vv v) refl
  encode_fields_lem (welcome status note catchup) (n, c) =
      rw (write_text note n, write_catch_up catchup c) refl
  encode_fields_lem (update b) h = write_blob max_blob small b h
  encode_fields_lem (snapshot b) h = write_blob max_blob small b h
  encode_fields_lem (presence b) h = write_blob max_blob small b h
  encode_fields_lem heartbeat h = refl
  encode_fields_lem bye h = refl
  encode_fields_lem (error code msg) (c, m) = rw (write_text msg m) refl

  read_catch_up_lem :
      (c : CatchUp)
      → CatchUpFits max_blob c
      → read_catch_up max_blob (tag c) (catch_up_bytes c) ≡ ok (c, [])
  unfolding tag
  read_catch_up_lem nothing h = refl
  read_catch_up_lem (updates b) h = rw (read_last max_blob small b h) refl
  read_catch_up_lem (snapshot_of b) h = rw (read_last max_blob small b h) refl

  status_of_lem : (s : WelcomeStatus) → status_of (status_byte s) ≡ ok s
  status_of_lem joined = refl
  status_of_lem joined_no_catch_up = refl

  decode_fields_lem :
      (f : Frame)
      → IsSendable max_blob f
      → decode_fields max_blob (msg_type f) (field_bytes f) ≡ ok f
  unfolding decode_fields msg_type read_u8
  decode_fields_lem (hello proto doc_id peer token last_vv) (d, p, t, v) =
      rw
        (
          read_text max_blob small doc_id _ d.0 d.1,
          read_be-to_be_bytes 8 peer _ p,
          read_text max_blob small token _ t.0 t.1,
          read_last max_blob small last_vv v,
        )
        refl
  decode_fields_lem (welcome status note catchup) (n, c) =
      rw
        (status_of_lem status, read_text max_blob small note _ n.0 n.1, read_catch_up_lem catchup c)
        refl
  decode_fields_lem (update b) h = rw (read_last max_blob small b h) refl
  decode_fields_lem (snapshot b) h = rw (read_last max_blob small b h) refl
  decode_fields_lem (presence b) h = rw (read_last max_blob small b h) refl
  decode_fields_lem heartbeat h = refl
  decode_fields_lem bye h = refl
  decode_fields_lem (error code msg) (c, m) =
      rw (read_be-to_be_bytes 2 code _ c, read_last_text max_blob small msg m.0 m.1) refl

from_u8_lem : (t : MsgType) → from_u8 (type_byte t) ≡ ok t
from_u8_lem hello_type = refl
from_u8_lem welcome_type = refl
from_u8_lem update_type = refl
from_u8_lem snapshot_type = refl
from_u8_lem presence_type = refl
from_u8_lem heartbeat_type = refl
from_u8_lem error_type = refl
from_u8_lem bye_type = refl

-- A frame whose texts are scalar values, whose integers fit their types and whose blobs are no
-- longer than the reader's bound, itself at most `u32::MAX`, is encoded without a panic and decoded
-- from its bytes.
pub decode-encode :
    (max_blob : ℕ) (f : Frame)
    → max_blob ≤ u32_max
    → IsSendable max_blob f
    → (b : Bytes) × (encode f ≡ some b) × (decode b max_blob ≡ ok f)
unfolding encode decode read_u8
decode-encode max_blob f small h = (
  type_byte (msg_type f) ∷ field_bytes f,
  rw (encode_fields_lem max_blob small f h) refl,
  rw (from_u8_lem (msg_type f), decode_fields_lem max_blob small f h) refl,
)
