-- ===== src/Sync/Protocol.antt =====
-- services/sync/src/protocol.rs: the frames of the wire protocol, their encoder and decoder.
pub mod RoundTrip
use nisaba.Prelude.{
  ℕ, ◌++◌, length, take, drop, ◌==◌, ltb, leb, if◌then◌else◌, Option, none, some, List, [], ◌∷◌,
  Text, u32_max,
}
use nisaba.Sync.Bytes.{Bytes, to_be_bytes, from_be_bytes, from_be}
use nisaba.Sync.Utf8.{as_bytes, from_utf8, utf8_from}

pub data MsgType : Type 0 where
  hello_type welcome_type update_type snapshot_type presence_type heartbeat_type error_type
        bye_type :
      MsgType

abbrev pub type_byte : MsgType → ℕ
type_byte hello_type = 1
type_byte welcome_type = 2
type_byte update_type = 3
type_byte snapshot_type = 4
type_byte presence_type = 5
type_byte heartbeat_type = 6
type_byte error_type = 7
type_byte bye_type = 8

pub data ProtoError : Type 0 where
  truncated utf8 : ProtoError
  unknown_tag too_long : ℕ → ProtoError
  unexpected_msg : MsgType → ProtoError

pub data Result {ℓ} (A : Type ℓ) : Type ℓ where
  ok : A → Result A
  err : ProtoError → Result A

abbrev pub from_u8 : ℕ → Result MsgType
from_u8 b =
    if b == 1
    then ok hello_type
    else if b == 2
    then ok welcome_type
    else if b == 3
    then ok update_type
    else if b == 4
    then ok snapshot_type
    else if b == 5
    then ok presence_type
    else if b == 6
    then ok heartbeat_type
    else if b == 7
    then ok error_type
    else if b == 8
    then ok bye_type
    else err (unknown_tag b)

pub data WelcomeStatus : Type 0 where
  joined joined_no_catch_up : WelcomeStatus

abbrev pub status_byte : WelcomeStatus → ℕ
status_byte joined = 0
status_byte joined_no_catch_up = 1

pub data CatchUp : Type 0 where
  nothing : CatchUp
  updates snapshot_of : Bytes → CatchUp

unfoldable pub tag : CatchUp → ℕ
tag nothing = 0
tag (updates b) = 1
tag (snapshot_of b) = 2

-- The fields of `hello` are proto, doc_id, peer, token and last_vv.
pub data Frame : Type 0 where
  hello : ℕ → Text → ℕ → Text → Bytes → Frame
  welcome : WelcomeStatus → Text → CatchUp → Frame
  update snapshot presence : Bytes → Frame
  heartbeat bye : Frame
  error : ℕ → Text → Frame

unfoldable pub msg_type : Frame → MsgType
msg_type (hello proto doc_id peer token last_vv) = hello_type
msg_type (welcome status note catchup) = welcome_type
msg_type (update b) = update_type
msg_type (snapshot b) = snapshot_type
msg_type (presence b) = presence_type
msg_type heartbeat = heartbeat_type
msg_type (error code msg) = error_type
msg_type bye = bye_type

-- A write is `none` where the source panics.
abbrev pub Write : Type 0
Write = Option Bytes

abbrev pub write_u8 : ℕ → Write
write_u8 v = some (v ∷ [])

unfoldable pub write_u16 : ℕ → Write
unfolding to_be_bytes
write_u16 v = some (to_be_bytes 2 v)

unfoldable pub write_u64 : ℕ → Write
unfolding to_be_bytes
write_u64 v = some (to_be_bytes 8 v)

unfoldable pub write_bytes : Bytes → Write
unfolding to_be_bytes
write_bytes b = if leb (length b) u32_max then some (to_be_bytes 4 (length b) ++ b) else none

unfoldable pub write_str : Text → Write
unfolding write_bytes as_bytes
write_str s = write_bytes (as_bytes s)

abbrev pub append_write : Write → Write → Write
append_write none w = none
append_write (some a) none = none
append_write (some a) (some b) = some (a ++ b)

abbrev pub catch_up_writes : CatchUp → Write
catch_up_writes nothing = some []
catch_up_writes (updates b) = write_bytes b
catch_up_writes (snapshot_of b) = write_bytes b

-- The writes of the frame's fields.
unfoldable pub encode_fields : Frame → Write
unfolding write_u16 write_u64 write_bytes write_str tag
encode_fields (hello proto doc_id peer token last_vv) = append_write (write_u8 proto) (
    append_write (write_str doc_id)
      (append_write (write_u64 peer) (append_write (write_str token) (write_bytes last_vv))))
encode_fields (welcome status note catchup) = append_write (write_u8 (status_byte status)) (
    append_write (write_str note) (append_write (write_u8 (tag catchup)) (catch_up_writes catchup)))
encode_fields (update b) = write_bytes b
encode_fields (snapshot b) = write_bytes b
encode_fields (presence b) = write_bytes b
encode_fields heartbeat = some []
encode_fields bye = some []
encode_fields (error code msg) = append_write (write_u16 code) (write_str msg)

unfoldable pub encode : Frame → Write
unfolding msg_type encode_fields
encode f = append_write (write_u8 (type_byte (msg_type f))) (encode_fields f)

-- A read takes the bytes from the cursor's position on and gives what it read with the bytes after.
abbrev pub Read : Type 0 → Type 0
Read A = Bytes → Result (A × Bytes)

abbrev pub and_then : {A B : Type 0} → Result (A × Bytes) → (A → Bytes → Result B) → Result B
and_then (ok (a, rest)) k = k a rest
and_then (err e) k = err e

unfoldable pub read_u8 : Read ℕ
read_u8 [] = err truncated
read_u8 (b ∷ rest) = ok (b, rest)

-- An integer of `w` bytes.
unfoldable pub read_be : ℕ → Read ℕ
unfolding from_be
read_be w buf =
    if ltb (length buf) w then err truncated else ok (from_be_bytes (take w buf), drop w buf)

abbrev pub read_u16 : Read ℕ
read_u16 buf = read_be 2 buf

abbrev pub read_u64 : Read ℕ
read_u64 buf = read_be 8 buf

unfoldable pub read_len : ℕ → Read ℕ
unfolding read_be
read_len max_blob buf =
    and_then (read_be 4 buf)
      λ len rest. if ltb max_blob len then err (too_long len) else ok (len, rest)

unfoldable pub read_bytes : ℕ → Read Bytes
unfolding read_len
read_bytes max_blob buf =
    and_then (read_len max_blob buf)
      λ len rest. if ltb (length rest) len then err truncated else ok (take len rest, drop len rest)

abbrev pub utf8_or : Option Text → Bytes → Result (Text × Bytes)
utf8_or none rest = err utf8
utf8_or (some t) rest = ok (t, rest)

unfoldable pub read_str : ℕ → Read Text
unfolding read_bytes utf8_from
read_str max_blob buf =
    and_then (read_bytes max_blob buf) λ bytes rest. utf8_or (from_utf8 bytes) rest

abbrev pub status_of : ℕ → Result WelcomeStatus
status_of b =
    if b == 0 then ok joined else if b == 1 then ok joined_no_catch_up else err (unknown_tag b)

abbrev pub finish : {A : Type 0} → (A → Frame) → Result (A × Bytes) → Result Frame
finish f r = and_then r λ a rest. ok (f a)

abbrev pub read_catch_up : ℕ → ℕ → Bytes → Result (CatchUp × Bytes)
read_catch_up max_blob ctag buf =
    if ctag == 0
    then ok (nothing, buf)
    else if ctag == 1
    then and_then (read_bytes max_blob buf) (λ b rest. ok (updates b, rest))
    else if ctag == 2
    then and_then (read_bytes max_blob buf) (λ b rest. ok (snapshot_of b, rest))
    else err (unknown_tag ctag)

abbrev pub with_status : Result WelcomeStatus → (WelcomeStatus → Result Frame) → Result Frame
with_status (ok s) k = k s
with_status (err e) k = err e

unfoldable pub decode_fields : ℕ → MsgType → Bytes → Result Frame
unfolding read_u8 read_be read_bytes read_str
decode_fields max_blob hello_type buf = and_then (read_u8 buf) λ proto b1.
    and_then (read_str max_blob b1) λ doc_id b2. and_then (read_u64 b2) λ peer b3.
      and_then (read_str max_blob b3)
        λ token b4. finish (hello proto doc_id peer token) (read_bytes max_blob b4)
decode_fields max_blob welcome_type buf = and_then (read_u8 buf) λ s b1.
    with_status (status_of s) λ status. and_then (read_str max_blob b1) λ note b2.
      and_then (read_u8 b2) λ ctag b3. finish (welcome status note) (read_catch_up max_blob ctag b3)
decode_fields max_blob update_type buf = finish update (read_bytes max_blob buf)
decode_fields max_blob snapshot_type buf = finish snapshot (read_bytes max_blob buf)
decode_fields max_blob presence_type buf = finish presence (read_bytes max_blob buf)
decode_fields max_blob heartbeat_type buf = ok heartbeat
decode_fields max_blob error_type buf =
    and_then (read_u16 buf) λ code b1. finish (error code) (read_str max_blob b1)
decode_fields max_blob bye_type buf = ok bye

abbrev pub typed : ℕ → Result MsgType → Bytes → Result Frame
typed max_blob (ok t) buf = decode_fields max_blob t buf
typed max_blob (err e) buf = err e

unfoldable pub decode : Bytes → ℕ → Result Frame
unfolding read_u8 decode_fields
decode buf max_blob = and_then (read_u8 buf) λ t rest. typed max_blob (from_u8 t) rest
