-- ===== src/Sync/OpLog.antt =====
-- services/sync/src/op_log.rs: the append-only log of updates, one file for each document.
pub mod Replay
use nisaba.Prelude.{
  ℕ, zero, suc, ◌++◌, length, take, drop, ltb, leb, if◌then◌else◌, Option, none, some, List, [],
  ◌∷◌, u32_max,
}
use nisaba.Sync.Bytes.{Bytes, to_be_bytes, from_be_bytes, from_be}

abbrev pub max_update_bytes : ℕ
max_update_bytes = 4194304

abbrev pub len_header : ℕ
len_header = 4

-- The length as `u32`, then the update.
unfoldable pub frame : Bytes → Bytes
unfolding to_be_bytes
frame update = to_be_bytes len_header (length update) ++ update

-- `append` on the contents of the document's file, or `none` where the update is refused.
unfoldable pub append : Bytes → Bytes → Option Bytes
unfolding frame
append file update = if leb (length update) u32_max then some (file ++ frame update) else none

-- The loop of `read_records`, on fuel.
unfoldable pub read_loop : ℕ → Bytes → List Bytes
unfolding from_be
read_loop zero file = []
read_loop (suc n) file =
    let len = from_be_bytes (take len_header file) in
    let body = drop len_header file in
    let rest = read_loop n (drop len body) in
    if ltb (length file) len_header
    then []
    else if ltb max_update_bytes len
    then []
    else if ltb (length body) len
    then []
    else take len body ∷ rest

-- Each record takes at least its header from the file, so that the file's length is enough fuel.
unfoldable pub read_records : Bytes → List Bytes
unfolding read_loop
read_records file = read_loop (length file) file
