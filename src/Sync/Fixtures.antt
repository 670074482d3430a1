-- ===== src/Sync/Fixtures.antt =====
-- A small replica, channel and store, and rooms over them.
use nisaba.Prelude.{
  ℕ, zero, suc, ◌+◌, leb, ◌==◌, ◌≡◌, sym, ap, Bool, true, false, Option, none, some, List, [], ◌∷◌,
  ◌++◌, Text, length, arith,
}
use nisaba.OrdMap.Order.{nat_ord}
use nisaba.Core.RedlineStyle.{scalars}
use nisaba.Sync.Bytes.{Bytes}
use nisaba.Sync.Protocol.{Frame}
use nisaba.Sync.Error.{ok}
use nisaba.Sync.Config.{default_config}
use nisaba.Sync.Roles.{author}
use nisaba.Sync.Authority.{Loro}
use nisaba.Sync.Room.{Channel, Stores, Snapshot, TrySend, sent, full, closed, DocRoom}
use nisaba.Sync.Room.Admission.{join}
use nisaba.Sync.Room.Upkeep.{new_room}
use nisaba.OrdMap.Order.{text_ord}

-- A replica that only appends: an update is a list of bytes, and an empty one does not decode.
abbrev pub append_import : Bytes → Bytes → Bytes × Bool
append_import [] doc = (doc, false)
append_import (b ∷ bs) doc = (doc ++ b ∷ bs, true)

instance abbrev pub appending : Loro
appending = record {
  Replica = Bytes;
  Version = ℕ;
  new_doc = [];
  import_bytes = append_import;
  fork = λ doc. doc;
  oplog_vv = λ doc. length doc;
  includes_vv = λ a b. leb b a;
  same_vv = λ a b. a == b;
  is_empty_vv = λ v. v == 0;
  decode_vv = λ b. some (length b);
  partial_end_vv = λ b. some (length b + 5);
  export_updates = λ v doc. some doc;
  export_all = λ doc. some doc;
  text_of = λ doc. doc;
  review_entries = λ doc. [];
}

-- A channel with some free slots, and the frames that it took.
abbrev pub slot_send : Frame → ℕ × List Frame → TrySend (ℕ × List Frame)
slot_send f (zero, fs) = full
slot_send f (suc n, fs) = sent (n, fs ++ f ∷ [])

abbrev pub sent_frames : List Frame → TrySend (ℕ × List Frame) → List Frame
sent_frames d (sent s) = s.1
sent_frames d full = d
sent_frames d closed = d

pub slot_taken :
    (f : Frame) (s s' : ℕ × List Frame) → slot_send f s ≡ sent s' → s'.1 ≡ s.1 ++ f ∷ []
slot_taken f (zero, fs) s' e = absurd (ground (arith, e))
slot_taken f (suc n, fs) s' e = ap (sent_frames []) (sym e)

instance abbrev pub slots : Channel
slots = record {
  Sender = ℕ × List Frame;
  try_send = slot_send;
  taken = λ s. s.1;
  taken_sent = slot_taken;
}

instance abbrev pub listed : Stores appending.Version
listed = record {
  Log = List Bytes;
  append = λ doc b log. (log ++ b ∷ [], ok tt);
  read_all = λ doc log. ok log;
  Snapshots = List (Snapshot ℕ);
  put = λ doc s snaps. (snaps ++ s ∷ [], ok tt);
  latest = λ doc snaps. ok none;
}

abbrev pub verifier : Text → Text → Option Bool
verifier doc t = some (leb (length t) 3)

abbrev pub opened : DocRoom
opened = new_room 10 (scalars "d") [] [] default_config verifier []

abbrev pub channel : ℕ × List Frame
channel = (3, [])

abbrev pub with_peer : DocRoom
with_peer = (join 11 7 author [] [] channel 0 opened).0
