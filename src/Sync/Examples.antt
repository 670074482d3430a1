-- ===== src/Sync/Examples.antt =====
-- Runs of the sync service's codecs, and the theorems at concrete inputs.
use nisaba.Prelude.{any, ◌==◌, true, sort_by, ◌≡◌, refl, some, List, [], ◌∷◌, ◌++◌, take, arith}
use nisaba.Sync.Bytes.{Bytes, to_be_bytes}
use nisaba.Sync.Utf8.{as_bytes}
use nisaba.Sync.Protocol.{
  Frame, hello, heartbeat as ping, encode, decode, ok, msg_type, encode_fields,
}
use nisaba.Sync.Protocol.RoundTrip.{IsSendable, decode-encode}
use nisaba.Sync.OpLog.{frame, append, read_loop, read_records}
use nisaba.Sync.OpLog.Replay.{
  log, read_loop_fuel, read_records-append, read_records_torn, append_after_torn,
}
use nisaba.OrdMap
use nisaba.OrdMap.Order.{nat_ord}
use nisaba.Sync.Presence.{
  Presence, heartbeat, contains, sweep, expired, stale_peers, encode_roster, decode_roster,
}
use nisaba.Sync.Presence.Expiry.{fresh, stale_in, sweep_exact, sweep-heartbeat}
use nisaba.Sync.Presence.Roster.{decode_roster-encode_roster}

-- "é", the peer 7, the token "t" and two bytes of a version vector.
abbrev greeting : Frame
greeting = hello 2 (0xe9 ∷ []) 7 (b't' ∷ []) (1 ∷ 2 ∷ [])

greeting-IsSendable : IsSendable 64 greeting
unfolding as_bytes
greeting-IsSendable =
    (((refl, tt), omega arith), omega arith, ((refl, tt), omega arith), omega arith)

decode-encode_example : (b : Bytes) × (encode greeting ≡ some b) × (decode b 64 ≡ ok greeting)
decode-encode_example = decode-encode 64 greeting (omega arith) greeting-IsSendable

heartbeat_test : encode ping ≡ some (6 ∷ [])
unfolding encode encode_fields msg_type
heartbeat_test = refl

abbrev updates : List Bytes
updates = (1 ∷ 2 ∷ []) ∷ [] ∷ (3 ∷ []) ∷ []

read_loop_fuel_example : read_loop 9 (0 ∷ 0 ∷ 0 ∷ 1 ∷ 5 ∷ []) ≡ read_loop 5 (0 ∷ 0 ∷ 0 ∷ 1 ∷ 5 ∷ [])
read_loop_fuel_example = read_loop_fuel 9 5 (0 ∷ 0 ∷ 0 ∷ 1 ∷ 5 ∷ []) (omega arith) (omega arith)

read_records-append_example :
    (file : Bytes) × (append (log updates) (4 ∷ 5 ∷ []) ≡ some file)
    × (read_records file ≡ updates ++ (4 ∷ 5 ∷ []) ∷ [])
read_records-append_example = read_records-append updates (4 ∷ 5 ∷ []) (omega arith) (omega arith)

read_records_torn_example : read_records (log updates ++ take 5 (frame (8 ∷ 9 ∷ []))) ≡ updates
unfolding frame to_be_bytes
read_records_torn_example =
    read_records_torn updates (8 ∷ 9 ∷ []) 5 (omega arith) (omega arith) (omega arith)

-- An update of ten bytes of which one was written.
abbrev lost : Bytes
lost = 0 ∷ 1 ∷ 2 ∷ 3 ∷ 4 ∷ 5 ∷ 6 ∷ 7 ∷ 8 ∷ 9 ∷ []

append_after_torn_example :
    (file : Bytes) × (append (log updates ++ (to_be_bytes 4 10 ++ 0 ∷ [])) (7 ∷ []) ≡ some file)
    × (read_records file ≡ updates)
unfolding frame to_be_bytes
append_after_torn_example =
    append_after_torn updates lost (0 ∷ []) (7 ∷ []) (omega arith) (omega arith) (omega arith)
      (omega arith)

-- Peer 4 was last seen at 100, peer 9 at 1500.
abbrev room : Presence
room = record {
  ttl = 1000;
  peers =
      (4, record { state = 1 ∷ []; last_seen = 100 })
      ∷ (9, record { state = []; last_seen = 1500 })
      ∷ [];
}

room_test : (sweep 2000 room).1 ≡ 4 ∷ []
unfolding sweep expired stale_peers sort_by
room_test = refl

sweep_exact_example :
    (OrdMap.get 4 (sweep 2000 room).0.peers ≡ fresh 2000 1000 (OrdMap.get 4 room.peers))
    × (any (λ k. k == 4) (sweep 2000 room).1 ≡ stale_in 2000 1000 (OrdMap.get 4 room.peers))
sweep_exact_example = sweep_exact 2000 4 room ((refl, tt), (tt, tt))

sweep-heartbeat_example : contains 4 (sweep 2000 (heartbeat 1200 4 room)).0 ≡ true
unfolding OrdMap.get
sweep-heartbeat_example =
    sweep-heartbeat 1200 2000 4 room (record { state = 1 ∷ []; last_seen = 100 })
      ((refl, tt), (tt, tt)) refl (omega arith)

decode_roster-encode_roster_example :
    decode_roster (encode_roster ((4, 1 ∷ []) ∷ (9, []) ∷ [])) ≡ some ((4, 1 ∷ []) ∷ (9, []) ∷ [])
decode_roster-encode_roster_example =
    decode_roster-encode_roster ((4, 1 ∷ []) ∷ (9, []) ∷ []) (omega arith) (omega arith)
