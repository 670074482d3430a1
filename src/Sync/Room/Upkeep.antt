-- ===== src/Sync/Room/Upkeep.antt =====
-- services/sync/src/room.rs: opening a room, its presence frames, and the periodic sweeps.
use nisaba.Prelude.{
  ℕ, ltb, if◌then◌else◌, Bool, true, false, Option, none, some, List, [], ◌∷◌, Text, length,
}
use nisaba.OrdMap
use nisaba.OrdMap.Order.{nat_ord}
use nisaba.Sync.Bytes.{Bytes}
use nisaba.Sync.Error.{SyncResult, ok, err, limit_exceeded}
use nisaba.Sync.Presence
use nisaba.Sync.Presence.{Presence, roster, encode_roster}
use nisaba.Sync.Config.{Config, max_presence_bytes}
use nisaba.Sync.Authority.{Loro, from_snapshot, import_update, export_state}
use nisaba.Sync.Room.{
  Channel, Stores, Snapshot, DocRoom, PresenceBroadcaster, due, is_overdue, evict_failed, fanout,
  fanout_to, roster_frame, touch,
}
use nisaba.OrdMap.Keys.{is_there}

module _ ⦃l : Loro⦄ ⦃ch : Channel⦄ ⦃st : Stores l.Version⦄ where
  -- A record that fails to import is skipped.
  unfoldable pub replay : List Bytes → l.Replica → l.Replica
  unfolding import_update
  replay [] doc = doc
  replay (update ∷ rest) doc = replay rest (import_update update doc).0

  abbrev pub hydrated : SyncResult (Option (Snapshot l.Version)) → SyncResult l.Replica
  hydrated (err e) = err e
  hydrated (ok none) = ok l.new_doc
  hydrated (ok (some snap)) = from_snapshot snap.bytes

  abbrev pub replayed : SyncResult l.Replica → SyncResult (List Bytes) → SyncResult l.Replica
  replayed (err e) log = err e
  replayed (ok doc) (err e) = err e
  replayed (ok doc) (ok log) = ok (replay log doc)

  -- The room before anyone joins.
  abbrev pub new_room :
      ℕ → Text → st.Log → st.Snapshots → Config → (Text → Text → Option Bool) → l.Replica → DocRoom
  new_room now doc_id log snaps config verifier authority = record {
    doc_id = doc_id;
    authority = authority;
    sessions = [];
    gate = Presence.new config.presence_ttl_ms;
    next_gen = 0;
    updates_since_snapshot = 0;
    last_active = some now;
    op_log = log;
    snapshots = snaps;
    config = config;
    presence_bcast = record {
      last = none;
      interval = config.presence_coalesce_ms;
      pending = false;
    };
    seed_verifier = verifier;
    review_touched = [];
    signals = [];
  }

  abbrev pub room_of : (l.Replica → DocRoom) → SyncResult l.Replica → SyncResult DocRoom
  room_of make (err e) = err e
  room_of make (ok doc) = ok (make doc)

  unfoldable pub open_room :
      ℕ → Text → st.Log → st.Snapshots → Config → (Text → Text → Option Bool) → SyncResult DocRoom
  unfolding replay
  open_room now doc_id log snaps config verifier =
      room_of (new_room now doc_id log snaps config verifier)
        (replayed (hydrated (st.latest doc_id snaps)) (st.read_all doc_id log))

  -- The roster goes out when a broadcast is due.
  abbrev pub broadcast : PresenceBroadcaster × Bool → DocRoom → DocRoom
  broadcast (b, true) r =
      let told = record r { presence_bcast = b } in fanout (roster_frame told) told
  broadcast (b, false) r = record r { presence_bcast = b }

  unfoldable pub handle_presence : ℕ → ℕ → Bytes → DocRoom → DocRoom × SyncResult (Unit {0})
  unfolding Presence.upsert due fanout_to roster encode_roster
  handle_presence now sender state r =
      if ltb max_presence_bytes (length state) then (r, err limit_exceeded) else (
        touch now (
            broadcast (due now r.presence_bcast)
              (record r { gate = Presence.upsert now sender state r.gate })),
        ok tt,
      )

  -- What `flush_pending_presence` does while it holds the broadcaster: a pending roster is taken once
  -- the interval is over.
  unfoldable pub take_pending : ℕ → DocRoom → DocRoom × Bool
  take_pending now r =
      if r.presence_bcast.pending
      then (if is_overdue now r.presence_bcast
          then (
            record r {
              presence_bcast = record r.presence_bcast { last = some now; pending = false };
            },
            true,
          )
          else (r, false))
      else (r, false)

  -- What it does afterwards, while it holds the gate.
  unfoldable pub flush_roster : DocRoom → DocRoom
  unfolding fanout_to roster encode_roster
  flush_roster r = fanout (roster_frame r) r

  abbrev pub sent_taken : DocRoom × Bool → DocRoom × Bool
  sent_taken (r, true) = (flush_roster r, true)
  sent_taken (r, false) = (r, false)

  unfoldable pub flush_pending_presence : ℕ → DocRoom → DocRoom × Bool
  unfolding take_pending flush_roster
  flush_pending_presence now r = sent_taken (take_pending now r)

  unfoldable pub handle_heartbeat : ℕ → ℕ → DocRoom → DocRoom
  unfolding Presence.heartbeat
  handle_heartbeat now sender r =
      touch now (record r { gate = Presence.heartbeat now sender r.gate })

  unfoldable pub evict_for_rate_limit : ℕ → DocRoom → DocRoom
  unfolding evict_failed OrdMap.get
  evict_for_rate_limit peer r =
      if is_there (OrdMap.get peer r.sessions) then evict_failed (peer ∷ []) true r else r

  -- The sweep of the roster, then the eviction of the peers that it names.
  unfoldable pub sweep_presence : ℕ → DocRoom → DocRoom × List ℕ
  unfolding evict_failed Presence.sweep
  sweep_presence now r =
      let (swept, gone) = Presence.sweep now r.gate in
      (evict_failed gone true (record r { gate = swept }), gone)

  abbrev pub room_state : DocRoom → SyncResult (Option Bytes)
  room_state r = export_state r.authority
