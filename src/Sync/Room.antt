-- ===== src/Sync/Room.antt =====
-- services/sync/src/room.rs: the state of a document's room, and how it sends and evicts.
pub mod Admission
pub mod Updates
pub mod Upkeep
pub mod Renewed
pub mod Sound
pub mod Evicted
pub mod Admitted
pub mod Kept
pub mod Steps
pub mod Greeted
pub mod Fenced
pub mod Durable
pub mod Policy
use nisaba.Prelude.{
  ℕ, ◌-◌, ◌+◌, ◌==◌, ltb, leb, if◌then◌else◌, Bool, true, false, ◌||◌, Option, none, some, List, [],
  ◌∷◌, ◌++◌, ◌≡◌, Text, length,
}
use nisaba.OrdMap
use nisaba.OrdMap.{OrdMap}
use nisaba.OrdMap.Order.{nat_ord}
use nisaba.Sync.Bytes.{Bytes}
use nisaba.Sync.Protocol
use nisaba.Sync.Protocol.{Frame}
use nisaba.Sync.Error.{SyncError, SyncResult, ok, err}
use nisaba.Sync.Presence
use nisaba.Sync.Presence.{Presence, roster, encode_roster}
use nisaba.Sync.Config.{Config}
use nisaba.Sync.Authority.{Loro}

abbrev pub close_normal : ℕ
close_normal = 1000

abbrev pub close_resync_required : ℕ
close_resync_required = 4091

-- The outcome of `try_send`, with the sender after it.
pub data TrySend (S : Type 0) : Type 0 where
  sent : S → TrySend S
  full closed : TrySend S

-- The sending half of a bounded channel of frames (`mpsc::Sender`). The frames that it took go out in
-- the order in which they were sent.
pub record Channel : Type 1 where
  pub Sender : Type 0
  pub try_send : Frame → Sender → TrySend Sender
  pub taken : Sender → List Frame
  pub taken_sent :
      (f : Frame) (s s' : Sender) → try_send f s ≡ sent s' → taken s' ≡ taken s ++ f ∷ []

-- `Snapshot`
pub record Snapshot (V : Type 0) : Type 0 where
  pub vv : V
  pub bytes : Bytes

-- The methods of `OpLogStore` and `SnapshotStore` that a room calls, over their unknown states.
pub record Stores (V : Type 0) : Type 1 where
  pub Log : Type 0
  pub append : Text → Bytes → Log → Log × SyncResult (Unit {0})
  pub read_all : Text → Log → SyncResult (List Bytes)
  pub Snapshots : Type 0
  pub put : Text → Snapshot V → Snapshots → Snapshots × SyncResult (Unit {0})
  pub latest : Text → Snapshots → SyncResult (Option (Snapshot V))

pub record PresenceBroadcaster : Type 0 where
  pub last : Option ℕ
  pub interval : ℕ
  pub pending : Bool

-- `None => true`, or at least the interval since the last broadcast.
abbrev pub is_overdue : ℕ → PresenceBroadcaster → Bool
is_overdue now b = elim b.last [ none ↦ true | some last ↦ leb b.interval (now - last) ]

unfoldable pub due : ℕ → PresenceBroadcaster → PresenceBroadcaster × Bool
due now b =
    if is_overdue now b
    then (record b { last = some now; pending = false }, true)
    else (record b { pending = true }, false)

abbrev pub is_listed : ℕ → Option ℕ → Bool
is_listed peer none = false
is_listed peer (some p) = peer == p

module _ ⦃l : Loro⦄ ⦃ch : Channel⦄ ⦃st : Stores l.Version⦄ where
  -- The close signal is a cell that the session shares: `close` is its address in `signals`.
  pub record SessionSlot : Type 0 where
    pub tx : ch.Sender
    pub generation : ℕ
    pub close : ℕ

  -- `signals` holds the close signals, and the hash maps are kept in the order of the peers.
  pub record DocRoom : Type 0 where
    pub doc_id : Text
    pub authority : l.Replica
    pub sessions : OrdMap ℕ SessionSlot
    pub gate : Presence
    pub next_gen : ℕ
    pub updates_since_snapshot : ℕ
    pub last_active : Option ℕ
    pub op_log : st.Log
    pub snapshots : st.Snapshots
    pub config : Config
    pub presence_bcast : PresenceBroadcaster
    pub seed_verifier : Text → Text → Option Bool
    pub review_touched : OrdMap ℕ ℕ
    pub signals : OrdMap ℕ ℕ

  abbrev pub touch : ℕ → DocRoom → DocRoom
  touch now r = record r { last_active = some now }

  abbrev pub is_empty : DocRoom → Bool
  is_empty r = elim r.sessions [ [] ↦ true | ◌∷◌ e m ↦ false ]

  abbrev pub is_idle : ℕ → ℕ → DocRoom → Bool
  is_idle now ttl r = elim r.last_active [ none ↦ true | some t ↦ leb ttl (now - t) ]

  abbrev pub last_active_hint : ℕ → DocRoom → ℕ
  last_active_hint now r = elim r.last_active [ none ↦ now | some t ↦ t ]

  -- The sessions and the failed peers, after a session took the frame or refused it.
  abbrev pub after_send :
      ℕ
      → SessionSlot
      → TrySend ch.Sender
      → OrdMap ℕ SessionSlot × List ℕ
      → OrdMap ℕ SessionSlot × List ℕ
  after_send p slot (sent tx) (m, failed) = ((p, record slot { tx = tx }) ∷ m, failed)
  after_send p slot full (m, failed) = ((p, slot) ∷ m, p ∷ failed)
  after_send p slot closed (m, failed) = ((p, slot) ∷ m, p ∷ failed)

  unfoldable pub try_send_all :
      Frame → Option ℕ → OrdMap ℕ SessionSlot → OrdMap ℕ SessionSlot × List ℕ
  try_send_all frame except [] = ([], [])
  try_send_all frame except ((p, slot) ∷ m) =
      let rest = try_send_all frame except m in
      if is_listed p except
      then ((p, slot) ∷ rest.0, rest.1)
      else after_send p slot (ch.try_send frame slot.tx) rest

  -- The close signal of a session that is there is set.
  abbrev pub store_close : ℕ → Option SessionSlot → OrdMap ℕ ℕ → OrdMap ℕ ℕ
  store_close code none signals = signals
  store_close code (some slot) signals = OrdMap.insert slot.close code signals

  unfoldable pub evict_peer : ℕ → ℕ → DocRoom → DocRoom
  unfolding OrdMap.get OrdMap.insert OrdMap.remove Presence.remove
  evict_peer code p r = record r {
    signals = store_close code (OrdMap.get p r.sessions) r.signals;
    sessions = OrdMap.remove p r.sessions;
    gate = (Presence.remove p r.gate).0;
  }

  unfoldable pub evict_peers : ℕ → List ℕ → DocRoom → DocRoom
  unfolding evict_peer
  evict_peers code [] r = r
  evict_peers code (p ∷ ps) r = evict_peers code ps (evict_peer code p r)

  abbrev pub close_code : Bool → ℕ
  close_code true = close_resync_required
  close_code false = close_normal

  abbrev pub roster_frame : DocRoom → Frame
  roster_frame r = Protocol.presence (encode_roster (roster r.gate))

  -- The roster sent to all, whatever fails.
  unfoldable pub send_roster : DocRoom → DocRoom
  unfolding try_send_all roster encode_roster
  send_roster r = record r { sessions = (try_send_all (roster_frame r) none r.sessions).0 }

  unfoldable pub evict_failed : List ℕ → Bool → DocRoom → DocRoom
  unfolding evict_peers send_roster
  evict_failed [] resync r = r
  evict_failed (p ∷ ps) resync r = send_roster (evict_peers (close_code resync) (p ∷ ps) r)

  unfoldable pub fanout_to : Frame → Option ℕ → DocRoom → DocRoom
  unfolding try_send_all evict_failed
  fanout_to frame except r =
      let (m, failed) = try_send_all frame except r.sessions in
      evict_failed failed true (record r { sessions = m })

  abbrev pub fanout : Frame → DocRoom → DocRoom
  fanout frame r = fanout_to frame none r

  abbrev pub fanout_except : Frame → ℕ → DocRoom → DocRoom
  fanout_except frame sender r = fanout_to frame (some sender) r
