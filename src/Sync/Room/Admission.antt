-- ===== src/Sync/Room/Admission.antt =====
-- services/sync/src/room.rs: joining and leaving a room.
use nisaba.Prelude.{
  ℕ, ◌+◌, ◌==◌, ltb, leb, if◌then◌else◌, Bool, true, false, Option, none, some, [], ◌∷◌, ◌++◌,
  length,
}
use nisaba.OrdMap
use nisaba.OrdMap.{OrdMap}
use nisaba.OrdMap.Order.{nat_ord}
use nisaba.OrdMap.Keys.{is_there}
use nisaba.Core.RedlineStyle.{scalars}
use nisaba.Sync.Bytes.{Bytes}
use nisaba.Sync.Protocol
use nisaba.Sync.Protocol.{
  Frame, CatchUp, nothing, updates, snapshot_of, WelcomeStatus, joined, joined_no_catch_up,
}
use nisaba.Sync.Error.{SyncResult, ok, err, limit_exceeded, handshake_error}
use nisaba.Sync.Presence
use nisaba.Sync.Presence.{Presence, roster, encode_roster}
use nisaba.Sync.Roles.{Role, role_name}
use nisaba.Sync.Authority.{Loro, catchup}
use nisaba.Sync.Room.{
  Channel, Stores, TrySend, sent, full, closed, SessionSlot, DocRoom, evict_failed, fanout,
  fanout_to, roster_frame, touch,
}

pub record JoinOutcome : Type 0 where
  pub welcome : Frame
  pub generation : ℕ

-- The size that the limit bounds.
abbrev pub payload_len : CatchUp → ℕ
payload_len nothing = 0
payload_len (updates b) = length b
payload_len (snapshot_of b) = length b

abbrev pub status_for : CatchUp → WelcomeStatus
status_for nothing = joined_no_catch_up
status_for (updates b) = joined
status_for (snapshot_of b) = joined

module _ ⦃l : Loro⦄ ⦃ch : Channel⦄ ⦃st : Stores l.Version⦄ where
  abbrev pub welcome_frame : Role → CatchUp → DocRoom → Frame
  welcome_frame role catch_up r =
      Protocol.welcome (status_for catch_up)
        (scalars "joined document " ++ (r.doc_id ++ (scalars " as " ++ role_name role))) catch_up

  -- The generation is drawn and the session inserted.
  unfoldable pub insert_session : ℕ → ch.Sender → ℕ → DocRoom → DocRoom
  unfolding OrdMap.insert
  insert_session peer tx close r = record r {
    next_gen = r.next_gen + 1;
    sessions =
        OrdMap.insert peer (record { tx = tx; generation = r.next_gen + 1; close = close })
          r.sessions;
  }

  -- The rest of a join whose welcome was sent: the roster, and the welcome for the caller.
  unfoldable pub announce : ℕ → ℕ → Bytes → DocRoom → DocRoom
  unfolding Presence.upsert fanout_to roster encode_roster
  announce now peer initial_state r =
      let present = record r { gate = Presence.upsert now peer initial_state r.gate } in
      touch now (fanout (roster_frame present) present)

  -- What follows the insertion of the session, by the outcome of sending the welcome. A peer that
  -- cannot take it is evicted again.
  unfoldable pub welcomed :
      ℕ
      → ℕ
      → Bytes
      → ch.Sender
      → ℕ
      → Frame
      → DocRoom
      → TrySend ch.Sender
      → DocRoom × SyncResult JoinOutcome
  unfolding announce insert_session evict_failed
  welcomed now peer initial_state tx close frame r (sent tx') = (
    announce now peer initial_state (insert_session peer tx' close r),
    ok (record { welcome = frame; generation = r.next_gen + 1 }),
  )
  welcomed now peer initial_state tx close frame r full =
      (evict_failed (peer ∷ []) true (insert_session peer tx close r), err limit_exceeded)
  welcomed now peer initial_state tx close frame r closed =
      (evict_failed (peer ∷ []) false (insert_session peer tx close r), err limit_exceeded)

  -- The admission of a peer whose catch-up was computed.
  unfoldable pub admit :
      ℕ
      → ℕ
      → Role
      → Bytes
      → ch.Sender
      → ℕ
      → DocRoom
      → SyncResult CatchUp
      → DocRoom × SyncResult JoinOutcome
  unfolding welcomed
  admit now peer role initial_state tx close r (err e) = (r, err e)
  admit now peer role initial_state tx close r (ok catch_up) =
      if ltb r.config.max_snapshot_bytes (payload_len catch_up)
      then (r, err limit_exceeded)
      else welcomed now peer initial_state tx close (welcome_frame role catch_up r) r
          (ch.try_send (welcome_frame role catch_up r) tx)

  unfoldable pub join :
      ℕ → ℕ → Role → Bytes → Bytes → ch.Sender → ℕ → DocRoom → DocRoom × SyncResult JoinOutcome
  unfolding admit catchup OrdMap.get
  join now peer role peer_vv initial_state tx close r =
      if leb r.config.max_peers_per_doc (Presence.len r.gate)
      then (r, err limit_exceeded)
      else if is_there (OrdMap.get peer r.sessions)
      then (r, err handshake_error)
      else admit now peer role initial_state tx close r (catchup peer_vv r.authority)

  -- Whether a session is the one that was admitted with the generation.
  abbrev pub is_mine : ℕ → Option SessionSlot → Bool
  is_mine generation none = false
  is_mine generation (some slot) = slot.generation == generation

  -- The session and the roster's entry are removed, and the roster sent.
  unfoldable pub depart : ℕ → ℕ → DocRoom → DocRoom
  unfolding OrdMap.remove Presence.remove fanout_to roster encode_roster
  depart now peer r =
      let gone = record r {
        sessions = OrdMap.remove peer r.sessions;
        gate = (Presence.remove peer r.gate).0;
      } in
      touch now (fanout (roster_frame gone) gone)

  unfoldable pub leave : ℕ → ℕ → ℕ → DocRoom → DocRoom × Bool
  unfolding depart OrdMap.get
  leave now peer generation r =
      if is_mine generation (OrdMap.get peer r.sessions)
      then (depart now peer r, true)
      else (r, false)
