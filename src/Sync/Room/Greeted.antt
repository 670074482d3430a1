-- ===== src/Sync/Room/Greeted.antt =====
-- Sessions whose first frame is a welcome: sending and evicting leave them so.
pub mod Reached
use nisaba.Prelude.{
  ℕ, ◌+◌, ◌≡◌, refl, sym, ap, ◌∙◌, subst, ltb, leb, Bool, true, false, Option, none, some, List, [],
  ◌∷◌, ◌++◌, Text, length, Bool-cases, inl, inr, arith,
}
use nisaba.OrdMap
use nisaba.OrdMap.{OrdMap}
use nisaba.OrdMap.Order.{nat_ord}
use nisaba.OrdMap.Keys.{is_there}
use nisaba.Sync.Bytes.{Bytes}
use nisaba.Sync.Error.{SyncError, SyncResult, ok, err}
use nisaba.Sync.Protocol.{Frame, CatchUp, WelcomeStatus}
use nisaba.Sync.Presence
use nisaba.Sync.Presence.{expired}
use nisaba.Sync.Config.{Config, max_presence_bytes}
use nisaba.Sync.Roles.{Role}
use nisaba.Sync.Authority.{Loro, catchup}
use nisaba.Sync.Room.{
  Channel, Stores, TrySend, sent, full, closed, SessionSlot, DocRoom, PresenceBroadcaster, due,
  is_overdue, after_send, try_send_all, is_listed, evict_peer, evict_peers, send_roster,
  evict_failed, fanout_to, roster_frame, close_code,
}
use nisaba.Sync.Room.Admission.{
  insert_session, announce, welcomed, welcome_frame, status_for, payload_len, admit, join, is_mine,
  depart, leave,
}
use nisaba.Sync.Room.Updates.{push_update, relay_update, snapshot_if_dirty}
use nisaba.Sync.Room.Upkeep.{
  new_room, room_of, open_room, broadcast, handle_presence, take_pending, flush_roster,
  handle_heartbeat, evict_for_rate_limit, sweep_presence,
}
use nisaba.Sync.Room.Kept.{guarded, push_update-guarded, snapshot_if_dirty-guarded}
use nisaba.Sync.Room.Steps.{
  Step, join_step, leave_step, push_step, relay_step, presence_step, take_step, roster_step,
  heartbeat_step, rate_limit_step, sweep_step, snapshot_step, Reach, here, next,
}

abbrev pub is_welcome : Frame → Bool
is_welcome (Frame.welcome status note catchup) = true
is_welcome f = false

abbrev pub starts_welcome : List Frame → Bool
starts_welcome [] = false
starts_welcome (f ∷ fs) = is_welcome f

starts_welcome-append :
    (xs ys : List Frame) → starts_welcome xs ≡ true → starts_welcome (xs ++ ys) ≡ true
starts_welcome-append [] ys h = absurd (ground (arith, h))
starts_welcome-append (x ∷ xs) ys h = h

module _ ⦃l : Loro⦄ ⦃ch : Channel⦄ ⦃st : Stores l.Version⦄ where
  abbrev pub IsGreeted : SessionSlot → Type 0
  IsGreeted slot = starts_welcome (ch.taken slot.tx) ≡ true

  -- Every session's frames start with a welcome.
  abbrev pub AreGreeted : OrdMap ℕ SessionSlot → Type 0
  AreGreeted [] = Unit
  AreGreeted ((p, slot) ∷ m) = (starts_welcome (ch.taken slot.tx) ≡ true) × AreGreeted m

  pub insert-AreGreeted :
      (p : ℕ) (slot : SessionSlot) (m : OrdMap ℕ SessionSlot)
      → IsGreeted slot
      → AreGreeted m
      → AreGreeted (OrdMap.insert p slot m)
  unfolding OrdMap.insert
  insert-AreGreeted p slot [] g h = (g, tt)
  insert-AreGreeted p slot ((k, s) ∷ m) g h =
      ground (arith, insert-AreGreeted p slot m g h.1, g, h.0, h.1)

  pub remove-AreGreeted :
      (p : ℕ) (m : OrdMap ℕ SessionSlot) → AreGreeted m → AreGreeted (OrdMap.remove p m)
  unfolding OrdMap.remove
  remove-AreGreeted p [] h = tt
  remove-AreGreeted p ((k, s) ∷ m) h = ground (arith, remove-AreGreeted p m h.1, h.0, h.1)

  after_send-AreGreeted :
      (p : ℕ) (frame : Frame) (slot : SessionSlot) (o : TrySend ch.Sender)
      (rest : OrdMap ℕ SessionSlot × List ℕ)
      → ch.try_send frame slot.tx ≡ o
      → IsGreeted slot
      → AreGreeted rest.0
      → AreGreeted (after_send p slot o rest).0
  after_send-AreGreeted p frame slot (sent tx) (m, failed) e g h = (
    rw (ch.taken_sent frame slot.tx tx e) (starts_welcome-append (ch.taken slot.tx) (frame ∷ []) g),
    h,
  )
  after_send-AreGreeted p frame slot full (m, failed) e g h = (g, h)
  after_send-AreGreeted p frame slot closed (m, failed) e g h = (g, h)

  try_send_all-AreGreeted :
      (frame : Frame) (except : Option ℕ) (m : OrdMap ℕ SessionSlot)
      → AreGreeted m
      → AreGreeted (try_send_all frame except m).0
  unfolding try_send_all
  try_send_all-AreGreeted frame except [] h = tt
  try_send_all-AreGreeted frame except ((p, s) ∷ m) h = elim (Bool-cases (is_listed p except)) [
    | inl e ↦ rw e (h.0, try_send_all-AreGreeted frame except m h.1)
    | inr e ↦ rw e (
        after_send-AreGreeted p frame s (ch.try_send frame s.tx) (try_send_all frame except m) refl
          h.0 (try_send_all-AreGreeted frame except m h.1))
  ]

  evict_peers-AreGreeted :
      (code : ℕ) (ps : List ℕ) (r : DocRoom)
      → AreGreeted r.sessions
      → AreGreeted (evict_peers code ps r).sessions
  unfolding evict_peers evict_peer
  evict_peers-AreGreeted code [] r h = h
  evict_peers-AreGreeted code (p ∷ ps) r h =
      evict_peers-AreGreeted code ps (evict_peer code p r) (remove-AreGreeted p r.sessions h)

  pub evict_failed-AreGreeted :
      (ps : List ℕ) (resync : Bool) (r : DocRoom)
      → AreGreeted r.sessions
      → AreGreeted (evict_failed ps resync r).sessions
  unfolding evict_failed send_roster
  evict_failed-AreGreeted [] resync r h = h
  evict_failed-AreGreeted (p ∷ ps) resync r h =
      let evicted = evict_peers (close_code resync) (p ∷ ps) r in
      try_send_all-AreGreeted (roster_frame evicted) none evicted.sessions
        (evict_peers-AreGreeted (close_code resync) (p ∷ ps) r h)

  pub fanout_to-AreGreeted :
      (frame : Frame) (except : Option ℕ) (r : DocRoom)
      → AreGreeted r.sessions
      → AreGreeted (fanout_to frame except r).sessions
  unfolding fanout_to
  fanout_to-AreGreeted frame except r h =
      evict_failed-AreGreeted (try_send_all frame except r.sessions).1 true
        (record r { sessions = (try_send_all frame except r.sessions).0 })
        (try_send_all-AreGreeted frame except r.sessions h)

  pub announce-AreGreeted :
      (now p : ℕ) (state : Bytes) (r : DocRoom)
      → AreGreeted r.sessions
      → AreGreeted (announce now p state r).sessions
  unfolding announce
  announce-AreGreeted now p state r h =
      let present = record r { gate = Presence.upsert now p state r.gate } in
      fanout_to-AreGreeted (roster_frame present) none present h

  -- A session that was refused is gone again, whatever it took.
  remove-insert-AreGreeted :
      (p : ℕ) (slot : SessionSlot) (m : OrdMap ℕ SessionSlot)
      → AreGreeted m
      → AreGreeted (OrdMap.remove p (OrdMap.insert p slot m))
  unfolding OrdMap.remove OrdMap.insert
  remove-insert-AreGreeted p slot [] h = ground arith
  remove-insert-AreGreeted p slot ((k, s) ∷ m) h =
      ground (arith, remove-insert-AreGreeted p slot m h.1, h.0, h.1)

  pub refused-AreGreeted :
      (p : ℕ) (resync : Bool) (tx : ch.Sender) (close : ℕ) (r : DocRoom)
      → AreGreeted r.sessions
      → AreGreeted (evict_failed (p ∷ []) resync (insert_session p tx close r)).sessions
  unfolding evict_failed evict_peers evict_peer insert_session send_roster
  refused-AreGreeted p resync tx close r h =
      let evicted = evict_peer (close_code resync) p (insert_session p tx close r) in
      try_send_all-AreGreeted (roster_frame evicted) none evicted.sessions (
        remove-insert-AreGreeted p (record { tx = tx; generation = r.next_gen + 1; close = close })
          r.sessions h)
