-- ===== src/Sync/Room/Greeted/Reached.antt =====
-- The first frame of every session is its welcome, whatever steps come between.
use nisaba.Prelude.{
  ℕ, ◌+◌, ◌≡◌, refl, sym, ap, subst, ltb, leb, Bool, true, false, Option, none, some, [], ◌∷◌, Text,
  length, Bool-cases, inl, inr, arith,
}
use nisaba.OrdMap
use nisaba.OrdMap.{OrdMap}
use nisaba.OrdMap.Order.{nat_ord}
use nisaba.OrdMap.Keys.{is_there}
use nisaba.Sync.Bytes.{Bytes}
use nisaba.Sync.Error.{SyncResult, ok, err}
use nisaba.Sync.Protocol.{Frame, CatchUp}
use nisaba.Sync.Presence.{expired}
use nisaba.Sync.Config.{Config, max_presence_bytes}
use nisaba.Sync.Roles.{Role}
use nisaba.Sync.Authority.{Loro, catchup}
use nisaba.Sync.Room.{
  Channel, Stores, TrySend, sent, full, closed, SessionSlot, DocRoom, PresenceBroadcaster, due,
  is_overdue, roster_frame,
}
use nisaba.Sync.Room.Admission.{
  insert_session, welcomed, welcome_frame, payload_len, admit, join, is_mine, depart, leave,
}
use nisaba.Sync.Room.Updates.{relay_update}
use nisaba.Sync.Room.Upkeep.{
  new_room, open_room, broadcast, handle_presence, take_pending, flush_roster, handle_heartbeat,
  evict_for_rate_limit, sweep_presence,
}
use nisaba.Sync.Room.Kept.{push_update-guarded, snapshot_if_dirty-guarded}
use nisaba.Sync.Room.Steps.{
  Step, join_step, leave_step, push_step, relay_step, presence_step, take_step, roster_step,
  heartbeat_step, rate_limit_step, sweep_step, snapshot_step, Reach, here, next,
}
use nisaba.Sync.Room.Steps.{opened_room}
use nisaba.Sync.Room.Greeted.{
  is_welcome, starts_welcome, AreGreeted, insert-AreGreeted, remove-AreGreeted,
  evict_failed-AreGreeted, fanout_to-AreGreeted, announce-AreGreeted, refused-AreGreeted,
}

module _ ⦃l : Loro⦄ ⦃ch : Channel⦄ ⦃st : Stores l.Version⦄ where
  welcomed-AreGreeted :
      (now p : ℕ) (state : Bytes) (tx : ch.Sender) (close : ℕ) (frame : Frame) (r : DocRoom)
      (o : TrySend ch.Sender)
      → ch.try_send frame tx ≡ o
      → ch.taken tx ≡ []
      → is_welcome frame ≡ true
      → AreGreeted r.sessions
      → AreGreeted (welcomed now p state tx close frame r o).0.sessions
  unfolding welcomed insert_session
  welcomed-AreGreeted now p state tx close frame r (sent tx') e t w h =
      announce-AreGreeted now p state (insert_session p tx' close r) (
        insert-AreGreeted p (record { tx = tx'; generation = r.next_gen + 1; close = close })
          r.sessions (rw (ch.taken_sent frame tx tx' e, t) w) h)
  welcomed-AreGreeted now p state tx close frame r full e t w h =
      refused-AreGreeted p true tx close r h
  welcomed-AreGreeted now p state tx close frame r closed e t w h =
      refused-AreGreeted p false tx close r h

  admit-AreGreeted :
      (now p : ℕ) (role : Role) (state : Bytes) (tx : ch.Sender) (close : ℕ) (r : DocRoom)
      (o : SyncResult CatchUp)
      → ch.taken tx ≡ []
      → AreGreeted r.sessions
      → AreGreeted (admit now p role state tx close r o).0.sessions
  unfolding admit
  admit-AreGreeted now p role state tx close r (err e) t h = h
  admit-AreGreeted now p role state tx close r (ok c) t h =
      elim (Bool-cases (ltb r.config.max_snapshot_bytes (payload_len c))) [
        | inl e ↦ rw e h
        | inr e ↦ rw e (
            welcomed-AreGreeted now p state tx close (welcome_frame role c r) r
              (ch.try_send (welcome_frame role c r) tx) refl t refl h)
      ]

  join-AreGreeted :
      (now p : ℕ) (role : Role) (vv state : Bytes) (tx : ch.Sender) (close : ℕ) (r : DocRoom)
      → ch.taken tx ≡ []
      → AreGreeted r.sessions
      → AreGreeted (join now p role vv state tx close r).0.sessions
  unfolding join
  join-AreGreeted now p role vv state tx close r t h =
      elim (Bool-cases (leb r.config.max_peers_per_doc (length r.gate.peers))) [
        | inl e ↦ rw e h
        | inr e ↦ elim (Bool-cases (is_there (OrdMap.get p r.sessions))) [
          | inl f ↦ rw (e, f) h
          | inr f ↦
              rw (e, f) (admit-AreGreeted now p role state tx close r (catchup vv r.authority) t h)
        ]
      ]

  leave-AreGreeted :
      (now p g : ℕ) (r : DocRoom) → AreGreeted r.sessions → AreGreeted (leave now p g r).0.sessions
  unfolding leave depart
  leave-AreGreeted now p g r h = elim (Bool-cases (is_mine g (OrdMap.get p r.sessions))) [
    | inl e ↦ rw e (fanout_to-AreGreeted _ none _ (remove-AreGreeted p r.sessions h))
    | inr e ↦ rw e h
  ]

  broadcast-AreGreeted :
      (b : PresenceBroadcaster) (is_due : Bool) (r : DocRoom)
      → AreGreeted r.sessions
      → AreGreeted (broadcast (b, is_due) r).sessions
  broadcast-AreGreeted b true r h =
      let told = record r { presence_bcast = b } in
      fanout_to-AreGreeted (roster_frame told) none told h
  broadcast-AreGreeted b false r h = h

  handle_presence-AreGreeted :
      (now p : ℕ) (state : Bytes) (r : DocRoom)
      → AreGreeted r.sessions
      → AreGreeted (handle_presence now p state r).0.sessions
  unfolding handle_presence
  handle_presence-AreGreeted now p state r h =
      elim (Bool-cases (ltb max_presence_bytes (length state))) [
        | inl e ↦ rw e h
        | inr e ↦
            rw e
              (broadcast-AreGreeted (due now r.presence_bcast).0 (due now r.presence_bcast).1 _ h)
      ]

  take_pending-AreGreeted :
      (now : ℕ) (r : DocRoom) → AreGreeted r.sessions → AreGreeted (take_pending now r).0.sessions
  unfolding take_pending
  take_pending-AreGreeted now r h = elim (Bool-cases r.presence_bcast.pending) [
    | inl e ↦ elim (Bool-cases (is_overdue now r.presence_bcast)) [
      | inl f ↦ rw (e, f) h
      | inr f ↦ rw (e, f) h
    ]
    | inr e ↦ rw e h
  ]

  Step-AreGreeted : {r s : DocRoom} → Step r s → AreGreeted r.sessions → AreGreeted s.sessions
  unfolding relay_update flush_roster handle_heartbeat evict_for_rate_limit sweep_presence
  Step-AreGreeted (join_step r now peer role vv state tx close t) h =
      join-AreGreeted now peer role vv state tx close r t h
  Step-AreGreeted (leave_step r now peer generation) h = leave-AreGreeted now peer generation r h
  Step-AreGreeted (push_step r now sender role bytes) h =
      subst AreGreeted (ap (λ g. g.0) (sym (push_update-guarded now sender role bytes r))) h
  Step-AreGreeted (relay_step r now sender bytes) h = fanout_to-AreGreeted _ (some sender) r h
  Step-AreGreeted (presence_step r now sender state) h =
      handle_presence-AreGreeted now sender state r h
  Step-AreGreeted (take_step r now) h = take_pending-AreGreeted now r h
  Step-AreGreeted (roster_step r) h = fanout_to-AreGreeted (roster_frame r) none r h
  Step-AreGreeted (heartbeat_step r now sender) h = h
  Step-AreGreeted (rate_limit_step r peer) h =
      elim (Bool-cases (is_there (OrdMap.get peer r.sessions))) [
        | inl e ↦ rw e (evict_failed-AreGreeted (peer ∷ []) true r h)
        | inr e ↦ rw e h
      ]
  Step-AreGreeted (sweep_step r now) h = evict_failed-AreGreeted (expired now r.gate) true _ h
  Step-AreGreeted (snapshot_step r) h =
      subst AreGreeted (ap (λ g. g.0) (sym (snapshot_if_dirty-guarded r))) h

  Reach-AreGreeted : {r s : DocRoom} → Reach r s → AreGreeted r.sessions → AreGreeted s.sessions
  Reach-AreGreeted here h = h
  Reach-AreGreeted (next reached step) h = Step-AreGreeted step (Reach-AreGreeted reached h)

  get-AreGreeted :
      (p : ℕ) (m : OrdMap ℕ SessionSlot) (slot : SessionSlot)
      → AreGreeted m
      → OrdMap.get p m ≡ some slot
      → starts_welcome (ch.taken slot.tx) ≡ true
  unfolding OrdMap.get
  get-AreGreeted p [] slot h e = absurd (ground (arith, e))
  get-AreGreeted p ((k, s) ∷ m) slot h e = ground (arith, e, h.0, get-AreGreeted p m slot h.1)

  -- In every room that any steps in any order lead to from a room that was opened, the first frame
  -- that each session's channel took is a welcome.
  pub Reach-greeted :
      (now : ℕ) (doc_id : Text) (log : st.Log) (snaps : st.Snapshots) (config : Config)
      (verifier : Text → Text → Option Bool) (r s : DocRoom) (p : ℕ) (slot : SessionSlot)
      → open_room now doc_id log snaps config verifier ≡ ok r
      → Reach r s
      → OrdMap.get p s.sessions ≡ some slot
      → starts_welcome (ch.taken slot.tx) ≡ true
  unfolding open_room
  Reach-greeted now doc_id log snaps config verifier r s p slot e reached found =
      get-AreGreeted p s.sessions slot
        (Reach-AreGreeted reached (
          opened_room (λ r. AreGreeted r.sessions) (new_room now doc_id log snaps config verifier) _
            r (λ doc. tt) e))
        found
