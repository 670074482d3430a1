-- ===== src/Sync/Room/Fenced.antt =====
-- The generations that a room draws ascend, so that a stale leave removes nobody.
pub mod Stale
use nisaba.Prelude.{
  ℕ, ◌+◌, ◌≤◌, ◌≡◌, refl, sym, ap, ◌∙◌, subst, ◌==◌, ltb, leb, Bool, true, false, if◌then◌else◌,
  Option, none, some, List, [], ◌∷◌, length, Bool-cases, inl, inr, arith,
}
use nisaba.OrdMap
use nisaba.OrdMap.{OrdMap}
use nisaba.OrdMap.Order.{nat_ord}
use nisaba.OrdMap.Laws.{IsSorted, insert-IsSorted}
use nisaba.OrdMap.Keys.{is_there}
use nisaba.Sync.Bytes.{Bytes}
use nisaba.Sync.Error.{SyncError, SyncResult, ok, err, ok_injective}
use nisaba.Sync.Protocol.{Frame, CatchUp}
use nisaba.Sync.Presence
use nisaba.Sync.Presence.{expired}
use nisaba.Sync.Config.{max_presence_bytes}
use nisaba.Sync.Roles.{Role}
use nisaba.Sync.Authority.{Loro, catchup}
use nisaba.Sync.Room.{
  Channel, Stores, TrySend, sent, full, closed, SessionSlot, DocRoom, PresenceBroadcaster, due,
  is_overdue, try_send_all, evict_peer, evict_peers, send_roster, evict_failed, fanout_to,
  roster_frame, close_code,
}
use nisaba.Sync.Room.Admission.{
  JoinOutcome, insert_session, announce, welcomed, welcome_frame, payload_len, admit, join, is_mine,
  depart, leave,
}
use nisaba.Sync.Room.Updates.{push_update, relay_update, snapshot_if_dirty}
use nisaba.Sync.Room.Upkeep.{
  broadcast, handle_presence, take_pending, flush_roster, handle_heartbeat, evict_for_rate_limit,
  sweep_presence,
}
use nisaba.Sync.Room.Renewed.{
  generation_of, generation_at, try_send_all-Renewed, Renewed-generation_at, Renewed-IsSorted,
}
use nisaba.Sync.Room.Sound.{SoundAt, IsSound}
use nisaba.Sync.Room.Admitted.{generation-insert}
use nisaba.Sync.Room.Evicted.{Evicted, evict_peers-Evicted}
use nisaba.Sync.Room.Kept.{guarded, push_update-guarded, snapshot_if_dirty-guarded}
use nisaba.Sync.Room.Steps.{
  Step, join_step, leave_step, push_step, relay_step, presence_step, take_step, roster_step,
  heartbeat_step, rate_limit_step, sweep_step, snapshot_step, Reach, here, next,
}

module _ ⦃l : Loro⦄ ⦃ch : Channel⦄ ⦃st : Stores l.Version⦄ where
  evict_peers-next_gen :
      (code : ℕ) (ps : List ℕ) (r : DocRoom) → (evict_peers code ps r).next_gen ≡ r.next_gen
  unfolding evict_peers evict_peer
  evict_peers-next_gen code [] r = refl
  evict_peers-next_gen code (p ∷ ps) r = evict_peers-next_gen code ps (evict_peer code p r)

  pub evict_failed-next_gen :
      (ps : List ℕ) (resync : Bool) (r : DocRoom) → (evict_failed ps resync r).next_gen ≡ r.next_gen
  unfolding evict_failed send_roster
  evict_failed-next_gen [] resync r = refl
  evict_failed-next_gen (p ∷ ps) resync r = evict_peers-next_gen (close_code resync) (p ∷ ps) r

  pub fanout_to-next_gen :
      (frame : Frame) (except : Option ℕ) (r : DocRoom)
      → (fanout_to frame except r).next_gen ≡ r.next_gen
  unfolding fanout_to
  fanout_to-next_gen frame except r =
      evict_failed-next_gen (try_send_all frame except r.sessions).1 true
        (record r { sessions = (try_send_all frame except r.sessions).0 })

  evict_failed-generation :
      (ps : List ℕ) (resync : Bool) (r : DocRoom) (q g : ℕ)
      → IsSorted r.sessions
      → IsSorted r.gate.peers
      → generation_at q (evict_failed ps resync r).sessions ≡ some g
      → generation_at q r.sessions ≡ some g
  unfolding evict_failed send_roster
  evict_failed-generation [] resync r q g a b e = e
  evict_failed-generation (p ∷ ps) resync r q g a b e =
      let evicted = evict_peers (close_code resync) (p ∷ ps) r in
      let h = evict_peers-Evicted (close_code resync) (p ∷ ps) r a b in
      (h.kept q g (
        sym (
          Renewed-generation_at q evicted.sessions _
            (try_send_all-Renewed (roster_frame evicted) none evicted.sessions))
        ∙ e)).1

  -- A session that a frame finds is one that was there.
  fanout_to-generation :
      (frame : Frame) (except : Option ℕ) (r : DocRoom) (q g : ℕ)
      → IsSorted r.sessions
      → IsSorted r.gate.peers
      → generation_at q (fanout_to frame except r).sessions ≡ some g
      → generation_at q r.sessions ≡ some g
  unfolding fanout_to
  fanout_to-generation frame except r q g a b e =
      let h = try_send_all-Renewed frame except r.sessions in
      sym (Renewed-generation_at q r.sessions _ h)
      ∙ evict_failed-generation (try_send_all frame except r.sessions).1 true
          (record r { sessions = (try_send_all frame except r.sessions).0 }) q g
          (Renewed-IsSorted r.sessions _ h a) b e

  -- What a join that succeeds draws.
  pub record Drawn (p : ℕ) (w : JoinOutcome) (r s : DocRoom) : Type 0 where
    pub outcome : w.generation ≡ r.next_gen + 1
    pub counted : s.next_gen ≡ r.next_gen + 1
    pub owned : (g : ℕ) → generation_at p s.sessions ≡ some g → g ≡ r.next_gen + 1

  announce-Drawn :
      (now p : ℕ) (state : Bytes) (tx : ch.Sender) (close : ℕ) (r : DocRoom) (w : JoinOutcome)
      → IsSound r
      → w.generation ≡ r.next_gen + 1
      → Drawn p w r (announce now p state (insert_session p tx close r))
  unfolding announce insert_session Presence.upsert
  announce-Drawn now p state tx close r w s e =
      let slot : SessionSlot = record { tx = tx; generation = r.next_gen + 1; close = close } in
      let present = record (insert_session p tx close r) {
        gate = Presence.upsert now p state r.gate;
      } in
      record {
        outcome = e;
        counted = fanout_to-next_gen (roster_frame present) none present;
        owned = λ g h.
            let before =
              fanout_to-generation (roster_frame present) none present p g
                (insert-IsSorted p slot r.sessions s.sorted)
                (insert-IsSorted p _ r.gate.peers s.roster_sorted) h in
            ground (arith, generation-insert p p g slot r.sessions before);
      }

  welcomed-Drawn :
      (now p : ℕ) (state : Bytes) (tx : ch.Sender) (close : ℕ) (frame : Frame) (r : DocRoom)
      (o : TrySend ch.Sender) (w : JoinOutcome)
      → IsSound r
      → (welcomed now p state tx close frame r o).1 ≡ ok w
      → Drawn p w r (welcomed now p state tx close frame r o).0
  unfolding welcomed
  welcomed-Drawn now p state tx close frame r (sent tx') w s e =
      announce-Drawn now p state tx' close r w s (ap (λ v. v.generation) (sym (ok_injective e)))
  welcomed-Drawn now p state tx close frame r full w s e = absurd (ground (arith, e))
  welcomed-Drawn now p state tx close frame r closed w s e = absurd (ground (arith, e))

  admit-Drawn :
      (now p : ℕ) (role : Role) (state : Bytes) (tx : ch.Sender) (close : ℕ) (r : DocRoom)
      (o : SyncResult CatchUp) (w : JoinOutcome)
      → IsSound r
      → (admit now p role state tx close r o).1 ≡ ok w
      → Drawn p w r (admit now p role state tx close r o).0
  unfolding admit
  admit-Drawn now p role state tx close r (err e) w s = λ h. absurd (ground (arith, h))
  admit-Drawn now p role state tx close r (ok c) w s =
      elim (Bool-cases (ltb r.config.max_snapshot_bytes (payload_len c))) [
        | inl e ↦ rw e (λ h. absurd (ground (arith, h)))
        | inr e ↦ rw e (λ h.
            welcomed-Drawn now p state tx close (welcome_frame role c r) r
              (ch.try_send (welcome_frame role c r) tx) w s h)
      ]

  pub join-Drawn :
      (now p : ℕ) (role : Role) (vv state : Bytes) (tx : ch.Sender) (close : ℕ) (r : DocRoom)
      (w : JoinOutcome)
      → IsSound r
      → (join now p role vv state tx close r).1 ≡ ok w
      → Drawn p w r (join now p role vv state tx close r).0
  unfolding join
  join-Drawn now p role vv state tx close r w s =
      elim (Bool-cases (leb r.config.max_peers_per_doc (length r.gate.peers))) [
        | inl e ↦ rw e (λ h. absurd (ground (arith, h)))
        | inr e ↦ elim (Bool-cases (is_there (OrdMap.get p r.sessions))) [
          | inl f ↦ rw (e, f) (λ h. absurd (ground (arith, h)))
          | inr f ↦
              rw (e, f)
                (λ h. admit-Drawn now p role state tx close r (catchup vv r.authority) w s h)
        ]
      ]

  welcomed-next_gen :
      (now p : ℕ) (state : Bytes) (tx : ch.Sender) (close : ℕ) (frame : Frame) (r : DocRoom)
      (o : TrySend ch.Sender)
      → r.next_gen ≤ (welcomed now p state tx close frame r o).0.next_gen
  unfolding welcomed announce insert_session
  welcomed-next_gen now p state tx close frame r (sent tx') = omega (
    arith,
    fanout_to-next_gen
        (roster_frame
          (record (insert_session p tx' close r) { gate = Presence.upsert now p state r.gate }))
        none (record (insert_session p tx' close r) { gate = Presence.upsert now p state r.gate }),
  )
  welcomed-next_gen now p state tx close frame r full =
      omega (arith, evict_failed-next_gen (p ∷ []) true (insert_session p tx close r))
  welcomed-next_gen now p state tx close frame r closed =
      omega (arith, evict_failed-next_gen (p ∷ []) false (insert_session p tx close r))

  admit-next_gen :
      (now p : ℕ) (role : Role) (state : Bytes) (tx : ch.Sender) (close : ℕ) (r : DocRoom)
      (o : SyncResult CatchUp)
      → r.next_gen ≤ (admit now p role state tx close r o).0.next_gen
  unfolding admit
  admit-next_gen now p role state tx close r (err e) = omega arith
  admit-next_gen now p role state tx close r (ok c) =
      elim (Bool-cases (ltb r.config.max_snapshot_bytes (payload_len c))) [
        | inl e ↦ rw e (omega arith)
        | inr e ↦ rw e (welcomed-next_gen now p state tx close _ r _)
      ]

  pub join-next_gen :
      (now p : ℕ) (role : Role) (vv state : Bytes) (tx : ch.Sender) (close : ℕ) (r : DocRoom)
      → r.next_gen ≤ (join now p role vv state tx close r).0.next_gen
  unfolding join
  join-next_gen now p role vv state tx close r =
      elim (Bool-cases (leb r.config.max_peers_per_doc (length r.gate.peers))) [
        | inl e ↦ rw e (omega arith)
        | inr e ↦ elim (Bool-cases (is_there (OrdMap.get p r.sessions))) [
          | inl f ↦ rw (e, f) (omega arith)
          | inr f ↦ rw (e, f) (admit-next_gen now p role state tx close r (catchup vv r.authority))
        ]
      ]
