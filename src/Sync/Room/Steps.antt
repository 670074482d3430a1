-- ===== src/Sync/Room/Steps.antt =====
-- The steps of a room, in any order, and the invariant of every room that they reach.
use nisaba.Prelude.{
  ℕ, ◌≡◌, subst, ltb, Bool, true, false, Option, none, some, [], ◌∷◌, Text, length, Bool-cases, inl,
  inr, arith,
}
use nisaba.OrdMap
use nisaba.OrdMap.Order.{nat_ord}
use nisaba.OrdMap.Keys.{is_there}
use nisaba.Sync.Bytes.{Bytes}
use nisaba.Sync.Roles.{Role}
use nisaba.Sync.Config.{Config, max_presence_bytes}
use nisaba.Sync.Presence
use nisaba.Sync.Presence.{Presence, PresenceEntry, seen, remove_all, expired}
use nisaba.Sync.Authority.{Loro}
use nisaba.Sync.Room.{Channel, Stores, DocRoom, PresenceBroadcaster, due, is_overdue, roster_frame}
use nisaba.Sync.Room.Admission.{join, leave}
use nisaba.Sync.Room.Updates.{push_update, relay_update, snapshot_if_dirty}
use nisaba.Sync.Room.Upkeep.{
  new_room, room_of, open_room, broadcast, handle_presence, take_pending, flush_roster,
  handle_heartbeat, evict_for_rate_limit, sweep_presence,
}
use nisaba.Sync.Room.Sound.{
  SoundAt, IsSound, insert-SoundAt, fanout_to-IsSound, evict_failed-IsSound,
}
use nisaba.Sync.Room.Admitted.{join-IsSound, leave-IsSound}
use nisaba.Sync.Room.Evicted.{sweep_presence-IsSound}
use nisaba.Sync.Error.{SyncResult, ok, err, ok_injective}
use nisaba.Sync.Room.Kept.{guarded-IsSound, push_update-guarded, snapshot_if_dirty-guarded}

module _ ⦃l : Loro⦄ ⦃ch : Channel⦄ ⦃st : Stores l.Version⦄ where
  -- What one task does while it holds a lock. A session joins with a channel that took no frame yet;
  -- an update is taken in and relayed in two steps, and a pending roster is taken and sent in two, so
  -- that others come between them.
  pub data Step : DocRoom → DocRoom → Type 0 where
    join_step :
        (r : DocRoom) (now peer : ℕ) (role : Role) (vv state : Bytes) (tx : ch.Sender) (close : ℕ)
        → ch.taken tx ≡ []
        → Step r (join now peer role vv state tx close r).0
    leave_step : (r : DocRoom) (now peer generation : ℕ) → Step r (leave now peer generation r).0
    push_step :
        (r : DocRoom) (now sender : ℕ) (role : Role) (bytes : Bytes)
        → Step r (push_update now sender role bytes r).0
    relay_step :
        (r : DocRoom) (now sender : ℕ) (bytes : Bytes) → Step r (relay_update now sender bytes r)
    presence_step :
        (r : DocRoom) (now sender : ℕ) (state : Bytes)
        → Step r (handle_presence now sender state r).0
    take_step : (r : DocRoom) (now : ℕ) → Step r (take_pending now r).0
    roster_step : (r : DocRoom) → Step r (flush_roster r)
    heartbeat_step : (r : DocRoom) (now sender : ℕ) → Step r (handle_heartbeat now sender r)
    rate_limit_step : (r : DocRoom) (peer : ℕ) → Step r (evict_for_rate_limit peer r)
    sweep_step : (r : DocRoom) (now : ℕ) → Step r (sweep_presence now r).0
    snapshot_step : (r : DocRoom) → Step r (snapshot_if_dirty r).0

  pub data Reach (r : DocRoom) : DocRoom → Type 0 where
    here : Reach r r
    next : {s t : DocRoom} → Reach r s → Step s t → Reach r t

  broadcast-IsSound :
      (b : PresenceBroadcaster) (is_due : Bool) (r : DocRoom)
      → IsSound r
      → IsSound (broadcast (b, is_due) r)
  broadcast-IsSound b true r s =
      let told = record r { presence_bcast = b } in
      fanout_to-IsSound (roster_frame told) none told s
  broadcast-IsSound b false r s = s

  handle_presence-IsSound :
      (now sender : ℕ) (state : Bytes) (r : DocRoom)
      → IsSound r
      → IsSound (handle_presence now sender state r).0
  unfolding handle_presence Presence.upsert
  handle_presence-IsSound now sender state r s =
      elim (Bool-cases (ltb max_presence_bytes (length state))) [
        | inl e ↦ rw e s
        | inr e ↦ rw e (
            broadcast-IsSound (due now r.presence_bcast).0 (due now r.presence_bcast).1 _
              (insert-SoundAt sender r.next_gen _ _ r.sessions r.gate.peers s))
      ]

  take_pending-IsSound : (now : ℕ) (r : DocRoom) → IsSound r → IsSound (take_pending now r).0
  unfolding take_pending
  take_pending-IsSound now r s = elim (Bool-cases r.presence_bcast.pending) [
    | inl e ↦ elim (Bool-cases (is_overdue now r.presence_bcast)) [
      | inl f ↦ rw (e, f) s
      | inr f ↦ rw (e, f) s
    ]
    | inr e ↦ rw e s
  ]

  seen-SoundAt :
      (now p : ℕ) (o : Option PresenceEntry) (r : DocRoom)
      → IsSound r
      → SoundAt r.sessions (seen now p o r.gate.peers) r.next_gen r.config.max_peers_per_doc
  seen-SoundAt now p none r s = s
  seen-SoundAt now p (some e) r s = insert-SoundAt p r.next_gen _ _ r.sessions r.gate.peers s

  handle_heartbeat-IsSound :
      (now p : ℕ) (r : DocRoom) → IsSound r → IsSound (handle_heartbeat now p r)
  unfolding handle_heartbeat Presence.heartbeat
  handle_heartbeat-IsSound now p r s = seen-SoundAt now p (OrdMap.get p r.gate.peers) r s

  evict_for_rate_limit-IsSound :
      (p : ℕ) (r : DocRoom) → IsSound r → IsSound (evict_for_rate_limit p r)
  unfolding evict_for_rate_limit
  evict_for_rate_limit-IsSound p r s = elim (Bool-cases (is_there (OrdMap.get p r.sessions))) [
    | inl e ↦ rw e (evict_failed-IsSound (p ∷ []) true r s)
    | inr e ↦ rw e s
  ]

  pub Step-IsSound : {r s : DocRoom} → Step r s → IsSound r → IsSound s
  unfolding relay_update flush_roster
  Step-IsSound (join_step r now peer role vv state tx close h) s =
      join-IsSound now peer role vv state tx close r s
  Step-IsSound (leave_step r now peer generation) s = leave-IsSound now peer generation r s
  Step-IsSound (push_step r now sender role bytes) s =
      guarded-IsSound r (push_update now sender role bytes r).0
        (push_update-guarded now sender role bytes r) s
  Step-IsSound (relay_step r now sender bytes) s = fanout_to-IsSound _ (some sender) r s
  Step-IsSound (presence_step r now sender state) s = handle_presence-IsSound now sender state r s
  Step-IsSound (take_step r now) s = take_pending-IsSound now r s
  Step-IsSound (roster_step r) s = fanout_to-IsSound (roster_frame r) none r s
  Step-IsSound (heartbeat_step r now sender) s = handle_heartbeat-IsSound now sender r s
  Step-IsSound (rate_limit_step r peer) s = evict_for_rate_limit-IsSound peer r s
  Step-IsSound (sweep_step r now) s = sweep_presence-IsSound now r s
  Step-IsSound (snapshot_step r) s =
      guarded-IsSound r (snapshot_if_dirty r).0 (snapshot_if_dirty-guarded r) s

  pub Reach-IsSound : {r s : DocRoom} → Reach r s → IsSound r → IsSound s
  Reach-IsSound here h = h
  Reach-IsSound (next reached step) h = Step-IsSound step (Reach-IsSound reached h)

  new_room-IsSound :
      (now : ℕ) (doc_id : Text) (log : st.Log) (snaps : st.Snapshots) (config : Config)
      (verifier : Text → Text → Option Bool) (doc : l.Replica)
      → IsSound (new_room now doc_id log snaps config verifier doc)
  unfolding OrdMap.get
  new_room-IsSound now doc_id log snaps config verifier doc = record {
    sorted = tt;
    roster_sorted = tt;
    present = λ p g e. absurd (ground (arith, e));
    drawn = λ p g e. absurd (ground (arith, e));
    distinct = λ p q g e f. absurd (ground (arith, e));
    bounded = omega arith;
  }

  pub opened_room :
      (P : DocRoom → Type 0) (make : l.Replica → DocRoom) (o : SyncResult l.Replica) (r : DocRoom)
      → ((doc : l.Replica) → P (make doc))
      → room_of make o ≡ ok r
      → P r
  opened_room P make (ok doc) r h e = subst P (ok_injective e) (h doc)
  opened_room P make (err x) r h e = absurd (ground (arith, e))

  -- In every room that any steps in any order lead to from a room that was opened, each session's
  -- peer is on the roster, the sessions have distinct generations that were drawn, and there are no
  -- more sessions than the limit allows.
  pub Reach-opened :
      (now : ℕ) (doc_id : Text) (log : st.Log) (snaps : st.Snapshots) (config : Config)
      (verifier : Text → Text → Option Bool) (r s : DocRoom)
      → open_room now doc_id log snaps config verifier ≡ ok r
      → Reach r s
      → IsSound s
  unfolding open_room
  Reach-opened now doc_id log snaps config verifier r s e reached = Reach-IsSound reached (
      opened_room IsSound (new_room now doc_id log snaps config verifier) _ r
        (λ doc. new_room-IsSound now doc_id log snaps config verifier doc) e)
