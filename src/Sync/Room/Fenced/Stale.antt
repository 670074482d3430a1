-- ===== src/Sync/Room/Fenced/Stale.antt =====
-- A leave with a generation that was drawn before another removes nobody.
use nisaba.Prelude.{
  ℕ, ◌+◌, ◌≤◌, ◌≡◌, refl, ap, ◌==◌, ltb, Bool, true, false, Option, none, some, [], ◌∷◌, length,
  Bool-cases, inl, inr, arith,
}
use nisaba.OrdMap
use nisaba.OrdMap.{OrdMap}
use nisaba.OrdMap.Order.{nat_ord}
use nisaba.OrdMap.Keys.{is_there}
use nisaba.Sync.Bytes.{Bytes}
use nisaba.Sync.Error.{ok}
use nisaba.Sync.Protocol.{Frame}
use nisaba.Sync.Presence
use nisaba.Sync.Presence.{expired}
use nisaba.Sync.Config.{max_presence_bytes}
use nisaba.Sync.Roles.{Role}
use nisaba.Sync.Authority.{Loro}
use nisaba.Sync.Room.{
  Channel, Stores, SessionSlot, DocRoom, PresenceBroadcaster, due, is_overdue, roster_frame,
}
use nisaba.Sync.Room.Admission.{JoinOutcome, join, is_mine, depart, leave}
use nisaba.Sync.Room.Updates.{relay_update}
use nisaba.Sync.Room.Upkeep.{
  broadcast, handle_presence, take_pending, flush_roster, handle_heartbeat, evict_for_rate_limit,
  sweep_presence,
}
use nisaba.Sync.Room.Renewed.{generation_of}
use nisaba.Sync.Room.Sound.{IsSound}
use nisaba.Sync.Room.Kept.{push_update-guarded, snapshot_if_dirty-guarded}
use nisaba.Sync.Room.Steps.{
  Step, join_step, leave_step, push_step, relay_step, presence_step, take_step, roster_step,
  heartbeat_step, rate_limit_step, sweep_step, snapshot_step, Reach, here, next,
}
use nisaba.Sync.Room.Fenced.{join-Drawn, join-next_gen, fanout_to-next_gen, evict_failed-next_gen}
use nisaba.Sync.Room.Steps.{Reach-IsSound}
use nisaba.Sync.Room.Admitted.{join-IsSound}

module _ ⦃l : Loro⦄ ⦃ch : Channel⦄ ⦃st : Stores l.Version⦄ where
  leave-next_gen : (now p g : ℕ) (r : DocRoom) → (leave now p g r).0.next_gen ≡ r.next_gen
  unfolding leave depart
  leave-next_gen now p g r = elim (Bool-cases (is_mine g (OrdMap.get p r.sessions))) [
    | inl e ↦ rw e (fanout_to-next_gen _ none _)
    | inr e ↦ rw e refl
  ]

  broadcast-next_gen :
      (b : PresenceBroadcaster) (is_due : Bool) (r : DocRoom)
      → (broadcast (b, is_due) r).next_gen ≡ r.next_gen
  broadcast-next_gen b true r =
      let told = record r { presence_bcast = b } in fanout_to-next_gen (roster_frame told) none told
  broadcast-next_gen b false r = refl

  handle_presence-next_gen :
      (now p : ℕ) (state : Bytes) (r : DocRoom)
      → (handle_presence now p state r).0.next_gen ≡ r.next_gen
  unfolding handle_presence
  handle_presence-next_gen now p state r =
      elim (Bool-cases (ltb max_presence_bytes (length state))) [
        | inl e ↦ rw e refl
        | inr e ↦ rw e (
            broadcast-next_gen (due now r.presence_bcast).0 (due now r.presence_bcast).1
              (record r { gate = Presence.upsert now p state r.gate }))
      ]

  take_pending-next_gen : (now : ℕ) (r : DocRoom) → (take_pending now r).0.next_gen ≡ r.next_gen
  unfolding take_pending
  take_pending-next_gen now r = elim (Bool-cases r.presence_bcast.pending) [
    | inl e ↦ elim (Bool-cases (is_overdue now r.presence_bcast)) [
      | inl f ↦ rw (e, f) refl
      | inr f ↦ rw (e, f) refl
    ]
    | inr e ↦ rw e refl
  ]

  evict_for_rate_limit-next_gen :
      (p : ℕ) (r : DocRoom) → (evict_for_rate_limit p r).next_gen ≡ r.next_gen
  unfolding evict_for_rate_limit
  evict_for_rate_limit-next_gen p r = elim (Bool-cases (is_there (OrdMap.get p r.sessions))) [
    | inl e ↦ rw e (evict_failed-next_gen (p ∷ []) true r)
    | inr e ↦ rw e refl
  ]

  Step-next_gen : {r s : DocRoom} → Step r s → r.next_gen ≤ s.next_gen
  unfolding relay_update flush_roster handle_heartbeat sweep_presence
  Step-next_gen (join_step r now peer role vv state tx close t) =
      join-next_gen now peer role vv state tx close r
  Step-next_gen (leave_step r now peer generation) =
      omega (arith, leave-next_gen now peer generation r)
  Step-next_gen (push_step r now sender role bytes) =
      omega (arith, ap (λ g. g.2) (push_update-guarded now sender role bytes r))
  Step-next_gen (relay_step r now sender bytes) =
      omega (arith, fanout_to-next_gen (Frame.update bytes) (some sender) r)
  Step-next_gen (presence_step r now sender state) =
      omega (arith, handle_presence-next_gen now sender state r)
  Step-next_gen (take_step r now) = omega (arith, take_pending-next_gen now r)
  Step-next_gen (roster_step r) = omega (arith, fanout_to-next_gen (roster_frame r) none r)
  Step-next_gen (heartbeat_step r now sender) = omega arith
  Step-next_gen (rate_limit_step r peer) = omega (arith, evict_for_rate_limit-next_gen peer r)
  Step-next_gen (sweep_step r now) = omega (
    arith,
    evict_failed-next_gen (expired now r.gate) true
        (record r { gate = (Presence.sweep now r.gate).0 }),
  )
  Step-next_gen (snapshot_step r) = omega (arith, ap (λ g. g.2) (snapshot_if_dirty-guarded r))

  Reach-next_gen : {r s : DocRoom} → Reach r s → r.next_gen ≤ s.next_gen
  Reach-next_gen here = omega arith
  Reach-next_gen (next reached step) = omega (arith, Reach-next_gen reached, Step-next_gen step)

  is_mine_other :
      (g h : ℕ) (o : Option SessionSlot)
      → ((k : ℕ) → generation_of o ≡ some k → k ≡ h)
      → (h == g) ≡ false
      → is_mine g o ≡ false
  is_mine_other g h none f e = refl
  is_mine_other g h (some slot) f e = ground (arith, e, f slot.generation refl)

  -- When a peer was admitted to a sound room, and after any steps was admitted again, a leave with
  -- the first generation changes nothing and says so.
  pub leave-stale :
      (now p : ℕ) (role : Role) (vv state : Bytes) (tx : ch.Sender) (close : ℕ) (r s : DocRoom)
      (w : JoinOutcome) (now' : ℕ) (role' : Role) (vv' state' : Bytes) (tx' : ch.Sender)
      (close' : ℕ) (w' : JoinOutcome) (later : ℕ)
      → IsSound r
      → (join now p role vv state tx close r).1 ≡ ok w
      → Reach (join now p role vv state tx close r).0 s
      → (join now' p role' vv' state' tx' close' s).1 ≡ ok w'
      → leave later p w.generation (join now' p role' vv' state' tx' close' s).0
        ≡ ((join now' p role' vv' state' tx' close' s).0, false)
  unfolding leave
  leave-stale now p role vv state tx close r s w now' role' vv' state' tx' close' w' later h e
        reached e' =
      let first = join-Drawn now p role vv state tx close r w h e in
      let sound = Reach-IsSound reached (join-IsSound now p role vv state tx close r h) in
      let second = join-Drawn now' p role' vv' state' tx' close' s w' sound e' in
      let later_drawn = Reach-next_gen reached in
      rw
        (is_mine_other w.generation (s.next_gen + 1) _ second.owned
          (ground (arith, first.outcome, first.counted, later_drawn)))
        refl
