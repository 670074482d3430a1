-- ===== src/Sync/Room/Admitted.antt =====
-- Joining and leaving keep the invariant of a room.
use nisaba.Prelude.{
  ℕ, ◌+◌, ◌≤◌, ◌<◌, ◌≡◌, refl, sym, ap, ◌∙◌, ◌==◌, ltb, leb, if◌then◌else◌, Bool, true, false,
  Option, none, some, [], ◌∷◌, length, Bool-cases, inl, inr, arith,
}
use nisaba.OrdMap
use nisaba.OrdMap.{OrdMap}
use nisaba.OrdMap.Order.{nat_ord}
use nisaba.OrdMap.Laws.{insert-IsSorted, remove-IsSorted}
use nisaba.OrdMap.Keys.{
  is_there, get-insert_if, get-remove_if, length-insert, length-remove_found, length-IsSubset,
}
use nisaba.Sync.Bytes.{Bytes}
use nisaba.Sync.Protocol.{Frame, CatchUp}
use nisaba.Sync.Presence.{PresenceEntry}
use nisaba.Sync.Presence
use nisaba.Sync.Roles.{Role}
use nisaba.Sync.Error.{SyncResult, ok, err}
use nisaba.Sync.Authority.{Loro, catchup}
use nisaba.Sync.Room.{
  Channel, Stores, TrySend, sent, full, closed, SessionSlot, DocRoom, evict_peer, evict_peers,
  evict_failed, close_code, roster_frame,
}
use nisaba.Sync.Room.Admission.{
  insert_session, announce, welcomed, payload_len, admit, join, is_mine, depart, leave,
}
use nisaba.Sync.Room.Renewed.{generation_of, generation_at}
use nisaba.Sync.Room.Sound.{
  SoundAt, IsSound, shrink, generation-remove, remove-SoundAt, send_roster-IsSound,
  fanout_to-IsSound,
}

module _ ⦃l : Loro⦄ ⦃ch : Channel⦄ ⦃st : Stores l.Version⦄ where
  pub generation-insert :
      (q p g : ℕ) (slot : SessionSlot) (m : OrdMap ℕ SessionSlot)
      → generation_at q (OrdMap.insert p slot m) ≡ some g
      → (if q == p then some slot.generation else generation_at q m) ≡ some g
  generation-insert q p g slot m e =
      let h : generation_of (if q == p then some slot else OrdMap.get q m) ≡ some g =
        ap generation_of (sym (get-insert_if q p slot m)) ∙ e in
      ground (arith, h)

  generation-is_there :
      (o : Option SessionSlot) → is_there o ≡ true → (g : ℕ) × (generation_of o ≡ some g)
  generation-is_there none h = absurd (ground (arith, h))
  generation-is_there (some slot) h = (slot.generation, refl)

  fewer_sessions :
      (n max : ℕ) (m : OrdMap ℕ SessionSlot) (peers : OrdMap ℕ PresenceEntry)
      → SoundAt m peers n max
      → length m ≤ length peers
  fewer_sessions n max m peers s =
      length-IsSubset m peers s.sorted s.roster_sorted
        (λ q e. let h = generation-is_there (OrdMap.get q m) e in s.present q h.0 h.1)

  -- A new session whose peer is put on the roster.
  admitted-SoundAt :
      (p n max : ℕ) (slot : SessionSlot) (v : PresenceEntry) (m : OrdMap ℕ SessionSlot)
      (peers : OrdMap ℕ PresenceEntry)
      → SoundAt m peers n max
      → slot.generation ≡ n + 1
      → length peers < max
      → SoundAt (OrdMap.insert p slot m) (OrdMap.insert p v peers) (n + 1) max
  admitted-SoundAt p n max slot v m peers s e lt = record {
    sorted = insert-IsSorted p slot m s.sorted;
    roster_sorted = insert-IsSorted p v peers s.roster_sorted;
    present = λ q g h.
        rw (get-insert_if q p v peers)
          (ground (arith, generation-insert q p g slot m h, s.present q g));
    drawn = λ q g h. ground (arith, generation-insert q p g slot m h, s.drawn q g);
    distinct = λ q k g h i. ground (
      arith,
      generation-insert q p g slot m h,
      generation-insert k p g slot m i,
      s.drawn q g,
      s.drawn k g,
      s.distinct q k g,
    );
    bounded = omega (arith, length-insert p slot m, fewer_sessions n max m peers s);
  }

  drawn_more :
      (n max : ℕ) (m : OrdMap ℕ SessionSlot) (peers : OrdMap ℕ PresenceEntry)
      → SoundAt m peers n max
      → SoundAt m peers (n + 1) max
  drawn_more n max m peers s = record {
    sorted = s.sorted;
    roster_sorted = s.roster_sorted;
    present = s.present;
    drawn = λ q g h. omega (arith, s.drawn q g h);
    distinct = s.distinct;
    bounded = s.bounded;
  }

  -- A session inserted and evicted again, with its generation drawn.
  refused-SoundAt :
      (p n max : ℕ) (slot : SessionSlot) (m : OrdMap ℕ SessionSlot) (peers : OrdMap ℕ PresenceEntry)
      → SoundAt m peers n max
      → SoundAt (OrdMap.remove p (OrdMap.insert p slot m)) (OrdMap.remove p peers) (n + 1) max
  refused-SoundAt p n max slot m peers s =
      let both = OrdMap.insert p slot m in
      let sorted = insert-IsSorted p slot m s.sorted in
      let there : is_there (OrdMap.get p both) ≡ true =
        rw (get-insert_if p p slot m) (ground arith) in
      drawn_more n max _ _ (
        shrink m (OrdMap.remove p both) peers (OrdMap.remove p peers) n max s
          (remove-IsSorted p both sorted) (remove-IsSorted p peers s.roster_sorted)
          (omega (arith, length-insert p slot m, length-remove_found p both there))
          (λ q g e.
            let h = generation-remove q p g both sorted e in
            let k = generation-insert q p g slot m h.1 in
            (ground (arith, h.0, k), λ t. rw (get-remove_if q p peers s.roster_sorted, h.0) t)))

  announce-IsSound :
      (now p : ℕ) (state : Bytes) (tx : ch.Sender) (close : ℕ) (r : DocRoom)
      → length r.gate.peers < r.config.max_peers_per_doc
      → IsSound r
      → IsSound (announce now p state (insert_session p tx close r))
  unfolding announce insert_session Presence.upsert
  announce-IsSound now p state tx close r lt s =
      let present = record (insert_session p tx close r) {
        gate = Presence.upsert now p state r.gate;
      } in
      fanout_to-IsSound (roster_frame present) none present (
        admitted-SoundAt p r.next_gen r.config.max_peers_per_doc
          (record { tx = tx; generation = r.next_gen + 1; close = close })
          (record { state = state; last_seen = now }) r.sessions r.gate.peers s refl lt)

  refused-IsSound :
      (p : ℕ) (resync : Bool) (tx : ch.Sender) (close : ℕ) (r : DocRoom)
      → IsSound r
      → IsSound (evict_failed (p ∷ []) resync (insert_session p tx close r))
  unfolding evict_failed evict_peers evict_peer insert_session Presence.remove
  refused-IsSound p resync tx close r s =
      send_roster-IsSound (evict_peer (close_code resync) p (insert_session p tx close r)) (
        refused-SoundAt p r.next_gen r.config.max_peers_per_doc
          (record { tx = tx; generation = r.next_gen + 1; close = close }) r.sessions r.gate.peers
          s)

  welcomed-IsSound :
      (now p : ℕ) (state : Bytes) (tx : ch.Sender) (close : ℕ) (frame : Frame) (r : DocRoom)
      (o : TrySend ch.Sender)
      → length r.gate.peers < r.config.max_peers_per_doc
      → IsSound r
      → IsSound (welcomed now p state tx close frame r o).0
  unfolding welcomed
  welcomed-IsSound now p state tx close frame r (sent tx') lt s =
      announce-IsSound now p state tx' close r lt s
  welcomed-IsSound now p state tx close frame r full lt s = refused-IsSound p true tx close r s
  welcomed-IsSound now p state tx close frame r closed lt s = refused-IsSound p false tx close r s

  admit-IsSound :
      (now p : ℕ) (role : Role) (state : Bytes) (tx : ch.Sender) (close : ℕ) (r : DocRoom)
      (o : SyncResult CatchUp)
      → length r.gate.peers < r.config.max_peers_per_doc
      → IsSound r
      → IsSound (admit now p role state tx close r o).0
  unfolding admit
  admit-IsSound now p role state tx close r (err e) lt s = s
  admit-IsSound now p role state tx close r (ok c) lt s =
      elim (Bool-cases (ltb r.config.max_snapshot_bytes (payload_len c))) [
        | inl e ↦ rw e s
        | inr e ↦ rw e (welcomed-IsSound now p state tx close _ r _ lt s)
      ]

  pub join-IsSound :
      (now p : ℕ) (role : Role) (vv state : Bytes) (tx : ch.Sender) (close : ℕ) (r : DocRoom)
      → IsSound r
      → IsSound (join now p role vv state tx close r).0
  unfolding join
  join-IsSound now p role vv state tx close r s =
      elim (Bool-cases (leb r.config.max_peers_per_doc (length r.gate.peers))) [
        | inl e ↦ rw e s
        | inr e ↦ elim (Bool-cases (is_there (OrdMap.get p r.sessions))) [
          | inl f ↦ rw (e, f) s
          | inr f ↦
              rw (e, f)
                (admit-IsSound now p role state tx close r (catchup vv r.authority)
                  (ground (arith, e)) s)
        ]
      ]

  pub depart-IsSound : (now p : ℕ) (r : DocRoom) → IsSound r → IsSound (depart now p r)
  unfolding depart Presence.remove
  depart-IsSound now p r s =
      let gone = record r {
        sessions = OrdMap.remove p r.sessions;
        gate = (Presence.remove p r.gate).0;
      } in
      fanout_to-IsSound (roster_frame gone) none gone
        (remove-SoundAt p r.next_gen r.config.max_peers_per_doc r.sessions r.gate.peers s)

  pub leave-IsSound : (now p g : ℕ) (r : DocRoom) → IsSound r → IsSound (leave now p g r).0
  unfolding leave
  leave-IsSound now p g r s = elim (Bool-cases (is_mine g (OrdMap.get p r.sessions))) [
    | inl e ↦ rw e (depart-IsSound now p r s)
    | inr e ↦ rw e s
  ]
