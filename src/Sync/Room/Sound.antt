-- ===== src/Sync/Room/Sound.antt =====
-- The invariant of a room, and that sending and evicting keep it.
use nisaba.Prelude.{
  ℕ, ◌≤◌, ◌≡◌, sym, ap, ◌∙◌, subst, ◌==◌, if◌then◌else◌, Bool, true, false, Option, none, some,
  List, [], ◌∷◌, length, arith,
}
use nisaba.OrdMap
use nisaba.OrdMap.{OrdMap}
use nisaba.OrdMap.Order.{nat_ord}
use nisaba.OrdMap.Laws.{IsSorted, insert-IsSorted, remove-IsSorted}
use nisaba.OrdMap.Keys.{is_there, get-insert_if, get-remove_if, length-remove}
use nisaba.Sync.Protocol.{Frame}
use nisaba.Sync.Presence.{PresenceEntry}
use nisaba.Sync.Presence
use nisaba.Sync.Authority.{Loro}
use nisaba.Sync.Room.{
  Channel, Stores, SessionSlot, DocRoom, try_send_all, evict_peer, evict_peers, send_roster,
  evict_failed, fanout_to, close_code, roster_frame,
}
use nisaba.Sync.Room.Renewed.{
  generation_of, generation_at, Renewed, try_send_all-Renewed, Renewed-generation_at,
  Renewed-IsSorted, Renewed-length,
}

module _ ⦃l : Loro⦄ ⦃ch : Channel⦄ ⦃st : Stores l.Version⦄ where
  -- Every session's peer is on the roster, the generations were drawn and no two sessions have the
  -- same, and there are at most `max` sessions.
  pub record SoundAt (m : OrdMap ℕ SessionSlot) (peers : OrdMap ℕ PresenceEntry) (n max : ℕ)
      : Type 0 where
    pub sorted : IsSorted m
    pub roster_sorted : IsSorted peers
    pub present : (p g : ℕ) → generation_at p m ≡ some g → is_there (OrdMap.get p peers) ≡ true
    pub drawn : (p g : ℕ) → generation_at p m ≡ some g → g ≤ n
    pub distinct : (p q g : ℕ) → generation_at p m ≡ some g → generation_at q m ≡ some g → p ≡ q
    pub bounded : length m ≤ max

  abbrev pub IsSound : DocRoom → Type 0
  IsSound r = SoundAt r.sessions r.gate.peers r.next_gen r.config.max_peers_per_doc

  pub generation-remove :
      (q p g : ℕ) (m : OrdMap ℕ SessionSlot)
      → IsSorted m
      → generation_at q (OrdMap.remove p m) ≡ some g
      → ((q == p) ≡ false) × (generation_at q m ≡ some g)
  generation-remove q p g m s e =
      let h : generation_of (if q == p then none else OrdMap.get q m) ≡ some g =
        ap generation_of (sym (get-remove_if q p m s)) ∙ e in
      ground (arith, h)

  -- Fewer sessions, each of whose peers stays on the roster.
  pub shrink :
      (m m' : OrdMap ℕ SessionSlot) (peers peers' : OrdMap ℕ PresenceEntry) (n max : ℕ)
      → SoundAt m peers n max
      → IsSorted m'
      → IsSorted peers'
      → length m' ≤ length m
      → ((p g : ℕ)
          → generation_at p m' ≡ some g
          → (generation_at p m ≡ some g)
            × (is_there (OrdMap.get p peers) ≡ true → is_there (OrdMap.get p peers') ≡ true))
      → SoundAt m' peers' n max
  shrink m m' peers peers' n max s a b le kept = record {
    sorted = a;
    roster_sorted = b;
    present = λ p g e. (kept p g e).1 (s.present p g (kept p g e).0);
    drawn = λ p g e. s.drawn p g (kept p g e).0;
    distinct = λ p q g e f. s.distinct p q g (kept p g e).0 (kept q g f).0;
    bounded = omega (arith, s.bounded);
  }

  pub remove-SoundAt :
      (p n max : ℕ) (m : OrdMap ℕ SessionSlot) (peers : OrdMap ℕ PresenceEntry)
      → SoundAt m peers n max
      → SoundAt (OrdMap.remove p m) (OrdMap.remove p peers) n max
  remove-SoundAt p n max m peers s =
      shrink m (OrdMap.remove p m) peers (OrdMap.remove p peers) n max s
        (remove-IsSorted p m s.sorted) (remove-IsSorted p peers s.roster_sorted) (length-remove p m)
        (λ q g e.
          let h = generation-remove q p g m s.sorted e in
          (h.1, λ t. rw (get-remove_if q p peers s.roster_sorted, h.0) t))

  pub Renewed-SoundAt :
      (n max : ℕ) (m m' : OrdMap ℕ SessionSlot) (peers : OrdMap ℕ PresenceEntry)
      → Renewed m m'
      → SoundAt m peers n max
      → SoundAt m' peers n max
  Renewed-SoundAt n max m m' peers h s =
      shrink m m' peers peers n max s (Renewed-IsSorted m m' h s.sorted) s.roster_sorted
        (omega (arith, Renewed-length m m' h))
        (λ p g e. (sym (Renewed-generation_at p m m' h) ∙ e, λ t. t))

  -- More peers on the roster.
  pub insert-SoundAt :
      (p n max : ℕ) (v : PresenceEntry) (m : OrdMap ℕ SessionSlot) (peers : OrdMap ℕ PresenceEntry)
      → SoundAt m peers n max
      → SoundAt m (OrdMap.insert p v peers) n max
  insert-SoundAt p n max v m peers s =
      shrink m m peers (OrdMap.insert p v peers) n max s s.sorted
        (insert-IsSorted p v peers s.roster_sorted) (omega arith)
        (λ q g e. (
          e,
          λ t. subst (λ o. is_there o ≡ true) (sym (get-insert_if q p v peers)) (ground (arith, t)),
        ))

  pub send_roster-IsSound : (r : DocRoom) → IsSound r → IsSound (send_roster r)
  unfolding send_roster
  send_roster-IsSound r s =
      Renewed-SoundAt r.next_gen _ r.sessions _ r.gate.peers
        (try_send_all-Renewed (roster_frame r) none r.sessions) s

  evict_peers-IsSound :
      (code : ℕ) (ps : List ℕ) (r : DocRoom) → IsSound r → IsSound (evict_peers code ps r)
  unfolding evict_peers evict_peer Presence.remove
  evict_peers-IsSound code [] r s = s
  evict_peers-IsSound code (p ∷ ps) r s =
      evict_peers-IsSound code ps (evict_peer code p r)
        (remove-SoundAt p r.next_gen _ r.sessions r.gate.peers s)

  pub evict_failed-IsSound :
      (ps : List ℕ) (resync : Bool) (r : DocRoom) → IsSound r → IsSound (evict_failed ps resync r)
  unfolding evict_failed
  evict_failed-IsSound [] resync r s = s
  evict_failed-IsSound (p ∷ ps) resync r s =
      send_roster-IsSound (evict_peers (close_code resync) (p ∷ ps) r)
        (evict_peers-IsSound (close_code resync) (p ∷ ps) r s)

  pub fanout_to-IsSound :
      (frame : Frame) (except : Option ℕ) (r : DocRoom)
      → IsSound r
      → IsSound (fanout_to frame except r)
  unfolding fanout_to
  fanout_to-IsSound frame except r s =
      evict_failed-IsSound (try_send_all frame except r.sessions).1 true
        (record r { sessions = (try_send_all frame except r.sessions).0 })
        (Renewed-SoundAt r.next_gen _ r.sessions _ r.gate.peers
          (try_send_all-Renewed frame except r.sessions) s)
