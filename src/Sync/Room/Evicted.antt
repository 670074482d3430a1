-- ===== src/Sync/Room/Evicted.antt =====
-- What an eviction leaves: the sessions of the other peers, and their entries on the roster.
use nisaba.Prelude.{ℕ, ◌≤◌, ◌≡◌, refl, ◌==◌, true, false, some, List, [], ◌∷◌, length, any, arith}
use nisaba.OrdMap
use nisaba.OrdMap.{OrdMap}
use nisaba.OrdMap.Order.{nat_ord}
use nisaba.OrdMap.Laws.{IsSorted, remove-IsSorted}
use nisaba.OrdMap.Keys.{is_there, get-remove_if, length-remove}
use nisaba.Sync.Presence
use nisaba.Sync.Presence.{PresenceEntry, remove_all, expired}
use nisaba.Sync.Presence.Expiry.{get-remove_all}
use nisaba.Sync.Authority.{Loro}
use nisaba.Sync.Room.{Channel, Stores, DocRoom, evict_peer, evict_peers, evict_failed}
use nisaba.Sync.Room.Renewed.{generation_at}
use nisaba.Sync.Room.Sound.{IsSound, shrink, generation-remove, send_roster-IsSound}
use nisaba.Sync.Room.Upkeep.{sweep_presence}

module _ ⦃l : Loro⦄ ⦃ch : Channel⦄ ⦃st : Stores l.Version⦄ where
  pub record Evicted (ps : List ℕ) (r r' : DocRoom) : Type 0 where
    pub sorted : IsSorted r'.sessions
    pub roster_sorted : IsSorted r'.gate.peers
    pub shorter : length r'.sessions ≤ length r.sessions
    pub kept :
        (q g : ℕ)
        → generation_at q r'.sessions ≡ some g
        → (any (λ k. k == q) ps ≡ false)
          × (generation_at q r.sessions ≡ some g)
          × (is_there (OrdMap.get q r.gate.peers) ≡ true
              → is_there (OrdMap.get q r'.gate.peers) ≡ true)
    pub same_gen : r'.next_gen ≡ r.next_gen
    pub same_config : r'.config ≡ r.config

  -- One eviction, before the others.
  Evicted-next :
      (code p : ℕ) (ps : List ℕ) (r r' : DocRoom)
      → IsSorted r.sessions
      → IsSorted r.gate.peers
      → Evicted ps (evict_peer code p r) r'
      → Evicted (p ∷ ps) r r'
  unfolding evict_peer Presence.remove
  Evicted-next code p ps r r' a b h = record {
    sorted = h.sorted;
    roster_sorted = h.roster_sorted;
    shorter = omega (arith, h.shorter, length-remove p r.sessions);
    kept = λ q g e.
        let k = h.kept q g e in
        let here = generation-remove q p g r.sessions a k.1 in
        (
          ground (arith, k.0, here.0),
          here.1,
          λ t. k.2 (rw (get-remove_if q p r.gate.peers b, here.0) t),
        );
    same_gen = h.same_gen;
    same_config = h.same_config;
  }

  pub evict_peers-Evicted :
      (code : ℕ) (ps : List ℕ) (r : DocRoom)
      → IsSorted r.sessions
      → IsSorted r.gate.peers
      → Evicted ps r (evict_peers code ps r)
  unfolding evict_peers evict_peer Presence.remove
  evict_peers-Evicted code [] r a b = record {
    sorted = a;
    roster_sorted = b;
    shorter = omega arith;
    kept = λ q g e. (refl, e, λ t. t);
    same_gen = refl;
    same_config = refl;
  }
  evict_peers-Evicted code (p ∷ ps) r a b =
      Evicted-next code p ps r (evict_peers code (p ∷ ps) r) a b (
        evict_peers-Evicted code ps (evict_peer code p r) (remove-IsSorted p r.sessions a)
          (remove-IsSorted p r.gate.peers b))

  remove_all-IsSorted :
      (ps : List ℕ) (m : OrdMap ℕ PresenceEntry) → IsSorted m → IsSorted (remove_all ps m)
  unfolding remove_all
  remove_all-IsSorted [] m s = s
  remove_all-IsSorted (p ∷ ps) m s =
      remove_all-IsSorted ps (OrdMap.remove p m) (remove-IsSorted p m s)

  -- The room whose roster lost some peers.
  abbrev without : List ℕ → DocRoom → DocRoom
  without ps r = record r { gate = record r.gate { peers = remove_all ps r.gate.peers } }

  evicted-without :
      (code : ℕ) (ps : List ℕ) (r : DocRoom)
      → IsSound r
      → IsSound (evict_peers code ps (without ps r))
  evicted-without code ps r s =
      let b = remove_all-IsSorted ps r.gate.peers s.roster_sorted in
      let e = evict_peers-Evicted code ps (without ps r) s.sorted b in
      let all_kept =
        shrink r.sessions (evict_peers code ps (without ps r)).sessions r.gate.peers
          (evict_peers code ps (without ps r)).gate.peers r.next_gen r.config.max_peers_per_doc s
          e.sorted e.roster_sorted e.shorter
          (λ q g h.
            let k = e.kept q g h in
            (k.1, λ t. k.2 (rw (get-remove_all ps q r.gate.peers s.roster_sorted, k.0) t))) in
      rw (e.same_gen, e.same_config) all_kept

  swept-IsSound :
      (ps : List ℕ) (r : DocRoom) → IsSound r → IsSound (evict_failed ps true (without ps r))
  unfolding evict_failed remove_all
  swept-IsSound [] r s = s
  swept-IsSound (p ∷ ps) r s =
      send_roster-IsSound (evict_peers 4091 (p ∷ ps) (without (p ∷ ps) r))
        (evicted-without 4091 (p ∷ ps) r s)

  pub sweep_presence-IsSound :
      (now : ℕ) (r : DocRoom) → IsSound r → IsSound (sweep_presence now r).0
  unfolding sweep_presence Presence.sweep
  sweep_presence-IsSound now r s = swept-IsSound (expired now r.gate) r s
