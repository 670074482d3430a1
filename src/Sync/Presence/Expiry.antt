-- ===== src/Sync/Presence/Expiry.antt =====
-- A sweep evicts the peers that have not been heard of for longer than the time to live.
use nisaba.Prelude.{
  ℕ, ◌≡◌, refl, sym, subst, ap, ◌∙◌, ◌≤◌, ◌+◌, compare, Bool, true, false, ◌==◌, Bool-cases, inl,
  inr, if◌then◌else◌, Option, none, some, List, [], ◌∷◌, any, any-sort_by, arith,
}
use nisaba.OrdMap
use nisaba.OrdMap.{OrdMap}
use nisaba.OrdMap.Order.{nat_ord}
use nisaba.OrdMap.Laws.{
  IsSorted, Above, remove-IsSorted, insert-IsSorted, get-insert_self, get-remove_self,
  get-remove_ne,
}
use nisaba.Sync.Presence.{
  Presence, PresenceEntry, is_stale, stale_peers, remove_all, expired, sweep, seen, heartbeat,
  contains,
}

-- What is left of an entry.
abbrev pub fresh : ℕ → ℕ → Option PresenceEntry → Option PresenceEntry
fresh now ttl none = none
fresh now ttl (some e) = if is_stale now ttl e then none else some e

abbrev pub stale_in : ℕ → ℕ → Option PresenceEntry → Bool
stale_in now ttl none = false
stale_in now ttl (some e) = is_stale now ttl e

listed_Above :
    (now ttl b : ℕ) (m : OrdMap ℕ PresenceEntry)
    → Above b m
    → any (λ k. k == b) (stale_peers now ttl m) ≡ false
unfolding stale_peers
listed_Above now ttl b [] h = refl
listed_Above now ttl b ((k, e) ∷ m) h = ground (arith, listed_Above now ttl b m h.1)

listed_stale :
    (now ttl p : ℕ) (m : OrdMap ℕ PresenceEntry)
    → IsSorted m
    → any (λ k. k == p) (stale_peers now ttl m) ≡ stale_in now ttl (OrdMap.get p m)
unfolding stale_peers OrdMap.get
listed_stale now ttl p [] h = refl
listed_stale now ttl p ((k, e) ∷ m) h =
    ground (arith, listed_stale now ttl p m h.1, λ (x : k ≡ p). listed_Above now ttl k m h.0)

pub get-remove_all :
    (ps : List ℕ) (p : ℕ) (m : OrdMap ℕ PresenceEntry)
    → IsSorted m
    → OrdMap.get p (remove_all ps m) ≡ (if any (λ k. k == p) ps then none else OrdMap.get p m)
unfolding remove_all
get-remove_all [] p m h = refl
get-remove_all (k ∷ ps) p m h =
    get-remove_all ps p (OrdMap.remove k m) (remove-IsSorted k m h) ∙ elim (Bool-cases (k == p)) [
      | inl e ↦
          let same : k ≡ p = ground arith in
          ground (
            arith,
            subst (λ x. OrdMap.get x (OrdMap.remove k m) ≡ none) same (get-remove_self k m h),
          )
      | inr e ↦ ground (arith, get-remove_ne k p m (λ x. ground arith))
    ]

any-expired :
    (now peer : ℕ) (p : Presence)
    → IsSorted p.peers
    → any (λ k. k == peer) (expired now p) ≡ stale_in now p.ttl (OrdMap.get peer p.peers)
unfolding expired
any-expired now peer p h =
    any-sort_by compare (λ k. k == peer) (stale_peers now p.ttl p.peers)
    ∙ listed_stale now p.ttl peer p.peers h

if_stale :
    (now ttl : ℕ) (o : Option PresenceEntry)
    → (if stale_in now ttl o then none else o) ≡ fresh now ttl o
if_stale now ttl none = refl
if_stale now ttl (some e) = refl

-- After a sweep of a roster whose peers are in order, a peer is found with its entry exactly when it
-- was there and heard of within the time to live, and the sweep names exactly the others that were
-- there.
pub sweep_exact :
    (now peer : ℕ) (p : Presence)
    → IsSorted p.peers
    → (OrdMap.get peer (sweep now p).0.peers ≡ fresh now p.ttl (OrdMap.get peer p.peers))
      × (any (λ k. k == peer) (sweep now p).1 ≡ stale_in now p.ttl (OrdMap.get peer p.peers))
unfolding sweep
sweep_exact now peer p h = (
  get-remove_all (expired now p) peer p.peers h
      ∙ ap (λ b. if b then none else OrdMap.get peer p.peers) (any-expired now peer p h)
      ∙ if_stale now p.ttl (OrdMap.get peer p.peers),
  any-expired now peer p h,
)

-- A peer that is there when its heartbeat arrives is still found by a sweep within the time to live.
pub sweep-heartbeat :
    (t now peer : ℕ) (p : Presence) (e : PresenceEntry)
    → IsSorted p.peers
    → OrdMap.get peer p.peers ≡ some e
    → now ≤ t + p.ttl
    → contains peer (sweep now (heartbeat t peer p)).0 ≡ true
unfolding contains heartbeat
sweep-heartbeat t now peer p e h g l =
    let beat = heartbeat t peer p in
    rw
      (
        (sweep_exact now peer beat (
            subst (λ o. IsSorted (seen t peer o p.peers)) (sym g)
              (insert-IsSorted peer _ p.peers h))).0,
        g,
        get-insert_self peer (record e { last_seen = t }) p.peers,
      )
      (ground arith)
