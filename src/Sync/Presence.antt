-- ===== src/Sync/Presence.antt =====
-- services/sync/src/presence.rs: the roster of a document's peers, with expiry, and its codec.
pub mod Expiry
pub mod Roster
use nisaba.Prelude.{
  ℕ, zero, suc, ◌+◌, ◌-◌, compare, ltb, if◌then◌else◌, Bool, true, false, Option, none, some, List,
  [], ◌∷◌, ◌++◌, length, take, drop, sort_by, u32_or_max,
}
use nisaba.OrdMap
use nisaba.OrdMap.{OrdMap}
use nisaba.OrdMap.Order.{nat_ord}
use nisaba.Sync.Bytes.{Bytes, to_be_bytes, from_be_bytes, from_be}

-- Instants are numbers of milliseconds.
pub record PresenceEntry : Type 0 where
  pub state : Bytes
  pub last_seen : ℕ

-- The clock is an argument of the operations that read it.
pub record Presence : Type 0 where
  pub ttl : ℕ
  pub peers : OrdMap ℕ PresenceEntry

abbrev pub new : ℕ → Presence
new ttl_ms = record { ttl = ttl_ms; peers = [] }

unfoldable pub upsert : ℕ → ℕ → Bytes → Presence → Presence
unfolding OrdMap.insert
upsert now peer state p = record p {
  peers = OrdMap.insert peer (record { state = state; last_seen = now }) p.peers;
}

-- The entry at a key is changed in place.
abbrev pub seen : ℕ → ℕ → Option PresenceEntry → OrdMap ℕ PresenceEntry → OrdMap ℕ PresenceEntry
seen now peer none peers = peers
seen now peer (some entry) peers = OrdMap.insert peer (record entry { last_seen = now }) peers

unfoldable pub heartbeat : ℕ → ℕ → Presence → Presence
unfolding OrdMap.get OrdMap.insert
heartbeat now peer p = record p { peers = seen now peer (OrdMap.get peer p.peers) p.peers }

abbrev is_some {ℓ} : {A : Type ℓ} → Option A → Bool
is_some none = false
is_some (some a) = true

unfoldable pub remove : ℕ → Presence → Presence × Bool
unfolding OrdMap.get OrdMap.remove
remove peer p = (record p { peers = OrdMap.remove peer p.peers }, is_some (OrdMap.get peer p.peers))

abbrev pub len : Presence → ℕ
len p = length p.peers

abbrev pub is_empty : Presence → Bool
is_empty p = elim p.peers [ [] ↦ true | ◌∷◌ e m ↦ false ]

unfoldable pub contains : ℕ → Presence → Bool
unfolding OrdMap.get
contains peer p = is_some (OrdMap.get peer p.peers)

-- `now.saturating_duration_since(e.last_seen) > self.ttl`
abbrev pub is_stale : ℕ → ℕ → PresenceEntry → Bool
is_stale now ttl e = ltb ttl (now - e.last_seen)

unfoldable pub stale_peers : ℕ → ℕ → OrdMap ℕ PresenceEntry → List ℕ
stale_peers now ttl [] = []
stale_peers now ttl ((p, e) ∷ m) =
    let rest = stale_peers now ttl m in if is_stale now ttl e then p ∷ rest else rest

unfoldable pub remove_all : List ℕ → OrdMap ℕ PresenceEntry → OrdMap ℕ PresenceEntry
unfolding OrdMap.remove
remove_all [] m = m
remove_all (p ∷ ps) m = remove_all ps (OrdMap.remove p m)

unfoldable pub expired : ℕ → Presence → List ℕ
unfolding stale_peers sort_by
expired now p = sort_by compare (stale_peers now p.ttl p.peers)

unfoldable pub sweep : ℕ → Presence → Presence × List ℕ
unfolding expired remove_all
sweep now p = (record p { peers = remove_all (expired now p) p.peers }, expired now p)

unfoldable pub states : OrdMap ℕ PresenceEntry → List (ℕ × Bytes)
states [] = []
states ((p, e) ∷ m) = (p, e.state) ∷ states m

unfoldable pub roster : Presence → List (ℕ × Bytes)
unfolding states sort_by
roster p = sort_by (λ a b. compare a.0 b.0) (states p.peers)

unfoldable pub encode_entries : List (ℕ × Bytes) → Bytes
unfolding to_be_bytes
encode_entries [] = []
encode_entries ((peer, state) ∷ rest) =
    to_be_bytes 8 peer
    ++ (to_be_bytes 4 (u32_or_max (length state)) ++ (state ++ encode_entries rest))

unfoldable pub encode_roster : List (ℕ × Bytes) → Bytes
unfolding encode_entries
encode_roster r = to_be_bytes 4 (u32_or_max (length r)) ++ encode_entries r

abbrev pub push_entry : ℕ × Bytes → Option (List (ℕ × Bytes)) → Option (List (ℕ × Bytes))
push_entry e none = none
push_entry e (some rest) = some (e ∷ rest)

-- The loop of `decode_roster`, where `none` is the error `Truncated`.
unfoldable pub decode_entries : ℕ → Bytes → Option (List (ℕ × Bytes))
unfolding from_be
decode_entries zero buf = some []
decode_entries (suc n) buf =
    let peer = from_be_bytes (take 8 buf) in
    let b1 = drop 8 buf in
    let len = from_be_bytes (take 4 b1) in
    let b2 = drop 4 b1 in
    let rest = decode_entries n (drop len b2) in
    if ltb (length buf) 12
    then none
    else if ltb (length b2) len
    then none
    else push_entry (peer, take len b2) rest

unfoldable pub decode_roster : Bytes → Option (List (ℕ × Bytes))
unfolding decode_entries
decode_roster buf =
    if ltb (length buf) 4 then none else decode_entries (from_be_bytes (take 4 buf)) (drop 4 buf)
