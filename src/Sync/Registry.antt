-- ===== src/Sync/Registry.antt =====
-- services/sync/src/registry.rs: the live rooms, opened on first access and evicted when empty.
pub mod Spares
pub mod Bounded
pub mod Refused
pub mod Tasks
use nisaba.Prelude.{
  ℕ, zero, suc, ◌==◌, ltb, leb, compare, if◌then◌else◌, Bool, true, false, ◌&&◌, Option, none, some,
  List, [], ◌∷◌, Text, length, sort_by,
}
use nisaba.OrdMap
use nisaba.OrdMap.{OrdMap}
use nisaba.OrdMap.Order.{text_ord}
use nisaba.Sync.Config.{Config}
use nisaba.Sync.Error.{SyncError, SyncResult, ok, err, limit_exceeded}
use nisaba.Sync.Authority.{Loro}
use nisaba.Sync.Room.{Channel, Stores, DocRoom, is_empty, is_idle, last_active_hint}
use nisaba.Sync.Room.Upkeep.{open_room}

-- The older of the victim so far and an empty room.
abbrev pub older : Option (Text × ℕ) → Text → ℕ → Option (Text × ℕ)
older none doc last = some (doc, last)
older (some (d, tl)) doc last = if leb tl last then some (d, tl) else some (doc, last)

module _ ⦃l : Loro⦄ ⦃ch : Channel⦄ ⦃st : Stores l.Version⦄ where
  -- The stores stand beside the registry, as arguments of the operations that open rooms.
  pub record DocRegistry : Type 0 where
    pub rooms : OrdMap Text DocRoom
    pub config : Config
    pub seed_verifier : Text → Text → Option Bool

  -- The loop for the empty room that was touched longest ago.
  unfoldable pub victim : ℕ → Option (Text × ℕ) → OrdMap Text DocRoom → Option (Text × ℕ)
  victim now best [] = best
  victim now best ((doc, r) ∷ m) =
      if is_empty r
      then victim now (older best doc (last_active_hint now r)) m
      else victim now best m

  abbrev pub count_evicted : OrdMap Text DocRoom × ℕ → OrdMap Text DocRoom × ℕ
  count_evicted (m, n) = (m, suc n)

  -- The loop of `evict_empty`, with the rest of it for the rooms without the victim.
  abbrev pub without_victim :
      (OrdMap Text DocRoom → OrdMap Text DocRoom × ℕ)
      → OrdMap Text DocRoom
      → Option (Text × ℕ)
      → OrdMap Text DocRoom × ℕ
  without_victim rest m none = (m, 0)
  without_victim rest m (some (doc, last)) = count_evicted (rest (OrdMap.remove doc m))

  -- On fuel: each round evicts a room, so that the number of rooms is enough.
  unfoldable pub evict_loop : ℕ → ℕ → ℕ → OrdMap Text DocRoom → OrdMap Text DocRoom × ℕ
  unfolding victim OrdMap.remove
  evict_loop zero now max m = (m, 0)
  evict_loop (suc fuel) now max m =
      if leb max (length m)
      then without_victim (evict_loop fuel now max) m (victim now none m)
      else (m, 0)

  unfoldable pub evict_empty : ℕ → DocRegistry → DocRegistry × ℕ
  unfolding evict_loop
  evict_empty now reg =
      let (m, n) = evict_loop (length reg.rooms) now reg.config.max_rooms reg.rooms in
      (record reg { rooms = m }, n)

  -- `entry(..).or_insert(room)`, after which the room that is there is returned.
  abbrev pub or_insert :
      Text → DocRoom → DocRegistry → Option DocRoom → DocRegistry × SyncResult DocRoom
  or_insert doc room reg (some r) = (reg, ok r)
  or_insert doc room reg none = (record reg { rooms = OrdMap.insert doc room reg.rooms }, ok room)

  abbrev pub entered : Text → DocRegistry → SyncResult DocRoom → DocRegistry × SyncResult DocRoom
  entered doc reg (err e) = (reg, err e)
  entered doc reg (ok room) = or_insert doc room reg (OrdMap.get doc reg.rooms)

  abbrev pub open_in :
      ℕ → Text → st.Log → st.Snapshots → DocRegistry → DocRegistry × SyncResult DocRoom
  open_in now doc log snaps reg =
      entered doc reg (open_room now doc log snaps reg.config reg.seed_verifier)

  -- A registry at its limit opens a room only where it evicted one.
  abbrev pub open_after :
      ℕ → Text → st.Log → st.Snapshots → DocRegistry × ℕ → DocRegistry × SyncResult DocRoom
  open_after now doc log snaps (reg, zero) = (reg, err limit_exceeded)
  open_after now doc log snaps (reg, suc n) = open_in now doc log snaps reg

  abbrev pub open_missing :
      ℕ
      → Text
      → st.Log
      → st.Snapshots
      → DocRegistry
      → Option DocRoom
      → DocRegistry × SyncResult DocRoom
  open_missing now doc log snaps reg (some r) = (reg, ok r)
  open_missing now doc log snaps reg none =
      if leb reg.config.max_rooms (length reg.rooms)
      then open_after now doc log snaps (evict_empty now reg)
      else open_in now doc log snaps reg

  -- Where no other task runs between its awaits; Tasks has the steps that others come between.
  unfoldable pub get_or_open :
      ℕ → Text → st.Log → st.Snapshots → DocRegistry → DocRegistry × SyncResult DocRoom
  unfolding evict_empty open_room OrdMap.get OrdMap.insert
  get_or_open now doc log snaps reg = open_missing now doc log snaps reg (OrdMap.get doc reg.rooms)

  -- The empty rooms that were not touched for the time to live, with the times of their last touch.
  unfoldable pub idle_rooms : ℕ → ℕ → OrdMap Text DocRoom → List (Text × ℕ)
  idle_rooms now ttl [] = []
  idle_rooms now ttl ((doc, r) ∷ m) =
      let rest = idle_rooms now ttl m in
      if is_empty r && is_idle now ttl r then (doc, last_active_hint now r) ∷ rest else rest

  unfoldable pub remove_rooms : List (Text × ℕ) → OrdMap Text DocRoom → OrdMap Text DocRoom
  unfolding OrdMap.remove
  remove_rooms [] m = m
  remove_rooms ((doc, last) ∷ ds) m = remove_rooms ds (OrdMap.remove doc m)

  unfoldable pub evict_idle_rooms : ℕ → DocRegistry → DocRegistry × ℕ
  unfolding idle_rooms remove_rooms sort_by
  evict_idle_rooms now reg =
      let idle =
        sort_by (λ a b. compare a.1 b.1) (idle_rooms now reg.config.evict_idle_ttl_ms reg.rooms) in
      (record reg { rooms = remove_rooms idle reg.rooms }, length idle)
