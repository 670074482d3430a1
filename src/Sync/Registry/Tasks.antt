-- ===== src/Sync/Registry/Tasks.antt =====
-- services/sync/src/registry.rs: the tasks that open rooms, one access to the shared map at a time.
pub mod Due
pub mod Bound
pub mod Alone
use nisaba.Prelude.{
  ℕ, zero, suc, ◌≤◌, ◌≡◌, leb, if◌then◌else◌, Option, none, some, List, [], ◌∷◌, ◌++◌, Text, length,
}
use nisaba.OrdMap
use nisaba.OrdMap.Order.{text_ord}
use nisaba.OrdMap.Keys.{is_there}
use nisaba.Sync.Error.{SyncResult, ok, err, limit_exceeded}
use nisaba.Sync.Authority.{Loro}
use nisaba.Sync.Room.{Channel, Stores, DocRoom}
use nisaba.Sync.Room.Upkeep.{open_room}
use nisaba.Sync.Registry.{DocRegistry, victim, or_insert}

module _ ⦃l : Loro⦄ ⦃ch : Channel⦄ ⦃st : Stores l.Version⦄ where
  -- Where a task in `get_or_open` stands: before the lookup, before the test of the limit, at the
  -- head of the loop of `evict_empty` and at its removal of a victim, each with the rooms that it
  -- evicted so far, before the room is opened, and before it is put in the map.
  pub data Phase : Type 0 where
    looking checking hydrating : Phase
    evicting : ℕ → Phase
    removing : Text → ℕ → Phase
    inserting : DocRoom → Phase

  pub record Opening : Type 0 where
    pub doc : Text
    pub phase : Phase

  pub data Progress : Type 0 where
    going : Phase → Progress
    finished : SyncResult DocRoom → Progress

  abbrev pub looked : Option DocRoom → Progress
  looked none = going checking
  looked (some r) = finished (ok r)

  -- What follows `evict_empty`.
  abbrev pub evicted : ℕ → Progress
  evicted zero = finished (err limit_exceeded)
  evicted (suc n) = going hydrating

  abbrev pub chosen : ℕ → Option (Text × ℕ) → Progress
  chosen n none = evicted n
  chosen n (some (doc, last)) = going (removing doc n)

  abbrev pub hydrated_room : SyncResult DocRoom → Progress
  hydrated_room (err e) = finished (err e)
  hydrated_room (ok room) = going (inserting room)

  abbrev pub with_result : DocRegistry × SyncResult DocRoom → DocRegistry × Progress
  with_result (reg, result) = (reg, finished result)

  -- One step of a task on the registry as it finds it. The test of the eviction loop and the scan for
  -- a victim after it are one step, the removal of the victim is another.
  unfoldable pub advance :
      ℕ → Text → st.Log → st.Snapshots → Phase → DocRegistry → DocRegistry × Progress
  unfolding victim open_room OrdMap.get OrdMap.insert OrdMap.remove
  advance now doc log snaps looking reg = (reg, looked (OrdMap.get doc reg.rooms))
  advance now doc log snaps checking reg = (
    reg,
    if leb reg.config.max_rooms (length reg.rooms) then going (evicting 0) else going hydrating,
  )
  advance now doc log snaps (evicting n) reg = (
    reg,
    if leb reg.config.max_rooms (length reg.rooms)
        then chosen n (victim now none reg.rooms)
        else evicted n,
  )
  advance now doc log snaps (removing gone n) reg = (
    record reg { rooms = OrdMap.remove gone reg.rooms },
    going (evicting (if is_there (OrdMap.get gone reg.rooms) then suc n else n)),
  )
  advance now doc log snaps hydrating reg =
      (reg, hydrated_room (open_room now doc log snaps reg.config reg.seed_verifier))
  advance now doc log snaps (inserting room) reg =
      with_result (or_insert doc room reg (OrdMap.get doc reg.rooms))

  -- The steps of one task with no other between them, at most so many.
  unfoldable pub run_alone :
      ℕ → ℕ → Text → st.Log → st.Snapshots → DocRegistry × Progress → DocRegistry × Progress
  unfolding advance
  run_alone zero now doc log snaps o = o
  run_alone (suc steps) now doc log snaps (reg, finished result) = (reg, finished result)
  run_alone (suc steps) now doc log snaps (reg, going phase) =
      run_alone steps now doc log snaps (advance now doc log snaps phase reg)

  -- The registry with the tasks that are opening rooms.
  pub record Shared : Type 0 where
    pub registry : DocRegistry
    pub tasks : List Opening

  abbrev pub still : Text → Progress → List Opening → List Opening
  still doc (going phase) tasks = record { doc = doc; phase = phase } ∷ tasks
  still doc (finished result) tasks = tasks

  abbrev pub moved : List Opening → Text → List Opening → DocRegistry × Progress → Shared
  moved before doc after (reg, progress) = record {
    registry = reg;
    tasks = before ++ still doc progress after;
  }

  -- What happens to the registry, in any order: a task starts to open a room, with at most `others`
  -- that are opening one, a task takes a step or is dropped, the sessions of a room change it, and an
  -- idle room is evicted.
  pub data Step (others : ℕ) : Shared → Shared → Type 0 where
    ask_step :
        (s : Shared) (doc : Text)
        → length s.tasks ≤ others
        → Step others s (record s { tasks = record { doc = doc; phase = looking } ∷ s.tasks })
    task_step :
        (s : Shared) (now : ℕ) (log : st.Log) (snaps : st.Snapshots) (before : List Opening)
        (doc : Text) (phase : Phase) (after : List Opening)
        → s.tasks ≡ before ++ record { doc = doc; phase = phase } ∷ after
        → Step others s (moved before doc after (advance now doc log snaps phase s.registry))
    drop_step :
        (s : Shared) (before : List Opening) (task : Opening) (after : List Opening)
        → s.tasks ≡ before ++ task ∷ after
        → Step others s (record s { tasks = before ++ after })
    room_step :
        (s : Shared) (doc : Text) (r r' : DocRoom)
        → OrdMap.get doc s.registry.rooms ≡ some r
        → Step others s (record s {
          registry = record s.registry { rooms = OrdMap.insert doc r' s.registry.rooms };
        })
    idle_step :
        (s : Shared) (doc : Text)
        → Step others s (record s {
          registry = record s.registry { rooms = OrdMap.remove doc s.registry.rooms };
        })

  pub data Reach (others : ℕ) (s : Shared) : Shared → Type 0 where
    here : Reach others s s
    next : {t u : Shared} → Reach others s t → Step others t u → Reach others s u
