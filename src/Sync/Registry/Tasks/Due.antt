-- ===== src/Sync/Registry/Tasks/Due.antt =====
-- What each step of a task does to the rooms that are open and to the one that it may still open.
use nisaba.Prelude.{
  ℕ, zero, suc, ◌+◌, ◌≤◌, ◌≡◌, refl, if◌then◌else◌, leb, inl, inr, Bool-cases, Option, none, some,
  List, [], ◌∷◌, ◌++◌, Text, length, arith,
}
use nisaba.OrdMap
use nisaba.OrdMap.Order.{text_ord}
use nisaba.OrdMap.Laws.{IsSorted, insert-IsSorted, remove-IsSorted}
use nisaba.OrdMap.Keys.{is_there, length-insert, length-remove, length-remove_found}
use nisaba.Sync.Error.{SyncResult, ok, err}
use nisaba.Sync.Authority.{Loro}
use nisaba.Sync.Room.{Channel, Stores, DocRoom}
use nisaba.Sync.Room.Upkeep.{open_room}
use nisaba.Sync.Registry.{DocRegistry, victim, or_insert}
use nisaba.Sync.Registry.Tasks.{
  Phase, looking, checking, hydrating, evicting, removing, inserting, Opening, Progress, going,
  finished, looked, chosen, hydrated_room, advance, still,
}

module _ ⦃l : Loro⦄ ⦃ch : Channel⦄ ⦃st : Stores l.Version⦄ where
  -- The room that a task may still put in the map: none before it passed the limit or evicted one.
  abbrev pub room_due : Phase → ℕ
  room_due looking = 0
  room_due checking = 0
  room_due hydrating = 1
  room_due (evicting zero) = 0
  room_due (evicting (suc n)) = 1
  room_due (removing gone zero) = 0
  room_due (removing gone (suc n)) = 1
  room_due (inserting room) = 1

  abbrev pub rest_due : Progress → ℕ
  rest_due (going phase) = room_due phase
  rest_due (finished result) = 0

  abbrev pub all_due : List Opening → ℕ
  all_due [] = 0
  all_due (t ∷ ts) = room_due t.phase + all_due ts

  due-le : (phase : Phase) → room_due phase ≤ 1
  due-le looking = omega arith
  due-le checking = omega arith
  due-le hydrating = omega arith
  due-le (evicting zero) = omega arith
  due-le (evicting (suc n)) = omega arith
  due-le (removing gone zero) = omega arith
  due-le (removing gone (suc n)) = omega arith
  due-le (inserting room) = omega arith

  pub all_due-le : (ts : List Opening) → all_due ts ≤ length ts
  all_due-le [] = omega arith
  all_due-le (t ∷ ts) = omega (arith, due-le t.phase, all_due-le ts)

  pub all_due-append : (ts us : List Opening) → all_due (ts ++ us) ≡ all_due ts + all_due us
  all_due-append [] us = omega arith
  all_due-append (t ∷ ts) us = omega (arith, all_due-append ts us)

  pub all_due-still :
      (doc : Text) (p : Progress) (ts : List Opening)
      → all_due (still doc p ts) ≡ rest_due p + all_due ts
  all_due-still doc (going phase) ts = omega arith
  all_due-still doc (finished result) ts = omega arith

  pub length-still :
      (doc : Text) (p : Progress) (ts : List Opening) → length (still doc p ts) ≤ suc (length ts)
  length-still doc (going phase) ts = omega arith
  length-still doc (finished result) ts = omega arith

  -- The rooms and the one that is due, within a bound, after a step of a task.
  abbrev pub IsWithin : ℕ → DocRegistry × Progress → Type 0
  IsWithin bound o = length o.0.rooms + rest_due o.1 ≤ bound

  looked-due : (o : Option DocRoom) → rest_due (looked o) ≡ 0
  looked-due none = refl
  looked-due (some r) = refl

  chosen-due : (n : ℕ) (o : Option (Text × ℕ)) → rest_due (chosen n o) ≡ room_due (evicting n)
  chosen-due zero none = refl
  chosen-due (suc n) none = refl
  chosen-due zero (some v) = refl
  chosen-due (suc n) (some v) = refl

  hydrated_room-due : (o : SyncResult DocRoom) → rest_due (hydrated_room o) ≤ 1
  hydrated_room-due (ok r) = omega arith
  hydrated_room-due (err e) = omega arith

  removing-due :
      (gone : Text) (n : ℕ) (reg : DocRegistry)
      → length (OrdMap.remove gone reg.rooms)
          + room_due (evicting (if is_there (OrdMap.get gone reg.rooms) then suc n else n))
        ≤ length reg.rooms + room_due (removing gone n)
  removing-due gone n reg = elim (Bool-cases (is_there (OrdMap.get gone reg.rooms))) [
    | inl e ↦ rw e (found n (length-remove_found gone reg.rooms e))
    | inr e ↦ rw e (missing n (length-remove gone reg.rooms))
  ]
    where
      found :
          (n : ℕ)
          → suc (length (OrdMap.remove gone reg.rooms)) ≡ length reg.rooms
          → length (OrdMap.remove gone reg.rooms) + 1
            ≤ length reg.rooms + room_due (removing gone n)
      found zero h = omega (arith, h)
      found (suc n) h = omega (arith, h)

      missing :
          (n : ℕ)
          → length (OrdMap.remove gone reg.rooms) ≤ length reg.rooms
          → length (OrdMap.remove gone reg.rooms) + room_due (evicting n)
            ≤ length reg.rooms + room_due (removing gone n)
      missing zero h = omega (arith, h)
      missing (suc n) h = omega (arith, h)

  or_insert-length :
      (doc : Text) (room : DocRoom) (reg : DocRegistry) (o : Option DocRoom)
      → length (or_insert doc room reg o).0.rooms ≤ length reg.rooms + 1
  or_insert-length doc room reg (some r) = omega arith
  or_insert-length doc room reg none = length-insert doc room reg.rooms

  or_insert-IsSorted :
      (doc : Text) (room : DocRoom) (reg : DocRegistry) (o : Option DocRoom)
      → IsSorted reg.rooms
      → IsSorted (or_insert doc room reg o).0.rooms
  or_insert-IsSorted doc room reg (some r) s = s
  or_insert-IsSorted doc room reg none s = insert-IsSorted doc room reg.rooms s

  or_insert-config :
      (doc : Text) (room : DocRoom) (reg : DocRegistry) (o : Option DocRoom)
      → (or_insert doc room reg o).0.config ≡ reg.config
  or_insert-config doc room reg (some r) = refl
  or_insert-config doc room reg none = refl

  module _ (now : ℕ) (doc : Text) (log : st.Log) (snaps : st.Snapshots) where
    pub advance-config :
        (phase : Phase) (reg : DocRegistry)
        → (advance now doc log snaps phase reg).0.config ≡ reg.config
    unfolding advance
    advance-config looking reg = refl
    advance-config checking reg = refl
    advance-config hydrating reg = refl
    advance-config (evicting n) reg = refl
    advance-config (removing gone n) reg = refl
    advance-config (inserting room) reg = or_insert-config doc room reg _

    pub advance-IsSorted :
        (phase : Phase) (reg : DocRegistry)
        → IsSorted reg.rooms
        → IsSorted (advance now doc log snaps phase reg).0.rooms
    unfolding advance
    advance-IsSorted looking reg s = s
    advance-IsSorted checking reg s = s
    advance-IsSorted hydrating reg s = s
    advance-IsSorted (evicting n) reg s = s
    advance-IsSorted (removing gone n) reg s = remove-IsSorted gone reg.rooms s
    advance-IsSorted (inserting room) reg s =
        or_insert-IsSorted doc room reg (OrdMap.get doc reg.rooms) s

    -- Only a task that finds the registry below its limit makes one room more due.
    pub advance-due :
        (phase : Phase) (reg : DocRegistry) (bound : ℕ)
        → length reg.rooms + room_due phase ≤ bound
        → reg.config.max_rooms ≤ bound
        → IsWithin bound (advance now doc log snaps phase reg)
    unfolding advance
    advance-due looking reg bound h k = omega (arith, h, looked-due (OrdMap.get doc reg.rooms))
    advance-due checking reg bound h k =
        elim (Bool-cases (leb reg.config.max_rooms (length reg.rooms))) [
          | inl e ↦ rw e h
          | inr e ↦ rw e (ground (arith, e, k))
        ]
    advance-due (evicting n) reg bound h k =
        elim (Bool-cases (leb reg.config.max_rooms (length reg.rooms))) [
          | inl e ↦ rw e (omega (arith, h, chosen-due n (victim now none reg.rooms)))
          | inr e ↦ rw e (omega (arith, h, chosen-due n none))
        ]
    advance-due (removing gone n) reg bound h k = omega (arith, h, removing-due gone n reg)
    advance-due hydrating reg bound h k =
        omega
          (arith, h, hydrated_room-due (open_room now doc log snaps reg.config reg.seed_verifier))
    advance-due (inserting room) reg bound h k =
        omega (arith, h, or_insert-length doc room reg (OrdMap.get doc reg.rooms))
