-- ===== src/Sync/Registry/Bounded.antt =====
-- What `get_or_open` leaves of the registry, where no other task runs between its awaits.
use nisaba.Prelude.{
  ℕ, zero, suc, ◌≤◌, ◌<◌, ◌≡◌, inl, inr, refl, ap, ◌∙◌, subst, leb, false, Bool-cases, Option, none,
  some, Text, length, arith,
}
use nisaba.OrdMap
use nisaba.OrdMap.{OrdMap}
use nisaba.OrdMap.Order.{text_ord}
use nisaba.OrdMap.Laws.{IsSorted, insert-IsSorted, get-insert_self, get-insert_ne}
use nisaba.OrdMap.Keys.{length-insert}
use nisaba.Sync.Error.{SyncError, SyncResult, ok, err, ok_injective}
use nisaba.Sync.Authority.{Loro}
use nisaba.Sync.Room.{Channel, Stores, DocRoom, is_empty}
use nisaba.Sync.Room.Upkeep.{open_room}
use nisaba.Sync.Registry.{
  DocRegistry, evict_loop, evict_empty, or_insert, entered, open_after, open_missing, get_or_open,
}
use nisaba.Sync.Registry.Spares.{Spares, evict_loop-Spares}

module _ ⦃l : Loro⦄ ⦃ch : Channel⦄ ⦃st : Stores l.Version⦄ where
  -- The registry after a room was asked for, with the room.
  record Opened (doc : Text) (reg : DocRegistry) (o : DocRegistry × SyncResult DocRoom)
      : Type 0 where
    sorted : IsSorted o.0.rooms
    bounded : length o.0.rooms ≤ reg.config.max_rooms
    spared :
        (d : Text) (r : DocRoom)
        → OrdMap.get d reg.rooms ≡ some r
        → is_empty r ≡ false
        → OrdMap.get d o.0.rooms ≡ some r
    found : (r : DocRoom) → o.1 ≡ ok r → OrdMap.get doc o.0.rooms ≡ some r

  -- A room is put where there is none, below the limit.
  or_insert-Opened :
      (doc : Text) (room : DocRoom) (reg : DocRegistry) (o : Option DocRoom)
      → IsSorted reg.rooms
      → length reg.rooms < reg.config.max_rooms
      → OrdMap.get doc reg.rooms ≡ o
      → Opened doc reg (or_insert doc room reg o)
  or_insert-Opened doc room reg (some r) s lt h = record {
    sorted = s;
    bounded = omega (arith, lt);
    spared = λ d t g e. g;
    found = λ t e. h ∙ ap some (ok_injective e);
  }
  or_insert-Opened doc room reg none s lt h = record {
    sorted = insert-IsSorted doc room reg.rooms s;
    bounded = omega (arith, lt, length-insert doc room reg.rooms);
    spared = λ d t g e.
        get-insert_ne doc d room reg.rooms
          (λ x. absurd (ground (arith, h, subst (λ y. OrdMap.get y reg.rooms ≡ some t) x g)))
        ∙ g;
    found = λ t e. get-insert_self doc room reg.rooms ∙ ap some (ok_injective e);
  }

  unchanged-Opened :
      (doc : Text) (reg : DocRegistry) (e : SyncError)
      → IsSorted reg.rooms
      → length reg.rooms ≤ reg.config.max_rooms
      → Opened doc reg (reg, err e)
  unchanged-Opened doc reg e s le = record {
    sorted = s;
    bounded = le;
    spared = λ d t g f. g;
    found = λ t f. absurd (ground (arith, f));
  }

  entered-Opened :
      (doc : Text) (reg : DocRegistry) (o : SyncResult DocRoom)
      → IsSorted reg.rooms
      → length reg.rooms < reg.config.max_rooms
      → Opened doc reg (entered doc reg o)
  entered-Opened doc reg (err e) s lt = unchanged-Opened doc reg e s (omega (arith, lt))
  entered-Opened doc reg (ok room) s lt = or_insert-Opened doc room reg _ s lt refl

  open_after-Opened :
      (now : ℕ) (doc : Text) (log : st.Log) (snaps : st.Snapshots) (reg : DocRegistry)
      (o : OrdMap Text DocRoom × ℕ)
      → length reg.rooms ≤ reg.config.max_rooms
      → Spares reg.rooms o
      → Opened doc reg (open_after now doc log snaps (record reg { rooms = o.0 }, o.1))
  open_after-Opened now doc log snaps reg (m, zero) le s = record {
    sorted = s.sorted;
    bounded = omega (arith, le, s.counted);
    spared = s.spared;
    found = λ t f. absurd (ground (arith, f));
  }
  open_after-Opened now doc log snaps reg (m, suc n) le s =
      let evicted = record reg { rooms = m } in
      let h =
        entered-Opened doc evicted (open_room now doc log snaps reg.config reg.seed_verifier)
          s.sorted (omega (arith, le, s.counted)) in
      record {
        sorted = h.sorted;
        bounded = h.bounded;
        spared = λ d t g e. h.spared d t (s.spared d t g e) e;
        found = h.found;
      }

  open_missing-Opened :
      (now : ℕ) (doc : Text) (log : st.Log) (snaps : st.Snapshots) (reg : DocRegistry)
      (o : Option DocRoom)
      → IsSorted reg.rooms
      → length reg.rooms ≤ reg.config.max_rooms
      → OrdMap.get doc reg.rooms ≡ o
      → Opened doc reg (open_missing now doc log snaps reg o)
  unfolding evict_empty
  open_missing-Opened now doc log snaps reg (some r) s le h = record {
    sorted = s;
    bounded = le;
    spared = λ d t g e. g;
    found = λ t e. h ∙ ap some (ok_injective e);
  }
  open_missing-Opened now doc log snaps reg none s le h =
      elim (Bool-cases (leb reg.config.max_rooms (length reg.rooms))) [
        | inl e ↦ rw e (
            open_after-Opened now doc log snaps reg
              (evict_loop (length reg.rooms) now reg.config.max_rooms reg.rooms) le
              (evict_loop-Spares (length reg.rooms) now reg.config.max_rooms reg.rooms s))
        | inr e ↦ rw e (
            entered-Opened doc reg (open_room now doc log snaps reg.config reg.seed_verifier) s
              (ground (arith, e)))
      ]

  -- Where no other task runs, asking a registry within its limit for a room leaves it within its limit, with every room that
  -- has sessions as it was, and a room that is returned is the one that is registered.
  get_or_open-Opened :
      (now : ℕ) (doc : Text) (log : st.Log) (snaps : st.Snapshots) (reg : DocRegistry)
      → IsSorted reg.rooms
      → length reg.rooms ≤ reg.config.max_rooms
      → Opened doc reg (get_or_open now doc log snaps reg)
  unfolding get_or_open
  get_or_open-Opened now doc log snaps reg s le =
      open_missing-Opened now doc log snaps reg (OrdMap.get doc reg.rooms) s le refl
