-- ===== src/Sync/Registry/Refused.antt =====
-- When the registry refuses a room.
use nisaba.Prelude.{
  ℕ, zero, suc, ◌≤◌, ◌≡◌, ◌≢◌, refl, leb, not, ◌&&◌, if◌then◌else◌, Bool, true, false, Bool-cases,
  inl, inr, Option, none, some, [], ◌∷◌, Text, length, arith,
}
use nisaba.OrdMap
use nisaba.OrdMap.{OrdMap}
use nisaba.OrdMap.Order.{text_ord}
use nisaba.Sync.Authority.{Loro}
use nisaba.Sync.Room.{Channel, Stores, DocRoom, is_empty, last_active_hint}
use nisaba.OrdMap.Laws.{IsSorted}
use nisaba.Sync.Error.{SyncResult, ok, err, limit_exceeded}
use nisaba.Sync.Room.Upkeep.{open_room}
use nisaba.Sync.Registry.{
  DocRegistry, older, victim, without_victim, evict_loop, evict_empty, entered, open_after,
  get_or_open,
}
use nisaba.Sync.Registry.Tasks.{looking, going, with_result, run_alone}
use nisaba.Sync.Registry.Tasks.Alone.{rounds, get_or_open-alone}

module _ ⦃l : Loro⦄ ⦃ch : Channel⦄ ⦃st : Stores l.Version⦄ where
  older-some :
      (best : Option (Text × ℕ)) (doc : Text) (last : ℕ)
      → (v : Text × ℕ) × (older best doc last ≡ some v)
  older-some none doc last = ((doc, last), refl)
  older-some (some (d, tl)) doc last = elim (Bool-cases (leb tl last)) [
    | inl e ↦ ((d, tl), rw e refl)
    | inr e ↦ ((doc, last), rw e refl)
  ]

  -- A victim so far is not forgotten.
  victim-some : (now : ℕ) (v : Text × ℕ) (m : OrdMap Text DocRoom) → victim now (some v) m ≢ none
  unfolding victim
  victim-some now v [] h = absurd (ground (arith, h))
  victim-some now v ((k, r) ∷ m) h = elim (Bool-cases (is_empty r)) [
    | inl e ↦
        let o = older-some (some v) k (last_active_hint now r) in
        victim-some now o.0 m (ground (arith, h, e, o.1))
    | inr e ↦ victim-some now v m (ground (arith, h, e))
  ]

  -- Every room has sessions.
  abbrev pub all_busy : OrdMap Text DocRoom → Bool
  all_busy [] = true
  all_busy ((k, r) ∷ m) = not (is_empty r) && all_busy m

  victim-busy : (now : ℕ) (m : OrdMap Text DocRoom) → all_busy m ≡ true → victim now none m ≡ none
  unfolding victim
  victim-busy now [] h = refl
  victim-busy now ((k, r) ∷ m) h = ground (arith, h, victim-busy now m)

  victim-none : (now : ℕ) (m : OrdMap Text DocRoom) → victim now none m ≡ none → all_busy m ≡ true
  unfolding victim
  victim-none now [] h = refl
  victim-none now ((k, s) ∷ m) h = elim (Bool-cases (is_empty s)) [
    | inl e ↦ absurd (victim-some now (k, last_active_hint now s) m (ground (arith, h, e)))
    | inr e ↦ ground (arith, e, victim-none now m (ground (arith, h, e)))
  ]

  evict_loop-busy :
      (fuel now max : ℕ) (m : OrdMap Text DocRoom)
      → all_busy m ≡ true
      → evict_loop fuel now max m ≡ (m, 0)
  unfolding evict_loop
  evict_loop-busy zero now max m h = refl
  evict_loop-busy (suc fuel) now max m h = elim (Bool-cases (leb max (length m))) [
    | inl e ↦ rw (e, victim-busy now m h) refl
    | inr e ↦ rw e refl
  ]

  one_evicted :
      (rest : OrdMap Text DocRoom → OrdMap Text DocRoom × ℕ) (m : OrdMap Text DocRoom)
      (v : Option (Text × ℕ))
      → v ≢ none
      → (k : ℕ) × ((without_victim rest m v).1 ≡ suc k)
  one_evicted rest m none h = absurd (h refl)
  one_evicted rest m (some (doc, last)) h = ((rest (OrdMap.remove doc m)).1, refl)

  evict_loop-idle :
      (fuel now max : ℕ) (m : OrdMap Text DocRoom)
      → fuel ≡ length m
      → max ≤ length m
      → all_busy m ≡ false
      → (k : ℕ) × ((evict_loop fuel now max m).1 ≡ suc k)
  unfolding evict_loop
  evict_loop-idle zero now max [] e full h = absurd (ground (arith, h))
  evict_loop-idle zero now max (x ∷ m) e full h = absurd (omega (arith, e))
  evict_loop-idle (suc fuel) now max m e full h =
      let at : leb max (length m) ≡ true = ground (arith, full) in
      rw at (
        one_evicted (evict_loop fuel now max) m (victim now none m)
          (λ n. ground (arith, h, victim-none now m n)))

  get-remove-none :
      (p k : Text) (m : OrdMap Text DocRoom)
      → OrdMap.get p m ≡ none
      → OrdMap.get p (OrdMap.remove k m) ≡ none
  unfolding OrdMap.get OrdMap.remove
  get-remove-none p k [] h = refl
  get-remove-none p k ((j, r) ∷ m) h = ground (arith, h, get-remove-none p k m)

  without_victim-missing :
      (p : Text) (rest : OrdMap Text DocRoom → OrdMap Text DocRoom × ℕ) (m : OrdMap Text DocRoom)
      (v : Option (Text × ℕ))
      → ((n : OrdMap Text DocRoom) → OrdMap.get p n ≡ none → OrdMap.get p (rest n).0 ≡ none)
      → OrdMap.get p m ≡ none
      → OrdMap.get p (without_victim rest m v).0 ≡ none
  without_victim-missing p rest m none h g = g
  without_victim-missing p rest m (some (doc, last)) h g =
      h (OrdMap.remove doc m) (get-remove-none p doc m g)

  evict_loop-missing :
      (p : Text) (fuel now max : ℕ) (m : OrdMap Text DocRoom)
      → OrdMap.get p m ≡ none
      → OrdMap.get p (evict_loop fuel now max m).0 ≡ none
  unfolding evict_loop
  evict_loop-missing p zero now max m g = g
  evict_loop-missing p (suc fuel) now max m g = elim (Bool-cases (leb max (length m))) [
    | inl e ↦ rw e (
        without_victim-missing p (evict_loop fuel now max) m (victim now none m)
          (λ n. evict_loop-missing p fuel now max n) g)
    | inr e ↦ rw e g
  ]

  module _ (now : ℕ) (doc : Text) (log : st.Log) (snaps : st.Snapshots) where
    entered-result :
        (reg : DocRegistry) (o : SyncResult DocRoom)
        → OrdMap.get doc reg.rooms ≡ none
        → (entered doc reg o).1 ≡ o
    entered-result reg (err e) h = refl
    entered-result reg (ok room) h = rw h refl

    open_after-result :
        (reg : DocRegistry) (m : OrdMap Text DocRoom) (n : ℕ)
        → (k : ℕ) × (n ≡ suc k)
        → OrdMap.get doc m ≡ none
        → (open_after now doc log snaps (record reg { rooms = m }, n)).1
          ≡ open_room now doc log snaps reg.config reg.seed_verifier
    open_after-result reg m n (k, e) h = rw e (
        entered-result (record reg { rooms = m })
          (open_room now doc log snaps reg.config reg.seed_verifier) h)

    -- A task that asks for a room that is not registered, and that no other task comes between, does
    -- what `get_or_open` does, and is refused by the registry exactly where that is at its limit and
    -- every room has sessions: otherwise it gets what opening the room from the stores gives.
    pub get_or_open-refused :
        (reg : DocRegistry)
        → IsSorted reg.rooms
        → OrdMap.get doc reg.rooms ≡ none
        → (run_alone (suc (suc (rounds (length reg.rooms)))) now doc log snaps (reg, going looking)
            ≡ with_result (get_or_open now doc log snaps reg))
          × ((get_or_open now doc log snaps reg).1 ≡ (
              if leb reg.config.max_rooms (length reg.rooms) && all_busy reg.rooms
              then err limit_exceeded
              else open_room now doc log snaps reg.config reg.seed_verifier))
    unfolding get_or_open evict_empty
    get_or_open-refused reg s h = (
      get_or_open-alone now doc log snaps reg s,
      rw h (elim (Bool-cases (leb reg.config.max_rooms (length reg.rooms))) [
        | inl e ↦ rw e (elim (Bool-cases (all_busy reg.rooms)) [
          | inl b ↦
              rw (b, evict_loop-busy (length reg.rooms) now reg.config.max_rooms reg.rooms b) refl
          | inr b ↦ rw b (
              open_after-result reg _ _
                (evict_loop-idle (length reg.rooms) now reg.config.max_rooms reg.rooms refl
                  (ground (arith, e)) b)
                (evict_loop-missing doc (length reg.rooms) now reg.config.max_rooms reg.rooms h))
        ])
        | inr e ↦
            rw e (entered-result reg (open_room now doc log snaps reg.config reg.seed_verifier) h)
      ]),
    )
