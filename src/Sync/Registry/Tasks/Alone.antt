-- ===== src/Sync/Registry/Tasks/Alone.antt =====
-- A task that opens a room with no other in between does what `get_or_open` does.
use nisaba.Prelude.{
  ℕ, zero, suc, ◌+◌, ◌≤◌, ◌≡◌, refl, ap, ◌∙◌, leb, inl, inr, Bool-cases, true, false, Option, none,
  some, [], ◌∷◌, Text, length, arith,
}
use mathlib.Core.Path.{ap₂}
use nisaba.OrdMap
use nisaba.OrdMap.{OrdMap}
use nisaba.OrdMap.Order.{text_ord}
use nisaba.OrdMap.Laws.{IsSorted, remove-IsSorted}
use nisaba.OrdMap.Keys.{is_there, length-remove_found}
use nisaba.Sync.Error.{SyncResult, ok, err}
use nisaba.Sync.Authority.{Loro}
use nisaba.Sync.Room.{Channel, Stores, DocRoom}
use nisaba.Sync.Room.Upkeep.{open_room}
use nisaba.Sync.Registry.{
  DocRegistry, victim, without_victim, evict_loop, evict_empty, entered, open_in, open_after,
  open_missing, get_or_open,
}
use nisaba.Sync.Registry.Spares.{victim-IsThere}
use nisaba.Sync.Registry.Tasks.{
  looking, checking, hydrating, evicting, removing, going, finished, looked, evicted, chosen,
  hydrated_room, with_result, advance, run_alone,
}

-- Enough steps to evict so many rooms and to open one.
abbrev pub rounds : ℕ → ℕ
rounds zero = 3
rounds (suc n) = suc (suc (rounds n))

rounds-suc : (n : ℕ) → (k : ℕ) × (rounds n ≡ suc (suc k))
rounds-suc zero = (1, refl)
rounds-suc (suc n) = (rounds n, refl)

module _ ⦃l : Loro⦄ ⦃ch : Channel⦄ ⦃st : Stores l.Version⦄ where
  module _ (now : ℕ) (doc : Text) (log : st.Log) (snaps : st.Snapshots) where
    run-finished :
        (k : ℕ) (reg : DocRegistry) (r : SyncResult DocRoom)
        → run_alone k now doc log snaps (reg, finished r) ≡ (reg, finished r)
    unfolding run_alone
    run-finished zero reg r = refl
    run-finished (suc k) reg r = refl

    run-hydrated :
        (k : ℕ) (reg : DocRegistry) (o : SyncResult DocRoom)
        → run_alone (suc k) now doc log snaps (reg, hydrated_room o)
          ≡ with_result (entered doc reg o)
    unfolding run_alone
    run-hydrated k reg (err e) = refl
    run-hydrated k reg (ok room) = run-finished k _ _

    run-evicted :
        (k n : ℕ) (reg : DocRegistry)
        → run_alone (suc (suc k)) now doc log snaps (reg, evicted n)
          ≡ with_result (open_after now doc log snaps (reg, n))
    unfolding run_alone
    run-evicted k zero reg = refl
    run-evicted k (suc n) reg =
        run-hydrated k reg (open_room now doc log snaps reg.config reg.seed_verifier)

    -- The loop is over.
    run_end :
        (reg : DocRegistry) (m : OrdMap Text DocRoom) (o : OrdMap Text DocRoom × ℕ) (j n c : ℕ)
        → (k : ℕ) × (j ≡ suc (suc k))
        → (m, 0) ≡ o
        → c ≡ o.1 + n
        → run_alone j now doc log snaps (record reg { rooms = m }, evicted n)
          ≡ with_result (open_after now doc log snaps (record reg { rooms = o.0 }, c))
    run_end reg m o j n c (k, e) q h =
        let same : n ≡ c = omega (arith, h, ap (λ (x : OrdMap Text DocRoom × ℕ). x.1) q) in
        ap (λ i. run_alone i now doc log snaps (record reg { rooms = m }, evicted n)) e
        ∙ run-evicted k n (record reg { rooms = m })
        ∙ ap₂ (λ a b. with_result (open_after now doc log snaps (record reg { rooms = a }, b)))
            (ap (λ (x : OrdMap Text DocRoom × ℕ). x.0) q) same

    advance-full :
        (reg : DocRegistry) (n : ℕ)
        → leb reg.config.max_rooms (length reg.rooms) ≡ true
        → advance now doc log snaps (evicting n) reg ≡ (reg, chosen n (victim now none reg.rooms))
    unfolding advance
    advance-full reg n e = rw e refl

    advance-below :
        (reg : DocRegistry) (n : ℕ)
        → leb reg.config.max_rooms (length reg.rooms) ≡ false
        → advance now doc log snaps (evicting n) reg ≡ (reg, evicted n)
    unfolding advance
    advance-below reg n e = rw e refl

    advance-removing :
        (reg : DocRegistry) (gone : Text) (n : ℕ)
        → is_there (OrdMap.get gone reg.rooms) ≡ true
        → advance now doc log snaps (removing gone n) reg
          ≡ (record reg { rooms = OrdMap.remove gone reg.rooms }, going (evicting (suc n)))
    unfolding advance
    advance-removing reg gone n e = rw e refl

    -- What the loop with so much fuel does from these rooms.
    abbrev EvictsAs : DocRegistry → ℕ → ℕ → OrdMap Text DocRoom → Type 0
    EvictsAs reg f n m =
        (o : OrdMap Text DocRoom × ℕ) (c : ℕ)
        → evict_loop f now reg.config.max_rooms m ≡ o
        → c ≡ o.1 + n
        → run_alone (rounds f) now doc log snaps (record reg { rooms = m }, going (evicting n))
          ≡ with_result (open_after now doc log snaps (record reg { rooms = o.0 }, c))

    run-chosen :
        (reg : DocRegistry) (f n : ℕ) (m : OrdMap Text DocRoom) (v : Option (Text × ℕ))
        (o : OrdMap Text DocRoom × ℕ) (c : ℕ)
        → ((n : ℕ) (m : OrdMap Text DocRoom) → IsSorted m → length m ≤ f → EvictsAs reg f n m)
        → IsSorted m
        → length m ≤ suc f
        → victim now none m ≡ v
        → without_victim (evict_loop f now reg.config.max_rooms) m v ≡ o
        → c ≡ o.1 + n
        → run_alone (suc (rounds f)) now doc log snaps (record reg { rooms = m }, chosen n v)
          ≡ with_result (open_after now doc log snaps (record reg { rooms = o.0 }, c))
    unfolding run_alone
    run-chosen reg f n m none o c ih s h e q k =
        let (i, r) = rounds-suc f in run_end reg m o (suc (rounds f)) n c (suc i, ap suc r) q k
    run-chosen reg f n m (some (gone, last)) o c ih s h e q k =
        let there = victim-IsThere now m gone last s e in
        let rest = evict_loop f now reg.config.max_rooms (OrdMap.remove gone m) in
        let shorter : length (OrdMap.remove gone m) ≤ f =
          omega (arith, h, length-remove_found gone m there) in
        let count : c ≡ rest.1 + suc n =
          omega (arith, k, ap (λ (x : OrdMap Text DocRoom × ℕ). x.1) q) in
        ap (run_alone (rounds f) now doc log snaps)
          (advance-removing (record reg { rooms = m }) gone n there)
        ∙ ih (suc n) (OrdMap.remove gone m) (remove-IsSorted gone m s) shorter rest c refl count
        ∙ ap (λ a. with_result (open_after now doc log snaps (record reg { rooms = a }, c)))
            (ap (λ (x : OrdMap Text DocRoom × ℕ). x.0) q)

    run-evicting :
        (reg : DocRegistry) (f n : ℕ) (m : OrdMap Text DocRoom)
        → IsSorted m
        → length m ≤ f
        → EvictsAs reg f n m
    unfolding run_alone evict_loop victim
    run-evicting reg zero n [] s h o c q k = elim (Bool-cases (leb reg.config.max_rooms 0)) [
      | inl e ↦
          ap (run_alone 2 now doc log snaps) (advance-full (record reg { rooms = [] }) n e)
          ∙ run_end reg [] o 2 n c (0, refl) q k
      | inr e ↦
          ap (run_alone 2 now doc log snaps) (advance-below (record reg { rooms = [] }) n e)
          ∙ run_end reg [] o 2 n c (0, refl) q k
    ]
    run-evicting reg zero n (x ∷ m) s h o c q k = absurd (omega (arith, h))
    run-evicting reg (suc f) n m s h o c q k =
        elim (Bool-cases (leb reg.config.max_rooms (length m))) [
          | inl e ↦
              ap (run_alone (suc (rounds f)) now doc log snaps)
                (advance-full (record reg { rooms = m }) n e)
              ∙ run-chosen reg f n m (victim now none m) o c (run-evicting reg f) s h refl
                  (rw e at q) k
          | inr e ↦
              let (i, r) = rounds-suc f in
              ap (run_alone (suc (rounds f)) now doc log snaps)
                (advance-below (record reg { rooms = m }) n e)
              ∙ run_end reg m o (suc (rounds f)) n c (suc i, ap suc r) (rw e at q) k
        ]

    advance-checking_full :
        (reg : DocRegistry)
        → leb reg.config.max_rooms (length reg.rooms) ≡ true
        → advance now doc log snaps checking reg ≡ (reg, going (evicting 0))
    unfolding advance
    advance-checking_full reg e = rw e refl

    advance-checking_below :
        (reg : DocRegistry)
        → leb reg.config.max_rooms (length reg.rooms) ≡ false
        → advance now doc log snaps checking reg ≡ (reg, going hydrating)
    unfolding advance
    advance-checking_below reg e = rw e refl

    run-hydrating :
        (k : ℕ) (reg : DocRegistry)
        → run_alone (suc (suc k)) now doc log snaps (reg, going hydrating)
          ≡ with_result (open_in now doc log snaps reg)
    unfolding run_alone advance
    run-hydrating k reg =
        run-hydrated k reg (open_room now doc log snaps reg.config reg.seed_verifier)

    run-looked :
        (reg : DocRegistry) (o : Option DocRoom)
        → IsSorted reg.rooms
        → run_alone (suc (rounds (length reg.rooms))) now doc log snaps (reg, looked o)
          ≡ with_result (open_missing now doc log snaps reg o)
    unfolding run_alone evict_empty
    run-looked reg (some r) s = refl
    run-looked reg none s = elim (Bool-cases (leb reg.config.max_rooms (length reg.rooms))) [
      | inl e ↦
          let o = evict_loop (length reg.rooms) now reg.config.max_rooms reg.rooms in
          rw e (
            ap (run_alone (rounds (length reg.rooms)) now doc log snaps)
              (advance-checking_full reg e)
            ∙ run-evicting reg (length reg.rooms) 0 reg.rooms s (omega arith) o o.1 refl
                (omega arith))
      | inr e ↦
          let (k, r) = rounds-suc (length reg.rooms) in
          rw e (
            ap (run_alone (rounds (length reg.rooms)) now doc log snaps)
              (advance-checking_below reg e)
            ∙ ap (λ i. run_alone i now doc log snaps (reg, going hydrating)) r
            ∙ run-hydrating k reg)
    ]

    -- With no other task in between, the steps of a task give what `get_or_open` gives.
    pub get_or_open-alone :
        (reg : DocRegistry)
        → IsSorted reg.rooms
        → run_alone (suc (suc (rounds (length reg.rooms)))) now doc log snaps (reg, going looking)
          ≡ with_result (get_or_open now doc log snaps reg)
    unfolding run_alone advance get_or_open
    get_or_open-alone reg s = run-looked reg (OrdMap.get doc reg.rooms) s
