-- ===== src/Sync/Registry/Tasks/Bound.antt =====
-- How far the tasks that open rooms at the same time bring the registry over its limit.
use nisaba.Prelude.{
  ℕ, ◌+◌, ◌≤◌, ◌≡◌, refl, ap, ◌∙◌, ◌-◌, List, [], ◌∷◌, ◌++◌, Text, length, length-append, arith,
}
use nisaba.OrdMap.Order.{text_ord}
use nisaba.OrdMap.Laws.{IsSorted, insert-IsSorted, remove-IsSorted}
use nisaba.OrdMap.Keys.{is_there, length-remove, length-insert_found}
use nisaba.Sync.Config.{Config}
use nisaba.Sync.Authority.{Loro}
use nisaba.Sync.Room.{Channel, Stores}
use nisaba.Sync.Registry.{DocRegistry}
use nisaba.Sync.Registry.Tasks.{
  Phase, Opening, Progress, Shared, still, moved, Step, ask_step, task_step, drop_step, room_step,
  idle_step, Reach, here, next,
}
use nisaba.Sync.Registry.Tasks.Due.{
  room_due, all_due, all_due-le, all_due-append, all_due-still, length-still, IsWithin,
  advance-config, advance-IsSorted, advance-due,
}

module _ ⦃l : Loro⦄ ⦃ch : Channel⦄ ⦃st : Stores l.Version⦄ where
  -- The invariant, for a registry with a limit and at most `others` tasks beside each.
  record IsBounded (others max : ℕ) (s : Shared) : Type 0 where
    sorted : IsSorted s.registry.rooms
    limit : s.registry.config.max_rooms ≡ max
    few : length s.tasks ≤ others + 1
    bounded : length s.registry.rooms + all_due s.tasks ≤ max + others

  split_due :
      (before : List Opening) (t : Opening) (after ts : List Opening)
      → ts ≡ before ++ t ∷ after
      → all_due ts ≡ room_due t.phase + (all_due before + all_due after)
  split_due before t after ts h =
      let e = all_due-append before (t ∷ after) in rw h (omega (arith, e))

  split_length :
      (before : List Opening) (t : Opening) (after ts : List Opening)
      → ts ≡ before ++ t ∷ after
      → length ts ≡ length before + (length after + 1)
  split_length before t after ts h =
      let e = length-append before (t ∷ after) in rw h (omega (arith, e))

  moved-IsBounded :
      (others max : ℕ) (s : Shared) (before : List Opening) (doc : Text) (phase : Phase)
      (after : List Opening) (o : DocRegistry × Progress)
      → s.tasks ≡ before ++ record { doc = doc; phase = phase } ∷ after
      → o.0.config ≡ s.registry.config
      → ((bound : ℕ)
          → length s.registry.rooms + room_due phase ≤ bound
          → s.registry.config.max_rooms ≤ bound
          → IsWithin bound o)
      → IsSorted o.0.rooms
      → IsBounded others max s
      → IsBounded others max (moved before doc after o)
  moved-IsBounded others max s before doc phase after (reg, p) h c w sorted b =
      let task : Opening = record { doc = doc; phase = phase } in
      let e = split_due before task after s.tasks h in
      let n = split_length before task after s.tasks h in
      let others_due = all_due before + all_due after in
      let few : others_due ≤ others =
        omega (arith, all_due-le before, all_due-le after, n, b.few) in
      let bound = ((max + others) - others_due) in
      let within = w bound (omega (arith, e, b.bounded, few)) (omega (arith, b.limit, few)) in
      record {
        sorted = sorted;
        limit = ap (λ (c : Config). c.max_rooms) c ∙ b.limit;
        few =
            omega
              (arith, n, b.few, length-append before (still doc p after), length-still doc p after);
        bounded = omega (
          arith,
          within,
          few,
          all_due-append before (still doc p after),
          all_due-still doc p after,
        );
      }

  Step-IsBounded :
      (others max : ℕ) {s t : Shared}
      → Step others s t
      → IsBounded others max s
      → IsBounded others max t
  Step-IsBounded others max (ask_step s doc h) b = record {
    sorted = b.sorted;
    limit = b.limit;
    few = omega (arith, h);
    bounded = omega (arith, b.bounded);
  }
  Step-IsBounded others max (task_step s now log snaps before doc phase after h) b =
      moved-IsBounded others max s before doc phase after _ h
        (advance-config now doc log snaps phase s.registry)
        (λ bound. advance-due now doc log snaps phase s.registry bound)
        (advance-IsSorted now doc log snaps phase s.registry b.sorted) b
  Step-IsBounded others max (drop_step s before task after h) b = record {
    sorted = b.sorted;
    limit = b.limit;
    few =
        omega (arith, b.few, split_length before task after s.tasks h, length-append before after);
    bounded =
        omega
          (arith, b.bounded, split_due before task after s.tasks h, all_due-append before after);
  }
  Step-IsBounded others max (room_step s doc r r' h) b = record {
    sorted = insert-IsSorted doc r' s.registry.rooms b.sorted;
    limit = b.limit;
    few = b.few;
    bounded =
        omega
          (arith, b.bounded, length-insert_found doc r' s.registry.rooms b.sorted (ap is_there h));
  }
  Step-IsBounded others max (idle_step s doc) b = record {
    sorted = remove-IsSorted doc s.registry.rooms b.sorted;
    limit = b.limit;
    few = b.few;
    bounded = omega (arith, b.bounded, length-remove doc s.registry.rooms);
  }

  Reach-IsBounded :
      (others max : ℕ) {s t : Shared}
      → IsBounded others max s
      → Reach others s t
      → IsBounded others max t
  Reach-IsBounded others max b here = b
  Reach-IsBounded others max b (next reached step) =
      Step-IsBounded others max step (Reach-IsBounded others max b reached)

  -- From a registry whose paths ascend and that is within its limit, whatever order the steps of the tasks that open rooms, the
  -- changes of rooms and the evictions come in, where each task starts while at most `others` are
  -- opening rooms, the registry holds at most `others` rooms more than its limit: with no other task
  -- it keeps to it.
  pub Reach-bounded :
      (others : ℕ) (reg : DocRegistry) (s : Shared)
      → IsSorted reg.rooms
      → length reg.rooms ≤ reg.config.max_rooms
      → Reach others (record { registry = reg; tasks = [] }) s
      → length s.registry.rooms ≤ reg.config.max_rooms + others
  Reach-bounded others reg s sorted h reached =
      let b : IsBounded others reg.config.max_rooms s =
        Reach-IsBounded others reg.config.max_rooms
          (record { sorted = sorted; limit = refl; few = omega arith; bounded = omega (arith, h) })
          reached in
      omega (arith, b.bounded)
