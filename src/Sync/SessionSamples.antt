-- ===== src/Sync/SessionSamples.antt =====
-- Runs of the registry and of a handshake, and the theorems about them at concrete inputs.
use nisaba.Prelude.{
  ◌≤◌, ◌+◌, sym, subst, ◌≡◌, refl, true, false, Option, some, [], ◌∷◌, Text, length, arith,
}
use nisaba.OrdMap
use nisaba.OrdMap.Order.{nat_ord}
use nisaba.Core.RedlineStyle.{scalars}
use nisaba.Sync.Bytes.{Bytes}
use nisaba.Sync.Config.{Config, default_config}
use nisaba.Sync.Roles.{Role, author}
use nisaba.Sync.Room.Admission.{join}
use nisaba.OrdMap.Order.{text_ord}
use nisaba.Sync.Protocol.{decode}
use nisaba.Sync.Registry.{DocRegistry, get_or_open, evict_idle_rooms}
use nisaba.Sync.Error.{err, limit_exceeded}
use nisaba.Sync.Room.{DocRoom}
use nisaba.Sync.Room.Upkeep.{new_room}
use nisaba.Sync.Registry.Refused.{get_or_open-refused}
use nisaba.Sync.Registry.Tasks.{
  Phase, looking, checking, hydrating, inserting, Opening, going, with_result, advance, run_alone,
  Shared, moved, Step, ask_step, task_step, Reach, here, next,
}
use nisaba.Sync.Registry.Tasks.Bound.{Reach-bounded}
use nisaba.Sync.Session.{admitted, handshake, FrameRateLimiter, allow}
use nisaba.Sync.Session.Handshake.{Admitted, handshake-Admitted}
use nisaba.Sync.Fixtures.{appending, slots, listed, verifier, opened, channel, with_peer}

-- A registry for one room, which is empty, and one whose room has a session.
abbrev one_room : Config
one_room = record default_config { max_rooms = 1 }

abbrev idle_registry : DocRegistry
idle_registry = record {
  rooms = (scalars "d", opened) ∷ [];
  config = one_room;
  seed_verifier = verifier;
}

abbrev busy_registry : DocRegistry
busy_registry = record {
  rooms = (scalars "d", with_peer) ∷ [];
  config = one_room;
  seed_verifier = verifier;
}

idle_test : length (get_or_open 30 (scalars "e") [] [] idle_registry).0.rooms ≡ 1
unfolding get_or_open
idle_test = refl

get_or_open-refused_example :
    (run_alone 7 30 (scalars "e") [] [] (busy_registry, going looking)
      ≡ with_result (get_or_open 30 (scalars "e") [] [] busy_registry))
    × ((get_or_open 30 (scalars "e") [] [] busy_registry).1 ≡ err limit_exceeded)
unfolding OrdMap.get join
get_or_open-refused_example = get_or_open-refused 30 (scalars "e") [] [] busy_registry (tt, tt) refl

-- Two tasks that both find a registry with no room yet below its limit of one.
abbrev new_registry : DocRegistry
new_registry = record { rooms = []; config = one_room; seed_verifier = verifier }

abbrev room : Text → DocRoom
room doc = new_room 30 doc [] [] one_room verifier []

abbrev opening : Text → Phase → Opening
opening doc phase = record { doc = doc; phase = phase }

abbrev both : Phase → Phase → Shared
both p q = record {
  registry = new_registry;
  tasks = opening (scalars "d") p ∷ opening (scalars "e") q ∷ [];
}

abbrev none_open : Shared
none_open = record { registry = new_registry; tasks = [] }

abbrev one_asked : Shared
one_asked = record { registry = new_registry; tasks = opening (scalars "e") looking ∷ [] }

abbrev one_entered : Shared
one_entered = record {
  registry = record new_registry { rooms = (scalars "d", room (scalars "d")) ∷ [] };
  tasks = opening (scalars "e") (inserting (room (scalars "e"))) ∷ [];
}

abbrev two_rooms : Shared
two_rooms = record {
  registry = record new_registry {
    rooms = (scalars "d", room (scalars "d")) ∷ (scalars "e", room (scalars "e")) ∷ [];
  };
  tasks = [];
}

first_moves :
    (p p' q : Phase)
    → both p' q
      ≡ moved []
          (scalars "d")
          (opening (scalars "e") q ∷ [])
          (advance 30 (scalars "d") [] [] p new_registry)
    → Step 1 (both p q) (both p' q)
first_moves p p' q h =
    subst (λ t. Step 1 (both p q) t) (sym h)
      (task_step (both p q) 30 [] [] [] (scalars "d") p (opening (scalars "e") q ∷ []) refl)

second_moves :
    (p q q' : Phase)
    → both p q'
      ≡ moved
          (opening (scalars "d") p ∷ [])
          (scalars "e")
          []
          (advance 30 (scalars "e") [] [] q new_registry)
    → Step 1 (both p q) (both p q')
second_moves p q q' h =
    subst (λ t. Step 1 (both p q) t) (sym h)
      (task_step (both p q) 30 [] [] (opening (scalars "d") p ∷ []) (scalars "e") q [] refl)

first_enters :
    Step 1 (both (inserting (room (scalars "d"))) (inserting (room (scalars "e")))) one_entered
unfolding advance
first_enters =
    task_step (both (inserting (room (scalars "d"))) (inserting (room (scalars "e")))) 30 [] [] []
      (scalars "d") (inserting (room (scalars "d")))
      (opening (scalars "e") (inserting (room (scalars "e"))) ∷ []) refl

second_enters : Step 1 one_entered two_rooms
unfolding advance
second_enters =
    task_step one_entered 30 [] [] [] (scalars "e") (inserting (room (scalars "e"))) [] refl

raced : Reach 1 none_open two_rooms
unfolding advance
raced =
    next
      (next
        (next
          (next
            (next
              (next
                (next
                  (next
                    (next (next here (ask_step none_open (scalars "e") (omega arith)))
                      (ask_step one_asked (scalars "d") (omega arith)))
                    (first_moves looking checking looking refl))
                  (second_moves checking looking checking refl))
                (first_moves checking hydrating checking refl))
              (second_moves hydrating checking hydrating refl))
            (first_moves hydrating (inserting (room (scalars "d"))) hydrating refl))
          (second_moves (inserting (room (scalars "d"))) hydrating (inserting (room (scalars "e")))
            refl))
        first_enters)
      second_enters

-- Both rooms are open, and one more does not fit.
Reach-bounded_example : length two_rooms.registry.rooms ≤ new_registry.config.max_rooms + 1
Reach-bounded_example = Reach-bounded 1 new_registry two_rooms tt (omega arith) raced

idle_rooms_test : (evict_idle_rooms 900010 idle_registry).1 ≡ 1
unfolding evict_idle_rooms
idle_rooms_test = refl

abbrev full_window : FrameRateLimiter
full_window = record { limit = 2; window_start = 0; frames = 2 }

allow_test : (allow 999 full_window).1 ≡ false
unfolding allow
allow_test = refl

allow_again_test : (allow 1000 full_window).1 ≡ true
unfolding allow
allow_again_test = refl

-- A greeting of the document by peer 7.
abbrev hello_bytes : Bytes
hello_bytes =
    1 ∷ 2 ∷ 0 ∷ 0 ∷ 0 ∷ 1 ∷ 100 ∷ 0 ∷ 0 ∷ 0 ∷ 0 ∷ 0 ∷ 0 ∷ 0 ∷ 7 ∷ 0 ∷ 0 ∷ 0 ∷ 1 ∷ 116 ∷ 0 ∷ 0 ∷ 0
    ∷ 0 ∷ []

abbrev all_authors : Text → Text → Option Role
all_authors doc token = some author

handshake_test :
    (handshake 40 all_authors (scalars "d") hello_bytes channel 0 [] [] idle_registry).1
    ≡ admitted 7 author (scalars "t") 1 true
unfolding handshake
handshake_test = refl

handshake-Admitted_example :
    Admitted all_authors (scalars "d") (decode hello_bytes 4194304) 7 author (scalars "t")
handshake-Admitted_example =
    handshake-Admitted 40 all_authors (scalars "d") hello_bytes channel 0 [] [] idle_registry 7
      author (scalars "t") 1 true handshake_test
