-- ===== src/Sync/Samples.antt =====
-- Runs of rooms, and the theorems about rooms and roles at concrete inputs.
use nisaba.Prelude.{ℕ, ◌≤◌, ◌≡◌, ◌↔◌, refl, true, false, ◌&&◌, Option, none, some, List, [], ◌∷◌}
use nisaba.OrdMap
use nisaba.OrdMap.Order.{nat_ord}
use nisaba.Core.RedlineStyle.{scalars}
use nisaba.Sync.Protocol.{Frame}
use nisaba.Sync.Error.{SyncResult, ok, err}
use nisaba.Sync.Config.{default_config}
use nisaba.Sync.Roles.{
  author, reviewer, read_only, rank, least_privileged, can_push_updates, strongest_role, max_role,
}
use nisaba.Sync.Roles.Privilege.{roles_clamped}
use nisaba.Sync.Authority.{ReviewDelta, review_delta}
use nisaba.Sync.Room.{SessionSlot, DocRoom}
use nisaba.Sync.Room.Admission.{JoinOutcome, join, leave}
use nisaba.Sync.Room.Updates.{push_update, relay_update, enforce_reviewer_policy}
use nisaba.Sync.Room.Upkeep.{open_room}
use nisaba.Sync.Room.Sound.{IsSound}
use nisaba.Sync.Room.Steps.{
  join_step, leave_step, push_step, relay_step, Reach, here, next, Reach-opened,
}
use nisaba.Sync.Room.Greeted.{starts_welcome}
use nisaba.Sync.Room.Greeted.Reached.{Reach-greeted}
use nisaba.Sync.Room.Fenced.Stale.{leave-stale}
use nisaba.Sync.Room.Durable.{IsDurable, push_update-IsDurable}
use nisaba.Sync.Room.Policy.{IsAllowed, enforce_reviewer_policy_exact}
use nisaba.OrdMap.Order.{text_ord}
use nisaba.Sync.Fixtures.{appending, slots, listed, verifier, opened, channel, with_peer}

roles_clamped_example :
    (strongest_role (read_only ∷ author ∷ reviewer ∷ [])
      ≡ max_role (read_only ∷ author ∷ reviewer ∷ []))
    × (rank (least_privileged author read_only) ≤ rank author)
    × (rank (least_privileged author read_only) ≤ rank read_only)
    × (can_push_updates (least_privileged author read_only)
        ≡ can_push_updates author && can_push_updates read_only)
roles_clamped_example = roles_clamped (read_only ∷ author ∷ reviewer ∷ []) author read_only

opened_test : open_room 10 (scalars "d") [] [] default_config verifier ≡ ok opened
unfolding open_room
opened_test = refl

abbrev joined_outcome : SyncResult JoinOutcome → ℕ
joined_outcome (ok w) = w.generation
joined_outcome (err e) = 0

joined_test : joined_outcome (join 11 7 author [] [] channel 0 opened).1 ≡ 1
unfolding join
joined_test = refl

-- Peer 7 joins, then peer 9, and the first pushes and relays an update.
abbrev busy : DocRoom
busy =
    relay_update 14 7 (1 ∷ [])
      (push_update 13 7 author (1 ∷ []) (join 12 9 reviewer [] [] channel 1 with_peer).0).0

busy-Reach : Reach opened busy
busy-Reach =
    next
      (next
        (next (next here (join_step opened 11 7 author [] [] channel 0 refl))
          (join_step with_peer 12 9 reviewer [] [] channel 1 refl))
        (push_step (join 12 9 reviewer [] [] channel 1 with_peer).0 13 7 author (1 ∷ [])))
      (relay_step
        (push_update 13 7 author (1 ∷ []) (join 12 9 reviewer [] [] channel 1 with_peer).0).0 14 7
        (1 ∷ []))

Reach-opened_example : IsSound busy
Reach-opened_example =
    Reach-opened 10 (scalars "d") [] [] default_config verifier opened busy opened_test busy-Reach

abbrev slot_tx : Option SessionSlot → ℕ × List Frame
slot_tx none = channel
slot_tx (some s) = s.tx

abbrev first_slot : SessionSlot
first_slot = record { tx = slot_tx (OrdMap.get 7 busy.sessions); generation = 1; close = 0 }

busy_test : OrdMap.get 7 busy.sessions ≡ some first_slot
unfolding relay_update push_update join
busy_test = refl

Reach-greeted_example : starts_welcome (slots.taken first_slot.tx) ≡ true
Reach-greeted_example =
    Reach-greeted 10 (scalars "d") [] [] default_config verifier opened busy 7 first_slot
      opened_test busy-Reach busy_test

abbrev left : DocRoom
left = (leave 12 7 1 with_peer).0

abbrev outcome_or : JoinOutcome → SyncResult JoinOutcome → JoinOutcome
outcome_or d (ok w) = w
outcome_or d (err e) = d

abbrev no_outcome : JoinOutcome
no_outcome = record { welcome = Frame.bye; generation = 0 }

abbrev first_outcome : JoinOutcome
first_outcome = outcome_or no_outcome (join 11 7 author [] [] channel 0 opened).1

abbrev second_outcome : JoinOutcome
second_outcome = outcome_or no_outcome (join 13 7 reviewer [] [] channel 1 left).1

first_test : (join 11 7 author [] [] channel 0 opened).1 ≡ ok first_outcome
unfolding join
first_test = refl

second_test : (join 13 7 reviewer [] [] channel 1 left).1 ≡ ok second_outcome
unfolding join leave
second_test = refl

leave-stale_example :
    leave 14 7 first_outcome.generation (join 13 7 reviewer [] [] channel 1 left).0
    ≡ ((join 13 7 reviewer [] [] channel 1 left).0, false)
leave-stale_example =
    leave-stale 11 7 author [] [] channel 0 opened left first_outcome 13 reviewer [] [] channel 1
      second_outcome 14
      (Reach-opened 10 (scalars "d") [] [] default_config verifier opened opened opened_test here)
      first_test (next here (leave_step with_peer 12 7 1)) second_test

push_test : (push_update 13 7 author (1 ∷ 2 ∷ []) with_peer).0.op_log ≡ (1 ∷ 2 ∷ []) ∷ []
unfolding push_update join
push_test = refl

push_update-IsDurable_example :
    IsDurable (1 ∷ 2 ∷ []) with_peer (push_update 13 7 author (1 ∷ 2 ∷ []) with_peer)
push_update-IsDurable_example = push_update-IsDurable 13 7 author (1 ∷ 2 ∷ []) with_peer

-- A seed of three characters by a reviewer, which the verifier confirms.
abbrev seed_delta : ReviewDelta
seed_delta = record {
  touches_text = true;
  touches_review = false;
  text_before = [];
  text_after = 4 ∷ 5 ∷ 6 ∷ [];
  review_before = [];
  review_after = [];
}

seed_test : review_delta (4 ∷ 5 ∷ 6 ∷ []) opened.authority ≡ ok seed_delta
unfolding review_delta
seed_test = refl

enforce_reviewer_policy_exact_example :
    (((enforce_reviewer_policy 20 7 (4 ∷ 5 ∷ 6 ∷ []) opened).1 ≡ ok tt)
      ↔ IsAllowed 20 7 seed_delta opened)
    × (seed_delta.touches_review ≡ true
        → OrdMap.get 7 (enforce_reviewer_policy 20 7 (4 ∷ 5 ∷ 6 ∷ []) opened).0.review_touched
          ≡ some 20)
enforce_reviewer_policy_exact_example =
    enforce_reviewer_policy_exact 20 7 (4 ∷ 5 ∷ 6 ∷ []) seed_delta opened seed_test
