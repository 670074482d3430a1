-- ===== src/Sync/Session.antt =====
-- services/sync/src/session.rs: the frame rate limit, and the handshake of a connection.
pub mod Codes
pub mod Handshake
pub mod Inbound
use nisaba.Prelude.{
  add_u32, ℕ, ◌+◌, ◌-◌, ◌==◌, leb, if◌then◌else◌, Bool, true, false, not, ◌&&◌, Option, none, some,
  List, [], ◌∷◌, Text, length,
}
use nisaba.OrdMap
use nisaba.OrdMap.{OrdMap}
use nisaba.OrdMap.Order.{text_ord}
use nisaba.Core.Review.Tiers.{same_text}
use nisaba.Sync.Bytes.{Bytes}
use nisaba.Sync.Utf8.{as_bytes}
use nisaba.Sync.Protocol
use nisaba.Sync.Protocol.{Frame, decode}
use nisaba.Sync.Error.{
  SyncError, SyncResult, ok, err, limit_exceeded, access_denied, review_policy, loro_error,
}
use nisaba.Sync.Config.{Config, check_hello_field_size, peer_id, max_token_bytes, max_vv_bytes}
use nisaba.Sync.Roles.{Role, same_role}
use nisaba.Sync.Authority.{Loro}
use nisaba.Sync.Room.{Channel, Stores, DocRoom, close_resync_required}
use nisaba.Sync.Room.Admission
use nisaba.Sync.Room.Admission.{JoinOutcome}
use nisaba.Sync.Room.Updates.{handle_update}
use nisaba.Sync.Room.Upkeep.{handle_presence, handle_heartbeat, evict_for_rate_limit}
use nisaba.Sync.Registry.{DocRegistry, get_or_open}

pub record FrameRateLimiter : Type 0 where
  pub limit : ℕ
  pub window_start : ℕ
  pub frames : ℕ

-- A window of a second that is over starts anew.
abbrev pub current_window : ℕ → FrameRateLimiter → FrameRateLimiter
current_window now rate =
    if leb 1000 (now - rate.window_start)
    then record rate { window_start = now; frames = 0 }
    else rate

unfoldable pub allow : ℕ → FrameRateLimiter → FrameRateLimiter × Bool
allow now rate =
    let w = current_window now rate in
    (record w { frames = add_u32 w.frames 1 }, leb (add_u32 w.frames 1) w.limit)

-- What a handshake comes to: a code that the peer is told, or the session.
pub data Outcome : Type 0 where
  told : ℕ → Outcome
  admitted : ℕ → Role → Text → ℕ → Bool → Outcome

-- The code for a join that fails.
abbrev pub join_code : SyncError → ℕ
join_code SyncError.limit_exceeded = Codes.limit
join_code SyncError.access_denied = Codes.forbidden
join_code e = Codes.internal

abbrev pub is_err {ℓ} : {A : Type ℓ} → SyncResult A → Bool
is_err (ok a) = false
is_err (err e) = true

module _ ⦃l : Loro⦄ ⦃ch : Channel⦄ ⦃st : Stores l.Version⦄ where
  -- The registered room is the one that the join changed.
  abbrev pub after_join :
      Text
      → ℕ
      → Role
      → Text
      → ℕ
      → DocRegistry
      → DocRoom × SyncResult JoinOutcome
      → DocRegistry × Outcome
  after_join doc peer role token proto reg (room, ok w) = (
    record reg { rooms = OrdMap.insert doc room reg.rooms },
    admitted peer role token w.generation (leb 2 proto),
  )
  after_join doc peer role token proto reg (room, err e) =
      (record reg { rooms = OrdMap.insert doc room reg.rooms }, told (join_code e))

  abbrev pub join_room :
      ℕ
      → Text
      → ℕ
      → Role
      → Text
      → ℕ
      → Bytes
      → ch.Sender
      → ℕ
      → DocRegistry × SyncResult DocRoom
      → DocRegistry × Outcome
  join_room now doc peer role token proto vv tx close (reg, err e) = (reg, told Codes.internal)
  join_room now doc peer role token proto vv tx close (reg, ok room) =
      after_join doc peer role token proto reg (Admission.join now peer role vv [] tx close room)

  abbrev pub authorized :
      ℕ
      → Text
      → ℕ
      → Text
      → ℕ
      → Bytes
      → ch.Sender
      → ℕ
      → st.Log
      → st.Snapshots
      → DocRegistry
      → Option Role
      → DocRegistry × Outcome
  authorized now doc peer token proto vv tx close log snaps reg none = (reg, told Codes.forbidden)
  authorized now doc peer token proto vv tx close log snaps reg (some role) =
      join_room now doc peer role token proto vv tx close (get_or_open now doc log snaps reg)

  -- The checks of the first frame.
  abbrev pub greeted :
      ℕ
      → (Text → Text → Option Role)
      → Text
      → ch.Sender
      → ℕ
      → st.Log
      → st.Snapshots
      → DocRegistry
      → Protocol.Result Frame
      → DocRegistry × Outcome
  greeted now access doc tx close log snaps reg (Protocol.ok (Frame.hello proto d peer token vv)) =
      if not (proto == 1) && not (proto == 2)
      then (reg, told Codes.protocol)
      else if not (same_text d doc)
      then (reg, told Codes.bad_doc_id)
      else if is_err (peer_id peer)
      then (reg, told Codes.bad_doc_id)
      else if is_err (check_hello_field_size (length (as_bytes token)) max_token_bytes)
      then (reg, told Codes.too_large)
      else if is_err (check_hello_field_size (length vv) max_vv_bytes)
      then (reg, told Codes.too_large)
      else authorized now doc peer token proto vv tx close log snaps reg (access doc token)
  greeted now access doc tx close log snaps reg frame = (reg, told Codes.protocol)

  unfoldable pub handshake :
      ℕ
      → (Text → Text → Option Role)
      → Text
      → Bytes
      → ch.Sender
      → ℕ
      → st.Log
      → st.Snapshots
      → DocRegistry
      → DocRegistry × Outcome
  unfolding decode as_bytes get_or_open Admission.join OrdMap.insert
  handshake now access doc bytes tx close log snaps reg =
      greeted now access doc tx close log snaps reg (decode bytes reg.config.max_update_bytes)
