-- ===== src/Sync/Session/Inbound.antt =====
-- services/sync/src/session.rs: the inbound messages of an admitted session.
use nisaba.Prelude.{ℕ, if◌then◌else◌, Bool, true, false, Option, none, some, List, [], ◌∷◌, Text}
use nisaba.OrdMap.Order.{text_ord}
use nisaba.Sync.Bytes.{Bytes}
use nisaba.Sync.Protocol
use nisaba.Sync.Protocol.{Frame, decode}
use nisaba.Sync.Error.{SyncError, SyncResult, ok, err}
use nisaba.Sync.Roles.{Role, same_role}
use nisaba.Sync.Authority.{Loro}
use nisaba.Sync.Room.{Channel, Stores, DocRoom}
use nisaba.Sync.Room.Updates.{handle_update}
use nisaba.Sync.Room.Upkeep.{handle_presence, handle_heartbeat, evict_for_rate_limit}
use nisaba.Sync.Session.{FrameRateLimiter, allow}
use nisaba.Sync.Session.Codes

-- The code for an update that fails.
abbrev pub update_code : SyncError → ℕ
update_code SyncError.access_denied = Codes.forbidden
update_code SyncError.review_policy = Codes.forbidden
update_code SyncError.limit_exceeded = Codes.too_large
update_code SyncError.loro_error = Codes.protocol
update_code e = Codes.internal

abbrev pub presence_code : SyncError → ℕ
presence_code SyncError.limit_exceeded = Codes.too_large
presence_code e = Codes.internal

-- A message of the socket: binary, a close, or one of the others.
pub data Message : Type 0 where
  binary : Bytes → Message
  close_message other_message : Message

-- What the session writes to the socket besides the room's frames.
pub data Reply : Type 0 where
  error_reply : ℕ → Reply
  update_reply : Bytes → Reply

pub record InboundSession : Type 0 where
  pub peer : ℕ
  pub role : Role
  pub token : Text
  pub doc_id : Text
  pub acknowledge_updates : Bool

-- The role that the bearer still has, or none with an error reply.
abbrev pub still_same : Role → Option Role → Option Role
still_same role none = none
still_same role (some current) = if same_role current role then some current else none

abbrev pub refresh_access : (Text → Text → Option Role) → InboundSession → Option Role
refresh_access access s = still_same s.role (access s.doc_id s.token)

module _ ⦃l : Loro⦄ ⦃ch : Channel⦄ ⦃st : Stores l.Version⦄ where
  -- The answer to an update: an error, or the update again for a session that asks for it.
  abbrev pub update_replies :
      Bool → InboundSession → Bytes → DocRoom × SyncResult (Unit {0}) → DocRoom × List Reply × Bool
  update_replies sent_ok s b (room, err e) = (room, error_reply (update_code e) ∷ [], true)
  update_replies sent_ok s b (room, ok u) =
      if s.acknowledge_updates then (room, update_reply b ∷ [], sent_ok) else (room, [], true)

  abbrev pub presence_replies : DocRoom × SyncResult (Unit {0}) → DocRoom × List Reply × Bool
  presence_replies (room, err e) = (room, error_reply (presence_code e) ∷ [], true)
  presence_replies (room, ok u) = (room, [], true)

  abbrev pub refreshed_update :
      ℕ → Bool → InboundSession → Bytes → DocRoom → Option Role → DocRoom × List Reply × Bool
  refreshed_update now sent_ok s b room none = (room, error_reply Codes.forbidden ∷ [], false)
  refreshed_update now sent_ok s b room (some role) =
      update_replies sent_ok s b (handle_update now s.peer role b room)

  abbrev pub refreshed_heartbeat :
      ℕ → InboundSession → DocRoom → Option Role → DocRoom × List Reply × Bool
  refreshed_heartbeat now s room none = (room, error_reply Codes.forbidden ∷ [], false)
  refreshed_heartbeat now s room (some role) = (handle_heartbeat now s.peer room, [], true)

  -- A frame, by its kind; `sent_ok` is whether the socket took the echo of an update.
  abbrev pub handle_frame :
      ℕ
      → Bool
      → (Text → Text → Option Role)
      → InboundSession
      → DocRoom
      → Protocol.Result Frame
      → DocRoom × List Reply × Bool
  handle_frame now sent_ok access s room (Protocol.err e) =
      (room, error_reply Codes.protocol ∷ [], true)
  handle_frame now sent_ok access s room (Protocol.ok (Frame.update b)) =
      refreshed_update now sent_ok s b room (refresh_access access s)
  handle_frame now sent_ok access s room (Protocol.ok (Frame.presence state)) =
      presence_replies (handle_presence now s.peer state room)
  handle_frame now sent_ok access s room (Protocol.ok Frame.heartbeat) =
      refreshed_heartbeat now s room (refresh_access access s)
  handle_frame now sent_ok access s room (Protocol.ok Frame.bye) = (room, [], false)
  handle_frame now sent_ok access s room (Protocol.ok f) =
      (room, error_reply Codes.protocol ∷ [], true)

  abbrev pub with_rate :
      FrameRateLimiter
      → DocRoom × List Reply × Bool
      → FrameRateLimiter × DocRoom × List Reply × Bool
  with_rate rate (room, replies, goes_on) = (rate, room, replies, goes_on)

  -- The limiter and the room after a message, the replies, and whether the session goes on.
  unfoldable pub handle_message :
      ℕ
      → Bool
      → (Text → Text → Option Role)
      → InboundSession
      → ℕ
      → Message
      → FrameRateLimiter
      → DocRoom
      → FrameRateLimiter × DocRoom × List Reply × Bool
  unfolding allow decode handle_update handle_presence handle_heartbeat evict_for_rate_limit
  handle_message now sent_ok access s max_blob close_message rate room = (rate, room, [], false)
  handle_message now sent_ok access s max_blob other_message rate room = (rate, room, [], true)
  handle_message now sent_ok access s max_blob (binary bytes) rate room =
      if (allow now rate).1
      then with_rate (allow now rate).0
          (handle_frame now sent_ok access s room (decode bytes max_blob))
      else (
        (allow now rate).0,
        evict_for_rate_limit s.peer room,
        error_reply Codes.limit ∷ [],
        false,
      )
