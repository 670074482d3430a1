-- ===== src/Sync/Config.antt =====
-- services/sync/src/config.rs: the limits, and the checks of identifiers and sizes.
use nisaba.Prelude.{
  ℕ, ◌==◌, ltb, leb, if◌then◌else◌, Bool, true, false, ◌||◌, ◌&&◌, all, [], ◌∷◌, Text, length,
}
use nisaba.Sync.Error.{SyncResult, ok, err, invalid_doc_id, limit_exceeded, handshake_error}
use nisaba.Sync.Utf8.{as_bytes}

abbrev pub max_doc_id_len : ℕ
max_doc_id_len = 128

abbrev pub max_vv_bytes : ℕ
max_vv_bytes = 65536

abbrev pub max_presence_bytes : ℕ
max_presence_bytes = 16384

abbrev pub max_token_bytes : ℕ
max_token_bytes = 16384

pub record Config : Type 0 where
  pub max_update_bytes : ℕ
  pub max_snapshot_bytes : ℕ
  pub max_peers_per_doc : ℕ
  pub presence_ttl_ms : ℕ
  pub presence_sweep_ms : ℕ
  pub snapshot_every_updates : ℕ
  pub max_rooms : ℕ
  pub evict_idle_ttl_ms : ℕ
  pub handshake_timeout_ms : ℕ
  pub max_frames_per_second : ℕ
  pub presence_coalesce_ms : ℕ

abbrev pub default_config : Config
default_config = record {
  max_update_bytes = 4194304;
  max_snapshot_bytes = 67108864;
  max_peers_per_doc = 64;
  presence_ttl_ms = 30000;
  presence_sweep_ms = 5000;
  snapshot_every_updates = 256;
  max_rooms = 1024;
  evict_idle_ttl_ms = 900000;
  handshake_timeout_ms = 10000;
  max_frames_per_second = 200;
  presence_coalesce_ms = 250;
}

abbrev pub check_size : ℕ → ℕ → SyncResult (Unit {0})
check_size len max = if ltb max len then err limit_exceeded else ok tt

abbrev pub check_update_size : Config → ℕ → SyncResult (Unit {0})
check_update_size config len = check_size len config.max_update_bytes

abbrev pub check_hello_field_size : ℕ → ℕ → SyncResult (Unit {0})
check_hello_field_size len max = check_size len max

-- `PeerId::new`
abbrev pub peer_id : ℕ → SyncResult ℕ
peer_id id = if id == 0 then err handshake_error else ok id

abbrev pub is_allowed_doc_id_byte : ℕ → Bool
is_allowed_doc_id_byte b =
    (leb 65 b && leb b 90)
    || ((leb 97 b && leb b 122) || ((leb 48 b && leb b 57) || (b == 46 || (b == 95 || b == 45))))

abbrev pub starts_with_dot : Text → Bool
starts_with_dot [] = false
starts_with_dot (c ∷ cs) = c == 46

-- The segments between the underscores: whether one of them is `..`.
abbrev pub is_two_dots : Text → Bool
is_two_dots [] = false
is_two_dots (a ∷ []) = false
is_two_dots (a ∷ b ∷ []) = a == 46 && b == 46
is_two_dots (a ∷ b ∷ c ∷ rest) = a == 46 && (b == 46 && c == 95)

unfoldable pub has_parent_segment : Bool → Text → Bool
has_parent_segment at_start [] = false
has_parent_segment at_start (c ∷ cs) =
    let rest = has_parent_segment (c == 95) cs in (at_start && is_two_dots (c ∷ cs)) || rest

unfoldable pub validate_doc_id : Text → SyncResult Text
unfolding has_parent_segment as_bytes
validate_doc_id id =
    if length (as_bytes id) == 0 || ltb max_doc_id_len (length (as_bytes id))
    then err invalid_doc_id
    else if starts_with_dot id
    then err invalid_doc_id
    else if all is_allowed_doc_id_byte (as_bytes id)
    then (if has_parent_segment true id then err invalid_doc_id else ok id)
    else err invalid_doc_id
