-- ===== src/Sync/Error.antt =====
-- services/sync/src/error.rs: the errors of the service, without the texts of their messages.
use nisaba.Prelude.{◌≡◌, ap}
use nisaba.Sync.Protocol.{ProtoError}

pub data SyncError : Type 0 where
  protocol_error : ProtoError → SyncError
  invalid_doc_id access_denied limit_exceeded loro_error review_policy storage_error handshake_error
        internal_error :
      SyncError

pub data SyncResult {ℓ} (A : Type ℓ) : Type ℓ where
  ok : A → SyncResult A
  err : SyncError → SyncResult A

abbrev result_or {ℓ} : {A : Type ℓ} → A → SyncResult A → A
result_or d (ok a) = a
result_or d (err e) = d

pub ok_injective {ℓ} : {A : Type ℓ} {a b : A} → ok a ≡ ok b → a ≡ b
ok_injective {A} {a} {b} e = ap (result_or a) e
