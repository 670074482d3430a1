-- ===== src/Sync/Session/Codes.antt =====
-- services/sync/src/session.rs: the close codes of the application.
use nisaba.Prelude.{ℕ}

abbrev pub protocol : ℕ
protocol = 4000

abbrev pub bad_doc_id : ℕ
bad_doc_id = 4001

abbrev pub forbidden : ℕ
forbidden = 4003

abbrev pub limit : ℕ
limit = 4029

abbrev pub too_large : ℕ
too_large = 4130

abbrev pub internal : ℕ
internal = 4500
