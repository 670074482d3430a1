-- ===== src/Sync/Authority.antt =====
-- services/sync/src/authority.rs: the authoritative replica of a document.
use nisaba.Prelude.{
  if◌then◌else◌, Bool, true, false, not, Option, none, some, List, [], ◌∷◌, Text, sort_by,
}
use Prim.Native.Nat.{Ordering}
use nisaba.OrdMap.Order.{compare_text, then_with}
use nisaba.Core.Review.Tiers.{same_text}
use nisaba.Sync.Bytes.{Bytes}
use nisaba.Sync.Protocol.{CatchUp, nothing, updates, snapshot_of}
use nisaba.Sync.Error.{SyncResult, ok, err, loro_error}

-- What the service uses of the Loro CRDT. An import returns the replica with whether it succeeded;
-- the other fallible operations return an option. The entries of the review container are its keys
-- with the debug form of their values.
pub record Loro : Type 1 where
  pub Replica : Type 0
  pub Version : Type 0
  pub new_doc : Replica
  pub import_bytes : Bytes → Replica → Replica × Bool
  pub fork : Replica → Replica
  pub oplog_vv : Replica → Version
  pub includes_vv : Version → Version → Bool
  pub same_vv : Version → Version → Bool
  pub is_empty_vv : Version → Bool
  pub decode_vv : Bytes → Option Version
  pub partial_end_vv : Bytes → Option Version
  pub export_updates : Version → Replica → Option Bytes
  pub export_all : Replica → Option Bytes
  pub text_of : Replica → Text
  pub review_entries : Replica → List (Text × Text)

abbrev pub entry_order : Text × Text → Text × Text → Ordering
entry_order a b = then_with (compare_text a.0 b.0) (compare_text a.1 b.1)

abbrev pub same_entries : List (Text × Text) → List (Text × Text) → Bool
same_entries [] [] = true
same_entries [] (y ∷ b) = false
same_entries (x ∷ a) [] = false
same_entries (x ∷ a) (y ∷ b) =
    if same_text x.0 y.0 then (if same_text x.1 y.1 then same_entries a b else false) else false

-- The option of the package as a result of the service (`From<LoroError>`).
abbrev pub loro_result {ℓ} : {A : Type ℓ} → Option A → SyncResult A
loro_result none = err loro_error
loro_result (some a) = ok a

abbrev pub is_nil {ℓ} : {A : Type ℓ} → List A → Bool
is_nil [] = true
is_nil (x ∷ xs) = false

abbrev pub map_ok {ℓ κ} : {A : Type ℓ} {B : Type κ} → (A → B) → SyncResult A → SyncResult B
map_ok f (ok a) = ok (f a)
map_ok f (err e) = err e

-- The texts and the fingerprints before and after are those that the flags compare.
pub record ReviewDelta : Type 0 where
  pub touches_text : Bool
  pub touches_review : Bool
  pub text_before : Text
  pub text_after : Text
  pub review_before : List (Text × Text)
  pub review_after : List (Text × Text)

module _ ⦃l : Loro⦄ where
  abbrev pub imported : l.Replica × Bool → SyncResult l.Replica
  imported (doc, true) = ok doc
  imported (doc, false) = err loro_error

  abbrev pub from_snapshot : Bytes → SyncResult l.Replica
  from_snapshot bytes = imported (l.import_bytes bytes l.new_doc)

  abbrev pub import_result : l.Replica × Bool → l.Replica × SyncResult l.Version
  import_result (doc, true) = (doc, ok (l.oplog_vv doc))
  import_result (doc, false) = (doc, err loro_error)

  unfoldable pub import_update : Bytes → l.Replica → l.Replica × SyncResult l.Version
  import_update bytes doc = import_result (l.import_bytes bytes doc)

  abbrev pub text_is_empty : l.Replica → Bool
  text_is_empty doc = is_nil (l.text_of doc)

  -- The fingerprint is the debug form of the sorted entries, which is the same for the same entries.
  unfoldable pub review_fingerprint : l.Replica → List (Text × Text)
  unfolding sort_by
  review_fingerprint doc = sort_by entry_order (l.review_entries doc)

  abbrev pub delta_of : l.Replica → l.Replica × Bool → SyncResult ReviewDelta
  delta_of doc (fork, false) = err loro_error
  delta_of doc (fork, true) = ok (record {
    touches_text = not (same_text (l.text_of doc) (l.text_of fork));
    touches_review = not (same_entries (review_fingerprint doc) (review_fingerprint fork));
    text_before = l.text_of doc;
    text_after = l.text_of fork;
    review_before = review_fingerprint doc;
    review_after = review_fingerprint fork;
  })

  unfoldable pub review_delta : Bytes → l.Replica → SyncResult ReviewDelta
  unfolding review_fingerprint
  review_delta bytes doc = delta_of doc (l.import_bytes bytes (l.fork doc))

  abbrev pub export_snapshot : l.Replica → SyncResult Bytes
  export_snapshot doc = loro_result (l.export_all doc)

  abbrev pub exported : Option Bytes → SyncResult CatchUp
  exported none = err loro_error
  exported (some []) = ok nothing
  exported (some (b ∷ bs)) = ok (updates (b ∷ bs))

  abbrev pub catch_up_from : l.Replica → Option l.Version → SyncResult CatchUp
  catch_up_from doc none = err loro_error
  catch_up_from doc (some from) =
      if l.includes_vv from (l.oplog_vv doc)
      then ok nothing
      else exported (l.export_updates from doc)

  unfoldable pub catchup : Bytes → l.Replica → SyncResult CatchUp
  catchup [] doc = map_ok snapshot_of (export_snapshot doc)
  catchup (b ∷ bs) doc = catch_up_from doc (l.decode_vv (b ∷ bs))

  unfoldable pub export_state : l.Replica → SyncResult (Option Bytes)
  export_state doc =
      if l.is_empty_vv (l.oplog_vv doc) then ok none else map_ok some (export_snapshot doc)
