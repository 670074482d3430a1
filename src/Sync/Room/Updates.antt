-- ===== src/Sync/Room/Updates.antt =====
-- services/sync/src/room.rs: the updates of a document, from the policy to the relay.
use nisaba.Prelude.{
  ℕ, ◌+◌, ◌-◌, ◌==◌, leb, if◌then◌else◌, Bool, true, false, Option, none, some, length,
}
use nisaba.OrdMap
use nisaba.OrdMap.{OrdMap}
use nisaba.OrdMap.Order.{nat_ord}
use nisaba.Sync.Bytes.{Bytes}
use nisaba.Sync.Protocol
use nisaba.Sync.Protocol.{Frame}
use nisaba.Sync.Error.{SyncResult, ok, err, access_denied, loro_error, review_policy}
use nisaba.Sync.Config.{check_update_size}
use nisaba.Sync.Roles.{Role, author, reviewer, read_only, can_push_updates}
use nisaba.Sync.Authority.{
  Loro, ReviewDelta, review_delta, text_is_empty, import_update, export_snapshot,
}
use nisaba.Sync.Room.{Channel, Stores, DocRoom, fanout_to, fanout_except, touch}

abbrev pub reviewer_text_window_ms : ℕ
reviewer_text_window_ms = 30000

module _ ⦃l : Loro⦄ ⦃ch : Channel⦄ ⦃st : Stores l.Version⦄ where
  -- A snapshot that was put resets the count.
  abbrev pub put_done :
      DocRoom → st.Snapshots × SyncResult (Unit {0}) → DocRoom × SyncResult l.Version
  put_done r (snaps, ok u) =
      (record r { snapshots = snaps; updates_since_snapshot = 0 }, ok (l.oplog_vv r.authority))
  put_done r (snaps, err e) = (record r { snapshots = snaps }, err e)

  abbrev pub put_snapshot : DocRoom → SyncResult Bytes → DocRoom × SyncResult l.Version
  put_snapshot r (err e) = (r, err e)
  put_snapshot r (ok bytes) =
      put_done r
        (st.put r.doc_id (record { vv = l.oplog_vv r.authority; bytes = bytes }) r.snapshots)

  unfoldable pub snapshot_now : DocRoom → DocRoom × SyncResult l.Version
  snapshot_now r = put_snapshot r (export_snapshot r.authority)

  abbrev pub was_written {ℓ} : {A : Type ℓ} → DocRoom × SyncResult A → DocRoom × SyncResult Bool
  was_written (r, ok a) = (r, ok true)
  was_written (r, err e) = (r, err e)

  unfoldable pub snapshot_if_dirty : DocRoom → DocRoom × SyncResult Bool
  unfolding snapshot_now
  snapshot_if_dirty r =
      if r.updates_since_snapshot == 0 then (r, ok false) else was_written (snapshot_now r)

  -- What an import that advanced the authority counts, with the snapshot that may follow.
  unfoldable pub count_update : DocRoom → DocRoom
  unfolding snapshot_now
  count_update r =
      let counted = record r { updates_since_snapshot = r.updates_since_snapshot + 1 } in
      if leb r.config.snapshot_every_updates (r.updates_since_snapshot + 1)
      then (snapshot_now counted).0
      else counted

  -- The end of an import, by its result, with the version before.
  abbrev pub advance :
      l.Version → DocRoom → l.Replica × SyncResult l.Version → DocRoom × SyncResult Bool
  advance before r (doc, err e) = (record r { authority = doc }, err e)
  advance before r (doc, ok after) =
      if l.same_vv after before
      then (record r { authority = doc }, ok false)
      else (count_update (record r { authority = doc }), ok true)

  -- The import of an update that the log took.
  abbrev pub import_logged :
      Bytes → DocRoom → st.Log × SyncResult (Unit {0}) → DocRoom × SyncResult Bool
  import_logged bytes r (log, err e) = (record r { op_log = log }, err e)
  import_logged bytes r (log, ok u) =
      advance (l.oplog_vv r.authority) (record r { op_log = log }) (import_update bytes r.authority)

  -- The update is persisted unless the authority includes it.
  abbrev pub persist : Bytes → DocRoom → Option l.Version → DocRoom × SyncResult Bool
  persist bytes r none = (r, err loro_error)
  persist bytes r (some end_vv) =
      if l.includes_vv (l.oplog_vv r.authority) end_vv
      then (r, ok false)
      else import_logged bytes r (st.append r.doc_id bytes r.op_log)

  unfoldable pub import_and_persist : Bytes → DocRoom → DocRoom × SyncResult Bool
  unfolding count_update import_update
  import_and_persist bytes r =
      if (l.import_bytes bytes l.new_doc).1
      then persist bytes r (l.partial_end_vv bytes)
      else (r, err loro_error)

  -- The answer of the seed verifier, with `none` for its error.
  abbrev pub seed_verdict : Option Bool → SyncResult (Unit {0})
  seed_verdict (some true) = ok tt
  seed_verdict (some false) = err review_policy
  seed_verdict none = err review_policy

  abbrev pub in_window : ℕ → Option ℕ → Bool
  in_window now none = false
  in_window now (some at) = leb (now - at) reviewer_text_window_ms

  -- The verdict on a change of the text alone.
  unfoldable pub text_verdict : ℕ → ℕ → ReviewDelta → DocRoom → SyncResult (Unit {0})
  unfolding OrdMap.get
  text_verdict now sender delta r =
      if text_is_empty r.authority
      then seed_verdict (r.seed_verifier r.doc_id delta.text_after)
      else if in_window now (OrdMap.get sender r.review_touched)
      then ok tt
      else err review_policy

  abbrev pub judged : ℕ → ℕ → DocRoom → SyncResult ReviewDelta → DocRoom × SyncResult (Unit {0})
  judged now sender r (err e) = (r, err e)
  judged now sender r (ok delta) =
      if delta.touches_review
      then (record r { review_touched = OrdMap.insert sender now r.review_touched }, ok tt)
      else if delta.touches_text
      then (r, text_verdict now sender delta r)
      else (r, ok tt)

  unfoldable pub enforce_reviewer_policy : ℕ → ℕ → Bytes → DocRoom → DocRoom × SyncResult (Unit {0})
  unfolding review_delta text_verdict OrdMap.insert
  enforce_reviewer_policy now sender bytes r = judged now sender r (review_delta bytes r.authority)

  abbrev pub allowed : Bytes → DocRoom × SyncResult (Unit {0}) → DocRoom × SyncResult Bool
  allowed bytes (r, err e) = (r, err e)
  allowed bytes (r, ok u) = import_and_persist bytes r

  abbrev pub is_reviewer : Role → Bool
  is_reviewer author = false
  is_reviewer reviewer = true
  is_reviewer read_only = false

  abbrev pub checked_size :
      ℕ → ℕ → Role → Bytes → DocRoom → SyncResult (Unit {0}) → DocRoom × SyncResult Bool
  checked_size now sender role bytes r (err e) = (r, err e)
  checked_size now sender role bytes r (ok u) =
      if is_reviewer role
      then allowed bytes (enforce_reviewer_policy now sender bytes r)
      else import_and_persist bytes r

  -- `handle_update` up to the relay, whether the authority advanced. It runs under the lock of the
  -- updates, outside the gate.
  unfoldable pub push_update : ℕ → ℕ → Role → Bytes → DocRoom → DocRoom × SyncResult Bool
  unfolding enforce_reviewer_policy import_and_persist can_push_updates
  push_update now sender role bytes r =
      if can_push_updates role
      then checked_size now sender role bytes r (check_update_size r.config (length bytes))
      else (r, err access_denied)

  -- The relay, under the gate.
  unfoldable pub relay_update : ℕ → ℕ → Bytes → DocRoom → DocRoom
  unfolding fanout_to
  relay_update now sender bytes r = touch now (fanout_except (Protocol.update bytes) sender r)

  abbrev pub relayed : ℕ → ℕ → Bytes → DocRoom × SyncResult Bool → DocRoom × SyncResult (Unit {0})
  relayed now sender bytes (r, err e) = (r, err e)
  relayed now sender bytes (r, ok false) = (r, ok tt)
  relayed now sender bytes (r, ok true) = (relay_update now sender bytes r, ok tt)

  unfoldable pub handle_update : ℕ → ℕ → Role → Bytes → DocRoom → DocRoom × SyncResult (Unit {0})
  unfolding push_update relay_update
  handle_update now sender role bytes r =
      relayed now sender bytes (push_update now sender role bytes r)
