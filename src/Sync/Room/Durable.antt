-- ===== src/Sync/Room/Durable.antt =====
-- An update is in the log before the authority has it.
use nisaba.Prelude.{
  ℕ, ◌+◌, leb, ◌≡◌, refl, sym, ap, ◌∙◌, ◌⊎◌, Bool, true, false, Option, none, some, length,
  Bool-cases, inl, inr, if◌then◌else◌, arith,
}
use nisaba.OrdMap
use nisaba.OrdMap.Order.{nat_ord}
use nisaba.Sync.Bytes.{Bytes}
use nisaba.Sync.Error.{SyncError, SyncResult, ok, err, ok_injective, loro_error, access_denied}
use nisaba.Sync.Roles.{Role, can_push_updates}
use nisaba.Sync.Config.{check_update_size}
use nisaba.Sync.Authority.{Loro, ReviewDelta, review_delta, import_update, export_snapshot}
use nisaba.Sync.Room.{Channel, Stores, DocRoom}
use nisaba.Sync.Room.Updates.{
  put_done, put_snapshot, snapshot_now, count_update, advance, import_logged, persist,
  import_and_persist, judged, text_verdict, enforce_reviewer_policy, allowed, is_reviewer,
  checked_size, push_update,
}

module _ ⦃l : Loro⦄ ⦃ch : Channel⦄ ⦃st : Stores l.Version⦄ where
  abbrev durable : DocRoom → st.Log × l.Replica
  durable r = (r.op_log, r.authority)

  put_done-durable :
      (r : DocRoom) (o : st.Snapshots × SyncResult (Unit {0}))
      → durable (put_done r o).0 ≡ durable r
  put_done-durable r (snaps, ok u) = refl
  put_done-durable r (snaps, err e) = refl

  put_snapshot-durable :
      (r : DocRoom) (o : SyncResult Bytes) → durable (put_snapshot r o).0 ≡ durable r
  put_snapshot-durable r (err e) = refl
  put_snapshot-durable r (ok bytes) = put_done-durable r _

  count_update-durable : (r : DocRoom) → durable (count_update r) ≡ durable r
  unfolding count_update snapshot_now
  count_update-durable r =
      elim (Bool-cases (leb r.config.snapshot_every_updates (r.updates_since_snapshot + 1))) [
        | inl e ↦ rw e (put_snapshot-durable _ (export_snapshot r.authority))
        | inr e ↦ rw e refl
      ]

  -- What the log's append gives, and the replica after the import.
  abbrev appended : Bytes → DocRoom → st.Log × SyncResult (Unit {0})
  appended bytes r = st.append r.doc_id bytes r.op_log

  -- The update decodes, the log took it, and the authority imported it.
  abbrev pub IsLogged : Bytes → DocRoom → DocRoom → Type 0
  IsLogged bytes r r' =
      ((l.import_bytes bytes l.new_doc).1 ≡ true)
      × ((st.append r.doc_id bytes r.op_log).1 ≡ ok tt)
      × (r'.op_log ≡ (st.append r.doc_id bytes r.op_log).0)
      × (r'.authority ≡ (import_update bytes r.authority).0)

  -- The update decodes, and the log failed.
  abbrev pub IsRefused : Bytes → DocRoom → DocRoom → Type 0
  IsRefused bytes r r' =
      ((l.import_bytes bytes l.new_doc).1 ≡ true)
      × ((e : SyncError) × ((st.append r.doc_id bytes r.op_log).1 ≡ err e))
      × (r'.op_log ≡ (st.append r.doc_id bytes r.op_log).0)
      × (r'.authority ≡ r.authority)

  abbrev pub IsUntouched : DocRoom → DocRoom → Type 0
  IsUntouched r r' = (r'.op_log ≡ r.op_log) × (r'.authority ≡ r.authority)

  abbrev pub IsDurable : Bytes → DocRoom → DocRoom × SyncResult Bool → Type 0
  IsDurable bytes r o =
      (IsUntouched r o.0 ⊎ (IsRefused bytes r o.0 ⊎ IsLogged bytes r o.0))
      × (o.1 ≡ ok true → IsLogged bytes r o.0)

  untouched : (bytes : Bytes) (r : DocRoom) (e : SyncError) → IsDurable bytes r (r, err e)
  untouched bytes r e = (inl (refl, refl), λ h. absurd (ground (arith, h)))

  advance-IsLogged :
      (before : l.Version) (log : st.Log) (r : DocRoom) (o : l.Replica × SyncResult l.Version)
      → durable (advance before (record r { op_log = log }) o).0 ≡ (log, o.0)
  advance-IsLogged before log r (doc, err e) = refl
  advance-IsLogged before log r (doc, ok after) = elim (Bool-cases (l.same_vv after before)) [
    | inl e ↦ rw e refl
    | inr e ↦ rw e (count_update-durable (record r { authority = doc; op_log = log }))
  ]

  import_logged-IsDurable :
      (bytes : Bytes) (r : DocRoom) (o : st.Log × SyncResult (Unit {0}))
      → (l.import_bytes bytes l.new_doc).1 ≡ true
      → st.append r.doc_id bytes r.op_log ≡ o
      → IsDurable bytes r (import_logged bytes r o)
  import_logged-IsDurable bytes r (log, err e) d h = (
    inr (inl (d, (e, ap (λ x. x.1) h), sym (ap (λ x. x.0) h), refl)),
    λ k. absurd (ground (arith, k)),
  )
  import_logged-IsDurable bytes r (log, ok u) d h =
      let k = advance-IsLogged (l.oplog_vv r.authority) log r (import_update bytes r.authority) in
      let logged : IsLogged bytes r (import_logged bytes r (log, ok u)).0 =
        (d, ap (λ x. x.1) h, ap (λ x. x.0) k ∙ sym (ap (λ x. x.0) h), ap (λ x. x.1) k) in
      (inr (inr logged), λ x. logged)

  persist-IsDurable :
      (bytes : Bytes) (r : DocRoom) (o : Option l.Version)
      → (l.import_bytes bytes l.new_doc).1 ≡ true
      → IsDurable bytes r (persist bytes r o)
  persist-IsDurable bytes r none d = untouched bytes r _
  persist-IsDurable bytes r (some v) d =
      elim (Bool-cases (l.includes_vv (l.oplog_vv r.authority) v)) [
        | inl e ↦ rw e (inl (refl, refl), λ h. absurd (ground (arith, ok_injective h)))
        | inr e ↦ rw e (import_logged-IsDurable bytes r (st.append r.doc_id bytes r.op_log) d refl)
      ]

  decoded-IsDurable :
      (bytes : Bytes) (r : DocRoom) (b : Bool)
      → (l.import_bytes bytes l.new_doc).1 ≡ b
      → IsDurable bytes r
          (if b then persist bytes r (l.partial_end_vv bytes) else (r, err loro_error))
  decoded-IsDurable bytes r true d = persist-IsDurable bytes r (l.partial_end_vv bytes) d
  decoded-IsDurable bytes r false d = untouched bytes r loro_error

  import_and_persist-IsDurable :
      (bytes : Bytes) (r : DocRoom) → IsDurable bytes r (import_and_persist bytes r)
  unfolding import_and_persist
  import_and_persist-IsDurable bytes r =
      decoded-IsDurable bytes r (l.import_bytes bytes l.new_doc).1 refl

  verdict-IsDurable :
      (bytes : Bytes) (r : DocRoom) (o : SyncResult (Unit {0}))
      → IsDurable bytes r (allowed bytes (r, o))
  verdict-IsDurable bytes r (ok u) = import_and_persist-IsDurable bytes r
  verdict-IsDurable bytes r (err e) = untouched bytes r e

  -- The policy records the time of a review change, and no more.
  allowed-IsDurable :
      (now sender : ℕ) (bytes : Bytes) (r : DocRoom) (o : SyncResult ReviewDelta)
      → IsDurable bytes r (allowed bytes (judged now sender r o))
  unfolding text_verdict
  allowed-IsDurable now sender bytes r (err e) = untouched bytes r e
  allowed-IsDurable now sender bytes r (ok delta) = elim (Bool-cases delta.touches_review) [
    | inl e ↦ rw e (
        import_and_persist-IsDurable bytes
          (record r { review_touched = OrdMap.insert sender now r.review_touched }))
    | inr e ↦ elim (Bool-cases delta.touches_text) [
      | inl f ↦ rw (e, f) (verdict-IsDurable bytes r (text_verdict now sender delta r))
      | inr f ↦ rw (e, f) (import_and_persist-IsDurable bytes r)
    ]
  ]

  checked_size-IsDurable :
      (now sender : ℕ) (role : Role) (bytes : Bytes) (r : DocRoom) (o : SyncResult (Unit {0}))
      → IsDurable bytes r (checked_size now sender role bytes r o)
  unfolding enforce_reviewer_policy
  checked_size-IsDurable now sender role bytes r (err e) = untouched bytes r e
  checked_size-IsDurable now sender role bytes r (ok u) = elim (Bool-cases (is_reviewer role)) [
    | inl e ↦ rw e (allowed-IsDurable now sender bytes r (review_delta bytes r.authority))
    | inr e ↦ rw e (import_and_persist-IsDurable bytes r)
  ]

  -- Taking in an update leaves the log and the authority as they were, or leaves the authority as
  -- it was when the log refuses an update that decodes, or imports an update that decodes and that
  -- the log has taken. Only in the last case is the update to be relayed.
  pub push_update-IsDurable :
      (now sender : ℕ) (role : Role) (bytes : Bytes) (r : DocRoom)
      → IsDurable bytes r (push_update now sender role bytes r)
  unfolding push_update
  push_update-IsDurable now sender role bytes r = elim (Bool-cases (can_push_updates role)) [
    | inl e ↦
        rw e (
          checked_size-IsDurable now sender role bytes r
            (check_update_size r.config (length bytes)))
    | inr e ↦ rw e (untouched bytes r access_denied)
  ]
