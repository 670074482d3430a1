-- ===== src/Sync/Room/Kept.antt =====
-- Taking in an update leaves the sessions and the roster as they are.
use nisaba.Prelude.{
  ℕ, ◌+◌, ◌==◌, leb, ◌≡◌, refl, sym, ◌∙◌, subst, Option, none, some, length, Bool-cases, inl, inr,
}
use nisaba.OrdMap.{OrdMap}
use nisaba.OrdMap.Order.{nat_ord}
use nisaba.Sync.Bytes.{Bytes}
use nisaba.Sync.Error.{SyncResult, ok, err}
use nisaba.Sync.Roles.{Role, can_push_updates}
use nisaba.Sync.Config.{Config, check_update_size}
use nisaba.Sync.Authority.{Loro, ReviewDelta, review_delta, import_update, export_snapshot}
use nisaba.Sync.Presence.{Presence}
use nisaba.Sync.Room.{Channel, Stores, SessionSlot, DocRoom}
use nisaba.Sync.Room.Sound.{SoundAt, IsSound}
use nisaba.Sync.Room.Updates.{
  put_done, put_snapshot, snapshot_now, was_written, snapshot_if_dirty, count_update, advance,
  import_logged, persist, import_and_persist, judged, enforce_reviewer_policy, allowed, is_reviewer,
  checked_size, push_update,
}

module _ ⦃l : Loro⦄ ⦃ch : Channel⦄ ⦃st : Stores l.Version⦄ where
  -- What the gate guards, and the configuration.
  abbrev pub guarded : DocRoom → OrdMap ℕ SessionSlot × Presence × ℕ × Config
  guarded r = (r.sessions, r.gate, r.next_gen, r.config)

  abbrev IsSoundGuard : OrdMap ℕ SessionSlot × Presence × ℕ × Config → Type 0
  IsSoundGuard (m, p, n, c) = SoundAt m p.peers n c.max_peers_per_doc

  pub guarded-IsSound : (r r' : DocRoom) → guarded r' ≡ guarded r → IsSound r → IsSound r'
  guarded-IsSound r r' e s = subst IsSoundGuard (sym e) s

  put_done-guarded :
      (r : DocRoom) (o : st.Snapshots × SyncResult (Unit {0}))
      → guarded (put_done r o).0 ≡ guarded r
  put_done-guarded r (snaps, ok u) = refl
  put_done-guarded r (snaps, err e) = refl

  put_snapshot-guarded :
      (r : DocRoom) (o : SyncResult Bytes) → guarded (put_snapshot r o).0 ≡ guarded r
  put_snapshot-guarded r (err e) = refl
  put_snapshot-guarded r (ok bytes) = put_done-guarded r _

  pub snapshot_now-guarded : (r : DocRoom) → guarded (snapshot_now r).0 ≡ guarded r
  unfolding snapshot_now
  snapshot_now-guarded r = put_snapshot-guarded r (export_snapshot r.authority)

  count_update-guarded : (r : DocRoom) → guarded (count_update r) ≡ guarded r
  unfolding count_update
  count_update-guarded r =
      elim (Bool-cases (leb r.config.snapshot_every_updates (r.updates_since_snapshot + 1))) [
        | inl e ↦ rw e (snapshot_now-guarded _)
        | inr e ↦ rw e refl
      ]

  advance-guarded :
      (before : l.Version) (r : DocRoom) (o : l.Replica × SyncResult l.Version)
      → guarded (advance before r o).0 ≡ guarded r
  advance-guarded before r (doc, err e) = refl
  advance-guarded before r (doc, ok after) = elim (Bool-cases (l.same_vv after before)) [
    | inl e ↦ rw e refl
    | inr e ↦ rw e (count_update-guarded (record r { authority = doc }))
  ]

  import_logged-guarded :
      (bytes : Bytes) (r : DocRoom) (o : st.Log × SyncResult (Unit {0}))
      → guarded (import_logged bytes r o).0 ≡ guarded r
  import_logged-guarded bytes r (log, err e) = refl
  import_logged-guarded bytes r (log, ok u) =
      advance-guarded (l.oplog_vv r.authority) (record r { op_log = log })
        (import_update bytes r.authority)

  persist-guarded :
      (bytes : Bytes) (r : DocRoom) (o : Option l.Version)
      → guarded (persist bytes r o).0 ≡ guarded r
  persist-guarded bytes r none = refl
  persist-guarded bytes r (some v) = elim (Bool-cases (l.includes_vv (l.oplog_vv r.authority) v)) [
    | inl e ↦ rw e refl
    | inr e ↦ rw e (import_logged-guarded bytes r (st.append r.doc_id bytes r.op_log))
  ]

  import_and_persist-guarded :
      (bytes : Bytes) (r : DocRoom) → guarded (import_and_persist bytes r).0 ≡ guarded r
  unfolding import_and_persist
  import_and_persist-guarded bytes r = elim (Bool-cases (l.import_bytes bytes l.new_doc).1) [
    | inl e ↦ rw e (persist-guarded bytes r (l.partial_end_vv bytes))
    | inr e ↦ rw e refl
  ]

  judged-guarded :
      (now sender : ℕ) (r : DocRoom) (o : SyncResult ReviewDelta)
      → guarded (judged now sender r o).0 ≡ guarded r
  judged-guarded now sender r (err e) = refl
  judged-guarded now sender r (ok delta) = elim (Bool-cases delta.touches_review) [
    | inl e ↦ rw e refl
    | inr e ↦ elim (Bool-cases delta.touches_text) [
      | inl f ↦ rw (e, f) refl
      | inr f ↦ rw (e, f) refl
    ]
  ]

  allowed-guarded :
      (bytes : Bytes) (o : DocRoom × SyncResult (Unit {0}))
      → guarded (allowed bytes o).0 ≡ guarded o.0
  allowed-guarded bytes (r, err e) = refl
  allowed-guarded bytes (r, ok u) = import_and_persist-guarded bytes r

  checked_size-guarded :
      (now sender : ℕ) (role : Role) (bytes : Bytes) (r : DocRoom) (o : SyncResult (Unit {0}))
      → guarded (checked_size now sender role bytes r o).0 ≡ guarded r
  unfolding enforce_reviewer_policy
  checked_size-guarded now sender role bytes r (err e) = refl
  checked_size-guarded now sender role bytes r (ok u) = elim (Bool-cases (is_reviewer role)) [
    | inl e ↦ rw e (
        allowed-guarded bytes (enforce_reviewer_policy now sender bytes r)
        ∙ judged-guarded now sender r (review_delta bytes r.authority))
    | inr e ↦ rw e (import_and_persist-guarded bytes r)
  ]

  pub push_update-guarded :
      (now sender : ℕ) (role : Role) (bytes : Bytes) (r : DocRoom)
      → guarded (push_update now sender role bytes r).0 ≡ guarded r
  unfolding push_update
  push_update-guarded now sender role bytes r = elim (Bool-cases (can_push_updates role)) [
    | inl e ↦
        rw e
          (checked_size-guarded now sender role bytes r (check_update_size r.config (length bytes)))
    | inr e ↦ rw e refl
  ]

  was_written-guarded {ℓ} :
      {A : Type ℓ} (o : DocRoom × SyncResult A) → guarded (was_written o).0 ≡ guarded o.0
  was_written-guarded (r, ok a) = refl
  was_written-guarded (r, err e) = refl

  pub snapshot_if_dirty-guarded : (r : DocRoom) → guarded (snapshot_if_dirty r).0 ≡ guarded r
  unfolding snapshot_if_dirty
  snapshot_if_dirty-guarded r = elim (Bool-cases (r.updates_since_snapshot == 0)) [
    | inl e ↦ rw e refl
    | inr e ↦ rw e (was_written-guarded (snapshot_now r) ∙ snapshot_now-guarded r)
  ]
