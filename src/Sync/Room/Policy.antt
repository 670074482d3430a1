-- ===== src/Sync/Room/Policy.antt =====
-- What the review policy lets a reviewer push.
use nisaba.Prelude.{
  ℕ, ◌-◌, ◌≤◌, ◌≡◌, refl, ◌⊎◌, ◌↔◌, Bool, true, false, Option, none, some, Bool-cases, inl, inr,
  arith,
}
use nisaba.OrdMap
use nisaba.OrdMap.Order.{nat_ord}
use nisaba.OrdMap.Laws.{get-insert_self}
use nisaba.Sync.Bytes.{Bytes}
use nisaba.Sync.Error.{ok}
use nisaba.Sync.Authority.{Loro, ReviewDelta, review_delta, text_is_empty}
use nisaba.Sync.Room.{Channel, Stores, DocRoom}
use nisaba.Sync.Room.Updates.{
  seed_verdict, in_window, text_verdict, judged, enforce_reviewer_policy,
}

module _ ⦃l : Loro⦄ ⦃ch : Channel⦄ ⦃st : Stores l.Version⦄ where
  -- A seed of an empty text that the verifier confirms.
  abbrev pub IsSeed : ReviewDelta → DocRoom → Type 0
  IsSeed delta r =
      (text_is_empty r.authority ≡ true) × (r.seed_verifier r.doc_id delta.text_after ≡ some true)

  -- A change of a text that is not empty, soon after a review record of the same peer.
  abbrev pub IsRecent : ℕ → ℕ → DocRoom → Type 0
  IsRecent now sender r =
      (text_is_empty r.authority ≡ false)
      × ((at : ℕ) × (OrdMap.get sender r.review_touched ≡ some at) × (now - at ≤ 30000))

  abbrev pub IsAllowed : ℕ → ℕ → ReviewDelta → DocRoom → Type 0
  IsAllowed now sender delta r =
      (delta.touches_review ≡ true)
      ⊎ ((delta.touches_text ≡ false) ⊎ (IsSeed delta r ⊎ IsRecent now sender r))

  seed_verdict-ok : (o : Option Bool) → seed_verdict o ≡ ok tt → o ≡ some true
  seed_verdict-ok none h = absurd (ground (arith, h))
  seed_verdict-ok (some true) h = refl
  seed_verdict-ok (some false) h = absurd (ground (arith, h))

  in_window-true :
      (now : ℕ) (o : Option ℕ)
      → in_window now o ≡ true
      → (at : ℕ) × (o ≡ some at) × (now - at ≤ 30000)
  in_window-true now none h = absurd (ground (arith, h))
  in_window-true now (some at) h = (at, refl, ground (arith, h))

  text_verdict-ok :
      (now sender : ℕ) (delta : ReviewDelta) (r : DocRoom)
      → text_verdict now sender delta r ≡ ok tt
      → IsSeed delta r ⊎ IsRecent now sender r
  unfolding text_verdict
  text_verdict-ok now sender delta r = elim (Bool-cases (text_is_empty r.authority)) [
    | inl e ↦ rw e (λ h. inl (refl, seed_verdict-ok (r.seed_verifier r.doc_id delta.text_after) h))
    | inr e ↦ elim (Bool-cases (in_window now (OrdMap.get sender r.review_touched))) [
      | inl f ↦ rw (e, f) (λ h. inr (refl, in_window-true now _ f))
      | inr f ↦ rw (e, f) (λ h. absurd (ground (arith, h)))
    ]
  ]

  IsSeed-text_verdict :
      (now sender : ℕ) (delta : ReviewDelta) (r : DocRoom)
      → IsSeed delta r
      → text_verdict now sender delta r ≡ ok tt
  unfolding text_verdict
  IsSeed-text_verdict now sender delta r (e, f) = rw (e, f) refl

  IsRecent-text_verdict :
      (now sender : ℕ) (delta : ReviewDelta) (r : DocRoom)
      → IsRecent now sender r
      → text_verdict now sender delta r ≡ ok tt
  unfolding text_verdict
  IsRecent-text_verdict now sender delta r (e, (at, f, lt)) = rw (e, f) (ground (arith, lt))

  judged-ok :
      (now sender : ℕ) (delta : ReviewDelta) (r : DocRoom)
      → (judged now sender r (ok delta)).1 ≡ ok tt
      → IsAllowed now sender delta r
  unfolding text_verdict
  judged-ok now sender delta r = elim (Bool-cases delta.touches_review) [
    | inl e ↦ λ h. inl e
    | inr e ↦ elim (Bool-cases delta.touches_text) [
      | inl f ↦ rw (e, f) (λ h. inr (inr (text_verdict-ok now sender delta r h)))
      | inr f ↦ λ h. inr (inl f)
    ]
  ]

  verdict_used :
      (now sender : ℕ) (delta : ReviewDelta) (r : DocRoom)
      → delta.touches_review ≡ false
      → delta.touches_text ≡ true
      → text_verdict now sender delta r ≡ ok tt
      → (judged now sender r (ok delta)).1 ≡ ok tt
  unfolding text_verdict
  verdict_used now sender delta r e f h = rw (e, f) h

  text_judged :
      (now sender : ℕ) (delta : ReviewDelta) (r : DocRoom)
      → text_verdict now sender delta r ≡ ok tt
      → (judged now sender r (ok delta)).1 ≡ ok tt
  text_judged now sender delta r h = elim (Bool-cases delta.touches_review) [
    | inl e ↦ rw e refl
    | inr e ↦ elim (Bool-cases delta.touches_text) [
      | inl f ↦ verdict_used now sender delta r e f h
      | inr f ↦ rw (e, f) refl
    ]
  ]

  judged-allowed :
      (now sender : ℕ) (delta : ReviewDelta) (r : DocRoom)
      → IsAllowed now sender delta r
      → (judged now sender r (ok delta)).1 ≡ ok tt
  judged-allowed now sender delta r (inl e) = rw e refl
  judged-allowed now sender delta r (inr (inl e)) = elim (Bool-cases delta.touches_review) [
    | inl f ↦ rw f refl
    | inr f ↦ rw (f, e) refl
  ]
  judged-allowed now sender delta r (inr (inr (inl e))) =
      text_judged now sender delta r (IsSeed-text_verdict now sender delta r e)
  judged-allowed now sender delta r (inr (inr (inr e))) =
      text_judged now sender delta r (IsRecent-text_verdict now sender delta r e)

  -- The policy accepts an update whose changes are known exactly when it changes the review records,
  -- does not change the text, seeds an empty text as the verifier confirms, or changes a text that
  -- is not empty at most thirty seconds after a review change of the same peer. A review change is
  -- recorded at its time.
  pub enforce_reviewer_policy_exact :
      (now sender : ℕ) (bytes : Bytes) (delta : ReviewDelta) (r : DocRoom)
      → review_delta bytes r.authority ≡ ok delta
      → (((enforce_reviewer_policy now sender bytes r).1 ≡ ok tt) ↔ IsAllowed now sender delta r)
        × (delta.touches_review ≡ true
            → OrdMap.get sender (enforce_reviewer_policy now sender bytes r).0.review_touched
              ≡ some now)
  unfolding enforce_reviewer_policy
  enforce_reviewer_policy_exact now sender bytes delta r h = rw h (
    (judged-ok now sender delta r, judged-allowed now sender delta r),
    λ e. rw e (get-insert_self sender now r.review_touched),
  )
