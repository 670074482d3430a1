-- ===== src/Sync/Room/Renewed.antt =====
-- Sending renews the senders of the sessions and nothing else of them.
use nisaba.Prelude.{
  ℕ, suc, ◌≡◌, refl, sym, ap, subst, Option, none, some, List, [], ◌∷◌, length, Bool-cases, inl,
  inr, arith,
}
use nisaba.OrdMap
use nisaba.OrdMap.{OrdMap}
use nisaba.OrdMap.Order.{nat_ord}
use nisaba.OrdMap.Laws.{IsSorted, Above}
use nisaba.Sync.Protocol.{Frame}
use nisaba.Sync.Authority.{Loro}
use nisaba.Sync.Room.{
  Channel, Stores, TrySend, sent, full, closed, SessionSlot, try_send_all, after_send, is_listed,
}

module _ ⦃l : Loro⦄ ⦃ch : Channel⦄ ⦃st : Stores l.Version⦄ where
  abbrev pub generation_of : Option SessionSlot → Option ℕ
  generation_of none = none
  generation_of (some slot) = some slot.generation

  -- The generation of a peer's session.
  abbrev pub generation_at : ℕ → OrdMap ℕ SessionSlot → Option ℕ
  generation_at p m = generation_of (OrdMap.get p m)

  -- The same sessions with other senders.
  abbrev pub Renewed : OrdMap ℕ SessionSlot → OrdMap ℕ SessionSlot → Type 0
  Renewed [] [] = Unit
  Renewed [] ((q, t) ∷ n) = ⊥
  Renewed ((p, s) ∷ m) [] = ⊥
  Renewed ((p, s) ∷ m) ((q, t) ∷ n) =
      (p ≡ q) × (s.generation ≡ t.generation) × (s.close ≡ t.close) × Renewed m n

  pub Renewed-refl : (m : OrdMap ℕ SessionSlot) → Renewed m m
  Renewed-refl [] = tt
  Renewed-refl ((p, s) ∷ m) = (refl, refl, refl, Renewed-refl m)

  after_send-Renewed :
      (p : ℕ) (s : SessionSlot) (o : TrySend ch.Sender) (m : OrdMap ℕ SessionSlot)
      (rest : OrdMap ℕ SessionSlot × List ℕ)
      → Renewed m rest.0
      → Renewed ((p, s) ∷ m) (after_send p s o rest).0
  after_send-Renewed p s (sent tx) m (n, failed) h = (refl, refl, refl, h)
  after_send-Renewed p s full m (n, failed) h = (refl, refl, refl, h)
  after_send-Renewed p s closed m (n, failed) h = (refl, refl, refl, h)

  pub try_send_all-Renewed :
      (frame : Frame) (except : Option ℕ) (m : OrdMap ℕ SessionSlot)
      → Renewed m (try_send_all frame except m).0
  unfolding try_send_all
  try_send_all-Renewed frame except [] = tt
  try_send_all-Renewed frame except ((p, s) ∷ m) = elim (Bool-cases (is_listed p except)) [
    | inl e ↦ rw e (refl, refl, refl, try_send_all-Renewed frame except m)
    | inr e ↦ rw e (
        after_send-Renewed p s (ch.try_send frame s.tx) m (try_send_all frame except m)
          (try_send_all-Renewed frame except m))
  ]

  pub Renewed-generation_at :
      (p : ℕ) (m n : OrdMap ℕ SessionSlot) → Renewed m n → generation_at p n ≡ generation_at p m
  unfolding OrdMap.get
  Renewed-generation_at p [] [] h = refl
  Renewed-generation_at p [] ((q, t) ∷ n) h = absurd h
  Renewed-generation_at p ((q, t) ∷ n) [] h = absurd h
  Renewed-generation_at p ((k, s) ∷ m) ((q, t) ∷ n) (e, g, c, h) =
      ground (arith, Renewed-generation_at p m n h, sym g, sym e)

  Renewed-Above : (b : ℕ) (m n : OrdMap ℕ SessionSlot) → Renewed m n → Above b m → Above b n
  Renewed-Above b [] [] h a = tt
  Renewed-Above b [] ((q, t) ∷ n) h a = absurd h
  Renewed-Above b ((q, t) ∷ n) [] h a = absurd h
  Renewed-Above b ((k, s) ∷ m) ((q, t) ∷ n) (e, g, c, h) a =
      (rw (sym e) a.0, Renewed-Above b m n h a.1)

  pub Renewed-IsSorted : (m n : OrdMap ℕ SessionSlot) → Renewed m n → IsSorted m → IsSorted n
  Renewed-IsSorted [] [] h s = tt
  Renewed-IsSorted [] ((q, t) ∷ n) h s = absurd h
  Renewed-IsSorted ((q, t) ∷ n) [] h s = absurd h
  Renewed-IsSorted ((k, s) ∷ m) ((q, t) ∷ n) (e, g, c, h) a =
      (subst (λ x. Above x n) e (Renewed-Above k m n h a.0), Renewed-IsSorted m n h a.1)

  pub Renewed-length : (m n : OrdMap ℕ SessionSlot) → Renewed m n → length n ≡ length m
  Renewed-length [] [] h = refl
  Renewed-length [] ((q, t) ∷ n) h = absurd h
  Renewed-length ((q, t) ∷ n) [] h = absurd h
  Renewed-length ((k, s) ∷ m) ((q, t) ∷ n) (e, g, c, h) = ap suc (Renewed-length m n h)
