-- ===== src/Sync/Registry/Spares.antt =====
-- Evicting empty rooms spares those with sessions.
use nisaba.Prelude.{
  ℕ, zero, suc, ◌+◌, ◌≡◌, ◌⊎◌, inl, inr, refl, sym, ap, ◌∙◌, subst, leb, true, false, Bool-cases,
  Option, none, some, [], ◌∷◌, Text, length, arith,
}
use nisaba.OrdMap
use nisaba.OrdMap.{OrdMap}
use nisaba.OrdMap.Order.{text_ord}
use nisaba.OrdMap.Laws.{IsSorted, Above, remove-IsSorted, get-remove_ne, get-Above}
use nisaba.OrdMap.Keys.{is_there, length-remove_found}
use nisaba.Sync.Authority.{Loro}
use nisaba.Sync.Room.{Channel, Stores, DocRoom, is_empty, last_active_hint}
use nisaba.Sync.Registry.{older, victim, count_evicted, without_victim, evict_loop}

module _ ⦃l : Loro⦄ ⦃ch : Channel⦄ ⦃st : Stores l.Version⦄ where
  -- An empty room stands at the path.
  abbrev IsEmptyAt : Text → OrdMap Text DocRoom → Type 0
  IsEmptyAt doc m = (r : DocRoom) × (OrdMap.get doc m ≡ some r) × (is_empty r ≡ true)

  tail_found :
      (doc k : Text) (r s : DocRoom) (m : OrdMap Text DocRoom)
      → Above k m
      → OrdMap.get doc m ≡ some r
      → OrdMap.get doc ((k, s) ∷ m) ≡ some r
  unfolding OrdMap.get
  tail_found doc k r s m a h = ground (
    arith,
    h,
    text_ord.same_key doc k,
    get-Above k m a,
    λ (e : doc ≡ k). subst (λ x. OrdMap.get x m ≡ some r) e h,
  )

  IsEmptyAt-tail :
      (doc k : Text) (s : DocRoom) (m : OrdMap Text DocRoom)
      → Above k m
      → IsEmptyAt doc m
      → IsEmptyAt doc ((k, s) ∷ m)
  IsEmptyAt-tail doc k s m a (r, h, e) = (r, tail_found doc k r s m a h, e)

  -- The victim is the one so far, or an empty room of the map.
  older_either :
      (best : Option (Text × ℕ)) (doc : Text) (last : ℕ) (v : Text × ℕ)
      → older best doc last ≡ some v
      → (best ≡ some v) ⊎ (v.0 ≡ doc)
  older_either none doc last v h = inr (ground (arith, h))
  older_either (some (d, tl)) doc last v h = elim (Bool-cases (leb tl last)) [
    | inl e ↦ inl (ground (arith, h, e))
    | inr e ↦ inr (ground (arith, h, e))
  ]

  victim-IsEmptyAt :
      (now : ℕ) (best : Option (Text × ℕ)) (m : OrdMap Text DocRoom) (v : Text × ℕ)
      → IsSorted m
      → victim now best m ≡ some v
      → (best ≡ some v) ⊎ IsEmptyAt v.0 m
  unfolding victim OrdMap.get
  victim-IsEmptyAt now best [] v s h = inl h
  victim-IsEmptyAt now best ((k, r) ∷ m) v s h = elim (Bool-cases (is_empty r)) [
    | inl e ↦
        elim (victim-IsEmptyAt now (older best k (last_active_hint now r)) m v s.1
          (ground (arith, h, e))) [
            | inl g ↦ elim (older_either best k (last_active_hint now r) v g) [
              | inl b ↦ inl b
              | inr same ↦ inr (
                r,
                subst (λ x. OrdMap.get x ((k, r) ∷ m) ≡ some r) (sym same)
                    (ground (arith, text_ord.cmp_self k)),
                e,
              )
            ]
            | inr g ↦ inr (IsEmptyAt-tail v.0 k r m s.0 g)
          ]
    | inr e ↦ elim (victim-IsEmptyAt now best m v s.1 (ground (arith, h, e))) [
      | inl g ↦ inl g
      | inr g ↦ inr (IsEmptyAt-tail v.0 k r m s.0 g)
    ]
  ]

  pub victim-IsThere :
      (now : ℕ) (m : OrdMap Text DocRoom) (doc : Text) (last : ℕ)
      → IsSorted m
      → victim now none m ≡ some (doc, last)
      → is_there (OrdMap.get doc m) ≡ true
  victim-IsThere now m doc last s e = elim (victim-IsEmptyAt now none m (doc, last) s e) [
    | inl g ↦ absurd (ground (arith, g))
    | inr (r, h, f) ↦ ap is_there h
  ]

  -- What an eviction leaves: each room with sessions, and one room less for each that it counts.
  pub record Spares (m : OrdMap Text DocRoom) (o : OrdMap Text DocRoom × ℕ) : Type 0 where
    pub sorted : IsSorted o.0
    pub counted : length o.0 + o.1 ≡ length m
    pub spared :
        (doc : Text) (r : DocRoom)
        → OrdMap.get doc m ≡ some r
        → is_empty r ≡ false
        → OrdMap.get doc o.0 ≡ some r

  Spares-none : (m : OrdMap Text DocRoom) → IsSorted m → Spares m (m, 0)
  Spares-none m s = record { sorted = s; counted = omega arith; spared = λ doc r h e. h }

  Spares-next :
      (m : OrdMap Text DocRoom) (v : Text) (o : OrdMap Text DocRoom × ℕ)
      → IsEmptyAt v m
      → Spares (OrdMap.remove v m) o
      → Spares m (count_evicted o)
  Spares-next m v (n, k) (r, h, e) s = record {
    sorted = s.sorted;
    counted = omega (arith, s.counted, length-remove_found v m (ap is_there h));
    spared = λ doc t g f.
        s.spared doc t
          (get-remove_ne v doc m
              (λ x. absurd (ground (arith, h, e, f, g, subst (λ y. OrdMap.get y m ≡ some t) x g)))
            ∙ g)
          f;
  }

  without_victim-Spares :
      (now : ℕ) (rest : OrdMap Text DocRoom → OrdMap Text DocRoom × ℕ) (m : OrdMap Text DocRoom)
      (v : Option (Text × ℕ))
      → ((n : OrdMap Text DocRoom) → IsSorted n → Spares n (rest n))
      → IsSorted m
      → victim now none m ≡ v
      → Spares m (without_victim rest m v)
  without_victim-Spares now rest m none h s e = Spares-none m s
  without_victim-Spares now rest m (some (doc, last)) h s e =
      elim (victim-IsEmptyAt now none m (doc, last) s e) [
        | inl g ↦ absurd (ground (arith, g))
        | inr g ↦
            Spares-next m doc (rest (OrdMap.remove doc m)) g
              (h (OrdMap.remove doc m) (remove-IsSorted doc m s))
      ]

  pub evict_loop-Spares :
      (fuel now max : ℕ) (m : OrdMap Text DocRoom)
      → IsSorted m
      → Spares m (evict_loop fuel now max m)
  unfolding evict_loop
  evict_loop-Spares zero now max m s = Spares-none m s
  evict_loop-Spares (suc fuel) now max m s = elim (Bool-cases (leb max (length m))) [
    | inl e ↦ rw e (
        without_victim-Spares now (evict_loop fuel now max) m (victim now none m)
          (λ n t. evict_loop-Spares fuel now max n t) s refl)
    | inr e ↦ rw e (Spares-none m s)
  ]
