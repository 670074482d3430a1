-- ===== src/Sync/Session/Handshake.antt =====
-- A connection is admitted only after every check of its first frame.
use nisaba.Prelude.{
  ℕ, ◌≤◌, ◌≡◌, ◌≢◌, ◌⊎◌, inl, inr, refl, ap, subst, ◌∙◌, not, ◌&&◌, ◌==◌, ltb, Bool, Bool-cases,
  Option, none, some, Text, length, arith,
}
use nisaba.Core.Review.Tiers.{same_text}
use nisaba.Core.Review.Tiers.Tokens.{same_text-eq}
use nisaba.Sync.Bytes.{Bytes}
use nisaba.Sync.Utf8.{as_bytes}
use nisaba.Sync.Protocol
use nisaba.Sync.Protocol.{Frame, decode}
use nisaba.Sync.Error.{SyncResult, ok, err}
use nisaba.Sync.Config.{max_token_bytes, max_vv_bytes}
use nisaba.Sync.Roles.{Role}
use nisaba.Sync.Authority.{Loro}
use nisaba.Sync.Room.{Channel, Stores, DocRoom}
use nisaba.Sync.Room.Admission.{JoinOutcome}
use nisaba.Sync.Registry.{DocRegistry, get_or_open}
use nisaba.Sync.Session.{
  Outcome, told, admitted, after_join, join_room, authorized, greeted, handshake,
}

-- The peer, the role and the bearer of an admission.
abbrev admission : Outcome → Option (ℕ × Role × Text)
admission (told code) = none
admission (admitted peer role token generation ack) = some (peer, role, token)

module _ ⦃l : Loro⦄ ⦃ch : Channel⦄ ⦃st : Stores l.Version⦄ where
  after_join-admission :
      (doc : Text) (peer : ℕ) (role : Role) (token : Text) (proto : ℕ) (reg : DocRegistry)
      (o : DocRoom × SyncResult JoinOutcome) (a : ℕ × Role × Text)
      → admission (after_join doc peer role token proto reg o).1 ≡ some a
      → (peer, role, token) ≡ a
  after_join-admission doc peer role token proto reg (room, ok w) a h = ground (arith, h)
  after_join-admission doc peer role token proto reg (room, err e) a h = absurd (ground (arith, h))

  join_room-admission :
      (now : ℕ) (doc : Text) (peer : ℕ) (role : Role) (token : Text) (proto : ℕ) (vv : Bytes)
      (tx : ch.Sender) (close : ℕ) (o : DocRegistry × SyncResult DocRoom) (a : ℕ × Role × Text)
      → admission (join_room now doc peer role token proto vv tx close o).1 ≡ some a
      → (peer, role, token) ≡ a
  join_room-admission now doc peer role token proto vv tx close (reg, err e) a h =
      absurd (ground (arith, h))
  join_room-admission now doc peer role token proto vv tx close (reg, ok room) a h =
      after_join-admission doc peer role token proto reg _ a h

  -- The checks that a greeting with these fields passes.
  pub record Passed (access : Text → Text → Option Role) (doc d : Text) (proto peer : ℕ)
      (token : Text) (vv : Bytes) (a : ℕ × Role × Text) : Type 0 where
    pub version : (proto ≡ 1) ⊎ (proto ≡ 2)
    pub same_doc : d ≡ doc
    pub peer_set : peer ≢ 0
    pub token_small : length (as_bytes token) ≤ max_token_bytes
    pub vv_small : length vv ≤ max_vv_bytes
    pub granted : (role : Role) × (access doc token ≡ some role) × ((peer, role, token) ≡ a)

  authorized-granted :
      (now : ℕ) (doc : Text) (peer : ℕ) (token : Text) (proto : ℕ) (vv : Bytes) (tx : ch.Sender)
      (close : ℕ) (log : st.Log) (snaps : st.Snapshots) (reg : DocRegistry) (o : Option Role)
      (a : ℕ × Role × Text)
      → admission (authorized now doc peer token proto vv tx close log snaps reg o).1 ≡ some a
      → (role : Role) × (o ≡ some role) × ((peer, role, token) ≡ a)
  authorized-granted now doc peer token proto vv tx close log snaps reg none a h =
      absurd (ground (arith, h))
  authorized-granted now doc peer token proto vv tx close log snaps reg (some role) a h = (
    role,
    refl,
    join_room-admission now doc peer role token proto vv tx close
        (get_or_open now doc log snaps reg) a h,
  )

  hello-Passed :
      (now : ℕ) (access : Text → Text → Option Role) (doc : Text) (tx : ch.Sender) (close : ℕ)
      (log : st.Log) (snaps : st.Snapshots) (reg : DocRegistry) (proto : ℕ) (d : Text) (peer : ℕ)
      (token : Text) (vv : Bytes) (a : ℕ × Role × Text)
      → admission
          (greeted now access doc tx close log snaps reg
            (Protocol.ok (Frame.hello proto d peer token vv))).1
        ≡ some a
      → Passed access doc d proto peer token vv a
  hello-Passed now access doc tx close log snaps reg proto d peer token vv a =
      elim (Bool-cases (not (proto == 1) && not (proto == 2))) [
        | inl e ↦ rw e (λ h. absurd (ground (arith, h)))
        | inr e ↦ elim (Bool-cases (same_text d doc)) [
          | inr f ↦ rw (e, f) (λ h. absurd (ground (arith, h)))
          | inl f ↦ elim (Bool-cases (peer == 0)) [
            | inl g ↦ rw (e, f, g) (λ h. absurd (ground (arith, h)))
            | inr g ↦ elim (Bool-cases (ltb max_token_bytes (length (as_bytes token)))) [
              | inl i ↦ rw (e, f, g, i) (λ h. absurd (ground (arith, h)))
              | inr i ↦ elim (Bool-cases (ltb max_vv_bytes (length vv))) [
                | inl j ↦ rw (e, f, g, i, j) (λ h. absurd (ground (arith, h)))
                | inr j ↦
                    rw (e, f, g, i, j)
                      (λ h. record {
                        version = ground (arith, e);
                        same_doc = same_text-eq d doc f;
                        peer_set = λ z. absurd (ground (arith, g, z));
                        token_small = ground (arith, i);
                        vv_small = ground (arith, j);
                        granted =
                            authorized-granted now doc peer token proto vv tx close log snaps reg
                              (access doc token) a h;
                      })
              ]
            ]
          ]
        ]
      ]

  -- The first frame is a greeting of this document by the peer, and the bearer was granted the role.
  pub record Admitted (access : Text → Text → Option Role) (doc : Text) (o : Protocol.Result Frame)
      (peer : ℕ) (role : Role) (token : Text) : Type 0 where
    pub proto : ℕ
    pub vv : Bytes
    pub greeting : o ≡ Protocol.ok (Frame.hello proto doc peer token vv)
    pub version : (proto ≡ 1) ⊎ (proto ≡ 2)
    pub peer_set : peer ≢ 0
    pub token_small : length (as_bytes token) ≤ max_token_bytes
    pub vv_small : length vv ≤ max_vv_bytes
    pub granted : access doc token ≡ some role

  greeted-Admitted :
      (now : ℕ) (access : Text → Text → Option Role) (doc : Text) (tx : ch.Sender) (close : ℕ)
      (log : st.Log) (snaps : st.Snapshots) (reg : DocRegistry) (o : Protocol.Result Frame)
      (peer : ℕ) (role : Role) (token : Text) (generation : ℕ) (ack : Bool)
      → (greeted now access doc tx close log snaps reg o).1
        ≡ admitted peer role token generation ack
      → Admitted access doc o peer role token
  greeted-Admitted now access doc tx close log snaps reg (Protocol.err e) peer role token generation
        ack h =
      absurd (ground (arith, h))
  greeted-Admitted now access doc tx close log snaps reg (Protocol.ok (Frame.hello proto d p t vv))
        peer role token generation ack h =
      let c =
        hello-Passed now access doc tx close log snaps reg proto d p t vv (peer, role, token)
          (ap admission h) in
      let same_peer : p ≡ peer = ap (λ a. a.0) c.granted.2 in
      let same_token : t ≡ token = ap (λ a. a.2) c.granted.2 in
      let same : c.granted.0 ≡ role = ap (λ a. a.1) c.granted.2 in
      record {
        proto = proto;
        vv = vv;
        greeting = rw (c.same_doc, same_peer, same_token) refl;
        version = c.version;
        peer_set = λ z. c.peer_set (same_peer ∙ z);
        token_small = subst (λ x. length (as_bytes x) ≤ max_token_bytes) same_token c.token_small;
        vv_small = c.vv_small;
        granted = subst (λ x. access doc x ≡ some role) same_token (c.granted.1 ∙ ap some same);
      }
  greeted-Admitted now access doc tx close log snaps reg (Protocol.ok (Frame.welcome status note c))
        peer role token generation ack h =
      absurd (ground (arith, h))
  greeted-Admitted now access doc tx close log snaps reg (Protocol.ok (Frame.update b)) peer role
        token generation ack h =
      absurd (ground (arith, h))
  greeted-Admitted now access doc tx close log snaps reg (Protocol.ok (Frame.snapshot b)) peer role
        token generation ack h =
      absurd (ground (arith, h))
  greeted-Admitted now access doc tx close log snaps reg (Protocol.ok (Frame.presence b)) peer role
        token generation ack h =
      absurd (ground (arith, h))
  greeted-Admitted now access doc tx close log snaps reg (Protocol.ok Frame.heartbeat) peer role
        token generation ack h =
      absurd (ground (arith, h))
  greeted-Admitted now access doc tx close log snaps reg (Protocol.ok Frame.bye) peer role token
        generation ack h =
      absurd (ground (arith, h))
  greeted-Admitted now access doc tx close log snaps reg (Protocol.ok (Frame.error c m)) peer role
        token generation ack h =
      absurd (ground (arith, h))

  -- A handshake that admits a session had a first frame that decodes to a greeting of this document,
  -- in a version that is known, by a peer that is not zero, with a token and a version vector within
  -- their bounds, and the access resolver granted the token the role of the session.
  pub handshake-Admitted :
      (now : ℕ) (access : Text → Text → Option Role) (doc : Text) (bytes : Bytes) (tx : ch.Sender)
      (close : ℕ) (log : st.Log) (snaps : st.Snapshots) (reg : DocRegistry) (peer : ℕ) (role : Role)
      (token : Text) (generation : ℕ) (ack : Bool)
      → (handshake now access doc bytes tx close log snaps reg).1
        ≡ admitted peer role token generation ack
      → Admitted access doc (decode bytes reg.config.max_update_bytes) peer role token
  unfolding handshake
  handshake-Admitted now access doc bytes tx close log snaps reg peer role token generation ack h =
      greeted-Admitted now access doc tx close log snaps reg _ peer role token generation ack h
