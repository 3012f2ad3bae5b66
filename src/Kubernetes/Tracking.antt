-- ===== src/Kubernetes/Tracking.antt =====
-- The endpoints that a discovery has announced and not taken back, and the pods that it knows.
use state_proxy.Base.{
  Bool, true, false, List, [], ◌∷◌, ◌++◌, lookup, Text, Text_discrete, ite, if_pos, if_neg, codes,
  contains, contains-set_insert, contains-set_remove, ◌≡◌, ◌≢◌, refl, ◌∙◌, ap, sym, arith, ok, err,
  parse_unsigned, Result, split, inl, inr, Option-cases, Bool-cases,
}
use state_proxy.Backend.Endpoint.{EndpointEvent, add, delete, suspend, resume, IpAddr}
use state_proxy.Kubernetes.Monad.{Runtime, M, ◌>>=◌, ◌>>◌, pure, continue, send, Error}
use state_proxy.Kubernetes.Runtime.{
  max_port, services_annotation, parse_port, send_parts, send_service_from_string, send_services,
  discover_services, learn, forget, apply_phase,
}

-- Whether an endpoint of the pod is there after an event, and after several.
abbrev pub is_live_after : Text → EndpointEvent → Bool → Bool
is_live_after u (add uid is_available external_port external_protocol address protocol) b =
    ite (Text_discrete u uid) true b
is_live_after u (delete uid) b = ite (Text_discrete u uid) false b
is_live_after u (suspend uid) b = b
is_live_after u (resume uid) b = b

abbrev pub is_live : Text → List EndpointEvent → Bool → Bool
is_live u [] b = b
is_live u (event ∷ events) b = is_live u events (is_live_after u event b)

pub is_live-append :
    (u : Text) (events : List EndpointEvent) (event : EndpointEvent) (b : Bool)
    → is_live u (events ++ event ∷ []) b ≡ is_live_after u event (is_live u events b)
is_live-append u [] event b = refl
is_live-append u (e ∷ events) event b = is_live-append u events event (is_live_after u e b)

-- A call that succeeds leads from one predicate on the state to another.
abbrev pub Holds : {A : Type 0} → (A → Runtime → Type 0) → Result Error A × Runtime → Type 0
Holds Q (ok a, r) = Q a r
Holds Q (err e, r) = Unit {0}

abbrev pub Triple : {A : Type 0} → (Runtime → Type 0) → M A → (A → Runtime → Type 0) → Type 0
Triple P m Q = (this : Runtime) → P this → Holds Q (m this)

pub bind-Triple :
    {A B : Type 0} (P : Runtime → Type 0) (R : A → Runtime → Type 0) (Q : B → Runtime → Type 0)
    (m : M A) (f : A → M B)
    → Triple P m R
    → ((a : A) → Triple (R a) (f a) Q)
    → Triple P (m >>= f) Q
bind-Triple {A} {B} P R Q m f hm hf this p = go (m this) (hm this p)
  where
    go : (s : Result Error A × Runtime) → Holds R s → Holds Q (continue s f)
    go (ok a, r) h = hf a r h
    go (err e, r) h = tt

module _ (u : Text) where
  -- An endpoint of the pod is there only if the pod is known.
  abbrev pub IsTracked : Runtime → Type 0
  IsTracked this =
      is_live u this.sender.sent false ≡ true → contains Text_discrete u this.known_pod_uids ≡ true

  abbrev pub IsKnown : Text → Runtime → Type 0
  IsKnown uid this = contains Text_discrete uid this.known_pod_uids ≡ true

  abbrev pub Tracked : {A : Type 0} → A → Runtime → Type 0
  Tracked _ this = IsTracked this

  abbrev pub TrackedWith : {A : Type 0} → Text → A → Runtime → Type 0
  TrackedWith uid _ this = IsTracked this × IsKnown uid this

  pub send-Triple :
      (event : EndpointEvent) (P Q : Runtime → Type 0)
      → ((this : Runtime) (closed : Bool)
          → P this
          → Q (record this {
            sender = record { is_closed = closed; sent = this.sender.sent ++ event ∷ [] };
          }))
      → Triple P (send event) (λ _. Q)
  unfolding send
  send-Triple event P Q h this p = elim (Bool-cases this.sender.is_closed) [
    | inl e ↦ rw (e, send) tt
    | inr e ↦ rw (e, send) (h this false p)
  ]

  send_add-Triple :
      (uid : Text) (event : EndpointEvent)
      → ((b : Bool) → u ≢ uid → is_live_after u event b ≡ b)
      → Triple (TrackedWith {A = Unit {0}} uid tt) (send event) (TrackedWith uid)
  send_add-Triple uid event local =
      send-Triple event (TrackedWith {A = Unit {0}} uid tt) (TrackedWith {A = Unit {0}} uid tt)
        (λ this closed (tracked, is_known). (
          λ live. elim (Text_discrete u uid) [
            | yes same ↦
                ap (λ (t : Text). contains Text_discrete t this.known_pod_uids) same ∙ is_known
            | no off ↦ tracked (
                sym (
                  is_live-append u this.sender.sent event false
                  ∙ local (is_live u this.sender.sent false) off)
                ∙ live)
          ],
          is_known,
        ))

  pub keep-Triple : {A : Type 0} (P : Runtime → Type 0) (a : A) → Triple P (pure a) (λ _. P)
  keep-Triple P a this p = p

  parse_port-Triple : (P : Runtime → Type 0) (port : Text) → Triple P (parse_port port) (λ _. P)
  unfolding parse_port
  parse_port-Triple P port this p = elim (Option-cases (parse_unsigned max_port port)) [
    | inl e ↦ rw (e, parse_port) tt
    | inr (n, e) ↦ rw (e, parse_port) p
  ]

  module _ (uid : Text) (address : IpAddr) where
    abbrev P : Runtime → Type 0
    P = TrackedWith {A = Unit {0}} uid tt

    send_parts-Triple :
        (parts : List Text) → Triple P (send_parts uid address parts) (TrackedWith uid)
    unfolding send_parts
    send_parts-Triple (p ∷ proto ∷ q ∷ back ∷ garbage) =
        bind-Triple P (λ _. P) (TrackedWith uid) (parse_port p) _ (parse_port-Triple P p)
          (λ n.
            bind-Triple P (λ _. P) (TrackedWith uid) (parse_port q) _ (parse_port-Triple P q)
              (λ k. send_add-Triple uid _ (λ b off. if_neg (Text_discrete u uid) off _ _)))
    send_parts-Triple _ = λ this p. tt

    send_services-Triple :
        (parts : List Text) → Triple P (send_services parts uid address) (TrackedWith uid)
    unfolding send_services send_service_from_string
    send_services-Triple [] = λ this p. p
    send_services-Triple (s ∷ ss) =
        bind-Triple P (TrackedWith uid) (TrackedWith uid) (send_service_from_string s uid address) _
          (send_parts-Triple (split b':' s)) (λ _. send_services-Triple ss)

    pub discover_services-Triple :
        (annotations : List (Text × Text))
        → Triple P (discover_services annotations uid address) (TrackedWith uid)
    unfolding discover_services
    discover_services-Triple annotations =
        elim (Option-cases (lookup Text_discrete services_annotation annotations)) [
          | inl e ↦ rw (e, discover_services) (λ this p. p)
          | inr (s, e) ↦ rw (e, discover_services) (send_services-Triple (split b',' s))
        ]

  pub learn-Triple : (uid : Text) → Triple IsTracked (learn uid) (TrackedWith uid)
  unfolding learn
  learn-Triple uid this tracked = (
    λ live.
        contains-set_insert Text_discrete uid u this.known_pod_uids ∙ (elim (Text_discrete u uid) [
          | yes same ↦ if_pos (Text_discrete u uid) same _ _
          | no off ↦ if_neg (Text_discrete u uid) off _ _ ∙ tracked live
        ]),
    contains-set_insert Text_discrete uid uid this.known_pod_uids
        ∙ if_pos (Text_discrete uid uid) refl _ _,
  )

  -- A UID that is forgotten, and then taken back.
  pub forget_delete-Triple :
      (uid : Text) → Triple IsTracked (forget uid >> send (delete uid)) Tracked
  unfolding forget
  forget_delete-Triple uid =
      bind-Triple IsTracked (λ _. R) Tracked (forget uid) (λ _. send (delete uid))
        (λ this tracked off live.
          contains-set_remove Text_discrete uid u this.known_pod_uids
          ∙ if_neg (Text_discrete u uid) off _ _
          ∙ tracked live)
        (λ _. send-Triple (delete uid) R IsTracked (λ this closed known live.
          let now = sym (is_live-append u this.sender.sent (delete uid) false) ∙ live in
          elim (Text_discrete u uid) [
            | yes same ↦ absurd (ground arith)
            | no off ↦ known off (sym (if_neg (Text_discrete u uid) off _ _) ∙ now)
          ]))
    where
      R : Runtime → Type 0
      R this = u ≢ uid → IsTracked this

  same-Triple :
      (event : EndpointEvent)
      → ((b : Bool) → is_live_after u event b ≡ b)
      → Triple IsTracked (send event) Tracked
  same-Triple event same = send-Triple event IsTracked IsTracked (λ this closed tracked live.
      tracked (
        sym
          (is_live-append u this.sender.sent event false ∙ same (is_live u this.sender.sent false))
        ∙ live))

  ite-Triple :
      {D : Type 0} (d : Dec D) (m n : M (Unit {0}))
      → Triple IsTracked m Tracked
      → Triple IsTracked n Tracked
      → Triple IsTracked (ite d m n) Tracked
  ite-Triple (yes d) m n hm hn = hm
  ite-Triple (no d) m n hm hn = hn

  pub apply_phase-Triple : (phase uid : Text) → Triple IsTracked (apply_phase phase uid) Tracked
  unfolding apply_phase
  apply_phase-Triple phase uid =
      let suspended = same-Triple (suspend uid) (λ b. refl) in
      ite-Triple (Text_discrete phase (codes "Running")) _ _ (same-Triple (resume uid) (λ b. refl))
        (ite-Triple (Text_discrete phase (codes "Succeeded")) _ _ (forget_delete-Triple uid) (
          ite-Triple (Text_discrete phase (codes "Failed")) _ _ suspended (
            ite-Triple (Text_discrete phase (codes "Unknown")) _ _ suspended
              (ite-Triple (Text_discrete phase (codes "Pending")) _ _ (λ this p. p) suspended))))
