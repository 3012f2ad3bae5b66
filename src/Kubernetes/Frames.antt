-- ===== src/Kubernetes/Frames.antt =====
-- What a call of the runtime leaves alone: the known UIDs of other pods, and the events that were sent.
use state_proxy.Base.{
  if_neg, Bool, true, false, List, [], ◌∷◌, lookup, Option, some, Text, Text_discrete, ite, codes,
  if◌then◌else◌, contains, contains-set_insert, contains-set_remove, ◌≡◌, ◌≢◌, refl, ◌∙◌, arith, ok,
  err, Result, split, inl, inr, Option-cases, Mem,
}
use state_proxy.Backend.Endpoint.{EndpointEvent, delete, suspend, resume, IpAddr}
use state_proxy.Kubernetes.Pod.{Pod, Details, details}
use state_proxy.Kubernetes.Monad.{Runtime, M, ◌>>=◌, pure, continue, send, Error}
use state_proxy.Kubernetes.Pods.{details-uid}
use state_proxy.Kubernetes.Runtime.{
  services_annotation, parse_port, send_parts, send_service_from_string, send_services,
  discover_services, learn, forget, apply_phase, apply_details, apply_pod,
}

-- Inversion of a chain that succeeds.
pub >>=-eq-ok :
    {A B : Type 0} (m : M A) (f : A → M B) (this : Runtime) {b : B} {next : Runtime}
    → (m >>= f) this ≡ (ok b, next)
    → (a : A) × (mid : Runtime) × (m this ≡ (ok a, mid)) × (f a mid ≡ (ok b, next))
>>=-eq-ok {A} {B} m f this {b} {next} h = invert (m this) refl h
  where
    invert :
        (s : Result Error A × Runtime)
        → m this ≡ s
        → continue s f ≡ (ok b, next)
        → (a : A) × (mid : Runtime) × (m this ≡ (ok a, mid)) × (f a mid ≡ (ok b, next))
    invert (ok a, mid) e g = (a, mid, e, g)
    invert (err x, mid) e g = cc

-- A call leaves alone whether the UID is known.
abbrev Frames : {A : Type 0} → Text → M A → Type 0
Frames u m =
    (this : Runtime)
    → contains Text_discrete u (m this).1.known_pod_uids
      ≡ contains Text_discrete u this.known_pod_uids

-- A call takes back no event.
abbrev Remembers : {A : Type 0} → EndpointEvent → M A → Type 0
Remembers event m = (this : Runtime) → Mem event this.sender.sent → Mem event (m this).1.sender.sent

module _ (u : Text) where
  bind-Frames :
      {A B : Type 0} (m : M A) (f : A → M B)
      → Frames u m
      → ((a : A) → Frames u (f a))
      → Frames u (m >>= f)
  bind-Frames {A} {B} m f hm hf this = after (m this) (hm this)
    where
      after :
          (s : Result Error A × Runtime)
          → contains Text_discrete u s.1.known_pod_uids
            ≡ contains Text_discrete u this.known_pod_uids
          → contains Text_discrete u (continue s f).1.known_pod_uids
            ≡ contains Text_discrete u this.known_pod_uids
      after (ok a, mid) e = hf a mid ∙ e
      after (err x, mid) e = e

  send-Frames : (event : EndpointEvent) → Frames u (send event)
  unfolding send
  send-Frames event this = ground arith

  parse_port-Frames : (port : Text) → Frames u (parse_port port)
  unfolding parse_port
  parse_port-Frames port this = ground arith

  send_parts-Frames :
      (parts : List Text) (uid : Text) (address : IpAddr) → Frames u (send_parts uid address parts)
  unfolding send_parts
  send_parts-Frames (p ∷ proto ∷ q ∷ back ∷ garbage) uid address =
      bind-Frames (parse_port p) _ (parse_port-Frames p)
        (λ n. bind-Frames (parse_port q) _ (parse_port-Frames q) (λ k. send-Frames _))
  send_parts-Frames _ uid address = λ this. refl

  send_services-Frames :
      (parts : List Text) (uid : Text) (address : IpAddr)
      → Frames u (send_services parts uid address)
  unfolding send_services send_service_from_string
  send_services-Frames [] uid address = λ this. refl
  send_services-Frames (s ∷ ss) uid address =
      bind-Frames (send_service_from_string s uid address) _
        (send_parts-Frames (split b':' s) uid address) (λ _. send_services-Frames ss uid address)

  discover_services-Frames :
      (annotations : List (Text × Text)) (uid : Text) (address : IpAddr)
      → Frames u (discover_services annotations uid address)
  unfolding discover_services
  discover_services-Frames annotations uid address =
      elim (Option-cases (lookup Text_discrete services_annotation annotations)) [
        | inl e ↦ rw (e, discover_services) (λ this. refl)
        | inr (s, e) ↦ rw (e, discover_services) (send_services-Frames (split b',' s) uid address)
      ]

  ite-Frames :
      {P : Type 0} (d : Dec P) (m n : M (Unit {0})) → Frames u m → Frames u n → Frames u (ite d m n)
  ite-Frames (yes p) m n hm hn = hm
  ite-Frames (no p) m n hm hn = hn

  if-Frames :
      (b : Bool) (m n : M (Unit {0})) → Frames u m → Frames u n → Frames u (if b then m else n)
  if-Frames true m n hm hn = hm
  if-Frames false m n hm hn = hn

  module _ (uid : Text) (other : u ≢ uid) where
    learn-Frames : Frames u (learn uid)
    unfolding learn
    learn-Frames this =
        contains-set_insert Text_discrete uid u this.known_pod_uids
        ∙ if_neg (Text_discrete u uid) other _ _

    forget-Frames : Frames u (forget uid)
    unfolding forget
    forget-Frames this =
        contains-set_remove Text_discrete uid u this.known_pod_uids
        ∙ if_neg (Text_discrete u uid) other _ _

    apply_phase-Frames : (phase : Text) → Frames u (apply_phase phase uid)
    unfolding apply_phase
    apply_phase-Frames phase =
        ite-Frames (Text_discrete phase (codes "Running")) _ _ (send-Frames (resume uid)) (
          ite-Frames (Text_discrete phase (codes "Succeeded")) _ _
            (bind-Frames (forget uid) _ forget-Frames (λ _. send-Frames (delete uid)))
            (ite-Frames (Text_discrete phase (codes "Failed")) _ _ (send-Frames (suspend uid)) (
              ite-Frames (Text_discrete phase (codes "Unknown")) _ _ (send-Frames (suspend uid)) (
                ite-Frames (Text_discrete phase (codes "Pending")) _ _ (λ this. refl)
                  (send-Frames (suspend uid))))))

  module _ (parse_address : Text → Option IpAddr) where
    apply_details-Frames :
        (found : Details) → u ≢ found.uid → Frames u (apply_details parse_address found)
    unfolding apply_details
    apply_details-Frames found other = elim (Option-cases (parse_address found.pod_ip)) [
      | inl e ↦ rw (e, apply_details) (λ this. refl)
      | inr (address, e) ↦
          rw (e, apply_details)
            (bind-Frames (learn found.uid) _ (learn-Frames found.uid other) (λ b.
              bind-Frames
                (if b then discover_services found.annotations found.uid address else pure tt) _
                (if-Frames b _ _ (discover_services-Frames found.annotations found.uid address)
                  (λ this. refl))
                (λ _. apply_phase-Frames found.uid other found.phase)))
    ]

    pub apply_pod-Frames :
        (pod : Pod) (uid : Text)
        → pod.metadata.uid ≡ some uid
        → u ≢ uid
        → Frames u (apply_pod parse_address pod)
    unfolding apply_pod
    apply_pod-Frames pod uid has_uid other = elim (Option-cases pod.status) [
      | inl e ↦ rw (e, apply_pod) (λ this. refl)
      | inr (status, e) ↦ elim (Option-cases (details pod.metadata status)) [
        | inl f ↦ rw (e, apply_pod) (rw f (λ this. refl))
        | inr (found, f) ↦
            let same = details-uid pod.metadata status f in
            let eq : found.uid ≡ uid = ground arith in
            let differs : u ≢ found.uid = λ h. other (h ∙ eq) in
            rw (e, apply_pod) (rw f (apply_details-Frames found differs))
      ]
    ]
