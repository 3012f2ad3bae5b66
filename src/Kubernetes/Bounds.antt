-- ===== src/Kubernetes/Bounds.antt =====
-- The ports and the availability in the events that the runtime sends, on every path, errors included.
use state_proxy.Base.{
  ◌≤◌, Bool, true, false, List, [], ◌∷◌, lookup, Option, Text, Text_discrete, ite, codes,
  if◌then◌else◌, contains, All, All-append, ◌≡◌, refl, ok, err, Result, IterationOrder, split,
  set_insert, inl, inr, Option-cases, Bool-cases, parse_unsigned, parse_unsigned-le,
}
use state_proxy.Backend.Endpoint.{EndpointEvent, add, delete, suspend, resume, IpAddr}
use state_proxy.Kubernetes.Pod.{Pod, PodEvent, applied, deleted, restarted, Details, details}
use state_proxy.Kubernetes.Monad.{Runtime, M, ◌>>=◌, pure, fail, continue, send, Error}
use state_proxy.Kubernetes.Runtime.{
  max_port, services_annotation, parse_port, send_parts, send_service_from_string, send_services,
  discover_services, learn, forget, apply_phase, apply_details, apply_pod, apply_pods,
  replace_known, delete_missing, handle_pod_event, watch,
}

-- An `Add` starts unavailable, and its ports fit 16 bits.
abbrev pub IsWellFormedEvent : EndpointEvent → Type 0
IsWellFormedEvent (add uid is_available external_port external_protocol address protocol) =
    (is_available ≡ false) × (external_port ≤ max_port) × (address.port ≤ max_port)
IsWellFormedEvent _ = Unit {0}

abbrev pub IsSound : Runtime → Type 0
IsSound this = All IsWellFormedEvent this.sender.sent

-- A call keeps the runtime sound, and its result, if there is one, satisfies the predicate.
abbrev Ensures : {A : Type 0} → (A → Type 0) → Result Error A → Type 0
Ensures P (ok a) = P a
Ensures P (err e) = Unit {0}

abbrev Keeps : {A : Type 0} → (A → Type 0) → M A → Type 0
Keeps P m = (this : Runtime) → IsSound this → IsSound (m this).1 × Ensures P (m this).0

abbrev Anything : {A : Type 0} → A → Type 0
Anything _ = Unit {0}

bind-Keeps :
    {A B : Type 0} (P : A → Type 0) (Q : B → Type 0) (m : M A) (f : A → M B)
    → Keeps P m
    → ((a : A) → P a → Keeps Q (f a))
    → Keeps Q (m >>= f)
bind-Keeps {A} {B} P Q m f km kf this sound = after (m this) (km this sound)
  where
    after :
        (s : Result Error A × Runtime)
        → IsSound s.1 × Ensures P s.0
        → IsSound (continue s f).1 × Ensures Q (continue s f).0
    after (ok a, r) (h, p) = kf a p r h
    after (err e, r) (h, p) = (h, tt)

pure-Keeps : {A : Type 0} (P : A → Type 0) (a : A) → P a → Keeps P (pure a)
pure-Keeps P a p this h = (h, p)

fail-Keeps : {A : Type 0} (P : A → Type 0) (e : Error) → Keeps P (fail e)
fail-Keeps P e this h = (h, tt)

send-Keeps : (event : EndpointEvent) → IsWellFormedEvent event → Keeps Anything (send event)
unfolding send
send-Keeps event w this h = elim (Bool-cases this.sender.is_closed) [
  | inl e ↦ rw (e, send) (h, tt)
  | inr e ↦ rw (e, send) (All-append IsWellFormedEvent this.sender.sent (event ∷ []) h (w, tt), tt)
]

parse_port-Keeps : (port : Text) → Keeps (λ n. n ≤ max_port) (parse_port port)
unfolding parse_port
parse_port-Keeps port this h = elim (Option-cases (parse_unsigned max_port port)) [
  | inl e ↦ rw (e, parse_port) (h, tt)
  | inr (n, e) ↦ rw (e, parse_port) (h, parse_unsigned-le max_port port e)
]

send_parts-Keeps :
    (parts : List Text) (uid : Text) (address : IpAddr)
    → Keeps Anything (send_parts uid address parts)
unfolding send_parts
send_parts-Keeps (p ∷ proto ∷ q ∷ back ∷ garbage) uid address =
    bind-Keeps (λ n. n ≤ max_port) Anything (parse_port p) _ (parse_port-Keeps p)
      (λ n le_n.
        bind-Keeps (λ k. k ≤ max_port) Anything (parse_port q) _ (parse_port-Keeps q)
          (λ k le_k. send-Keeps _ (refl, le_n, le_k)))
send_parts-Keeps _ uid address = λ this h. (h, tt)

send_services-Keeps :
    (parts : List Text) (uid : Text) (address : IpAddr)
    → Keeps Anything (send_services parts uid address)
unfolding send_services send_service_from_string
send_services-Keeps [] uid address = pure-Keeps Anything tt tt
send_services-Keeps (s ∷ ss) uid address =
    bind-Keeps Anything Anything (send_service_from_string s uid address) _
      (send_parts-Keeps (split b':' s) uid address) (λ _ _. send_services-Keeps ss uid address)

discover_services-Keeps :
    (annotations : List (Text × Text)) (uid : Text) (address : IpAddr)
    → Keeps Anything (discover_services annotations uid address)
unfolding discover_services
discover_services-Keeps annotations uid address =
    elim (Option-cases (lookup Text_discrete services_annotation annotations)) [
      | inl e ↦ rw (e, discover_services) (pure-Keeps Anything tt tt)
      | inr (s, e) ↦ rw (e, discover_services) (send_services-Keeps (split b',' s) uid address)
    ]

learn-Keeps : (uid : Text) → Keeps Anything (learn uid)
unfolding learn
learn-Keeps uid this h = (h, tt)

forget-Keeps : (uid : Text) → Keeps Anything (forget uid)
unfolding forget
forget-Keeps uid this h = (h, tt)

replace_known-Keeps : (uids : List Text) → Keeps Anything (replace_known uids)
unfolding replace_known
replace_known-Keeps uids this h = (h, tt)

ite-Keeps :
    {P : Type 0} (d : Dec P) (m n : M (Unit {0}))
    → Keeps Anything m
    → Keeps Anything n
    → Keeps Anything (ite d m n)
ite-Keeps (yes p) m n hm hn = hm
ite-Keeps (no p) m n hm hn = hn

if-Keeps :
    (b : Bool) (m n : M (Unit {0}))
    → Keeps Anything m
    → Keeps Anything n
    → Keeps Anything (if b then m else n)
if-Keeps true m n hm hn = hm
if-Keeps false m n hm hn = hn

apply_phase-Keeps : (phase uid : Text) → Keeps Anything (apply_phase phase uid)
unfolding apply_phase
apply_phase-Keeps phase uid =
    ite-Keeps (Text_discrete phase (codes "Running")) _ _ (send-Keeps (resume uid) tt) (
      ite-Keeps (Text_discrete phase (codes "Succeeded")) _ _
        (bind-Keeps Anything Anything (forget uid) _ (forget-Keeps uid)
          (λ _ _. send-Keeps (delete uid) tt))
        (ite-Keeps (Text_discrete phase (codes "Failed")) _ _ (send-Keeps (suspend uid) tt) (
          ite-Keeps (Text_discrete phase (codes "Unknown")) _ _ (send-Keeps (suspend uid) tt) (
            ite-Keeps (Text_discrete phase (codes "Pending")) _ _ (pure-Keeps Anything tt tt)
              (send-Keeps (suspend uid) tt)))))

delete_missing-Keeps : (uids : List Text) → Keeps Anything (delete_missing uids)
unfolding delete_missing
delete_missing-Keeps [] = pure-Keeps Anything tt tt
delete_missing-Keeps (uid ∷ uids) = λ this h.
    let known = contains Text_discrete uid this.known_pod_uids in
    bind-Keeps Anything Anything (if known then pure tt else send (delete uid)) _
      (if-Keeps known (pure tt) (send (delete uid)) (pure-Keeps Anything tt tt)
        (send-Keeps (delete uid) tt))
      (λ _ _. delete_missing-Keeps uids) this h

module _ (parse_address : Text → Option IpAddr) where
  apply_details-Keeps : (found : Details) → Keeps Anything (apply_details parse_address found)
  unfolding apply_details
  apply_details-Keeps found = elim (Option-cases (parse_address found.pod_ip)) [
    | inl e ↦ rw (e, apply_details) (λ this h. (h, tt))
    | inr (address, e) ↦
        rw (e, apply_details)
          (bind-Keeps Anything Anything (learn found.uid) _ (learn-Keeps found.uid) (λ b _.
            bind-Keeps Anything Anything
              (if b then discover_services found.annotations found.uid address else pure tt) _
              (if-Keeps b _ _ (discover_services-Keeps found.annotations found.uid address)
                (pure-Keeps Anything tt tt))
              (λ _ _. apply_phase-Keeps found.phase found.uid)))
  ]

  apply_pod-Keeps : (pod : Pod) → Keeps Anything (apply_pod parse_address pod)
  unfolding apply_pod
  apply_pod-Keeps pod = elim (Option-cases pod.status) [
    | inl e ↦ rw (e, apply_pod) (pure-Keeps Anything tt tt)
    | inr (status, e) ↦ elim (Option-cases (details pod.metadata status)) [
      | inl f ↦ rw (e, apply_pod) (rw f (pure-Keeps Anything tt tt))
      | inr (found, f) ↦ rw (e, apply_pod) (rw f (apply_details-Keeps found))
    ]
  ]

  apply_pods-Keeps :
      (pods : List Pod) (uids : List Text) → Keeps Anything (apply_pods parse_address pods uids)
  unfolding apply_pods
  apply_pods-Keeps [] uids = pure-Keeps Anything uids tt
  apply_pods-Keeps (pod ∷ pods) uids = elim (Option-cases pod.metadata.uid) [
    | inl e ↦ rw (e, apply_pods) (apply_pods-Keeps pods uids)
    | inr (uid, e) ↦
        rw (e, apply_pods)
          (bind-Keeps Anything Anything (apply_pod parse_address pod) _ (apply_pod-Keeps pod)
            (λ _ _. apply_pods-Keeps pods (set_insert Text_discrete uid uids).0))
  ]

  module _ (order : IterationOrder Text) where
    handle-Keeps : (event : PodEvent) → Keeps Anything (handle_pod_event parse_address order event)
    unfolding handle_pod_event
    handle-Keeps (applied pod) = elim (Option-cases pod.metadata.uid) [
      | inl e ↦ rw (e, handle_pod_event) (pure-Keeps Anything tt tt)
      | inr (uid, e) ↦ rw (e, handle_pod_event) (apply_pod-Keeps pod)
    ]
    handle-Keeps (deleted pod) = elim (Option-cases pod.metadata.uid) [
      | inl e ↦ rw (e, handle_pod_event) (pure-Keeps Anything tt tt)
      | inr (uid, e) ↦
          rw (e, handle_pod_event)
            (bind-Keeps Anything Anything (forget uid) _ (forget-Keeps uid)
              (λ _ _. send-Keeps (delete uid) tt))
    ]
    handle-Keeps (restarted pods) =
        bind-Keeps Anything Anything (apply_pods parse_address pods []) _ (apply_pods-Keeps pods [])
          (λ uids _.
            bind-Keeps Anything Anything (replace_known uids) _ (replace_known-Keeps uids)
              (λ old _. delete_missing-Keeps (order.arrange old)))

    watch-Keeps : (events : List PodEvent) → Keeps Anything (watch parse_address order events)
    unfolding watch
    watch-Keeps [] = pure-Keeps Anything tt tt
    watch-Keeps (event ∷ events) =
        bind-Keeps Anything Anything (handle_pod_event parse_address order event) _
          (handle-Keeps event) (λ _ _. watch-Keeps events)

    -- Through any sequence of pod events, also one that ends in an error, every `Add` that was sent
    -- starts unavailable and has ports of at most 65535, if that held of what was sent before.
    pub watch-IsSound :
        (events : List PodEvent) (this : Runtime)
        → IsSound this
        → IsSound (watch parse_address order events this).1
    watch-IsSound events this h = (watch-Keeps events this h).0
