-- ===== src/Kubernetes/Known.antt =====
-- The pods behind the endpoints that a discovery has announced: it knows them all.
use state_proxy.Base.{
  Bool, true, false, List, [], ◌∷◌, Option, Text, Text_discrete, if_neg, if◌then◌else◌, contains,
  contains-perm, set_insert, ◌≡◌, ◌∙◌, ap, sym, subst, arith, ok, err, Result, IterationOrder, inl,
  inr, ◌⊎◌, Option-cases, Bool-cases,
}
use state_proxy.Backend.Endpoint.{delete, IpAddr}
use state_proxy.Kubernetes.Pod.{Pod, PodEvent, applied, deleted, restarted, Details, details}
use state_proxy.Kubernetes.Monad.{Runtime, M, pure, send, Error}
use state_proxy.Kubernetes.Runtime.{
  discover_services, learn, apply_details, apply_pod, apply_pods, replace_known, delete_missing,
  handle_pod_event, watch,
}
use state_proxy.Kubernetes.Tracking.{
  is_live, is_live-append, IsTracked, Triple, Holds, Tracked, TrackedWith, bind-Triple, send-Triple,
  discover_services-Triple, learn-Triple, forget_delete-Triple, apply_phase-Triple,
}

weaken-Triple :
    {A : Type 0} (P : Runtime → Type 0) (Q Q' : A → Runtime → Type 0) (m : M A)
    → Triple P m Q
    → ((a : A) (r : Runtime) → Q a r → Q' a r)
    → Triple P m Q'
weaken-Triple {A} P Q Q' m h w this p = go (m this) (h this p)
  where
    go : (s : Result Error A × Runtime) → Holds Q s → Holds Q' s
    go (ok a, r) q = w a r q
    go (err e, r) q = tt

module _ (u : Text) where
  if-Triple :
      (b : Bool) (P Q : Runtime → Type 0) (m n : M (Unit {0}))
      → Triple P m (λ _. Q)
      → Triple P n (λ _. Q)
      → Triple P (if b then m else n) (λ _. Q)
  if-Triple true P Q m n hm hn = hm
  if-Triple false P Q m n hm hn = hn

  -- What is there belongs to a pod that is known, or to one of a list.
  abbrev IsTrackedBut : List Text → Runtime → Type 0
  IsTrackedBut uids this =
      is_live u this.sender.sent false ≡ true
      → (contains Text_discrete u this.known_pod_uids ≡ true)
        ⊎ (contains Text_discrete u uids ≡ true)

  delete_missing-Triple :
      (uids : List Text) → Triple (IsTrackedBut uids) (delete_missing uids) (Tracked u)
  unfolding delete_missing contains
  delete_missing-Triple [] this p = λ live. elim (p live) [ inl known ↦ known | inr listed ↦ cc ]
  delete_missing-Triple (uid ∷ uids) this p =
      elim (Bool-cases (contains Text_discrete uid this.known_pod_uids)) [
        | inl known ↦
            rw (known, delete_missing)
              (delete_missing-Triple uids this (λ live. elim (p live) [
                | inl tracked ↦ inl tracked
                | inr listed ↦ elim (Text_discrete u uid) [
                  | yes same ↦
                      inl (
                        ap (λ (t : Text). contains Text_discrete t this.known_pod_uids) same
                        ∙ known)
                  | no off ↦ inr (sym (if_neg (Text_discrete u uid) off _ _) ∙ listed)
                ]
              ]))
        | inr gone ↦
            rw (gone, delete_missing)
              (bind-Triple (IsTrackedBut (uid ∷ uids)) (λ _. IsTrackedBut uids) (Tracked u)
                (send (delete uid)) (λ _. delete_missing uids)
                (send-Triple u (delete uid) (IsTrackedBut (uid ∷ uids)) (IsTrackedBut uids)
                  (λ now closed q live.
                    let left = sym (is_live-append u now.sender.sent (delete uid) false) ∙ live in
                    elim (Text_discrete u uid) [
                      | yes same ↦ absurd (ground arith)
                      | no off ↦ elim (q (sym (if_neg (Text_discrete u uid) off _ _) ∙ left)) [
                        | inl tracked ↦ inl tracked
                        | inr listed ↦ inr (sym (if_neg (Text_discrete u uid) off _ _) ∙ listed)
                      ]
                    ]))
                (λ _. delete_missing-Triple uids) this p)
      ]

  module _ (parse_address : Text → Option IpAddr) where
    apply_details-Triple :
        (found : Details) → Triple (IsTracked u) (apply_details parse_address found) (Tracked u)
    unfolding apply_details
    apply_details-Triple found = elim (Option-cases (parse_address found.pod_ip)) [
      | inl e ↦ rw (e, apply_details) (λ this p. tt)
      | inr (address, e) ↦
          let known = TrackedWith u {A = Unit {0}} found.uid tt in
          rw (e, apply_details)
            (bind-Triple (IsTracked u) (λ _. known) (Tracked u) (learn found.uid) _
              (learn-Triple u found.uid)
              (λ b.
                bind-Triple known (λ _. IsTracked u) (Tracked u)
                  (if b then discover_services found.annotations found.uid address else pure tt) _
                  (if-Triple b known (IsTracked u) _ _
                    (weaken-Triple known (TrackedWith u found.uid) (Tracked u)
                      (discover_services found.annotations found.uid address)
                      (discover_services-Triple u found.uid address found.annotations)
                      (λ a r q. q.0))
                    (λ this p. p.0))
                  (λ _. apply_phase-Triple u found.phase found.uid)))
    ]

    apply_pod-Triple : (pod : Pod) → Triple (IsTracked u) (apply_pod parse_address pod) (Tracked u)
    unfolding apply_pod
    apply_pod-Triple pod = elim (Option-cases pod.status) [
      | inl e ↦ rw (e, apply_pod) (λ this p. p)
      | inr (status, e) ↦ elim (Option-cases (details pod.metadata status)) [
        | inl f ↦ rw (e, apply_pod) (rw f (λ this p. p))
        | inr (found, f) ↦ rw (e, apply_pod) (rw f (apply_details-Triple found))
      ]
    ]

    apply_pods-Triple :
        (pods : List Pod) (uids : List Text)
        → Triple (IsTracked u) (apply_pods parse_address pods uids) (Tracked u)
    unfolding apply_pods
    apply_pods-Triple [] uids = λ this p. p
    apply_pods-Triple (pod ∷ pods) uids = elim (Option-cases pod.metadata.uid) [
      | inl e ↦ rw (e, apply_pods) (apply_pods-Triple pods uids)
      | inr (uid, e) ↦
          rw (e, apply_pods)
            (bind-Triple (IsTracked u) (Tracked u) (Tracked u) (apply_pod parse_address pod) _
              (apply_pod-Triple pod)
              (λ _. apply_pods-Triple pods (set_insert Text_discrete uid uids).0))
    ]

    handle_pod_event-Triple :
        (order : IterationOrder Text) (event : PodEvent)
        → Triple (IsTracked u) (handle_pod_event parse_address order event) (Tracked u)
    unfolding handle_pod_event replace_known
    handle_pod_event-Triple order (applied pod) = elim (Option-cases pod.metadata.uid) [
      | inl e ↦ rw (e, handle_pod_event) (λ this p. p)
      | inr (uid, e) ↦ rw (e, handle_pod_event) (apply_pod-Triple pod)
    ]
    handle_pod_event-Triple order (deleted pod) = elim (Option-cases pod.metadata.uid) [
      | inl e ↦ rw (e, handle_pod_event) (λ this p. p)
      | inr (uid, e) ↦ rw (e, handle_pod_event) (forget_delete-Triple u uid)
    ]
    handle_pod_event-Triple order (restarted pods) =
        bind-Triple (IsTracked u) (Tracked u) (Tracked u) (apply_pods parse_address pods []) _
          (apply_pods-Triple pods [])
          (λ listed this tracked.
            delete_missing-Triple (order.arrange this.known_pod_uids)
              (record this { known_pod_uids = listed })
              (λ live. inr (
                contains-perm Text_discrete u (order.arrange_perm this.known_pod_uids)
                ∙ tracked live)))

    watch-Triple :
        (order : IterationOrder Text) (events : List PodEvent)
        → Triple (IsTracked u) (watch parse_address order events) (Tracked u)
    unfolding watch
    watch-Triple order [] = λ this p. p
    watch-Triple order (event ∷ events) =
        bind-Triple (IsTracked u) (Tracked u) (Tracked u)
          (handle_pod_event parse_address order event) _ (handle_pod_event-Triple order event)
          (λ _. watch-Triple order events)

    -- Through pod events none of which fails: if a pod has an endpoint by the events that were sent, the
    -- pod is known, if that held before.
    pub watch-IsTracked :
        (order : IterationOrder Text) (events : List PodEvent) (this : Runtime) {next : Runtime}
        → watch parse_address order events this ≡ (ok tt, next)
        → IsTracked u this
        → IsTracked u next
    watch-IsTracked order events this {next} h tracked =
        subst (Holds {A = Unit {0}} (Tracked u)) h (watch-Triple order events this tracked)
