-- ===== src/Kubernetes/Runtime.antt =====
-- src/kubernetes/mod.rs: `KubernetesDiscoveryRuntime`. The parser of IP addresses is a parameter;
-- the pod names, which go to the log alone, are left out, and so are the log lines.
use state_proxy.Base.{
  ℕ, ◌-◌, ◌^◌, Bool, false, List, [], ◌∷◌, lookup, Option, none, some, Text, codes, Text_discrete,
  ite, if◌then◌else◌, contains, set_insert, set_remove, split, parse_unsigned, IterationOrder,
}
use state_proxy.Backend.Endpoint.{add, delete, suspend, resume, IpAddr}
use state_proxy.Kubernetes.Pod.{Pod, PodEvent, applied, deleted, restarted, Details, details}
use state_proxy.Kubernetes.Monad.{
  M, ◌>>=◌, ◌>>◌, pure, fail, send, not_a_port, not_an_address, invalid_service_string,
}

abbrev pub services_annotation : Text
services_annotation = codes "state-proxy.io/services"

abbrev pub max_port : ℕ
max_port = 2 ^ 16 - 1

-- `parse_port`.
unfoldable pub parse_port : Text → M ℕ
parse_port port = elim (parse_unsigned max_port port) [
  | none ↦ fail (not_a_port port)
  | some n ↦ pure n
]

-- The match on the first four parts.
unfoldable pub send_parts : Text → IpAddr → List Text → M (Unit {0})
send_parts uid pod_address
      (external_port ∷ external_protocol ∷ backend_port ∷ backend_protocol ∷ garbage) =
    do
      external ← parse_port external_port
      backend ← parse_port backend_port
      send (
          add uid false external external_protocol (record { ip = pod_address; port = backend })
            backend_protocol)
send_parts uid pod_address parts = fail invalid_service_string

-- `send_service_from_string`.
unfoldable pub send_service_from_string : Text → Text → IpAddr → M (Unit {0})
unfolding send_parts
send_service_from_string service_string uid pod_address =
    send_parts uid pod_address (split b':' service_string)

-- The loop of `discover_services`.
unfoldable pub send_services : List Text → Text → IpAddr → M (Unit {0})
send_services [] uid pod_address = pure tt
send_services (service_string ∷ service_strings) uid pod_address = do
  send_service_from_string service_string uid pod_address
  send_services service_strings uid pod_address

-- `discover_services`.
unfoldable pub discover_services : List (Text × Text) → Text → IpAddr → M (Unit {0})
discover_services annotations uid pod_address =
    elim (lookup Text_discrete services_annotation annotations) [
      | none ↦ pure tt
      | some services_string ↦ send_services (split b',' services_string) uid pod_address
    ]

-- `self.known_pod_uids.insert(uid)` and `remove`.
unfoldable pub learn : Text → M Bool
learn uid this =
    let (uids, is_new) = set_insert Text_discrete uid this.known_pod_uids in
    pure is_new (record this { known_pod_uids = uids })

unfoldable pub forget : Text → M (Unit {0})
forget uid this =
    pure tt (record this { known_pod_uids = set_remove Text_discrete uid this.known_pod_uids })

-- The `match` on the phase.
unfoldable pub apply_phase : Text → Text → M (Unit {0})
apply_phase phase uid = ite (Text_discrete phase (codes "Running")) (send (resume uid)) (
    ite (Text_discrete phase (codes "Succeeded")) (forget uid >> send (delete uid)) (
      ite (Text_discrete phase (codes "Failed")) (send (suspend uid)) (
        ite (Text_discrete phase (codes "Unknown")) (send (suspend uid))
          (ite (Text_discrete phase (codes "Pending")) (pure tt) (send (suspend uid))))))

-- `mem::replace(&mut self.known_pod_uids, current_pod_uids)`.
unfoldable pub replace_known : List Text → M (List Text)
replace_known current_pod_uids this =
    pure this.known_pod_uids (record this { known_pod_uids = current_pod_uids })

-- The loop over the old UIDs.
unfoldable pub delete_missing : List Text → M (Unit {0})
delete_missing [] this = pure tt this
delete_missing (uid ∷ uids) this =
    ((if contains Text_discrete uid this.known_pod_uids then pure tt else send (delete uid))
        >> delete_missing uids)
      this

module _ (parse_address : Text → Option IpAddr) where
  -- `apply_pod` from the details on.
  unfoldable pub apply_details : Details → M (Unit {0})
  apply_details pod = elim (parse_address pod.pod_ip) [
    | none ↦ fail (not_an_address pod.pod_ip)
    | some address ↦ do
      is_new ← learn pod.uid
      if is_new then discover_services pod.annotations pod.uid address else pure tt
      apply_phase pod.phase pod.uid
  ]

  -- `apply_pod`.
  unfoldable pub apply_pod : Pod → M (Unit {0})
  apply_pod pod = elim pod.status [
    | none ↦ pure tt
    | some status ↦ elim (details pod.metadata status) [
      | none ↦ pure tt
      | some found ↦ apply_details found
    ]
  ]

  -- The loop over the pods of `Restarted`; the result is `current_pod_uids`.
  unfoldable pub apply_pods : List Pod → List Text → M (List Text)
  apply_pods [] current_pod_uids = pure current_pod_uids
  apply_pods (pod ∷ pods) current_pod_uids = elim pod.metadata.uid [
    | none ↦ apply_pods pods current_pod_uids
    | some uid ↦ do apply_pod pod; apply_pods pods (set_insert Text_discrete uid current_pod_uids).0
  ]

  -- `handle_pod_event`; the order is that in which the set of old UIDs is iterated.
  unfoldable pub handle_pod_event : IterationOrder Text → PodEvent → M (Unit {0})
  handle_pod_event order (applied pod) = elim pod.metadata.uid [
    | none ↦ pure tt
    | some _ ↦ apply_pod pod
  ]
  handle_pod_event order (deleted pod) = elim pod.metadata.uid [
    | none ↦ pure tt
    | some uid ↦ forget uid >> send (delete uid)
  ]
  handle_pod_event order (restarted pods) = do
    current_pod_uids ← apply_pods pods []
    old_pod_uids ← replace_known current_pod_uids
    delete_missing (order.arrange old_pod_uids)

  -- The loop of `run`, over the events of the watcher: the first error ends it.
  unfoldable pub watch : IterationOrder Text → List PodEvent → M (Unit {0})
  watch order [] = pure tt
  watch order (event ∷ events) = handle_pod_event order event >> watch order events
