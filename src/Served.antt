-- ===== src/Served.antt =====
-- The parts together: src/kubernetes/mod.rs sends endpoint events, `listen_for_discovery_events` of
-- src/backend/mod.rs takes them, and `get_endpoint_for` answers from what they left.
use mathlib.Core.List.Perm
use mathlib.Core.List.{not-mem-nil, mem-cons_self, eq-or-mem_of_mem-cons}
use mathlib.Core.Logic.Or
use state_proxy.Base.{
  ℕ, ◌%◌, true, false, List, [], ◌∷◌, ◌++◌, map, lookup, Option, none, some, Text, Text_discrete,
  ℕ_discrete, if_pos, All, ◌≡◌, refl, ◌∙◌, ap, sym, arith, Outcome, returned, ◌>>=◌, IterationOrder,
  contains, insert, lookup-insert, length, values, Result, length-perm, Perm,
}
use state_proxy.Backend.Endpoint.{
  EndpointEvent, add, resume, EndpointId, EndpointId_discrete, Endpoint, IpAddr,
}
use state_proxy.Backend.Manager
use state_proxy.Backend.Manager.{
  Service, ServiceManager, process_event, process_add, send_event, update_services, update_endpoint,
  resume_endpoint,
}
use state_proxy.Backend.Discovery.{Wakeup, received, listen_for_discovery_events, count_event}
use state_proxy.Backend.Select.{get_endpoint_for, select, first_available}
use state_proxy.Kubernetes.Pod.{Pod, applied, Details}
use state_proxy.Kubernetes.Monad.{Runtime, Error}
use state_proxy.Kubernetes.Runtime.{services_annotation, handle_pod_event}
use state_proxy.Kubernetes.Services.{IsOpen, ServiceRequest, IsWellFormed, print_services, add_of}
use state_proxy.Kubernetes.Pods.{running, IsComplete, handle_pod_event-applied_first}
pub mod Known
pub mod Announced
mod Tests

-- The events of a task reach a manager that is alive.
abbrev pub wakeups : List EndpointEvent → List Wakeup
wakeups = map (λ event. received event true)

abbrev endpoint_of : IpAddr → ServiceRequest → Endpoint
endpoint_of address s = record {
  is_available = true;
  address = record { ip = address; port = s.backend_port };
  protocol = s.backend_protocol;
}

abbrev serving : Text → Text → IpAddr → ServiceRequest → ServiceManager
serving from uid address s = record Manager.new {
  port_service_map =
      (
        s.external_port,
        record {
          port = s.external_port;
          protocol = s.external_protocol;
          endpoints =
              (record { endpoint_discovery_name = from; uid = uid }, endpoint_of address s) ∷ [];
        },
      )
      ∷ [];
}

update_own :
    (i : EndpointId) (e : Endpoint)
    → update_endpoint resume_endpoint i ((i, record e { is_available = false }) ∷ [])
      ≡ (i, record e { is_available = true }) ∷ []
unfolding update_endpoint lookup insert resume_endpoint
update_own i e = ground arith

Entry-set : IsSet (EndpointId × Endpoint)
Entry-set = hlevel

-- One endpoint can only be met in one order.
arrange_one :
    (e : EndpointId × Endpoint) (xs : List (EndpointId × Endpoint)) → Perm xs (e ∷ []) → xs ≡ e ∷ []
arrange_one e [] p = absurd (omega (arith, length-perm p))
arrange_one e (x ∷ []) p =
    ap (λ (y : EndpointId × Endpoint). y ∷ [])
      (Or.elim (Entry-set x e) (eq-or-mem_of_mem-cons ((Perm.mem_iff p).0 mem-cons_self)) (λ h. h)
        (λ h. absurd (not-mem-nil h)))
arrange_one e (x ∷ y ∷ xs) p = absurd (omega (arith, length-perm p))

module _ (from uid : Text) (address : IpAddr) (s : ServiceRequest) where
  own_id : EndpointId
  own_id = record { endpoint_discovery_name = from; uid = uid }

  -- What the events of a pod with one service leave of an empty manager.
  listen_pod :
      (order : IterationOrder (ℕ × Service))
      → listen_for_discovery_events order from
          (wakeups (add_of uid address s ∷ resume uid ∷ []))
          Manager.new
        ≡ returned (serving from uid address s)
  unfolding listen_for_discovery_events count_event process_event process_add Manager.new send_event
      insert lookup update_services own_id
  listen_pod order =
      ap
        (λ (es : List (EndpointId × Endpoint)). returned (record Manager.new {
          port_service_map =
              (
                s.external_port,
                record { port = s.external_port; protocol = s.external_protocol; endpoints = es },
              )
              ∷ [];
        }))
        (update_own own_id (endpoint_of address s))

  module _ (choice : IterationOrder (EndpointId × Endpoint)) (index : ℕ) where
    its_service :
        lookup ℕ_discrete s.external_port (serving from uid address s).port_service_map
        ≡ some (record {
          port = s.external_port;
          protocol = s.external_protocol;
          endpoints = (own_id, endpoint_of address s) ∷ [];
        })
    unfolding lookup own_id
    its_service = if_pos (ℕ_discrete s.external_port s.external_port) refl _ _

    choose_only :
        get_endpoint_for choice (serving from uid address s) s.external_port index
        ≡ returned (some (record { ip = address; port = s.backend_port }, s.backend_protocol))
    unfolding get_endpoint_for select first_available
    choose_only =
        let small : index % 1 ≡ 0 = omega arith in
        let only =
          arrange_one (own_id, endpoint_of address s) _
            (choice.arrange_perm ((own_id, endpoint_of address s) ∷ [])) in
        rw (its_service, get_endpoint_for) (rw (only, small) refl)

-- Let a task with an open channel, on which it has sent nothing, get a complete and running pod that it
-- does not know yet and that lists one service in the four-part form. When an empty manager has taken
-- the events that the task sends, every choice for the service's external port, whatever the index, is
-- the pod's address with the service's backend port, and its backend protocol.
pub get_endpoint_for-handle_pod_event :
    (parse_address : Text → Option IpAddr) (pods : IterationOrder Text) (pod : Pod)
    (found : Details) {address : IpAddr} (this : Runtime) (s : ServiceRequest)
    (order : IterationOrder (ℕ × Service)) (choice : IterationOrder (EndpointId × Endpoint))
    (from : Text) (index : ℕ)
    → IsComplete parse_address pod found address
    → IsOpen this
    → this.sender.sent ≡ []
    → contains Text_discrete found.uid this.known_pod_uids ≡ false
    → lookup Text_discrete services_annotation found.annotations ≡ some (print_services s [])
    → IsWellFormed s
    → found.phase ≡ running
    → (listen_for_discovery_events order from
          (wakeups (handle_pod_event parse_address pods (applied pod) this).1.sender.sent)
          Manager.new
        >>= λ manager. get_endpoint_for choice manager s.external_port index)
      ≡ returned (some (record { ip = address; port = s.backend_port }, s.backend_protocol))
get_endpoint_for-handle_pod_event parse_address pods pod found {address} this s order choice from
      index c o fresh unknown e w phase =
    let announced =
      handle_pod_event-applied_first parse_address pods pod found c this o s [] unknown e w tt
        phase in
    let sent : (handle_pod_event parse_address pods (applied pod) this).1.sender.sent
        ≡ add_of found.uid address s ∷ resume found.uid ∷ [] =
      ap (λ (r : Result Error (Unit {0}) × Runtime). r.1.sender.sent) announced
      ∙ ap (λ (es : List EndpointEvent). es ++ add_of found.uid address s ∷ resume found.uid ∷ [])
          fresh in
    ap
      (λ (es : List EndpointEvent).
        listen_for_discovery_events order from (wakeups es) Manager.new >>= λ manager.
        get_endpoint_for choice manager s.external_port index)
      sent
    ∙ ap
        (λ (m : Outcome ServiceManager).
          m >>= λ manager. get_endpoint_for choice manager s.external_port index)
        (listen_pod from found.uid address s order)
    ∙ choose_only from found.uid address s choice index
