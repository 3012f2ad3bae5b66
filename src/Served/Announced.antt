-- ===== src/Served/Announced.antt =====
-- A pod with several services, among the events of other discoveries.
use mathlib.Core.Option
use state_proxy.Base.{
  ℕ, true, false, List, [], ◌∷◌, ◌++◌, map, lookup, Option, some, Text, Text_discrete, ℕ_discrete,
  if_pos, if_neg, All, ◌≡◌, ◌≢◌, refl, ◌∙◌, ap, IterationOrder, contains, Result,
}
use state_proxy.Backend.Endpoint.{
  EndpointEvent, resume, EndpointId, EndpointId_discrete, Endpoint, IpAddr,
}
use state_proxy.Backend.Manager.{Service, ServiceManager}
use state_proxy.Backend.View.{endpoint_at, after_event, EndpointView}
use state_proxy.Backend.Tables.{IsSane}
use state_proxy.Backend.Isolation.{left_by, taken, events_of, after_events, left_by-after_events}
use state_proxy.Kubernetes.Pod.{Pod, applied, Details}
use state_proxy.Kubernetes.Monad.{Runtime, Error}
use state_proxy.Kubernetes.Runtime.{services_annotation, handle_pod_event}
use state_proxy.Kubernetes.Services.{IsOpen, ServiceRequest, IsWellFormed, print_services, add_of}
use state_proxy.Kubernetes.Pods.{running, IsComplete, handle_pod_event-applied_first}

-- The endpoint that a pod has for a service, once it runs or before.
abbrev pub endpoint_for : IpAddr → ServiceRequest → Endpoint
endpoint_for address s = record {
  is_available = true;
  address = record { ip = address; port = s.backend_port };
  protocol = s.backend_protocol;
}

after_events-append :
    (from : Text) (xs ys : List EndpointEvent) (v : EndpointView)
    → after_events from (xs ++ ys) v ≡ after_events from ys (after_events from xs v)
after_events-append from [] ys v = refl
after_events-append from (x ∷ xs) ys v = after_events-append from xs ys (after_event from x v)

module _ (from uid : Text) (address : IpAddr) (s : ServiceRequest) where
  abbrev own : EndpointId
  own = record { endpoint_discovery_name = from; uid = uid }

  abbrev adds : List ServiceRequest → List EndpointEvent
  adds = map (add_of uid address)

  abbrev OtherPort : ServiceRequest → Type 0
  OtherPort t = s.external_port ≢ t.external_port

  skip_others :
      (ss : List ServiceRequest) (v : EndpointView)
      → All OtherPort ss
      → after_events from (adds ss) v s.external_port own ≡ v s.external_port own
  skip_others [] v h = refl
  skip_others (t ∷ ss) v h =
      skip_others ss (after_event from (add_of uid address t) v) h.1
      ∙ if_neg (ℕ_discrete s.external_port t.external_port) h.0 _ _

  last_add :
      (before after : List ServiceRequest) (v : EndpointView)
      → All OtherPort after
      → after_events from (adds (before ++ s ∷ after)) v s.external_port own
        ≡ some (record (endpoint_for address s) { is_available = false })
  last_add [] after v h =
      skip_others after (after_event from (add_of uid address s) v) h
      ∙ if_pos (ℕ_discrete s.external_port s.external_port) refl _ _
      ∙ if_pos (EndpointId_discrete own own) refl _ _
  last_add (t ∷ before) after v h =
      last_add before after (after_event from (add_of uid address t) v) h

  resumed :
      (events : List EndpointEvent) (v : EndpointView)
      → after_events from events v s.external_port own
        ≡ some (record (endpoint_for address s) { is_available = false })
      → after_events from (events ++ resume uid ∷ []) v s.external_port own
        ≡ some (endpoint_for address s)
  resumed events v h =
      ap (λ (w : EndpointView). w s.external_port own)
        (after_events-append from events (resume uid ∷ []) v)
      ∙ if_pos (EndpointId_discrete own own) refl _ _
      ∙ ap (Option.map (λ (e : Endpoint). record e { is_available = true })) h

-- Let a task with an open channel, on which it has sent nothing, get a complete and running pod that it
-- does not know yet and that lists services in the four-part form, and let a manager process the events
-- that the task sends, in order, with those of other discoveries in between, whichever tasks panic. In the
-- manager's port map, let no port and no identity have come twice, and let each service have stood under
-- its own port. Then behind the external port of each listed service, if none that is listed later has the
-- same, stands the pod's endpoint: available, at the pod's address, with the service's backend port and
-- backend protocol.
pub endpoint_at-handle_pod_event :
    (parse_address : Text → Option IpAddr) (pods : IterationOrder Text) (pod : Pod)
    (found : Details) {address : IpAddr} (runtime : Runtime) (first s : ServiceRequest)
    (rest before after : List ServiceRequest) (order : IterationOrder (ℕ × Service)) (from : Text)
    (events : List (Text × EndpointEvent)) (manager : ServiceManager)
    → IsComplete parse_address pod found address
    → IsOpen runtime
    → runtime.sender.sent ≡ []
    → contains Text_discrete found.uid runtime.known_pod_uids ≡ false
    → lookup Text_discrete services_annotation found.annotations ≡ some (print_services first rest)
    → IsWellFormed first
    → All IsWellFormed rest
    → found.phase ≡ running
    → first ∷ rest ≡ before ++ s ∷ after
    → All (λ t. s.external_port ≢ t.external_port) after
    → events_of from (taken order events manager)
      ≡ (handle_pod_event parse_address pods (applied pod) runtime).1.sender.sent
    → IsSane manager.port_service_map
    → endpoint_at
        (left_by order events manager).port_service_map
        s.external_port
        (record { endpoint_discovery_name = from; uid = found.uid })
      ≡ some (endpoint_for address s)
endpoint_at-handle_pod_event parse_address pods pod found {address} runtime first s rest before
      after order from events manager c o fresh unknown e w ws phase parts others all v =
    let own_id : EndpointId = record { endpoint_discovery_name = from; uid = found.uid } in
    let view = endpoint_at manager.port_service_map in
    let announced =
      handle_pod_event-applied_first parse_address pods pod found c runtime o first rest unknown e w
        ws phase in
    let sent : (handle_pod_event parse_address pods (applied pod) runtime).1.sender.sent
        ≡ map (add_of found.uid address) (before ++ s ∷ after) ++ resume found.uid ∷ [] =
      ap (λ (r : Result Error (Unit {0}) × Runtime). r.1.sender.sent) announced
      ∙ ap
          (λ (es : List EndpointEvent).
            es ++ (map (add_of found.uid address) (first ∷ rest) ++ resume found.uid ∷ []))
          fresh
      ∙ ap
          (λ (ss : List ServiceRequest). map (add_of found.uid address) ss ++ resume found.uid ∷ [])
          parts in
    left_by-after_events order events manager s.external_port own_id v
    ∙ ap (λ (es : List EndpointEvent). after_events from es view s.external_port own_id)
        (all ∙ sent)
    ∙ resumed from found.uid address s (map (add_of found.uid address) (before ++ s ∷ after)) view
        (last_add from found.uid address s before after view others)
