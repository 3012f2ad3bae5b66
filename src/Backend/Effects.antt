-- ===== src/Backend/Effects.antt =====
-- The effect of an event, split in two: the map after it, and the port events that it sends.
use mathlib.Core.List.Perm
use mathlib.Core.List.{Nodup-cons}
use state_proxy.Base.{
  ℕ, List, [], ◌∷◌, map, lookup, Option, none, some, ◌≡◌, refl, ℕ_discrete, arith, Outcome,
  returned, ◌>>=◌, insert, remove, IterationOrder, Text, lookup-remove, contains, Nodup, ◌≢◌,
  if◌then◌else◌, true, Option-cases, inl, inr, contains-perm, contains_head, if_pos, >>=_ext,
  >>=_assoc, ◌∙◌, sym,
}
use state_proxy.Backend.Endpoint.{
  EndpointEvent, add, delete, suspend, resume, EndpointId, EndpointId_discrete, Endpoint,
}
use state_proxy.Backend.Channel.{Sender}
use state_proxy.Backend.Manager.{
  PortEvent, open_port, close_port, Service, PortServiceMap, ServiceManager, send_event,
  process_add, process_delete, process_event, remove_endpoint, empty_services, close_services,
  suspend_endpoint, resume_endpoint, update_services,
}
use state_proxy.Backend.Tables.{
  IsSane, is_empty, empty_services-perm, empty_services-Nodup, contains-empty_services,
  remove_endpoint-distinct,
}

-- The sends of one event, in order.
unfoldable pub deliver :
    List PortEvent → Option (Sender PortEvent) → Outcome (Option (Sender PortEvent))
deliver [] sender = returned sender
deliver (event ∷ events) sender = do sender' ← send_event sender event; deliver events sender'

-- The port events of `Add`: one, if the port is new.
abbrev pub add_events : ℕ → Text → PortServiceMap → List PortEvent
add_events port protocol m = elim (lookup ℕ_discrete port m) [
  | none ↦ open_port port protocol ∷ []
  | some _ ↦ []
]

abbrev pub add_to : EndpointId → Endpoint → ℕ → Text → Option Service → Service
add_to i endpoint port protocol none = record {
  port = port;
  protocol = protocol;
  endpoints = (i, endpoint) ∷ [];
}
add_to i endpoint port protocol (some service) = record service {
  endpoints = insert EndpointId_discrete i endpoint service.endpoints;
}

abbrev pub add_map : EndpointId → Endpoint → ℕ → Text → PortServiceMap → PortServiceMap
add_map i endpoint port protocol m =
    insert ℕ_discrete port (add_to i endpoint port protocol (lookup ℕ_discrete port m)) m

-- The ports that `Delete` closes, in the order of the iteration.
abbrev pub vacated_ports : IterationOrder (ℕ × Service) → EndpointId → PortServiceMap → List ℕ
vacated_ports order i m = empty_services (order.arrange (remove_endpoint i m))

unfoldable pub remove_ports : List ℕ → PortServiceMap → PortServiceMap
remove_ports [] m = m
remove_ports (port ∷ ports) m = remove_ports ports (remove ℕ_discrete port m)

pub lookup-remove_ports :
    (ports : List ℕ) (q : ℕ) (m : PortServiceMap)
    → lookup ℕ_discrete q (remove_ports ports m)
      ≡ (if contains ℕ_discrete q ports then none else lookup ℕ_discrete q m)
unfolding remove_ports contains
lookup-remove_ports [] q m = refl
lookup-remove_ports (port ∷ ports) q m = ground (
  arith,
  lookup-remove_ports ports q (remove ℕ_discrete port m),
  lookup-remove ℕ_discrete port q m,
)

abbrev pub with_ports : ServiceManager → PortServiceMap → Option (Sender PortEvent) → ServiceManager
with_ports this m sender = record this { port_service_map = m; port_event_sender = sender }

abbrev pub next_map :
    IterationOrder (ℕ × Service) → Text → EndpointEvent → PortServiceMap → PortServiceMap
next_map order from (add uid is_available port external_protocol address protocol) m =
    add_map (record { endpoint_discovery_name = from; uid = uid })
      (record { is_available = is_available; address = address; protocol = protocol }) port
      external_protocol m
next_map order from (delete uid) m =
    let i : EndpointId = record { endpoint_discovery_name = from; uid = uid } in
    remove_ports (vacated_ports order i m) (remove_endpoint i m)
next_map order from (suspend uid) m =
    update_services suspend_endpoint (record { endpoint_discovery_name = from; uid = uid }) m
next_map order from (resume uid) m =
    update_services resume_endpoint (record { endpoint_discovery_name = from; uid = uid }) m

abbrev pub port_events :
    IterationOrder (ℕ × Service) → Text → EndpointEvent → PortServiceMap → List PortEvent
port_events order from (add uid is_available port external_protocol address protocol) m =
    add_events port external_protocol m
port_events order from (delete uid) m =
    map close_port (vacated_ports order (record { endpoint_discovery_name = from; uid = uid }) m)
port_events order from (suspend uid) m = []
port_events order from (resume uid) m = []

process_add-deliver :
    (i : EndpointId) (endpoint : Endpoint) (port : ℕ) (protocol : Text) (this : ServiceManager)
    → process_add i endpoint port protocol this ≡ (
        deliver (add_events port protocol this.port_service_map) this.port_event_sender
        >>= λ sender.
            returned
              (with_ports this (add_map i endpoint port protocol this.port_service_map) sender))
unfolding process_add deliver
process_add-deliver i endpoint port protocol this = ground arith

-- The loop closes every port of its list, if the ports are there and none comes twice.
abbrev pub IsClosable : List ℕ → PortServiceMap → Type 0
IsClosable ports m =
    Nodup ports × ((q : ℕ) → contains ℕ_discrete q ports ≡ true → lookup ℕ_discrete q m ≢ none)

IsClosable-tail :
    (port : ℕ) (ports : List ℕ) (m : PortServiceMap)
    → IsClosable (port ∷ ports) m
    → IsClosable ports (remove ℕ_discrete port m)
unfolding contains
IsClosable-tail port ports m c = (
  (Nodup-cons.0 c.0).1,
  λ q h.
      let fresh = contains_head ℕ_discrete port ports c.0 in
      let removed = lookup-remove ℕ_discrete port q m in ground (arith, c.1 q),
)

pub close_services-deliver :
    (ports : List ℕ) (this : ServiceManager)
    → IsClosable ports this.port_service_map
    → close_services ports this ≡ (
        deliver (map close_port ports) this.port_event_sender >>= λ sender.
        returned (with_ports this (remove_ports ports this.port_service_map) sender))
unfolding close_services deliver remove_ports contains
close_services-deliver [] this c = refl
close_services-deliver (port ∷ ports) this c =
    elim (Option-cases (lookup ℕ_discrete port this.port_service_map)) [
      | inl gone ↦ absurd (c.1 port (if_pos (ℕ_discrete port port) refl _ _) gone)
      | inr (old, e) ↦
          rw (e, close_services)
            (>>=_ext (send_event this.port_event_sender (close_port port)) _ _ (λ sender.
                close_services-deliver ports
                  (with_ports this (remove ℕ_discrete port this.port_service_map) sender)
                  (IsClosable-tail port ports this.port_service_map c))
              ∙ sym (>>=_assoc (send_event this.port_event_sender (close_port port)) _ _))
    ]

pub contains-vacated_ports :
    (order : IterationOrder (ℕ × Service)) (i : EndpointId) (m : PortServiceMap) (q : ℕ)
    → IsSane m
    → contains ℕ_discrete q (vacated_ports order i m)
      ≡ is_empty (lookup ℕ_discrete q (remove_endpoint i m))
contains-vacated_ports order i m q v =
    contains-perm ℕ_discrete q (empty_services-perm (order.arrange_perm (remove_endpoint i m)))
    ∙ contains-empty_services q (remove_endpoint i m)
        (remove_endpoint-distinct i m v.distinct_ports)

pub vacated_ports-IsClosable :
    (order : IterationOrder (ℕ × Service)) (i : EndpointId) (m : PortServiceMap)
    → IsSane m
    → IsClosable (vacated_ports order i m) (remove_endpoint i m)
vacated_ports-IsClosable order i m v = (
  Perm.nodup (Perm.symm (empty_services-perm (order.arrange_perm (remove_endpoint i m))))
      (empty_services-Nodup (remove_endpoint i m) (remove_endpoint-distinct i m v.distinct_ports)),
  λ q h gone. let e = contains-vacated_ports order i m q v in ground arith,
)

-- On a sane map an event is its port events, sent in order, and then its map. Nothing else of the
-- manager changes, and it panics only where a send does.
pub process_event-deliver :
    (order : IterationOrder (ℕ × Service)) (from : Text) (event : EndpointEvent)
    (this : ServiceManager)
    → IsSane this.port_service_map
    → process_event order from event this ≡ (
        deliver (port_events order from event this.port_service_map) this.port_event_sender
        >>= λ sender.
            returned (with_ports this (next_map order from event this.port_service_map) sender))
unfolding process_event process_delete deliver
process_event-deliver order from (add uid is_available port external_protocol address protocol) this
      v =
    process_add-deliver _ _ port external_protocol this
process_event-deliver order from (delete uid) this v =
    let i : EndpointId = record { endpoint_discovery_name = from; uid = uid } in
    close_services-deliver (vacated_ports order i this.port_service_map)
      (record this { port_service_map = remove_endpoint i this.port_service_map })
      (vacated_ports-IsClosable order i this.port_service_map v)
process_event-deliver order from (suspend uid) this v = refl
process_event-deliver order from (resume uid) this v = refl
