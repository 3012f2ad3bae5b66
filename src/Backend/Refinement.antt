-- ===== src/Backend/Refinement.antt =====
-- `process_event` against its meaning: the endpoints after an event, and the ports that a listener
-- of the port events takes for open.
use mathlib.Core.Option
use mathlib.Core.Path.{fun_ext}
use state_proxy.Base.{
  ℕ, List, [], ◌∷◌, map, lookup, none, some, ◌≡◌, refl, ℕ_discrete, arith, IterationOrder, Text,
  lookup-remove, lookup-insert, contains, if◌then◌else◌, ite, true, false, inl, inr, Option-cases,
}
use state_proxy.Backend.Endpoint.{
  EndpointEvent, add, delete, suspend, resume, EndpointId, EndpointId_discrete, Endpoint,
}
use state_proxy.Backend.Manager.{
  close_port, Service, PortServiceMap, remove_endpoint, suspend_endpoint, resume_endpoint,
  update_services, update_endpoint,
}
use state_proxy.Backend.View.{endpoint_at, protocol_at, after_event, observe, replay, PortView}
use state_proxy.Backend.Tables.{IsSane, lookup-remove_endpoint, lookup-update_services}
use state_proxy.Backend.Effects.{
  next_map, port_events, add_map, add_to, lookup-remove_ports, remove_ports, vacated_ports,
  contains-vacated_ports,
}

lookup-update_endpoint :
    (change : Endpoint → Endpoint) (i j : EndpointId) (es : List (EndpointId × Endpoint))
    → lookup EndpointId_discrete j (update_endpoint change i es)
      ≡ ite
          (EndpointId_discrete j i)
          (Option.map change (lookup EndpointId_discrete j es))
          (lookup EndpointId_discrete j es)
unfolding update_endpoint
lookup-update_endpoint change i j es = elim (Option-cases (lookup EndpointId_discrete i es)) [
  | inl e ↦ ground arith
  | inr (x, e) ↦ ground (arith, lookup-insert EndpointId_discrete i j (change x) es)
]

endpoint_at-update_services :
    (change : Endpoint → Endpoint) (i j : EndpointId) (m : PortServiceMap) (port : ℕ)
    → endpoint_at (update_services change i m) port j
      ≡ ite
          (EndpointId_discrete j i)
          (Option.map change (endpoint_at m port j))
          (endpoint_at m port j)
endpoint_at-update_services change i j m port = elim (Option-cases (lookup ℕ_discrete port m)) [
  | inl e ↦ ground (arith, lookup-update_services change i port m)
  | inr (s, e) ↦
      ground (
        arith,
        lookup-update_services change i port m,
        lookup-update_endpoint change i j s.endpoints,
      )
]

endpoint_at-add_map :
    (i j : EndpointId) (endpoint : Endpoint) (p port : ℕ) (protocol : Text) (m : PortServiceMap)
    → endpoint_at (add_map i endpoint p protocol m) port j
      ≡ ite
          (ℕ_discrete port p)
          (ite (EndpointId_discrete j i) (some endpoint) (endpoint_at m port j))
          (endpoint_at m port j)
unfolding lookup
endpoint_at-add_map i j endpoint p port protocol m = elim (Option-cases (lookup ℕ_discrete p m)) [
  | inl e ↦ ground (arith, lookup-insert ℕ_discrete p port (add_to i endpoint p protocol none) m)
  | inr (s, e) ↦ ground (
    arith,
    lookup-insert ℕ_discrete p port (add_to i endpoint p protocol (some s)) m,
    lookup-insert EndpointId_discrete i j endpoint s.endpoints,
  )
]

endpoint_at-delete_map :
    (order : IterationOrder (ℕ × Service)) (i j : EndpointId) (m : PortServiceMap) (port : ℕ)
    → IsSane m
    → endpoint_at (remove_ports (vacated_ports order i m) (remove_endpoint i m)) port j
      ≡ ite (EndpointId_discrete j i) none (endpoint_at m port j)
unfolding lookup
endpoint_at-delete_map order i j m port v =
    let swept = lookup-remove_ports (vacated_ports order i m) port (remove_endpoint i m) in
    let closed = contains-vacated_ports order i m port v in
    let kept = lookup-remove_endpoint i port m in
    elim (Option-cases (lookup ℕ_discrete port m)) [
      | inl e ↦ ground arith
      | inr (s, e) ↦ ground (arith, lookup-remove EndpointId_discrete i j s.endpoints)
    ]

suspend_endpoint-eq : (e : Endpoint) → suspend_endpoint e ≡ record e { is_available = false }
unfolding suspend_endpoint
suspend_endpoint-eq e = ground arith

resume_endpoint-eq : (e : Endpoint) → resume_endpoint e ≡ record e { is_available = true }
unfolding resume_endpoint
resume_endpoint-eq e = ground arith

-- The endpoints after an event are those that the event says.
pub endpoint_at-next_map :
    (order : IterationOrder (ℕ × Service)) (from : Text) (event : EndpointEvent)
    (m : PortServiceMap) (port : ℕ) (i : EndpointId)
    → IsSane m
    → endpoint_at (next_map order from event m) port i
      ≡ after_event from event (endpoint_at m) port i
endpoint_at-next_map order from (add uid is_available p external_protocol address protocol) m port i
      v =
    endpoint_at-add_map _ i _ p port external_protocol m
endpoint_at-next_map order from (delete uid) m port i v = endpoint_at-delete_map order _ i m port v
endpoint_at-next_map order from (suspend uid) m port i v =
    rw (← fun_ext suspend_endpoint-eq) (endpoint_at-update_services suspend_endpoint _ i m port)
endpoint_at-next_map order from (resume uid) m port i v =
    rw (← fun_ext resume_endpoint-eq) (endpoint_at-update_services resume_endpoint _ i m port)

replay-closes :
    (ports : List ℕ) (v : PortView) (q : ℕ)
    → replay (map close_port ports) v q ≡ (if contains ℕ_discrete q ports then none else v q)
unfolding contains
replay-closes [] v q = refl
replay-closes (port ∷ ports) v q =
    ground (arith, replay-closes ports (observe (close_port port) v) q)

-- A listener that knew the open ports before an event knows them after its port events.
pub replay-port_events :
    (order : IterationOrder (ℕ × Service)) (from : Text) (event : EndpointEvent)
    (m : PortServiceMap) (q : ℕ)
    → IsSane m
    → replay (port_events order from event m) (protocol_at m) q
      ≡ protocol_at (next_map order from event m) q
replay-port_events order from (add uid is_available p external_protocol address protocol) m q v =
    let i : EndpointId = record { endpoint_discovery_name = from; uid = uid } in
    let e : Endpoint = record {
      is_available = is_available;
      address = address;
      protocol = protocol;
    } in
    ground (
      arith,
      lookup-insert ℕ_discrete p q (add_to i e p external_protocol (lookup ℕ_discrete p m)) m,
    )
replay-port_events order from (delete uid) m q v =
    let i : EndpointId = record { endpoint_discovery_name = from; uid = uid } in
    let swept = lookup-remove_ports (vacated_ports order i m) q (remove_endpoint i m) in
    let closed = contains-vacated_ports order i m q v in
    let kept = lookup-remove_endpoint i q m in
    ground (arith, replay-closes (vacated_ports order i m) (protocol_at m) q)
replay-port_events order from (suspend uid) m q v =
    let i : EndpointId = record { endpoint_discovery_name = from; uid = uid } in
    ground (arith, lookup-update_services suspend_endpoint i q m)
replay-port_events order from (resume uid) m q v =
    let i : EndpointId = record { endpoint_discovery_name = from; uid = uid } in
    ground (arith, lookup-update_services resume_endpoint i q m)
