-- ===== src/Backend/View.antt =====
-- What the service manager promises, without its tables: which endpoint stands behind a port under
-- an identity, and which protocol a port is open for. A listener of the port events keeps the
-- second by itself.
use mathlib.Core.Option
use state_proxy.Base.{
  ℕ, Bool, true, false, List, [], ◌∷◌, lookup, Option, none, some, Text, ℕ_discrete, ite,
}
use state_proxy.Backend.Endpoint.{
  EndpointEvent, add, delete, suspend, resume, EndpointId, EndpointId_discrete, Endpoint,
}
use state_proxy.Backend.Manager.{PortEvent, open_port, close_port, Service, PortServiceMap}

abbrev endpoint_of : EndpointId → Option Service → Option Endpoint
endpoint_of endpoint_id none = none
endpoint_of endpoint_id (some service) = lookup EndpointId_discrete endpoint_id service.endpoints

abbrev pub EndpointView : Type 0
EndpointView = ℕ → EndpointId → Option Endpoint

-- The endpoint that a port has under an identity.
abbrev pub endpoint_at : PortServiceMap → EndpointView
endpoint_at m port endpoint_id = endpoint_of endpoint_id (lookup ℕ_discrete port m)

abbrev pub PortView : Type 0
PortView = ℕ → Option Text

-- The protocol that a port is open for.
abbrev pub protocol_at : PortServiceMap → PortView
protocol_at m port = Option.map (λ (s : Service). s.protocol) (lookup ℕ_discrete port m)

abbrev set_availability : Bool → Option Endpoint → Option Endpoint
set_availability b = Option.map (λ (e : Endpoint). record e { is_available = b })

-- What an event of a discovery task means for the endpoints.
abbrev pub after_event : Text → EndpointEvent → EndpointView → EndpointView
after_event from (add uid is_available external_port external_protocol address protocol) v port i =
    ite (ℕ_discrete port external_port)
      (ite (EndpointId_discrete i (record { endpoint_discovery_name = from; uid = uid }))
        (some (record { is_available = is_available; address = address; protocol = protocol }))
        (v port i))
      (v port i)
after_event from (delete uid) v port i =
    ite (EndpointId_discrete i (record { endpoint_discovery_name = from; uid = uid })) none
      (v port i)
after_event from (suspend uid) v port i =
    ite (EndpointId_discrete i (record { endpoint_discovery_name = from; uid = uid }))
      (set_availability false (v port i)) (v port i)
after_event from (resume uid) v port i =
    ite (EndpointId_discrete i (record { endpoint_discovery_name = from; uid = uid }))
      (set_availability true (v port i)) (v port i)

-- How a listener reads a port event, and a sequence of them.
abbrev pub observe : PortEvent → PortView → PortView
observe (open_port port protocol) v q = ite (ℕ_discrete q port) (some protocol) (v q)
observe (close_port port) v q = ite (ℕ_discrete q port) none (v q)

abbrev pub replay : List PortEvent → PortView → PortView
replay [] v = v
replay (event ∷ events) v = replay events (observe event v)

abbrev pub no_ports : PortView
no_ports _ = none
