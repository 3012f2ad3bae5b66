-- ===== src/Backend/Manager.antt =====
-- src/backend/mod.rs: `ServiceManager` and `Service`. `process_event` holds the write lock of the
-- port map from its first line to its last, and `send_port_events_to` a read lock, so each is one
-- step. Log lines, and the flags that only choose a log line, are left out.
use state_proxy.Base.{
  ℕ, true, false, not, List, [], ◌∷◌, lookup, Option, none, some, Text, ℕ_discrete, if◌then◌else◌,
  Outcome, returned, panicked, ◌>>=◌, unwrap, insert, remove, values, IterationOrder,
}
use state_proxy.Backend.Endpoint.{
  EndpointEvent, add, delete, suspend, resume, EndpointId, EndpointId_discrete, Endpoint,
}
use state_proxy.Backend.Channel.{Sender, send}

pub data PortEvent : Type 0 where
  open_port : ℕ → Text → PortEvent
  close_port : ℕ → PortEvent

pub record Service : Type 0 where
  pub port : ℕ
  pub protocol : Text
  pub endpoints : List (EndpointId × Endpoint)

abbrev pub PortServiceMap : Type 0
PortServiceMap = List (ℕ × Service)

pub record Metrics : Type 0 where
  pub events_processed : ℕ

pub record ServiceManager : Type 0 where
  pub registered_endpoint_discovery_names : List Text
  pub port_service_map : PortServiceMap
  pub port_event_sender : Option (Sender PortEvent)
  pub endpoint_discovery_metrics : List (Text × Metrics)

unfoldable pub new : ServiceManager
new = record {
  registered_endpoint_discovery_names = [];
  port_service_map = [];
  port_event_sender = none;
  endpoint_discovery_metrics = [];
}

-- `send_event`: no sender, no event; a sender whose receiver is gone panics.
unfoldable pub send_event :
    Option (Sender PortEvent) → PortEvent → Outcome (Option (Sender PortEvent))
unfolding send
send_event none event = returned none
send_event (some sender) event = do sender' ← unwrap (send sender event); returned (some sender')

-- The arm of `EndpointEvent::Add`.
unfoldable pub process_add :
    EndpointId → Endpoint → ℕ → Text → ServiceManager → Outcome ServiceManager
process_add endpoint_id endpoint external_port external_protocol this =
    elim (lookup ℕ_discrete external_port this.port_service_map) [
      | none ↦ do
        sender ← send_event this.port_event_sender (open_port external_port external_protocol)
        returned (record this {
          port_service_map =
              insert ℕ_discrete external_port
                (record {
                  port = external_port;
                  protocol = external_protocol;
                  endpoints = (endpoint_id, endpoint) ∷ [];
                })
                this.port_service_map;
          port_event_sender = sender;
        })
      | some service ↦ returned (record this {
        port_service_map =
            insert ℕ_discrete external_port
              (record service {
                endpoints = insert EndpointId_discrete endpoint_id endpoint service.endpoints;
              })
              this.port_service_map;
      })
    ]

-- The body of the loop over the services: the endpoint is taken out of each.
unfoldable pub remove_endpoint : EndpointId → PortServiceMap → PortServiceMap
remove_endpoint endpoint_id [] = []
remove_endpoint endpoint_id ((port, service) ∷ m) =
    (port, record service { endpoints = remove EndpointId_discrete endpoint_id service.endpoints })
    ∷ remove_endpoint endpoint_id m

-- `services_to_delete`, in the order in which the loop meets the services.
unfoldable pub empty_services : PortServiceMap → List ℕ
empty_services [] = []
empty_services ((port, service) ∷ m) = elim service.endpoints [
  | [] ↦ port ∷ empty_services m
  | _ ∷ _ ↦ empty_services m
]

-- The loop that removes those services and announces each port as closed.
unfoldable pub close_services : List ℕ → ServiceManager → Outcome ServiceManager
close_services [] this = returned this
close_services (port ∷ ports) this = elim (lookup ℕ_discrete port this.port_service_map) [
  | none ↦ panicked
  | some old_service ↦ do
    sender ← send_event this.port_event_sender (close_port port)
    close_services ports (record this {
      port_service_map = remove ℕ_discrete port this.port_service_map;
      port_event_sender = sender;
    })
]

-- The arm of `EndpointEvent::Delete`.
unfoldable pub process_delete :
    IterationOrder (ℕ × Service) → EndpointId → ServiceManager → Outcome ServiceManager
process_delete order endpoint_id this =
    let m = remove_endpoint endpoint_id this.port_service_map in
    close_services (empty_services (order.arrange m)) (record this { port_service_map = m })

-- `if endpoint.is_available { endpoint.is_available = false }`, and the same for `Resume`.
unfoldable pub suspend_endpoint : Endpoint → Endpoint
suspend_endpoint endpoint =
    if endpoint.is_available then record endpoint { is_available = false } else endpoint

unfoldable pub resume_endpoint : Endpoint → Endpoint
resume_endpoint endpoint =
    if not endpoint.is_available then record endpoint { is_available = true } else endpoint

-- `if let Some(endpoint) = service.endpoints.get_mut(&endpoint_id)`, with a change of the endpoint.
unfoldable pub update_endpoint :
    (Endpoint → Endpoint) → EndpointId → List (EndpointId × Endpoint) → List (EndpointId × Endpoint)
update_endpoint change endpoint_id endpoints =
    elim (lookup EndpointId_discrete endpoint_id endpoints) [
      | none ↦ endpoints
      | some endpoint ↦ insert EndpointId_discrete endpoint_id (change endpoint) endpoints
    ]

-- The loop over the services that makes the change in each.
unfoldable pub update_services :
    (Endpoint → Endpoint) → EndpointId → PortServiceMap → PortServiceMap
update_services change endpoint_id [] = []
update_services change endpoint_id ((port, service) ∷ m) =
    (port, record service { endpoints = update_endpoint change endpoint_id service.endpoints })
    ∷ update_services change endpoint_id m

-- `process_event`.
unfoldable pub process_event :
    IterationOrder (ℕ × Service) → Text → EndpointEvent → ServiceManager → Outcome ServiceManager
process_event order from (add uid is_available external_port external_protocol address protocol)
      this =
    process_add (record { endpoint_discovery_name = from; uid = uid })
      (record { is_available = is_available; address = address; protocol = protocol }) external_port
      external_protocol this
process_event order from (delete uid) this =
    process_delete order (record { endpoint_discovery_name = from; uid = uid }) this
process_event order from (suspend uid) this = returned (record this {
  port_service_map =
      update_services suspend_endpoint (record { endpoint_discovery_name = from; uid = uid })
        this.port_service_map;
})
process_event order from (resume uid) this = returned (record this {
  port_service_map =
      update_services resume_endpoint (record { endpoint_discovery_name = from; uid = uid })
        this.port_service_map;
})

-- The loop of `send_port_events_to`: an `Open` for each service, up to the first send that fails.
unfoldable pub announce : List Service → Sender PortEvent → Option (Sender PortEvent)
unfolding send
announce [] sender = some sender
announce (service ∷ services) sender =
    elim (send sender (open_port service.port service.protocol)) [
      | none ↦ none
      | some sender' ↦ announce services sender'
    ]

-- `send_port_events_to`: the task that it spawns. A failed send ends the task before the sender is
-- stored.
unfoldable pub send_port_events_to :
    IterationOrder (ℕ × Service) → Sender PortEvent → ServiceManager → ServiceManager
send_port_events_to order sender this =
    elim (announce (values (order.arrange this.port_service_map)) sender) [
      | none ↦ this
      | some sender' ↦ record this { port_event_sender = some sender' }
    ]
