-- ===== src/Backend/InPlace.antt =====
-- src/backend/mod.rs: `process_event` once more, with the state that the manager is left in when the
-- task panics on the way. A panic releases the locks, and the other tasks go on with that state.
use state_proxy.Base.{
  ℕ, List, [], ◌∷◌, lookup, Option, none, some, Text, ℕ_discrete, Outcome, returned, panicked,
  ◌>>=◌, insert, remove, IterationOrder, ◌≡◌, refl, ◌∙◌, ap, Option-cases, inl, inr,
}
use state_proxy.Backend.Endpoint.{
  EndpointEvent, add, delete, suspend, resume, EndpointId, EndpointId_discrete, Endpoint,
}
use state_proxy.Backend.Channel.{Sender}
use state_proxy.Backend.Manager.{
  PortEvent, open_port, close_port, Service, ServiceManager, send_event, process_add,
  process_delete, process_event, remove_endpoint, empty_services, close_services, suspend_endpoint,
  resume_endpoint, update_services,
}

-- How a call ended, and what it left.
abbrev pub Ended : Type 0
Ended = Outcome (Unit {0}) × ServiceManager

abbrev pub then_in_place : Ended → (ServiceManager → Ended) → Ended
then_in_place (returned _, this) f = f this
then_in_place (panicked, this) f = (panicked, this)

-- The sender after a send, in the manager that made it.
abbrev pub sent_in_place : Outcome (Option (Sender PortEvent)) → ServiceManager → Ended
sent_in_place panicked mid = (panicked, mid)
sent_in_place (returned sender) mid = (returned tt, record mid { port_event_sender = sender })

-- `send_event` on the sender that the manager holds.
unfoldable pub notify : PortEvent → ServiceManager → Ended
notify event this = sent_in_place (send_event this.port_event_sender event) this

-- The arm of `Add`: the entry is made before the event is sent.
unfoldable pub add_in_place : EndpointId → Endpoint → ℕ → Text → ServiceManager → Ended
add_in_place endpoint_id endpoint external_port external_protocol this =
    elim (lookup ℕ_discrete external_port this.port_service_map) [
      | none ↦ notify (open_port external_port external_protocol) (record this {
        port_service_map =
            insert ℕ_discrete external_port
              (record {
                port = external_port;
                protocol = external_protocol;
                endpoints = (endpoint_id, endpoint) ∷ [];
              })
              this.port_service_map;
      })
      | some service ↦ (
        returned tt,
        record this {
          port_service_map =
              insert ℕ_discrete external_port
                (record service {
                  endpoints = insert EndpointId_discrete endpoint_id endpoint service.endpoints;
                })
                this.port_service_map;
        },
      )
    ]

-- The loop that removes services: each is removed before its event is sent.
unfoldable pub close_in_place : List ℕ → ServiceManager → Ended
close_in_place [] this = (returned tt, this)
close_in_place (port ∷ ports) this = elim (lookup ℕ_discrete port this.port_service_map) [
  | none ↦ (panicked, this)
  | some old_service ↦
      then_in_place
        (notify (close_port port)
          (record this { port_service_map = remove ℕ_discrete port this.port_service_map }))
        (close_in_place ports)
]

-- `process_event`.
unfoldable pub process_in_place :
    IterationOrder (ℕ × Service) → Text → EndpointEvent → ServiceManager → Ended
process_in_place order from (add uid is_available external_port external_protocol address protocol)
      this =
    add_in_place (record { endpoint_discovery_name = from; uid = uid })
      (record { is_available = is_available; address = address; protocol = protocol }) external_port
      external_protocol this
process_in_place order from (delete uid) this =
    let m =
      remove_endpoint (record { endpoint_discovery_name = from; uid = uid })
        this.port_service_map in
    close_in_place (empty_services (order.arrange m)) (record this { port_service_map = m })
process_in_place order from (suspend uid) this = (
  returned tt,
  record this {
    port_service_map =
        update_services suspend_endpoint (record { endpoint_discovery_name = from; uid = uid })
          this.port_service_map;
  },
)
process_in_place order from (resume uid) this = (
  returned tt,
  record this {
    port_service_map =
        update_services resume_endpoint (record { endpoint_discovery_name = from; uid = uid })
          this.port_service_map;
  },
)

-- What is left of a call when the state of a panic is forgotten.
abbrev pub outcome : Ended → Outcome ServiceManager
outcome (returned _, this) = returned this
outcome (panicked, this) = panicked

outcome-sent :
    (o : Outcome (Option (Sender PortEvent))) (mid : ServiceManager)
    (f : ServiceManager → Outcome ServiceManager) (g : ServiceManager → Ended)
    → ((this : ServiceManager) → f this ≡ outcome (g this))
    → (o >>= λ sender. f (record mid { port_event_sender = sender }))
      ≡ outcome (then_in_place (sent_in_place o mid) g)
outcome-sent panicked mid f g h = refl
outcome-sent (returned sender) mid f g h = h (record mid { port_event_sender = sender })

then-returned : (e : Ended) → then_in_place e (λ this. (returned tt, this)) ≡ e
then-returned (returned _, this) = refl
then-returned (panicked, this) = refl

close_services-close_in_place :
    (ports : List ℕ) (this : ServiceManager)
    → close_services ports this ≡ outcome (close_in_place ports this)
unfolding close_services close_in_place notify
close_services-close_in_place [] this = refl
close_services-close_in_place (port ∷ ports) this =
    elim (Option-cases (lookup ℕ_discrete port this.port_service_map)) [
      | inl gone ↦ rw (gone, close_services, close_in_place) refl
      | inr (old, e) ↦
          rw (e, close_services, close_in_place)
            (outcome-sent (send_event this.port_event_sender (close_port port))
              (record this { port_service_map = remove ℕ_discrete port this.port_service_map })
              (close_services ports) (close_in_place ports) (close_services-close_in_place ports))
    ]

process_add-add_in_place :
    (i : EndpointId) (endpoint : Endpoint) (port : ℕ) (protocol : Text) (this : ServiceManager)
    → process_add i endpoint port protocol this
      ≡ outcome (add_in_place i endpoint port protocol this)
unfolding process_add add_in_place notify
process_add-add_in_place i endpoint port protocol this =
    elim (Option-cases (lookup ℕ_discrete port this.port_service_map)) [
      | inl gone ↦
          rw (gone, process_add, add_in_place)
            (outcome-sent (send_event this.port_event_sender (open_port port protocol)) _ returned
                (λ next. (returned tt, next)) (λ next. refl)
              ∙ ap outcome (
                  then-returned (
                    sent_in_place (send_event this.port_event_sender (open_port port protocol)) _)))
      | inr (service, e) ↦ rw (e, process_add, add_in_place) refl
    ]

-- `process_event` is the call in place with the state of a panic forgotten.
pub process_event-process_in_place :
    (order : IterationOrder (ℕ × Service)) (from : Text) (event : EndpointEvent)
    (this : ServiceManager)
    → process_event order from event this ≡ outcome (process_in_place order from event this)
unfolding process_event process_delete process_in_place
process_event-process_in_place order from
      (add uid is_available external_port external_protocol address protocol) this =
    process_add-add_in_place _ _ external_port external_protocol this
process_event-process_in_place order from (delete uid) this = close_services-close_in_place _ _
process_event-process_in_place order from (suspend uid) this = refl
process_event-process_in_place order from (resume uid) this = refl
