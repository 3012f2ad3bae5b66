-- ===== src/Backend/Gone.antt =====
-- The sender of the port events after an event: where its receiver is gone, and where it is not.
use state_proxy.Base.{
  ℕ, List, [], ◌∷◌, lookup, Option, none, some, ◌≡◌, refl, sym, ap, ◌∙◌, ℕ_discrete, arith,
  IterationOrder, Text, true, inl, inr, Option-cases, Bool-cases, returned, panicked, ◌>>=◌, ◌⊎◌,
  remove,
}
use state_proxy.Backend.Endpoint.{EndpointEvent, add, delete, suspend, resume, EndpointId, Endpoint}
use state_proxy.Backend.Channel.{Sender}
use state_proxy.Backend.Manager.{Service, ServiceManager, PortEvent, close_port, open_port}
use state_proxy.Backend.InPlace.{
  Ended, notify, add_in_place, close_in_place, process_in_place, outcome,
  process_event-process_in_place,
}
use state_proxy.Backend.Tables.{IsSane}
use state_proxy.Backend.Effects.{next_map, port_events, with_ports, process_event-deliver}
use state_proxy.Backend.Deliver.{IsConnected, queue, deliver_connected}
use state_proxy.Backend.Crash.{notify_closed}

-- A sender whose receiver is gone stays as it is.
close_in_place-sender :
    (ports : List ℕ) (this : ServiceManager) {sender : Sender PortEvent}
    → this.port_event_sender ≡ some sender
    → sender.is_closed ≡ true
    → (close_in_place ports this).1.port_event_sender ≡ some sender
unfolding close_in_place
close_in_place-sender [] this held closed = held
close_in_place-sender (port ∷ ports) this held closed =
    elim (Option-cases (lookup ℕ_discrete port this.port_service_map)) [
      | inl gone ↦ rw (gone, close_in_place) held
      | inr (old, e) ↦
          rw (e, close_in_place)
            (rw
              (notify_closed (close_port port)
                (record this { port_service_map = remove ℕ_discrete port this.port_service_map })
                held closed)
              held)
    ]

notify-sender :
    (event : PortEvent) (this : ServiceManager) {sender : Sender PortEvent}
    → this.port_event_sender ≡ some sender
    → sender.is_closed ≡ true
    → (notify event this).1.port_event_sender ≡ some sender
notify-sender event this held closed =
    ap (λ (e : Ended). e.1.port_event_sender) (notify_closed event this held closed) ∙ held

add_in_place-sender :
    (i : EndpointId) (e : Endpoint) (port : ℕ) (protocol : Text) (this : ServiceManager)
    {sender : Sender PortEvent}
    → this.port_event_sender ≡ some sender
    → sender.is_closed ≡ true
    → (add_in_place i e port protocol this).1.port_event_sender ≡ some sender
unfolding add_in_place
add_in_place-sender i e port protocol this held closed =
    elim (Option-cases (lookup ℕ_discrete port this.port_service_map)) [
      | inl gone ↦ rw (gone, add_in_place) (notify-sender (open_port port protocol) _ held closed)
      | inr (s, there) ↦ rw (there, add_in_place) held
    ]

pub process_in_place-sender :
    (order : IterationOrder (ℕ × Service)) (from : Text) (event : EndpointEvent)
    (this : ServiceManager) {sender : Sender PortEvent}
    → this.port_event_sender ≡ some sender
    → sender.is_closed ≡ true
    → (process_in_place order from event this).1.port_event_sender ≡ some sender
unfolding process_in_place
process_in_place-sender order from (add uid is_available port external_protocol address protocol)
      this held closed =
    add_in_place-sender _ _ port external_protocol this held closed
process_in_place-sender order from (delete uid) this held closed =
    close_in_place-sender _ _ held closed
process_in_place-sender order from (suspend uid) this held closed = held
process_in_place-sender order from (resume uid) this held closed = held

ended-returned : (e : Ended) {next : ServiceManager} → outcome e ≡ returned next → e.1 ≡ next
ended-returned (returned _, this) h = ground arith
ended-returned (panicked, this) h = cc

-- With a listener that is still there, or none, the call in place ends as its meaning says.
pub process_in_place-connected :
    (order : IterationOrder (ℕ × Service)) (from : Text) (event : EndpointEvent)
    (this : ServiceManager)
    → IsSane this.port_service_map
    → IsConnected this.port_event_sender
    → (process_in_place order from event this).1
      ≡ with_ports this
          (next_map order from event this.port_service_map)
          (queue (port_events order from event this.port_service_map) this.port_event_sender)
process_in_place-connected order from event this v c =
    ended-returned (process_in_place order from event this) (
      sym (process_event-process_in_place order from event this)
      ∙ process_event-deliver order from event this v
      ∙ ap
          (λ o. o >>= λ s.
            returned (with_ports this (next_map order from event this.port_service_map) s))
          (deliver_connected (port_events order from event this.port_service_map)
            this.port_event_sender c))

pub IsConnected-cases :
    (o : Option (Sender PortEvent))
    → IsConnected o ⊎ ((sender : Sender PortEvent) × (o ≡ some sender) × (sender.is_closed ≡ true))
IsConnected-cases none = inl tt
IsConnected-cases (some sender) = elim (Bool-cases sender.is_closed) [
  | inl closed ↦ inr (sender, refl, closed)
  | inr alive ↦ inl alive
]
