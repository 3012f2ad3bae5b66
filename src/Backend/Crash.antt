-- ===== src/Backend/Crash.antt =====
-- What a task leaves of the manager when it panics while it processes an event.
use state_proxy.Base.{
  ℕ, List, [], ◌∷◌, lookup, Option, none, some, ◌≡◌, ◌≢◌, refl, subst, ◌∙◌, ap, ℕ_discrete, arith,
  IterationOrder, Text, true, inl, inr, Option-cases, Outcome, returned, panicked, insert, remove,
}
use state_proxy.Backend.Endpoint.{EndpointEvent, add, delete, suspend, resume, EndpointId, Endpoint}
use state_proxy.Backend.Channel.{Sender, send}
use state_proxy.Backend.Manager.{
  PortEvent, close_port, Service, ServiceManager, send_event, remove_endpoint, suspend_endpoint,
  resume_endpoint,
}
use state_proxy.Backend.InPlace.{
  sent_in_place, Ended, then_in_place, notify, add_in_place, close_in_place, process_in_place,
}
use state_proxy.Backend.Tables.{IsSane}
use state_proxy.Backend.Effects.{add_to}
use state_proxy.Backend.Sanity.{
  add_map-IsSane, remove-IsSane, remove_endpoint-IsSane, update_services-IsSane,
}

abbrev IsSaneIn : ServiceManager → Type 0
IsSaneIn this = IsSane this.port_service_map

pub notify-port_service_map :
    (event : PortEvent) (this : ServiceManager)
    → (notify event this).1.port_service_map ≡ this.port_service_map
unfolding notify
notify-port_service_map event this = go (send_event this.port_event_sender event)
  where
    go :
        (o : Outcome (Option (Sender PortEvent)))
        → (sent_in_place o this).1.port_service_map ≡ this.port_service_map
    go panicked = refl
    go (returned sender) = refl

then-IsSane :
    (e : Ended) (f : ServiceManager → Ended)
    → IsSaneIn e.1
    → ((this : ServiceManager) → IsSaneIn this → IsSaneIn (f this).1)
    → IsSaneIn (then_in_place e f).1
then-IsSane (returned _, this) f v h = h this v
then-IsSane (panicked, this) f v h = v

close_in_place-IsSane :
    (ports : List ℕ) (this : ServiceManager)
    → IsSaneIn this
    → IsSaneIn (close_in_place ports this).1
unfolding close_in_place
close_in_place-IsSane [] this v = v
close_in_place-IsSane (port ∷ ports) this v =
    elim (Option-cases (lookup ℕ_discrete port this.port_service_map)) [
      | inl gone ↦ rw (gone, close_in_place) v
      | inr (old, e) ↦
          rw (e, close_in_place)
            (then-IsSane
              (notify (close_port port)
                (record this { port_service_map = remove ℕ_discrete port this.port_service_map }))
              (close_in_place ports)
              (rw
                (notify-port_service_map (close_port port)
                  (record this { port_service_map = remove ℕ_discrete port this.port_service_map }))
                (remove-IsSane port this.port_service_map v))
              (close_in_place-IsSane ports))
    ]

add_in_place-IsSane :
    (i : EndpointId) (e : Endpoint) (port : ℕ) (protocol : Text) (this : ServiceManager)
    → IsSaneIn this
    → IsSaneIn (add_in_place i e port protocol this).1
unfolding add_in_place
add_in_place-IsSane i e port protocol this v =
    let added : (o : Option Service)
        → lookup ℕ_discrete port this.port_service_map ≡ o
        → IsSane (insert ℕ_discrete port (add_to i e port protocol o) this.port_service_map) =
      λ o there.
        subst
          (λ o'.
            IsSane (insert ℕ_discrete port (add_to i e port protocol o') this.port_service_map))
          there (add_map-IsSane i e port protocol this.port_service_map v) in
    elim (Option-cases (lookup ℕ_discrete port this.port_service_map)) [
      | inl gone ↦ rw (gone, add_in_place) (rw notify-port_service_map (added none gone))
      | inr (s, there) ↦ rw (there, add_in_place) (added (some s) there)
    ]

-- Processing an event keeps the port map sane, also where the task panics on the way.
pub process_in_place-IsSane :
    (order : IterationOrder (ℕ × Service)) (from : Text) (event : EndpointEvent)
    (this : ServiceManager)
    → IsSane this.port_service_map
    → IsSane (process_in_place order from event this).1.port_service_map
unfolding process_in_place
process_in_place-IsSane order from (add uid is_available port external_protocol address protocol)
      this v =
    add_in_place-IsSane _ _ port external_protocol this v
process_in_place-IsSane order from (delete uid) this v =
    let i : EndpointId = record { endpoint_discovery_name = from; uid = uid } in
    close_in_place-IsSane _
      (record this { port_service_map = remove_endpoint i this.port_service_map })
      (remove_endpoint-IsSane i this.port_service_map v)
process_in_place-IsSane order from (suspend uid) this v =
    update_services-IsSane suspend_endpoint _ this.port_service_map v
process_in_place-IsSane order from (resume uid) this v =
    update_services-IsSane resume_endpoint _ this.port_service_map v

send_event_closed :
    (event : PortEvent) (sender : Sender PortEvent)
    → sender.is_closed ≡ true
    → send_event (some sender) event ≡ panicked
unfolding send_event send
send_event_closed event sender closed = ground arith

pub notify_closed :
    (event : PortEvent) (this : ServiceManager) {sender : Sender PortEvent}
    → this.port_event_sender ≡ some sender
    → sender.is_closed ≡ true
    → notify event this ≡ (panicked, this)
unfolding notify
notify_closed event this {sender} held closed =
    ap (λ (o : Outcome (Option (Sender PortEvent))). sent_in_place o this)
      (ap (λ (o : Option (Sender PortEvent)). send_event o event) held
        ∙ send_event_closed event sender closed)

pub close_in_place_closed :
    (port : ℕ) (ports : List ℕ) (this : ServiceManager) {sender : Sender PortEvent}
    → this.port_event_sender ≡ some sender
    → sender.is_closed ≡ true
    → lookup ℕ_discrete port this.port_service_map ≢ none
    → close_in_place (port ∷ ports) this
      ≡ (panicked, record this { port_service_map = remove ℕ_discrete port this.port_service_map })
unfolding close_in_place
close_in_place_closed port ports this held closed there =
    elim (Option-cases (lookup ℕ_discrete port this.port_service_map)) [
      | inl gone ↦ absurd (there gone)
      | inr (old, e) ↦
          rw (e, close_in_place)
            (rw
              (notify_closed (close_port port)
                (record this { port_service_map = remove ℕ_discrete port this.port_service_map })
                held closed)
              refl)
    ]
