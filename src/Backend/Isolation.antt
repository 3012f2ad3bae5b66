-- ===== src/Backend/Isolation.antt =====
-- What the tasks of several discoveries make of one service manager.
use state_proxy.Base.{
  ℕ, List, [], ◌∷◌, ◌≡◌, ◌≢◌, ◌∙◌, ap, sym, refl, arith, IterationOrder, Text, Text_discrete, ite,
  if_pos, if_neg, true, false, contains, returned, panicked, Bool,
}
use state_proxy.Backend.Endpoint.{
  EndpointEvent, add, delete, suspend, resume, EndpointId, EndpointId_discrete,
}
use state_proxy.Backend.Manager.{Service, ServiceManager, PortServiceMap}
use state_proxy.Backend.Discovery.{count_event}
use state_proxy.Backend.InPlace.{Ended, process_in_place}
use state_proxy.Backend.View.{endpoint_at, after_event, EndpointView}
use state_proxy.Backend.Tables.{IsSane}
use state_proxy.Backend.Crash.{process_in_place-IsSane}
use state_proxy.Backend.Runs.{count_event_ports}
use state_proxy.Backend.Untouched.{endpoint_at-process_in_place}

-- The manager after events, each with the name of its discovery, every one of which is processed.
abbrev pub processed_by :
    IterationOrder (ℕ × Service) → List (Text × EndpointEvent) → ServiceManager → ServiceManager
processed_by order [] this = this
processed_by order ((from, event) ∷ events) this =
    processed_by order events (process_in_place order from event (count_event from this)).1

-- The names of the discoveries whose tasks have ended, and the manager that they left.
abbrev pub Tasks : Type 0
Tasks = List Text × ServiceManager

-- A panic ends the task, and leaves the manager to the others.
abbrev pub after_ended : Text → List Text → Ended → Tasks
after_ended from gone (returned _, next) = (gone, next)
after_ended from gone (panicked, next) = (from ∷ gone, next)

-- An event that comes to the task of its discovery, which takes it unless the task has ended.
abbrev pub take_event :
    IterationOrder (ℕ × Service) → Text → EndpointEvent → Bool → List Text → ServiceManager → Tasks
take_event order from event true gone this = (gone, this)
take_event order from event false gone this =
    after_ended from gone (process_in_place order from event (count_event from this))

abbrev pub left_by_tasks :
    IterationOrder (ℕ × Service)
    → List (Text × EndpointEvent)
    → List Text
    → ServiceManager
    → ServiceManager
left_by_tasks order [] gone this = this
left_by_tasks order ((from, event) ∷ events) gone this =
    let (gone', next) = take_event order from event (contains Text_discrete from gone) gone this in
    left_by_tasks order events gone' next

-- The manager after events that come to the tasks of their discoveries in this order.
abbrev pub left_by :
    IterationOrder (ℕ × Service) → List (Text × EndpointEvent) → ServiceManager → ServiceManager
left_by order events this = left_by_tasks order events [] this

abbrev pub unless :
    Bool → Text × EndpointEvent → List (Text × EndpointEvent) → List (Text × EndpointEvent)
unless true event events = events
unless false event events = event ∷ events

-- Those of the events that the tasks take.
abbrev pub taken_by_tasks :
    IterationOrder (ℕ × Service)
    → List (Text × EndpointEvent)
    → List Text
    → ServiceManager
    → List (Text × EndpointEvent)
taken_by_tasks order [] gone this = []
taken_by_tasks order ((from, event) ∷ events) gone this =
    let (gone', next) = take_event order from event (contains Text_discrete from gone) gone this in
    unless (contains Text_discrete from gone) (from, event) (taken_by_tasks order events gone' next)

abbrev pub taken :
    IterationOrder (ℕ × Service)
    → List (Text × EndpointEvent)
    → ServiceManager
    → List (Text × EndpointEvent)
taken order events this = taken_by_tasks order events [] this

after_ended-next : (from : Text) (gone : List Text) (e : Ended) → (after_ended from gone e).1 ≡ e.1
after_ended-next from gone (returned _, next) = refl
after_ended-next from gone (panicked, next) = refl

-- What the tasks leave is what processing the events that they take leaves.
pub left_by_tasks-taken :
    (order : IterationOrder (ℕ × Service)) (events : List (Text × EndpointEvent)) (gone : List Text)
    (this : ServiceManager)
    → left_by_tasks order events gone this
      ≡ processed_by order (taken_by_tasks order events gone this) this
left_by_tasks-taken order [] gone this = refl
left_by_tasks-taken order ((from, event) ∷ events) gone this =
    one (left_by_tasks-taken order events) (contains Text_discrete from gone)
  where
    one :
        ((gone' : List Text) (next : ServiceManager)
          → left_by_tasks order events gone' next
            ≡ processed_by order (taken_by_tasks order events gone' next) next)
        → (has_ended : Bool)
        → left_by_tasks order events
            (take_event order from event has_ended gone this).0
            (take_event order from event has_ended gone this).1
          ≡ processed_by order
              (unless has_ended
                (from, event)
                (taken_by_tasks order events
                  (take_event order from event has_ended gone this).0
                  (take_event order from event has_ended gone this).1))
              this
    one later true = later gone this
    one later false =
        let e = process_in_place order from event (count_event from this) in
        let (gone', next) = after_ended from gone e in
        later gone' next
        ∙ ap (processed_by order (taken_by_tasks order events gone' next))
            (after_ended-next from gone e)

-- The events of one discovery.
abbrev pub events_of : Text → List (Text × EndpointEvent) → List EndpointEvent
events_of name [] = []
events_of name ((from, event) ∷ events) =
    ite (Text_discrete name from) (event ∷ events_of name events) (events_of name events)

abbrev pub after_events : Text → List EndpointEvent → EndpointView → EndpointView
after_events from [] v = v
after_events from (event ∷ events) v = after_events from events (after_event from event v)

-- An event says something about an endpoint only from what was there.
after_event-local :
    (from : Text) (event : EndpointEvent) (v w : EndpointView) (q : ℕ) (i : EndpointId)
    → v q i ≡ w q i
    → after_event from event v q i ≡ after_event from event w q i
after_event-local from (add uid is_available port external_protocol address protocol) v w q i same =
    rw same refl
after_event-local from (delete uid) v w q i same = rw same refl
after_event-local from (suspend uid) v w q i same = rw same refl
after_event-local from (resume uid) v w q i same = rw same refl

after_events-local :
    (from : Text) (events : List EndpointEvent) (v w : EndpointView) (q : ℕ) (i : EndpointId)
    → v q i ≡ w q i
    → after_events from events v q i ≡ after_events from events w q i
after_events-local from [] v w q i same = same
after_events-local from (event ∷ events) v w q i same =
    after_events-local from events (after_event from event v) (after_event from event w) q i
      (after_event-local from event v w q i same)

other_id :
    (from uid : Text) (i : EndpointId)
    → i.endpoint_discovery_name ≢ from
    → i ≢ record { endpoint_discovery_name = from; uid = uid }
other_id from uid i off same = off (ap (λ (j : EndpointId). j.endpoint_discovery_name) same)

-- It says nothing about the endpoints of other discoveries.
after_event-foreign :
    (from : Text) (event : EndpointEvent) (v : EndpointView) (q : ℕ) (i : EndpointId)
    → i.endpoint_discovery_name ≢ from
    → after_event from event v q i ≡ v q i
after_event-foreign from (add uid is_available port external_protocol address protocol) v q i off =
    rw
      (if_neg (EndpointId_discrete i (record { endpoint_discovery_name = from; uid = uid }))
        (other_id from uid i off))
      (ground arith)
after_event-foreign from (delete uid) v q i off =
    if_neg (EndpointId_discrete i (record { endpoint_discovery_name = from; uid = uid }))
      (other_id from uid i off) _ _
after_event-foreign from (suspend uid) v q i off =
    if_neg (EndpointId_discrete i (record { endpoint_discovery_name = from; uid = uid }))
      (other_id from uid i off) _ _
after_event-foreign from (resume uid) v q i off =
    if_neg (EndpointId_discrete i (record { endpoint_discovery_name = from; uid = uid }))
      (other_id from uid i off) _ _

-- Whatever is processed of other discoveries in between, the endpoints of a discovery are those that its
-- own events say.
processed_by-after_events :
    (order : IterationOrder (ℕ × Service)) (events : List (Text × EndpointEvent))
    (this : ServiceManager) (q : ℕ) (i : EndpointId)
    → IsSane this.port_service_map
    → endpoint_at (processed_by order events this).port_service_map q i
      ≡ after_events i.endpoint_discovery_name
          (events_of i.endpoint_discovery_name events)
          (endpoint_at this.port_service_map)
          q
          i
processed_by-after_events order [] this q i v = refl
processed_by-after_events order ((from, event) ∷ events) this q i v =
    let ports = (count_event_ports from this).0 in
    let counted = count_event from this in
    let next = (process_in_place order from event counted).1 in
    let sane : IsSane counted.port_service_map = rw ports v in
    let name = i.endpoint_discovery_name in
    let now : endpoint_at next.port_service_map q i
        ≡ after_event from event (endpoint_at this.port_service_map) q i =
      endpoint_at-process_in_place order from event counted q i sane
      ∙ ap (λ (m : PortServiceMap). after_event from event (endpoint_at m) q i) ports in
    processed_by-after_events order events next q i
      (process_in_place-IsSane order from event counted sane)
    ∙ (elim (Text_discrete name from) [
      | yes own ↦
          after_events-local name (events_of name events) (endpoint_at next.port_service_map)
            (after_event name event (endpoint_at this.port_service_map)) q i
            (now
              ∙ ap (λ (t : Text). after_event t event (endpoint_at this.port_service_map) q i)
                  (sym own))
          ∙ ap
              (λ (es : List EndpointEvent).
                after_events name es (endpoint_at this.port_service_map) q i)
              (sym (if_pos (Text_discrete name from) own _ _))
      | no off ↦
          after_events-local name (events_of name events) (endpoint_at next.port_service_map)
            (endpoint_at this.port_service_map) q i
            (now ∙ after_event-foreign from event (endpoint_at this.port_service_map) q i off)
          ∙ ap
              (λ (es : List EndpointEvent).
                after_events name es (endpoint_at this.port_service_map) q i)
              (sym (if_neg (Text_discrete name from) off _ _))
    ])

-- Whichever tasks panic, the endpoints of a discovery are those that the events say that its own task
-- takes.
pub left_by-after_events :
    (order : IterationOrder (ℕ × Service)) (events : List (Text × EndpointEvent))
    (this : ServiceManager) (q : ℕ) (i : EndpointId)
    → IsSane this.port_service_map
    → endpoint_at (left_by order events this).port_service_map q i
      ≡ after_events i.endpoint_discovery_name
          (events_of i.endpoint_discovery_name (taken order events this))
          (endpoint_at this.port_service_map)
          q
          i
left_by-after_events order events this q i v =
    ap (λ (m : ServiceManager). endpoint_at m.port_service_map q i)
      (left_by_tasks-taken order events [] this)
    ∙ processed_by-after_events order (taken order events this) this q i v

-- Two runs from one manager in whose port map no port and no identity comes twice and each service
-- stands under its own port, in which the task of each discovery takes the same events in the same order,
-- up to the event at which it panics if it does, leave the same endpoint behind every port and under every
-- identity: however the events of different discoveries interleave, and however the tables are iterated.
pub endpoint_at-left_by :
    (order order' : IterationOrder (ℕ × Service)) (events events' : List (Text × EndpointEvent))
    (this : ServiceManager)
    → IsSane this.port_service_map
    → ((name : Text)
        → events_of name (taken order events this) ≡ events_of name (taken order' events' this))
    → (port : ℕ) (i : EndpointId)
    → endpoint_at (left_by order events this).port_service_map port i
      ≡ endpoint_at (left_by order' events' this).port_service_map port i
endpoint_at-left_by order order' events events' this v same port i =
    left_by-after_events order events this port i v
    ∙ ap
        (λ (es : List EndpointEvent).
          after_events i.endpoint_discovery_name es (endpoint_at this.port_service_map) port i)
        (same i.endpoint_discovery_name)
    ∙ sym (left_by-after_events order' events' this port i v)
