-- ===== src/Backend/Discovery.antt =====
-- src/backend/mod.rs: the registration of a discovery task, and the loop that takes its events.
-- A task and the manager share one counter of processed events, which the manager keeps by the
-- task's name; the throughput timer beside it is left out.
use state_proxy.Base.{
  ℕ, Bool, true, false, List, [], ◌∷◌, lookup, none, some, Text, Text_discrete, ◌+◌, ◌%◌, ◌^◌,
  Outcome, returned, panicked, ◌>>=◌, Result, ok, err, insert, contains, IterationOrder,
  if◌then◌else◌,
}
use state_proxy.Backend.Endpoint.{EndpointEvent}
use state_proxy.Backend.Manager.{ServiceManager, Service, process_event}

pub data RegistrationError : Type 0 where
  already_registered : Text → RegistrationError

-- `register_endpoint_discovery`: a name is taken once. The task and its listener are spawned.
unfoldable pub register_endpoint_discovery :
    Text → ServiceManager → Result RegistrationError ServiceManager
register_endpoint_discovery name this =
    if contains Text_discrete name this.registered_endpoint_discovery_names
    then err (already_registered name)
    else ok (record this {
      registered_endpoint_discovery_names = name ∷ this.registered_endpoint_discovery_names;
      endpoint_discovery_metrics =
          insert Text_discrete name (record { events_processed = 0 })
            this.endpoint_discovery_metrics;
    })

-- `events_processed.incr()`, of a counter of 64 bits that wraps around.
unfoldable pub count_event : Text → ServiceManager → ServiceManager
count_event from this = elim (lookup Text_discrete from this.endpoint_discovery_metrics) [
  | none ↦ this
  | some metrics ↦ record this {
    endpoint_discovery_metrics =
        insert Text_discrete from
          (record metrics { events_processed = (metrics.events_processed + 1) % 2 ^ 64 })
          this.endpoint_discovery_metrics;
  }
]

-- What the listener wakes up to: an event, with the manager alive or dropped, or a closed channel.
pub data Wakeup : Type 0 where
  received : EndpointEvent → Bool → Wakeup
  disconnected : Wakeup

-- `listen_for_discovery_events`, over what it wakes up to.
unfoldable pub listen_for_discovery_events :
    IterationOrder (ℕ × Service) → Text → List Wakeup → ServiceManager → Outcome ServiceManager
listen_for_discovery_events order from [] this = returned this
listen_for_discovery_events order from (received event false ∷ wakeups) this = returned this
listen_for_discovery_events order from (received event true ∷ wakeups) this = do
  next ← process_event order from event (count_event from this)
  listen_for_discovery_events order from wakeups next
listen_for_discovery_events order from (disconnected ∷ wakeups) this = panicked
