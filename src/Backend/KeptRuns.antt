-- ===== src/Backend/KeptRuns.antt =====
-- Runs of the service manager in which no receiver of port events goes away while its sender is set.
use mathlib.Core.List.{Nodup-nil}
use state_proxy.Base.{ℕ, ◌≡◌, ◌≢◌, ◌∙◌, sym, arith, IterationOrder, Text, returned, panicked}
use state_proxy.Backend.Endpoint.{EndpointEvent}
use state_proxy.Backend.Manager.{Service, ServiceManager, process_event, new}
use state_proxy.Backend.Discovery.{count_event}
use state_proxy.Backend.InPlace.{Ended, outcome, process_in_place, process_event-process_in_place}
use state_proxy.Backend.Tables.{IsValid}
use state_proxy.Backend.Deliver.{IsConnected}
use state_proxy.Backend.Process.{process_event-returns}
use state_proxy.Backend.Listener.{send_port_events_to-IsValid}
use state_proxy.Backend.PanicRuns.{PanicStep, processed, listener_set, registered, listener_gone}
use state_proxy.Backend.Runs.{count_event_ports, register-ports}

-- Steps of the tasks, after each of which there is no listener or it is still there.
pub data KeptReach (order : IterationOrder (ℕ × Service)) : ServiceManager → Type 0 where
  here : KeptReach order new
  after :
      {this next : ServiceManager}
      → KeptReach order this
      → PanicStep order this next
      → IsConnected next.port_event_sender
      → KeptReach order next

module _ (order : IterationOrder (ℕ × Service)) (from : Text) (event : EndpointEvent)
    (this : ServiceManager) where
  count_event-IsValid :
      IsValid this.port_service_map → IsValid (count_event from this).port_service_map
  count_event-IsValid v = let (ports, sender) = count_event_ports from this in rw ports v

  count_event-IsConnected :
      IsConnected this.port_event_sender → IsConnected (count_event from this).port_event_sender
  count_event-IsConnected c = let (ports, sender) = count_event_ports from this in rw sender c

  outcome-next : (e : Ended) {next : ServiceManager} → outcome e ≡ returned next → e.1 ≡ next
  outcome-next (returned _, this) h = ground arith
  outcome-next (panicked, this) h = cc

  processed-IsValid :
      IsValid this.port_service_map
      → IsConnected this.port_event_sender
      → IsValid (process_in_place order from event (count_event from this)).1.port_service_map
  processed-IsValid v c =
      let counted = count_event from this in
      let (next, e, (valid, connected)) =
        process_event-returns order from event counted (count_event-IsValid v)
          (count_event-IsConnected c) in
      let same =
        outcome-next (process_in_place order from event counted)
          (sym (process_event-process_in_place order from event counted) ∙ e) in
      rw same valid

PanicStep-IsValid :
    {order : IterationOrder (ℕ × Service)} {this next : ServiceManager}
    → PanicStep order this next
    → IsConnected this.port_event_sender
    → IsValid this.port_service_map
    → IsValid next.port_service_map
PanicStep-IsValid {order} {this} (processed from event e) c v =
    rw e (processed-IsValid order from event this v c)
PanicStep-IsValid {order} {this} (listener_set sender fresh e) c v =
    rw e (send_port_events_to-IsValid order sender this v)
PanicStep-IsValid {order} {this} {next} (registered name h) c v =
    let (ports, sender) = register-ports name this h in rw ports v
PanicStep-IsValid {order} {this} (listener_gone e) c v = rw e v

new-IsValid : IsValid new.port_service_map
unfolding new
new-IsValid = record { distinct_ports = Nodup-nil; services = tt }

new-IsConnected : IsConnected new.port_event_sender
unfolding new
new-IsConnected = tt

KeptReach-IsConnected :
    {order : IterationOrder (ℕ × Service)} {this : ServiceManager}
    → KeptReach order this
    → IsConnected this.port_event_sender
KeptReach-IsConnected here = new-IsConnected
KeptReach-IsConnected (after r step c) = c

KeptReach-map :
    {order : IterationOrder (ℕ × Service)} {this : ServiceManager}
    → KeptReach order this
    → IsValid this.port_service_map
KeptReach-map here = new-IsValid
KeptReach-map (after r step c) = PanicStep-IsValid step (KeptReach-IsConnected r) (KeptReach-map r)

-- From an empty manager, whatever the tasks do and in whatever order, as long as after each step there is
-- no listener of port events or it is still there: the port map is valid, so that no port comes twice, and
-- each service stands under its own port, has an endpoint, and has no identity twice; and the task that
-- takes the next event, whichever it is, does not panic.
pub KeptReach-IsValid :
    (order : IterationOrder (ℕ × Service)) {this : ServiceManager} (from : Text)
    (event : EndpointEvent)
    → KeptReach order this
    → IsValid this.port_service_map
      × (process_event order from event (count_event from this) ≢ panicked)
KeptReach-IsValid order {this} from event r = (
  KeptReach-map r,
  λ h.
      let (next, e, _) =
        process_event-returns order from event (count_event from this)
          (count_event-IsValid order from event this (KeptReach-map r))
          (count_event-IsConnected order from event this (KeptReach-IsConnected r)) in
      cc,
)
