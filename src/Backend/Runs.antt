-- ===== src/Backend/Runs.antt =====
-- What the tasks that share the service manager do beside processing an event: a receiver that is dropped,
-- and what counting an event and registering a name leave as it is.
use state_proxy.Base.{Option, none, some, ◌≡◌, Text, true, arith, ok}
use state_proxy.Backend.Channel.{Sender}
use state_proxy.Backend.Manager.{ServiceManager, PortEvent}
use state_proxy.Backend.Discovery.{register_endpoint_discovery, count_event}

-- The receiver of the port events is dropped.
abbrev pub hang_up : Option (Sender PortEvent) → Option (Sender PortEvent)
hang_up none = none
hang_up (some sender) = some (record sender { is_closed = true })

pub count_event_ports :
    (from : Text) (this : ServiceManager)
    → ((count_event from this).port_service_map ≡ this.port_service_map)
      × ((count_event from this).port_event_sender ≡ this.port_event_sender)
unfolding count_event
count_event_ports from this = ground arith

pub register-ports :
    (name : Text) (this : ServiceManager) {next : ServiceManager}
    → register_endpoint_discovery name this ≡ ok next
    → (next.port_service_map ≡ this.port_service_map)
      × (next.port_event_sender ≡ this.port_event_sender)
unfolding register_endpoint_discovery
register-ports name this h = ground arith
