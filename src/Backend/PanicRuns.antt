-- ===== src/Backend/PanicRuns.antt =====
-- Runs of the service manager in which tasks may panic: what they leave is what the others go on with.
use mathlib.Core.List.{Nodup-nil}
use state_proxy.Base.{
  ℕ, [], Option, none, some, ◌≡◌, refl, sym, ◌∙◌, arith, IterationOrder, Text, false, inl, inr,
  Option-cases, ok,
}
use state_proxy.Backend.Endpoint.{EndpointEvent}
use state_proxy.Backend.Channel.{Sender}
use state_proxy.Backend.Manager.{
  Service, PortServiceMap, ServiceManager, PortEvent, announce, send_port_events_to, new,
}
use state_proxy.Base.{values}
use state_proxy.Backend.Discovery.{register_endpoint_discovery, count_event}
use state_proxy.Backend.InPlace.{process_in_place}
use state_proxy.Backend.View.{replay, no_ports, protocol_at}
use state_proxy.Backend.Tables.{IsSane}
use state_proxy.Backend.Effects.{next_map, port_events}
use state_proxy.Backend.Deliver.{queue}
use state_proxy.Backend.Listener.{announce-protocol_at, replay-queue}
use state_proxy.Backend.Gone.{
  process_in_place-sender, process_in_place-connected, IsConnected-cases,
}
use state_proxy.Backend.Crash.{process_in_place-IsSane}
use state_proxy.Backend.Runs.{hang_up, count_event_ports, register-ports}

-- One step of the tasks that share the manager; one that processes an event may end in a panic.
pub data PanicStep (order : IterationOrder (ℕ × Service)) (this next : ServiceManager)
    : Type 0 where
  processed :
      (from : Text) (event : EndpointEvent)
      → next ≡ (process_in_place order from event (count_event from this)).1
      → PanicStep order this next
  listener_set :
      (sender : Sender PortEvent)
      → sender.sent ≡ []
      → next ≡ send_port_events_to order sender this
      → PanicStep order this next
  registered :
      (name : Text) → register_endpoint_discovery name this ≡ ok next → PanicStep order this next
  listener_gone :
      next ≡ record this { port_event_sender = hang_up this.port_event_sender }
      → PanicStep order this next

pub data PanicReach (order : IterationOrder (ℕ × Service)) : ServiceManager → Type 0 where
  here : PanicReach order new
  after :
      {this next : ServiceManager}
      → PanicReach order this
      → PanicStep order this next
      → PanicReach order next

-- The map is sane, and a listener that is still there knows its ports.
record Inv (this : ServiceManager) : Type 0 where
  sane : IsSane this.port_service_map
  heard :
      (sender : Sender PortEvent)
      → this.port_event_sender ≡ some sender
      → sender.is_closed ≡ false
      → (q : ℕ) → replay sender.sent no_ports q ≡ protocol_at this.port_service_map q

processed-Inv :
    (order : IterationOrder (ℕ × Service)) (from : Text) (event : EndpointEvent)
    (this : ServiceManager)
    → Inv this
    → Inv (process_in_place order from event this).1
processed-Inv order from event this v = record {
  sane = process_in_place-IsSane order from event this v.sane;
  heard = elim (IsConnected-cases this.port_event_sender) [
    | inl c ↦
        rw (process_in_place-connected order from event this v.sane c)
          (λ s same alive q. told this.port_event_sender refl s same alive q)
    | inr (sender, held, closed) ↦ λ s same alive q.
        absurd
          (let kept = process_in_place-sender order from event this held closed in ground arith)
  ];
}
  where
    m : PortServiceMap
    m = this.port_service_map

    told :
        (o : Option (Sender PortEvent))
        → this.port_event_sender ≡ o
        → (s : Sender PortEvent) → queue (port_events order from event m) o ≡ some s
        → s.is_closed ≡ false
        → (q : ℕ) → replay s.sent no_ports q ≡ protocol_at (next_map order from event m) q
    told none was s same alive q = cc
    told (some old) was s same alive q =
        replay-queue order from event m old q v.sane (v.heard old was (ground arith)) same

new-Inv : Inv new
unfolding new
new-Inv = record {
  sane = record { distinct_ports = Nodup-nil; placed = tt };
  heard = λ s e alive q. cc;
}

-- What changes neither the map nor the sender keeps the invariant.
same-Inv :
    (this next : ServiceManager)
    → (next.port_service_map ≡ this.port_service_map)
      × (next.port_event_sender ≡ this.port_event_sender)
    → Inv this
    → Inv next
same-Inv this next (ports, sender) v = record {
  sane = rw ports v.sane;
  heard = λ s e alive q. rw ports (v.heard s (sym sender ∙ e) alive q);
}

hang_up-Inv :
    (this : ServiceManager)
    → Inv this
    → Inv (record this { port_event_sender = hang_up this.port_event_sender })
hang_up-Inv this v = record {
  sane = v.sane;
  heard = λ s e alive q. told this.port_event_sender s e alive q;
}
  where
    told :
        (o : Option (Sender PortEvent)) (s : Sender PortEvent)
        → hang_up o ≡ some s
        → s.is_closed ≡ false
        → (q : ℕ) → replay s.sent no_ports q ≡ protocol_at this.port_service_map q
    told none s e alive q = cc
    told (some old) s e alive q = absurd (ground arith)

send_port_events_to-Inv :
    (order : IterationOrder (ℕ × Service)) (sender : Sender PortEvent) (this : ServiceManager)
    → sender.sent ≡ []
    → Inv this
    → Inv (send_port_events_to order sender this)
unfolding send_port_events_to
send_port_events_to-Inv order sender this fresh v =
    elim (Option-cases (announce (values (order.arrange this.port_service_map)) sender)) [
      | inl e ↦ rw (e, send_port_events_to) v
      | inr (told, e) ↦
          rw (e, send_port_events_to)
            (record {
              sane = v.sane;
              heard = λ s same alive q.
                  let this_one : s ≡ told = ground arith in
                  rw this_one
                    (announce-protocol_at order sender this.port_service_map q fresh v.sane e);
            })
    ]

PanicStep-Inv :
    {order : IterationOrder (ℕ × Service)} {this next : ServiceManager}
    → PanicStep order this next
    → Inv this
    → Inv next
PanicStep-Inv {order} {this} (processed from event e) v = rw e (
    processed-Inv order from event (count_event from this)
      (same-Inv this (count_event from this) (count_event_ports from this) v))
PanicStep-Inv {order} {this} (listener_set sender fresh e) v =
    rw e (send_port_events_to-Inv order sender this fresh v)
PanicStep-Inv {order} {this} {next} (registered name h) v =
    same-Inv this next (register-ports name this h) v
PanicStep-Inv {order} {this} (listener_gone e) v = rw e (hang_up-Inv this v)

PanicReach-Inv :
    (order : IterationOrder (ℕ × Service)) {this : ServiceManager}
    → PanicReach order this
    → Inv this
PanicReach-Inv order here = new-Inv
PanicReach-Inv order (after r step) = PanicStep-Inv step (PanicReach-Inv order r)

-- From an empty manager, whatever the tasks do and in whatever order, tasks that panic included, a
-- listener that is still there and that replays the port events it was sent gets, at every port, the
-- protocol that the map serves there, or nothing where no service is.
pub replay-protocol_at_panic :
    (order : IterationOrder (ℕ × Service)) {this : ServiceManager} (sender : Sender PortEvent)
    (q : ℕ)
    → PanicReach order this
    → this.port_event_sender ≡ some sender
    → sender.is_closed ≡ false
    → replay sender.sent no_ports q ≡ protocol_at this.port_service_map q
replay-protocol_at_panic order sender q r e alive = (PanicReach-Inv order r).heard sender e alive q

-- From an empty manager, whatever the tasks do and in whatever order, tasks that panic included, no port
-- and no identity comes twice, and each service stands under its own port.
pub PanicReach-IsSane :
    (order : IterationOrder (ℕ × Service)) {this : ServiceManager}
    → PanicReach order this
    → IsSane this.port_service_map
PanicReach-IsSane order r = (PanicReach-Inv order r).sane
