-- ===== src/Backend/Listener.antt =====
-- What a listener of port events knows from what it was sent, and what it is told when it is set.
use mathlib.Core.List.Perm
use mathlib.Core.List.{Nodup-cons, append_assoc, append-nil}
use mathlib.Core.Path.{fun_ext}
use native.Mathlib.Nat.{ℕ_set}
use state_proxy.Base.{
  Text, ℕ, List, [], ◌∷◌, ◌++◌, map, lookup, Option, none, some, ◌≡◌, refl, ap, ◌∙◌, ℕ_discrete,
  arith, IterationOrder, inl, inr, Bool-cases, All, keys, values, Nodup, lookup-perm, lookup-head,
  All-perm,
}
use state_proxy.Backend.Channel.{Sender}
use state_proxy.Backend.Manager.{
  Service, PortServiceMap, ServiceManager, PortEvent, open_port, announce, send_port_events_to,
}
use state_proxy.Backend.View.{PortView, observe, replay, no_ports, protocol_at}
use state_proxy.Backend.Endpoint.{EndpointEvent}
use state_proxy.Backend.Effects.{next_map, port_events}
use state_proxy.Backend.Refinement.{replay-port_events}
use state_proxy.Backend.Deliver.{queue}
use state_proxy.Backend.Tables.{IsSane, IsPlacedAt, IsValid}

pub replay-append :
    (xs ys : List PortEvent) (v : PortView) → replay (xs ++ ys) v ≡ replay ys (replay xs v)
replay-append [] ys v = refl
replay-append (x ∷ xs) ys v = replay-append xs ys (observe x v)

-- A view is read one port at a time, so two that agree everywhere stay so.
pub replay_ext :
    (events : List PortEvent) (v w : PortView)
    → ((q : ℕ) → v q ≡ w q)
    → (q : ℕ) → replay events v q ≡ replay events w q
replay_ext events v w h q = ap (λ (u : PortView). replay events u q) (fun_ext h)

opens : List Service → List PortEvent
opens = map (λ s. open_port s.port s.protocol)

announce-opens :
    (services : List Service) (sender : Sender PortEvent) {told : Sender PortEvent}
    → announce services sender ≡ some told
    → told.sent ≡ sender.sent ++ opens services
unfolding announce opens
announce-opens [] sender h = ground (arith, append-nil sender.sent)
announce-opens (s ∷ services) sender {told} h = elim (Bool-cases sender.is_closed) [
  | inl closed ↦ ground arith
  | inr alive ↦
      let event = open_port s.port s.protocol in
      announce-opens services (record sender { sent = sender.sent ++ event ∷ [] }) {told = told}
        (ground arith)
      ∙ append_assoc sender.sent (event ∷ []) (opens services)
]

abbrev HasOwnPort : ℕ × Service → Type 0
HasOwnPort e = e.1.port ≡ e.0

own_ports : (m : PortServiceMap) → All (λ e. IsPlacedAt e.0 e.1) m → All HasOwnPort m
own_ports [] a = tt
own_ports (e ∷ m) a = (a.0.at_port, own_ports m a.1)

replay-opens :
    (m : PortServiceMap) (v : PortView) (q : ℕ)
    → Nodup (keys m)
    → All HasOwnPort m
    → replay (opens (values m)) v q
      ≡ elim (lookup ℕ_discrete q m) [ none ↦ v q | some s ↦ some s.protocol ]
unfolding opens lookup
replay-opens [] v q u a = refl
replay-opens ((p, s) ∷ m) v q u a = ground (
  arith,
  a.0,
  lookup-head ℕ_discrete (p, s) m u,
  replay-opens m (observe (open_port s.port s.protocol) v) q (Nodup-cons.0 u).1 a.1,
)

Service-set : IsSet (Option Service)
Service-set = hlevel

-- A listener that is told the open ports knows the ports of the map.
pub announce-protocol_at :
    (order : IterationOrder (ℕ × Service)) (sender : Sender PortEvent) (m : PortServiceMap)
    {told : Sender PortEvent} (q : ℕ)
    → sender.sent ≡ []
    → IsSane m
    → announce (values (order.arrange m)) sender ≡ some told
    → replay told.sent no_ports q ≡ protocol_at m q
announce-protocol_at order sender m {told} q fresh v e =
    let queued = announce-opens (values (order.arrange m)) sender e in
    let sent : told.sent ≡ opens (values (order.arrange m)) = ground arith in
    ap (λ (events : List PortEvent). replay events no_ports q) sent
    ∙ replay-opens (order.arrange m) no_ports q distinct owned
    ∙ ground (arith, lookup-perm ℕ_discrete Service-set q (order.arrange_perm m) v.distinct_ports)
  where
    distinct : Nodup (keys (order.arrange m))
    distinct = Perm.nodup (Perm.symm (Perm.map _ (order.arrange_perm m))) v.distinct_ports

    owned : All HasOwnPort (order.arrange m)
    owned =
        All-perm HasOwnPort (λ e. ℕ_set e.1.port e.0) (order.arrange_perm m) (own_ports m v.placed)

-- The port events of an event keep a listener in step that was in step.
pub replay-queue :
    (order : IterationOrder (ℕ × Service)) (from : Text) (event : EndpointEvent)
    (m : PortServiceMap) (old : Sender PortEvent) {next : Sender PortEvent} (q : ℕ)
    → IsSane m
    → ((p : ℕ) → replay old.sent no_ports p ≡ protocol_at m p)
    → queue (port_events order from event m) (some old) ≡ some next
    → replay next.sent no_ports q ≡ protocol_at (next_map order from event m) q
replay-queue order from event m old {next} q v known same =
    let events = port_events order from event m in
    let sent : next.sent ≡ old.sent ++ events = ground arith in
    ap (λ (es : List PortEvent). replay es no_ports q) sent
    ∙ ap (λ (w : PortView). w q) (replay-append old.sent events no_ports)
    ∙ replay_ext events _ _ known q
    ∙ replay-port_events order from event m q v

pub send_port_events_to-IsValid :
    (order : IterationOrder (ℕ × Service)) (sender : Sender PortEvent) (this : ServiceManager)
    → IsValid this.port_service_map
    → IsValid (send_port_events_to order sender this).port_service_map
unfolding send_port_events_to
send_port_events_to-IsValid order sender this v = ground arith
