-- ===== src/Backend/Counters.antt =====
-- The counters of processed events.
use mathlib.Core.Option
use state_proxy.Base.{
  ℕ, zero, suc, ◌+◌, ◌%◌, ◌^◌, ◌<◌, Bool, true, false, if◌then◌else◌, List, [], ◌∷◌, lookup, Option,
  none, some, ◌≡◌, refl, ◌∙◌, ap, arith, IterationOrder, Text, Text_discrete, ℕ_discrete, Outcome,
  returned, panicked, remove, lookup-insert, inl, inr, Option-cases, length, ite,
}
use state_proxy.Backend.Endpoint.{EndpointEvent, add, delete, suspend, resume}
use state_proxy.Backend.Channel.{Sender}
use state_proxy.Backend.Manager.{
  PortEvent, close_port, Service, ServiceManager, Metrics, send_event,
}
use state_proxy.Backend.Discovery.{count_event}
use state_proxy.Backend.InPlace.{
  Ended, then_in_place, sent_in_place, notify, add_in_place, close_in_place, process_in_place,
}
use state_proxy.Backend.Isolation.{left_by, left_by_tasks-taken, processed_by, taken, events_of}

notify-endpoint_discovery_metrics :
    (event : PortEvent) (this : ServiceManager)
    → (notify event this).1.endpoint_discovery_metrics ≡ this.endpoint_discovery_metrics
unfolding notify
notify-endpoint_discovery_metrics event this = go (send_event this.port_event_sender event)
  where
    go :
        (o : Outcome (Option (Sender PortEvent)))
        → (sent_in_place o this).1.endpoint_discovery_metrics ≡ this.endpoint_discovery_metrics
    go panicked = refl
    go (returned sender) = refl

then-endpoint_discovery_metrics :
    (e : Ended) (f : ServiceManager → Ended)
    → ((this : ServiceManager)
        → (f this).1.endpoint_discovery_metrics ≡ this.endpoint_discovery_metrics)
    → (then_in_place e f).1.endpoint_discovery_metrics ≡ e.1.endpoint_discovery_metrics
then-endpoint_discovery_metrics (returned _, this) f h = h this
then-endpoint_discovery_metrics (panicked, this) f h = refl

close_in_place-endpoint_discovery_metrics :
    (ports : List ℕ) (this : ServiceManager)
    → (close_in_place ports this).1.endpoint_discovery_metrics ≡ this.endpoint_discovery_metrics
unfolding close_in_place
close_in_place-endpoint_discovery_metrics [] this = refl
close_in_place-endpoint_discovery_metrics (port ∷ ports) this =
    elim (Option-cases (lookup ℕ_discrete port this.port_service_map)) [
      | inl gone ↦ rw (gone, close_in_place) refl
      | inr (old, e) ↦
          let left = record this {
            port_service_map = remove ℕ_discrete port this.port_service_map;
          } in
          rw (e, close_in_place)
            (then-endpoint_discovery_metrics (notify (close_port port) left) (close_in_place ports)
                (close_in_place-endpoint_discovery_metrics ports)
              ∙ notify-endpoint_discovery_metrics (close_port port) left)
    ]

process_in_place-endpoint_discovery_metrics :
    (order : IterationOrder (ℕ × Service)) (from : Text) (event : EndpointEvent)
    (this : ServiceManager)
    → (process_in_place order from event this).1.endpoint_discovery_metrics
      ≡ this.endpoint_discovery_metrics
unfolding process_in_place add_in_place
process_in_place-endpoint_discovery_metrics order from
      (add uid is_available port external_protocol address protocol) this =
    elim (Option-cases (lookup ℕ_discrete port this.port_service_map)) [
      | inl gone ↦ rw (gone, add_in_place) (notify-endpoint_discovery_metrics _ _)
      | inr (s, there) ↦ rw (there, add_in_place) refl
    ]
process_in_place-endpoint_discovery_metrics order from (delete uid) this =
    close_in_place-endpoint_discovery_metrics _ _
process_in_place-endpoint_discovery_metrics order from (suspend uid) this = refl
process_in_place-endpoint_discovery_metrics order from (resume uid) this = refl

-- A counter of 64 bits after some more events, one after the other.
abbrev stepped : ℕ → ℕ → ℕ
stepped zero c = c
stepped (suc n) c = stepped n ((c + 1) % 2 ^ 64)

stepped-eq : (n c : ℕ) → c < 2 ^ 64 → stepped n c ≡ (c + n) % 2 ^ 64
stepped-eq zero c fits = omega arith
stepped-eq (suc n) c fits = omega (arith, stepped-eq n ((c + 1) % 2 ^ 64) (omega arith))

abbrev counted : ℕ → Metrics → Metrics
counted n metrics = record metrics { events_processed = stepped n metrics.events_processed }

counted_zero : (o : Option Metrics) → o ≡ Option.map (counted 0) o
counted_zero none = refl
counted_zero (some m) = refl

counted_one :
    (own : Bool) (b : ℕ) (o : Option Metrics)
    → Option.map (counted b) (Option.map (counted (if own then 1 else 0)) o)
      ≡ Option.map (counted (if own then suc b else b)) o
counted_one true b none = refl
counted_one false b none = refl
counted_one true b (some m) = refl
counted_one false b (some m) = refl

lookup-count_event :
    (name from : Text) (this : ServiceManager)
    → lookup Text_discrete name (count_event from this).endpoint_discovery_metrics
      ≡ Option.map
          (counted (ite (Text_discrete name from) 1 0))
          (lookup Text_discrete name this.endpoint_discovery_metrics)
unfolding count_event
lookup-count_event name from this =
    elim (Option-cases (lookup Text_discrete from this.endpoint_discovery_metrics)) [
      | inl gone ↦
          rw (gone, count_event)
            (elim (Text_discrete name from)
              as (λ d.
                lookup Text_discrete name this.endpoint_discovery_metrics
                ≡ Option.map (counted (ite d 1 0))
                    (lookup Text_discrete name this.endpoint_discovery_metrics)) [
                      | yes same ↦ rw (same, gone) refl
                      | no off ↦
                          counted_zero (lookup Text_discrete name this.endpoint_discovery_metrics)
                    ])
      | inr (metrics, e) ↦
          rw (e, count_event)
            (lookup-insert Text_discrete from name (counted 1 metrics)
                this.endpoint_discovery_metrics
              ∙ (elim (Text_discrete name from)
                  as (λ d.
                    ite d (some (counted 1 metrics))
                      (lookup Text_discrete name this.endpoint_discovery_metrics)
                    ≡ Option.map (counted (ite d 1 0))
                        (lookup Text_discrete name this.endpoint_discovery_metrics)) [
                          | yes same ↦ rw (same, e) refl
                          | no off ↦
                              counted_zero
                                (lookup Text_discrete name this.endpoint_discovery_metrics)
                        ]))
    ]

processed_by-counted :
    (order : IterationOrder (ℕ × Service)) (events : List (Text × EndpointEvent))
    (this : ServiceManager) (name : Text)
    → lookup Text_discrete name (processed_by order events this).endpoint_discovery_metrics
      ≡ Option.map
          (counted (length (events_of name events)))
          (lookup Text_discrete name this.endpoint_discovery_metrics)
processed_by-counted order [] this name =
    counted_zero (lookup Text_discrete name this.endpoint_discovery_metrics)
processed_by-counted order ((from, event) ∷ events) this name =
    let next = (process_in_place order from event (count_event from this)).1 in
    let o = lookup Text_discrete name this.endpoint_discovery_metrics in
    let later = length (events_of name events) in
    processed_by-counted order events next name
    ∙ ap (λ (m : List (Text × Metrics)). Option.map (counted later) (lookup Text_discrete name m))
        (process_in_place-endpoint_discovery_metrics order from event (count_event from this))
    ∙ ap (Option.map (counted later)) (lookup-count_event name from this)
    ∙ joined later o (Text_discrete name from) (events_of name events) refl
  where
    joined :
        (later : ℕ) (o : Option Metrics) (d : Dec (name ≡ from)) (rest : List EndpointEvent)
        → later ≡ length rest
        → Option.map (counted later) (Option.map (counted (ite d 1 0)) o)
          ≡ Option.map (counted (length (ite d (event ∷ rest) rest))) o
    joined later o (yes own) rest e =
        counted_one true later o ∙ ap (λ (n : ℕ). Option.map (counted (suc n)) o) e
    joined later o (no off) rest e =
        counted_one false later o ∙ ap (λ (n : ℕ). Option.map (counted n) o) e

-- Let events of several discoveries come to their tasks, and let a discovery have a counter, of 64 bits,
-- before. Afterwards it has grown by the number of those events of the discovery that its task has taken,
-- the one at which the task panicked among them, and has wrapped around where 64 bits are too few.
pub lookup-left_by :
    (order : IterationOrder (ℕ × Service)) (events : List (Text × EndpointEvent))
    (this : ServiceManager) (name : Text) {metrics : Metrics}
    → lookup Text_discrete name this.endpoint_discovery_metrics ≡ some metrics
    → metrics.events_processed < 2 ^ 64
    → lookup Text_discrete name (left_by order events this).endpoint_discovery_metrics
      ≡ some (record metrics {
        events_processed =
            (metrics.events_processed + length (events_of name (taken order events this))) % 2 ^ 64;
      })
lookup-left_by order events this name {metrics} e fits =
    let n = length (events_of name (taken order events this)) in
    ap (λ (m : ServiceManager). lookup Text_discrete name m.endpoint_discovery_metrics)
      (left_by_tasks-taken order events [] this)
    ∙ processed_by-counted order (taken order events this) this name
    ∙ ap (Option.map (counted n)) e
    ∙ ap (λ (c : ℕ). some (record metrics { events_processed = c }))
        (stepped-eq n metrics.events_processed fits)
