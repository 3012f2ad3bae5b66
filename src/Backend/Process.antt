-- ===== src/Backend/Process.antt =====
-- What `process_event` guarantees in one step.
use state_proxy.Base.{
  ℕ, [], some, ◌≡◌, ◌∙◌, ap, sym, arith, IterationOrder, Text, true, ◌≢◌, ◌↔◌, returned, panicked,
  ◌>>=◌, Returns, >>=-eq-returned, >>=-returned-eq-panicked,
}
use state_proxy.Backend.Endpoint.{EndpointEvent, EndpointId}
use state_proxy.Backend.Channel.{Sender}
use state_proxy.Backend.Manager.{Service, ServiceManager, PortEvent, process_event}
use state_proxy.Backend.View.{endpoint_at, after_event}
use state_proxy.Backend.Tables.{IsSane, IsValid-IsSane, IsValid}
use state_proxy.Backend.Effects.{deliver, next_map, port_events, with_ports, process_event-deliver}
use state_proxy.Backend.Refinement.{endpoint_at-next_map}
use state_proxy.Backend.Invariant.{next_map-IsValid}
use state_proxy.Backend.Deliver.{
  IsConnected, queue, deliver-queue, deliver_connected, queue-IsConnected, closed_of_panicked,
  panicked_of_closed,
}

module _ (order : IterationOrder (ℕ × Service)) (from : Text) (event : EndpointEvent)
    (this : ServiceManager) (v : IsSane this.port_service_map) where
  -- What an event leaves, if it returns.
  pub process_event-returned :
      {next : ServiceManager}
      → process_event order from event this ≡ returned next
      → next
        ≡ with_ports this
            (next_map order from event this.port_service_map)
            (queue (port_events order from event this.port_service_map) this.port_event_sender)
  process_event-returned {next} h =
      let events = port_events order from event this.port_service_map in
      let (sender, e, f) =
        >>=-eq-returned (deliver events this.port_event_sender) _
          (sym (process_event-deliver order from event this v) ∙ h) in
      let q = deliver-queue events this.port_event_sender e in ground arith

  -- With a port map in which no port and no identity comes twice and each service stands under its own
  -- port, an event that is processed leaves, behind every port and under every
  -- identity, exactly the endpoint that the event says, and keeps the registered names and the
  -- counters.
  pub endpoint_at-process_event :
      {next : ServiceManager} (port : ℕ) (i : EndpointId)
      → process_event order from event this ≡ returned next
      → (endpoint_at next.port_service_map port i
          ≡ after_event from event (endpoint_at this.port_service_map) port i)
        × (next.registered_endpoint_discovery_names ≡ this.registered_endpoint_discovery_names)
        × (next.endpoint_discovery_metrics ≡ this.endpoint_discovery_metrics)
  endpoint_at-process_event port i h =
      let e = process_event-returned h in
      (
        ap (λ (s : ServiceManager). endpoint_at s.port_service_map port i) e
            ∙ endpoint_at-next_map order from event this.port_service_map port i v,
        ap (λ (s : ServiceManager). s.registered_endpoint_discovery_names) e,
        ap (λ (s : ServiceManager). s.endpoint_discovery_metrics) e,
      )

  -- With a port map in which no port and no identity comes twice and each service stands under its own
  -- port, an event makes the task panic exactly when it has a port event to send and the receiver
  -- of the port events is gone.
  pub process_event-eq-panicked_iff : (process_event order from event this ≡ panicked) ↔ (
      (port_events order from event this.port_service_map ≢ [])
      × ((sender : Sender PortEvent) × (this.port_event_sender ≡ some sender)
          × (sender.is_closed ≡ true)))
  process_event-eq-panicked_iff =
      let events = port_events order from event this.port_service_map in
      let e = process_event-deliver order from event this v in
      (
        λ h.
            closed_of_panicked events this.port_event_sender
              (>>=-returned-eq-panicked (deliver events this.port_event_sender) _ (sym e ∙ h)),
        λ h. rw (e, panicked_of_closed events this.port_event_sender h),
      )

module _ (order : IterationOrder (ℕ × Service)) (from : Text) (event : EndpointEvent)
    (this : ServiceManager) (v : IsValid this.port_service_map) where
  -- With a valid port map, and with no listener or one that is still there, an event is processed
  -- without a panic, and the map is valid afterwards with the listener still there.
  pub process_event-returns :
      IsConnected this.port_event_sender
      → Returns
          (process_event order from event this)
          (λ next. IsValid next.port_service_map × IsConnected next.port_event_sender)
  process_event-returns c =
      let events = port_events order from event this.port_service_map in
      let sender = queue events this.port_event_sender in
      (
        with_ports this (next_map order from event this.port_service_map) sender,
        process_event-deliver order from event this (IsValid-IsSane this.port_service_map v)
            ∙ ap
                (λ o. o >>= λ s.
                  returned (with_ports this (next_map order from event this.port_service_map) s))
                (deliver_connected events this.port_event_sender c),
        (
          next_map-IsValid order from event this.port_service_map v,
          queue-IsConnected events this.port_event_sender c,
        ),
      )
