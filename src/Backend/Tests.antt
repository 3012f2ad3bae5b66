-- ===== src/Backend/Tests.antt =====
-- The service manager on concrete values: runs of its operations, and its theorems at work.
use state_proxy.Base.{
  true, false, List, [], ◌∷◌, none, some, ◌≡◌, ◌≢◌, refl, Text, codes, returned, panicked, Returns,
  ◌↔◌, lookup, ℕ_discrete, insert, arith, remove,
}
use state_proxy.Backend.Endpoint.{delete, EndpointId_discrete}
use state_proxy.Backend.Channel.{Sender, send}
use state_proxy.Backend.Manager.{
  PortEvent, open_port, close_port, process_event, process_add, process_delete, remove_endpoint,
  empty_services, close_services, send_event,
}
use state_proxy.Backend.Select.{get_endpoint_for, select, first_available}
use state_proxy.Backend.View.{endpoint_at, after_event}
use state_proxy.Backend.Tables.{IsValid}
use state_proxy.Backend.Effects.{port_events}
use state_proxy.Backend.Deliver.{IsConnected}
use state_proxy.Backend.Process.{
  process_event-returns, endpoint_at-process_event, process_event-eq-panicked_iff,
}
use state_proxy.Backend.Selection.{
  IsOffered, get_endpoint_for-ne-panicked, get_endpoint_for-IsOffered, get_endpoint_for-misses,
}
use state_proxy.Backend.Fixtures.{
  as_stored, k8s, pod, address, web, web_service, listener, serving, idle, add_web, serving-IsValid,
  serving-IsSane, three, three_service,
}

-- A first endpoint opens its port, and the last one to go closes it.
added :
    process_event as_stored k8s add_web (idle (some (listener [] false)))
    ≡ returned (serving false (some (listener (open_port 80 (codes "https") ∷ []) false)))
unfolding process_event process_add send_event send insert lookup ℕ_discrete
added = refl

emptied :
    process_event as_stored k8s (delete (codes "a")) (serving true (some (listener [] false)))
    ≡ returned (idle (some (listener (close_port 80 ∷ []) false)))
unfolding process_event process_delete remove_endpoint empty_services close_services remove
    EndpointId_discrete ℕ_discrete lookup send_event
emptied = refl

process_event-returns_example :
    Returns
      (process_event as_stored k8s (delete (codes "a")) (serving true (some (listener [] false))))
      (λ next. IsValid next.port_service_map × IsConnected next.port_event_sender)
process_event-returns_example =
    process_event-returns as_stored k8s (delete (codes "a"))
      (serving true (some (listener [] false))) (serving-IsValid true) refl

endpoint_at-process_event_example :
    (endpoint_at [] 80 pod
      ≡ after_event k8s (delete (codes "a")) (endpoint_at ((80, web_service true) ∷ [])) 80 pod)
    × (◌≡◌ {A = List Text} [] [])
    × ((idle none).endpoint_discovery_metrics ≡ (serving true none).endpoint_discovery_metrics)
endpoint_at-process_event_example =
    endpoint_at-process_event as_stored k8s (delete (codes "a"))
      (serving true (some (listener [] false))) serving-IsSane 80 pod emptied

process_event-eq-panicked_iff_example :
    (process_event as_stored k8s (delete (codes "a")) (serving true (some (listener [] true)))
      ≡ panicked)
    ↔ ((port_events as_stored k8s (delete (codes "a")) ((80, web_service true) ∷ []) ≢ [])
        × ((sender : Sender PortEvent) × (some (listener [] true) ≡ some sender)
            × (sender.is_closed ≡ true)))
process_event-eq-panicked_iff_example =
    process_event-eq-panicked_iff as_stored k8s (delete (codes "a"))
      (serving true (some (listener [] true))) serving-IsSane

found_one :
    get_endpoint_for as_stored (serving true none) 80 7 ≡ returned (some (address, codes "http"))
unfolding get_endpoint_for select first_available lookup ℕ_discrete
found_one = refl

get_endpoint_for-ne-panicked_example :
    get_endpoint_for as_stored (serving true none) 80 7 ≢ panicked
get_endpoint_for-ne-panicked_example =
    get_endpoint_for-ne-panicked as_stored (serving true none) 80 7 (serving-IsValid true)

get_endpoint_for-IsOffered_example :
    IsOffered ((80, web_service true) ∷ []) 80 (address, codes "http")
get_endpoint_for-IsOffered_example =
    get_endpoint_for-IsOffered as_stored (serving true none) 80 7 (address, codes "http")
      (serving-IsValid true) found_one

get_endpoint_for-misses_example : get_endpoint_for as_stored three 80 2 ≡ returned none
get_endpoint_for-misses_example =
    get_endpoint_for-misses as_stored three 80 2 three_service (web false ∷ []) (web true ∷ [])
      (web false ∷ []) refl refl (omega arith) refl (refl, tt) (refl, tt)
