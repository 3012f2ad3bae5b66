-- ===== src/Served/Tests.antt =====
-- One pod, from its event to the choice of its endpoint.
use mathlib.Core.List.{Nodup-nil}
use state_proxy.Base.{
  ◌∙◌, sym, Result, ◌∷◌, [], List, Text, Text_discrete, ℕ_discrete, some, none, ok, true, returned,
  ◌≡◌, ◌≢◌, refl, ap, ◌>>=◌, codes, contains, lookup, insert, remove,
}
use state_proxy.Backend.Endpoint.{
  v4, EndpointEvent, EndpointId, EndpointId_discrete, delete, resume,
}
use state_proxy.Backend.Manager
use state_proxy.Backend.Manager.{
  send_event, remove_endpoint, empty_services, update_services, update_endpoint, resume_endpoint,
}
use state_proxy.Backend.Discovery.{listen_for_discovery_events, count_event}
use state_proxy.Backend.InPlace.{process_in_place, add_in_place, close_in_place, notify}
use state_proxy.Backend.View.{endpoint_at}
use state_proxy.Backend.Tables.{IsSane}
use state_proxy.Backend.Isolation.{left_by, taken, events_of}
use state_proxy.Kubernetes.Monad.{continue, pure, Error, Runtime}
use state_proxy.Kubernetes.Services.{sending, add_of}
use state_proxy.Kubernetes.Pods.{handle_pod_event-applied_first}
use state_proxy.Served.Announced.{endpoint_for, endpoint_at-handle_pod_event}
use state_proxy.Served.Known.{endpoint_at-left_by-watch}
use state_proxy.Backend.Select.{get_endpoint_for}
use state_proxy.Kubernetes.Pod.{applied}
use state_proxy.Kubernetes.Runtime.{handle_pod_event, watch}
use state_proxy.Kubernetes.Tests.{
  as_stored, parse, idle, https, https-IsWellFormed, ready, found, ready-IsComplete, its_services,
}
use state_proxy.Served.{wakeups, get_endpoint_for-handle_pod_event}

get_endpoint_for-handle_pod_event_example :
    (listen_for_discovery_events as_stored
        (codes "k8s")
        (wakeups (handle_pod_event parse as_stored (applied ready) (idle [])).1.sender.sent)
        Manager.new
      >>= λ manager. get_endpoint_for as_stored manager 443 5)
    ≡ returned (some (record { ip = v4 1; port = 8080 }, codes "http"))
unfolding state_proxy.Base.contains
get_endpoint_for-handle_pod_event_example =
    get_endpoint_for-handle_pod_event parse as_stored ready found (idle []) https as_stored
      as_stored (codes "k8s") 5 ready-IsComplete refl refl refl its_services https-IsWellFormed refl

abbrev pod_id : EndpointId
pod_id = record { endpoint_discovery_name = codes "k8s"; uid = codes "a" }

abbrev announced : List EndpointEvent
announced = add_of (codes "a") (v4 1) https ∷ resume (codes "a") ∷ []

abbrev processed_events : List (Text × EndpointEvent)
processed_events =
    (codes "k8s", add_of (codes "a") (v4 1) https)
    ∷ (codes "dns", delete (codes "a"))
    ∷ (codes "k8s", resume (codes "a"))
    ∷ []

handled :
    handle_pod_event parse as_stored (applied ready) (idle [])
    ≡ (ok tt, sending announced (idle (codes "a" ∷ [])))
unfolding contains
handled =
    handle_pod_event-applied_first parse as_stored ready found ready-IsComplete (idle []) refl https
      [] refl its_services https-IsWellFormed tt refl

watched :
    watch parse as_stored (applied ready ∷ []) (idle [])
    ≡ (ok tt, sending announced (idle (codes "a" ∷ [])))
unfolding watch
watched = ap (λ s. continue s (λ _. pure tt)) handled

own_events : events_of (codes "k8s") (taken as_stored processed_events Manager.new) ≡ announced
unfolding Manager.new lookup process_in_place add_in_place close_in_place notify send_event insert
    remove_endpoint empty_services update_services update_endpoint resume_endpoint count_event
    Text_discrete ℕ_discrete EndpointId_discrete remove contains
own_events = refl

empty-IsSane : IsSane Manager.new.port_service_map
unfolding Manager.new
empty-IsSane = record { distinct_ports = Nodup-nil; placed = tt }

nothing_before : endpoint_at Manager.new.port_service_map 443 pod_id ≡ none
unfolding Manager.new lookup
nothing_before = refl

there_after :
    endpoint_at (left_by as_stored processed_events Manager.new).port_service_map 443 pod_id ≢ none
unfolding Manager.new lookup process_in_place add_in_place close_in_place notify send_event insert
    remove_endpoint empty_services update_services update_endpoint resume_endpoint count_event
    Text_discrete ℕ_discrete EndpointId_discrete remove contains
there_after = λ e. cc

endpoint_at-left_by-watch_example : contains Text_discrete (codes "a") (codes "a" ∷ []) ≡ true
endpoint_at-left_by-watch_example =
    endpoint_at-left_by-watch parse as_stored as_stored (applied ready ∷ []) (idle [])
      processed_events Manager.new 443 pod_id refl watched own_events empty-IsSane nothing_before
      there_after

endpoint_at-handle_pod_event_example :
    endpoint_at (left_by as_stored processed_events Manager.new).port_service_map 443 pod_id
    ≡ some (endpoint_for (v4 1) https)
unfolding state_proxy.Base.contains
endpoint_at-handle_pod_event_example =
    endpoint_at-handle_pod_event parse as_stored ready found (idle []) https https [] [] []
      as_stored (codes "k8s") processed_events Manager.new ready-IsComplete refl refl refl
      its_services https-IsWellFormed tt refl refl tt
      (own_events ∙ sym (ap (λ (r : Result Error (Unit {0}) × Runtime). r.1.sender.sent) handled))
      empty-IsSane
