-- ===== src/Backend/PanicTests.antt =====
-- Events that end in a panic, and the choice of an endpoint, on concrete values.
use mathlib.Core.List.{Nodup-cons, not-mem-nil, eq-or-mem_of_mem-cons}
use mathlib.Core.Logic.Or
use state_proxy.Base.{
  ◌+◌, ◌%◌, ◌^◌, length, ◌++◌, ◌∙◌, List, Text, ◌≢◌, ℕ, [], ◌∷◌, some, ◌≡◌, refl, codes, returned,
  panicked, true, false, lookup, ℕ_discrete, Text_discrete, insert, remove, arith, ap, sym,
  contains,
}
use state_proxy.Backend.Endpoint.{EndpointEvent, delete, EndpointId_discrete}
use state_proxy.Backend.Channel.{send}
use state_proxy.Backend.Manager.{
  Service, ServiceManager, open_port, process_event, remove_endpoint, empty_services, send_event,
  send_port_events_to, announce, new,
}
use state_proxy.Backend.Discovery.{count_event}
use state_proxy.Backend.Select.{get_endpoint_for, first_available}
use state_proxy.Backend.View.{endpoint_at, replay, no_ports, protocol_at}
use state_proxy.Backend.Tables.{IsSane, IsValid}
use state_proxy.Backend.Effects.{vacated_ports}
use state_proxy.Backend.InPlace.{Ended, process_in_place, add_in_place, close_in_place, notify}
use state_proxy.Backend.Aborted.{get_endpoint_for-process_in_place}
use state_proxy.Backend.KeptRuns
use state_proxy.Backend.KeptRuns.{KeptReach, KeptReach-IsValid}
use state_proxy.Backend.PanicRuns.{
  PanicReach, here, after, processed, listener_set, listener_gone, replay-protocol_at_panic,
  PanicReach-IsSane,
}
use state_proxy.Backend.Counters.{lookup-left_by}
use state_proxy.Backend.Isolation.{left_by, taken, events_of, endpoint_at-left_by}
use state_proxy.Backend.Rotation.{rotated, get_endpoint_for-rotated}
use state_proxy.Backend.Fixtures.{
  as_stored, k8s, pod, web, web_service, listener, serving, idle, add_web, singleton-Nodup, three,
  three_service,
}

-- An endpoint behind two ports, and a listener that has gone.
abbrev second_service : Service
second_service = record (web_service true) { port = 81 }

abbrev twice : ServiceManager
twice = record (serving true (some (listener [] true))) {
  port_service_map = (80, web_service true) ∷ (81, second_service) ∷ [];
}

twice-IsSane : IsSane twice.port_service_map
twice-IsSane = record {
  distinct_ports = Nodup-cons.1 (
    λ h. Or.elim (hlevel) (eq-or-mem_of_mem-cons h) (λ (same : 80 ≡ 81). omega arith) not-mem-nil,
    singleton-Nodup 81,
  );
  placed = (
    record { at_port = refl; distinct = singleton-Nodup pod },
    (record { at_port = refl; distinct = singleton-Nodup pod }, tt),
  );
}

twice_vacated : vacated_ports as_stored pod twice.port_service_map ≡ 80 ∷ 81 ∷ []
unfolding remove_endpoint empty_services remove EndpointId_discrete Text_discrete ℕ_discrete
twice_vacated = refl

among : contains ℕ_discrete 81 (81 ∷ []) ≡ true
unfolding contains ℕ_discrete
among = refl

get_endpoint_for-process_in_place_example :
    get_endpoint_for as_stored (process_in_place as_stored k8s (delete (codes "a")) twice).1 81 3
    ≡ panicked
get_endpoint_for-process_in_place_example =
    get_endpoint_for-process_in_place as_stored k8s (codes "a") twice refl refl twice-IsSane
      twice_vacated as_stored 81 3 among

-- A listener is set, and is gone when the first endpoint comes; a second listener is set then.
told_panics :
    process_in_place as_stored k8s add_web (idle (some (listener [] true)))
    ≡ (panicked, serving false (some (listener [] true)))
unfolding process_in_place add_in_place notify send_event send insert lookup ℕ_discrete
told_panics = refl

abbrev told : ServiceManager
told = serving false (some (listener (open_port 80 (codes "https") ∷ []) false))

pub panicking : PanicReach as_stored told
unfolding new count_event send_port_events_to announce lookup send
panicking =
    after
      (after (after (after here (listener_set (listener [] false) refl refl)) (listener_gone refl))
        (processed k8s add_web (ap (λ (e : Ended). e.1) (sym told_panics))))
      (listener_set (listener [] false) refl refl)

PanicReach-IsSane_example : IsSane told.port_service_map
PanicReach-IsSane_example = PanicReach-IsSane as_stored panicking

-- A listener is set and told of the first endpoint.
told_at_once :
    process_in_place as_stored k8s add_web (idle (some (listener [] false))) ≡ (returned tt, told)
unfolding process_in_place add_in_place notify send_event send insert lookup ℕ_discrete
told_at_once = refl

kept : KeptReach as_stored told
unfolding new count_event send_port_events_to announce lookup
kept =
    KeptRuns.after (KeptRuns.after KeptRuns.here (listener_set (listener [] false) refl refl) refl)
      (processed k8s add_web (ap (λ (e : Ended). e.1) (sym told_at_once))) refl

KeptReach-IsValid_example :
    IsValid ((80, web_service false) ∷ [])
    × (process_event as_stored k8s (delete (codes "a")) (count_event k8s told) ≢ panicked)
KeptReach-IsValid_example = KeptReach-IsValid as_stored k8s (delete (codes "a")) kept

replay-protocol_at_panic_example :
    replay (open_port 80 (codes "https") ∷ []) no_ports 80 ≡ protocol_at told.port_service_map 80
replay-protocol_at_panic_example =
    replay-protocol_at_panic as_stored (listener (open_port 80 (codes "https") ∷ []) false) 80
      panicking refl refl

get_endpoint_for-rotated_example :
    get_endpoint_for as_stored three 80 4
    ≡ returned (first_available (rotated 1 (web false ∷ web true ∷ web false ∷ [])))
get_endpoint_for-rotated_example =
    get_endpoint_for-rotated as_stored three 80 4 three_service (λ c. cc) (omega arith)

-- Events of two discoveries, one after the other and the other way round. The first of `k8s` makes its
-- task panic, and its second is never taken.
abbrev dns : Text
dns = codes "dns"

abbrev both : List (Text × EndpointEvent)
both = (k8s, delete (codes "a")) ∷ (dns, add_web) ∷ []

abbrev swapped : List (Text × EndpointEvent)
swapped = (dns, add_web) ∷ (k8s, delete (codes "a")) ∷ []

abbrev and_one_more : List (Text × EndpointEvent) → List (Text × EndpointEvent)
and_one_more events = events ++ (k8s, delete (codes "b")) ∷ []

both-taken : taken as_stored (and_one_more both) twice ≡ both
unfolding process_in_place add_in_place close_in_place notify send_event send insert lookup
    ℕ_discrete remove_endpoint empty_services remove EndpointId_discrete Text_discrete count_event
    contains
both-taken = refl

swapped-taken : taken as_stored (and_one_more swapped) twice ≡ swapped
unfolding process_in_place add_in_place close_in_place notify send_event send insert lookup
    ℕ_discrete remove_endpoint empty_services remove EndpointId_discrete Text_discrete count_event
    contains
swapped-taken = refl

k-ne-d : (n : ℕ) → n ≡ 107 → n ≢ 100
k-ne-d n is_k is_d = omega arith

abbrev first : Text → ℕ
first [] = 0
first (c ∷ _) = c

same_order : (name : Text) → events_of name both ≡ events_of name swapped
same_order name = elim (Text_discrete name k8s) [
  | yes ours ↦ elim (Text_discrete name dns) [
    | yes theirs ↦ absurd (k8s-ne-dns (sym ours ∙ theirs))
    | no foreign ↦ ground arith
  ]
  | no off ↦ elim (Text_discrete name dns) [ yes theirs ↦ ground arith | no foreign ↦ ground arith ]
]
  where
    k8s-ne-dns : k8s ≢ dns
    k8s-ne-dns same = k-ne-d (first k8s) refl (ap first same)

same_events :
    (name : Text)
    → events_of name (taken as_stored (and_one_more both) twice)
      ≡ events_of name (taken as_stored (and_one_more swapped) twice)
same_events name =
    ap (events_of name) both-taken ∙ same_order name ∙ sym (ap (events_of name) swapped-taken)

endpoint_at-left_by_example :
    endpoint_at (left_by as_stored (and_one_more both) twice).port_service_map 80 pod
    ≡ endpoint_at (left_by as_stored (and_one_more swapped) twice).port_service_map 80 pod
endpoint_at-left_by_example =
    endpoint_at-left_by as_stored as_stored (and_one_more both) (and_one_more swapped) twice
      twice-IsSane same_events 80 pod

-- The counters of two discoveries, of which one has sent nothing before.
abbrev counting : ServiceManager
counting = record twice {
  endpoint_discovery_metrics =
      (k8s, record { events_processed = 3 }) ∷ (dns, record { events_processed = 0 }) ∷ [];
}

its_counter :
    lookup Text_discrete k8s counting.endpoint_discovery_metrics
    ≡ some (record { events_processed = 3 })
unfolding lookup Text_discrete ℕ_discrete
its_counter = refl

lookup-left_by_example :
    lookup Text_discrete k8s
      (left_by as_stored (and_one_more both) counting).endpoint_discovery_metrics
    ≡ some (record {
      events_processed =
          (3 + length (events_of k8s (taken as_stored (and_one_more both) counting))) % 2 ^ 64;
    })
lookup-left_by_example =
    lookup-left_by as_stored (and_one_more both) counting k8s its_counter (omega arith)
