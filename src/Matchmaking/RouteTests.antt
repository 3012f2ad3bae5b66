-- ===== src/Matchmaking/RouteTests.antt =====
-- The matchmaker with a service manager, on concrete values.
use state_proxy.Base.{
  ℕ, ◌+◌, ◌<◌, true, false, [], ◌∷◌, some, none, Text_discrete, lookup, ◌≡◌, refl, codes, returned,
  panicked, ℕ_discrete, All, get_elem?, arith,
}
use state_proxy.Backend.Manager.{open_port}
use state_proxy.Backend.Endpoint.{EndpointId_discrete}
use state_proxy.Backend.View.{endpoint_at}
use state_proxy.Backend.Select.{get_endpoint_for, select, first_available}
use state_proxy.Backend.Fixtures.{
  as_stored, pod, address, web, web_service, serving, serving-IsValid, its_service, listener,
}
use state_proxy.Backend.PanicTests.{panicking}
use state_proxy.Matchmaking.{
  Matchmaker, listen, run, handle_port_events, handle_port_event, handle_open,
}
use state_proxy.Matchmaking.Connections.{
  Found, Task, serve, new_connection_sender, connection_task, connect, next_index,
}
use state_proxy.Matchmaking.Connections.Routes.{
  IsRouted, new_connection_sender-IsRouted, new_connection_sender-reaches,
}
use state_proxy.Matchmaking.Listening.{IsListening, run-IsListening}

abbrev with_both : Matchmaker ℕ ℕ
with_both = record {
  protocol_clients = (codes "http", 9) ∷ [];
  protocol_servers = (codes "https", 7) ∷ [];
  open_ports = [];
  calls = [];
}

abbrev found : Found ℕ ℕ
found = record { service_manager = serving true none; matchmaker = with_both }

abbrev task : Task ℕ
task = (record { client = 9; address = address } ∷ [], panicked)

task_ran : get_elem? (new_connection_sender as_stored 80 (found ∷ [])) 0 ≡ some task
unfolding new_connection_sender serve connection_task connect next_index get_endpoint_for select
    first_available lookup ℕ_discrete Text_discrete
task_ran = refl

new_connection_sender-IsRouted_example : All (IsRouted found 80) task.0
new_connection_sender-IsRouted_example =
    new_connection_sender-IsRouted as_stored 80 (found ∷ []) 0 found task refl task_ran
      (serving-IsValid true)

its_entry : endpoint_at ((80, web_service true) ∷ []) 80 pod ≡ some (web true)
unfolding lookup ℕ_discrete EndpointId_discrete Text_discrete
its_entry = refl

its_client : lookup Text_discrete (codes "http") with_both.protocol_clients ≡ some 9
unfolding lookup Text_discrete ℕ_discrete
its_client = refl

new_connection_sender-reaches_example : ∥ (
    (k : ℕ) × (k < 1)
    × (get_elem? (new_connection_sender as_stored 80 (found ∷ found ∷ [])) (1 + k)
        ≡ some (record { client = 9; address = address } ∷ [], panicked))) ∥₁
new_connection_sender-reaches_example =
    new_connection_sender-reaches as_stored 80 (found ∷ []) found (its_service true) (λ c. cc)
      (refl, tt) (omega arith) pod (web true) 9 its_entry its_client

listened :
    run false (open_port 80 (codes "https") ∷ []) with_both
    ≡ returned (record with_both { calls = listen 7 80 ∷ [] })
unfolding run handle_port_events handle_port_event handle_open lookup Text_discrete ℕ_discrete
listened = refl

run-IsListening_example :
    IsListening with_both.protocol_servers (listen 7 80 ∷ []) 80 (codes "https")
unfolding lookup ℕ_discrete
run-IsListening_example =
    run-IsListening as_stored (listener (open_port 80 (codes "https") ∷ []) false) with_both
      (record with_both { calls = listen 7 80 ∷ [] }) 80 (codes "https") panicking refl refl refl
      listened refl
