-- ===== src/Matchmaking/Tests.antt =====
-- The matchmaker with servers that are numbers.
use state_proxy.Base.{
  ℕ, true, false, List, [], ◌∷◌, Text_discrete, ok, lookup, insert, ◌≡◌, refl, codes, returned,
  panicked, ℕ_discrete,
}
use state_proxy.Backend.Manager.{PortEvent, open_port, close_port}
use state_proxy.Matchmaking.{
  Matchmaker, listen, new, register_client, register_server, run, handle_port_events,
  handle_port_event, handle_open, handle_close,
}
use state_proxy.Matchmaking.PortEvents.{run-listens}

abbrev with_server : Matchmaker ℕ ℕ
with_server = record {
  protocol_clients = [];
  protocol_servers = (codes "http", 7) ∷ [];
  open_ports = [];
  calls = [];
}

abbrev with_client : Matchmaker ℕ ℕ
with_client = record with_server { protocol_clients = (codes "http", 9) ∷ [] }

server_registered : register_server (codes "http") 7 (new {C = ℕ}) ≡ ok with_server
unfolding register_server new insert lookup
server_registered = refl

client_registered : register_client (codes "http") 9 with_server ≡ ok with_client
unfolding register_client insert lookup
client_registered = refl

-- The port is opened, closed and opened again: the server is asked twice and never muted.
abbrev reopened : List PortEvent
reopened = open_port 80 (codes "http") ∷ close_port 80 ∷ open_port 80 (codes "http") ∷ []

run-listens_example :
    run false reopened with_server
    ≡ returned (record with_server { calls = listen 7 80 ∷ listen 7 80 ∷ [] })
unfolding lookup Text_discrete ℕ_discrete
run-listens_example = run-listens false reopened with_server refl

run_disconnected : run true reopened with_server ≡ panicked
unfolding run handle_port_events handle_port_event handle_open handle_close lookup Text_discrete
    ℕ_discrete
run_disconnected = refl
