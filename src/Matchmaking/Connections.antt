-- ===== src/Matchmaking/Connections.antt =====
-- src/matchmaking/mod.rs: `new_connection_sender`. Each request spawns a task that asks the service
-- manager for an endpoint and a client for a connection to it, and then reaches the end of what is
-- written. The manager and the matchmaker are those that the task finds when it runs.
use state_proxy.Base.{
  ℕ, ◌+◌, ◌%◌, ◌^◌, List, [], ◌∷◌, lookup, Option, none, some, Text, Text_discrete, Outcome,
  returned, panicked, IterationOrder,
}
use state_proxy.Backend.Endpoint.{EndpointId, Endpoint, SocketAddr}
use state_proxy.Backend.Manager.{ServiceManager}
use state_proxy.Backend.Select.{get_endpoint_for}
use state_proxy.Matchmaking.{Matchmaker}
pub mod Routes

-- `connect` of a client, with the address that it is asked for.
pub record ConnectCall (C : Type 0) : Type 0 where
  pub client : C
  pub address : SocketAddr

-- `i.overflowing_add(1).0`.
unfoldable pub next_index : ℕ → ℕ
next_index i = (i + 1) % 2 ^ 64

-- How a task went: what it asked of a client, and how it ended.
abbrev pub Task : Type 0 → Type 0
Task C = List (ConnectCall C) × Outcome (Unit {0})

-- What a task finds when it runs.
pub record Found (C S : Type 0) : Type 0 where
  pub service_manager : ServiceManager
  pub matchmaker : Matchmaker C S

module _ {C S : Type 0} where
  -- From `get(&protocol)` on: `unwrap`, `connect`, and `unimplemented!()`.
  unfoldable pub connect : Matchmaker C S → SocketAddr × Text → Task C
  connect this (address, protocol) = elim (lookup Text_discrete protocol this.protocol_clients) [
    | none ↦ ([], panicked)
    | some client ↦ (record { client = client; address = address } ∷ [], panicked)
  ]

  -- The task of one request.
  unfoldable pub connection_task :
      IterationOrder (EndpointId × Endpoint) → ℕ → ℕ → Found C S → Task C
  connection_task order port i found = elim (get_endpoint_for order found.service_manager port i) [
    | panicked ↦ ([], panicked)
    | returned answer ↦ elim answer [
      | none ↦ ([], panicked)
      | some endpoint ↦ connect found.matchmaker endpoint
    ]
  ]

  -- The loop over the requests, with what the task of each finds.
  unfoldable pub serve :
      IterationOrder (EndpointId × Endpoint) → ℕ → ℕ → List (Found C S) → List (Task C)
  serve order port i [] = []
  serve order port i (found ∷ requests) =
      connection_task order port (next_index i) found ∷ serve order port (next_index i) requests

  -- `new_connection_sender`: the tasks, in the order of the requests that come over the channel.
  unfoldable pub new_connection_sender :
      IterationOrder (EndpointId × Endpoint) → ℕ → List (Found C S) → List (Task C)
  new_connection_sender order port requests = serve order port 0 requests
