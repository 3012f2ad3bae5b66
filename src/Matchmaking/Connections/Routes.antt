-- ===== src/Matchmaking/Connections/Routes.antt =====
-- Which endpoints the connection tasks reach.
use mathlib.Core.Option
use mathlib.Core.Logic.{∥∥₁_map}
use native.Mathlib.Nat.{mod-eq_of_lt}
use state_proxy.Base.{
  ℕ, zero, suc, ◌+◌, ◌%◌, ◌^◌, ◌<◌, List, [], ◌∷◌, ◌++◌, lookup, Option, none, some, Text,
  Text_discrete, ℕ_discrete, Outcome, returned, panicked, IterationOrder, ◌≡◌, ◌≢◌, refl, ap, sym,
  ◌∙◌, arith, Option-cases, inl, inr, All, values, length, get_elem?, replicate,
}
use state_proxy.Backend.Endpoint.{EndpointId, Endpoint, SocketAddr}
use state_proxy.Backend.Manager.{Service}
use state_proxy.Backend.Select.{get_endpoint_for}
use state_proxy.Backend.View.{endpoint_at}
use state_proxy.Backend.Tables.{IsValid}
use state_proxy.Backend.Selection.{IsOffered, get_endpoint_for-IsOffered}
use state_proxy.Backend.Rotation.{IsAvailable}
use state_proxy.Backend.Fairness.{get_endpoint_for-reaches}
use state_proxy.Matchmaking.{Matchmaker}
use state_proxy.Matchmaking.Connections.{
  ConnectCall, Found, Task, next_index, connect, connection_task, serve, new_connection_sender,
}

module _ {C S : Type 0} where
  -- A call goes to an address that the manager offers for the port, with the client of its protocol.
  abbrev pub IsRouted : Found C S → ℕ → ConnectCall C → Type 0
  IsRouted found port call =
      (protocol : Text) × (lookup Text_discrete protocol found.matchmaker.protocol_clients
        ≡ some call.client)
      × IsOffered found.service_manager.port_service_map port (call.address, protocol)

  connect-All :
      (P : ConnectCall C → Type 0) (this : Matchmaker C S) (endpoint : SocketAddr × Text)
      → ((client : C)
          → lookup Text_discrete endpoint.1 this.protocol_clients ≡ some client
          → P (record { client = client; address = endpoint.0 }))
      → All P (connect this endpoint).0
  unfolding connect
  connect-All P this (address, protocol) h =
      elim (Option-cases (lookup Text_discrete protocol this.protocol_clients)) [
        | inl gone ↦ rw (gone, connect) tt
        | inr (client, e) ↦ rw (e, connect) (h client e, tt)
      ]

  answer-IsRouted :
      (order : IterationOrder (EndpointId × Endpoint)) (port i : ℕ) (found : Found C S)
      → IsValid found.service_manager.port_service_map
      → (o : Outcome (Option (SocketAddr × Text)))
      → get_endpoint_for order found.service_manager port i ≡ o
      → All (IsRouted found port) (connection_task order port i found).0
  unfolding connection_task
  answer-IsRouted order port i found v panicked e = rw (e, connection_task) tt
  answer-IsRouted order port i found v (returned none) e = rw (e, connection_task) tt
  answer-IsRouted order port i found v (returned (some endpoint)) e =
      rw (e, connection_task)
        (connect-All (IsRouted found port) found.matchmaker endpoint (λ client known. (
          endpoint.1,
          known,
          get_endpoint_for-IsOffered order found.service_manager port i endpoint v e,
        )))

  serve-get_elem? :
      (order : IterationOrder (EndpointId × Endpoint)) (port i : ℕ) (requests : List (Found C S))
      (k : ℕ)
      → get_elem? (serve order port i requests) k
        ≡ Option.map (connection_task order port ((i + suc k) % 2 ^ 64)) (get_elem? requests k)
  unfolding serve next_index
  serve-get_elem? order port i [] k = refl
  serve-get_elem? order port i (found ∷ requests) zero = refl
  serve-get_elem? order port i (found ∷ requests) (suc k) =
      let moved : ((i + 1) % 2 ^ 64 + suc k) % 2 ^ 64 ≡ (i + suc (suc k)) % 2 ^ 64 = omega arith in
      serve-get_elem? order port (next_index i) requests k
      ∙ ap (λ (n : ℕ). Option.map (connection_task order port n) (get_elem? requests k)) moved

  -- The index of a request is its position, from one on, as a `usize` counts.
  pub new_connection_sender-get_elem? :
      (order : IterationOrder (EndpointId × Endpoint)) (port : ℕ) (requests : List (Found C S))
      (k : ℕ)
      → get_elem? (new_connection_sender order port requests) k
        ≡ Option.map (connection_task order port (suc k % 2 ^ 64)) (get_elem? requests k)
  unfolding new_connection_sender
  new_connection_sender-get_elem? order port requests k =
      let whole : 0 + suc k ≡ suc k = omega arith in
      serve-get_elem? order port 0 requests k
      ∙ ap (λ (n : ℕ). Option.map (connection_task order port (n % 2 ^ 64)) (get_elem? requests k))
          whole

  -- A task that finds a valid port map asks only for connections to addresses of available endpoints of
  -- its port, from the client that is registered for the endpoint's protocol.
  pub new_connection_sender-IsRouted :
      (order : IterationOrder (EndpointId × Endpoint)) (port : ℕ) (requests : List (Found C S))
      (k : ℕ) (found : Found C S) (task : Task C)
      → get_elem? requests k ≡ some found
      → get_elem? (new_connection_sender order port requests) k ≡ some task
      → IsValid found.service_manager.port_service_map
      → All (IsRouted found port) task.0
  new_connection_sender-IsRouted order port requests k found task at there v =
      let same : task ≡ connection_task order port (suc k % 2 ^ 64) found =
        let which = new_connection_sender-get_elem? order port requests k in ground arith in
      rw same (answer-IsRouted order port (suc k % 2 ^ 64) found v _ refl)

  -- The elements behind a prefix that are all the same.
  get_elem?-replicate :
      (before : List (Found C S)) (n k : ℕ) (found : Found C S)
      → k < n
      → get_elem? (before ++ replicate n found) (length before + k) ≡ some found
  get_elem?-replicate [] zero k found h = elim h [ ]
  get_elem?-replicate [] (suc n) zero found h = refl
  get_elem?-replicate [] (suc n) (suc k) found h =
      let same : 0 + suc k ≡ suc k = omega arith in
      let rest : 0 + k ≡ k = omega arith in
      ap (λ (j : ℕ). get_elem? (replicate (suc n) found) j) same
      ∙ ap (λ (j : ℕ). get_elem? (replicate n found) j) (sym rest)
      ∙ get_elem?-replicate [] n k found (omega arith)
  get_elem?-replicate (x ∷ before) n k found h =
      let same : suc (length before) + k ≡ suc (length before + k) = omega arith in
      ap (λ (j : ℕ). get_elem? (x ∷ before ++ replicate n found) j) same
      ∙ get_elem?-replicate before n k found h

  -- While nothing changes and the counter does not wrap around, as many requests in a row as a port has
  -- endpoints, all of them available, make the tasks ask for a connection to every one of the endpoints
  -- whose protocol has a client, whatever requests came before; and those tasks then panic.
  pub new_connection_sender-reaches :
      (order : IterationOrder (EndpointId × Endpoint)) (port : ℕ) (before : List (Found C S))
      (found : Found C S) {service : Service}
      → lookup ℕ_discrete port found.service_manager.port_service_map ≡ some service
      → service.endpoints ≢ []
      → All IsAvailable (values (order.arrange service.endpoints))
      → length before + length service.endpoints < 2 ^ 64
      → (i : EndpointId) (x : Endpoint) (client : C)
      → endpoint_at found.service_manager.port_service_map port i ≡ some x
      → lookup Text_discrete x.protocol found.matchmaker.protocol_clients ≡ some client
      → ∥ (
          (k : ℕ) × (k < length service.endpoints)
          × (get_elem?
                (new_connection_sender order port
                  (before ++ replicate (length service.endpoints) found))
                (length before + k)
              ≡ some (record { client = client; address = x.address } ∷ [], panicked))) ∥₁
  unfolding connection_task connect
  new_connection_sender-reaches order port before found {service} e some_endpoint up room i x client
        there known =
      let n = length service.endpoints in
      let start = length before in
      let requests = before ++ replicate n found in
      ∥∥₁_map
        (get_endpoint_for-reaches order found.service_manager port (start + 1) e some_endpoint up i
          x there)
        (λ (k, small, chosen).
          let index : suc (start + k) % 2 ^ 64 ≡ start + 1 + k =
            mod-eq_of_lt (omega arith) ∙ omega arith in
          (
            k,
            small,
            new_connection_sender-get_elem? order port requests (start + k)
                ∙ ap (Option.map (connection_task order port (suc (start + k) % 2 ^ 64)))
                    (get_elem?-replicate before n k found small)
                ∙ ap (λ (j : ℕ). some (connection_task order port j found)) index
                ∙ ap some (rw (chosen, connection_task, connect, known) refl),
          ))
