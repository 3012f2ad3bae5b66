-- ===== src/Backend/Select.antt =====
-- src/backend/mod.rs: `get_endpoint_for`. The endpoints of a service come in the order in which its
-- table is iterated.
use state_proxy.Base.{
  ℕ, ◌-◌, ◌%◌, List, [], ◌∷◌, lookup, Option, none, some, Text, ℕ_discrete, Outcome, returned,
  panicked, IterationOrder, if◌then◌else◌, ltb, ◌==◌, take, drop, length, values,
}
use state_proxy.Backend.Endpoint.{EndpointId, Endpoint, SocketAddr}
use state_proxy.Backend.Manager.{ServiceManager}

-- A loop over candidates: the first one that is available.
unfoldable pub first_available : List Endpoint → Option (SocketAddr × Text)
first_available [] = none
first_available (candidate ∷ candidates) =
    if candidate.is_available
    then some (candidate.address, candidate.protocol)
    else first_available candidates

-- The two loops, over the part behind the index and over the part before; the end of the second part is
-- a difference that panics if the index is larger than the number of endpoints.
unfoldable pub select : ℕ → List Endpoint → ℕ → Outcome (Option (SocketAddr × Text))
select n_endpoints candidates index = elim (first_available (drop index candidates)) [
  | some found ↦ returned (some found)
  | none ↦
      if ltb n_endpoints index
      then panicked
      else returned (first_available (take (n_endpoints - index) candidates))
]

-- The remainder by zero panics.
unfoldable pub get_endpoint_for :
    IterationOrder (EndpointId × Endpoint)
    → ServiceManager
    → ℕ
    → ℕ
    → Outcome (Option (SocketAddr × Text))
get_endpoint_for order this port index = elim (lookup ℕ_discrete port this.port_service_map) [
  | none ↦ returned none
  | some service ↦
      let n_endpoints = length service.endpoints in
      if n_endpoints == 0
      then panicked
      else select n_endpoints (values (order.arrange service.endpoints)) (index % n_endpoints)
]
