-- ===== src/Backend/Fairness.antt =====
-- The spread of connections over the endpoints of a port.
use native.Mathlib.Nat.{add-mod-mod, add-mul-mod_self_left, mod-eq_of_lt, mod-add-div, mod-lt}
use mathlib.Core.Option
use mathlib.Core.Logic.{∥∥₁_map}
use mathlib.Core.Logic.Or
use mathlib.Core.List.{not-mem-nil, eq-or-mem_of_mem-cons}
use state_proxy.Base.{
  ℕ, suc, ◌+◌, ◌-◌, ◌*◌, ◌/◌, ◌%◌, ◌<◌, List, [], ◌∷◌, lookup, Option, some, ℕ_discrete, ◌≡◌, ◌≢◌,
  ◌∙◌, ap, sym, arith, returned, IterationOrder, length, values, All, get_elem?, Mem,
}
use state_proxy.Backend.Endpoint.{EndpointId, EndpointId_discrete, Endpoint}
use state_proxy.Backend.Manager.{Service, ServiceManager}
use state_proxy.Backend.Select.{get_endpoint_for}
use state_proxy.Backend.View.{endpoint_at}
use state_proxy.Backend.Candidates.{length-values, mem_of_entry, length-ne-zero}
use state_proxy.Backend.Rotation.{offer, IsAvailable, get_endpoint_for-get_elem?}

-- The distance from a start to a position, in a circle.
distance : ℕ → ℕ → ℕ → ℕ
distance n start j = (j + (n - start % n)) % n

distance_lem : (n start j : ℕ) → j < n → (start + distance n start j) % n ≡ j
unfolding distance
distance_lem n start j h =
    let parts = mod-add-div start n in
    let small : start % n < n = mod-lt start (omega arith) in
    let whole : start + (j + (n - start % n)) ≡ j + n * (start / n + 1) = grind arith in
    add-mod-mod start (j + (n - start % n)) n
    ∙ ap (λ (a : ℕ). a % n) whole
    ∙ add-mul-mod_self_left j n (start / n + 1)
    ∙ mod-eq_of_lt h

position_of_mem :
    (x : Endpoint) (xs : List Endpoint)
    → Mem x xs
    → ∥ ((j : ℕ) × (j < length xs) × (get_elem? xs j ≡ some x)) ∥₁
position_of_mem x [] h = absurd (not-mem-nil h)
position_of_mem x (y ∷ xs) h =
    Or.elim (hlevel) (eq-or-mem_of_mem-cons h) (λ here. ∣ (0, omega arith, ap some (sym here)) ∣₁)
      (λ there. ∥∥₁_map (position_of_mem x xs there) (λ (j, small, at). (suc j, omega arith, at)))

module _ (order : IterationOrder (EndpointId × Endpoint)) (this : ServiceManager) (port start : ℕ)
    {service : Service} (e : lookup ℕ_discrete port this.port_service_map ≡ some service)
    (some_endpoint : service.endpoints ≢ [])
    (up : All IsAvailable (values (order.arrange service.endpoints))) where
  -- Where all endpoints of a port are available, as many choices in a row as there are endpoints, with an
  -- index that grows by one, reach every one of them.
  pub get_endpoint_for-reaches :
      (i : EndpointId) (x : Endpoint)
      → endpoint_at this.port_service_map port i ≡ some x
      → ∥ (
          (k : ℕ) × (k < length service.endpoints)
          × (get_endpoint_for order this port (start + k) ≡ returned (some (offer x)))) ∥₁
  unfolding distance
  get_endpoint_for-reaches i x there =
      let n = length service.endpoints in
      let candidates = values (order.arrange service.endpoints) in
      let total = length-values (order.arrange_perm service.endpoints) in
      let nonzero = length-ne-zero service.endpoints some_endpoint in
      let entry : lookup EndpointId_discrete i service.endpoints ≡ some x = ground arith in
      ∥∥₁_map (position_of_mem x candidates (mem_of_entry order service.endpoints i entry))
        (λ (j, small, at). (
          distance n start j,
          mod-lt (j + (n - start % n)) (omega arith),
          get_endpoint_for-get_elem? order this port (start + distance n start j) e some_endpoint up
              ∙ ap (λ (k : ℕ). returned (Option.map offer (get_elem? candidates k)))
                  (distance_lem n start j (omega arith))
              ∙ ap (λ (o : Option Endpoint). returned (Option.map offer o)) at,
        ))
