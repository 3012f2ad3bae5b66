-- ===== src/Backend/Selection.antt =====
-- What `get_endpoint_for` finds, and what it overlooks.
use mathlib.Core.Logic.{∥∥₁_map}
use mathlib.Core.Bool.{Bool-set}
use state_proxy.Base.{
  ℕ, ◌*◌, ◌%◌, ◌≤◌, ◌<◌, true, false, List, [], ◌++◌, lookup, none, some, Text, ℕ_discrete,
  returned, panicked, Returns, IterationOrder, length, values, All, length-append, ◌≡◌, ◌≢◌, ap,
  ◌∙◌, arith, Option-cases, inl, inr, All-lookup, All-mem,
}
use state_proxy.Backend.Endpoint.{EndpointId, EndpointId_discrete, Endpoint, SocketAddr}
use state_proxy.Backend.Manager.{Service, ServiceManager, PortServiceMap}
use state_proxy.Backend.Select.{get_endpoint_for}
use state_proxy.Backend.View.{endpoint_at}
use state_proxy.Backend.Tables.{IsValid}
use state_proxy.Backend.Invariant.{IsServed}
use state_proxy.Backend.Candidates.{
  IsUnavailable, found_by, get_endpoint_for-found_by, found_by-mem, found_by-eq-none,
  length-ne-zero, entry_of_mem, mem_of_entry, found_by-misses, length-values,
}

-- An endpoint that stands behind the port, is available, and has the address and the protocol.
abbrev pub IsOffered : PortServiceMap → ℕ → SocketAddr × Text → Type 0
IsOffered m port found = ∥ (
    (i : EndpointId) × (e : Endpoint) × (endpoint_at m port i ≡ some e)
    × (e.is_available ≡ true)
    × (found ≡ (e.address, e.protocol))) ∥₁

no_entry :
    (i : EndpointId) {es : List (EndpointId × Endpoint)} {x : Endpoint}
    → es ≡ []
    → lookup EndpointId_discrete i es ≡ some x
    → ⊥
unfolding lookup
no_entry i {es} none_there entry =
    let nothing : lookup EndpointId_discrete i es ≡ none =
      ap (lookup EndpointId_discrete i) none_there in
    cc

module _ (order : IterationOrder (EndpointId × Endpoint)) (this : ServiceManager)
    (port index : ℕ) where
  get_endpoint_for-Returns :
      IsValid this.port_service_map
      → Returns (get_endpoint_for order this port index) (λ answer.
        (found : SocketAddr × Text)
        → answer ≡ some found
        → IsOffered this.port_service_map port found)
  unfolding get_endpoint_for
  get_endpoint_for-Returns v = elim (Option-cases (lookup ℕ_discrete port this.port_service_map)) [
    | inl gone ↦ (none, rw (gone, get_endpoint_for), λ found h. cc)
    | inr (service, e) ↦
        let served = All-lookup ℕ_discrete IsServed port this.port_service_map v.services e in
        let n = length service.endpoints in
        let candidates = values (order.arrange service.endpoints) in
        (
          found_by n candidates (index % n),
          get_endpoint_for-found_by order this port index e
              (length-ne-zero service.endpoints served.nonempty),
          λ found h.
              let (x, inside, up, eq) = found_by-mem n (index % n) candidates h in
              ∥∥₁_map (entry_of_mem order service.endpoints served.distinct inside)
                (λ (i, there). (i, x, rw e there, up, eq)),
        )
  ]

  -- With a valid port map, the choice never panics: neither at the remainder by the number of endpoints,
  -- nor at the difference of that number and the reduced index.
  pub get_endpoint_for-ne-panicked :
      IsValid this.port_service_map → get_endpoint_for order this port index ≢ panicked
  get_endpoint_for-ne-panicked v h = let (answer, e, _) = get_endpoint_for-Returns v in cc

  -- With a valid port map, what the choice finds is the address and the protocol of an available
  -- endpoint of the port.
  pub get_endpoint_for-IsOffered :
      (found : SocketAddr × Text)
      → IsValid this.port_service_map
      → get_endpoint_for order this port index ≡ returned (some found)
      → IsOffered this.port_service_map port found
  get_endpoint_for-IsOffered found v h =
      let (answer, e, offered) = get_endpoint_for-Returns v in offered found (ground arith)

  module _ {service : Service}
      (e : lookup ℕ_discrete port this.port_service_map ≡ some service) where
    -- If the index, reduced by the number of endpoints, lies in the first half, then `None` means
    -- that every endpoint of the port is unavailable.
    pub get_endpoint_for-eq-none :
        2 * (index % length service.endpoints) ≤ length service.endpoints
        → get_endpoint_for order this port index ≡ returned none
        → (i : EndpointId) (x : Endpoint) → endpoint_at this.port_service_map port i ≡ some x
        → IsUnavailable x
    get_endpoint_for-eq-none half h i x there =
        let n = length service.endpoints in
        let candidates = values (order.arrange service.endpoints) in
        let entry : lookup EndpointId_discrete i service.endpoints ≡ some x = ground arith in
        let nonzero : n ≢ 0 = length-ne-zero service.endpoints (λ c. no_entry i c entry) in
        let chosen = get_endpoint_for-found_by order this port index e nonzero in
        let answer : found_by n candidates (index % n) ≡ none = ground arith in
        All-mem IsUnavailable (λ y. Bool-set y.is_available false) candidates x
          (found_by-eq-none n (index % n) candidates half answer)
          (mem_of_entry order service.endpoints i entry)

    -- Let the endpoints come as `xs`, `ys`, `zs`, with as many in `zs` as in `xs` and at least one,
    -- and let the reduced index be the first position of `zs`. Then those of `ys` are never asked:
    -- if all of `xs` and of `zs` are unavailable, the answer is `None`, whatever `ys` holds.
    pub get_endpoint_for-misses :
        (xs ys zs : List Endpoint)
        → values (order.arrange service.endpoints) ≡ xs ++ (ys ++ zs)
        → length xs ≡ length zs
        → 0 < length zs
        → index % length service.endpoints ≡ length (xs ++ ys)
        → All IsUnavailable xs
        → All IsUnavailable zs
        → get_endpoint_for order this port index ≡ returned none
    get_endpoint_for-misses xs ys zs arranged balanced some_zs at_index down_xs down_zs =
        let total : length service.endpoints ≡ length (xs ++ (ys ++ zs)) =
          length-values (order.arrange_perm service.endpoints) ∙ ap length arranged in
        let parts = length-append xs (ys ++ zs) in
        let parts' = length-append ys zs in
        let overlooked =
          found_by-misses (length service.endpoints) xs ys zs total balanced down_xs down_zs in
        let same : found_by (length service.endpoints) (values (order.arrange service.endpoints))
              (index % length service.endpoints)
            ≡ none =
          rw (at_index, arranged) overlooked in
        get_endpoint_for-found_by order this port index e (omega arith) ∙ ap returned same
