-- ===== src/Backend/Rotation.antt =====
-- `get_endpoint_for` against what it is meant to do: to ask the endpoints in a circle, from the index on.
use mathlib.Core.Option
use state_proxy.Base.{
  ℕ, zero, suc, ◌+◌, ◌-◌, ◌*◌, ◌%◌, ◌≤◌, ◌<◌, true, List, [], ◌∷◌, ◌++◌, lookup, none, some, Text,
  ℕ_discrete, ◌≡◌, ◌≢◌, refl, ◌∙◌, ap, sym, arith, returned, IterationOrder, take, drop, length,
  values, All, get_elem?, Option-cases, inl, inr,
}
use state_proxy.Backend.Endpoint.{EndpointId, Endpoint, SocketAddr}
use state_proxy.Backend.Manager.{Service, ServiceManager}
use state_proxy.Backend.Select.{first_available, get_endpoint_for}
use state_proxy.Backend.Candidates.{
  found_by, get_endpoint_for-found_by, length-values, length-ne-zero,
}

-- The endpoints in a circle, from a position on.
abbrev pub rotated : ℕ → List Endpoint → List Endpoint
rotated i xs = drop i xs ++ take i xs

first_available-append :
    (xs ys : List Endpoint)
    → first_available (xs ++ ys)
      ≡ elim (first_available xs) [ some found ↦ some found | none ↦ first_available ys ]
unfolding first_available
first_available-append [] ys = refl
first_available-append (x ∷ xs) ys = ground (arith, first_available-append xs ys)

-- What is found in a part is found in the whole.
first_available-take :
    (k : ℕ) (xs : List Endpoint) → first_available xs ≡ none → first_available (take k xs) ≡ none
unfolding first_available
first_available-take zero xs h = refl
first_available-take (suc k) [] h = refl
first_available-take (suc k) (x ∷ xs) h = ground (arith, first_available-take k xs)

take-nil : (k : ℕ) → take {A = Endpoint} k [] ≡ []
take-nil zero = refl
take-nil (suc k) = refl

take-add : (i k : ℕ) (xs : List Endpoint) → take (i + k) xs ≡ take i xs ++ take k (drop i xs)
take-add zero k xs = let same : 0 + k ≡ k = omega arith in rw same refl
take-add (suc i) k [] =
    let same : suc i + k ≡ suc (i + k) = omega arith in rw same (sym (take-nil k))
take-add (suc i) k (x ∷ xs) =
    let same : suc i + k ≡ suc (i + k) = omega arith in rw same (ap (◌∷◌ x) (take-add i k xs))

-- Where nothing is found behind the index, the part up to `n - i` finds what the part up to `i` finds.
second_part :
    (n i : ℕ) (xs : List Endpoint)
    → 2 * i ≤ n
    → first_available (drop i xs) ≡ none
    → first_available (take (n - i) xs) ≡ first_available (take i xs)
second_part n i xs half none_behind =
    let parts : n - i ≡ i + (n - i - i) = omega arith in
    ap (λ (k : ℕ). first_available (take k xs)) parts
    ∙ ap first_available (take-add i (n - i - i) xs)
    ∙ first_available-append (take i xs) (take (n - i - i) (drop i xs))
    ∙ (elim (Option-cases (first_available (take i xs))) [
      | inl e ↦ ground (arith, first_available-take (n - i - i) (drop i xs) none_behind)
      | inr (found, e) ↦ ground arith
    ])

found_by-rotated :
    (n i : ℕ) (xs : List Endpoint) → 2 * i ≤ n → found_by n xs i ≡ first_available (rotated i xs)
found_by-rotated n i xs half = elim (Option-cases (first_available (drop i xs))) [
  | inl e ↦
      ground (arith, first_available-append (drop i xs) (take i xs), second_part n i xs half e)
  | inr (found, e) ↦ ground (arith, first_available-append (drop i xs) (take i xs))
]

abbrev pub offer : Endpoint → SocketAddr × Text
offer e = (e.address, e.protocol)

abbrev pub IsAvailable : Endpoint → Type 0
IsAvailable e = e.is_available ≡ true

first_available-drop :
    (i : ℕ) (xs : List Endpoint)
    → i < length xs
    → All IsAvailable xs
    → first_available (drop i xs) ≡ Option.map offer (get_elem? xs i)
unfolding first_available
first_available-drop zero [] h a = elim h [ ]
first_available-drop zero (x ∷ xs) h a = ground arith
first_available-drop (suc i) [] h a = elim h [ ]
first_available-drop (suc i) (x ∷ xs) h a = first_available-drop i xs (omega arith) a.1

get_elem?-some :
    (i : ℕ) (xs : List Endpoint) → i < length xs → (e : Endpoint) × (get_elem? xs i ≡ some e)
get_elem?-some zero [] h = elim h [ ]
get_elem?-some zero (x ∷ xs) h = (x, refl)
get_elem?-some (suc i) [] h = elim h [ ]
get_elem?-some (suc i) (x ∷ xs) h = get_elem?-some i xs (omega arith)

found_by-get_elem? :
    (n i : ℕ) (xs : List Endpoint)
    → i < length xs
    → All IsAvailable xs
    → found_by n xs i ≡ Option.map offer (get_elem? xs i)
found_by-get_elem? n i xs h a =
    let (e, at) = get_elem?-some i xs h in let found = first_available-drop i xs h a in ground arith

module _ (order : IterationOrder (EndpointId × Endpoint)) (this : ServiceManager) (port index : ℕ)
    {service : Service} (e : lookup ℕ_discrete port this.port_service_map ≡ some service)
    (some_endpoint : service.endpoints ≢ []) where
  chosen :
      get_endpoint_for order this port index
      ≡ returned (
          found_by
            (length service.endpoints)
            (values (order.arrange service.endpoints))
            (index % length service.endpoints))
  chosen =
      get_endpoint_for-found_by order this port index e
        (length-ne-zero service.endpoints some_endpoint)

  -- For a port with endpoints, and an index that, reduced by their number, lies in the first half, the
  -- choice is the first available endpoint in the circle of all of them that starts at the index.
  pub get_endpoint_for-rotated :
      2 * (index % length service.endpoints) ≤ length service.endpoints
      → get_endpoint_for order this port index
        ≡ returned (
            first_available (
              rotated
                (index % length service.endpoints)
                (values (order.arrange service.endpoints))))
  get_endpoint_for-rotated half =
      chosen
      ∙ ap returned (
          found_by-rotated (length service.endpoints) (index % length service.endpoints)
            (values (order.arrange service.endpoints)) half)

  -- For a port with endpoints that are all available, the choice is the endpoint at the index, reduced by
  -- their number, in the order of the iteration.
  pub get_endpoint_for-get_elem? :
      All IsAvailable (values (order.arrange service.endpoints))
      → get_endpoint_for order this port index
        ≡ returned (
            Option.map offer (
              get_elem?
                (values (order.arrange service.endpoints))
                (index % length service.endpoints)))
  get_endpoint_for-get_elem? up =
      let total = length-values (order.arrange_perm service.endpoints) in
      let nonzero = length-ne-zero service.endpoints some_endpoint in
      chosen
      ∙ ap returned (
          found_by-get_elem? (length service.endpoints) (index % length service.endpoints)
            (values (order.arrange service.endpoints)) (omega arith) up)
