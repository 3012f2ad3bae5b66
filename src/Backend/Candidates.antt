-- ===== src/Backend/Candidates.antt =====
-- The two loops over the candidates of a service: what they find, and what they overlook.
use mathlib.Core.List.Perm
use mathlib.Core.List.{
  mem-append_left, mem-map_of_mem, exists_of_mem-map, append_assoc, mem-cons_self, mem-cons_of_mem,
}
use mathlib.Core.Logic.{∥∥₁_map}
use state_proxy.Base.{
  ℕ, zero, suc, ◌-◌, ◌*◌, ◌%◌, ◌≤◌, true, false, List, [], ◌∷◌, ◌++◌, lookup, ℕ_discrete, returned,
  Option, none, some, Text, IterationOrder, take, drop, length, values, All, All-append,
  All-take_le, take-append-drop, drop_left, take_left, length-append, Mem, Perm, ◌≡◌, ◌≢◌, refl,
  sym, ap, ◌∙◌, subst, arith, Bool-cases, Option-cases, inl, inr, mem_of_lookup, lookup_of_mem,
  keys, Nodup, length-perm, length-map,
}
use state_proxy.Backend.Endpoint.{EndpointId, EndpointId_discrete, Endpoint, SocketAddr}
use state_proxy.Backend.Manager.{Service, ServiceManager}
use state_proxy.Backend.Select.{first_available, select, get_endpoint_for}

abbrev pub IsUnavailable : Endpoint → Type 0
IsUnavailable e = e.is_available ≡ false

first_available-eq-none :
    (candidates : List Endpoint) → first_available candidates ≡ none → All IsUnavailable candidates
unfolding first_available
first_available-eq-none [] h = tt
first_available-eq-none (c ∷ cs) h = elim (Bool-cases c.is_available) [
  | inl up ↦ ground arith
  | inr down ↦ (down, first_available-eq-none cs (ground arith))
]

first_available_of_All :
    (candidates : List Endpoint) → All IsUnavailable candidates → first_available candidates ≡ none
unfolding first_available
first_available_of_All [] h = refl
first_available_of_All (c ∷ cs) h = ground (arith, first_available_of_All cs h.1)

first_available-mem :
    (candidates : List Endpoint) {found : SocketAddr × Text}
    → first_available candidates ≡ some found
    → (e : Endpoint) × Mem e candidates
      × (e.is_available ≡ true)
      × (found ≡ (e.address, e.protocol))
unfolding first_available
first_available-mem [] h = cc
first_available-mem (c ∷ cs) h = elim (Bool-cases c.is_available) [
  | inl up ↦ (c, mem-cons_self, up, ground arith)
  | inr down ↦
      let (e, inside, up, eq) = first_available-mem cs (ground arith) in
      (e, mem-cons_of_mem c inside, up, eq)
]

-- What the two loops find, one after the other.
abbrev pub found_by : ℕ → List Endpoint → ℕ → Option (SocketAddr × Text)
found_by n candidates i = elim (first_available (drop i candidates)) [
  | some found ↦ some found
  | none ↦ first_available (take (n - i) candidates)
]

-- With an index that is not too large, the difference does not panic.
select-found_by :
    (n i : ℕ) (candidates : List Endpoint)
    → i ≤ n
    → select n candidates i ≡ returned (found_by n candidates i)
unfolding select
select-found_by n i candidates le = elim (Option-cases (first_available (drop i candidates))) [
  | inl e ↦ ground arith
  | inr (found, e) ↦ ground arith
]

-- The reduced index is not too large.
pub get_endpoint_for-found_by :
    (order : IterationOrder (EndpointId × Endpoint)) (this : ServiceManager) (port index : ℕ)
    {service : Service}
    → lookup ℕ_discrete port this.port_service_map ≡ some service
    → length service.endpoints ≢ 0
    → get_endpoint_for order this port index
      ≡ returned (
          found_by
            (length service.endpoints)
            (values (order.arrange service.endpoints))
            (index % length service.endpoints))
unfolding get_endpoint_for
get_endpoint_for-found_by order this port index {service} e nonzero =
    let n = length service.endpoints in
    let reduced =
      select-found_by n (index % n) (values (order.arrange service.endpoints)) (omega arith) in
    rw (e, get_endpoint_for) (ground arith)

mem_of_drop : (n : ℕ) (xs : List Endpoint) {e : Endpoint} → Mem e (drop n xs) → Mem e xs
mem_of_drop zero xs h = h
mem_of_drop (suc n) [] h = h
mem_of_drop (suc n) (x ∷ xs) h = mem-cons_of_mem x (mem_of_drop n xs h)

mem_of_take : (n : ℕ) (xs : List Endpoint) {e : Endpoint} → Mem e (take n xs) → Mem e xs
mem_of_take n xs {e} h = subst (Mem e) (take-append-drop n xs) (mem-append_left (drop n xs) h)

pub found_by-mem :
    (n i : ℕ) (candidates : List Endpoint) {found : SocketAddr × Text}
    → found_by n candidates i ≡ some found
    → (e : Endpoint) × Mem e candidates
      × (e.is_available ≡ true)
      × (found ≡ (e.address, e.protocol))
found_by-mem n i candidates {found} h = elim (Option-cases (first_available (drop i candidates))) [
  | inl e ↦
      let (x, inside, up, eq) =
        first_available-mem (take (n - i) candidates) {found = found} (ground arith) in
      (x, mem_of_take (n - i) candidates inside, up, eq)
  | inr (c, e) ↦
      let (x, inside, up, eq) =
        first_available-mem (drop i candidates) {found = found} (ground arith) in
      (x, mem_of_drop i candidates inside, up, eq)
]

-- If the index lies in the first half, nothing is overlooked.
pub found_by-eq-none :
    (n i : ℕ) (candidates : List Endpoint)
    → 2 * i ≤ n
    → found_by n candidates i ≡ none
    → All IsUnavailable candidates
found_by-eq-none n i candidates half h = elim (Option-cases (first_available (drop i candidates))) [
  | inl e ↦ subst (All IsUnavailable) (take-append-drop i candidates) (
      All-append IsUnavailable (take i candidates) (drop i candidates)
        (All-take_le IsUnavailable i (n - i) candidates (omega arith)
          (first_available-eq-none (take (n - i) candidates) (ground arith)))
        (first_available-eq-none (drop i candidates) e))
  | inr (c, e) ↦ ground arith
]

pub length-ne-zero : {A : Type 0} (xs : List A) → xs ≢ [] → length xs ≢ 0
length-ne-zero [] h = λ _. h refl
length-ne-zero (x ∷ xs) h = λ e. omega arith

-- A table's entries, as the iteration meets them.
Endpoint-set : IsSet (Option Endpoint)
Endpoint-set = hlevel

pub entry_of_mem :
    (order : IterationOrder (EndpointId × Endpoint)) (es : List (EndpointId × Endpoint))
    {e : Endpoint}
    → Nodup (keys es)
    → Mem e (values (order.arrange es))
    → ∥ ((i : EndpointId) × (lookup EndpointId_discrete i es ≡ some e)) ∥₁
entry_of_mem order es {e} u inside = ∥∥₁_map (exists_of_mem-map inside) (λ ((i, x), there, same). (
  i,
  lookup_of_mem EndpointId_discrete Endpoint-set i es u
      (subst (λ y. Mem (i, y) es) same ((Perm.mem_iff (order.arrange_perm es)).0 there)),
))

pub mem_of_entry :
    (order : IterationOrder (EndpointId × Endpoint)) (es : List (EndpointId × Endpoint))
    (i : EndpointId) {e : Endpoint}
    → lookup EndpointId_discrete i es ≡ some e
    → Mem e (values (order.arrange es))
mem_of_entry order es i h =
    mem-map_of_mem (λ (x : EndpointId × Endpoint). x.1)
      ((Perm.mem_iff (order.arrange_perm es)).1
        (mem_of_lookup EndpointId_discrete Endpoint-set i es h))

pub found_by-misses :
    (n : ℕ) (xs ys zs : List Endpoint)
    → n ≡ length (xs ++ (ys ++ zs))
    → length xs ≡ length zs
    → All IsUnavailable xs
    → All IsUnavailable zs
    → found_by n (xs ++ (ys ++ zs)) (length (xs ++ ys)) ≡ none
found_by-misses n xs ys zs total balanced down_xs down_zs =
    let parts = length-append xs (ys ++ zs) in
    let parts' = length-append ys zs in
    let front = length-append xs ys in
    let rest : n - length (xs ++ ys) ≡ length xs = omega arith in
    let behind : drop (length (xs ++ ys)) (xs ++ (ys ++ zs)) ≡ zs =
      ap (drop (length (xs ++ ys))) (sym (append_assoc xs ys zs)) ∙ drop_left (xs ++ ys) zs in
    let before : take (n - length (xs ++ ys)) (xs ++ (ys ++ zs)) ≡ xs =
      rw rest (take_left xs (ys ++ zs)) in
    ground (arith, first_available_of_All xs down_xs, first_available_of_All zs down_zs)

pub length-values :
    {xs ys : List (EndpointId × Endpoint)} → Perm xs ys → length ys ≡ length (values xs)
length-values {xs} {ys} p = sym (length-perm p) ∙ sym (length-map xs (λ x. x.1))
