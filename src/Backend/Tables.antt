-- ===== src/Backend/Tables.antt =====
-- The loops over the port map, one lookup at a time, and the invariant of the map.
use mathlib.Core.Option
use mathlib.Core.List.Perm
use mathlib.Core.List.{Nodup-cons, Nodup-nil, filter_map}
use state_proxy.Base.{
  ℕ, Bool, true, false, List, [], ◌∷◌, lookup, Option, none, some, ◌≡◌, refl, ◌≢◌, ap, ℕ_discrete,
  arith, remove, keys, All, Nodup, Perm, contains, lookup-head, Bool-cases, inl, inr,
  Nodup-cons_of_contains,
}
use state_proxy.Backend.Endpoint.{EndpointId, EndpointId_discrete, Endpoint}
use state_proxy.Backend.Manager.{
  Service, PortServiceMap, remove_endpoint, empty_services, update_services, update_endpoint,
}

-- The service stands under its own port and has each identity once.
pub record IsPlacedAt (port : ℕ) (service : Service) : Type 0 where
  pub at_port : service.port ≡ port
  pub distinct : Nodup (keys service.endpoints)

-- The port map is a table of services under their ports. A task that panics leaves this much.
pub record IsSane (m : PortServiceMap) : Type 0 where
  pub distinct_ports : Nodup (keys m)
  pub placed : All (λ e. IsPlacedAt e.0 e.1) m

-- The service stands under its own port, has an endpoint, and has each endpoint once.
pub record IsServiceAt (port : ℕ) (service : Service) : Type 0 where
  pub at_port : service.port ≡ port
  pub nonempty : service.endpoints ≢ []
  pub distinct : Nodup (keys service.endpoints)

pub record IsValid (m : PortServiceMap) : Type 0 where
  pub distinct_ports : Nodup (keys m)
  pub services : All (λ e. IsServiceAt e.0 e.1) m

All-placed :
    (m : PortServiceMap) → All (λ e. IsServiceAt e.0 e.1) m → All (λ e. IsPlacedAt e.0 e.1) m
All-placed [] a = tt
All-placed (e ∷ m) a = (record { at_port = a.0.at_port; distinct = a.0.distinct }, All-placed m a.1)

pub IsValid-IsSane : (m : PortServiceMap) → IsValid m → IsSane m
IsValid-IsSane m v = record { distinct_ports = v.distinct_ports; placed = All-placed m v.services }

pub lookup-remove_endpoint :
    (i : EndpointId) (q : ℕ) (m : PortServiceMap)
    → lookup ℕ_discrete q (remove_endpoint i m)
      ≡ Option.map
          (λ (s : Service). record s { endpoints = remove EndpointId_discrete i s.endpoints })
          (lookup ℕ_discrete q m)
unfolding remove_endpoint lookup
lookup-remove_endpoint i q [] = refl
lookup-remove_endpoint i q ((p, s) ∷ m) = ground (arith, lookup-remove_endpoint i q m)

pub lookup-update_services :
    (change : Endpoint → Endpoint) (i : EndpointId) (q : ℕ) (m : PortServiceMap)
    → lookup ℕ_discrete q (update_services change i m)
      ≡ Option.map
          (λ (s : Service). record s { endpoints = update_endpoint change i s.endpoints })
          (lookup ℕ_discrete q m)
unfolding update_services lookup
lookup-update_services change i q [] = refl
lookup-update_services change i q ((p, s) ∷ m) = ground (arith, lookup-update_services change i q m)

keys-remove_endpoint : (i : EndpointId) (m : PortServiceMap) → keys (remove_endpoint i m) ≡ keys m
unfolding remove_endpoint
keys-remove_endpoint i [] = refl
keys-remove_endpoint i ((p, s) ∷ m) = ap (◌∷◌ p) (keys-remove_endpoint i m)

pub keys-update_services :
    (change : Endpoint → Endpoint) (i : EndpointId) (m : PortServiceMap)
    → keys (update_services change i m) ≡ keys m
unfolding update_services
keys-update_services change i [] = refl
keys-update_services change i ((p, s) ∷ m) = ap (◌∷◌ p) (keys-update_services change i m)

pub remove_endpoint-distinct :
    (i : EndpointId) (m : PortServiceMap) → Nodup (keys m) → Nodup (keys (remove_endpoint i m))
remove_endpoint-distinct i m u = rw (keys-remove_endpoint i m) u

abbrev pub is_empty : Option Service → Bool
is_empty none = false
is_empty (some s) = elim s.endpoints [ [] ↦ true | _ ∷ _ ↦ false ]

-- The ports that the loop collects are those of the services with no endpoint.
pub contains-empty_services :
    (q : ℕ) (m : PortServiceMap)
    → Nodup (keys m)
    → contains ℕ_discrete q (empty_services m) ≡ is_empty (lookup ℕ_discrete q m)
unfolding contains empty_services lookup
contains-empty_services q [] u = refl
contains-empty_services q ((p, s) ∷ m) u =
    ground
      (arith, contains-empty_services q m (Nodup-cons.0 u).1, lookup-head ℕ_discrete (p, s) m u)

vacated : ℕ × Service → Option ℕ
vacated (port, service) = elim service.endpoints [ [] ↦ some port | _ ∷ _ ↦ none ]

empty_services-filter_map : (m : PortServiceMap) → empty_services m ≡ filter_map vacated m
unfolding empty_services vacated filter_map
empty_services-filter_map [] = refl
empty_services-filter_map ((p, s) ∷ m) = ground (arith, empty_services-filter_map m)

-- The order of the iteration changes the order of the ports, and nothing else.
pub empty_services-perm :
    {m n : PortServiceMap} → Perm m n → Perm (empty_services m) (empty_services n)
empty_services-perm {m} {n} p =
    rw (empty_services-filter_map m, empty_services-filter_map n) (Perm.filter_map vacated p)

pub empty_services-Nodup : (m : PortServiceMap) → Nodup (keys m) → Nodup (empty_services m)
unfolding empty_services
empty_services-Nodup [] u = Nodup-nil
empty_services-Nodup ((p, s) ∷ m) u = elim (Bool-cases (is_empty (some s))) [
  | inl e ↦ rw (opened e) (
      set-Nodup
        (ground (
          arith,
          contains-empty_services p m (Nodup-cons.0 u).1,
          lookup-head ℕ_discrete (p, s) m u,
        ))
        (empty_services-Nodup m (Nodup-cons.0 u).1))
  | inr e ↦ rw (shut e) (empty_services-Nodup m (Nodup-cons.0 u).1)
]
  where
    opened : is_empty (some s) ≡ true → empty_services ((p, s) ∷ m) ≡ p ∷ empty_services m
    opened e = ground arith

    shut : is_empty (some s) ≡ false → empty_services ((p, s) ∷ m) ≡ empty_services m
    shut e = ground arith

    set-Nodup : {q : ℕ} {xs : List ℕ} → contains ℕ_discrete q xs ≡ false → Nodup xs → Nodup (q ∷ xs)
    set-Nodup {q} {xs} h v = Nodup-cons_of_contains ℕ_discrete q xs h v
