-- ===== src/Backend/Sanity.antt =====
-- The port map as a table of services under their ports: what every change of it keeps.
use mathlib.Core.List.{Nodup-nil}
use state_proxy.Base.{
  ℕ, List, [], ◌∷◌, lookup, Option, none, some, ◌≡◌, refl, ℕ_discrete, remove, Text, inl, inr,
  Option-cases, All, All-insert, All-remove, All-lookup, insert-Nodup, remove-Nodup, keys, Nodup,
  Nodup-cons_of_none,
}
use state_proxy.Backend.Endpoint.{EndpointId, EndpointId_discrete, Endpoint}
use state_proxy.Backend.Manager.{
  Service, PortServiceMap, remove_endpoint, update_services, update_endpoint,
}
use state_proxy.Backend.Tables.{IsSane, IsPlacedAt, keys-update_services, remove_endpoint-distinct}
use state_proxy.Backend.Effects.{add_to, add_map}

abbrev pub IsPlaced : ℕ × Service → Type 0
IsPlaced e = IsPlacedAt e.0 e.1

pub singleton-Nodup : (i : EndpointId) (e : Endpoint) → Nodup (keys ((i, e) ∷ []))
unfolding lookup
singleton-Nodup i e = Nodup-cons_of_none EndpointId_discrete (i, e) [] refl Nodup-nil

pub update_endpoint-Nodup :
    (change : Endpoint → Endpoint) (i : EndpointId) (es : List (EndpointId × Endpoint))
    → Nodup (keys es)
    → Nodup (keys (update_endpoint change i es))
unfolding update_endpoint
update_endpoint-Nodup change i es u = elim (Option-cases (lookup EndpointId_discrete i es)) [
  | inl e ↦ rw (e, update_endpoint) u
  | inr (x, e) ↦ rw (e, update_endpoint) (insert-Nodup EndpointId_discrete i (change x) es u)
]

add_to-IsPlacedAt :
    (i : EndpointId) (e : Endpoint) (port : ℕ) (protocol : Text) (o : Option Service)
    → ((s : Service) → o ≡ some s → IsPlacedAt port s)
    → IsPlacedAt port (add_to i e port protocol o)
add_to-IsPlacedAt i e port protocol none h = record {
  at_port = refl;
  distinct = singleton-Nodup i e;
}
add_to-IsPlacedAt i e port protocol (some s) h = record {
  at_port = (h s refl).at_port;
  distinct = insert-Nodup EndpointId_discrete i e s.endpoints (h s refl).distinct;
}

pub add_map-IsSane :
    (i : EndpointId) (e : Endpoint) (port : ℕ) (protocol : Text) (m : PortServiceMap)
    → IsSane m
    → IsSane (add_map i e port protocol m)
add_map-IsSane i e port protocol m v = record {
  distinct_ports = insert-Nodup ℕ_discrete port _ m v.distinct_ports;
  placed =
      All-insert ℕ_discrete IsPlaced port _ m
        (add_to-IsPlacedAt i e port protocol (lookup ℕ_discrete port m)
          (λ s h. All-lookup ℕ_discrete IsPlaced port m v.placed h))
        v.placed;
}

pub remove-IsSane : (port : ℕ) (m : PortServiceMap) → IsSane m → IsSane (remove ℕ_discrete port m)
remove-IsSane port m v = record {
  distinct_ports = remove-Nodup ℕ_discrete port m v.distinct_ports;
  placed = All-remove ℕ_discrete IsPlaced port m v.placed;
}

pub remove_endpoint-IsPlaced :
    (i : EndpointId) (m : PortServiceMap) → All IsPlaced m → All IsPlaced (remove_endpoint i m)
unfolding remove_endpoint
remove_endpoint-IsPlaced i [] a = tt
remove_endpoint-IsPlaced i ((p, s) ∷ m) a = (
  record {
    at_port = a.0.at_port;
    distinct = remove-Nodup EndpointId_discrete i s.endpoints a.0.distinct;
  },
  remove_endpoint-IsPlaced i m a.1,
)

pub remove_endpoint-IsSane :
    (i : EndpointId) (m : PortServiceMap) → IsSane m → IsSane (remove_endpoint i m)
remove_endpoint-IsSane i m v = record {
  distinct_ports = remove_endpoint-distinct i m v.distinct_ports;
  placed = remove_endpoint-IsPlaced i m v.placed;
}

update_services-IsPlaced :
    (change : Endpoint → Endpoint) (i : EndpointId) (m : PortServiceMap)
    → All IsPlaced m
    → All IsPlaced (update_services change i m)
unfolding update_services
update_services-IsPlaced change i [] a = tt
update_services-IsPlaced change i ((p, s) ∷ m) a = (
  record {
    at_port = a.0.at_port;
    distinct = update_endpoint-Nodup change i s.endpoints a.0.distinct;
  },
  update_services-IsPlaced change i m a.1,
)

pub update_services-IsSane :
    (change : Endpoint → Endpoint) (i : EndpointId) (m : PortServiceMap)
    → IsSane m
    → IsSane (update_services change i m)
update_services-IsSane change i m v = record {
  distinct_ports = rw (keys-update_services change i m) v.distinct_ports;
  placed = update_services-IsPlaced change i m v.placed;
}
