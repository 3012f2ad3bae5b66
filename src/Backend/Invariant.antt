-- ===== src/Backend/Invariant.antt =====
-- The validity of the port map under every event.
use mathlib.Core.List.{Nodup-cons}
use state_proxy.Base.{
  ℕ, List, [], ◌∷◌, lookup, Option, none, some, ◌≡◌, refl, ℕ_discrete, arith, insert, remove,
  IterationOrder, Text, inl, inr, Option-cases, ◌≢◌, All, All-insert, All-remove, All-lookup,
  insert-Nodup, remove-Nodup, insert-ne-nil, keys, Nodup, if_pos, if_neg, lookup-head, ◌∙◌,
}
use state_proxy.Backend.Endpoint.{
  EndpointEvent, add, delete, suspend, resume, EndpointId, EndpointId_discrete, Endpoint,
}
use state_proxy.Backend.Manager.{
  Service, PortServiceMap, remove_endpoint, update_services, update_endpoint, suspend_endpoint,
  resume_endpoint,
}
use state_proxy.Backend.Tables.{
  IsValid-IsSane, IsValid, IsServiceAt, keys-update_services, remove_endpoint-distinct,
}
use state_proxy.Backend.Sanity.{
  IsPlaced, remove_endpoint-IsPlaced, update_endpoint-Nodup, singleton-Nodup,
}
use state_proxy.Backend.Effects.{
  next_map, remove_ports, vacated_ports, contains-vacated_ports, add_to, lookup-remove_ports,
}

abbrev pub IsServed : ℕ × Service → Type 0
IsServed e = IsServiceAt e.0 e.1

add_to-IsServiceAt :
    (i : EndpointId) (e : Endpoint) (port : ℕ) (protocol : Text) (o : Option Service)
    → ((s : Service) → o ≡ some s → IsServiceAt port s)
    → IsServiceAt port (add_to i e port protocol o)
add_to-IsServiceAt i e port protocol none h = record {
  at_port = refl;
  nonempty = λ c. cc;
  distinct = singleton-Nodup i e;
}
add_to-IsServiceAt i e port protocol (some s) h = record {
  at_port = (h s refl).at_port;
  nonempty = insert-ne-nil EndpointId_discrete i e s.endpoints;
  distinct = insert-Nodup EndpointId_discrete i e s.endpoints (h s refl).distinct;
}

add_map-IsValid :
    (i : EndpointId) (e : Endpoint) (port : ℕ) (protocol : Text) (m : PortServiceMap)
    → IsValid m
    → IsValid (insert ℕ_discrete port (add_to i e port protocol (lookup ℕ_discrete port m)) m)
add_map-IsValid i e port protocol m v = record {
  distinct_ports = insert-Nodup ℕ_discrete port _ m v.distinct_ports;
  services =
      All-insert ℕ_discrete IsServed port _ m
        (add_to-IsServiceAt i e port protocol (lookup ℕ_discrete port m)
          (λ s h. All-lookup ℕ_discrete IsServed port m v.services h))
        v.services;
}

update_endpoint-ne-nil :
    (change : Endpoint → Endpoint) (i : EndpointId) (es : List (EndpointId × Endpoint))
    → es ≢ []
    → update_endpoint change i es ≢ []
unfolding update_endpoint
update_endpoint-ne-nil change i es h = elim (Option-cases (lookup EndpointId_discrete i es)) [
  | inl e ↦ rw (e, update_endpoint) h
  | inr (x, e) ↦ rw (e, update_endpoint) (insert-ne-nil EndpointId_discrete i (change x) es)
]

update_services-IsServed :
    (change : Endpoint → Endpoint) (i : EndpointId) (m : PortServiceMap)
    → All IsServed m
    → All IsServed (update_services change i m)
unfolding update_services
update_services-IsServed change i [] a = tt
update_services-IsServed change i ((p, s) ∷ m) a = (
  record {
    at_port = a.0.at_port;
    nonempty = update_endpoint-ne-nil change i s.endpoints a.0.nonempty;
    distinct = update_endpoint-Nodup change i s.endpoints a.0.distinct;
  },
  update_services-IsServed change i m a.1,
)

update_services-IsValid :
    (change : Endpoint → Endpoint) (i : EndpointId) (m : PortServiceMap)
    → IsValid m
    → IsValid (update_services change i m)
update_services-IsValid change i m v = record {
  distinct_ports = rw (keys-update_services change i m) v.distinct_ports;
  services = update_services-IsServed change i m v.services;
}

remove_ports-distinct :
    (ports : List ℕ) (m : PortServiceMap) → Nodup (keys m) → Nodup (keys (remove_ports ports m))
unfolding remove_ports
remove_ports-distinct [] m u = u
remove_ports-distinct (p ∷ ports) m u =
    remove_ports-distinct ports (remove ℕ_discrete p m) (remove-Nodup ℕ_discrete p m u)

remove_ports-All :
    (P : ℕ × Service → Type 0) (ports : List ℕ) (m : PortServiceMap)
    → All P m
    → All P (remove_ports ports m)
unfolding remove_ports
remove_ports-All P [] m a = a
remove_ports-All P (p ∷ ports) m a =
    remove_ports-All P ports (remove ℕ_discrete p m) (All-remove ℕ_discrete P p m a)

-- What holds of each entry that a lookup finds holds of every entry of a table with distinct keys.
All-of_lookup :
    (P Q : ℕ × Service → Type 0) (m : PortServiceMap)
    → Nodup (keys m)
    → All P m
    → ((p : ℕ) (s : Service) → lookup ℕ_discrete p m ≡ some s → P (p, s) → Q (p, s))
    → All Q m
unfolding lookup
All-of_lookup P Q [] u a h = tt
All-of_lookup P Q ((p, s) ∷ m) u a h = (
  h p s (if_pos (ℕ_discrete p p) refl _ _) a.0,
  All-of_lookup P Q m (Nodup-cons.0 u).1 a.1 (λ q t e.
      let fresh = lookup-head ℕ_discrete (p, s) m u in
      let ne : q ≢ p = λ same. ground arith in h q t (if_neg (ℕ_discrete q p) ne _ _ ∙ e)),
)

delete_map-IsValid :
    (order : IterationOrder (ℕ × Service)) (i : EndpointId) (m : PortServiceMap)
    → IsValid m
    → IsValid (remove_ports (vacated_ports order i m) (remove_endpoint i m))
delete_map-IsValid order i m v = record {
  distinct_ports = left;
  services =
      All-of_lookup IsPlaced IsServed (remove_ports ports swept) left
        (remove_ports-All IsPlaced ports swept
          (remove_endpoint-IsPlaced i m (IsValid-IsSane m v).placed))
        (λ p s e a.
          let removed = lookup-remove_ports ports p swept in
          let closed = contains-vacated_ports order i m p (IsValid-IsSane m v) in
          record {
            at_port = a.at_port;
            nonempty = λ none_left. ground arith;
            distinct = a.distinct;
          });
}
  where
    swept : PortServiceMap
    swept = remove_endpoint i m

    ports : List ℕ
    ports = vacated_ports order i m

    left : Nodup (keys (remove_ports ports swept))
    left = remove_ports-distinct ports swept (remove_endpoint-distinct i m v.distinct_ports)

pub next_map-IsValid :
    (order : IterationOrder (ℕ × Service)) (from : Text) (event : EndpointEvent)
    (m : PortServiceMap)
    → IsValid m
    → IsValid (next_map order from event m)
next_map-IsValid order from (add uid is_available port external_protocol address protocol) m v =
    add_map-IsValid _ _ port external_protocol m v
next_map-IsValid order from (delete uid) m v = delete_map-IsValid order _ m v
next_map-IsValid order from (suspend uid) m v = update_services-IsValid suspend_endpoint _ m v
next_map-IsValid order from (resume uid) m v = update_services-IsValid resume_endpoint _ m v
