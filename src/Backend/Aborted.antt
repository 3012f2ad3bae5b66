-- ===== src/Backend/Aborted.antt =====
-- A `Delete` that cannot tell the closed ports to anybody: what it leaves, and what comes of it.
use state_proxy.Base.{
  ℕ, List, ◌∷◌, lookup, some, ◌≡◌, ◌≢◌, refl, ◌∙◌, ap, sym, subst, ℕ_discrete, arith,
  IterationOrder, Text, true, false, inl, inr, Option-cases, panicked, remove, contains,
  lookup-remove, contains_head, if_pos, if_neg,
}
use state_proxy.Backend.Endpoint.{delete, EndpointId, Endpoint}
use state_proxy.Backend.Channel.{Sender}
use state_proxy.Backend.Manager.{
  PortEvent, Service, PortServiceMap, ServiceManager, remove_endpoint,
}
use state_proxy.Backend.InPlace.{process_in_place, close_in_place}
use state_proxy.Backend.Tables.{IsSane, is_empty}
use state_proxy.Backend.Effects.{
  IsClosable, vacated_ports, contains-vacated_ports, vacated_ports-IsClosable,
}
use state_proxy.Backend.Crash.{close_in_place_closed}
use state_proxy.Backend.Select.{get_endpoint_for}

abbrev pub deleted_id : Text → Text → EndpointId
deleted_id from uid = record { endpoint_discovery_name = from; uid = uid }

empty-panics :
    (choice : IterationOrder (EndpointId × Endpoint)) (this : ServiceManager) (port index : ℕ)
    → is_empty (lookup ℕ_discrete port this.port_service_map) ≡ true
    → get_endpoint_for choice this port index ≡ panicked
unfolding get_endpoint_for
empty-panics choice this port index h =
    elim (Option-cases (lookup ℕ_discrete port this.port_service_map)) [
      | inl gone ↦ absurd (ground arith)
      | inr (service, e) ↦ ground arith
    ]

-- The map without the endpoint.
abbrev pub swept : Text → Text → ServiceManager → PortServiceMap
swept from uid this = remove_endpoint (deleted_id from uid) this.port_service_map

module _ (order : IterationOrder (ℕ × Service)) (from uid : Text) (this : ServiceManager)
    {sender : Sender PortEvent} (held : this.port_event_sender ≡ some sender)
    (closed : sender.is_closed ≡ true) (v : IsSane this.port_service_map) {p : ℕ} {ps : List ℕ}
    (vacated : vacated_ports order (deleted_id from uid) this.port_service_map ≡ p ∷ ps) where
  closable : IsClosable (p ∷ ps) (swept from uid this)
  closable =
      subst (λ ports. IsClosable ports (swept from uid this)) vacated
        (vacated_ports-IsClosable order (deleted_id from uid) this.port_service_map v)

  -- While the receiver of the port events is gone, a `Delete` that takes the last endpoint of some ports
  -- panics at the first of them: that service is removed, and all others stay, without the endpoint.
  pub process_in_place-delete :
      process_in_place order from (delete uid) this
      ≡ (panicked, record this { port_service_map = remove ℕ_discrete p (swept from uid this) })
  unfolding process_in_place contains
  process_in_place-delete =
      let left = record this { port_service_map = (swept from uid this) } in
      ap (λ (ports : List ℕ). close_in_place ports left) vacated
      ∙ close_in_place_closed p ps left held closed
          (closable.1 p (if_pos (ℕ_discrete p p) refl _ _))

  -- Let a `Delete` be processed while the receiver of the port events is gone, from a port map in which no
  -- port and no identity comes twice and each service stands under its own port, and let it take the last
  -- endpoint of some ports. Every choice for one of those ports other than the first, whatever the index,
  -- then panics.
  pub get_endpoint_for-process_in_place :
      (choice : IterationOrder (EndpointId × Endpoint)) (port index : ℕ)
      → contains ℕ_discrete port ps ≡ true
      → get_endpoint_for choice (process_in_place order from (delete uid) this).1 port index
        ≡ panicked
  unfolding contains
  get_endpoint_for-process_in_place choice port index inside = rw process_in_place-delete (
      empty-panics choice
        (record this { port_service_map = remove ℕ_discrete p (swept from uid this) }) port index
        left_empty)
    where
      fresh : contains ℕ_discrete p ps ≡ false
      fresh = contains_head ℕ_discrete p ps closable.0

      off : port ≢ p
      off same =
          let gone = fresh in let here : contains ℕ_discrete p ps ≡ true = rw (← same) inside in cc

      listed : contains ℕ_discrete port (p ∷ ps) ≡ true
      listed = if_neg (ℕ_discrete port p) off _ _ ∙ inside

      empty : is_empty (lookup ℕ_discrete port (swept from uid this)) ≡ true
      empty =
          sym (contains-vacated_ports order (deleted_id from uid) this.port_service_map port v)
          ∙ ap (contains ℕ_discrete port) vacated
          ∙ listed

      left_empty :
          is_empty (lookup ℕ_discrete port (remove ℕ_discrete p (swept from uid this))) ≡ true
      left_empty =
          ap is_empty (
            lookup-remove ℕ_discrete p port (swept from uid this)
            ∙ if_neg (ℕ_discrete port p) off _ _)
          ∙ empty
