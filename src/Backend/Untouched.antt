-- ===== src/Backend/Untouched.antt =====
-- What stands behind the ports after an event, also when the task panics while it processes it.
use state_proxy.Base.{
  ℕ, List, [], ◌∷◌, lookup, none, ◌≡◌, refl, subst, ◌∙◌, ap, sym, ℕ_discrete, arith, IterationOrder,
  Text, true, inl, inr, Option-cases, returned, panicked, remove, contains, lookup-remove, if_pos,
  if_neg, ite,
}
use state_proxy.Backend.Endpoint.{EndpointEvent, add, delete, suspend, resume, EndpointId, Endpoint}
use state_proxy.Backend.Manager.{
  close_port, Service, PortServiceMap, ServiceManager, remove_endpoint,
}
use state_proxy.Backend.InPlace.{
  Ended, then_in_place, notify, add_in_place, close_in_place, process_in_place,
}
use state_proxy.Backend.View.{endpoint_at, after_event, EndpointView}
use state_proxy.Backend.Tables.{IsSane}
use state_proxy.Backend.Effects.{add_map, vacated_ports, contains-vacated_ports, remove_ports}
use state_proxy.Backend.Refinement.{endpoint_at-next_map}
use state_proxy.Backend.Crash.{notify-port_service_map}

-- Nothing stands behind these ports.
IsVacant : List ℕ → PortServiceMap → Type 0
IsVacant ports m =
    (p : ℕ) → contains ℕ_discrete p ports ≡ true → (i : EndpointId) → endpoint_at m p i ≡ none

endpoint_at-remove :
    (p q : ℕ) (m : PortServiceMap) (i : EndpointId)
    → endpoint_at (remove ℕ_discrete p m) q i ≡ ite (ℕ_discrete q p) none (endpoint_at m q i)
endpoint_at-remove p q m i = ground (arith, lookup-remove ℕ_discrete p q m)

remove_vacant :
    (p q : ℕ) (ports : List ℕ) (m : PortServiceMap) (i : EndpointId)
    → IsVacant (p ∷ ports) m
    → endpoint_at (remove ℕ_discrete p m) q i ≡ endpoint_at m q i
unfolding IsVacant contains
remove_vacant p q ports m i v = elim (ℕ_discrete q p) [
  | yes same ↦
      endpoint_at-remove p q m i
      ∙ if_pos (ℕ_discrete q p) same _ _
      ∙ sym (v q (if_pos (ℕ_discrete q p) same _ _) i)
  | no off ↦ endpoint_at-remove p q m i ∙ if_neg (ℕ_discrete q p) off _ _
]

IsVacant-remove :
    (p : ℕ) (ports : List ℕ) (m : PortServiceMap)
    → IsVacant (p ∷ ports) m
    → IsVacant ports (remove ℕ_discrete p m)
unfolding IsVacant contains
IsVacant-remove p ports m v q inside i = remove_vacant p q ports m i v ∙ v q (ground arith) i

then-endpoint_at :
    (e : Ended) (f : ServiceManager → Ended) (w : EndpointView) (q : ℕ) (i : EndpointId)
    (m : PortServiceMap)
    → e.1.port_service_map ≡ m
    → endpoint_at m q i ≡ w q i
    → ((this : ServiceManager)
        → this.port_service_map ≡ m
        → endpoint_at (f this).1.port_service_map q i ≡ w q i)
    → endpoint_at (then_in_place e f).1.port_service_map q i ≡ w q i
then-endpoint_at (returned _, this) f w q i m same now h = h this same
then-endpoint_at (panicked, this) f w q i m same now h =
    ap (λ (m' : PortServiceMap). endpoint_at m' q i) same ∙ now

-- Ports with nothing behind them are closed without a change of the endpoints, all of them or some.
close_in_place-endpoint_at :
    (ports : List ℕ) (this : ServiceManager) (q : ℕ) (i : EndpointId)
    → IsVacant ports this.port_service_map
    → endpoint_at (close_in_place ports this).1.port_service_map q i
      ≡ endpoint_at this.port_service_map q i
unfolding close_in_place
close_in_place-endpoint_at [] this q i v = refl
close_in_place-endpoint_at (p ∷ ports) this q i v =
    elim (Option-cases (lookup ℕ_discrete p this.port_service_map)) [
      | inl gone ↦ rw (gone, close_in_place) refl
      | inr (old, e) ↦
          let m = remove ℕ_discrete p this.port_service_map in
          rw (e, close_in_place)
            (then-endpoint_at (notify (close_port p) (record this { port_service_map = m }))
              (close_in_place ports) (endpoint_at this.port_service_map) q i m
              (notify-port_service_map (close_port p) (record this { port_service_map = m }))
              (remove_vacant p q ports this.port_service_map i v)
              (λ next same.
                close_in_place-endpoint_at ports next q i (
                  subst (IsVacant ports) (sym same)
                    (IsVacant-remove p ports this.port_service_map v))
                ∙ ap (λ (m' : PortServiceMap). endpoint_at m' q i) same
                ∙ remove_vacant p q ports this.port_service_map i v))
    ]

add_in_place-add_map :
    (i : EndpointId) (e : Endpoint) (port : ℕ) (protocol : Text) (this : ServiceManager)
    → (add_in_place i e port protocol this).1.port_service_map
      ≡ add_map i e port protocol this.port_service_map
unfolding add_in_place
add_in_place-add_map i e port protocol this =
    elim (Option-cases (lookup ℕ_discrete port this.port_service_map)) [
      | inl gone ↦ rw (gone, add_in_place) (notify-port_service_map _ _)
      | inr (s, there) ↦ rw (there, add_in_place) refl
    ]

vacated-IsVacant :
    (order : IterationOrder (ℕ × Service)) (i : EndpointId) (m : PortServiceMap)
    → IsSane m
    → IsVacant (vacated_ports order i m) (remove_endpoint i m)
unfolding IsVacant lookup
vacated-IsVacant order i m v p inside j =
    let none_left = contains-vacated_ports order i m p v in
    elim (Option-cases (lookup ℕ_discrete p (remove_endpoint i m))) [
      | inl gone ↦ ground arith
      | inr (service, e) ↦ ground arith
    ]

-- The ports that a `Delete` closes make no difference to the endpoints.
remove_ports_vacant :
    (ports : List ℕ) (m : PortServiceMap) (q : ℕ) (i : EndpointId)
    → IsVacant ports m
    → endpoint_at (remove_ports ports m) q i ≡ endpoint_at m q i
unfolding remove_ports
remove_ports_vacant [] m q i v = refl
remove_ports_vacant (p ∷ ports) m q i v =
    remove_ports_vacant ports (remove ℕ_discrete p m) q i (IsVacant-remove p ports m v)
    ∙ remove_vacant p q ports m i v

-- With a port map in which no port and no identity comes twice and each service stands under its own
-- port, an event leaves, behind every port and under every identity, exactly the endpoint that the event
-- says, also when the task panics on the way.
pub endpoint_at-process_in_place :
    (order : IterationOrder (ℕ × Service)) (from : Text) (event : EndpointEvent)
    (this : ServiceManager) (q : ℕ) (i : EndpointId)
    → IsSane this.port_service_map
    → endpoint_at (process_in_place order from event this).1.port_service_map q i
      ≡ after_event from event (endpoint_at this.port_service_map) q i
unfolding process_in_place
endpoint_at-process_in_place order from
      (add uid is_available port external_protocol address protocol) this q i v =
    ap (λ (m : PortServiceMap). endpoint_at m q i)
      (add_in_place-add_map _ _ port external_protocol this)
    ∙ endpoint_at-next_map order from (add uid is_available port external_protocol address protocol)
        this.port_service_map q i v
endpoint_at-process_in_place order from (delete uid) this q i v =
    let gone : EndpointId = record { endpoint_discovery_name = from; uid = uid } in
    let m = remove_endpoint gone this.port_service_map in
    let vacant = vacated-IsVacant order gone this.port_service_map v in
    close_in_place-endpoint_at (vacated_ports order gone this.port_service_map)
      (record this { port_service_map = m }) q i vacant
    ∙ sym (remove_ports_vacant (vacated_ports order gone this.port_service_map) m q i vacant)
    ∙ endpoint_at-next_map order from (delete uid) this.port_service_map q i v
endpoint_at-process_in_place order from (suspend uid) this q i v =
    endpoint_at-next_map order from (suspend uid) this.port_service_map q i v
endpoint_at-process_in_place order from (resume uid) this q i v =
    endpoint_at-next_map order from (resume uid) this.port_service_map q i v
