-- ===== src/Served/Known.antt =====
-- A discovery and the service manager: no endpoint outlives what the discovery knows.
use mathlib.Core.Option
use state_proxy.Base.{
  ℕ, Bool, true, false, List, [], ◌∷◌, Option, none, some, ◌≡◌, ◌≢◌, refl, ◌∙◌, ap, arith, ok, ite,
  if_pos, if_neg, Text, Text_discrete, ℕ_discrete, IterationOrder, contains,
}
use state_proxy.Backend.Endpoint.{
  EndpointEvent, add, delete, suspend, resume, EndpointId, EndpointId_discrete, IpAddr,
}
use state_proxy.Backend.Manager.{Service, ServiceManager}
use state_proxy.Backend.View.{endpoint_at, after_event, EndpointView}
use state_proxy.Backend.Tables.{IsSane}
use state_proxy.Backend.Isolation.{left_by, taken, events_of, after_events, left_by-after_events}
use state_proxy.Kubernetes.Pod.{PodEvent}
use state_proxy.Kubernetes.Monad.{Runtime}
use state_proxy.Kubernetes.Runtime.{watch}
use state_proxy.Kubernetes.Tracking.{is_live, is_live_after}
use state_proxy.Kubernetes.Known.{watch-IsTracked}

of_pos :
    {D : Type 0} {A : Type 0} (d : Dec D) (yes_it : D) (x y : Option A)
    → ite d x y ≢ none
    → x ≢ none
of_pos d yes_it x y h = λ e. h (if_pos d yes_it _ _ ∙ e)

of_neg :
    {D : Type 0} {A : Type 0} (d : Dec D) (not_it : ¬ D) (x y : Option A)
    → ite d x y ≢ none
    → y ≢ none
of_neg d not_it x y h = λ e. h (if_neg d not_it _ _ ∙ e)

abbrev id_of : Text → Text → EndpointId
id_of from uid = record { endpoint_discovery_name = from; uid = uid }

id_eq :
    (i : EndpointId) (from uid : Text)
    → i.endpoint_discovery_name ≡ from
    → i.uid ≡ uid
    → i ≡ id_of from uid
id_eq i from uid own same =
    ap (λ (t : Text). id_of t i.uid) own ∙ ap (λ (t : Text). id_of from t) same

other_uid : (i : EndpointId) (from uid : Text) → i.uid ≢ uid → i ≢ id_of from uid
other_uid i from uid off same = off (ap (λ (j : EndpointId). j.uid) same)

map-ne-none : {A B : Type 0} (f : A → B) (o : Option A) → Option.map f o ≢ none → o ≢ none
map-ne-none f none h = λ e. h refl
map-ne-none f (some a) h = λ e. cc

after_event-is_live :
    (from : Text) (event : EndpointEvent) (v : EndpointView) (q : ℕ) (i : EndpointId) (b : Bool)
    → i.endpoint_discovery_name ≡ from
    → (v q i ≢ none → b ≡ true)
    → after_event from event v q i ≢ none
    → is_live_after i.uid event b ≡ true
after_event-is_live from (add uid is_available port external_protocol address protocol) v q i b own
      h there =
    elim (Text_discrete i.uid uid) [
      | yes same ↦ if_pos (Text_discrete i.uid uid) same _ _
      | no off ↦
          if_neg (Text_discrete i.uid uid) off _ _
          ∙ h (elim (ℕ_discrete q port) [
            | yes here ↦
                of_neg (EndpointId_discrete i (id_of from uid)) (other_uid i from uid off) _ _
                  (of_pos (ℕ_discrete q port) here _ _ there)
            | no elsewhere ↦ of_neg (ℕ_discrete q port) elsewhere _ _ there
          ])
    ]
after_event-is_live from (delete uid) v q i b own h there = elim (Text_discrete i.uid uid) [
  | yes same ↦
      absurd
        (of_pos (EndpointId_discrete i (id_of from uid)) (id_eq i from uid own same) _ _ there refl)
  | no off ↦
      if_neg (Text_discrete i.uid uid) off _ _
      ∙ h (of_neg (EndpointId_discrete i (id_of from uid)) (other_uid i from uid off) _ _ there)
]
after_event-is_live from (suspend uid) v q i b own h there =
    h (elim (EndpointId_discrete i (id_of from uid)) [
      | yes it ↦
          map-ne-none _ (v q i) (of_pos (EndpointId_discrete i (id_of from uid)) it _ _ there)
      | no other ↦ of_neg (EndpointId_discrete i (id_of from uid)) other _ _ there
    ])
after_event-is_live from (resume uid) v q i b own h there =
    h (elim (EndpointId_discrete i (id_of from uid)) [
      | yes it ↦
          map-ne-none _ (v q i) (of_pos (EndpointId_discrete i (id_of from uid)) it _ _ there)
      | no other ↦ of_neg (EndpointId_discrete i (id_of from uid)) other _ _ there
    ])

after_events-is_live :
    (from : Text) (events : List EndpointEvent) (v : EndpointView) (q : ℕ) (i : EndpointId)
    (b : Bool)
    → i.endpoint_discovery_name ≡ from
    → (v q i ≢ none → b ≡ true)
    → after_events from events v q i ≢ none
    → is_live i.uid events b ≡ true
after_events-is_live from [] v q i b own h there = h there
after_events-is_live from (event ∷ events) v q i b own h there =
    after_events-is_live from events (after_event from event v) q i (is_live_after i.uid event b)
      own (after_event-is_live from event v q i b own h) there

-- Let a discovery that has sent nothing handle pod events, none of which fails, and let a manager process
-- all events that it sent, in order, with those of other discoveries in between, whichever tasks panic. In
-- the manager's port map, let no port and no identity have come twice, let each service have stood under
-- its own port, and let an identity of the discovery have had no endpoint behind a port. If it has one
-- there afterwards, then the discovery knows its UID.
pub endpoint_at-left_by-watch :
    (parse_address : Text → Option IpAddr) (order : IterationOrder Text)
    (order' : IterationOrder (ℕ × Service)) (pods : List PodEvent) (runtime : Runtime)
    {next : Runtime} (events : List (Text × EndpointEvent)) (manager : ServiceManager) (port : ℕ)
    (i : EndpointId)
    → runtime.sender.sent ≡ []
    → watch parse_address order pods runtime ≡ (ok tt, next)
    → events_of i.endpoint_discovery_name (taken order' events manager) ≡ next.sender.sent
    → IsSane manager.port_service_map
    → endpoint_at manager.port_service_map port i ≡ none
    → endpoint_at (left_by order' events manager).port_service_map port i ≢ none
    → contains Text_discrete i.uid next.known_pod_uids ≡ true
endpoint_at-left_by-watch parse_address order order' pods runtime {next} events manager port i fresh
      ran all v before there =
    watch-IsTracked i.uid parse_address order pods runtime ran
      (λ live. absurd (let nothing = fresh in ground arith))
      (after_events-is_live i.endpoint_discovery_name next.sender.sent
        (endpoint_at manager.port_service_map) port i false refl
        (λ some_one. absurd (some_one before))
        (λ gone. there (
          left_by-after_events order' events manager port i v
          ∙ ap
              (λ (es : List EndpointEvent).
                after_events i.endpoint_discovery_name es (endpoint_at manager.port_service_map)
                  port i)
              all
          ∙ gone)))
