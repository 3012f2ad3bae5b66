-- ===== src/Backend/Fixtures.antt =====
-- Managers on which the theorems about the service manager are tried.
use mathlib.Core.List.Perm
use mathlib.Core.List.{Nodup-cons, Nodup-nil, not-mem-nil}
use state_proxy.Base.{
  Bool, true, false, List, [], ◌∷◌, Option, none, some, ◌≡◌, refl, Text, codes, IterationOrder,
  Nodup, lookup, ℕ_discrete,
}
use state_proxy.Backend.Endpoint.{EndpointEvent, add, EndpointId, Endpoint, v4, SocketAddr}
use state_proxy.Backend.Channel.{Sender}
use state_proxy.Backend.Manager.{Service, ServiceManager, PortEvent}
use state_proxy.Backend.Tables.{IsValid, IsSane, IsValid-IsSane}

abbrev pub as_stored : {A : Type 0} → IterationOrder A
as_stored = record { arrange = λ xs. xs; arrange_perm = λ xs. Perm.refl xs }

abbrev pub k8s : Text
k8s = codes "k8s"

abbrev pub pod : EndpointId
pod = record { endpoint_discovery_name = k8s; uid = codes "a" }

abbrev pub address : SocketAddr
address = record { ip = v4 1; port = 8080 }

abbrev pub web : Bool → Endpoint
web up = record { is_available = up; address = address; protocol = codes "http" }

abbrev pub web_service : Bool → Service
web_service up = record { port = 80; protocol = codes "https"; endpoints = (pod, web up) ∷ [] }

abbrev pub listener : List PortEvent → Bool → Sender PortEvent
listener events closed = record { is_closed = closed; sent = events }

abbrev pub serving : Bool → Option (Sender PortEvent) → ServiceManager
serving up sender = record {
  registered_endpoint_discovery_names = [];
  port_service_map = (80, web_service up) ∷ [];
  port_event_sender = sender;
  endpoint_discovery_metrics = [];
}

abbrev pub idle : Option (Sender PortEvent) → ServiceManager
idle sender = record {
  registered_endpoint_discovery_names = [];
  port_service_map = [];
  port_event_sender = sender;
  endpoint_discovery_metrics = [];
}

abbrev pub add_web : EndpointEvent
add_web = add (codes "a") false 80 (codes "https") address (codes "http")

pub singleton-Nodup : {K : Type 0} (k : K) → Nodup (k ∷ [])
singleton-Nodup k = Nodup-cons.1 (not-mem-nil, Nodup-nil)

pub serving-IsValid : (up : Bool) → IsValid ((80, web_service up) ∷ [])
serving-IsValid up = record {
  distinct_ports = singleton-Nodup 80;
  services = (record { at_port = refl; nonempty = λ c. cc; distinct = singleton-Nodup pod }, tt);
}

pub serving-IsSane : IsSane ((80, web_service true) ∷ [])
serving-IsSane = IsValid-IsSane ((80, web_service true) ∷ []) (serving-IsValid true)

pub its_service :
    (up : Bool) → lookup ℕ_discrete 80 ((80, web_service up) ∷ []) ≡ some (web_service up)
unfolding lookup ℕ_discrete
its_service up = refl

-- Three endpoints, of which only the one in the middle is available.
abbrev pub other : Text → EndpointId
other uid = record { endpoint_discovery_name = k8s; uid = uid }

abbrev pub three : ServiceManager
three = record (serving true none) {
  port_service_map =
      (
        80,
        record (web_service true) {
          endpoints =
              (pod, web false)
              ∷ (other (codes "b"), web true)
              ∷ (other (codes "c"), web false)
              ∷ [];
        },
      )
      ∷ [];
}

pub three_service :
    lookup ℕ_discrete 80 three.port_service_map
    ≡ some (record (web_service true) {
      endpoints =
          (pod, web false) ∷ (other (codes "b"), web true) ∷ (other (codes "c"), web false) ∷ [];
    })
unfolding lookup ℕ_discrete
three_service = refl
