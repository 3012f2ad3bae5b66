-- ===== src/Backend/Endpoint.antt =====
-- src/backend/endpoint.rs: the events of a discovery task, and the endpoints that the service
-- manager keeps. Addresses are values that the code passes on and never inspects.
use state_proxy.Base.{ℕ, Bool, Text, Text_discrete, ℕ_discrete}

pub data IpAddr : Type 0 where
  v4 : ℕ → IpAddr
  v6 : ℕ → IpAddr

pub record SocketAddr : Type 0 where
  pub ip : IpAddr
  pub port : ℕ

pub data EndpointEvent : Type 0 where
  add : Text → Bool → ℕ → Text → SocketAddr → Text → EndpointEvent
  delete : Text → EndpointEvent
  suspend : Text → EndpointEvent
  resume : Text → EndpointEvent

pub record EndpointId : Type 0 where
  pub endpoint_discovery_name : Text
  pub uid : Text

unfoldable pub EndpointId_discrete : Discrete EndpointId
unfolding Text_discrete
EndpointId_discrete = hlevel ℕ_discrete

pub record Endpoint : Type 0 where
  pub is_available : Bool
  pub address : SocketAddr
  pub protocol : Text
