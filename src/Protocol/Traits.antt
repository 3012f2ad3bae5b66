-- ===== src/Protocol/Traits.antt =====
-- src/protocol/mod.rs: the trait `Protocol` with the methods that it brings, and who implements it: the
-- HTTP protocol of src/http.rs, and the endpoint protocol. Connections, servers and sockets are types of
-- the implementers.
use state_proxy.Base.{
  ℕ, Bool, true, false, [], ◌∷◌, ◌++◌, Text, codes, Outcome, returned, panicked, Result, ok, err,
  inl, inr, ◌⊎◌,
}
use state_proxy.Backend.Endpoint.{SocketAddr}
use state_proxy.Protocol.Registry.{ProtocolCapabilities, default_capabilities}
use state_proxy.Protocol.Message.{ConnectionState}
use state_proxy.Protocol.ClientMessage.{ClientMessageV0}
use state_proxy.Protocol.Client
use state_proxy.Protocol.Client.{Client, Reply, done, failed, crashed, waiting}
use state_proxy.Protocol.Negotiation
use state_proxy.Protocol.Negotiation.{EndpointProtocol}
pub mod Offers

-- Why a method fails: it is not offered, or the negotiation failed.
pub data Refusal : Type 0 where
  unsupported : Text → Refusal
  negotiation : Client.Error → Refusal

-- How an asynchronous method stands.
pub data Call (A : Type 0) : Type 0 where
  answered : A → Call A
  refused : Refusal → Call A
  unwritten : Call A
  pending : Call A

-- The methods of the trait, which may change the object.
pub record Methods (Self Connection Server Socket : Type 0) : Type 0 where
  pub name : Self → Text
  pub capabilities : Self → ProtocolCapabilities
  pub new_client : Text → Self → Call Connection × Self
  pub assemble_client : ConnectionState Socket → Self → Call Connection × Self
  pub new_server : SocketAddr → Self → Call Server × Self

-- The text of a refusal, with the name between its parts.
abbrev pub not_offered : Text → Text → Text → Refusal
not_offered before name behind = unsupported (before ++ name ++ behind)

module _ {Self Connection Server Socket : Type 0} where
  -- The methods that a protocol has by its name alone.
  unfoldable pub default_methods : (Self → Text) → Methods Self Connection Server Socket
  default_methods name = record {
    name = name;
    capabilities = λ _. default_capabilities;
    new_client = λ address this. (
      refused (not_offered (codes "Protocol '") (name this) (codes "' does not offer a client")),
      this,
    );
    assemble_client = λ state this. (
      refused (not_offered (codes "Protocol '") (name this) (codes "' cannot assemble clients")),
      this,
    );
    new_server = λ address this. (
      refused (not_offered (codes "Protocol '") (name this) (codes "' does not offer a server")),
      this,
    );
  }

pub record HttpProtocol : Type 0 where
  pub name : Text

-- `HttpProtocol::new`.
unfoldable pub new_http : HttpProtocol
new_http = record { name = codes "http" }

module _ {Connection Server Socket : Type 0} where
  -- `impl Protocol for HttpProtocol`: a client and a server are `unimplemented!()`.
  unfoldable pub http_methods : Methods HttpProtocol Connection Server Socket
  http_methods = record (default_methods (λ (this : HttpProtocol). this.name)) {
    new_client = λ address this. (unwritten, this);
    new_server = λ address this. (unwritten, this);
  }

abbrev pub call_of : Reply (Unit {0}) × Client → Call Client
call_of (done _, client) = answered client
call_of (failed e, client) = refused (negotiation e)
call_of (crashed, client) = unwritten
call_of (waiting, client) = pending

abbrev pub client_call : Client.Error ⊎ (Reply (Unit {0}) × Client) → Call Client
client_call (inl e) = refused (negotiation e)
client_call (inr reply) = call_of reply

module _ {Server Socket : Type 0} (to_json : ClientMessageV0 → Text) where
  -- `impl Protocol for EndpointProtocol`: a server is `unimplemented!()`.
  unfoldable pub endpoint_methods : Methods EndpointProtocol Client Server Socket
  endpoint_methods = record (default_methods (λ (this : EndpointProtocol). this.name)) {
    capabilities = Negotiation.capabilities;
    new_client = λ address this. (
      client_call (Negotiation.new_client to_json this).0,
      (Negotiation.new_client to_json this).1,
    );
    new_server = λ address this. (unwritten, this);
  }
