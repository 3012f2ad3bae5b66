-- ===== src/Protocol/Connections.antt =====
-- The traits `Connection` and `ProtocolServer` of src/protocol/mod.rs with the methods that they bring,
-- and who implements them: the client and the server of src/http.rs, and the client of the endpoint
-- protocol. What is behind a connection is a type of the implementer.
use state_proxy.Base.{ℕ, codes, ◌≡◌, ◌≢◌, refl}
use state_proxy.Protocol.Message.{Message, ConnectionState}
use state_proxy.Protocol.Client.{Client}
use state_proxy.Protocol.Traits.{Call, answered, refused, unwritten, unsupported}

-- `Connection`.
pub record ConnectionMethods (Self Socket : Type 0) : Type 0 where
  pub send : Message Socket → Self → Call (Unit {0}) × Self
  pub receive : Self → Call (Message Socket) × Self
  pub new_channel : Self → Call ℕ × Self
  pub disassemble : Self → Call (ConnectionState Socket)

-- `ProtocolServer`.
pub record ServerMethods (Self Connection Socket : Type 0) : Type 0 where
  pub next : Self → Call Connection × Self
  pub assemble_connection : ConnectionState Socket → Self → Call (Unit {0}) × Self

module _ {Self Socket : Type 0} where
  -- The methods that a connection has besides `send` and `receive`.
  unfoldable pub default_connection :
      (Message Socket → Self → Call (Unit {0}) × Self)
      → (Self → Call (Message Socket) × Self)
      → ConnectionMethods Self Socket
  default_connection send receive = record {
    send = send;
    receive = receive;
    new_channel = λ this.
        (refused (unsupported (codes "This connection does not support multiplexing")), this);
    disassemble =
        λ this. refused (unsupported (codes "This connection does not support disassembly"));
  }

  -- The methods that a server has besides `next`.
  unfoldable pub default_server :
      {Connection : Type 0} → (Self → Call Connection × Self) → ServerMethods Self Connection Socket
  default_server next = record {
    next = next;
    assemble_connection = λ state this.
        (refused (unsupported (codes "This server does not support connection assembly")), this);
  }

-- `HttpClient` and `HttpServer`, over the client of `hyper`.
pub record HttpClient (Hyper : Type 0) : Type 0 where
  pub hyper_client : Hyper

pub data HttpServer : Type 0 where
  new_http_server : HttpServer

module _ {Socket : Type 0} where
  -- `impl Connection for HttpClient`.
  unfoldable pub http_connection : {Hyper : Type 0} → ConnectionMethods (HttpClient Hyper) Socket
  http_connection =
      default_connection (λ message this. (unwritten, this)) (λ this. (unwritten, this))

  -- `impl ProtocolServer for HttpServer`.
  unfoldable pub http_server_methods :
      {Connection : Type 0} → ServerMethods HttpServer Connection Socket
  http_server_methods = default_server (λ this. (unwritten, this))

  -- `impl Connection for EndpointProtocolClient`.
  unfoldable pub endpoint_connection : ConnectionMethods Client Socket
  endpoint_connection =
      record (default_connection (λ message this. (unwritten, this)) (λ this. (unwritten, this))) {
        new_channel = λ this. (unwritten, this);
      }

-- No method of a connection ever succeeds, and none changes it.
pub record CarriesNothing {Self Socket : Type 0} (methods : ConnectionMethods Self Socket)
    : Type 0 where
  pub no_send :
      (message : Message Socket) (this : Self) → (methods.send message this).0 ≢ answered tt
  pub no_message :
      (this : Self) (message : Message Socket) → (methods.receive this).0 ≢ answered message
  pub no_channel : (this : Self) (k : ℕ) → (methods.new_channel this).0 ≢ answered k
  pub no_state :
      (this : Self) (state : ConnectionState Socket) → methods.disassemble this ≢ answered state
  pub unchanged :
      (message : Message Socket) (this : Self)
      → ((methods.send message this).1 ≡ this)
        × ((methods.receive this).1 ≡ this)
        × ((methods.new_channel this).1 ≡ this)

-- Neither a connection of the HTTP protocol nor one of the endpoint protocol ever sends or receives a
-- message, opens a channel, or is taken apart, and none of these calls changes it.
pub http_connection-CarriesNothing :
    {Hyper Socket : Type 0}
    → CarriesNothing (http_connection {Socket = Socket} {Hyper = Hyper})
      × CarriesNothing (endpoint_connection {Socket = Socket})
unfolding http_connection endpoint_connection default_connection
http_connection-CarriesNothing = (
  record {
    no_send = λ message this h. cc;
    no_message = λ this message h. cc;
    no_channel = λ this k h. cc;
    no_state = λ this state h. cc;
    unchanged = λ message this. (refl, refl, refl);
  },
  record {
    no_send = λ message this h. cc;
    no_message = λ this message h. cc;
    no_channel = λ this k h. cc;
    no_state = λ this state h. cc;
    unchanged = λ message this. (refl, refl, refl);
  },
)
