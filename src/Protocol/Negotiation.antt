-- ===== src/Protocol/Negotiation.antt =====
-- src/protocol/proxy/endpoint.rs: the negotiation of a new client, and `EndpointProtocol`.
use state_proxy.Base.{
  ℕ, ◌-◌, ◌^◌, Bool, true, false, [], ◌∷◌, ◌++◌, Option, none, some, Text, codes, ◌==◌, ◌⊎◌, inl,
  inr, if◌then◌else◌,
}
use state_proxy.Protocol.Registry.{ProtocolCapabilities}
use state_proxy.Protocol.ServerMessage
use state_proxy.Protocol.ServerMessage.{ServerMessageV0, TakeChannelIdResult, id, uneeded, missing}
use state_proxy.Protocol.ClientMessage.{ClientMessageV0}
use state_proxy.Protocol.Client.{
  endpoint_protocol_version, json, serialization_formats, format_from, Error, more_than_one_client,
  unknown_serialization_format, wrong_message, wrong_version, BaseConnection, Client, Reply, done,
  failed, then_with, send_client_message, receive_server_message,
}

-- The `match` of `init` on the reply.
unfoldable pub accept_hello : ServerMessageV0 → Client → Reply (Unit {0}) × Client
accept_hello (ServerMessageV0.hello version serialization_format) this =
    if version == endpoint_protocol_version
    then elim (format_from serialization_format) [
      | some format ↦ (done tt, record this { serialization_format = format })
      | none ↦
          (failed (unknown_serialization_format serialization_formats serialization_format), this)
    ]
    else (failed (wrong_version endpoint_protocol_version version), this)
accept_hello reply this =
    (failed (wrong_message (codes "Hello" ∷ []) (ServerMessage.name reply)), this)

module _ (to_json : ClientMessageV0 → Text) where
  -- `init`.
  unfoldable pub init : Client → Reply (Unit {0}) × Client
  init this =
      then_with
        (send_client_message to_json
          (ClientMessageV0.hello endpoint_protocol_version serialization_formats) this)
        (λ _ sent. then_with (receive_server_message sent) accept_hello)

  -- `EndpointProtocolClient::new`: the client before `init`, and after.
  unfoldable pub new : BaseConnection → Reply (Unit {0}) × Client
  new base_connection = init (record {
    states = [];
    base_connection = base_connection;
    base_capabilities = base_connection.capabilities;
    next_channel_id = 0;
    read_buffer_map = (none, []) ∷ [];
    stream_left = none;
    serialization_format = json;
  })

pub record EndpointProtocol : Type 0 where
  pub name : Text
  pub multiplexing : ℕ
  pub sockets : Bool
  pub base_connection : Option BaseConnection

-- `EndpointProtocol::new`: over a single channel the protocol multiplexes by itself.
unfoldable pub new_protocol : BaseConnection → EndpointProtocol
new_protocol base_connection = record {
  name = codes "endpoint protocol over " ++ base_connection.protocol_name;
  multiplexing =
      if base_connection.capabilities.multiplexing == 1
      then 2 ^ 32 - 1
      else base_connection.capabilities.multiplexing;
  sockets = false;
  base_connection = some base_connection;
}

-- `capabilities`.
unfoldable pub capabilities : EndpointProtocol → ProtocolCapabilities
capabilities this = record {
  client = true;
  server = true;
  disasm = false;
  message_boundaries = true;
  multiplexing = this.multiplexing;
  sockets = this.sockets;
}

-- `new_client`: the base connection is taken, so there is one client at most.
unfoldable pub new_client :
    (ClientMessageV0 → Text)
    → EndpointProtocol
    → (Error ⊎ (Reply (Unit {0}) × Client)) × EndpointProtocol
new_client to_json this = elim this.base_connection [
  | none ↦ (inl more_than_one_client, this)
  | some base ↦ (inr (new to_json base), record this { base_connection = none })
]
