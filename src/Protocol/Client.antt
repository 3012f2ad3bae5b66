-- ===== src/Protocol/Client.antt =====
-- src/protocol/proxy/endpoint.rs: `EndpointProtocolClient`. The base
-- connection is what it will deliver, in order, and what was sent over it; a call that needs more
-- than it delivers waits. The JSON encoder is a parameter.
use state_proxy.Base.{
  ℕ, Bool, List, [], ◌∷◌, ◌++◌, Option, none, some, Text, codes, Outcome, returned, panicked,
  Result, ok, err, lookup, insert, length, ltb, ◌==◌, ◌&&◌, if◌then◌else◌, ℕ_discrete,
  Text_discrete, ite,
}
use state_proxy.Protocol.Registry.{ProtocolCapabilities}
use state_proxy.Protocol.Channels.{ChannelState}
use state_proxy.Protocol.ServerMessage.{ServerMessageV0, id, uneeded, missing}
use state_proxy.Protocol.ClientMessage.{ClientMessageV0, take_channel_id, set_channel_id}
use state_proxy.Protocol.Buffer.{
  Source, fill_buffer_from, FillError, io_failed, max_message_binary_size,
}

abbrev pub endpoint_protocol_version : ℕ
endpoint_protocol_version = 0

-- `SerializationFormat`, its names, and `try_from`.
pub data SerializationFormat : Type 0 where
  json : SerializationFormat

abbrev pub serialization_formats : List Text
serialization_formats = codes "Json" ∷ []

unfoldable pub format_from : Text → Option SerializationFormat
format_from s = ite (Text_discrete s (codes "Json")) (some json) none

pub data Error : Type 0 where
  connection_error : Error
  incomplete_message : ℕ → Error
  io_error : Error
  json_error : Error
  message_too_large : Error
  more_than_one_client : Error
  server_created_channel : ℕ → Error
  unknown_channel_id : ℕ → Text → Error
  unknown_serialization_format : List Text → Text → Error
  wrong_message : List Text → Text → Error
  wrong_version : ℕ → ℕ → Error

-- What `receive` of the base connection gives: a message, or an error.
pub data Arrival : Type 0 where
  delivered : Option Source → Option ℕ → Arrival
  failure : Arrival

pub record Outgoing : Type 0 where
  pub payload : Text
  pub size : Option ℕ
  pub channel_id : Option ℕ

-- The connection that the protocol runs over, with the name and the capabilities of its protocol.
pub record BaseConnection : Type 0 where
  pub protocol_name : Text
  pub capabilities : ProtocolCapabilities
  pub incoming : List Arrival
  pub outgoing : List Outgoing
  pub is_broken : Bool

pub record Client : Type 0 where
  pub states : List (ℕ × ChannelState)
  pub base_connection : BaseConnection
  pub base_capabilities : ProtocolCapabilities
  pub next_channel_id : ℕ
  pub read_buffer_map : List (Option ℕ × Text)
  pub stream_left : Option (Source × ℕ)
  pub serialization_format : SerializationFormat

unfoldable pub ChannelId_discrete : Discrete (Option ℕ)
ChannelId_discrete = hlevel ℕ_discrete

-- How an asynchronous call stands: done, failed, panicked, or waiting for the base connection.
pub data Reply (A : Type 0) : Type 0 where
  done : A → Reply A
  failed : Error → Reply A
  crashed : Reply A
  waiting : Reply A

abbrev pub then_with :
    {A B : Type 0} → Reply A × Client → (A → Client → Reply B × Client) → Reply B × Client
then_with (done a, this) f = f a this
then_with (failed e, this) f = (failed e, this)
then_with (crashed, this) f = (crashed, this)
then_with (waiting, this) f = (waiting, this)

-- Whether the base protocol has a single channel.
abbrev pub is_single : Client → Bool
is_single this = this.base_capabilities.multiplexing == 1

module _ (to_json : ClientMessageV0 → Text) where
  -- The end of `send_client_message`: serialize, wrap, and send.
  unfoldable pub transmit : ClientMessageV0 → Option ℕ → Client → Reply (Unit {0}) × Client
  transmit message channel_id this =
      let payload = to_json message in
      if this.base_connection.is_broken then (failed connection_error, this) else (
        done tt,
        record this {
          base_connection = record this.base_connection {
            outgoing =
                this.base_connection.outgoing
                ++ record {
                  payload = payload;
                  size = some (length payload);
                  channel_id = channel_id;
                }
                  ∷ [];
          };
        },
      )

  -- `send_client_message`: the channel ID goes with the outer message, or back into the inner one
  -- where the base protocol has a single channel.
  unfoldable pub send_client_message : ClientMessageV0 → Client → Reply (Unit {0}) × Client
  send_client_message message this =
      let (result, rest) = take_channel_id message in
      elim result [
        | id channel_id ↦
            if is_single this
            then transmit (set_channel_id rest channel_id) none this
            else transmit rest (some channel_id) this
        | uneeded ↦ transmit rest none this
        | missing ↦ (crashed, this)
      ]

-- One round of the loop of `receive_server_message`, from the data on: the buffer of the channel is
-- filled, and one that is too large is cleared.
abbrev pub store : Option ℕ → Text → Client → Client
store channel_id buffer this = record this {
  read_buffer_map = insert ChannelId_discrete channel_id buffer this.read_buffer_map;
}

abbrev pub keep_filled :
    Option ℕ
    → Client
    → Option (Outcome (Result FillError (Text × Bool × Source)))
    → Reply (Unit {0}) × Client
keep_filled channel_id this none = (crashed, this)
keep_filled channel_id this (some panicked) = (crashed, this)
keep_filled channel_id this (some (returned (err (io_failed left)))) =
    (failed io_error, store channel_id left this)
keep_filled channel_id this (some (returned (ok (buffer, _, _)))) =
    if ltb max_message_binary_size (length buffer) && this.base_capabilities.message_boundaries
    then (failed message_too_large, store channel_id [] this)
    else (done tt, store channel_id buffer this)

-- The argument of `ok_or` is computed in every case, so the `expect` in it panics for the default
-- channel although its buffer is there.
unfoldable pub absorb : Source → Option ℕ → Client → Reply (Unit {0}) × Client
absorb source none this = (crashed, this)
absorb source (some k) this = elim (lookup ChannelId_discrete (some k) this.read_buffer_map) [
  | none ↦ (failed (server_created_channel k), this)
  | some read_buffer ↦ keep_filled (some k) this (fill_buffer_from read_buffer source)
]

abbrev pub with_incoming : List Arrival → Client → Client
with_incoming arrivals this = record this {
  base_connection = record this.base_connection { incoming = arrivals };
}

-- The loop of `receive_server_message` with that of `receive_message_with_data` inside it. Nothing
-- leaves it with a message.
unfoldable pub receive_loop : List Arrival → Client → Reply ServerMessageV0 × Client
receive_loop [] this = (waiting, with_incoming [] this)
receive_loop (failure ∷ arrivals) this = (failed connection_error, with_incoming arrivals this)
receive_loop (delivered none channel_id ∷ arrivals) this = receive_loop arrivals this
receive_loop (delivered (some source) channel_id ∷ arrivals) this =
    then_with
      (absorb source (if is_single this then none else channel_id) (with_incoming arrivals this))
      (λ _ next. receive_loop arrivals next)

-- `receive_server_message`: data that was left is taken first.
unfoldable pub receive_server_message : Client → Reply ServerMessageV0 × Client
receive_server_message this = elim this.stream_left [
  | none ↦ receive_loop this.base_connection.incoming this
  | some (source, channel_id) ↦
      then_with (absorb source (some channel_id) (record this { stream_left = none }))
        (λ _ next. receive_loop next.base_connection.incoming next)
]
