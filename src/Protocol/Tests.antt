-- ===== src/Protocol/Tests.antt =====
-- The endpoint protocol on concrete values: its registry, messages, buffers and clients.
use state_proxy.Base.{
  ℕ_discrete, inr, ap, ℕ, true, false, [], ◌∷◌, ◌++◌, Option, none, some, ◌≡◌, ◌≢◌, refl, Text,
  codes, ok, arith, returned, panicked, replicate, insert, lookup,
}
use state_proxy.Protocol.Registry
use state_proxy.Protocol.Registry.{
  ProtocolCapabilities, default_capabilities, Protocol, ProtocolRegistry, RegistryError,
  duplicate_registration, register, get, get-register, register-eq-err_iff,
}
use state_proxy.Protocol.ServerMessage
use state_proxy.Protocol.ServerMessage.{
  ServerMessageV0, TakeChannelIdResult, id, uneeded, set-take_channel_id_server,
  take-set_channel_id_server,
}
use state_proxy.Protocol.ClientMessage.{
  ClientMessageV0, take_channel_id, set_channel_id, take-set_channel_id,
}
use state_proxy.Protocol.Buffer.{arrives, fill_buffer_from}
use state_proxy.Protocol.Filling.{fill_buffer_from-ne-none}
use state_proxy.Protocol.Rounds.{fill_buffer_from-panics, fill_buffer_from-loses}
use state_proxy.Protocol.Traits.{http_methods, endpoint_methods}
use state_proxy.Protocol.Traits.Offers.{OffersNothing, http_methods-OffersNothing}
use state_proxy.Protocol.Client.{
  ChannelId_discrete, Reply, waiting, BaseConnection, Client, crashed, delivered, json,
}
use state_proxy.Protocol.Negotiation.{EndpointProtocol, new_client, new}
use state_proxy.Protocol.Session.{new-first_answer}

abbrev http : Protocol
http = record { name = codes "http"; capabilities = default_capabilities }

abbrev with_http : ProtocolRegistry
with_http = record { protocols = (codes "http", http) ∷ [] }

register-http : register http Registry.new ≡ ok with_http
unfolding register Registry.new insert lookup
register-http = refl

taken_server :
    ServerMessage.take_channel_id (ServerMessageV0.accept (some 7))
    ≡ (id 7, ServerMessageV0.accept none)
unfolding ServerMessage.take_channel_id
taken_server = refl

abbrev chunk : Option ℕ → ClientMessageV0
chunk k = ClientMessageV0.data_end k

taken_client : take_channel_id (chunk (some 7)) ≡ (id 7, chunk none)
unfolding take_channel_id
taken_client = refl

take-set_channel_id_example : take_channel_id (set_channel_id (chunk none) 7) ≡ (id 7, chunk none)
unfolding take_channel_id
take-set_channel_id_example = take-set_channel_id (chunk none) 7

fill_buffer_from-ne-none_example : fill_buffer_from (codes "ab") (arrives (codes "cd") ∷ []) ≢ none
fill_buffer_from-ne-none_example = fill_buffer_from-ne-none (codes "ab") (arrives (codes "cd") ∷ [])

fill_buffer_from-loses_example :
    fill_buffer_from (codes "ab") (arrives (codes "cd") ∷ arrives (codes "e") ∷ [])
    ≡ some (returned (ok (codes "abcd" ++ (0 ∷ []), true, [])))
fill_buffer_from-loses_example =
    fill_buffer_from-loses (codes "ab") (codes "cd") (codes "e") (λ h. cc) (λ h. cc) (omega arith)
      (omega arith)

fill_buffer_from-panics_example :
    fill_buffer_from (replicate 600 0) (arrives (codes "a") ∷ []) ≡ some panicked
fill_buffer_from-panics_example =
    fill_buffer_from-panics (replicate 600 0) (codes "a") (λ h. cc) (omega arith) [] (omega arith)

abbrev base : ℕ → BaseConnection
base multiplexing = record {
  protocol_name = codes "tcp";
  capabilities = record default_capabilities { multiplexing = multiplexing };
  incoming = [];
  outgoing = [];
  is_broken = false;
}

abbrev client : ℕ → Client
client multiplexing = record {
  states = [];
  base_connection = base multiplexing;
  base_capabilities = (base multiplexing).capabilities;
  next_channel_id = 0;
  read_buffer_map = (none, []) ∷ [];
  stream_left = none;
  serialization_format = json;
}

abbrev to_json : ClientMessageV0 → Text
to_json (ClientMessageV0.data_end (some k)) = k ∷ []
to_json _ = []

-- A message on the default channel makes the task panic.
abbrev greeted : BaseConnection
greeted = record (base 1) {
  incoming = delivered none none ∷ delivered (some (arrives (codes "{}") ∷ [])) none ∷ [];
}

new-first_answer_example : (new to_json greeted).0 ≡ crashed
new-first_answer_example = new-first_answer to_json greeted refl

abbrev protocol_over : BaseConnection → EndpointProtocol
protocol_over b = record {
  name = codes "p";
  multiplexing = 5;
  sockets = false;
  base_connection = some b;
}

call_back : (c : Client) → (new_client to_json (protocol_over greeted)).0 ≢ inr (waiting, c)
unfolding new_client
call_back c e =
    let same : new to_json greeted ≡ (waiting, c) = ground arith in
    let verdict = new-first_answer to_json greeted refl in
    let stuck = ap (λ (r : Reply (Unit {0}) × Client). r.0) same in cc

-- A client that has a channel, with one byte waiting.
abbrev with_channel : Client
with_channel = record (client 4) { read_buffer_map = (some 7, 1 ∷ []) ∷ [] }

its_buffer : lookup ChannelId_discrete (some 7) with_channel.read_buffer_map ≡ some (1 ∷ [])
unfolding lookup ChannelId_discrete ℕ_discrete
its_buffer = refl

http_methods-OffersNothing_example :
    OffersNothing (http_methods {Connection = ℕ} {Server = ℕ} {Socket = ℕ})
    × OffersNothing (endpoint_methods {Server = ℕ} {Socket = ℕ} to_json)
http_methods-OffersNothing_example = http_methods-OffersNothing to_json
