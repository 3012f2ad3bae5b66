-- ===== src/Protocol/Channels.antt =====
-- src/protocol/proxy/endpoint.rs: `ChannelState`, what each side of a channel is in the middle of. The
-- client keeps a table of these; no code changes it yet.
use state_proxy.Base.{ℕ, Option}

pub data ChannelServerState : Type 0 where
  idle : ChannelServerState
  start_receiving_data : Option ℕ → ChannelServerState
  receiving_chunk : Option ℕ → Option ℕ → ℕ → ChannelServerState
  start_receiving_socket_data : ℕ → Option ℕ → ChannelServerState
  receiving_socket_chunk : ℕ → Option ℕ → Option ℕ → ℕ → ChannelServerState

pub data ChannelClientState : Type 0 where
  waiting_for_acceptance : ChannelClientState
  idle : ChannelClientState
  start_receiving_data : Option ℕ → ChannelClientState
  receiving_chunk : Option ℕ → Option ℕ → ℕ → ChannelClientState
  start_receiving_socket_data : ℕ → Option ℕ → ChannelClientState
  receiving_socket_chunk : ℕ → Option ℕ → Option ℕ → ℕ → ChannelClientState

pub record ChannelState : Type 0 where
  pub client : ChannelClientState
  pub server : ChannelServerState

-- `ChannelState::default`.
unfoldable pub default_state : ChannelState
default_state = record {
  client = ChannelClientState.waiting_for_acceptance;
  server = ChannelServerState.idle;
}
