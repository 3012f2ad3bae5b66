-- ===== src/State.antt =====
-- src/state.rs: `ConnectionMap`, the connections of the process by their identifiers. The sockets and
-- the handles of the protocols are types of other crates.
use state_proxy.Base.{
  ℕ, ◌+◌, ◌-◌, ◌^◌, List, [], ◌∷◌, Text, Outcome, returned, panicked, ◌>>=◌, insert, ℕ_discrete,
  ◌==◌, if◌then◌else◌,
}
use state_proxy.Backend.Endpoint.{SocketAddr}
pub mod Fresh
pub mod Batch
mod Tests

pub data ProtocolHandle (Tcp Udp Http Ssh Websocket : Type 0) : Type 0 where
  raw_tcp : Tcp → SocketAddr → ProtocolHandle Tcp Udp Http Ssh Websocket
  raw_udp : Udp → ProtocolHandle Tcp Udp Http Ssh Websocket
  http : Http → SocketAddr → ProtocolHandle Tcp Udp Http Ssh Websocket
  ssh : Ssh → SocketAddr → ProtocolHandle Tcp Udp Http Ssh Websocket
  websocket : Websocket → SocketAddr → ProtocolHandle Tcp Udp Http Ssh Websocket

-- `Connection`, over the type of the handles; the application's state is a list of bytes.
pub record Connection (H : Type 0) : Type 0 where
  pub external_connection : H
  pub application_state : List ℕ
  pub application_sockets : List (Text × H)

pub record ConnectionMap (H : Type 0) : Type 0 where
  pub next_id : ℕ
  pub connections : List (ℕ × Connection H)

-- The largest `ConnectionId`, a `u64`.
abbrev pub max_id : ℕ
max_id = 2 ^ 64 - 1

module _ {H : Type 0} where
  unfoldable pub new : ConnectionMap H
  new = record { next_id = 0; connections = [] }

  -- `Connection::new`.
  unfoldable pub new_connection : H → Connection H
  new_connection external_connection = record {
    external_connection = external_connection;
    application_state = [];
    application_sockets = [];
  }

  -- `register`: the checked addition comes before the insertion, so the last identifier is never
  -- given out.
  unfoldable pub register : H → ConnectionMap H → Outcome (ℕ × ConnectionMap H)
  register external_connection this =
      if this.next_id == max_id
      then panicked
      else returned (
        this.next_id,
        record {
          next_id = this.next_id + 1;
          connections =
              insert ℕ_discrete this.next_id (new_connection external_connection) this.connections;
        },
      )

  -- Calls one after the other, each under the lock of the map.
  unfoldable pub register_all : List H → ConnectionMap H → Outcome (List ℕ × ConnectionMap H)
  register_all [] this = returned ([], this)
  register_all (h ∷ hs) this = do
    (id, mid) ← register h this
    (ids, next) ← register_all hs mid
    returned (id ∷ ids, next)
