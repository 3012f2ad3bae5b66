-- ===== src/Matchmaking.antt =====
-- src/matchmaking/mod.rs: `Matchmaker`. The clients and the servers of protocols are behind traits,
-- so they are types here, and what the matchmaker asks of a server is a list of calls, oldest first.
-- The table of open ports is locked twice in one handler, in `Open` to look and in `Close` to change;
-- one task handles all port events, so each handler is one step.
use state_proxy.Base.{
  ℕ, Bool, if◌then◌else◌, List, [], ◌∷◌, ◌++◌, lookup, Option, none, some, Text, Text_discrete,
  ℕ_discrete, Outcome, returned, panicked, ◌>>=◌, Result, ok, err, insert, remove,
}
use state_proxy.Backend.Manager.{PortEvent, open_port, close_port}
pub mod PortEvents
pub mod Listening
pub mod Connections
mod Tests
mod RouteTests

pub data MatchmakerError : Type 0 where
  client_already_registered : Text → MatchmakerError
  server_already_registered : Text → MatchmakerError
  unknown_protocol : Text → MatchmakerError

pub data ServerCall (S : Type 0) : Type 0 where
  listen : S → ℕ → ServerCall S
  mute : S → ℕ → ServerCall S

pub record Matchmaker (C S : Type 0) : Type 0 where
  pub protocol_clients : List (Text × C)
  pub protocol_servers : List (Text × S)
  pub open_ports : List (ℕ × S)
  pub calls : List (ServerCall S)

module _ {C S : Type 0} where
  unfoldable pub new : Matchmaker C S
  new = record { protocol_clients = []; protocol_servers = []; open_ports = []; calls = [] }

  -- `register_client`, with the name of the client's protocol.
  unfoldable pub register_client :
      Text → C → Matchmaker C S → Result MatchmakerError (Matchmaker C S)
  register_client name client this = elim (lookup Text_discrete name this.protocol_clients) [
    | none ↦
        ok (record this {
          protocol_clients = insert Text_discrete name client this.protocol_clients;
        })
    | some _ ↦ err (client_already_registered name)
  ]

  -- `register_server`.
  unfoldable pub register_server :
      Text → S → Matchmaker C S → Result MatchmakerError (Matchmaker C S)
  register_server name server this = elim (lookup Text_discrete name this.protocol_servers) [
    | none ↦
        ok (record this {
          protocol_servers = insert Text_discrete name server this.protocol_servers;
        })
    | some _ ↦ err (server_already_registered name)
  ]

  -- The arm of `Open`: the assertion asks whether the port is free, and nothing enters the port.
  unfoldable pub handle_open :
      ℕ → Text → Matchmaker C S → Outcome (Result MatchmakerError (Matchmaker C S))
  handle_open port protocol this = elim (lookup Text_discrete protocol this.protocol_servers) [
    | none ↦ returned (err (unknown_protocol protocol))
    | some protocol_server ↦ elim (lookup ℕ_discrete port this.open_ports) [
      | none ↦
          returned (ok (record this { calls = this.calls ++ listen protocol_server port ∷ [] }))
      | some _ ↦ panicked
    ]
  ]

  -- The arm of `Close`.
  unfoldable pub handle_close : ℕ → Matchmaker C S → Matchmaker C S
  handle_close port this = elim (lookup ℕ_discrete port this.open_ports) [
    | none ↦ this
    | some protocol_server ↦ record this {
      open_ports = remove ℕ_discrete port this.open_ports;
      calls = this.calls ++ mute protocol_server port ∷ [];
    }
  ]

  -- `handle_port_event`.
  unfoldable pub handle_port_event :
      PortEvent → Matchmaker C S → Outcome (Result MatchmakerError (Matchmaker C S))
  handle_port_event (open_port port protocol) this = handle_open port protocol this
  handle_port_event (close_port port) this = returned (ok (handle_close port this))

  -- `Result::unwrap` in the loop of `run`.
  abbrev pub unwrap_handled : Result MatchmakerError (Matchmaker C S) → Outcome (Matchmaker C S)
  unwrap_handled (ok next) = returned next
  unwrap_handled (err e) = panicked

  -- The loop of `run`, over the events that it receives.
  unfoldable pub handle_port_events : List PortEvent → Matchmaker C S → Outcome (Matchmaker C S)
  handle_port_events [] this = returned this
  handle_port_events (event ∷ events) this = do
    handled ← handle_port_event event this
    next ← unwrap_handled handled
    handle_port_events events next

  -- `run`, once its sender is set in the service manager (`listener_set` of Backend/PanicRuns): over the events
  -- that come, and to the panic behind the loop if the channel is closed then.
  unfoldable pub run : Bool → List PortEvent → Matchmaker C S → Outcome (Matchmaker C S)
  run is_closed events this = do
    next ← handle_port_events events this
    if is_closed then panicked else returned next
