-- ===== src/Protocol.antt =====
-- src/protocol: the registry of protocols (`Registry`), messages (`Message`), and the traits with who
-- implements them (`Traits`, `Connections`); of the endpoint protocol in
-- src/protocol/proxy/endpoint.rs its messages, the states of a channel, the filling of a read buffer
-- (`Buffer`), and the client (`Client`, `Negotiation`), with what is proved of each.
pub mod Registry
pub mod ServerMessage
pub mod ClientMessage
pub mod Channels
pub mod Buffer
pub mod Filling
pub mod Slices
pub mod Rounds
pub mod Client
pub mod Message
pub mod Negotiation
pub mod Session
pub mod Single
pub mod Traits
pub mod Connections
mod Tests
