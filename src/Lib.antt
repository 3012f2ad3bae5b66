-- ===== src/Lib.antt =====
-- state-proxy: a proxy that learns which services run behind it and on which ports they are asked
-- for, and that passes connections on over protocols that can be taken apart and put together again.
--
-- The parts, and how they meet. A discovery task watches a cluster (src/kubernetes/mod.rs) and sends
-- endpoint events over a channel. The service manager (src/backend/mod.rs, with the types of
-- src/backend/endpoint.rs) takes them, keeps the services by port and their endpoints by identity,
-- tells a listener which ports to open and to close, and chooses an endpoint for a connection.
-- Protocols are registered by name (src/protocol/mod.rs). The endpoint protocol
-- (src/protocol/proxy/endpoint.rs) is one that runs over a connection of another protocol. The
-- matchmaker (src/matchmaking/mod.rs) is the listener of the port events, and src/state.rs keeps the
-- connections; the crate does not build these two at this commit. src/bin/main.rs starts it all.
--
-- Files.
--   Base: names of the libraries, panics as outcomes, lists and hash tables with native numbers,
--     texts, splitting, and the decimal parser.
--   Backend: Endpoint, Channel, Manager (`ServiceManager`, `process_event`,
--     `send_port_events_to`), Discovery (`register_endpoint_discovery`,
--     `listen_for_discovery_events`), Select (`get_endpoint_for`); InPlace is `process_event` with
--     the state that a panic leaves. View is the abstract view of the manager, which Refinement,
--     Process and Listener relate to the code; Sanity, Crash, Gone, Aborted and Untouched are about
--     the state after a panic. PanicRuns are the runs of the tasks that share the manager, some of
--     which may panic, KeptRuns those in which no receiver goes away, and Runs has what they share;
--     Isolation and Counters are about the tasks of several discoveries, each of which ends at its
--     panic (`take_event`); Candidates, Selection, Rotation and Fairness are about the choice of an endpoint.
--   Kubernetes: Pod and Monad (state and errors), Runtime (`KubernetesDiscoveryRuntime`); Services,
--     Pods, Restart, Tracking, Known and Bounds are about it. Cluster is `KubernetesConfig` and
--     `KubernetesEndpointDiscovery`; its child is about the names of discoveries.
--   Protocol: Registry (`ProtocolRegistry`), ServerMessage and ClientMessage, Buffer
--     (`fill_buffer_from`), Channels (`ChannelState`), Client (`EndpointProtocolClient`),
--     Negotiation (`init`, `EndpointProtocol`), Message (`Message`), Traits and Connections (the
--     traits `Protocol`, `Connection` and `ProtocolServer`, and who implements them); Filling,
--     Slices, Rounds, Session, Single and Offers are about them.
--   State: `ConnectionMap` of src/state.rs; Fresh and Batch are about its identifiers.
--   Matchmaking: `Matchmaker`; PortEvents and Listening are about its handlers. Connections is
--     `new_connection_sender`; its child is about where the connection tasks go.
--   Arguments: `arg_is_number` and `init_executor` of src/bin/main.rs; Threads is about them.
--   Startup: `run` of src/bin/main.rs, with the HTTP protocol of src/http.rs as it is registered;
--     Started is about it.
--   Served: a pod through all of it, from its event to the choice of its endpoint; Announced and
--     Known are about the endpoints of pods in a manager that takes events of other discoveries too.
--
-- How the code is read. A hash table is a list of entries with each key once; the order of an
-- iteration is a parameter, any permutation. A task holds its lock from the first line of an
-- operation to the last, so each operation is one step, and the interleaving of tasks is a
-- sequence of steps (Backend/PanicRuns). A channel is what was sent over it and whether its receiver
-- is gone; a send to a full channel waits, and is here the send that comes back. A panic is an
-- outcome, and an error a result; where the state after a panic counts, it is kept beside the
-- outcome. Ports are numbers that the parser keeps within 16 bits. Strings are lists of code
-- points, and buffers lists of bytes.
--
-- Bounds and fuel. The loop of `fill_buffer_from` runs on fuel: one round more than the buffer has
-- bytes, which is enough since every round but the last reads one byte at least (Filling).
-- All other loops are structural.
--
-- Parameters. The parser of IP addresses, the JSON encoder, the pods and watch events of the cluster,
-- the `kube` and `http` crates (`Kube`), the builder of the runtime (which refuses zero threads, as
-- its documentation says), what `clap` has read, and what a base connection delivers come from
-- outside.
--
-- Not modelled. Log lines, throughput counters, the rules of the command line, the runtime of tokio,
-- the connection to the cluster, the protocols that have no code yet (src/ssh.rs,
-- src/websockets.rs, src/handover.rs), tests and benchmarks.
pub mod Base
pub mod Backend
pub mod Kubernetes
pub mod Protocol
pub mod State
pub mod Matchmaking
pub mod Arguments
pub mod Startup
pub mod Served
