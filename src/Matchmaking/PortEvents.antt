-- ===== src/Matchmaking/PortEvents.antt =====
-- What the matchmaker does with port events.
use mathlib.Core.List.{append_assoc, append-nil}
use state_proxy.Base.{
  ℕ, Bool, Bool-cases, if◌then◌else◌, List, [], ◌∷◌, ◌++◌, lookup, Option, none, some, Text,
  Text_discrete, ℕ_discrete, Outcome, returned, panicked, ok, insert, ◌≡◌, refl, ap, ◌∙◌, sym,
  Option-cases, inl, inr, arith, ite, lookup-insert,
}
use state_proxy.Backend.Manager.{PortEvent, open_port, close_port}
use state_proxy.Matchmaking.{
  Matchmaker, ServerCall, listen, register_client, register_server, handle_open, handle_close,
  handle_port_event, handle_port_events, run,
}

module _ {S : Type 0} where
  -- The calls that a run makes, if it makes any: one `listen` for each `Open`, none for a `Close`; or
  -- nothing, where an `Open` names a protocol without a server.
  abbrev pub listens : List (Text × S) → List PortEvent → Option (List (ServerCall S))
  listens servers [] = some []
  listens servers (close_port port ∷ events) = listens servers events
  listens servers (open_port port protocol ∷ events) =
      elim (lookup Text_discrete protocol servers) [
        | none ↦ none
        | some server ↦ elim (listens servers events) [
          | none ↦ none
          | some calls ↦ some (listen server port ∷ calls)
        ]
      ]

module _ {C S : Type 0} where
  abbrev with_calls : Matchmaker C S → List (ServerCall S) → Matchmaker C S
  with_calls this calls = record this { calls = calls }

  abbrev pub after_calls : Matchmaker C S → Option (List (ServerCall S)) → Outcome (Matchmaker C S)
  after_calls this none = panicked
  after_calls this (some calls) = returned (record this { calls = this.calls ++ calls })

  after_calls-cons :
      (this : Matchmaker C S) (call : ServerCall S) (o : Option (List (ServerCall S)))
      → after_calls (record this { calls = this.calls ++ call ∷ [] }) o
        ≡ after_calls this (elim o [ none ↦ none | some calls ↦ some (call ∷ calls) ])
  after_calls-cons this call none = refl
  after_calls-cons this call (some calls) =
      ap (λ (cs : List (ServerCall S)). returned (record this { calls = cs }))
        (append_assoc this.calls (call ∷ []) calls)

  handle_close-free :
      (port : ℕ) (this : Matchmaker C S)
      → lookup ℕ_discrete port this.open_ports ≡ none
      → handle_close port this ≡ this
  unfolding handle_close
  handle_close-free port this free = rw (free, handle_close) refl

  -- While no port is entered as open, the loop over any port events asks the server of its protocol to
  -- listen at every `Open`, mutes nothing at any `Close`, and enters no port as open; it panics exactly
  -- if some `Open` names a protocol without a server.
  handle_port_events-listens :
      (events : List PortEvent) (this : Matchmaker C S)
      → this.open_ports ≡ []
      → handle_port_events events this ≡ after_calls this (listens this.protocol_servers events)
  unfolding handle_port_events handle_port_event handle_open handle_close lookup
  handle_port_events-listens [] this closed =
      ap (λ (cs : List (ServerCall S)). returned (with_calls this cs)) (sym (append-nil this.calls))
  handle_port_events-listens (close_port port ∷ events) this closed =
      ap (handle_port_events events)
        (handle_close-free port this (ap (lookup ℕ_discrete port) closed))
      ∙ handle_port_events-listens events this closed
  handle_port_events-listens (open_port port protocol ∷ events) this closed =
      elim (Option-cases (lookup Text_discrete protocol this.protocol_servers)) [
        | inl gone ↦
            rw (gone, handle_port_events, handle_port_event, handle_open, after_calls, listens) refl
        | inr (server, e) ↦
            let told = record this { calls = this.calls ++ listen server port ∷ [] } in
            let free : lookup ℕ_discrete port this.open_ports ≡ none =
              ap (lookup ℕ_discrete port) closed in
            rw (e, free, handle_port_events, handle_port_event, handle_open, after_calls, listens)
              (handle_port_events-listens events told closed
                ∙ after_calls-cons this (listen server port) (listens this.protocol_servers events))
      ]

  -- While no port is entered as open, a run over any port events asks the server of its protocol to
  -- listen at every `Open`, mutes nothing at any `Close`, and enters no port as open; it panics exactly
  -- if some `Open` names a protocol without a server, or the channel is closed behind the events.
  pub run-listens :
      (is_closed : Bool) (events : List PortEvent) (this : Matchmaker C S)
      → this.open_ports ≡ []
      → run is_closed events this
        ≡ after_calls this (if is_closed then none else listens this.protocol_servers events)
  unfolding run
  run-listens is_closed events this closed =
      let all = handle_port_events-listens events this closed in
      elim (Option-cases (listens this.protocol_servers events)) [
        | inl failed ↦ elim (Bool-cases is_closed) [
          | inl over ↦ ground arith
          | inr still_open ↦ ground arith
        ]
        | inr (calls, told) ↦ elim (Bool-cases is_closed) [
          | inl over ↦ ground arith
          | inr still_open ↦ ground arith
        ]
      ]

  -- A server that is registered is found under its protocol, every other protocol finds what it found
  -- before, and the clients, the open ports and the calls stay.
  pub lookup-register_server :
      (name : Text) (server : S) (this : Matchmaker C S) {next : Matchmaker C S} (other : Text)
      → register_server name server this ≡ ok next
      → (lookup Text_discrete other next.protocol_servers
          ≡ ite
              (Text_discrete other name)
              (some server)
              (lookup Text_discrete other this.protocol_servers))
        × (next.protocol_clients ≡ this.protocol_clients)
        × (next.open_ports ≡ this.open_ports)
        × (next.calls ≡ this.calls)
  unfolding register_server
  lookup-register_server name server this {next} other h =
      elim (Option-cases (lookup Text_discrete name this.protocol_servers)) [
        | inl free ↦
            let same : next ≡ record this {
              protocol_servers = insert Text_discrete name server this.protocol_servers;
            } =
              ground arith in
            rw same (
              lookup-insert Text_discrete name other server this.protocol_servers,
              refl,
              refl,
              refl,
            )
        | inr (old, e) ↦ absurd (ground arith)
      ]

  -- A client that is registered is found under its protocol, every other protocol finds what it found
  -- before, and the servers, the open ports and the calls stay.
  pub lookup-register_client :
      (name : Text) (client : C) (this : Matchmaker C S) {next : Matchmaker C S} (other : Text)
      → register_client name client this ≡ ok next
      → (lookup Text_discrete other next.protocol_clients
          ≡ ite
              (Text_discrete other name)
              (some client)
              (lookup Text_discrete other this.protocol_clients))
        × (next.protocol_servers ≡ this.protocol_servers)
        × (next.open_ports ≡ this.open_ports)
        × (next.calls ≡ this.calls)
  unfolding register_client
  lookup-register_client name client this {next} other h =
      elim (Option-cases (lookup Text_discrete name this.protocol_clients)) [
        | inl free ↦
            let same : next ≡ record this {
              protocol_clients = insert Text_discrete name client this.protocol_clients;
            } =
              ground arith in
            rw same (
              lookup-insert Text_discrete name other client this.protocol_clients,
              refl,
              refl,
              refl,
            )
        | inr (old, e) ↦ absurd (ground arith)
      ]
