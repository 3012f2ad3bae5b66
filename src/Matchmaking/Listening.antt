-- ===== src/Matchmaking/Listening.antt =====
-- The matchmaker as the listener of the service manager's port events.
use mathlib.Core.List.{mem-append_right, mem-cons_of_mem, mem-cons_self}
use state_proxy.Base.{
  ℕ, false, List, [], ◌∷◌, ◌++◌, lookup, some, Text, Text_discrete, ℕ_discrete, returned, ◌≡◌, ap,
  sym, ◌∙◌, ◌⊎◌, inl, inr, if_neg, arith, Option-cases, IterationOrder, Mem,
}
use state_proxy.Backend.Channel.{Sender}
use state_proxy.Backend.Manager.{Service, ServiceManager, PortEvent, open_port, close_port}
use state_proxy.Backend.View.{protocol_at, replay, no_ports, observe, PortView}
use state_proxy.Backend.PanicRuns.{PanicReach, replay-protocol_at_panic}
use state_proxy.Matchmaking.{Matchmaker, ServerCall, listen, run}
use state_proxy.Matchmaking.PortEvents.{listens, run-listens}

-- Some server of the protocol was asked to listen on the port.
abbrev pub IsListening : {S : Type 0} → List (Text × S) → List (ServerCall S) → ℕ → Text → Type 0
IsListening {S} servers calls port protocol =
    (server : S) × (lookup Text_discrete protocol servers ≡ some server)
    × Mem (listen server port) calls

module _ {S : Type 0} where
  -- A port that is open after some events was open before, or a call is among those that they make.
  replay-IsListening :
      (servers : List (Text × S)) (events : List PortEvent) (calls : List (ServerCall S))
      (v : PortView) (q : ℕ) {protocol : Text}
      → listens servers events ≡ some calls
      → replay events v q ≡ some protocol
      → (v q ≡ some protocol) ⊎ IsListening servers calls q protocol
  replay-IsListening servers [] calls v q told opened = inl opened
  replay-IsListening servers (close_port port ∷ events) calls v q told opened =
      elim (replay-IsListening servers events calls (observe (close_port port) v) q told opened) [
        | inl before ↦ inl (ground arith)
        | inr listening ↦ inr listening
      ]
  replay-IsListening servers (open_port port named ∷ events) calls v q {protocol} told opened =
      elim (Option-cases (lookup Text_discrete named servers)) [
        | inl gone ↦ absurd (ground arith)
        | inr (server, known) ↦ elim (Option-cases (listens servers events)) [
          | inl failed ↦ absurd (ground arith)
          | inr (later, rest) ↦
              let all_calls : calls ≡ listen server port ∷ later = ground arith in
              elim (replay-IsListening servers events later (observe (open_port port named) v) q
                rest opened) [
                  | inl now ↦ elim (ℕ_discrete q port) [
                    | yes same ↦
                        let its : named ≡ protocol = ground arith in
                        inr (
                          server,
                          ap (λ (x : Text). lookup Text_discrete x servers) (sym its) ∙ known,
                          rw (all_calls, same) mem-cons_self,
                        )
                    | no off ↦ inl (sym (if_neg (ℕ_discrete q port) off _ _) ∙ now)
                  ]
                  | inr (other, kept, among) ↦
                      inr (other, kept, rw all_calls (mem-cons_of_mem (listen server port) among))
                ]
        ]
      ]

module _ {C S : Type 0} where
  run-calls :
      (events : List PortEvent) (this next : Matchmaker C S)
      → this.open_ports ≡ []
      → run false events this ≡ returned next
      → (calls : List (ServerCall S)) × (listens this.protocol_servers events ≡ some calls)
        × (next.calls ≡ this.calls ++ calls)
  run-calls events this next closed h = elim (Option-cases (listens this.protocol_servers events)) [
    | inl failed ↦ absurd (let all = run-listens false events this closed in ground arith)
    | inr (calls, told) ↦
        (calls, told, let all = run-listens false events this closed in ground arith)
  ]

  -- From an empty manager, whatever its tasks do and in whatever order, tasks that panic included: once a
  -- matchmaker that entered no port as open, and whose channel is still open, has run over the port events
  -- that the manager sent, it has asked, for every port that the map serves, the server that it has for
  -- the port's protocol to listen on that port.
  pub run-IsListening :
      (order : IterationOrder (ℕ × Service)) {manager : ServiceManager} (sender : Sender PortEvent)
      (this next : Matchmaker C S) (q : ℕ) (protocol : Text)
      → PanicReach order manager
      → manager.port_event_sender ≡ some sender
      → sender.is_closed ≡ false
      → this.open_ports ≡ []
      → run false sender.sent this ≡ returned next
      → protocol_at manager.port_service_map q ≡ some protocol
      → IsListening this.protocol_servers next.calls q protocol
  run-IsListening order sender this next q protocol r held alive closed h served =
      let (calls, told, all_calls) = run-calls sender.sent this next closed h in
      let heard = replay-protocol_at_panic order sender q r held alive in
      elim (replay-IsListening this.protocol_servers sender.sent calls no_ports q told
        (heard ∙ served)) [
          | inl before ↦ absurd cc
          | inr (server, known, among) ↦
              (server, known, rw all_calls (mem-append_right this.calls among))
        ]
