-- ===== src/Protocol/Registry.antt =====
-- src/protocol/mod.rs: `ProtocolCapabilities`, and `ProtocolRegistry` over the name and the
-- capabilities of a protocol. What else a protocol does is behind a trait.
use state_proxy.Base.{
  ℕ, Bool, false, List, [], lookup, Option, none, some, Text, Text_discrete, Result, ok, err,
  insert, lookup-insert, ite, ◌≡◌, ◌≢◌, ◌↔◌, arith, Option-cases, inl, inr,
}

pub record ProtocolCapabilities : Type 0 where
  pub client : Bool
  pub server : Bool
  pub disasm : Bool
  pub message_boundaries : Bool
  pub multiplexing : ℕ
  pub sockets : Bool

-- `ProtocolCapabilities::default`.
unfoldable pub default_capabilities : ProtocolCapabilities
default_capabilities = record {
  client = false;
  server = false;
  disasm = false;
  message_boundaries = false;
  multiplexing = 1;
  sockets = false;
}

pub record Protocol : Type 0 where
  pub name : Text
  pub capabilities : ProtocolCapabilities

pub data RegistryError : Type 0 where
  duplicate_registration : Text → RegistryError

pub record ProtocolRegistry : Type 0 where
  pub protocols : List (Text × Protocol)

unfoldable pub new : ProtocolRegistry
new = record { protocols = [] }

-- `register`: an entry that is occupied is kept, and the registry stays as it was.
unfoldable pub register : Protocol → ProtocolRegistry → Result RegistryError ProtocolRegistry
register protocol this = elim (lookup Text_discrete protocol.name this.protocols) [
  | none ↦
      ok (record this { protocols = insert Text_discrete protocol.name protocol this.protocols })
  | some _ ↦ err (duplicate_registration protocol.name)
]

unfoldable pub get : Text → ProtocolRegistry → Option Protocol
get name this = lookup Text_discrete name this.protocols

-- After a registration the protocol is found under its name, and every other name finds what it
-- found before.
pub get-register :
    (protocol : Protocol) (this : ProtocolRegistry) {next : ProtocolRegistry} (name : Text)
    → register protocol this ≡ ok next
    → get name next ≡ ite (Text_discrete name protocol.name) (some protocol) (get name this)
unfolding register get
get-register protocol this {next} name h =
    elim (Option-cases (lookup Text_discrete protocol.name this.protocols)) [
      | inl free ↦
          let same : next.protocols ≡ insert Text_discrete protocol.name protocol this.protocols =
            ground arith in
          rw same (lookup-insert Text_discrete protocol.name name protocol this.protocols)
      | inr (old, e) ↦ absurd (ground arith)
    ]

-- Registering fails exactly when the name is taken, and then with that name.
pub register-eq-err_iff :
    (protocol : Protocol) (this : ProtocolRegistry)
    → (register protocol this ≡ err (duplicate_registration protocol.name))
      ↔ (get protocol.name this ≢ none)
unfolding register get
register-eq-err_iff protocol this =
    elim (Option-cases (lookup Text_discrete protocol.name this.protocols)) [
      | inl free ↦ (λ h. absurd (ground arith), λ taken. absurd (taken free))
      | inr (old, e) ↦ (λ h free. cc, λ taken. rw (e, register))
    ]
