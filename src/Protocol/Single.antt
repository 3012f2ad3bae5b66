-- ===== src/Protocol/Single.antt =====
-- What an endpoint protocol offers over its base connection, and how many clients it makes.
use state_proxy.Base.{
  ◌^◌, ◌≤◌, ◌<◌, Text, ◌==◌, ◌≡◌, ◌≢◌, refl, inl, inr, Option-cases, Bool-cases, arith,
}
use state_proxy.Protocol.ClientMessage.{ClientMessageV0}
use state_proxy.Protocol.Client.{BaseConnection, Client, waiting, more_than_one_client}
use state_proxy.Protocol.Negotiation.{EndpointProtocol, new_protocol, capabilities, new_client}

-- Once a call for a client has come back, whether it succeeded or not, the next one is refused, and the
-- protocol offers what it offered before.
pub new_client-new_client :
    (to_json to_json' : ClientMessageV0 → Text) (this : EndpointProtocol)
    → ((c : Client) → (new_client to_json this).0 ≢ inr (waiting, c))
    → ((new_client to_json' (new_client to_json this).1).0 ≡ inl more_than_one_client)
      × (capabilities (new_client to_json this).1 ≡ capabilities this)
unfolding new_client capabilities
new_client-new_client to_json to_json' this back = elim (Option-cases this.base_connection) [
  | inl gone ↦ (rw (gone, new_client) (rw gone refl), rw (gone, new_client) refl)
  | inr (base, e) ↦ (rw (e, new_client) refl, rw (e, new_client) refl)
]

-- Over a base connection with at least one channel, and no more than a `u32` counts, the endpoint
-- protocol has more than one, at least as many as the base connection, and no more than a `u32` counts.
pub capabilities-new_protocol :
    (base : BaseConnection)
    → 0 < base.capabilities.multiplexing
    → base.capabilities.multiplexing < 2 ^ 32
    → (1 < (capabilities (new_protocol base)).multiplexing)
      × (base.capabilities.multiplexing ≤ (capabilities (new_protocol base)).multiplexing)
      × ((capabilities (new_protocol base)).multiplexing < 2 ^ 32)
unfolding new_protocol capabilities
capabilities-new_protocol base some_channel fits =
    elim (Bool-cases (base.capabilities.multiplexing == 1)) [
      | inl single ↦ rw single (omega arith, ground arith, omega arith)
      | inr several ↦ rw several (ground arith, omega arith, omega arith)
    ]
