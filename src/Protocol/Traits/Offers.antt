-- ===== src/Protocol/Traits/Offers.antt =====
-- What the protocols that are written offer.
use state_proxy.Base.{Text, inl, inr, ◌≡◌, ◌≢◌, refl, ap, ◌∙◌, sym, Option-cases}
use state_proxy.Backend.Endpoint.{SocketAddr}
use state_proxy.Protocol.Message.{ConnectionState}
use state_proxy.Protocol.ClientMessage.{ClientMessageV0}
use state_proxy.Protocol.Client.{
  Client, Reply, done, failed, crashed, waiting, more_than_one_client,
}
use state_proxy.Protocol.Negotiation
use state_proxy.Protocol.Negotiation.{EndpointProtocol}
use state_proxy.Protocol.Session.{new-ne-done}
use state_proxy.Protocol.Traits.{
  Methods, answered, default_methods, http_methods, call_of, client_call, endpoint_methods,
}

-- No method ever gives a client or a server.
pub record OffersNothing {Self Connection Server Socket : Type 0}
    (methods : Methods Self Connection Server Socket) : Type 0 where
  pub no_client :
      (address : Text) (this : Self) (c : Connection)
      → (methods.new_client address this).0 ≢ answered c
  pub no_assembly :
      (state : ConnectionState Socket) (this : Self) (c : Connection)
      → (methods.assemble_client state this).0 ≢ answered c
  pub no_server :
      (address : SocketAddr) (this : Self) (s : Server)
      → (methods.new_server address this).0 ≢ answered s

answered_done :
    (r : Reply (Unit {0}) × Client) (c : Client) → call_of r ≡ answered c → r.0 ≡ done tt
answered_done (done _, client) c h = refl
answered_done (failed e, client) c h = cc
answered_done (crashed, client) c h = cc
answered_done (waiting, client) c h = cc

no_endpoint_client :
    (to_json : ClientMessageV0 → Text) (this : EndpointProtocol) (c : Client)
    → client_call (Negotiation.new_client to_json this).0 ≢ answered c
unfolding Negotiation.new_client
no_endpoint_client to_json this c h = elim (Option-cases this.base_connection) [
  | inl gone ↦
      let taken : (Negotiation.new_client to_json this).0 ≡ inl more_than_one_client =
        rw (gone, Negotiation.new_client) refl in
      let end = sym (ap client_call taken) ∙ h in absurd cc
  | inr (base, e) ↦
      let made : (Negotiation.new_client to_json this).0 ≡ inr (Negotiation.new to_json base) =
        rw (e, Negotiation.new_client) refl in
      new-ne-done to_json base
        (answered_done (Negotiation.new to_json base) c (sym (ap client_call made) ∙ h))
]

module _ {Server Socket : Type 0} (to_json : ClientMessageV0 → Text) where
  -- Neither the HTTP protocol nor the endpoint protocol ever gives a client or a server, or puts a client
  -- together again, whatever it is asked and whatever the base connection delivers.
  pub http_methods-OffersNothing :
      {Connection : Type 0}
      → OffersNothing (http_methods {Connection = Connection} {Server = Server} {Socket = Socket})
        × OffersNothing (endpoint_methods {Server = Server} {Socket = Socket} to_json)
  unfolding http_methods endpoint_methods default_methods
  http_methods-OffersNothing = (
    record {
      no_client = λ address this c h. cc;
      no_assembly = λ state this c h. cc;
      no_server = λ address this s h. cc;
    },
    record {
      no_client = λ address this c. no_endpoint_client to_json this c;
      no_assembly = λ state this c h. cc;
      no_server = λ address this s h. cc;
    },
  )
