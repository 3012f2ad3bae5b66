-- ===== src/Protocol/Session.antt =====
-- How the negotiation of a client of the endpoint protocol ends.
use state_proxy.Base.{
  if_neg, ◌≡◌, ◌∙◌, ℕ, Option, false, Bool, Bool-cases, lookup, ap, ◌==◌, List, [], ◌∷◌, none, some,
  Text, inl, inr, if◌then◌else◌, ◌≢◌, refl, Option-cases,
}
use state_proxy.Protocol.ServerMessage.{ServerMessageV0}
use state_proxy.Protocol.ClientMessage.{take_channel_id, ClientMessageV0}
use state_proxy.Protocol.Buffer.{Source, fill_buffer_from}
use state_proxy.Protocol.Client.{
  keep_filled, server_created_channel, connection_error, transmit, send_client_message,
  ChannelId_discrete, Arrival, delivered, failure, BaseConnection, Client, Reply, done, failed,
  crashed, waiting, then_with, is_single, absorb, with_incoming, receive_loop,
  receive_server_message,
}
use state_proxy.Protocol.Negotiation.{accept_hello, init, new}

-- A call that is not done cannot be, and what waits on it is not.
then_with-ne-done :
    {A B : Type 0} (r : Reply A × Client) (f : A → Client → Reply B × Client)
    → ((a : A) (this : Client) (b : B) → (f a this).0 ≢ done b)
    → (b : B) → (then_with r f).0 ≢ done b
then_with-ne-done (done a, this) f h b = h a this b
then_with-ne-done (failed e, this) f h b = λ c. cc
then_with-ne-done (crashed, this) f h b = λ c. cc
then_with-ne-done (waiting, this) f h b = λ c. cc

receive_loop-ne-done :
    (arrivals : List Arrival) (this : Client) (m : ServerMessageV0)
    → (receive_loop arrivals this).0 ≢ done m
unfolding receive_loop
receive_loop-ne-done [] this m = λ c. cc
receive_loop-ne-done (failure ∷ arrivals) this m = λ c. cc
receive_loop-ne-done (delivered none channel_id ∷ arrivals) this m =
    receive_loop-ne-done arrivals this m
receive_loop-ne-done (delivered (some source) channel_id ∷ arrivals) this m =
    then_with-ne-done
      (absorb source (if is_single this then none else channel_id) (with_incoming arrivals this))
      (λ _ next. receive_loop arrivals next) (λ _ next k. receive_loop-ne-done arrivals next k) m

receive_server_message-ne-done :
    (this : Client) (m : ServerMessageV0) → (receive_server_message this).0 ≢ done m
unfolding receive_server_message
receive_server_message-ne-done this m = elim (Option-cases this.stream_left) [
  | inl e ↦
      rw (e, receive_server_message) (receive_loop-ne-done this.base_connection.incoming this m)
  | inr ((source, k), e) ↦
      rw (e, receive_server_message)
        (then_with-ne-done (absorb source (some k) (record this { stream_left = none }))
          (λ _ next. receive_loop next.base_connection.incoming next)
          (λ _ next n. receive_loop-ne-done next.base_connection.incoming next n) m)
]

-- What never is done cannot be continued.
then_with-ne-done_left :
    {A B : Type 0} (r : Reply A × Client) (f : A → Client → Reply B × Client)
    → ((a : A) → r.0 ≢ done a)
    → (b : B) → (then_with r f).0 ≢ done b
then_with-ne-done_left (done a, this) f h b = absurd (h a refl)
then_with-ne-done_left (failed e, this) f h b = λ c. cc
then_with-ne-done_left (crashed, this) f h b = λ c. cc
then_with-ne-done_left (waiting, this) f h b = λ c. cc

-- Whatever the base connection delivers, a client of the endpoint protocol is never initialized: the
-- negotiation fails, panics or waits, since no server message is ever received.
pub new-ne-done :
    (to_json : ClientMessageV0 → Text) (base : BaseConnection) → (new to_json base).0 ≢ done tt
unfolding new init
new-ne-done to_json base =
    then_with-ne-done _ _
      (λ _ sent.
        then_with-ne-done_left (receive_server_message sent) accept_hello
          (receive_server_message-ne-done sent))
      tt

-- How the negotiation ends, from what the base connection delivers: the first message with data
-- decides.
abbrev pub first_answer : Bool → List Arrival → Reply (Unit {0})
first_answer single [] = waiting
first_answer single (failure ∷ arrivals) = failed connection_error
first_answer single (delivered none channel_id ∷ arrivals) = first_answer single arrivals
first_answer single (delivered (some source) none ∷ arrivals) = crashed
first_answer single (delivered (some source) (some k) ∷ arrivals) =
    if single then crashed else failed (server_created_channel k)

-- The client knows the default channel alone.
abbrev HasDefaultOnly : Client → Type 0
HasDefaultOnly this = this.read_buffer_map ≡ (none, []) ∷ []

absorb-default : (source : Source) (this : Client) → absorb source none this ≡ (crashed, this)
unfolding absorb
absorb-default source this = refl

absorb-unknown :
    (source : Source) (k : ℕ) (this : Client)
    → HasDefaultOnly this
    → absorb source (some k) this ≡ (failed (server_created_channel k), this)
unfolding absorb lookup
absorb-unknown source k this h = ap buffered (
    ap (lookup ChannelId_discrete (some k)) h
    ∙ if_neg (ChannelId_discrete (some k) none) (λ e. cc) _ _)
  where
    buffered : Option Text → Reply (Unit {0}) × Client
    buffered none = (failed (server_created_channel k), this)
    buffered (some read_buffer) = keep_filled (some k) this (fill_buffer_from read_buffer source)

receive_loop-first_answer :
    (arrivals : List Arrival) (this : Client)
    → HasDefaultOnly this
    → (then_with (receive_loop arrivals this) accept_hello).0
      ≡ first_answer (is_single this) arrivals
unfolding receive_loop
receive_loop-first_answer [] this h = refl
receive_loop-first_answer (failure ∷ arrivals) this h = refl
receive_loop-first_answer (delivered none channel_id ∷ arrivals) this h =
    receive_loop-first_answer arrivals this h
receive_loop-first_answer (delivered (some source) none ∷ arrivals) this h =
    elim (Bool-cases (is_single this)) [
      | inl e ↦ rw (e, absorb-default source (with_incoming arrivals this)) refl
      | inr e ↦ rw (e, absorb-default source (with_incoming arrivals this)) refl
    ]
receive_loop-first_answer (delivered (some source) (some k) ∷ arrivals) this h =
    elim (Bool-cases (is_single this)) [
      | inl e ↦ rw (e, absorb-default source (with_incoming arrivals this)) refl
      | inr e ↦ rw (e, absorb-unknown source k (with_incoming arrivals this) h) refl
    ]

-- Over a base connection that is not broken, the negotiation ends as the first message with data
-- says: a message on the default channel makes the task panic, one on a channel `k` fails with
-- `ServerCreatedChannel`, an error of the connection is passed on, and without any it waits.
pub new-first_answer :
    (to_json : ClientMessageV0 → Text) (base : BaseConnection)
    → base.is_broken ≡ false
    → (new to_json base).0 ≡ first_answer (base.capabilities.multiplexing == 1) base.incoming
unfolding new init send_client_message transmit receive_server_message take_channel_id
new-first_answer to_json base alive =
    rw (alive, new) (receive_loop-first_answer base.incoming _ refl)
