-- ===== src/Kubernetes/Monad.antt =====
-- The state of `KubernetesDiscoveryRuntime`, and calls that change it and may fail. A failed call
-- keeps the changes that it made before it failed.
use state_proxy.Base.{List, Text, Result, ok, err, none, some}
use state_proxy.Backend.Endpoint.{EndpointEvent}
use state_proxy.Backend.Channel
use state_proxy.Backend.Channel.{Sender}

pub record Runtime : Type 0 where
  pub sender : Sender EndpointEvent
  pub known_pod_uids : List Text

pub data Error : Type 0 where
  channel_closed : Error
  invalid_service_string : Error
  not_a_port : Text → Error
  not_an_address : Text → Error
  no_client : Text → Error
  watch_failed : Text → Error
  stream_closed : Error

abbrev pub M : Type 0 → Type 0
M A = Runtime → Result Error A × Runtime

abbrev pub continue :
    {A B : Type 0} → Result Error A × Runtime → (A → M B) → Result Error B × Runtime
continue (ok a, r) f = f a r
continue (err e, r) f = (err e, r)

infixl 5 ◌>>=◌ ◌>>◌
abbrev pub ◌>>=◌ : {A B : Type 0} → M A → (A → M B) → M B
◌>>=◌ m f r = continue (m r) f

abbrev pub ◌>>◌ : {B : Type 0} → M (Unit {0}) → M B → M B
m >> k = m >>= λ _. k

abbrev pub pure : {A : Type 0} → A → M A
pure a r = (ok a, r)

abbrev pub fail : {A : Type 0} → Error → M A
fail e r = (err e, r)

-- `send`.
unfoldable pub send : EndpointEvent → M (Unit {0})
unfolding Channel.send
send event this = elim (Channel.send this.sender event) [
  | none ↦ (err channel_closed, this)
  | some sender' ↦ (ok tt, record this { sender = sender' })
]
