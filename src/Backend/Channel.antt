-- ===== src/Backend/Channel.antt =====
-- The sending half of a tokio `mpsc` channel. A send to a full channel waits for the receiver, so a
-- send that comes back has either queued its value or found the receiver gone; the list holds
-- everything that was queued since the channel was made, oldest first.
use state_proxy.Base.{Bool, List, [], ◌∷◌, ◌++◌, Option, none, some, if◌then◌else◌}

pub record Sender (A : Type 0) : Type 0 where
  pub is_closed : Bool
  pub sent : List A

-- `Sender::send`: the sender after it, or `none` where the receiver is gone.
unfoldable pub send : {A : Type 0} → Sender A → A → Option (Sender A)
send s a = if s.is_closed then none else some (record s { sent = s.sent ++ a ∷ [] })
