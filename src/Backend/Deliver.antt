-- ===== src/Backend/Deliver.antt =====
-- The port events of one event of a discovery task, as their listener receives them.
use mathlib.Core.List.{append_assoc, append-nil}
use state_proxy.Base.{
  List, [], ◌∷◌, ◌++◌, Option, none, some, ◌≡◌, refl, ap, ◌∙◌, arith, true, false, inl, inr,
  Bool-cases, ◌≢◌, returned, panicked, >>=-eq-returned,
}
use state_proxy.Backend.Channel.{Sender}
use state_proxy.Backend.Manager.{PortEvent, send_event}
use state_proxy.Backend.Effects.{deliver}

-- There is no listener, or it is still there.
abbrev pub IsConnected : Option (Sender PortEvent) → Type 0
IsConnected none = Unit {0}
IsConnected (some sender) = sender.is_closed ≡ false

abbrev pub queue : List PortEvent → Option (Sender PortEvent) → Option (Sender PortEvent)
queue events none = none
queue events (some sender) = some (record sender { sent = sender.sent ++ events })

pub queue-nil : (sender : Option (Sender PortEvent)) → queue [] sender ≡ sender
queue-nil none = refl
queue-nil (some sender) = rw append-nil

queue-cons :
    (event : PortEvent) (events : List PortEvent) (sender : Option (Sender PortEvent))
    → queue events (queue (event ∷ []) sender) ≡ queue (event ∷ events) sender
queue-cons event events none = refl
queue-cons event events (some sender) = rw append_assoc

send_event-queue :
    (event : PortEvent) (sender : Option (Sender PortEvent)) {after : Option (Sender PortEvent)}
    → send_event sender event ≡ returned after
    → after ≡ queue (event ∷ []) sender
unfolding send_event
send_event-queue event none h = ground arith
send_event-queue event (some sender) h = ground arith

send_event_connected :
    (event : PortEvent) (sender : Option (Sender PortEvent))
    → IsConnected sender
    → send_event sender event ≡ returned (queue (event ∷ []) sender)
unfolding send_event
send_event_connected event none c = refl
send_event_connected event (some sender) c = ground arith

pub queue-IsConnected :
    (events : List PortEvent) (sender : Option (Sender PortEvent))
    → IsConnected sender
    → IsConnected (queue events sender)
queue-IsConnected events none c = tt
queue-IsConnected events (some sender) c = c

-- What was sent is what the listener has queued.
pub deliver-queue :
    (events : List PortEvent) (sender : Option (Sender PortEvent))
    {after : Option (Sender PortEvent)}
    → deliver events sender ≡ returned after
    → after ≡ queue events sender
unfolding deliver
deliver-queue [] sender h = ground (arith, queue-nil sender)
deliver-queue (event ∷ events) sender {after} h =
    let (mid, e, rest) = >>=-eq-returned (send_event sender event) (deliver events) h in
    deliver-queue events mid rest
    ∙ ap (queue events) (send_event-queue event sender e)
    ∙ queue-cons event events sender

pub deliver_connected :
    (events : List PortEvent) (sender : Option (Sender PortEvent))
    → IsConnected sender
    → deliver events sender ≡ returned (queue events sender)
unfolding deliver
deliver_connected [] sender c = rw queue-nil
deliver_connected (event ∷ events) sender c =
    rw (send_event_connected event sender c, ← queue-cons event events sender)
      (deliver_connected events (queue (event ∷ []) sender)
        (queue-IsConnected (event ∷ []) sender c))

-- The sends of one event fail exactly when there is one to make and the receiver is gone.
pub closed_of_panicked :
    (events : List PortEvent) (sender : Option (Sender PortEvent))
    → deliver events sender ≡ panicked
    → (events ≢ []) × ((s : Sender PortEvent) × (sender ≡ some s) × (s.is_closed ≡ true))
unfolding deliver send_event
closed_of_panicked [] sender h = cc
closed_of_panicked (event ∷ events) none h =
    let rest = closed_of_panicked events none h in absurd (ground arith)
closed_of_panicked (event ∷ events) (some s) h = elim (Bool-cases s.is_closed) [
  | inl closed ↦ (λ c. cc, (s, refl, closed))
  | inr alive ↦ absurd (ground (arith, deliver_connected (event ∷ events) (some s) alive))
]

pub panicked_of_closed :
    (events : List PortEvent) (sender : Option (Sender PortEvent))
    → (events ≢ []) × ((s : Sender PortEvent) × (sender ≡ some s) × (s.is_closed ≡ true))
    → deliver events sender ≡ panicked
unfolding deliver send_event
panicked_of_closed [] sender h = absurd (h.0 refl)
panicked_of_closed (event ∷ events) sender (_, (s, e, closed)) = rw e (ground arith)
