-- ===== src/Kubernetes/Services.antt =====
-- The services of an annotation, printed and read back, and the events of a pod that is applied.
use mathlib.Core.List.{append_assoc, append-nil}
use state_proxy.Base.{
  ℕ, ◌≤◌, false, List, [], ◌∷◌, ◌++◌, map, lookup, some, Text, Text_discrete, join, split-join,
  Lacks, All, print_unsigned, parse-print_unsigned, print_unsigned-Lacks, ◌≡◌, ◌≢◌, ◌∙◌, ap, arith,
  ok, All-append, inl, inr,
}
use state_proxy.Backend.Endpoint.{EndpointEvent, add, IpAddr}
use state_proxy.Kubernetes.Monad.{Runtime, send}
use state_proxy.Kubernetes.Runtime.{
  services_annotation, max_port, parse_port, send_service_from_string, send_services,
  discover_services,
}

-- The runtime after some events were queued.
abbrev pub sending : List EndpointEvent → Runtime → Runtime
sending events this = record this {
  sender = record this.sender { sent = this.sender.sent ++ events };
}

abbrev pub IsOpen : Runtime → Type 0
IsOpen this = this.sender.is_closed ≡ false

pub send_open :
    (event : EndpointEvent) (this : Runtime)
    → IsOpen this
    → send event this ≡ (ok tt, sending (event ∷ []) this)
unfolding send
send_open event this h = ground arith

pub sending-sending :
    (xs ys : List EndpointEvent) (this : Runtime)
    → sending ys (sending xs this) ≡ sending (xs ++ ys) this
sending-sending xs ys this = rw (append_assoc this.sender.sent xs ys)

pub sending-nil : (this : Runtime) → sending [] this ≡ this
sending-nil this = ground (arith, append-nil this.sender.sent)

-- A service that a pod asks for.
pub record ServiceRequest : Type 0 where
  pub external_port : ℕ
  pub external_protocol : Text
  pub backend_port : ℕ
  pub backend_protocol : Text

pub record IsWellFormed (s : ServiceRequest) : Type 0 where
  pub external_port_fits : s.external_port ≤ max_port
  pub backend_port_fits : s.backend_port ≤ max_port
  pub external_no_colon : Lacks b':' s.external_protocol
  pub external_no_comma : Lacks b',' s.external_protocol
  pub backend_no_colon : Lacks b':' s.backend_protocol
  pub backend_no_comma : Lacks b',' s.backend_protocol

-- `<external port>:<external protocol>:<backend port>:<backend protocol>`.
abbrev pub print_service : ServiceRequest → Text
print_service s =
    join b':' (print_unsigned s.external_port)
      (s.external_protocol ∷ print_unsigned s.backend_port ∷ s.backend_protocol ∷ [])

abbrev pub print_services : ServiceRequest → List ServiceRequest → Text
print_services s more = join b',' (print_service s) (map print_service more)

abbrev pub add_of : Text → IpAddr → ServiceRequest → EndpointEvent
add_of uid address s =
    add uid false s.external_port s.external_protocol
      (record { ip = address; port = s.backend_port }) s.backend_protocol

parse_port-print :
    (n : ℕ) (this : Runtime) → n ≤ max_port → parse_port (print_unsigned n) this ≡ (ok n, this)
unfolding parse_port
parse_port-print n this h = ground (arith, parse-print_unsigned max_port n h)

-- A service string in the four-part form is read back as the `Add` event of its service.
pub send_service_from_string-print_service :
    (s : ServiceRequest) (uid : Text) (address : IpAddr) (this : Runtime)
    → IsWellFormed s
    → IsOpen this
    → send_service_from_string (print_service s) uid address this
      ≡ (ok tt, sending (add_of uid address s ∷ []) this)
unfolding send_service_from_string
send_service_from_string-print_service s uid address this w o =
    let pieces =
      split-join b':' (print_unsigned s.external_port)
        (s.external_protocol ∷ print_unsigned s.backend_port ∷ s.backend_protocol ∷ [])
        (print_unsigned-Lacks b':' s.external_port (inr (omega arith)))
        (
          w.external_no_colon,
          (print_unsigned-Lacks b':' s.backend_port (inr (omega arith)), (w.backend_no_colon, tt)),
        ) in
    rw (pieces, send_service_from_string)
      (ground (
        arith,
        parse_port-print s.external_port this w.external_port_fits,
        parse_port-print s.backend_port this w.backend_port_fits,
        send_open (add_of uid address s) this o,
      ))

join-Lacks :
    (mark sep : ℕ) (piece : Text) (pieces : List Text)
    → sep ≢ mark
    → Lacks mark piece
    → All (Lacks mark) pieces
    → Lacks mark (join sep piece pieces)
join-Lacks mark sep piece [] ne h hs = h
join-Lacks mark sep piece (next ∷ pieces) ne h hs =
    All-append (λ c. c ≢ mark) piece (sep ∷ join sep next pieces) h
      (ne, join-Lacks mark sep next pieces ne hs.0 hs.1)

print_service-Lacks : (s : ServiceRequest) → IsWellFormed s → Lacks b',' (print_service s)
print_service-Lacks s w =
    join-Lacks b',' b':' (print_unsigned s.external_port)
      (s.external_protocol ∷ print_unsigned s.backend_port ∷ s.backend_protocol ∷ []) (omega arith)
      (print_unsigned-Lacks b',' s.external_port (inl (omega arith)))
      (
        w.external_no_comma,
        (print_unsigned-Lacks b',' s.backend_port (inl (omega arith)), (w.backend_no_comma, tt)),
      )

map-Lacks :
    (ss : List ServiceRequest) → All IsWellFormed ss → All (Lacks b',') (map print_service ss)
map-Lacks [] ws = tt
map-Lacks (s ∷ ss) ws = (print_service-Lacks s ws.0, map-Lacks ss ws.1)

send_services-print :
    (ss : List ServiceRequest) (uid : Text) (address : IpAddr) (this : Runtime)
    → All IsWellFormed ss
    → IsOpen this
    → send_services (map print_service ss) uid address this
      ≡ (ok tt, sending (map (add_of uid address) ss) this)
unfolding send_services
send_services-print [] uid address this ws o = rw (sending-nil this)
send_services-print (s ∷ ss) uid address this ws o =
    rw (send_service_from_string-print_service s uid address this ws.0 o) (
      send_services-print ss uid address (sending (add_of uid address s ∷ []) this) ws.1 o
      ∙ ap (λ (r : Runtime). (ok tt, r))
          (sending-sending (add_of uid address s ∷ []) (map (add_of uid address) ss) this))

-- Over an open channel, an annotation that lists one or more services, each in four parts in the order in
-- which the code reads them (port, protocol, port, protocol), with ports of 16 bits and with no colon and no
-- comma in a protocol, makes the runtime send their `Add` events, in order, and nothing else.
pub discover_services-print_services :
    (s : ServiceRequest) (ss : List ServiceRequest) (annotations : List (Text × Text)) (uid : Text)
    (address : IpAddr) (this : Runtime)
    → lookup Text_discrete services_annotation annotations ≡ some (print_services s ss)
    → IsWellFormed s
    → All IsWellFormed ss
    → IsOpen this
    → discover_services annotations uid address this
      ≡ (ok tt, sending (map (add_of uid address) (s ∷ ss)) this)
unfolding discover_services
discover_services-print_services s ss annotations uid address this e w ws o =
    rw (e, discover_services)
      (rw
        (split-join b',' (print_service s) (map print_service ss) (print_service-Lacks s w)
          (map-Lacks ss ws))
        (send_services-print (s ∷ ss) uid address this (w, ws) o))
