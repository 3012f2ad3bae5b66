-- ===== src/Kubernetes/Tests.antt =====
-- The discovery of pods on concrete values: a pod that is listed, applied, and gone.
use mathlib.Core.List.Perm
use state_proxy.Base.{
  true, false, List, [], ◌∷◌, Option, none, some, ◌≡◌, refl, Text, codes, ok, IterationOrder,
  lookup, contains, Text_discrete, arith, ℕ_discrete, print_unsigned,
}
use state_proxy.Backend.Endpoint.{delete, resume, IpAddr, v4}
use state_proxy.Kubernetes.Pod.{
  Pod, PodStatus, ObjectMeta, applied, deleted, restarted, Details, details,
}
use state_proxy.Kubernetes.Monad.{Runtime, send}
use state_proxy.Kubernetes.Runtime.{
  services_annotation, discover_services, handle_pod_event, watch, apply_pods, replace_known,
  delete_missing,
}
use state_proxy.Kubernetes.Services.{
  sending, ServiceRequest, IsWellFormed, print_services, add_of, discover_services-print_services,
}
use state_proxy.Kubernetes.Pods.{IsComplete, watch-restarted_pending}
use state_proxy.Kubernetes.Bounds.{IsSound, watch-IsSound}
use state_proxy.Kubernetes.Restart.{is_listed, handle_pod_event-is_listed}

abbrev pub as_stored : {A : Type 0} → IterationOrder A
as_stored = record { arrange = λ xs. xs; arrange_perm = λ xs. Perm.refl xs }

abbrev pub parse : Text → Option IpAddr
parse _ = some (v4 1)

abbrev pub idle : List Text → Runtime
idle known = record { sender = record { is_closed = false; sent = [] }; known_pod_uids = known }

abbrev pub https : ServiceRequest
https = record {
  external_port = 443;
  external_protocol = codes "https";
  backend_port = 8080;
  backend_protocol = codes "http";
}

pub https-IsWellFormed : IsWellFormed https
https-IsWellFormed = record {
  external_port_fits = omega arith;
  backend_port_fits = omega arith;
  external_no_colon =
      (ground arith, (ground arith, (ground arith, (ground arith, (ground arith, tt)))));
  external_no_comma =
      (ground arith, (ground arith, (ground arith, (ground arith, (ground arith, tt)))));
  backend_no_colon = (ground arith, (ground arith, (ground arith, (ground arith, tt))));
  backend_no_comma = (ground arith, (ground arith, (ground arith, (ground arith, tt))));
}

abbrev meta : ObjectMeta
meta = record {
  uid = some (codes "a");
  name = some (codes "pod");
  annotations = some ((services_annotation, codes "443:https:8080:http") ∷ []);
}

abbrev up : PodStatus
up = record { pod_ip = some (codes "10.0.0.1"); phase = some (codes "Running") }

abbrev pub ready : Pod
ready = record { metadata = meta; status = some up }

abbrev pending : Pod
pending = record { metadata = meta; status = none }

abbrev pub found : Details
found = record {
  uid = codes "a";
  annotations = (services_annotation, codes "443:https:8080:http") ∷ [];
  pod_ip = codes "10.0.0.1";
  phase = codes "Running";
}

pub ready-IsComplete : IsComplete parse ready found (v4 1)
unfolding details
ready-IsComplete = record { status = up; has_status = refl; has_details = refl; has_address = refl }

pub its_services :
    lookup Text_discrete services_annotation found.annotations ≡ some (print_services https [])
unfolding lookup Text_discrete ℕ_discrete print_unsigned
its_services = refl

discover_services-print_services_example :
    discover_services found.annotations (codes "a") (v4 1) (idle [])
    ≡ (ok tt, sending (add_of (codes "a") (v4 1) https ∷ []) (idle []))
discover_services-print_services_example =
    discover_services-print_services https [] found.annotations (codes "a") (v4 1) (idle [])
      its_services https-IsWellFormed tt refl

is_known : contains Text_discrete (codes "a") (codes "a" ∷ []) ≡ true
unfolding contains Text_discrete ℕ_discrete
is_known = refl

watch-restarted_pending_example :
    watch parse as_stored (restarted (pending ∷ []) ∷ applied ready ∷ applied ready ∷ []) (idle [])
    ≡ (ok tt, sending (resume (codes "a") ∷ resume (codes "a") ∷ []) (idle (codes "a" ∷ [])))
watch-restarted_pending_example =
    watch-restarted_pending parse as_stored pending (ready ∷ ready ∷ []) (codes "a") (idle []) refl
      refl
      (
        (found, v4 1, ready-IsComplete, refl, refl),
        ((found, v4 1, ready-IsComplete, refl, refl), tt),
      )
      refl refl

watch-IsSound_example :
    IsSound (watch parse as_stored (applied ready ∷ deleted ready ∷ []) (idle [])).1
watch-IsSound_example =
    watch-IsSound parse as_stored (applied ready ∷ deleted ready ∷ []) (idle []) tt

-- A pod that was known is gone when the watch restarts.
abbrev after_restart : Runtime
after_restart = sending (delete (codes "a") ∷ []) (idle [])

restarted_empty :
    handle_pod_event parse as_stored (restarted []) (idle (codes "a" ∷ [])) ≡ (ok tt, after_restart)
unfolding handle_pod_event apply_pods replace_known delete_missing contains send
restarted_empty = refl

handle_pod_event-is_listed_example :
    contains Text_discrete (codes "a") after_restart.known_pod_uids ≡ is_listed (codes "a") []
handle_pod_event-is_listed_example =
    handle_pod_event-is_listed parse as_stored [] (idle (codes "a" ∷ [])) (codes "a")
      restarted_empty
