-- ===== src/Startup/Tests.antt =====
-- The start of the program, the names of discoveries, and their tasks, on concrete arguments.
use mathlib.Core.List.{not-mem-nil, eq-or-mem_of_mem-cons}
use mathlib.Core.Logic.Or
use state_proxy.Base.{
  ℕ, true, false, [], ◌∷◌, ◌++◌, Mem, Option, none, some, Text, Text_discrete, codes, Result, ok,
  err, ◌≡◌, ◌≢◌, sym, ◌↔◌, refl, arith, contains, insert, lookup,
}
use state_proxy.Backend.Manager
use state_proxy.Backend.Manager.{ServiceManager}
use state_proxy.Backend.Discovery.{register_endpoint_discovery, already_registered}
use state_proxy.Protocol.Registry
use state_proxy.Kubernetes.Cluster
use state_proxy.Kubernetes.Cluster.{
  Kube, KubernetesConfig, kube_config, explicit, KubernetesEndpointDiscovery, connection_parameters,
  namespace_or_default, discovery_name, watch_pods, no_scheme,
}
use state_proxy.Kubernetes.Cluster.Names.{target, register_endpoint_discovery-eq-err_iff}
use state_proxy.Startup.{
  register_http, register_ssh, register_websockets, register_kubernetes, register_discovery,
  Features, ArgMatches, set_up, start, discovery_config, discovery_error,
}
use state_proxy.Startup.Started.{IsRefused, start-ne-IsRefused}

abbrev scheme_of : Text → Option Text
scheme_of [] = none
scheme_of (c ∷ url) = some (codes "http")

abbrev no_kubeconfig : Option Text → Result Text Text
no_kubeconfig context = err (codes "no such file")

-- Addresses that are texts, with a scheme unless they are empty; no file with a configuration.
abbrev texts : Kube
texts = record {
  Uri = Text;
  Config = Text;
  print = λ url. url;
  scheme = scheme_of;
  from_kubeconfig = no_kubeconfig;
  from_url = λ url. url;
  cluster_url = λ config. config;
  try_client = λ config. ok tt;
}

abbrev discovery : Text → KubernetesEndpointDiscovery texts
discovery namespace = record {
  name = codes "kubernetes@k/" ++ namespace;
  config = codes "k";
  namespace = namespace;
}

discovery_made :
    Cluster.new texts (explicit (codes "k")) (some (codes "a")) ≡ ok (discovery (codes "a"))
unfolding Cluster.new connection_parameters namespace_or_default discovery_name
discovery_made = refl

other_made :
    Cluster.new texts (explicit (codes "k")) (some (codes "b")) ≡ ok (discovery (codes "b"))
unfolding Cluster.new connection_parameters namespace_or_default discovery_name
other_made = refl

single-ne-slash : (c : ℕ) → c ≢ b'/' → ¬ Mem b'/' (c ∷ [])
single-ne-slash c off h =
    Or.elim (hlevel) (eq-or-mem_of_mem-cons h) (λ (same : b'/' ≡ c). off (sym same)) not-mem-nil

abbrev with_discovery : ServiceManager
with_discovery = record {
  registered_endpoint_discovery_names = codes "kubernetes@k/a" ∷ [];
  port_service_map = [];
  port_event_sender = none;
  endpoint_discovery_metrics = (codes "kubernetes@k/a", record { events_processed = 0 }) ∷ [];
}

first_registered :
    register_endpoint_discovery (codes "kubernetes@k/a") Manager.new ≡ ok with_discovery
unfolding register_endpoint_discovery Manager.new contains insert
first_registered = refl

free_name : contains Text_discrete (codes "kubernetes@k/b") [] ≡ false
unfolding contains
free_name = refl

register_endpoint_discovery-eq-err_iff_example :
    (register_endpoint_discovery (codes "kubernetes@k/b") with_discovery
      ≡ err (already_registered (codes "kubernetes@k/b")))
    ↔ (target texts (discovery (codes "a")) ≡ target texts (discovery (codes "b")))
unfolding Manager.new
register_endpoint_discovery-eq-err_iff_example =
    register_endpoint_discovery-eq-err_iff texts (explicit (codes "k")) (explicit (codes "k"))
      (some (codes "a")) (some (codes "b")) discovery_made other_made
      (single-ne-slash b'a' (λ (same : b'a' ≡ b'/'). omega arith))
      (single-ne-slash b'b' (λ (same : b'b' ≡ b'/'). omega arith)) Manager.new first_registered
      free_name

abbrev all_features : Features
all_features = record {
  discovery_kubernetes = true;
  protocol_http = true;
  protocol_ssh = true;
  protocol_websockets = true;
  handover = true;
}

abbrev arguments : ArgMatches
arguments = record {
  worker_threads = some (codes "4");
  k8s_namespace = none;
  k8s_url = some (codes "k");
  k8s_from_kubeconfig = false;
  k8s_context = none;
  accept_http = true;
  accept_ssh = true;
  accept_websockets = false;
  handover_socket = none;
}

-- A URL without a scheme.
start_failed :
    start texts ok all_features (record arguments { k8s_url = some [] })
    ≡ err (discovery_error no_scheme)
unfolding start set_up discovery_config register_http register_ssh register_websockets
    register_kubernetes register_discovery Cluster.new connection_parameters Registry.new
    Registry.register lookup insert
start_failed = refl

start-ne-IsRefused_example : ¬ IsRefused (discovery_error no_scheme)
start-ne-IsRefused_example =
    start-ne-IsRefused texts ok all_features (record arguments { k8s_url = some [] })
      (discovery_error no_scheme) start_failed
