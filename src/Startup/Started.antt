-- ===== src/Startup/Started.antt =====
-- What has been registered at the end of the block that `run` blocks on, and how the block fails.
use state_proxy.Base.{
  Bool, true, false, [], ◌∷◌, lookup, insert, contains, Option, none, some, Text, codes, Result, ok,
  err, if◌then◌else◌, ◌&&◌, ◌≡◌, refl, arith, Bool-cases, Option-cases, Result-cases, subst, inl,
  inr,
}
use state_proxy.Backend.Manager
use state_proxy.Backend.Manager.{ServiceManager}
use state_proxy.Backend.Discovery.{register_endpoint_discovery}
use state_proxy.Protocol.Registry
use state_proxy.Protocol.Registry.{
  Protocol, ProtocolRegistry, RegistryError, register, get, get-register,
}
use state_proxy.Kubernetes.Cluster
use state_proxy.Kubernetes.Cluster.{
  Kube, KubernetesConfig, KubernetesEndpointDiscovery, DiscoveryError,
}
use state_proxy.Startup.{
  Features, ArgMatches, StartError, url_error, registry_error, registration_error, discovery_error,
  attempt, http_protocol, register_http, register_ssh, register_websockets, init_handover,
  discovery_config, register_discovery, register_kubernetes, Locals, set_up, start,
}

-- A name that was taken already.
abbrev pub IsRefused : StartError → Type 0
IsRefused (registry_error e) = Unit {0}
IsRefused (registration_error e) = Unit {0}
IsRefused e = ⊥

accepts_http : Features → ArgMatches → Bool
accepts_http features args = features.protocol_http && args.accept_http

abbrev pub http_registry : Bool → ProtocolRegistry
http_registry true = record { protocols = (codes "http", http_protocol) ∷ [] }
http_registry false = Registry.new

register_http-new :
    (features : Features) (args : ArgMatches)
    → register_http features args Registry.new ≡ ok (http_registry (accepts_http features args))
unfolding register_http register Registry.new http_protocol accepts_http lookup insert
register_http-new features args = elim (Bool-cases features.protocol_http) [
  | inl built ↦ elim (Bool-cases args.accept_http) [
    | inl asked ↦ ground arith
    | inr not_asked ↦ ground arith
  ]
  | inr not_built ↦ ground arith
]

register_ssh-same :
    (features : Features) (args : ArgMatches) (registry : ProtocolRegistry)
    → register_ssh features args registry ≡ ok registry
unfolding register_ssh
register_ssh-same features args registry = elim (Bool-cases features.protocol_ssh) [
  | inl built ↦ elim (Bool-cases args.accept_ssh) [
    | inl asked ↦ ground arith
    | inr not_asked ↦ ground arith
  ]
  | inr not_built ↦ ground arith
]

register_websockets-same :
    (features : Features) (args : ArgMatches) (registry : ProtocolRegistry)
    → register_websockets features args registry ≡ ok registry
unfolding register_websockets
register_websockets-same features args registry = elim (Bool-cases features.protocol_websockets) [
  | inl built ↦ elim (Bool-cases args.accept_websockets) [
    | inl asked ↦ ground arith
    | inr not_asked ↦ ground arith
  ]
  | inr not_built ↦ ground arith
]

-- The manager after a name is registered with a new one.
abbrev pub named : Text → ServiceManager
named name = record Manager.new {
  registered_endpoint_discovery_names = name ∷ [];
  endpoint_discovery_metrics = (name, record { events_processed = 0 }) ∷ [];
}

register-new : (name : Text) → register_endpoint_discovery name Manager.new ≡ ok (named name)
unfolding register_endpoint_discovery Manager.new contains insert
register-new name = refl

module _ (kube : Kube) (try_into : Text → Result Text kube.Uri) where
  abbrev made :
      ArgMatches
      → Option (KubernetesConfig kube)
      → Result StartError (Option (KubernetesEndpointDiscovery kube))
  made args none = ok none
  made args (some config) =
      attempt discovery_error (Cluster.new kube config args.k8s_namespace)
        (λ discovery. ok (some discovery))

  -- The discovery that the arguments ask for, if any.
  abbrev pub wanted :
      Features → ArgMatches → Result StartError (Option (KubernetesEndpointDiscovery kube))
  wanted features args =
      if features.discovery_kubernetes
      then attempt (λ e. e) (discovery_config kube try_into args) (made args)
      else ok none

  -- A new manager with that discovery.
  abbrev pub managed : Option (KubernetesEndpointDiscovery kube) → ServiceManager
  managed none = Manager.new
  managed (some discovery) = named discovery.name

  managed_result :
      Result StartError (Option (KubernetesEndpointDiscovery kube))
      → Result StartError ServiceManager
  managed_result o = attempt (λ e. e) o (λ discovery. ok (managed discovery))

  register_made :
      (o : Result DiscoveryError (KubernetesEndpointDiscovery kube))
      → attempt discovery_error o (λ discovery.
        attempt registration_error (register_endpoint_discovery discovery.name Manager.new) ok)
        ≡ managed_result (attempt discovery_error o (λ discovery. ok (some discovery)))
  unfolding managed_result
  register_made (ok discovery) = rw (register-new discovery.name) refl
  register_made (err e) = refl

  register_wanted :
      (args : ArgMatches) (o : Result StartError (Option (KubernetesConfig kube)))
      → attempt (λ e. e) o (register_discovery kube try_into args Manager.new)
        ≡ managed_result (attempt (λ e. e) o (made args))
  unfolding register_discovery managed_result
  register_wanted args (err e) = refl
  register_wanted args (ok none) = refl
  register_wanted args (ok (some config)) =
      register_made (Cluster.new kube config args.k8s_namespace)

  register_kubernetes-new :
      (features : Features) (args : ArgMatches)
      → register_kubernetes kube try_into features args Manager.new
        ≡ managed_result (wanted features args)
  unfolding register_kubernetes managed_result
  register_kubernetes-new features args = elim (Bool-cases features.discovery_kubernetes) [
    | inl built ↦
        rw (built, register_kubernetes) (register_wanted args (discovery_config kube try_into args))
    | inr not_built ↦ rw (not_built, register_kubernetes) refl
  ]

  -- The end of the block, with its manager.
  abbrev pub at_end :
      Features → ArgMatches → ServiceManager → Result StartError (Locals kube try_into)
  at_end features args service_manager = ok (record {
    protocol_registry = http_registry (features.protocol_http && args.accept_http);
    service_manager = service_manager;
    handover = init_handover features args;
  })

  -- The block fails exactly as the discovery does that the arguments ask for. Otherwise its manager knows
  -- that discovery alone and has no listener, and its registry holds the HTTP protocol if it is built in and
  -- asked for, and nothing else: asking for SSH or for websockets changes nothing.
  set_up-wanted :
      (features : Features) (args : ArgMatches)
      → set_up kube try_into features args
        ≡ attempt
            (λ e. e)
            (wanted features args)
            (λ discovery. at_end features args (managed discovery))
  unfolding set_up managed_result accepts_http
  set_up-wanted features args =
      let registry = http_registry (features.protocol_http && args.accept_http) in
      rw (set_up, register_http-new features args)
        (rw (register_ssh-same features args registry) (
          rw (register_websockets-same features args registry)
            (rw (register_kubernetes-new features args) (joined (wanted features args)))))
    where
      joined :
          (o : Result StartError (Option (KubernetesEndpointDiscovery kube)))
          → attempt
              (λ e. e)
              (managed_result o)
              (λ service_manager. at_end features args service_manager)
            ≡ attempt (λ e. e) o (λ discovery. at_end features args (managed discovery))
      joined (ok discovery) = refl
      joined (err e) = refl

  config-ne-IsRefused :
      (args : ArgMatches) (e : StartError)
      → discovery_config kube try_into args ≡ err e
      → ¬ IsRefused e
  unfolding discovery_config
  config-ne-IsRefused args e h refused = elim (Bool-cases args.k8s_from_kubeconfig) [
    | inl file ↦ absurd (ground arith)
    | inr no_file ↦ elim (Option-cases args.k8s_url) [
      | inl no_url ↦ absurd (ground arith)
      | inr (url, at) ↦ elim (Result-cases (try_into url)) [
        | inl (bad, unread) ↦
            let which : e ≡ url_error bad = ground arith in subst IsRefused which refused
        | inr (uri, read) ↦ absurd (ground arith)
      ]
    ]
  ]

  wanted-ne-IsRefused :
      (features : Features) (args : ArgMatches) (e : StartError)
      → wanted features args ≡ err e
      → ¬ IsRefused e
  wanted-ne-IsRefused features args e h refused = elim (Bool-cases features.discovery_kubernetes) [
    | inr not_built ↦ absurd (ground arith)
    | inl built ↦ elim (Result-cases (discovery_config kube try_into args)) [
      | inl (why, failed) ↦
          config-ne-IsRefused args why failed
            (let same : e ≡ why = ground arith in subst IsRefused same refused)
      | inr (none, found) ↦ absurd (ground arith)
      | inr (some config, found) ↦
          elim (Result-cases (Cluster.new kube config args.k8s_namespace)) [
            | inl (why, failed) ↦
                let which : e ≡ discovery_error why = ground arith in subst IsRefused which refused
            | inr (discovery, is_made) ↦ absurd (ground arith)
          ]
    ]
  ]

  -- The task that `run` blocks on never fails because a name is taken already: it refuses no protocol and no
  -- discovery, whatever the arguments and the features are.
  pub start-ne-IsRefused :
      (features : Features) (args : ArgMatches) (e : StartError)
      → start kube try_into features args ≡ err e
      → ¬ IsRefused e
  unfolding start
  start-ne-IsRefused features args e h = elim (Result-cases (wanted features args)) [
    | inl (why, failed) ↦ λ refused. wanted-ne-IsRefused features args why failed (
        let all = set_up-wanted features args in
        let same : e ≡ why = ground arith in subst IsRefused same refused)
    | inr (discovery, is_made) ↦ absurd (let all = set_up-wanted features args in ground arith)
  ]
