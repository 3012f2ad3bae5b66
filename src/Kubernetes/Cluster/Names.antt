-- ===== src/Kubernetes/Cluster/Names.antt =====
-- Which discoveries share a name.
use mathlib.Core.List.{mem-cons_self, mem-append_right, append_cancel_left}
use state_proxy.Base.{
  List, [], ◌∷◌, ◌++◌, Mem, ◌≡◌, ap, sym, ◌∙◌, refl, Text, codes, Text_discrete, Result, ok, err,
  Option, true, false, Bool-cases, contains, ◌↔◌, inl, inr, arith, if_pos, if_neg,
}
use state_proxy.Backend.Manager.{ServiceManager}
use state_proxy.Backend.Discovery.{register_endpoint_discovery, already_registered}
use state_proxy.Kubernetes.Cluster
use state_proxy.Kubernetes.Cluster.{
  Kube, KubernetesConfig, KubernetesEndpointDiscovery, namespace_or_default, connection_parameters,
  discovery_name, with_config,
}

module _ {A : Type 0} where
  -- A list is cut in one way only at the last place of an element.
  cut_unique :
      (a : A) (xs xs' ys ys' : List A)
      → ¬ Mem a ys
      → ¬ Mem a ys'
      → xs ++ a ∷ ys ≡ xs' ++ a ∷ ys'
      → (xs ≡ xs') × (ys ≡ ys')
  cut_unique a [] [] ys ys' n n' h = (refl, ground arith)
  cut_unique a [] (x ∷ xs') ys ys' n n' h =
      let rest : ys ≡ xs' ++ a ∷ ys' = ground arith in
      absurd (n (rw rest (mem-append_right xs' mem-cons_self)))
  cut_unique a (x ∷ xs) [] ys ys' n n' h =
      let rest : xs ++ a ∷ ys ≡ ys' = ground arith in
      absurd (n' (rw (← rest) (mem-append_right xs mem-cons_self)))
  cut_unique a (x ∷ xs) (x' ∷ xs') ys ys' n n' h =
      let heads : x ≡ x' = ground arith in
      let tails : xs ++ a ∷ ys ≡ xs' ++ a ∷ ys' = ground arith in
      let (front, back) = cut_unique a xs xs' ys ys' n n' tails in
      (ap (λ (zs : List A). x ∷ zs) front ∙ ap (λ (z : A). z ∷ xs') heads, back)

registered_names :
    (name : Text) (manager : ServiceManager) {next : ServiceManager}
    → register_endpoint_discovery name manager ≡ ok next
    → next.registered_endpoint_discovery_names ≡ name ∷ manager.registered_endpoint_discovery_names
unfolding register_endpoint_discovery
registered_names name manager h =
    elim (Bool-cases (contains Text_discrete name manager.registered_endpoint_discovery_names)) [
      | inl taken ↦ absurd (ground arith)
      | inr free ↦ ground arith
    ]

-- After a registration, a name that was free is refused exactly if it is the one that was registered.
refused_iff :
    (name other : Text) (manager : ServiceManager) {next : ServiceManager}
    → register_endpoint_discovery name manager ≡ ok next
    → contains Text_discrete other manager.registered_endpoint_discovery_names ≡ false
    → (register_endpoint_discovery other next ≡ err (already_registered other)) ↔ (other ≡ name)
unfolding register_endpoint_discovery contains
refused_iff name other manager {next} h unknown =
    let names = registered_names name manager h in
    elim (Text_discrete other name) [
      | yes same ↦
          let taken : contains Text_discrete other next.registered_endpoint_discovery_names ≡ true =
            rw names (if_pos (Text_discrete other name) same _ _) in
          (λ failed. same, λ equal. rw (taken, register_endpoint_discovery) refl)
      | no off ↦
          let free : contains Text_discrete other next.registered_endpoint_discovery_names ≡ false =
            rw names (if_neg (Text_discrete other name) off _ _ ∙ unknown) in
          (λ failed. absurd (ground arith), λ equal. absurd (off equal))
    ]

module _ (kube : Kube) where
  -- The cluster and the namespace that a discovery watches.
  abbrev pub target : KubernetesEndpointDiscovery kube → Text × Text
  target this = (kube.print (kube.cluster_url this.config), this.namespace)

  with_config-name :
      (namespace : Text) (o : Result Cluster.DiscoveryError kube.Config)
      {this : KubernetesEndpointDiscovery kube}
      → with_config kube namespace o ≡ ok this
      → this.name ≡ discovery_name kube this.config this.namespace
  with_config-name namespace (err e) h = cc
  with_config-name namespace (ok config) h = ground arith

  pub new-name :
      (config : KubernetesConfig kube) (namespace : Option Text)
      {this : KubernetesEndpointDiscovery kube}
      → Cluster.new kube config namespace ≡ ok this
      → this.name ≡ discovery_name kube this.config this.namespace
  unfolding Cluster.new
  new-name config namespace h =
      with_config-name (namespace_or_default kube namespace) (connection_parameters kube config) h

  module _ {this other : KubernetesEndpointDiscovery kube} (config config' : KubernetesConfig kube)
      (namespace namespace' : Option Text) (made : Cluster.new kube config namespace ≡ ok this)
      (made_other : Cluster.new kube config' namespace' ≡ ok other)
      (plain : ¬ Mem b'/' this.namespace) (plain_other : ¬ Mem b'/' other.namespace) where
    name-target : (this.name ≡ other.name) ↔ (target this ≡ target other)
    unfolding discovery_name
    name-target = (
      λ same.
          let cut =
            cut_unique b'/' (kube.print (kube.cluster_url this.config))
              (kube.print (kube.cluster_url other.config)) this.namespace other.namespace plain
              plain_other
              (append_cancel_left (codes "kubernetes@") _ _ (
                sym (new-name config namespace made)
                ∙ same
                ∙ new-name config' namespace' made_other)) in
          ap (λ (t : Text). (t, this.namespace)) cut.0
          ∙ ap (λ (t : Text). (kube.print (kube.cluster_url other.config), t)) cut.1,
      λ same.
          new-name config namespace made
          ∙ ap (λ (t : Text × Text). codes "kubernetes@" ++ t.0 ++ b'/' ∷ t.1) same
          ∙ sym (new-name config' namespace' made_other),
    )

    -- Let the namespaces of two discoveries contain no slash. Once the first is registered, the second,
    -- if its name was free before, is refused exactly if it watches the same cluster URL and the same
    -- namespace.
    pub register_endpoint_discovery-eq-err_iff :
        (manager : ServiceManager) {next : ServiceManager}
        → register_endpoint_discovery this.name manager ≡ ok next
        → contains Text_discrete other.name manager.registered_endpoint_discovery_names ≡ false
        → (register_endpoint_discovery other.name next ≡ err (already_registered other.name))
          ↔ (target this ≡ target other)
    register_endpoint_discovery-eq-err_iff manager h unknown =
        let refused = refused_iff this.name other.name manager h unknown in
        (
          λ failed. name-target.0 (sym (refused.0 failed)),
          λ same. refused.1 (sym (name-target.1 same)),
        )
