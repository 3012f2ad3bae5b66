-- ===== src/Kubernetes/Pod.antt =====
-- The pods and the watcher's events, as far as src/kubernetes/mod.rs reads them. Their types are
-- those of `k8s_openapi` and `kube`.
use state_proxy.Base.{List, Option, none, some, Text}

pub record ObjectMeta : Type 0 where
  pub uid : Option Text
  pub name : Option Text
  pub annotations : Option (List (Text × Text))

pub record PodStatus : Type 0 where
  pub pod_ip : Option Text
  pub phase : Option Text

pub record Pod : Type 0 where
  pub metadata : ObjectMeta
  pub status : Option PodStatus

pub data PodEvent : Type 0 where
  applied : Pod → PodEvent
  deleted : Pod → PodEvent
  restarted : List Pod → PodEvent

-- What `apply_pod` takes out of the options of a pod.
pub record Details : Type 0 where
  pub uid : Text
  pub annotations : List (Text × Text)
  pub pod_ip : Text
  pub phase : Text

infixl 5 ◌>>=◌
abbrev ◌>>=◌ : {A B : Type 0} → Option A → (A → Option B) → Option B
none >>= f = none
some a >>= f = f a

-- `(uid, name, annotations, pod_ip, phase).transpose()`: all of them, or nothing.
unfoldable pub details : ObjectMeta → PodStatus → Option Details
details meta status = do
  uid ← meta.uid
  _ ← meta.name
  annotations ← meta.annotations
  pod_ip ← status.pod_ip
  phase ← status.phase
  some (record { uid = uid; annotations = annotations; pod_ip = pod_ip; phase = phase })
