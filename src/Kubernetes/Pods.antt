-- ===== src/Kubernetes/Pods.antt =====
-- The events of a pod that is applied: for the first time, again, and after a restart of the watch.
use mathlib.Core.List.Perm
use state_proxy.Base.{
  true, false, List, [], ◌∷◌, ◌++◌, map, lookup, Option, none, some, Text, codes, Text_discrete,
  if_pos, contains, set_insert, All, ◌≡◌, refl, sym, ◌∙◌, ap, arith, ok, IterationOrder,
}
use state_proxy.Backend.Endpoint.{resume, IpAddr}
use state_proxy.Kubernetes.Pod.{Pod, PodStatus, ObjectMeta, applied, restarted, Details, details}
use state_proxy.Kubernetes.Monad.{Runtime, M, pure, continue}
use state_proxy.Kubernetes.Runtime.{
  services_annotation, learn, apply_phase, apply_details, apply_pod, apply_pods, replace_known,
  delete_missing, handle_pod_event, watch,
}
use state_proxy.Kubernetes.Services.{
  sending, sending-nil, sending-sending, IsOpen, send_open, ServiceRequest, IsWellFormed,
  print_services, add_of, discover_services-print_services,
}

abbrev pub running : Text
running = codes "Running"

delete_missing-nil : delete_missing [] ≡ pure tt
unfolding delete_missing
delete_missing-nil = refl

apply_phase-running :
    (uid : Text) (this : Runtime)
    → IsOpen this
    → apply_phase running uid this ≡ (ok tt, sending (resume uid ∷ []) this)
unfolding apply_phase
apply_phase-running uid this o =
    ap (λ (m : M (Unit {0})). m this) (if_pos (Text_discrete running (codes "Running")) refl _ _)
    ∙ send_open (resume uid) this o

learn_new :
    (uid : Text) (this : Runtime)
    → contains Text_discrete uid this.known_pod_uids ≡ false
    → learn uid this ≡ (ok true, record this { known_pod_uids = uid ∷ this.known_pod_uids })
unfolding learn set_insert
learn_new uid this h = ground arith

learn_old :
    (uid : Text) (this : Runtime)
    → contains Text_discrete uid this.known_pod_uids ≡ true
    → learn uid this ≡ (ok false, this)
unfolding learn set_insert
learn_old uid this h = ground arith

module _ (parse_address : Text → Option IpAddr) (found : Details) {address : IpAddr}
    (parsed : parse_address found.pod_ip ≡ some address) where
  -- A pod whose UID is known is not read for services again.
  apply_details-old :
      (this : Runtime)
      → contains Text_discrete found.uid this.known_pod_uids ≡ true
      → apply_details parse_address found this ≡ apply_phase found.phase found.uid this
  unfolding apply_details
  apply_details-old this h = rw (parsed, apply_details) (rw (learn_old found.uid this h))

  apply_details-new :
      (s : ServiceRequest) (ss : List ServiceRequest) (this : Runtime)
      → contains Text_discrete found.uid this.known_pod_uids ≡ false
      → lookup Text_discrete services_annotation found.annotations ≡ some (print_services s ss)
      → IsWellFormed s
      → All IsWellFormed ss
      → IsOpen this
      → apply_details parse_address found this
        ≡ apply_phase found.phase found.uid (
            sending
              (map (add_of found.uid address) (s ∷ ss))
              (record this { known_pod_uids = found.uid ∷ this.known_pod_uids }))
  unfolding apply_details
  apply_details-new s ss this h e w ws o =
      rw (parsed, apply_details)
        (rw (learn_new found.uid this h) (
          rw (
            discover_services-print_services s ss found.annotations found.uid address
              (record this { known_pod_uids = found.uid ∷ this.known_pod_uids }) e w ws o)))

-- The pod has all that `apply_pod` asks for, and its address can be read.
pub record IsComplete (parse_address : Text → Option IpAddr) (pod : Pod) (found : Details)
    (address : IpAddr) : Type 0 where
  pub status : PodStatus
  pub has_status : pod.status ≡ some status
  pub has_details : details pod.metadata status ≡ some found
  pub has_address : parse_address found.pod_ip ≡ some address

pub details-uid :
    (meta : ObjectMeta) (status : PodStatus) {found : Details}
    → details meta status ≡ some found
    → meta.uid ≡ some found.uid
unfolding details
details-uid meta status h = ground arith

module _ (parse_address : Text → Option IpAddr) (order : IterationOrder Text) (pod : Pod)
    (found : Details) {address : IpAddr} (c : IsComplete parse_address pod found address)
    (this : Runtime) (o : IsOpen this) where
  handle-applied :
      handle_pod_event parse_address order (applied pod) this
      ≡ apply_details parse_address found this
  unfolding handle_pod_event apply_pod
  handle-applied =
      let has_uid = details-uid pod.metadata c.status c.has_details in
      rw (has_uid, handle_pod_event) (rw (c.has_status, apply_pod) (rw c.has_details))

  -- A complete and running pod that is not known yet, and that lists services in the four-part form,
  -- is announced by one `Add` for each service, in order, and then `Resume`, and is known afterwards.
  pub handle_pod_event-applied_first :
      (s : ServiceRequest) (ss : List ServiceRequest)
      → contains Text_discrete found.uid this.known_pod_uids ≡ false
      → lookup Text_discrete services_annotation found.annotations ≡ some (print_services s ss)
      → IsWellFormed s
      → All IsWellFormed ss
      → found.phase ≡ running
      → handle_pod_event parse_address order (applied pod) this ≡ (
        ok tt,
        sending
            (map (add_of found.uid address) (s ∷ ss) ++ resume found.uid ∷ [])
            (record this { known_pod_uids = found.uid ∷ this.known_pod_uids }),
      )
  handle_pod_event-applied_first s ss unknown e w ws phase =
      let known = record this { known_pod_uids = found.uid ∷ this.known_pod_uids } in
      let adds = map (add_of found.uid address) (s ∷ ss) in
      handle-applied
      ∙ apply_details-new parse_address found c.has_address s ss this unknown e w ws o
      ∙ ap (λ (p : Text). apply_phase p found.uid (sending adds known)) phase
      ∙ apply_phase-running found.uid (sending adds known) o
      ∙ ap (λ (r : Runtime). (ok tt, r)) (sending-sending adds (resume found.uid ∷ []) known)

  -- A complete and running pod that is known already sends `Resume` alone.
  pub handle_pod_event-applied_again :
      contains Text_discrete found.uid this.known_pod_uids ≡ true
      → found.phase ≡ running
      → handle_pod_event parse_address order (applied pod) this
        ≡ (ok tt, sending (resume found.uid ∷ []) this)
  handle_pod_event-applied_again known phase =
      handle-applied
      ∙ apply_details-old parse_address found c.has_address this known
      ∙ ap (λ (p : Text). apply_phase p found.uid this) phase
      ∙ apply_phase-running found.uid this o

contains_self : (uid : Text) → contains Text_discrete uid (uid ∷ []) ≡ true
unfolding contains
contains_self uid = if_pos (Text_discrete uid uid) refl _ _

arrange-nil : (order : IterationOrder Text) → order.arrange [] ≡ []
arrange-nil order = Perm.eq-nil (order.arrange_perm [])

handle-restarted :
    (parse_address : Text → Option IpAddr) (order : IterationOrder Text) (pending : Pod)
    (uid : Text) (this : Runtime)
    → pending.metadata.uid ≡ some uid
    → pending.status ≡ none
    → this.known_pod_uids ≡ []
    → handle_pod_event parse_address order (restarted (pending ∷ [])) this
      ≡ (ok tt, record this { known_pod_uids = uid ∷ [] })
unfolding handle_pod_event apply_pods apply_pod replace_known set_insert contains
handle-restarted parse_address order pending uid this e no_status fresh =
    rw (e, apply_pods)
      (rw (no_status, apply_pod)
        (rw fresh (
          rw (arrange-nil order) (
            ap (λ (m : M (Unit {0})). m (record this { known_pod_uids = uid ∷ [] }))
              delete_missing-nil))))

-- A complete and running pod with this UID.
abbrev pub IsUp : (Text → Option IpAddr) → Text → Pod → Type 0
IsUp parse_address uid pod =
    (found : Details) × (address : IpAddr) × IsComplete parse_address pod found address
    × (found.uid ≡ uid)
    × (found.phase ≡ running)

watch-applied_again :
    (parse_address : Text → Option IpAddr) (order : IterationOrder Text) (uid : Text)
    (laters : List Pod) (this : Runtime)
    → All (IsUp parse_address uid) laters
    → contains Text_discrete uid this.known_pod_uids ≡ true
    → IsOpen this
    → watch parse_address order (map applied laters) this
      ≡ (ok tt, sending (map (λ (_ : Pod). resume uid) laters) this)
unfolding watch
watch-applied_again parse_address order uid [] this ups known o =
    ap (λ (r : Runtime). (ok tt, r)) (sym (sending-nil this))
watch-applied_again parse_address order uid (later ∷ laters) this
      ((found, address, c, same, phase), ups) known o =
    let again : handle_pod_event parse_address order (applied later) this
        ≡ (ok tt, sending (resume uid ∷ []) this) =
      handle_pod_event-applied_again parse_address order later found c this o
        (ap (λ (t : Text). contains Text_discrete t this.known_pod_uids) same ∙ known) phase
      ∙ ap (λ (t : Text). (ok tt, sending (resume t ∷ []) this)) same in
    ap (λ s. continue s (λ _. watch parse_address order (map applied laters))) again
    ∙ watch-applied_again parse_address order uid laters (sending (resume uid ∷ []) this) ups known
        o
    ∙ ap (λ (r : Runtime). (ok tt, r))
        (sending-sending (resume uid ∷ []) (map (λ (_ : Pod). resume uid) laters) this)

-- Let a runtime over an open channel know no pod, and let its watcher first restart and list one pod
-- alone, which has a UID and no status, and then apply a pod of that UID, complete and running, any number
-- of times. By these events the UID becomes known, and a `Resume` for each of the later events is all that
-- is sent: none of the pod's services is announced, whatever its annotation says.
pub watch-restarted_pending :
    (parse_address : Text → Option IpAddr) (order : IterationOrder Text) (pending : Pod)
    (laters : List Pod) (uid : Text) (this : Runtime)
    → pending.metadata.uid ≡ some uid
    → pending.status ≡ none
    → All (IsUp parse_address uid) laters
    → this.known_pod_uids ≡ []
    → IsOpen this
    → watch parse_address order (restarted (pending ∷ []) ∷ map applied laters) this ≡ (
      ok tt,
      sending (map (λ (_ : Pod). resume uid) laters) (record this { known_pod_uids = uid ∷ [] }),
    )
unfolding watch
watch-restarted_pending parse_address order pending laters uid this has_uid no_status ups fresh o =
    let listed = record this { known_pod_uids = uid ∷ [] } in
    rw (handle-restarted parse_address order pending uid this has_uid no_status fresh)
      (watch-applied_again parse_address order uid laters listed ups (contains_self uid) o)
