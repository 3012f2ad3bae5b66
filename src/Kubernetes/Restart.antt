-- ===== src/Kubernetes/Restart.antt =====
-- A restart of the watch: the pods that it lists replace those that were known.
use mathlib.Core.List.{mem-append_left, mem-append_right, mem-cons_self}
use state_proxy.Base.{
  Bool, true, false, List, [], ◌∷◌, ◌++◌, Option, none, some, Text, Text_discrete, ite, contains,
  contains-perm, set_insert, contains-set_insert, ◌≡◌, ◌≢◌, sym, ◌∙◌, ap, arith, ok, IterationOrder,
  inl, inr, subst, Option-cases, Bool-cases, Mem, ◌||◌,
}
use state_proxy.Backend.Endpoint.{EndpointEvent, delete, IpAddr}
use state_proxy.Kubernetes.Pod.{Pod, restarted}
use state_proxy.Kubernetes.Monad.{Runtime, ◌>>=◌, ◌>>◌, send}
use state_proxy.Kubernetes.Frames.{>>=-eq-ok, apply_pod-Frames}
use state_proxy.Kubernetes.Runtime.{
  apply_pod, apply_pods, replace_known, delete_missing, handle_pod_event,
}

-- Whether a list of pods has one with the UID.
abbrev has_uid : Text → Option Text → Bool
has_uid u none = false
has_uid u (some uid) = ite (Text_discrete u uid) true false

abbrev pub is_listed : Text → List Pod → Bool
is_listed u [] = false
is_listed u (pod ∷ pods) = has_uid u pod.metadata.uid || is_listed u pods

module _ (parse_address : Text → Option IpAddr) (u : Text) where
  apply_pods-contains :
      (pods : List Pod) (uids : List Text) (this : Runtime) {listed : List Text} {next : Runtime}
      → apply_pods parse_address pods uids this ≡ (ok listed, next)
      → contains Text_discrete u listed ≡ (contains Text_discrete u uids || is_listed u pods)
  unfolding apply_pods
  apply_pods-contains [] uids this h = ground arith
  apply_pods-contains (pod ∷ pods) uids this {listed} {next} h =
      elim (Option-cases pod.metadata.uid) [
        | inl e ↦ ground (arith, apply_pods-contains pods uids this {listed = listed} {next = next})
        | inr (uid, e) ↦
            let (_, mid, _, rest) =
              >>=-eq-ok (apply_pod parse_address pod)
                (λ _. apply_pods parse_address pods (set_insert Text_discrete uid uids).0) this
                (ground arith) in
            let later =
              apply_pods-contains pods (set_insert Text_discrete uid uids).0 mid {listed = listed}
                {next = next} rest in
            ground (arith, contains-set_insert Text_discrete uid u uids)
      ]

  apply_pods-unlisted :
      (pods : List Pod) (uids : List Text) (this : Runtime) {listed : List Text} {next : Runtime}
      → is_listed u pods ≡ false
      → apply_pods parse_address pods uids this ≡ (ok listed, next)
      → contains Text_discrete u next.known_pod_uids ≡ contains Text_discrete u this.known_pod_uids
  unfolding apply_pods
  apply_pods-unlisted [] uids this absent h = ground arith
  apply_pods-unlisted (pod ∷ pods) uids this {listed} {next} absent h =
      elim (Option-cases pod.metadata.uid) [
        | inl e ↦ ground (arith, apply_pods-unlisted pods uids this {listed = listed} {next = next})
        | inr (uid, e) ↦
            let (_, mid, applied, rest) =
              >>=-eq-ok (apply_pod parse_address pod)
                (λ _. apply_pods parse_address pods (set_insert Text_discrete uid uids).0) this
                (ground arith) in
            let other : u ≢ uid = λ same. ground arith in
            let frame = apply_pod-Frames u parse_address pod uid e other this in
            let later =
              apply_pods-unlisted pods (set_insert Text_discrete uid uids).0 mid {listed = listed}
                {next = next} (ground arith) rest in
            ground arith
      ]

-- The deletes that are sent stay sent, and the known UIDs stay.
send-known :
    (event : EndpointEvent) (this : Runtime) {next : Runtime}
    → send event this ≡ (ok tt, next)
    → (next.known_pod_uids ≡ this.known_pod_uids)
      × (next.sender.sent ≡ this.sender.sent ++ event ∷ [])
unfolding send
send-known event this h = ground arith

delete_missing-known :
    (uids : List Text) (this : Runtime) {next : Runtime}
    → delete_missing uids this ≡ (ok tt, next)
    → (next.known_pod_uids ≡ this.known_pod_uids)
      × ((event : EndpointEvent) → Mem event this.sender.sent → Mem event next.sender.sent)
unfolding delete_missing
delete_missing-known [] this {next} h =
    let same : this ≡ next = ground arith in
    (ground arith, λ event there. subst (λ (r : Runtime). Mem event r.sender.sent) same there)
delete_missing-known (uid ∷ uids) this {next} h =
    elim (Bool-cases (contains Text_discrete uid this.known_pod_uids)) [
      | inl known ↦ delete_missing-known uids this {next = next} (ground arith)
      | inr gone ↦
          let (_, mid, sent, rest) =
            >>=-eq-ok (send (delete uid)) (λ _. delete_missing uids) this (ground arith) in
          let (same, queued) = send-known (delete uid) this sent in
          let (later, kept) = delete_missing-known uids mid {next = next} rest in
          (
            later ∙ same,
            λ event there.
                kept event
                  (subst (Mem event) (sym queued) (mem-append_left (delete uid ∷ []) there)),
          )
    ]

delete_missing-mem :
    (u : Text) (uids : List Text) (this : Runtime) {next : Runtime}
    → delete_missing uids this ≡ (ok tt, next)
    → contains Text_discrete u uids ≡ true
    → contains Text_discrete u this.known_pod_uids ≡ false
    → Mem (delete u) next.sender.sent
unfolding delete_missing contains
delete_missing-mem u [] this h old gone = cc
delete_missing-mem u (uid ∷ uids) this {next} h old gone =
    elim (Bool-cases (contains Text_discrete uid this.known_pod_uids)) [
      | inl known ↦
          let other : u ≢ uid = λ same. ground arith in
          delete_missing-mem u uids this {next = next} (ground arith) (ground arith) gone
      | inr missing ↦
          let chain : (send (delete uid) >> delete_missing uids) this ≡ (ok tt, next) =
            ground arith in
          let (_, mid, sent, rest) =
            >>=-eq-ok (send (delete uid)) (λ _. delete_missing uids) this chain in
          let (same, queued) = send-known (delete uid) this sent in
          elim (Text_discrete u uid) [
            | yes p ↦ (delete_missing-known uids mid {next = next} rest).1 (delete u) (
                subst (Mem (delete u)) (sym queued)
                  (mem-append_right this.sender.sent (rw p mem-cons_self)))
            | no p ↦
                delete_missing-mem u uids mid {next = next} rest (ground arith)
                  (ap (contains Text_discrete u) same ∙ gone)
          ]
    ]

restarted_lem :
    (parse_address : Text → Option IpAddr) (order : IterationOrder Text) (pods : List Pod)
    (this : Runtime) {next : Runtime}
    → handle_pod_event parse_address order (restarted pods) this ≡ (ok tt, next)
    → (u : Text)
    → (contains Text_discrete u next.known_pod_uids ≡ is_listed u pods)
      × (contains Text_discrete u this.known_pod_uids ≡ true
          → is_listed u pods ≡ false
          → Mem (delete u) next.sender.sent)
unfolding handle_pod_event replace_known contains
restarted_lem parse_address order pods this {next} h u =
    let (listed, mid, applied, rest) =
      >>=-eq-ok (apply_pods parse_address pods [])
        (λ uids. replace_known uids >>= λ old. delete_missing (order.arrange old)) this h in
    let swapped = record mid { known_pod_uids = listed } in
    let now = apply_pods-contains parse_address u pods [] this applied in
    let same = (delete_missing-known (order.arrange mid.known_pod_uids) swapped rest).0 in
    (
      ap (contains Text_discrete u) same ∙ now,
      λ old absent.
          delete_missing-mem u (order.arrange mid.known_pod_uids) swapped rest
            (contains-perm Text_discrete u (order.arrange_perm mid.known_pod_uids)
              ∙ apply_pods-unlisted parse_address u pods [] this absent applied
              ∙ old)
            (now ∙ absent),
    )

module _ (parse_address : Text → Option IpAddr) (order : IterationOrder Text) (pods : List Pod)
    (this : Runtime) {next : Runtime} (u : Text)
    (h : handle_pod_event parse_address order (restarted pods) this ≡ (ok tt, next)) where
  -- When the watch restarts and no call fails, the known UIDs afterwards are exactly those of the
  -- listed pods.
  pub handle_pod_event-is_listed : contains Text_discrete u next.known_pod_uids ≡ is_listed u pods
  handle_pod_event-is_listed = (restarted_lem parse_address order pods this h u).0

  -- When the watch restarts and no call fails, a UID that was known and is not listed is sent a
  -- `Delete`.
  pub handle_pod_event-delete :
      contains Text_discrete u this.known_pod_uids ≡ true
      → is_listed u pods ≡ false
      → Mem (delete u) next.sender.sent
  handle_pod_event-delete = (restarted_lem parse_address order pods this h u).1
