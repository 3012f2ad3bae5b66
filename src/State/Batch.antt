-- ===== src/State/Batch.antt =====
-- A batch of registrations: which connection stands under which identifier, and how many there can be.
use mathlib.Core.Option
use state_proxy.Base.{
  get_elem?, dec_lt, ℕ, suc, ◌+◌, ◌-◌, ◌≤◌, ◌<◌, List, [], ◌∷◌, Option, some, returned, panicked,
  ◌>>=◌, insert, ℕ_discrete, if◌then◌else◌, lookup, ite, ◌≡◌, refl, ◌↔◌, length, ltb,
  >>=-eq-returned, >>=-returned-eq-panicked, arith, ap, ◌∙◌,
}
use state_proxy.State.{
  ConnectionMap, Connection, max_id, new, new_connection, register, register_all,
}
use state_proxy.State.Fresh.{
  IsFresh, new-IsFresh, register-eq, register-returns, register-IsFresh, lookup-register,
}

module _ {H : Type 0} where
  -- What stands under an identifier after a batch.
  after_batch : List H → ConnectionMap H → ℕ → Option (Connection H)
  after_batch hs this k =
      if ltb k this.next_id
      then lookup ℕ_discrete k this.connections
      else Option.map new_connection (get_elem? hs (k - this.next_id))

  after_batch-cons :
      (h : H) (hs : List H) (this mid : ConnectionMap H) (k : ℕ)
      → mid.next_id ≡ this.next_id + 1
      → lookup ℕ_discrete k mid.connections
        ≡ ite
            (ℕ_discrete k this.next_id)
            (some (new_connection h))
            (lookup ℕ_discrete k this.connections)
      → after_batch hs mid k ≡ after_batch (h ∷ hs) this k
  unfolding after_batch
  after_batch-cons h hs this mid k later put = elim (dec_lt k this.next_id) [
    | yes old ↦ ground arith
    | no up ↦ elim (ℕ_discrete k this.next_id) [
      | yes now ↦ let at : k - this.next_id ≡ 0 = omega arith in rw at (ground arith)
      | no off ↦
          let at : k - this.next_id ≡ suc (k - mid.next_id) = omega arith in rw at (ground arith)
    ]
  ]

  lookup_after :
      (hs : List H) (this : ConnectionMap H) {ids : List ℕ} {next : ConnectionMap H} (k : ℕ)
      → IsFresh this
      → register_all hs this ≡ returned (ids, next)
      → lookup ℕ_discrete k next.connections ≡ after_batch hs this k
  unfolding register_all after_batch
  lookup_after [] this {ids} {next} k f e =
      let same : next ≡ this = ground arith in rw same (ground (arith, f.below k))
  lookup_after (h ∷ hs) this {ids} {next} k f e =
      let ((id, mid), first, rest) =
        >>=-eq-returned (register h this)
          (λ r. register_all hs r.1 >>= λ s. returned (r.0 ∷ s.0, s.1)) e in
      let ((ids', next'), others, last) =
        >>=-eq-returned (register_all hs mid) (λ s. returned (id ∷ s.0, s.1)) rest in
      let same : next ≡ next' = ground arith in
      let ih =
        lookup_after hs mid {ids = ids'} {next = next'} k (register-IsFresh h this f first)
          others in
      let put = (lookup-register h this k f first).1 in
      let (given, room, later, _) = register-eq h this first in
      rw same (ih ∙ after_batch-cons h hs this mid k later (rw (← given) put))

  -- From the empty map, a batch of registrations that succeeds puts the connection of each handle under
  -- its position in the batch, and nothing else anywhere.
  pub lookup-register_all :
      (hs : List H) {ids : List ℕ} {next : ConnectionMap H} (k : ℕ)
      → register_all hs new ≡ returned (ids, next)
      → lookup ℕ_discrete k next.connections ≡ Option.map new_connection (get_elem? hs k)
  unfolding after_batch new
  lookup-register_all hs k e =
      let at : k - 0 ≡ k = omega arith in
      lookup_after hs new k new-IsFresh e
      ∙ ground arith
      ∙ ap (λ (n : ℕ). Option.map new_connection (get_elem? hs n)) at

  register_full :
      (h : H) (this : ConnectionMap H) → this.next_id ≡ max_id → register h this ≡ panicked
  unfolding register
  register_full h this full = ground arith

  panicked_iff :
      (hs : List H) (this : ConnectionMap H)
      → this.next_id ≤ max_id
      → (register_all hs this ≡ panicked) ↔ (max_id < this.next_id + length hs)
  unfolding register_all
  panicked_iff [] this le = (λ e. absurd (ground arith), λ more. absurd (omega arith))
  panicked_iff (h ∷ hs) this le = elim (ℕ_discrete this.next_id max_id) [
    | yes full ↦ (λ e. omega arith, λ more. rw (register_full h this full) refl)
    | no room ↦
        let mid : ConnectionMap H = record {
          next_id = this.next_id + 1;
          connections = insert ℕ_discrete this.next_id (new_connection h) this.connections;
        } in
        let ih = panicked_iff hs mid (omega arith) in
        rw (register-returns h this room) (
          λ e. let more = ih.0 (>>=-returned-eq-panicked (register_all hs mid) _ e) in omega arith,
          λ more. rw (ih.1 (omega arith)) refl,
        )
  ]

  -- From the empty map, a batch panics exactly when it is longer than the largest identifier.
  pub register_all-eq-panicked_iff :
      (hs : List H) → (register_all hs new ≡ panicked) ↔ (max_id < length hs)
  unfolding new
  register_all-eq-panicked_iff hs =
      let same : 0 + length hs ≡ length hs = omega arith in
      rw⁻¹ same (panicked_iff hs new (omega arith))
