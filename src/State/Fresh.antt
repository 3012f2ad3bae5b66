-- ===== src/State/Fresh.antt =====
-- The identifiers of connections, one registration at a time.
use state_proxy.Base.{
  ℕ, ◌+◌, ◌≤◌, ◌<◌, none, some, returned, insert, ℕ_discrete, ◌==◌, lookup, lookup-insert, ite, ◌≡◌,
  ◌≢◌, refl, Bool-cases, inl, inr, arith, if_neg, ◌∙◌,
}
use state_proxy.State.{ConnectionMap, Connection, max_id, new, new_connection, register}

module _ {H : Type 0} where
  IsBelow : ℕ → ℕ × Connection H → Type 0
  IsBelow n e = e.0 < n

  -- Every identifier that was given out is below the next one, which is in range.
  pub record IsFresh (this : ConnectionMap H) : Type 0 where
    pub in_range : this.next_id ≤ max_id
    pub below : (k : ℕ) → this.next_id ≤ k → lookup ℕ_discrete k this.connections ≡ none

  pub new-IsFresh : IsFresh new
  unfolding new lookup
  new-IsFresh = record { in_range = omega arith; below = λ k h. refl }

  pub register-eq :
      (h : H) (this : ConnectionMap H) {id : ℕ} {next : ConnectionMap H}
      → register h this ≡ returned (id, next)
      → (id ≡ this.next_id)
        × (this.next_id ≢ max_id)
        × (next.next_id ≡ this.next_id + 1)
        × (next.connections ≡ insert ℕ_discrete this.next_id (new_connection h) this.connections)
  unfolding register
  register-eq h this {id} {next} e = elim (Bool-cases (this.next_id == max_id)) [
    | inl full ↦ absurd (ground arith)
    | inr room ↦ (ground arith, ground arith, ground arith, ground arith)
  ]

  -- A registration of a fresh map gives out an identifier that nothing stood under; the connection is
  -- found there, and every other identifier finds what it found before.
  pub lookup-register :
      (h : H) (this : ConnectionMap H) {id : ℕ} {next : ConnectionMap H} (k : ℕ)
      → IsFresh this
      → register h this ≡ returned (id, next)
      → (lookup ℕ_discrete id this.connections ≡ none)
        × (lookup ℕ_discrete k next.connections
            ≡ ite
                (ℕ_discrete k id)
                (some (new_connection h))
                (lookup ℕ_discrete k this.connections))
  lookup-register h this {id} {next} k f e =
      let (given, room, later, put) = register-eq h this e in
      (
        rw given (f.below this.next_id (omega arith)),
        rw (given, put)
            (lookup-insert ℕ_discrete this.next_id k (new_connection h) this.connections),
      )

  -- A registration keeps the map fresh.
  pub register-IsFresh :
      (h : H) (this : ConnectionMap H) {id : ℕ} {next : ConnectionMap H}
      → IsFresh this
      → register h this ≡ returned (id, next)
      → IsFresh next
  register-IsFresh h this {id} {next} f e =
      let (given, room, later, put) = register-eq h this e in
      record {
        in_range = let r = f.in_range in omega arith;
        below = λ k le.
            (lookup-register h this k f e).1
            ∙ if_neg (ℕ_discrete k id) (omega arith) _ _
            ∙ f.below k (omega arith);
      }

  pub register-returns :
      (h : H) (this : ConnectionMap H)
      → this.next_id ≢ max_id
      → register h this
        ≡ returned (
          this.next_id,
          record {
            next_id = this.next_id + 1;
            connections = insert ℕ_discrete this.next_id (new_connection h) this.connections;
          },
        )
  unfolding register
  register-returns h this room = ground arith
