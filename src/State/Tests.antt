-- ===== src/State/Tests.antt =====
-- The connection map on concrete handles.
use mathlib.Core.Option
use state_proxy.Base.{
  ℕ, [], ◌∷◌, returned, panicked, ◌≡◌, refl, ◌↔◌, ◌<◌, lookup, insert, ℕ_discrete, get_elem?,
  length,
}
use state_proxy.State.{ConnectionMap, new, new_connection, register, register_all, max_id}
use state_proxy.State.Batch.{lookup-register_all, register_all-eq-panicked_iff}

abbrev one : ConnectionMap ℕ
one = record {
  next_id = 1;
  connections =
      (0, record { external_connection = 7; application_state = []; application_sockets = [] })
      ∷ [];
}

abbrev two : ConnectionMap ℕ
two = record {
  next_id = 2;
  connections =
      (0, record { external_connection = 7; application_state = []; application_sockets = [] })
      ∷ (1, record { external_connection = 8; application_state = []; application_sockets = [] })
      ∷ [];
}

registered_one : register 7 new ≡ returned (0, one)
unfolding register new new_connection insert
registered_one = refl

registered_two : register_all (7 ∷ 8 ∷ []) new ≡ returned (0 ∷ 1 ∷ [], two)
unfolding register_all register new new_connection insert ℕ_discrete
registered_two = refl

lookup-register_all_example :
    lookup ℕ_discrete 1 two.connections ≡ Option.map new_connection (get_elem? (7 ∷ 8 ∷ []) 1)
lookup-register_all_example = lookup-register_all (7 ∷ 8 ∷ []) 1 registered_two

register_all-eq-panicked_iff_example :
    (register_all {H = ℕ} (7 ∷ 8 ∷ []) new ≡ panicked) ↔ (max_id < length {A = ℕ} (7 ∷ 8 ∷ []))
register_all-eq-panicked_iff_example = register_all-eq-panicked_iff {H = ℕ} (7 ∷ 8 ∷ [])
