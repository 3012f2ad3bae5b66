-- ===== src/Arguments/Threads.antt =====
-- Which arguments pass the check, and what becomes of them.
use state_proxy.Base.{
  ℕ, ℕ_discrete, Outcome, ◌+◌, ◌-◌, ◌*◌, ◌≤◌, ◌<◌, true, [], ◌∷◌, none, some, Text, returned,
  panicked, ltb, if◌then◌else◌, parse_unsigned, parse_digits, ◌≡◌, ◌≢◌, refl, ◌↔◌, ◌⊎◌, inl, inr,
  Bool-cases, arith, ◌∙◌,
}
use state_proxy.Arguments.{max_usize, arg_is_number, worker_threads}

-- The value of a text of digits behind what was read.
abbrev pub decimal_value : ℕ → Text → ℕ
decimal_value n [] = n
decimal_value n (c ∷ x) = decimal_value (n * 10 + (c - b'0')) x

decimal_value-le : (n : ℕ) (x : Text) → n ≤ decimal_value n x
decimal_value-le n [] = omega arith
decimal_value-le n (c ∷ x) = omega (arith, decimal_value-le (n * 10 + (c - b'0')) x)

parse_digits-number :
    (n : ℕ) (x : Text)
    → n ≤ max_usize
    → arg_is_number x ≡ true
    → parse_digits max_usize n x
      ≡ (if ltb max_usize (decimal_value n x) then none else some (decimal_value n x))
unfolding parse_digits arg_is_number
parse_digits-number n [] le h = ground arith
parse_digits-number n (c ∷ x) le h =
    let next = n * 10 + (c - b'0') in
    elim (Bool-cases (ltb max_usize next)) [
      | inl over ↦ ground (arith, decimal_value-le next x)
      | inr fits ↦ ground (arith, parse_digits-number next x (ground arith) (ground arith))
    ]

parse_unsigned-number :
    (x : Text)
    → x ≢ []
    → arg_is_number x ≡ true
    → parse_unsigned max_usize x ≡ parse_digits max_usize 0 x
unfolding parse_unsigned arg_is_number
parse_unsigned-number [] some_digit h = absurd (some_digit refl)
parse_unsigned-number (c ∷ x) some_digit h = ground arith

-- What the documentation of the builder says of the number of threads: it panics for zero.
pub record IsThreadSetter (set_threads : ℕ → Outcome (Unit {0})) : Type 0 where
  pub refuses_zero : set_threads 0 ≡ panicked
  pub takes_others : (n : ℕ) → n ≢ 0 → set_threads n ≡ returned tt

set_threads-cases :
    (set_threads : ℕ → Outcome (Unit {0})) (n : ℕ)
    → IsThreadSetter set_threads
    → ((n ≡ 0) × (set_threads n ≡ panicked)) ⊎ ((n ≢ 0) × (set_threads n ≡ returned tt))
set_threads-cases set_threads n builder = elim (ℕ_discrete n 0) [
  | yes is_zero ↦ inl (is_zero, rw is_zero builder.refuses_zero)
  | no positive ↦ inr (positive, builder.takes_others n positive)
]

parsed-number :
    (x : Text)
    → x ≢ []
    → arg_is_number x ≡ true
    → parse_unsigned max_usize x
      ≡ (if ltb max_usize (decimal_value 0 x) then none else some (decimal_value 0 x))
parsed-number x some_digit h =
    parse_unsigned-number x some_digit h ∙ parse_digits-number 0 x (omega arith) h

-- An argument that passed the check makes the start of the runtime, whose builder refuses zero threads,
-- panic exactly if it is empty, its value is zero, or its value does not fit a `usize`.
pub worker_threads-eq-panicked_iff :
    (set_threads : ℕ → Outcome (Unit {0})) (x : Text)
    → IsThreadSetter set_threads
    → arg_is_number x ≡ true
    → (worker_threads set_threads (some x) ≡ panicked)
      ↔ ((x ≡ []) ⊎ ((decimal_value 0 x ≡ 0) ⊎ (max_usize < decimal_value 0 x)))
unfolding worker_threads parse_unsigned
worker_threads-eq-panicked_iff set_threads [] builder h = (λ e. inl refl, λ e. refl)
worker_threads-eq-panicked_iff set_threads (c ∷ x) builder h =
    let n = decimal_value 0 (c ∷ x) in
    let parsed = parsed-number (c ∷ x) (λ e. cc) h in
    elim (Bool-cases (ltb max_usize n)) [
      | inl over ↦ (λ e. inr (inr (ground arith)), λ e. ground arith)
      | inr fits ↦ elim (set_threads-cases set_threads n builder) [
        | inl (is_zero, refused) ↦ (λ e. inr (inl is_zero), λ e. ground arith)
        | inr (positive, is_set) ↦ (
          λ e. absurd (ground arith),
          λ e. absurd (elim e [
            | inl empty ↦ cc
            | inr (inl is_zero) ↦ positive is_zero
            | inr (inr over) ↦ ground arith
          ]),
        )
      ]
    ]
