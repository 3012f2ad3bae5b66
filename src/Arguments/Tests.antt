-- ===== src/Arguments/Tests.antt =====
-- The thread argument on concrete texts.
use state_proxy.Base.{
  ℕ, zero, suc, Outcome, ◌≢◌, codes, some, [], panicked, returned, ◌≡◌, refl, ◌↔◌, ◌⊎◌, ◌<◌, true,
  parse_unsigned, parse_digits,
}
use state_proxy.Arguments.{max_usize, arg_is_number, worker_threads}
use state_proxy.Arguments.Threads.{decimal_value, worker_threads-eq-panicked_iff}

eight : arg_is_number (codes "8") ≡ true
unfolding arg_is_number
eight = refl

abbrev positive_threads : ℕ → Outcome (Unit {0})
positive_threads zero = panicked
positive_threads (suc n) = returned tt

positive_threads-taken : (n : ℕ) → n ≢ 0 → positive_threads n ≡ returned tt
positive_threads-taken zero positive = absurd (positive refl)
positive_threads-taken (suc n) positive = refl

eight_threads : worker_threads positive_threads (some (codes "8")) ≡ returned (some 8)
unfolding worker_threads parse_unsigned parse_digits
eight_threads = refl

no_threads : worker_threads positive_threads (some (codes "0")) ≡ panicked
unfolding worker_threads parse_unsigned parse_digits
no_threads = refl

worker_threads-eq-panicked_iff_example :
    (worker_threads positive_threads (some (codes "8")) ≡ panicked) ↔ (
      (codes "8" ≡ [])
      ⊎ ((decimal_value 0 (codes "8") ≡ 0) ⊎ (max_usize < decimal_value 0 (codes "8"))))
worker_threads-eq-panicked_iff_example =
    worker_threads-eq-panicked_iff positive_threads (codes "8")
      (record { refuses_zero = refl; takes_others = positive_threads-taken }) eight
