-- ===== src/Arguments.antt =====
-- src/bin/main.rs: the check of `--worker-threads`, and its use when the runtime is built. Reading the
-- command line is the work of `clap`; its texts are valid Unicode here.
use state_proxy.Base.{
  ℕ, ◌-◌, ◌^◌, Bool, true, false, List, [], ◌∷◌, Option, none, some, Text, Outcome, returned,
  panicked, ◌>>=◌, unwrap, ltb, ◌||◌, if◌then◌else◌, parse_unsigned,
}
pub mod Threads
mod Tests

-- The largest `usize` of a 64-bit target.
abbrev pub max_usize : ℕ
max_usize = 2 ^ 64 - 1

-- `arg_is_number`: no character that is not a decimal digit is found.
unfoldable pub arg_is_number : Text → Bool
arg_is_number [] = true
arg_is_number (c ∷ x) = if ltb c b'0' || ltb b'9' c then false else arg_is_number x

-- `init_executor`: the number of worker threads that is set, if the argument is given. Setting it is a
-- call of the builder of the runtime.
unfoldable pub worker_threads : (ℕ → Outcome (Unit {0})) → Option Text → Outcome (Option ℕ)
worker_threads set_threads none = returned none
worker_threads set_threads (some text) = do
  n ← unwrap (parse_unsigned max_usize text)
  _ ← set_threads n
  returned (some n)
