-- ===== src/Base/Decimals.antt =====
-- The laws of the decimal parser.
use Prim.Native.Nat.{ℕ, zero, suc, ◌+◌, ◌-◌, ◌*◌, ◌/◌, ◌%◌, ◌≤◌, ◌<◌}
use mathlib.Core.List.{[], ◌∷◌, ◌++◌}
use mathlib.Core.Logic.{◌≢◌, ◌⊎◌, inl, inr}
use mathlib.Core.Option.{some}
use mathlib.Core.Path.{◌≡◌, refl, ap, sym, ◌∙◌}
use native.Mathlib.Omega.{arith}
use state_proxy.Base.Tests.{ltb, Bool-cases, ltb→lt}
use state_proxy.Base.Texts.{Text}
use state_proxy.Base.Lists.{All, All-append}
use state_proxy.Base.Splits.{parse_digits, parse_unsigned, print_digits, print_unsigned, Lacks}

parse_digits-le :
    (maximum n : ℕ) (s : Text) {v : ℕ}
    → n ≤ maximum
    → parse_digits maximum n s ≡ some v
    → v ≤ maximum
unfolding parse_digits
parse_digits-le maximum n [] h e = ground arith
parse_digits-le maximum n (c ∷ s) {v} h e =
    ground (arith, parse_digits-le maximum (n * 10 + (c - b'0')) s {v = v})

-- A number that is parsed fits its type.
pub parse_unsigned-le :
    (maximum : ℕ) (s : Text) {v : ℕ} → parse_unsigned maximum s ≡ some v → v ≤ maximum
unfolding parse_unsigned
parse_unsigned-le maximum [] e = cc
parse_unsigned-le maximum (c ∷ []) {v} e =
    ground (arith, parse_digits-le maximum 0 (c ∷ []) {v = v})
parse_unsigned-le maximum (c ∷ d ∷ s) {v} e = ground (
  arith,
  parse_digits-le maximum 0 (c ∷ d ∷ s) {v = v},
  parse_digits-le maximum 0 (d ∷ s) {v = v},
)

parse_digits_snoc :
    (maximum n : ℕ) (s : Text) (d v : ℕ)
    → parse_digits maximum n s ≡ some v
    → d < 10
    → v * 10 + d ≤ maximum
    → parse_digits maximum n (s ++ (b'0' + d) ∷ []) ≡ some (v * 10 + d)
unfolding parse_digits
parse_digits_snoc maximum n [] d v e small h =
    let same : n ≡ v = ground arith in rw same (ground arith)
parse_digits_snoc maximum n (c ∷ s) d v e small h =
    ground (arith, parse_digits_snoc maximum (n * 10 + (c - b'0')) s d v)

parse_digit :
    (maximum d : ℕ) → d < 10 → d ≤ maximum → parse_digits maximum 0 ((b'0' + d) ∷ []) ≡ some d
unfolding parse_digits
parse_digit maximum d small le = ground arith

parse-print_digits :
    (maximum fuel n : ℕ)
    → n < fuel
    → n ≤ maximum
    → parse_digits maximum 0 (print_digits fuel n) ≡ some n
unfolding print_digits
parse-print_digits maximum zero n h le = elim h [ ]
parse-print_digits maximum (suc fuel) n h le = elim (Bool-cases (ltb n 10)) [
  | inl one ↦ let small = ltb→lt n 10 one in rw one (parse_digit maximum n small le)
  | inr more ↦
      let big : 10 ≤ n = ground arith in
      let last : n ≡ n / 10 * 10 + n % 10 = omega arith in
      let rest = parse-print_digits maximum fuel (n / 10) (omega arith) (omega arith) in
      rw more (
        parse_digits_snoc maximum 0 (print_digits fuel (n / 10)) (n % 10) (n / 10) rest
          (omega arith) (omega arith)
        ∙ ap (λ (k : ℕ). some k) (sym last))
]

abbrev pub IsDigit : ℕ → Type 0
IsDigit c = (b'0' ≤ c) × (c ≤ b'9')

pub print_digits-IsDigit : (fuel n : ℕ) → All IsDigit (print_digits fuel n)
unfolding print_digits
print_digits-IsDigit zero n = tt
print_digits-IsDigit (suc fuel) n = elim (Bool-cases (ltb n 10)) [
  | inl one ↦ let small = ltb→lt n 10 one in rw one ((omega arith, omega arith), tt)
  | inr more ↦ rw more (
      All-append IsDigit (print_digits fuel (n / 10)) ((b'0' + n % 10) ∷ [])
        (print_digits-IsDigit fuel (n / 10)) ((omega arith, omega arith), tt))
]

append-ne-nil : (s : Text) (c : ℕ) → s ++ c ∷ [] ≢ []
append-ne-nil [] c = λ h. cc
append-ne-nil (x ∷ s) c = λ h. cc

print_digits-ne-nil : (fuel n : ℕ) → print_digits (suc fuel) n ≢ []
unfolding print_digits
print_digits-ne-nil fuel n = elim (Bool-cases (ltb n 10)) [
  | inl one ↦ rw one (λ h. cc)
  | inr more ↦ rw more (append-ne-nil (print_digits fuel (n / 10)) (b'0' + n % 10))
]

parse_unsigned-digits :
    (maximum : ℕ) (s : Text)
    → s ≢ []
    → All IsDigit s
    → parse_unsigned maximum s ≡ parse_digits maximum 0 s
unfolding parse_unsigned
parse_unsigned-digits maximum [] h d = absurd (h refl)
parse_unsigned-digits maximum (c ∷ s) h d = ground arith

-- A number within the maximum is parsed back from its decimal text.
pub parse-print_unsigned :
    (maximum n : ℕ) → n ≤ maximum → parse_unsigned maximum (print_unsigned n) ≡ some n
unfolding print_unsigned
parse-print_unsigned maximum n le =
    parse_unsigned-digits maximum (print_digits (suc n) n) (print_digits-ne-nil n n)
      (print_digits-IsDigit (suc n) n)
    ∙ parse-print_digits maximum (suc n) n (omega arith) le

Lacks-of_digits :
    (mark : ℕ) (s : Text) → (mark < b'0') ⊎ (b'9' < mark) → All IsDigit s → Lacks mark s
Lacks-of_digits mark [] h d = tt
Lacks-of_digits mark (c ∷ s) h d = (omega arith, Lacks-of_digits mark s h d.1)

-- A mark that is no digit does not come in a decimal text.
pub print_unsigned-Lacks :
    (mark n : ℕ) → (mark < b'0') ⊎ (b'9' < mark) → Lacks mark (print_unsigned n)
unfolding print_unsigned
print_unsigned-Lacks mark n h =
    Lacks-of_digits mark (print_digits (suc n) n) h (print_digits-IsDigit (suc n) n)
