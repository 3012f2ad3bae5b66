-- ===== src/Base/Splits.antt =====
-- `str::split` at a character, and the decimal parser of the unsigned integers, as the standard
-- library has them.
use Prim.Native.Nat.{ℕ, zero, suc, ◌+◌, ◌-◌, ◌*◌, ◌/◌, ◌%◌}
use mathlib.Core.Bool.{◌||◌}
use mathlib.Core.List.{List, [], ◌∷◌, ◌++◌}
use mathlib.Core.Logic.{◌≢◌}
use mathlib.Core.Option.{Option, none, some}
use mathlib.Core.Path.{◌≡◌, refl, ap, ◌∙◌}
use native.Mathlib.Omega.{arith}
use state_proxy.Base.Lists.{All}
use state_proxy.Base.Tests.{ltb, ◌==◌, if◌then◌else◌}
use state_proxy.Base.Texts.{Text}

push_head : ℕ → List Text → List Text
push_head c [] = (c ∷ []) ∷ []
push_head c (piece ∷ pieces) = (c ∷ piece) ∷ pieces

-- There is always a first piece.
unfoldable pub split : ℕ → Text → List Text
unfolding push_head
split mark [] = [] ∷ []
split mark (c ∷ s) = if c == mark then [] ∷ split mark s else push_head c (split mark s)

-- The pieces with the mark between them.
abbrev pub join : ℕ → Text → List Text → Text
join mark piece [] = piece
join mark piece (next ∷ pieces) = piece ++ mark ∷ join mark next pieces

abbrev pub Lacks : ℕ → Text → Type 0
Lacks mark = All (λ c. c ≢ mark)

split-piece :
    (mark : ℕ) (piece rest : Text)
    → Lacks mark piece
    → split mark (piece ++ mark ∷ rest) ≡ piece ∷ split mark rest
unfolding split
split-piece mark [] rest h = ground arith
split-piece mark (c ∷ piece) rest h = ground (arith, split-piece mark piece rest h.1)

split_last : (mark : ℕ) (piece : Text) → Lacks mark piece → split mark piece ≡ piece ∷ []
unfolding split
split_last mark [] h = refl
split_last mark (c ∷ piece) h = ground (arith, split_last mark piece h.1)

-- Splitting gives back the pieces that were joined, if the mark is in none of them.
pub split-join :
    (mark : ℕ) (piece : Text) (pieces : List Text)
    → Lacks mark piece
    → All (Lacks mark) pieces
    → split mark (join mark piece pieces) ≡ piece ∷ pieces
split-join mark piece [] h hs = split_last mark piece h
split-join mark piece (next ∷ pieces) h hs =
    split-piece mark piece (join mark next pieces) h
    ∙ ap (◌∷◌ piece) (split-join mark next pieces hs.0 hs.1)

-- The digits behind a value that has been read; a value above the maximum is an error.
unfoldable pub parse_digits : ℕ → ℕ → Text → Option ℕ
parse_digits maximum n [] = some n
parse_digits maximum n (c ∷ s) =
    if ltb c b'0' || ltb b'9' c
    then none
    else if ltb maximum (n * 10 + (c - b'0'))
    then none
    else parse_digits maximum (n * 10 + (c - b'0')) s

nonempty_digits : ℕ → Text → Option ℕ
nonempty_digits maximum [] = none
nonempty_digits maximum (c ∷ s) = parse_digits maximum 0 (c ∷ s)

-- `str::parse` at an unsigned type with the given maximum: one `+` may stand in front.
unfoldable pub parse_unsigned : ℕ → Text → Option ℕ
unfolding nonempty_digits parse_digits
parse_unsigned maximum [] = none
parse_unsigned maximum (c ∷ s) =
    if c == b'+' then nonempty_digits maximum s else nonempty_digits maximum (c ∷ s)

-- `to_string` of an unsigned integer, with as many digits at most as the fuel.
unfoldable pub print_digits : ℕ → ℕ → Text
print_digits zero n = []
print_digits (suc fuel) n =
    let rest = print_digits fuel (n / 10) in
    if ltb n 10 then (b'0' + n) ∷ [] else rest ++ (b'0' + n % 10) ∷ []

-- A number has fewer digits than one more than its value.
unfoldable pub print_unsigned : ℕ → Text
unfolding print_digits
print_unsigned n = print_digits (suc n) n
