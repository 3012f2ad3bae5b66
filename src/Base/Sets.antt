-- ===== src/Base/Sets.antt =====
-- Hash sets as lists of keys, and the facts on iterations in any order.
use mathlib.Core.Bool.{Bool, true, false}
use mathlib.Core.HLevel.{⊥_prop}
use mathlib.Core.List.Perm
use mathlib.Core.List.{
  List, [], ◌∷◌, lookup, Mem, Nodup, Perm, Nodup-cons, not-mem-nil, mem-cons_self, mem-cons_of_mem,
  eq-or-mem_of_mem-cons,
}
use mathlib.Core.Logic.Or
use mathlib.Core.Logic.{ite, inl, inr, if_pos, if_neg}
use mathlib.Core.Option.{Option, some}
use mathlib.Core.Path.{◌≡◌, refl}
use native.Mathlib.Omega.{arith}
use state_proxy.Base.Maps.{keys, lookup-head}
use state_proxy.Base.Lists.{All}
use state_proxy.Base.Tests.{if◌then◌else◌, Bool-cases, Option-cases}

module _ {K : Type 0} (dec : Discrete K) where
  -- `HashSet::contains`, and `contains_key` on the keys of a table.
  unfoldable pub contains : K → List K → Bool
  contains k [] = false
  contains k (x ∷ xs) = ite (dec k x) true (contains k xs)

  -- `HashSet::insert`: the set after it, and whether the value is new.
  unfoldable pub set_insert : K → List K → List K × Bool
  unfolding contains
  set_insert k xs = if contains k xs then (xs, false) else (k ∷ xs, true)

  -- `HashSet::remove`.
  unfoldable pub set_remove : K → List K → List K
  set_remove k [] = []
  set_remove k (x ∷ xs) = ite (dec k x) (set_remove k xs) (x ∷ set_remove k xs)

  pub contains-set_insert :
      (k j : K) (xs : List K) → contains j (set_insert k xs).0 ≡ ite (dec j k) true (contains j xs)
  unfolding set_insert
  contains-set_insert k j xs = elim (Bool-cases (contains k xs)) [
    | inl old ↦ elim (dec j k) [
      | yes p ↦ rw (old, if_pos (dec j k) p, p) old
      | no p ↦ rw (old, if_neg (dec j k) p)
    ]
    | inr new ↦ rw new
  ]

  pub contains-set_remove :
      (k j : K) (xs : List K) → contains j (set_remove k xs) ≡ ite (dec j k) false (contains j xs)
  unfolding contains set_remove
  contains-set_remove k j [] = ground arith
  contains-set_remove k j (x ∷ xs) = ground (arith, contains-set_remove k j xs)

  mem_of_contains : (k : K) (xs : List K) → contains k xs ≡ true → Mem k xs
  unfolding contains
  mem_of_contains k [] h = cc
  mem_of_contains k (x ∷ xs) h = elim (dec k x) [
    | yes p ↦ rw p mem-cons_self
    | no p ↦ mem-cons_of_mem x (mem_of_contains k xs (ground arith))
  ]

  not-mem_of_contains : (k : K) (xs : List K) → contains k xs ≡ false → ¬ Mem k xs
  unfolding contains
  not-mem_of_contains k [] h = not-mem-nil
  not-mem_of_contains k (x ∷ xs) h = λ inside.
      Or.elim ⊥_prop (eq-or-mem_of_mem-cons inside) (λ here. ground arith)
        (not-mem_of_contains k xs (ground arith))

  -- Membership does not depend on the order of an iteration.
  pub contains-perm : (k : K) {xs ys : List K} → Perm xs ys → contains k xs ≡ contains k ys
  contains-perm k {xs} {ys} p = elim (Bool-cases (contains k xs)) [
    | inl here ↦ elim (Bool-cases (contains k ys)) [
      | inl e ↦ cc
      | inr e ↦ absurd (not-mem_of_contains k ys e ((Perm.mem_iff p).0 (mem_of_contains k xs here)))
    ]
    | inr gone ↦ elim (Bool-cases (contains k ys)) [
      | inl e ↦ absurd (not-mem_of_contains k xs gone ((Perm.mem_iff p).1 (mem_of_contains k ys e)))
      | inr e ↦ cc
    ]
  ]

  pub contains_head : (x : K) (xs : List K) → Nodup (x ∷ xs) → contains x xs ≡ false
  contains_head x xs u = elim (Bool-cases (contains x xs)) [
    | inl e ↦ absurd ((Nodup-cons.0 u).0 (mem_of_contains x xs e))
    | inr e ↦ e
  ]

  pub Nodup-cons_of_contains :
      (x : K) (xs : List K) → contains x xs ≡ false → Nodup xs → Nodup (x ∷ xs)
  Nodup-cons_of_contains x xs h u = Nodup-cons.1 (not-mem_of_contains x xs h, u)

  pub set_insert-Nodup : (k : K) (xs : List K) → Nodup xs → Nodup (set_insert k xs).0
  unfolding set_insert
  set_insert-Nodup k xs u = elim (Bool-cases (contains k xs)) [
    | inl old ↦ rw old u
    | inr new ↦ rw new (Nodup-cons.1 (not-mem_of_contains k xs new, u))
  ]

module _ {ℓ} {K V : Type ℓ} (dec : Discrete K) (V_set : IsSet (Option V)) where
  pub mem_of_lookup : (k : K) (m : List (K × V)) {v : V} → lookup dec k m ≡ some v → Mem (k, v) m
  unfolding lookup
  mem_of_lookup k [] h = cc
  mem_of_lookup k (e ∷ m) {v} h = elim (dec k e.0) [
    | yes p ↦ let same : ◌≡◌ {A = K × V} (k, v) e = ground arith in rw same mem-cons_self
    | no p ↦ mem-cons_of_mem e (mem_of_lookup k m (ground arith))
  ]

  pub lookup_of_mem :
      (k : K) (m : List (K × V)) {v : V} → Nodup (keys m) → Mem (k, v) m → lookup dec k m ≡ some v
  unfolding lookup
  lookup_of_mem k [] u inside = absurd (not-mem-nil inside)
  lookup_of_mem k (e ∷ m) {v} u inside =
      Or.elim (V_set _ _) (eq-or-mem_of_mem-cons inside)
        (λ here. rw (← here) (if_pos (dec k k) refl _ _))
        λ there. elim (dec k e.0) [
          | yes p ↦
              let again = lookup_of_mem k m (Nodup-cons.0 u).1 there in
              let gone = lookup-head dec e m u in absurd (ground arith)
          | no p ↦ rw (if_neg _ p) (lookup_of_mem k m (Nodup-cons.0 u).1 there)
        ]

  -- Nor does a lookup.
  pub lookup-perm :
      (k : K) {m n : List (K × V)} → Perm m n → Nodup (keys n) → lookup dec k m ≡ lookup dec k n
  lookup-perm k {m} {n} p u = elim (Option-cases (lookup dec k m)) [
    | inl gone ↦ elim (Option-cases (lookup dec k n)) [
      | inl e ↦ cc
      | inr (v, e) ↦
          let again =
            lookup_of_mem k m (Perm.nodup (Perm.symm (Perm.map _ p)) u)
              ((Perm.mem_iff p).1 (mem_of_lookup k n e)) in
          cc
    ]
    | inr (v, e) ↦ rw (e, lookup_of_mem k n u ((Perm.mem_iff p).0 (mem_of_lookup k m e)))
  ]

module _ {ℓ κ} {A : Type ℓ} (P : A → Type κ) (P_prop : (a : A) → IsProp (P a)) where
  pub All-mem : (xs : List A) (a : A) → All P xs → Mem a xs → P a
  All-mem [] a h inside = absurd (not-mem-nil inside)
  All-mem (x ∷ xs) a h inside =
      Or.elim (P_prop a) (eq-or-mem_of_mem-cons inside) (λ e. rw e h.0) (All-mem xs a h.1)

  All-of_mem : (xs : List A) → ((a : A) → Mem a xs → P a) → All P xs
  All-of_mem [] h = tt
  All-of_mem (x ∷ xs) h =
      (h x mem-cons_self, All-of_mem xs (λ a inside. h a (mem-cons_of_mem x inside)))

  pub All-perm : {xs ys : List A} → Perm xs ys → All P ys → All P xs
  All-perm {xs} {ys} p h = All-of_mem xs (λ a inside. All-mem ys a h ((Perm.mem_iff p).0 inside))
