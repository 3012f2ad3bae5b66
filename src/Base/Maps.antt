-- ===== src/Base/Maps.antt =====
-- Hash tables and hash sets as lists of entries, each key once. The list holds the contents; the
-- order of an iteration is a parameter of the code that iterates.
use mathlib.Core.HLevel.{⊥_prop}
use mathlib.Core.List.{
  List, [], ◌∷◌, map, lookup, Mem, Nodup, Nodup-cons, not-mem-nil, mem-cons_self, mem-cons_of_mem,
  eq-or-mem_of_mem-cons,
}
use mathlib.Core.Logic.Or
use mathlib.Core.Logic.{◌≢◌, ite, ◌↔◌, if_pos, if_neg}
use mathlib.Core.Option.{none, some}
use mathlib.Core.Path.{◌≡◌, refl}
use native.Mathlib.Omega.{arith}
use state_proxy.Base.Lists.{All}

module _ {ℓ} {K V : Type ℓ} where
  abbrev pub keys : List (K × V) → List K
  keys = map (λ e. e.0)

  abbrev pub values : List (K × V) → List V
  values = map (λ e. e.1)

module _ {ℓ} {K V : Type ℓ} (dec : Discrete K) where
  -- `HashMap::insert`: the value of a key that is present is replaced.
  unfoldable pub insert : K → V → List (K × V) → List (K × V)
  insert k v [] = (k, v) ∷ []
  insert k v (e ∷ m) = ite (dec k e.0) ((k, v) ∷ m) (e ∷ insert k v m)

  -- `HashMap::remove`.
  unfoldable pub remove : K → List (K × V) → List (K × V)
  remove k [] = []
  remove k (e ∷ m) = ite (dec k e.0) (remove k m) (e ∷ remove k m)

  pub lookup-insert :
      (k j : K) (v : V) (m : List (K × V))
      → lookup dec j (insert k v m) ≡ ite (dec j k) (some v) (lookup dec j m)
  unfolding lookup insert
  lookup-insert k j v [] = refl
  lookup-insert k j v (e ∷ m) = ground (arith, lookup-insert k j v m)

  pub lookup-remove :
      (k j : K) (m : List (K × V)) → lookup dec j (remove k m) ≡ ite (dec j k) none (lookup dec j m)
  unfolding lookup remove
  lookup-remove k j [] = ground arith
  lookup-remove k j (e ∷ m) = ground (arith, lookup-remove k j m)

  pub insert-ne-nil : (k : K) (v : V) (m : List (K × V)) → insert k v m ≢ []
  unfolding insert
  insert-ne-nil k v [] = λ h. cc
  insert-ne-nil k v (e ∷ m) = ground arith

  not-mem_of_none : (k : K) (m : List (K × V)) → lookup dec k m ≡ none → ¬ Mem k (keys m)
  unfolding lookup
  not-mem_of_none k [] _ = not-mem-nil
  not-mem_of_none k (e ∷ m) h = λ inside.
      Or.elim ⊥_prop (eq-or-mem_of_mem-cons inside) (λ here. ground arith)
        (not-mem_of_none k m (ground arith))

  none_of_not-mem : (k : K) (m : List (K × V)) → ¬ Mem k (keys m) → lookup dec k m ≡ none
  unfolding lookup
  none_of_not-mem k [] _ = refl
  none_of_not-mem k (e ∷ m) h = elim (dec k e.0) [
    | yes p ↦ absurd (h (rw (← p) mem-cons_self))
    | no p ↦ ground (arith, none_of_not-mem k m (λ inside. h (mem-cons_of_mem e.0 inside)))
  ]

  pub lookup-eq-none_iff : (k : K) (m : List (K × V)) → (lookup dec k m ≡ none) ↔ (¬ Mem k (keys m))
  lookup-eq-none_iff k m = (not-mem_of_none k m, none_of_not-mem k m)

  -- The key of a first entry of a table does not come again.
  pub lookup-head : (e : K × V) (m : List (K × V)) → Nodup (keys (e ∷ m)) → lookup dec e.0 m ≡ none
  lookup-head e m h = none_of_not-mem e.0 m (Nodup-cons.0 h).0

  pub Nodup-cons_of_none :
      (e : K × V) (m : List (K × V))
      → lookup dec e.0 m ≡ none
      → Nodup (keys m)
      → Nodup (keys (e ∷ m))
  Nodup-cons_of_none e m h u = Nodup-cons.1 (not-mem_of_none e.0 m h, u)

  pub insert-Nodup :
      (k : K) (v : V) (m : List (K × V)) → Nodup (keys m) → Nodup (keys (insert k v m))
  unfolding insert lookup
  insert-Nodup k v [] u = Nodup-cons_of_none (k, v) [] refl u
  insert-Nodup k v (e ∷ m) u = elim (dec k e.0) [
    | yes p ↦ rw (if_pos _ p) (rw p u)
    | no p ↦ rw (if_neg _ p) (
        Nodup-cons_of_none e (insert k v m)
          (ground (arith, lookup-insert k e.0 v m, lookup-head e m u))
          (insert-Nodup k v m (Nodup-cons.0 u).1))
  ]

  pub remove-Nodup : (k : K) (m : List (K × V)) → Nodup (keys m) → Nodup (keys (remove k m))
  unfolding remove
  remove-Nodup k [] u = u
  remove-Nodup k (e ∷ m) u = elim (dec k e.0) [
    | yes p ↦ rw (if_pos _ p) (remove-Nodup k m (Nodup-cons.0 u).1)
    | no p ↦ rw (if_neg _ p) (
        Nodup-cons_of_none e (remove k m) (ground (arith, lookup-remove k e.0 m, lookup-head e m u))
          (remove-Nodup k m (Nodup-cons.0 u).1))
  ]

  module _ {ι} (P : K × V → Type ι) where
    pub All-insert : (k : K) (v : V) (m : List (K × V)) → P (k, v) → All P m → All P (insert k v m)
    unfolding insert
    All-insert k v [] p a = (p, tt)
    All-insert k v (e ∷ m) p a = elim (dec k e.0) [
      | yes q ↦ rw (if_pos _ q) (p, a.1)
      | no q ↦ rw (if_neg _ q) (a.0, All-insert k v m p a.1)
    ]

    pub All-remove : (k : K) (m : List (K × V)) → All P m → All P (remove k m)
    unfolding remove
    All-remove k [] a = a
    All-remove k (e ∷ m) a = elim (dec k e.0) [
      | yes q ↦ rw (if_pos _ q) (All-remove k m a.1)
      | no q ↦ rw (if_neg _ q) (a.0, All-remove k m a.1)
    ]

    pub All-lookup :
        (k : K) (m : List (K × V)) {v : V} → All P m → lookup dec k m ≡ some v → P (k, v)
    unfolding lookup
    All-lookup k [] a h = cc
    All-lookup k (e ∷ m) {v} a h = elim (dec k e.0) [
      | yes q ↦ let same : (k, v) ≡ e = ground arith in rw same a.0
      | no q ↦ All-lookup k m a.1 (ground arith)
    ]
