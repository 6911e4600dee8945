-- ===== src/Base/Maps.antt =====
-- `std::map` as an association list: `find`, `m[k] = v` and `erase`, with their laws.
use bb_monitor.Base.Tests.{if◌then◌else◌}
use bb_monitor.Base.Keys.{Eq, beq_refl}
use mathlib.Core.Path.{◌≡◌, refl}
use mathlib.Core.List.{List, [], ◌∷◌}
use mathlib.Core.Option.{Option, none, some}
use native.Mathlib.Omega.{arith}

module _ {ℓ κ} {K : Type ℓ} {V : Type κ} ⦃e : Eq K⦄ where
  unfoldable pub lookup : K → List (K × V) → Option V
  lookup k [] = none
  lookup k ((j, v) ∷ m) = if e.beq j k then some v else lookup k m

  -- `m[k] = v`
  unfoldable pub assign : K → V → List (K × V) → List (K × V)
  assign k v [] = (k, v) ∷ []
  assign k v ((j, w) ∷ m) = if e.beq j k then (k, v) ∷ m else (j, w) ∷ assign k v m

  unfoldable pub erase : K → List (K × V) → List (K × V)
  erase k [] = []
  erase k ((j, w) ∷ m) = if e.beq j k then erase k m else (j, w) ∷ erase k m

  -- `m.insert(first, last)`: the entries whose key is not there yet.
  unfoldable pub insert_all : List (K × V) → List (K × V) → List (K × V)
  unfolding lookup assign
  insert_all [] m = m
  insert_all ((k, v) ∷ new) m =
      insert_all new (elim (lookup k m) [ none ↦ assign k v m | some w ↦ m ])

  pub lookup-assign :
      (j k : K) (v : V) (m : List (K × V))
      → lookup j (assign k v m) ≡ (if e.beq k j then some v else lookup j m)
  unfolding lookup assign
  lookup-assign j k v [] = refl
  lookup-assign j k v ((i, w) ∷ m) =
      ground (arith, e.beq_iff k j, e.beq_iff i k, e.beq_iff i j, lookup-assign j k v m)

  pub lookup-erase :
      (j k : K) (m : List (K × V)) → lookup j (erase k m) ≡ (if e.beq k j then none else lookup j m)
  unfolding lookup erase
  lookup-erase j k [] = ground arith
  lookup-erase j k ((i, w) ∷ m) =
      ground (arith, e.beq_iff k j, e.beq_iff i k, e.beq_iff i j, lookup-erase j k m)

  pub lookup-assign_self : (k : K) (v : V) (m : List (K × V)) → lookup k (assign k v m) ≡ some v
  lookup-assign_self k v m = simp (lookup-assign, beq_refl)

  pub lookup-erase_self : (k : K) (m : List (K × V)) → lookup k (erase k m) ≡ none
  lookup-erase_self k m = simp (lookup-erase, beq_refl)

  pub lookup-assign-assign :
      (j k : K) (v : V) (m : List (K × V)) → lookup j (assign k v (assign j v m)) ≡ some v
  lookup-assign-assign j k v m =
      ground (arith, lookup-assign j k v (assign j v m), lookup-assign_self j v m)

  pub assign-assign :
      (k : K) (v w : V) (m : List (K × V)) → assign k v (assign k w m) ≡ assign k v m
  unfolding assign
  assign-assign k v w [] = ground (arith, beq_refl k)
  assign-assign k v w ((i, x) ∷ m) = ground (arith, beq_refl k, assign-assign k v w m)

  pub assign-lookup : (k : K) (v : V) (m : List (K × V)) → lookup k m ≡ some v → assign k v m ≡ m
  unfolding lookup assign
  assign-lookup k v [] h = cc
  assign-lookup k v ((i, x) ∷ m) h = ground (arith, e.beq_iff i k, assign-lookup k v m)
