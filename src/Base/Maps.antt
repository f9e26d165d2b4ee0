-- ===== src/Base/Maps.antt =====
-- Go maps as association lists with distinct keys. Go iterates over a map in no particular order,
-- so no theorem depends on the order of the list.
use mathlib.Core.Path.{◌≡◌, refl}
use mathlib.Core.Bool.{Bool, not}
use mathlib.Core.Option.{Option, none, some}
use mathlib.Core.List.{List, [], ◌∷◌}
use native.Mathlib.Omega.{arith}
use forgery.Base.Tests.{Comparable, ◌==◌, if◌then◌else◌, eq_iff}

abbrev pub Dict {ℓ κ} : Type ℓ → Type κ → Type (ℓ ⊔ κ)
Dict K V = List (K × V)

module _ {ℓ κ} {K : Type ℓ} {V : Type κ} where
  -- the entries for which a test holds
  pub keep : (K → V → Bool) → Dict K V → Dict K V
  keep p [] = []
  keep p ((k, v) ∷ m) = let rest = keep p m in if p k v then (k, v) ∷ rest else rest

module _ {ℓ κ} {K : Type ℓ} {V : Type κ} ⦃e : Comparable K⦄ where
  -- v, ok := m[k]
  unfoldable pub lookup : K → Dict K V → Option V
  lookup key [] = none
  lookup key ((other, found) ∷ later) = if other == key then some found else lookup key later

  -- delete(m, k)
  pub delete : K → Dict K V → Dict K V
  unfolding keep
  delete k m = keep (λ j _. not (j == k)) m

  -- m[k] = v
  unfoldable pub insert : K → V → Dict K V → Dict K V
  unfolding delete
  insert k v m = (k, v) ∷ delete k m

abbrev pub only {κ} : {V : Type κ} → (V → Bool) → Option V → Option V
only p none = none
only p (some v) = if p v then some v else none

pub only-some {κ} :
    {V : Type κ} (p : V → Bool) (o : Option V) (v : V) → only p o ≡ some v → o ≡ some v
only-some p none v h = h
only-some p (some u) v h = ground arith

module _ {ℓ κ} {K : Type ℓ} {V : Type κ} ⦃e : Comparable K⦄ where
  abbrev pub Distinct : Dict K V → Type κ
  Distinct [] = Unit
  Distinct ((k, v) ∷ m) = (lookup k m ≡ none) × Distinct m

  pub lookup-delete :
      (k j : K) (m : Dict K V) → lookup j (delete k m) ≡ (if k == j then none else lookup j m)
  unfolding lookup delete
  lookup-delete k j [] = ground arith
  lookup-delete k j ((i, v) ∷ m) =
      ground (arith, lookup-delete k j m, eq_iff i k, eq_iff i j, eq_iff k j)

  pub lookup-insert :
      (written key : K) (new : V) (m : Dict K V)
      → lookup key (insert written new m) ≡ (if written == key then some new else lookup key m)
  unfolding lookup insert
  lookup-insert written key new m = ground (arith, lookup-delete written key m)

  -- A filtered map holds what the map held and the test lets through.
  pub lookup-keep :
      (p : K → V → Bool) (k : K) (m : Dict K V)
      → Distinct m
      → lookup k (keep p m) ≡ only (p k) (lookup k m)
  unfolding lookup keep
  lookup-keep p k [] d = refl
  lookup-keep p k ((i, v) ∷ m) d = ground (arith, lookup-keep p k m d.1, eq_iff i k)

  pub keep-Distinct : (p : K → V → Bool) (m : Dict K V) → Distinct m → Distinct (keep p m)
  unfolding keep
  keep-Distinct p [] d = d
  keep-Distinct p ((i, v) ∷ m) d = ground (arith, lookup-keep p i m d.1, keep-Distinct p m d.1)

  pub delete-Distinct : (k : K) (m : Dict K V) → Distinct m → Distinct (delete k m)
  unfolding delete
  delete-Distinct k m d = keep-Distinct _ m d

  pub insert-Distinct : (k : K) (v : V) (m : Dict K V) → Distinct m → Distinct (insert k v m)
  unfolding insert
  insert-Distinct k v m d = (simp lookup-delete (ground (arith, eq_iff k k)), delete-Distinct k m d)
