-- ===== src/Prelude/Maps.antt =====
-- Go maps as association lists. The list order is the order in which a `range` loop visits the
-- entries; Go leaves it open, and so do the theorems, which hold for every list.
use mathlib.Core.Path.{◌≡◌, refl}
use mathlib.Core.Logic.{◌≢◌, ◌⊎◌, inl, inr}
use mathlib.Core.Option.{Option, none, some}
use mathlib.Core.List.{List, [], ◌∷◌}
use native.Mathlib.Omega.{arith}
use amy_queue.Prelude.Tests.{Comparable, ◌==◌, Bool-cases, if◌then◌else◌}

abbrev pub Map {ℓ κ} : Type ℓ → Type κ → Type (ℓ ⊔ κ)
Map K V = List (K × V)

module _ {ℓ κ} {K : Type ℓ} {V : Type κ} ⦃e : Comparable K⦄ where
  -- `v, ok := m[k]`.
  unfoldable pub lookup : K → Map K V → Option V
  lookup key [] = none
  lookup key ((k, v) ∷ m) = if k == key then some v else lookup key m

  -- `m[k] = v`.
  unfoldable pub insert : K → V → Map K V → Map K V
  insert key new [] = (key, new) ∷ []
  insert key new ((k, old) ∷ m) = if k == key then (key, new) ∷ m else (k, old) ∷ insert key new m

  -- `delete(m, k)`.
  unfoldable pub delete : K → Map K V → Map K V
  delete k [] = []
  delete k ((j, w) ∷ m) = let rest = delete k m in if j == k then rest else (j, w) ∷ rest

  -- `m[k]` alone: the zero value `d` stands in for a missing entry.
  abbrev pub get_or : K → Map K V → V → V
  get_or k m d = elim (lookup k m) [ none ↦ d | some v ↦ v ]

  pub lookup-insert :
      (k x : K) (v : V) (m : Map K V)
      → lookup x (insert k v m) ≡ (if k == x then some v else lookup x m)
  unfolding lookup insert
  lookup-insert k x v [] = refl
  lookup-insert k x v ((j, w) ∷ m) =
      ground (arith, e.same_iff k x, e.same_iff j k, e.same_iff j x, lookup-insert k x v m)

  pub lookup-delete :
      (k j : K) (m : Map K V) → lookup j (delete k m) ≡ (if k == j then none else lookup j m)
  unfolding lookup delete
  lookup-delete k j [] = ground arith
  lookup-delete k j ((i, w) ∷ m) =
      ground (arith, e.same_iff k j, e.same_iff i k, e.same_iff i j, lookup-delete k j m)

  pub lookup-insert_self : (k : K) (v : V) (m : Map K V) → lookup k (insert k v m) ≡ some v
  lookup-insert_self k v m = ground (arith, lookup-insert k k v m, e.same_iff k k)

  pub lookup-insert_ne :
      (k j : K) (v : V) (m : Map K V) → k ≢ j → lookup j (insert k v m) ≡ lookup j m
  lookup-insert_ne k j v m h = ground (arith, lookup-insert k j v m, e.same_iff k j)

  pub lookup-delete_self : (k : K) (m : Map K V) → lookup k (delete k m) ≡ none
  lookup-delete_self k m = ground (arith, lookup-delete k k m, e.same_iff k k)

  pub lookup-delete_ne : (k j : K) (m : Map K V) → k ≢ j → lookup j (delete k m) ≡ lookup j m
  lookup-delete_ne k j m h = ground (arith, lookup-delete k j m, e.same_iff k j)

  -- Where an entry comes from after a write, and after a deletion.
  pub insert_cases :
      (k j : K) (v w : V) (m : Map K V)
      → lookup j (insert k v m) ≡ some w
      → ((k ≡ j) × (v ≡ w)) ⊎ ((k ≢ j) × (lookup j m ≡ some w))
  insert_cases k j v w m h = elim (Bool-cases (k == j)) [
    | inl t ↦ inl ((e.same_iff k j).0 t, ground (arith, lookup-insert k j v m))
    | inr f ↦
        inr ((λ p. ground (arith, (e.same_iff k j).1 p)), ground (arith, lookup-insert k j v m))
  ]

  pub delete_cases :
      (k j : K) (w : V) (m : Map K V)
      → lookup j (delete k m) ≡ some w
      → (k ≢ j) × (lookup j m ≡ some w)
  delete_cases k j w m h = elim (Bool-cases (k == j)) [
    | inl t ↦ absurd (ground (arith, lookup-delete k j m))
    | inr f ↦ ((λ p. ground (arith, (e.same_iff k j).1 p)), ground (arith, lookup-delete k j m))
  ]

  -- No key stands twice, as in every Go map.
  abbrev pub Unique : Map K V → Type κ
  Unique [] = Unit
  Unique ((k, v) ∷ m) = (lookup k m ≡ none) × Unique m

  pub insert-Unique : (k : K) (v : V) (m : Map K V) → Unique m → Unique (insert k v m)
  unfolding insert lookup
  insert-Unique k v [] u = (refl, tt)
  insert-Unique k v ((j, w) ∷ m) u =
      ground (arith, e.same_iff j k, e.same_iff k j, insert-Unique k v m u.1, lookup-insert k j v m)

  pub delete-Unique : (k : K) (m : Map K V) → Unique m → Unique (delete k m)
  unfolding delete
  delete-Unique k [] u = tt
  delete-Unique k ((j, w) ∷ m) u =
      ground (arith, delete-Unique k m u.1, lookup-delete k j m, e.same_iff k j, e.same_iff j k)

  -- Two maps hold the same entries, in whatever order.
  abbrev pub SameMap : Map K V → Map K V → Type (ℓ ⊔ κ)
  SameMap m m' = (k : K) → lookup k m ≡ lookup k m'

  pub insert-SameMap :
      (k : K) (v : V) (m m' : Map K V) → SameMap m m' → SameMap (insert k v m) (insert k v m')
  insert-SameMap k v m m' h j = ground (arith, h j, lookup-insert k j v m, lookup-insert k j v m')

  pub delete-SameMap : (k : K) (m m' : Map K V) → SameMap m m' → SameMap (delete k m) (delete k m')
  delete-SameMap k m m' h j = ground (arith, h j, lookup-delete k j m, lookup-delete k j m')

  pub SameMap-get_or :
      (k : K) (d : V) (m m' : Map K V) → SameMap m m' → get_or k m d ≡ get_or k m' d
  SameMap-get_or k d m m' h = ground (arith, h k)
