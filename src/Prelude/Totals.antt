-- ===== src/Prelude/Totals.antt =====
-- The sum of a number over the values of a Go map does not depend on the order of the entries.
use Prim.Native.Nat.{ℕ, ◌+◌}
use mathlib.Core.Path.{◌≡◌, refl}
use mathlib.Core.Option.{none, some}
use mathlib.Core.List.{[], ◌∷◌}
use native.Mathlib.Omega.{arith}
use amy_queue.Prelude.Tests.{Comparable}
use amy_queue.Prelude.Maps.{Map, lookup, delete, Unique, SameMap, lookup-delete, delete-Unique}

module _ {ℓ κ} {K : Type ℓ} {V : Type κ} ⦃e : Comparable K⦄ where
  abbrev pub total : (V → ℕ) → Map K V → ℕ
  total weight [] = 0
  total weight ((_, v) ∷ m) = weight v + total weight m

  delete_absent : (k : K) (m : Map K V) → lookup k m ≡ none → delete k m ≡ m
  unfolding lookup delete
  delete_absent k [] h = refl
  delete_absent k ((j, w) ∷ m) h = ground (arith, delete_absent k m)

  -- An entry taken out of the map takes its share of the sum along.
  total-delete :
      (weight : V → ℕ) (k : K) (v : V) (m : Map K V)
      → Unique m
      → lookup k m ≡ some v
      → total weight m ≡ weight v + total weight (delete k m)
  unfolding lookup delete
  total-delete weight k v [] u h = cc
  total-delete weight k v ((j, w) ∷ m) u h =
      ground (arith, e.same_iff j k, delete_absent k m, total-delete weight k v m u.1)

  pub total_same :
      (weight : V → ℕ) (m m' : Map K V)
      → Unique m
      → Unique m'
      → SameMap m m'
      → total weight m ≡ total weight m'
  unfolding lookup
  total_same weight [] [] u u' h = refl
  total_same weight [] ((j, w) ∷ m') u u' h = absurd (ground (arith, h j, e.same_iff j j))
  total_same weight ((j, w) ∷ m) m' u u' h =
      let here : lookup j m' ≡ some w = ground (arith, h j, e.same_iff j j) in
      let same : SameMap m (delete j m') =
        λ k. ground (arith, h k, u.0, lookup-delete j k m', e.same_iff j k) in
      let rest = total_same weight m (delete j m') u.1 (delete-Unique j m' u') same in
      let part = total-delete weight j w m' u' here in omega (arith, rest, part)
