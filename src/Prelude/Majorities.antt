-- ===== src/Prelude/Majorities.antt =====
-- Two lists without repetition, out of a list that is shorter than both together, share an element.
use Prim.Native.Nat.{ℕ, suc, ◌+◌, ◌≤◌, ◌<◌}
use Prim.Native.String.{String}
use mathlib.Core.Path.{◌≡◌, sym}
use mathlib.Core.Logic.{inl, inr}
use mathlib.Core.Bool.{Bool, true, false, ◌||◌, ◌&&◌}
use mathlib.Core.List.{List, [], ◌∷◌}
use native.Mathlib.Omega.{arith}
use text.Mathlib.TextEquality.{eq_iff}
use amy_queue.Prelude.Tests.{◌==◌, string_eq, Bool-cases, if◌then◌else◌}
use amy_queue.Prelude.Lists.{length, All, Occurs, IsDistinct}

abbrev contains : List String → String → Bool
contains [] x = false
contains (y ∷ ys) x = x == y || contains ys x

contains-Occurs : (ys : List String) (x : String) → contains ys x ≡ true → Occurs x ys
contains-Occurs [] x h = absurd cc
contains-Occurs (y ∷ ys) x h = elim (Bool-cases (x == y)) [
  | inl t ↦ inl ((eq_iff x y).0 t)
  | inr f ↦ inr (contains-Occurs ys x (ground (arith, h, f)))
]

Occurs-contains : (ys : List String) (x : String) → Occurs x ys → contains ys x ≡ true
Occurs-contains [] x h = absurd h
Occurs-contains (y ∷ ys) x (inl e) = ground (arith, (eq_iff x y).1 e)
Occurs-contains (y ∷ ys) x (inr o) = ground (arith, Occurs-contains ys x o)

-- How many elements of the second list stand in the first.
abbrev count_in : List String → List String → ℕ
count_in p [] = 0
count_in p (a ∷ all) = let rest = count_in p all in if contains p a then suc rest else rest

count_in_mono : (y : String) (p all : List String) → count_in p all ≤ count_in (y ∷ p) all
count_in_mono y p [] = omega arith
count_in_mono y p (a ∷ all) = ground (arith, count_in_mono y p all)

count_in_more :
    (y : String) (p all : List String)
    → Occurs y all
    → contains p y ≡ false
    → count_in p all + 1 ≤ count_in (y ∷ p) all
count_in_more y p [] o n = absurd o
count_in_more y p (a ∷ all) (inl e) n =
    ground (arith, n, e, (eq_iff a y).1 (sym e), count_in_mono y p all)
count_in_more y p (a ∷ all) (inr o) n = ground (arith, count_in_more y p all o n)

length-le-count_in :
    (p all : List String) → IsDistinct p → All (λ x. Occurs x all) p → length p ≤ count_in p all
length-le-count_in [] all d h = omega arith
length-le-count_in (y ∷ p) all d h =
    let absent : contains p y ≡ false = elim (Bool-cases (contains p y)) [
      | inl t ↦ absurd (d.0 (contains-Occurs p y t))
      | inr f ↦ f
    ] in
    omega (arith, count_in_more y p all h.0 absent, length-le-count_in p all d.1 h.1)

count_in-le : (p all : List String) → count_in p all ≤ length all
count_in-le p [] = omega arith
count_in-le p (a ∷ all) = ground (arith, count_in-le p all)

-- A list without repetition is no longer than one that has all of its elements.
pub IsDistinct-le :
    (p all : List String) → IsDistinct p → All (λ x. Occurs x all) p → length p ≤ length all
IsDistinct-le p all d h = omega (arith, length-le-count_in p all d h, count_in-le p all)

both_in :
    (p q all : List String)
    → length all < count_in p all + count_in q all
    → (x : String) × (contains p x ≡ true) × (contains q x ≡ true)
both_in p q [] h = absurd (omega (arith, h))
both_in p q (a ∷ all) h = elim (Bool-cases (contains p a && contains q a)) [
  | inl t ↦ (a, ground (arith, t), ground (arith, t))
  | inr f ↦ both_in p q all (ground (arith, f, h))
]

pub share_element :
    (p q all : List String)
    → IsDistinct p
    → IsDistinct q
    → All (λ x. Occurs x all) p
    → All (λ x. Occurs x all) q
    → length all < length p + length q
    → (x : String) × Occurs x p × Occurs x q
share_element p q all dp dq hp hq h =
    let lp = length-le-count_in p all dp hp in
    let lq = length-le-count_in q all dq hq in
    let (x, inp, inq) = both_in p q all (omega (arith, h, lp, lq)) in
    (x, contains-Occurs p x inp, contains-Occurs q x inq)
