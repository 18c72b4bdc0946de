-- ===== src/Prelude/Lists.antt =====
-- Lists measured and indexed by native numbers, under the library's names.
use Prim.Native.Nat.{ℕ, zero, suc, ◌+◌, ◌-◌, ◌≤◌, ◌<◌, min}
use mathlib.Core.Path.{◌≡◌, refl, sym, subst}
use mathlib.Core.Logic.{◌⊎◌, inl, inr}
use mathlib.Core.List.{List, [], ◌∷◌, ◌++◌}
use mathlib.Core.Option.{Option, none, some}
use native.Mathlib.Omega.{arith}

module _ {ℓ} {A : Type ℓ} where
  abbrev pub length : List A → ℕ
  length [] = 0
  length (x ∷ xs) = suc (length xs)

  abbrev pub get_elem? : List A → ℕ → Option A
  get_elem? [] i = none
  get_elem? (x ∷ xs) zero = some x
  get_elem? (x ∷ xs) (suc i) = get_elem? xs i

  abbrev pub take : ℕ → List A → List A
  take zero xs = []
  take (suc n) [] = []
  take (suc n) (x ∷ xs) = x ∷ take n xs

  abbrev pub drop : ℕ → List A → List A
  drop zero xs = xs
  drop (suc n) [] = []
  drop (suc n) (x ∷ xs) = drop n xs

  abbrev pub All {κ} : (A → Type κ) → List A → Type κ
  All P [] = Unit
  All P (x ∷ xs) = P x × All P xs

  pub length-append : (xs ys : List A) → length (xs ++ ys) ≡ length xs + length ys
  length-append [] ys = omega arith
  length-append (x ∷ xs) ys = omega (arith, length-append xs ys)

  pub length-take : (n : ℕ) (xs : List A) → length (take n xs) ≡ min n (length xs)
  length-take zero xs = omega arith
  length-take (suc n) [] = omega arith
  length-take (suc n) (x ∷ xs) = omega (arith, length-take n xs)

  pub length-drop : (n : ℕ) (xs : List A) → length (drop n xs) ≡ length xs - n
  length-drop zero xs = omega arith
  length-drop (suc n) [] = omega arith
  length-drop (suc n) (x ∷ xs) = omega (arith, length-drop n xs)

  pub append_nil : (xs : List A) → xs ++ [] ≡ xs
  append_nil [] = refl
  append_nil (x ∷ xs) = rw (append_nil xs) refl

  pub take-append-drop : (n : ℕ) (xs : List A) → take n xs ++ drop n xs ≡ xs
  take-append-drop zero xs = refl
  take-append-drop (suc n) [] = refl
  take-append-drop (suc n) (x ∷ xs) = rw (take-append-drop n xs)

  pub get_elem?_of_lt : (xs : List A) (i : ℕ) → i < length xs → (x : A) × (get_elem? xs i ≡ some x)
  get_elem?_of_lt [] i h = elim h [ ]
  get_elem?_of_lt (x ∷ xs) zero h = (x, refl)
  get_elem?_of_lt (x ∷ xs) (suc i) h = get_elem?_of_lt xs i (omega arith)

  pub get_elem?_of_ge : (xs : List A) (i : ℕ) → length xs ≤ i → get_elem? xs i ≡ none
  get_elem?_of_ge [] i h = refl
  get_elem?_of_ge (x ∷ xs) zero h = absurd (omega arith)
  get_elem?_of_ge (x ∷ xs) (suc i) h = get_elem?_of_ge xs i (omega arith)

  -- What stands before the cut is kept, what is appended follows it.
  pub get_elem?-take_append :
      (n : ℕ) (xs ys : List A) (i : ℕ)
      → i < n
      → n ≤ length xs
      → get_elem? (take n xs ++ ys) i ≡ get_elem? xs i
  get_elem?-take_append zero xs ys i h k = absurd (omega arith)
  get_elem?-take_append (suc n) [] ys i h k = absurd (omega arith)
  get_elem?-take_append (suc n) (x ∷ xs) ys zero h k = refl
  get_elem?-take_append (suc n) (x ∷ xs) ys (suc i) h k =
      get_elem?-take_append n xs ys i (omega arith) (omega arith)

  pub get_elem?-append_right :
      (xs ys : List A) (i : ℕ) → get_elem? (xs ++ ys) (length xs + i) ≡ get_elem? ys i
  get_elem?-append_right [] ys i = rw (add_zero i)
    where
      add_zero : (j : ℕ) → 0 + j ≡ j
      add_zero j = omega arith
  get_elem?-append_right (x ∷ xs) ys i =
      let e : suc (length xs) + i ≡ suc (length xs + i) = omega arith in
      rw e (get_elem?-append_right xs ys i)

  pub All-append {κ} :
      (Q : A → Type κ) (front back : List A) → All Q front → All Q back → All Q (front ++ back)
  All-append Q [] back f b = b
  All-append Q (x ∷ front) back (q, f) b = (q, All-append Q front back f b)

  pub All-imp {κ κ'} :
      (P : A → Type κ) (Q : A → Type κ') (f : (x : A) → P x → Q x) (xs : List A)
      → All P xs
      → All Q xs
  All-imp P Q f [] h = tt
  All-imp P Q f (x ∷ xs) h = (f x h.0, All-imp P Q f xs h.1)

  pub All-get_elem? {κ} :
      (P : A → Type κ) (xs : List A) (i : ℕ) {x : A} → All P xs → get_elem? xs i ≡ some x → P x
  All-get_elem? P [] i h e = cc
  All-get_elem? P (y ∷ xs) zero h e = rw (← some_eq e) h.0
    where
      some_eq : {a b : A} → some a ≡ some b → a ≡ b
      some_eq q = cc
  All-get_elem? P (y ∷ xs) (suc i) h e = All-get_elem? P xs i h.1 e

-- An element stands in a list.
abbrev pub Occurs : {A : Type 0} → A → List A → Type 0
Occurs x [] = ⊥
Occurs x (y ∷ ys) = (x ≡ y) ⊎ Occurs x ys

pub All-Occurs {κ} :
    {A : Type 0} (P : A → Type κ) (xs : List A) (x : A) → All P xs → Occurs x xs → P x
All-Occurs P [] x h m = elim m [ ]
All-Occurs P (y ∷ ys) x h (inl e) = subst P (sym e) h.0
All-Occurs P (y ∷ ys) x h (inr m) = All-Occurs P ys x h.1 m

pub Occurs-append_left : {A : Type 0} (x : A) (xs ys : List A) → Occurs x xs → Occurs x (xs ++ ys)
Occurs-append_left x [] ys m = elim m [ ]
Occurs-append_left x (y ∷ xs) ys (inl e) = inl e
Occurs-append_left x (y ∷ xs) ys (inr m) = inr (Occurs-append_left x xs ys m)

pub Occurs-snoc_inv :
    {A : Type 0} (x y : A) (xs : List A) → Occurs x (xs ++ y ∷ []) → (x ≡ y) ⊎ Occurs x xs
Occurs-snoc_inv x y [] m = m
Occurs-snoc_inv x y (z ∷ xs) (inl e) = inr (inl e)
Occurs-snoc_inv x y (z ∷ xs) (inr m) = elim (Occurs-snoc_inv x y xs m) [
  | inl e ↦ inl e
  | inr n ↦ inr (inr n)
]

-- No element stands twice.
abbrev pub IsDistinct : {A : Type 0} → List A → Type 0
IsDistinct [] = Unit
IsDistinct (x ∷ xs) = ¬ Occurs x xs × IsDistinct xs

pub IsDistinct-snoc :
    {A : Type 0} (y : A) (xs : List A) → IsDistinct xs → ¬ Occurs y xs → IsDistinct (xs ++ y ∷ [])
IsDistinct-snoc y [] d h = (λ m. elim m [ ], tt)
IsDistinct-snoc y (x ∷ xs) d h = (
  λ m. elim (Occurs-snoc_inv x y xs m) [ inl e ↦ h (inl (sym e)) | inr n ↦ d.0 n ],
  IsDistinct-snoc y xs d.1 (λ m. h (inr m)),
)
