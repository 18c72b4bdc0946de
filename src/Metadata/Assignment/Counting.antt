-- ===== src/Metadata/Assignment/Counting.antt =====
-- What the counters of `AssignReplicas` say: bounds on them, and how many brokers are free.
use amy_queue.Prelude.{
  ℕ, zero, suc, ◌+◌, ◌*◌, ◌≤◌, ◌<◌, ◌≡◌, refl, sym, subst, inl, inr, Bool, true, false, List, [],
  ◌∷◌, All, Occurs, IsDistinct, arith, ◌==◌, eq_iff, if◌then◌else◌, length, two63, u64, Map, insert,
  get_or, lookup-insert, Bool-cases, string_eq,
}
use amy_queue.Metadata.Model.{BrokerId}
use amy_queue.Metadata.Assignment.{Counts, max_int, score, bump, count_leader}

-- No broker leads more than `g` partitions in all and `t` of this topic.
pub record IsBounded (c : Counts) (g t : ℕ) : Type 0 where
  pub global_le : (b : BrokerId) → get_or b c.global 0 ≤ g
  pub topic_le : (b : BrokerId) → get_or b c.topic 0 ≤ t

pub get_or-bump :
    (b x : BrokerId) (m : Map BrokerId ℕ)
    → get_or b m 0 < max_int
    → get_or x (bump b m) 0 ≡ (if b == x then suc (get_or x m 0) else get_or x m 0)
unfolding bump
get_or-bump b x m h = ground (arith, lookup-insert b x (u64 (get_or b m 0 + 1)) m, eq_iff b x)

bump_le :
    (b x : BrokerId) (m : Map BrokerId ℕ) (n : ℕ)
    → n < max_int
    → get_or b m 0 ≤ n
    → get_or x m 0 ≤ n
    → get_or x (bump b m) 0 ≤ suc n
bump_le b x m n h k l = ground (arith, get_or-bump b x m)

pub count_leader-IsBounded :
    (b : BrokerId) (c : Counts) (g t : ℕ)
    → g < max_int
    → t < max_int
    → IsBounded c g t
    → IsBounded (count_leader 0 b c) (suc g) (suc t)
unfolding count_leader
count_leader-IsBounded b c g t h k i = record {
  global_le = λ x. bump_le b x c.global g h (i.global_le b) (i.global_le x);
  topic_le = λ x. bump_le b x c.topic t k (i.topic_le b) (i.topic_le x);
}

pub mul_le : (a b n : ℕ) → a ≤ b → a * n ≤ b * n
mul_le a b n h = grind arith

-- A score that cannot wrap is the sum that the comment of `AssignReplicas` gives.
pub score_exact :
    (c : Counts) (n g t : ℕ) (b : BrokerId)
    → IsBounded c g t
    → g + t * n < max_int
    → (score c 1 n b ≡ get_or b c.global 0 + get_or b c.topic 0 * n) × (score c 1 n b < max_int)
unfolding score
score_exact c n g t b i h =
    omega (arith, i.global_le b, i.topic_le b, mul_le (get_or b c.topic 0) t n (i.topic_le b))

pub scores_small :
    (c : Counts) (n g t : ℕ) (bs : List BrokerId)
    → IsBounded c g t
    → g + t * n < max_int
    → All (λ b. score c 1 n b < max_int) bs
scores_small c n g t [] i h = tt
scores_small c n g t (b ∷ bs) i h = ((score_exact c n g t b i h).1, scores_small c n g t bs i h)

-- How many entries of the list are not assigned.
unfoldable pub count_free : Map BrokerId Bool → List BrokerId → ℕ
count_free assigned [] = 0
count_free assigned (b ∷ bs) =
    let rest = count_free assigned bs in if get_or b assigned false then rest else suc rest

pub count_free-nil : (bs : List BrokerId) → count_free [] bs ≡ length bs
unfolding count_free amy_queue.Prelude.lookup
count_free-nil [] = refl
count_free-nil (b ∷ bs) = omega (arith, count_free-nil bs)

pub free_of_count :
    (assigned : Map BrokerId Bool) (bs : List BrokerId)
    → 0 < count_free assigned bs
    → (b : BrokerId) × Occurs b bs × (get_or b assigned false ≡ false)
unfolding count_free
free_of_count assigned [] h = absurd (omega arith)
free_of_count assigned (b ∷ bs) h = elim (Bool-cases (get_or b assigned false)) [
  | inl e ↦ let (x, m, f) = free_of_count assigned bs (ground arith) in (x, inr m, f)
  | inr e ↦ (b, inl refl, e)
]

pub get_or-assigned :
    (x b : BrokerId) (assigned : Map BrokerId Bool)
    → get_or b (insert x true assigned) false ≡ (if x == b then true else get_or b assigned false)
get_or-assigned x b assigned = ground (arith, lookup-insert x b true assigned)

count_free-insert_absent :
    (x : BrokerId) (assigned : Map BrokerId Bool) (bs : List BrokerId)
    → ¬ Occurs x bs
    → count_free (insert x true assigned) bs ≡ count_free assigned bs
unfolding count_free
count_free-insert_absent x assigned [] h = refl
count_free-insert_absent x assigned (b ∷ bs) h = ground (
  arith,
  get_or-assigned x b assigned,
  eq_iff x b,
  (λ (e : x ≡ b). h (inl e)),
  count_free-insert_absent x assigned bs (λ m. h (inr m)),
)

-- An assignment takes one free broker away.
pub count_free-insert :
    (x : BrokerId) (assigned : Map BrokerId Bool) (bs : List BrokerId)
    → IsDistinct bs
    → count_free assigned bs ≤ count_free (insert x true assigned) bs + 1
unfolding count_free
count_free-insert x assigned [] d = omega arith
count_free-insert x assigned (b ∷ bs) d = elim (Bool-cases (x == b)) [
  | inl e ↦ ground (
    arith,
    get_or-assigned x b assigned,
    count_free-insert_absent x assigned bs
        (subst (λ y. ¬ Occurs y bs) (sym ((eq_iff x b).0 e)) d.0),
  )
  | inr e ↦ ground (arith, get_or-assigned x b assigned, count_free-insert x assigned bs d.1)
]
