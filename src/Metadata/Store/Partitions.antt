-- ===== src/Metadata/Store/Partitions.antt =====
-- What the loops over a topic's partitions write, as equations of lookups.
use amy_queue.Prelude.{
  ℕ, zero, suc, ◌+◌, ◌≤◌, ◌<◌, ◌≡◌, ◌≢◌, refl, sym, ap, ◌∙◌, ◌⊎◌, inl, inr, Bool, true, false, ◌&&◌,
  none, some, List, [], ◌∷◌, arith, ◌==◌, eq_iff, if◌then◌else◌, Bool-cases, ltb, leb, length,
  get_elem?, Map, lookup, insert, delete, lookup-insert, lookup-delete, nat_eq, string_eq, pair_eq,
}
use amy_queue.Metadata.Model.{TopicId, BrokerId, PartitionKey, PartitionState}
use amy_queue.Metadata.Store.{
  new_partition, replicas_at, create_partitions, delete_partitions, collect_partitions,
}

-- The keys that a loop over `left` partitions from number `i` visits.
abbrev pub in_range : (left i : ℕ) → TopicId → PartitionKey → Bool
in_range left i id (j, n) = id == j && (leb i n && ltb n (left + i))

pub in_range_inv :
    (left : ℕ) (id j : TopicId) (n : ℕ) → in_range left 0 id (j, n) ≡ true → (id ≡ j) × (n < left)
in_range_inv left id j n h = ground (arith, eq_iff id j)

pub in_range_of_lt :
    (left : ℕ) (id : TopicId) (n : ℕ) → n < left → in_range left 0 id (id, n) ≡ true
in_range_of_lt left id n h = ground (arith, eq_iff id id)

pub in_range_of_ne :
    (left : ℕ) (id j : TopicId) (n : ℕ) → id ≢ j → in_range left 0 id (j, n) ≡ false
in_range_of_ne left id j n h = ground (arith, eq_iff id j)

pub in_range_of_ge :
    (left : ℕ) (id j : TopicId) (n : ℕ) → left ≤ n → in_range left 0 id (j, n) ≡ false
in_range_of_ge left id j n h = ground arith

pub lookup-create_partitions :
    (left i : ℕ) (id j : TopicId) (n : ℕ) (assignments : List (List BrokerId))
    (ps : Map PartitionKey PartitionState)
    → lookup (j, n) (create_partitions left i id assignments ps) ≡ (
        if in_range left i id (j, n)
        then some (new_partition j n (replicas_at assignments n))
        else lookup (j, n) ps)
unfolding create_partitions
lookup-create_partitions zero i id j n assignments ps = ground arith
lookup-create_partitions (suc left) i id j n assignments ps = ground (
  arith,
  lookup-create_partitions left (suc i) id j n assignments
      (insert (id, i) (new_partition id i (replicas_at assignments i)) ps),
  lookup-insert (id, i) (j, n) (new_partition id i (replicas_at assignments i)) ps,
  eq_iff id j,
)

pub created_at :
    (left : ℕ) (id : TopicId) (n : ℕ) (assignments : List (List BrokerId))
    (ps : Map PartitionKey PartitionState)
    → n < left
    → lookup (id, n) (create_partitions left 0 id assignments ps)
      ≡ some (new_partition id n (replicas_at assignments n))
created_at left id n assignments ps h =
    ground
      (arith, lookup-create_partitions left 0 id id n assignments ps, in_range_of_lt left id n h)

pub created_elsewhere :
    (left : ℕ) (id j : TopicId) (n : ℕ) (assignments : List (List BrokerId))
    (ps : Map PartitionKey PartitionState)
    → in_range left 0 id (j, n) ≡ false
    → lookup (j, n) (create_partitions left 0 id assignments ps) ≡ lookup (j, n) ps
created_elsewhere left id j n assignments ps h =
    ground (arith, lookup-create_partitions left 0 id j n assignments ps)

-- Where a partition comes from after the loop of `ApplyCreateTopic`.
pub create_cases :
    (left : ℕ) (id j : TopicId) (n : ℕ) (assignments : List (List BrokerId))
    (ps : Map PartitionKey PartitionState) (p : PartitionState)
    → lookup (j, n) (create_partitions left 0 id assignments ps) ≡ some p
    → ((id ≡ j) × (n < left) × (new_partition j n (replicas_at assignments n) ≡ p))
      ⊎ (lookup (j, n) ps ≡ some p)
create_cases left id j n assignments ps p h = elim (Bool-cases (in_range left 0 id (j, n))) [
  | inl t ↦
      let (same, lt) = in_range_inv left id j n t in
      inl (same, lt, ground (arith, lookup-create_partitions left 0 id j n assignments ps))
  | inr f ↦ inr (sym (created_elsewhere left id j n assignments ps f) ∙ h)
]

pub lookup-delete_partitions :
    (left i : ℕ) (id j : TopicId) (n : ℕ) (ps : Map PartitionKey PartitionState)
    → lookup (j, n) (delete_partitions left i id ps)
      ≡ (if in_range left i id (j, n) then none else lookup (j, n) ps)
unfolding delete_partitions
lookup-delete_partitions zero i id j n ps = ground arith
lookup-delete_partitions (suc left) i id j n ps = ground (
  arith,
  lookup-delete_partitions left (suc i) id j n (delete (id, i) ps),
  lookup-delete (id, i) (j, n) ps,
)

pub delete_partitions_inv :
    (left : ℕ) (id j : TopicId) (n : ℕ) (ps : Map PartitionKey PartitionState) (p : PartitionState)
    → lookup (j, n) (delete_partitions left 0 id ps) ≡ some p
    → (in_range left 0 id (j, n) ≡ false) × (lookup (j, n) ps ≡ some p)
delete_partitions_inv left id j n ps p h = elim (Bool-cases (in_range left 0 id (j, n))) [
  | inl t ↦ absurd (ground (arith, lookup-delete_partitions left 0 id j n ps))
  | inr f ↦ (f, ground (arith, lookup-delete_partitions left 0 id j n ps))
]

pub deleted_elsewhere :
    (left : ℕ) (id j : TopicId) (n : ℕ) (ps : Map PartitionKey PartitionState)
    → in_range left 0 id (j, n) ≡ false
    → lookup (j, n) (delete_partitions left 0 id ps) ≡ lookup (j, n) ps
deleted_elsewhere left id j n ps h = ground (arith, lookup-delete_partitions left 0 id j n ps)

-- Looking up what the collecting loop gathers: it skips the numbers that have no partition.
abbrev pub Present : (left i : ℕ) → TopicId → Map PartitionKey PartitionState → Type 0
Present left i id ps =
    (n : ℕ) → i ≤ n → n < left + i → (p : PartitionState) × (lookup (id, n) ps ≡ some p)

collect_partitions-zero :
    (i : ℕ) (id : TopicId) (ps : Map PartitionKey PartitionState)
    → collect_partitions zero i id ps ≡ []
unfolding collect_partitions
collect_partitions-zero i id ps = refl

collect_partitions-suc :
    (left i : ℕ) (id : TopicId) (ps : Map PartitionKey PartitionState) (p : PartitionState)
    → lookup (id, i) ps ≡ some p
    → collect_partitions (suc left) i id ps ≡ p ∷ collect_partitions left (suc i) id ps
unfolding collect_partitions
collect_partitions-suc left i id ps p e = ground arith

pub collect_partitions-Present :
    (left i : ℕ) (id : TopicId) (ps : Map PartitionKey PartitionState)
    → Present left i id ps
    → (k : ℕ) → k < left
    → get_elem? (collect_partitions left i id ps) k ≡ lookup (id, i + k) ps
collect_partitions-Present zero i id ps h k lt = absurd (omega arith)
collect_partitions-Present (suc left) i id ps h zero lt =
    let (p, e) = h i (omega arith) (omega arith) in
    let z : i + zero ≡ i = omega arith in rw (collect_partitions-suc left i id ps p e, z) (sym e)
collect_partitions-Present (suc left) i id ps h (suc k) lt =
    let (p, e) = h i (omega arith) (omega arith) in
    let z : i + suc k ≡ suc i + k = omega arith in
    rw (collect_partitions-suc left i id ps p e, z)
      (collect_partitions-Present left (suc i) id ps (λ n a b. h n (omega arith) (omega arith)) k
        (omega arith))

pub length-collect_partitions :
    (left i : ℕ) (id : TopicId) (ps : Map PartitionKey PartitionState)
    → Present left i id ps
    → length (collect_partitions left i id ps) ≡ left
length-collect_partitions zero i id ps h = ap length (collect_partitions-zero i id ps)
length-collect_partitions (suc left) i id ps h =
    let (p, e) = h i (omega arith) (omega arith) in
    ap length (collect_partitions-suc left i id ps p e)
    ∙ ap suc
        (length-collect_partitions left (suc i) id ps (λ n a b. h n (omega arith) (omega arith)))
