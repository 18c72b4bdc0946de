-- ===== src/Metadata/Assignment/Placement.antt =====
-- What `AssignReplicas` promises its callers, for valid input and for the rest.
use amy_queue.Prelude.{
  ℕ, zero, suc, ◌+◌, ◌*◌, ◌-◌, ◌≤◌, ◌<◌, ◌≡◌, refl, ◌⊎◌, ◌↔◌, ◌≢◌, inl, inr, Bool, true, false,
  List, [], ◌∷◌, All, Occurs, IsDistinct, arith, ◌==◌, eq_iff, if◌then◌else◌, length, min, two31,
  two63, Map, insert, lookup-insert, get_or, nat_eq, string_eq, is_positive32,
}
use amy_queue.Metadata.Model.{BrokerId}
use amy_queue.Metadata.Assignment.{
  Counts, max_int, score, improves, pick_from, pick_best, bump, count_leader, fill_slots,
  assign_partitions, assign_replicas, effective_rf,
}
use amy_queue.Metadata.Assignment.Counting.{IsBounded}
use amy_queue.Metadata.Assignment.Slots.{IsPlaced}
use amy_queue.Metadata.Assignment.Spread.{leads, IsLevel, assign_partitions-IsPlaced, leads_lem}

-- A call that the first guard lets through, with brokers that differ and with counts so small that
-- no score can reach the largest `int`.
pub record IsValid (brokers : List BrokerId) (num rf : ℕ) (counts : Map BrokerId ℕ) (g : ℕ)
    : Type 0 where
  pub some_broker : 0 < length brokers
  pub different : IsDistinct brokers
  pub num_positive : (0 < num) × (num < two31)
  pub rf_positive : (0 < rf) × (rf < two31)
  pub counts_le : (b : BrokerId) → get_or b counts 0 ≤ g
  pub fits : (num + g) + (num + 0) * length brokers < max_int

module _ (brokers : List BrokerId) (num rf : ℕ) (counts : Map BrokerId ℕ) (g : ℕ)
    (v : IsValid brokers num rf counts g) where
  start : Counts
  start = record { global = counts; topic = [] }

  start-IsBounded : IsBounded start g 0
  unfolding start amy_queue.Prelude.lookup
  start-IsBounded = record { global_le = v.counts_le; topic_le = λ b. omega arith }

  rf_lem : (k : ℕ) × (effective_rf rf brokers ≡ suc k) × (suc k ≡ min rf (length brokers))
  unfolding effective_rf
  rf_lem = (
    min rf (length brokers) - 1,
    ground (arith, v.rf_positive, v.some_broker),
    omega (arith, v.rf_positive, v.some_broker),
  )

  assign_replicas_valid :
      (k : ℕ)
      → effective_rf rf brokers ≡ suc k
      → assign_replicas brokers num rf counts
        ≡ assign_partitions num brokers 1 (length brokers) (suc k) start
  unfolding assign_replicas start
  assign_replicas_valid k e = ground (arith, v.some_broker, v.num_positive, v.rf_positive)

  -- For valid input, with brokers that differ and counts that cannot overflow a score, every partition
  -- gets as many replicas as asked, or all brokers where there are fewer; they are different brokers
  -- of the list.
  pub assign_replicas-IsPlaced :
      (length (assign_replicas brokers num rf counts) ≡ num)
      × All (IsPlaced brokers (min rf (length brokers))) (assign_replicas brokers num rf counts)
  assign_replicas-IsPlaced =
      let (k, e, m) = rf_lem in
      rw (assign_replicas_valid k e, ← m)
        (assign_partitions-IsPlaced brokers v.different num k start g 0 (omega arith)
          start-IsBounded v.fits)

  start-IsLevel :
      ((x y : BrokerId)
        → Occurs x brokers
        → Occurs y brokers
        → get_or x counts 0 ≤ get_or y counts 0 + length brokers)
      → IsLevel brokers v.different start
  unfolding start amy_queue.Prelude.lookup
  start-IsLevel near = record {
    even = λ x y m o. omega arith;
    near = λ x y m o. omega (arith, near x y m o);
  }

  -- For valid input, and brokers whose loads differ by at most the size of the cluster, a topic's
  -- leaders are spread evenly: no broker leads two partitions more than another.
  pub assign_replicas_even :
      ((x y : BrokerId)
        → Occurs x brokers
        → Occurs y brokers
        → get_or x counts 0 ≤ get_or y counts 0 + length brokers)
      → (x y : BrokerId) → Occurs x brokers
      → Occurs y brokers
      → leads x (assign_replicas brokers num rf counts)
        ≤ leads y (assign_replicas brokers num rf counts) + 1
  unfolding start amy_queue.Prelude.lookup
  assign_replicas_even near x y m o =
      let (k, e, l) = rf_lem in
      let le : suc k ≤ length brokers = omega (arith, l) in
      rw (assign_replicas_valid k e) (
        omega (
          arith,
          leads_lem brokers v.different num k start g 0 x y le start-IsBounded v.fits
              (start-IsLevel near) m o,
        ))

-- The assignment is empty exactly when there is no broker, or the partitions or the replication
-- factor are not positive.
pub assign_replicas-nil_iff :
    (brokers : List BrokerId) (num rf : ℕ) (counts : Map BrokerId ℕ)
    → (assign_replicas brokers num rf counts ≡ [])
      ↔ ((brokers ≡ []) ⊎ ((is_positive32 num ≡ false) ⊎ (is_positive32 rf ≡ false)))
unfolding assign_replicas assign_partitions
assign_replicas-nil_iff [] num rf counts = ground arith
assign_replicas-nil_iff (b ∷ bs) zero rf counts = ground arith
assign_replicas-nil_iff (b ∷ bs) (suc num) rf counts = ground arith

-- The isolation that the comment of `AssignReplicas` promises fails on unequal loads: of two
-- brokers, one that leads over three partitions more than the other gets neither of the two leaders
-- of a new topic.
pub assign_replicas_clump :
    (a b : BrokerId) (m n : ℕ)
    → a ≢ b
    → m + 3 < n
    → n < 1000000
    → assign_replicas (a ∷ b ∷ []) 2 1 ((a, m) ∷ (b, n) ∷ []) ≡ (a ∷ []) ∷ (a ∷ []) ∷ []
unfolding assign_replicas assign_partitions fill_slots pick_best pick_from improves score bump
    count_leader effective_rf insert amy_queue.Prelude.lookup
assign_replicas_clump a b m n d h k = ground (arith, eq_iff a b, eq_iff b a, eq_iff a a, eq_iff b b)
