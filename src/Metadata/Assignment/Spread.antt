-- ===== src/Metadata/Assignment/Spread.antt =====
-- `AssignReplicas` as a whole: the loop over the partitions, its placements and the spread of its
-- leaders.
use amy_queue.Prelude.{
  ℕ, zero, suc, ◌+◌, ◌*◌, ◌≤◌, ◌<◌, ◌≡◌, refl, sym, ap, subst, List, [], ◌∷◌, All, All-Occurs,
  Occurs, IsDistinct, arith, ◌==◌, eq_iff, if◌then◌else◌, length, get_or, string_eq,
}
use native.Mathlib.Decide.{dec_le}
use amy_queue.Metadata.Model.{BrokerId}
use amy_queue.Metadata.Assignment.{
  Counts, max_int, score, count_leader, fill_slots, assign_partitions,
}
use amy_queue.Metadata.Assignment.Counting.{
  IsBounded, count_leader-IsBounded, mul_le, score_exact, get_or-bump,
}
use amy_queue.Metadata.Assignment.Slots.{IsPlaced, fill_slots-IsPartition, fits_before}

-- How many of the partitions the broker leads.
abbrev pub leads : BrokerId → List (List BrokerId) → ℕ
leads b [] = 0
leads b ([] ∷ ps) = leads b ps
leads b ((x ∷ more) ∷ ps) = let rest = leads b ps in if x == b then suc rest else rest

level_arith : (a s b t n : ℕ) → a + s * n ≤ b + t * n → b + s ≤ a + t + n → s ≤ t
level_arith a s b t n h k = elim (dec_le s t) [
  | yes p ↦ p
  | no p ↦ let e : suc t * n ≤ s * n = mul_le (suc t) s n (omega arith) in absurd (omega arith)
]

module _ (brokers : List BrokerId) (different : IsDistinct brokers) where
  assign_partitions-suc :
      (left k : ℕ) (c : Counts)
      → let r = fill_slots (suc k) 0 brokers 1 (length brokers) [] [] c in
        assign_partitions (suc left) brokers 1 (length brokers) (suc k) c
        ≡ r.0 ∷ assign_partitions left brokers 1 (length brokers) (suc k) r.1
  unfolding assign_partitions
  assign_partitions-suc left k c = refl

  -- Enough room in an `int` for all the scores of `left` more partitions.
  abbrev pub IsRoomy : (left g t : ℕ) → Type 0
  IsRoomy left g t = (left + g) + (left + t) * length brokers < max_int

  roomy_first : (left g t : ℕ) → IsRoomy (suc left) g t → suc g + suc t * length brokers < max_int
  roomy_first left g t h = grind arith

  IsRoomy-next : (left g t : ℕ) → IsRoomy (suc left) g t → IsRoomy left (suc g) (suc t)
  IsRoomy-next left g t h =
      let e : left + suc g ≡ suc left + g = omega arith in
      let d : left + suc t ≡ suc left + t = omega arith in rw (e, d) h

  pub assign_partitions-IsPlaced :
      (left k : ℕ) (c : Counts) (g t : ℕ)
      → suc k ≤ length brokers
      → IsBounded c g t
      → IsRoomy left g t
      → let ps = assign_partitions left brokers 1 (length brokers) (suc k) c in
        (length ps ≡ left) × All (IsPlaced brokers (suc k)) ps
  unfolding assign_partitions
  assign_partitions-IsPlaced zero k c g t le i h = (refl, tt)
  assign_partitions-IsPlaced (suc left) k c g t le i h =
      let (placed, (best, more, e, same, m, low)) =
        fill_slots-IsPartition brokers different k c g t le i (roomy_first left g t h) in
      let (_, hg, ht) = fits_before g t (length brokers) (omega arith) (roomy_first left g t h) in
      let (n, all) =
        assign_partitions-IsPlaced left k
          (fill_slots (suc k) 0 brokers 1 (length brokers) [] [] c).1 (suc g) (suc t) le
          (subst (λ d. IsBounded d (suc g) (suc t)) (sym same)
            (count_leader-IsBounded best c g t hg ht i))
          (IsRoomy-next left g t h) in
      (ap suc n, (placed, all))

  -- What each step keeps: leads of this topic differ by one at most, and so do loads by the size of
  -- the cluster, this topic left out.
  pub record IsLevel (c : Counts) : Type 0 where
    pub even :
        (x y : BrokerId)
        → Occurs x brokers
        → Occurs y brokers
        → get_or x c.topic 0 ≤ get_or y c.topic 0 + 1
    pub near :
        (x y : BrokerId)
        → Occurs x brokers
        → Occurs y brokers
        → get_or x c.global 0 + get_or y c.topic 0
          ≤ get_or y c.global 0 + get_or x c.topic 0 + length brokers

  -- The broker of lowest score leads as few partitions of the topic as any.
  lowest-topic :
      (c : Counts) (g t : ℕ) (best y : BrokerId)
      → IsBounded c g t
      → g + t * length brokers < max_int
      → IsLevel c
      → Occurs best brokers
      → Occurs y brokers
      → score c 1 (length brokers) best ≤ score c 1 (length brokers) y
      → get_or best c.topic 0 ≤ get_or y c.topic 0
  lowest-topic c g t best y i h v m o low =
      level_arith (get_or best c.global 0) (get_or best c.topic 0) (get_or y c.global 0)
        (get_or y c.topic 0) (length brokers)
        (omega (
          arith,
          score_exact c (length brokers) g t best i h,
          score_exact c (length brokers) g t y i h,
        ))
        (v.near y best o m)

  count_leader-IsLevel :
      (c : Counts) (g t : ℕ) (best : BrokerId)
      → g < max_int
      → t < max_int
      → IsBounded c g t
      → IsLevel c
      → ((y : BrokerId) → Occurs y brokers → get_or best c.topic 0 ≤ get_or y c.topic 0)
      → IsLevel (count_leader 0 best c)
  unfolding count_leader
  count_leader-IsLevel c g t best hg ht i v low = record {
    even = λ x y m o. ground (
      arith,
      get_or-bump best x c.topic (omega (arith, i.topic_le best)),
      get_or-bump best y c.topic (omega (arith, i.topic_le best)),
      eq_iff best x,
      v.even x y m o,
      low y o,
    );
    near = λ x y m o. ground (
      arith,
      get_or-bump best x c.topic (omega (arith, i.topic_le best)),
      get_or-bump best y c.topic (omega (arith, i.topic_le best)),
      get_or-bump best x c.global (omega (arith, i.global_le best)),
      get_or-bump best y c.global (omega (arith, i.global_le best)),
      v.near x y m o,
    );
  }

  topic-count_leader :
      (c : Counts) (t : ℕ) (best x : BrokerId)
      → t < max_int
      → get_or best c.topic 0 ≤ t
      → get_or x (count_leader 0 best c).topic 0
        ≡ (if best == x then suc (get_or x c.topic 0) else get_or x c.topic 0)
  unfolding count_leader
  topic-count_leader c t best x h k = get_or-bump best x c.topic (omega arith)

  leads-cons :
      (x best : BrokerId) (more r : List BrokerId) (ps : List (List BrokerId))
      → r ≡ best ∷ more
      → leads x (r ∷ ps) ≡ (if best == x then suc (leads x ps) else leads x ps)
  leads-cons x best more r ps e = rw e

  -- The leaders counted so far and those still to come.
  abbrev pub total : BrokerId → Counts → List (List BrokerId) → ℕ
  total x c ps = get_or x c.topic 0 + leads x ps

  total-step :
      (c : Counts) (t : ℕ) (best x : BrokerId) (more : List BrokerId) (r : List BrokerId × Counts)
      (ps : List (List BrokerId))
      → t < max_int
      → get_or best c.topic 0 ≤ t
      → r.0 ≡ best ∷ more
      → r.1 ≡ count_leader 0 best c
      → total x c (r.0 ∷ ps) ≡ total x r.1 ps
  total-step c t best x more r ps h k e same =
      rw same (ground (arith, leads-cons x best more r.0 ps e, topic-count_leader c t best x h k))

  pub leads_lem :
      (left k : ℕ) (c : Counts) (g t : ℕ) (x y : BrokerId)
      → suc k ≤ length brokers
      → IsBounded c g t
      → IsRoomy left g t
      → IsLevel c
      → Occurs x brokers
      → Occurs y brokers
      → let ps = assign_partitions left brokers 1 (length brokers) (suc k) c in
        total x c ps ≤ total y c ps + 1
  unfolding assign_partitions
  leads_lem zero k c g t x y le i h v m o = omega (arith, v.even x y m o)
  leads_lem (suc left) k c g t x y le i h v m o =
      let r = fill_slots (suc k) 0 brokers 1 (length brokers) [] [] c in
      let (placed, (best, more, e, same, m', low)) =
        fill_slots-IsPartition brokers different k c g t le i (roomy_first left g t h) in
      let (h', hg, ht) = fits_before g t (length brokers) (omega arith) (roomy_first left g t h) in
      let ps = assign_partitions left brokers 1 (length brokers) (suc k) r.1 in
      let bounded : IsBounded r.1 (suc g) (suc t) =
        subst (λ d. IsBounded d (suc g) (suc t)) (sym same)
          (count_leader-IsBounded best c g t hg ht i) in
      let level : IsLevel r.1 = subst IsLevel (sym same) (
        count_leader-IsLevel c g t best hg ht i v
          (λ z p. lowest-topic c g t best z i h' v m' p (All-Occurs _ brokers z low p))) in
      omega (
        arith,
        total-step c t best x more r ps ht (i.topic_le best) e same,
        total-step c t best y more r ps ht (i.topic_le best) e same,
        leads_lem left k r.1 (suc g) (suc t) x y le bounded (IsRoomy-next left g t h) level m o,
      )
