-- ===== src/Metadata/Assignment/Slots.antt =====
-- The loop over the slots of one partition.
use amy_queue.Prelude.{
  ℕ, zero, suc, ◌+◌, ◌*◌, ◌-◌, ◌≤◌, ◌<◌, ◌≡◌, refl, sym, ap, subst, ◌∙◌, ◌⊎◌, inl, inr, Bool, true,
  false, List, [], ◌∷◌, ◌++◌, All, All-append, All-imp, Occurs, Occurs-snoc_inv, IsDistinct,
  IsDistinct-snoc, arith, ◌==◌, eq_iff, if◌then◌else◌, length, length-append, Map, insert, get_or,
  string_eq,
}
use mathlib.Core.List.{append-nil, append_assoc}
use amy_queue.Metadata.Model.{BrokerId}
use amy_queue.Metadata.Assignment.{Counts, max_int, score, pick_best, count_leader, fill_slots}
use amy_queue.Metadata.Assignment.Best.{IsFree, pick_best_lem}
use amy_queue.Metadata.Assignment.Counting.{
  IsBounded, count_leader-IsBounded, scores_small, count_free, count_free-nil, free_of_count,
  get_or-assigned, count_free-insert,
}

-- A replica list: different brokers of the list, `n` of them.
pub record IsPlaced (brokers : List BrokerId) (n : ℕ) (replicas : List BrokerId) : Type 0 where
  pub distinct : IsDistinct replicas
  pub known : All (λ b. Occurs b brokers) replicas
  pub size : length replicas ≡ n

-- The loop's invariant: `assigned` marks at least the replicas, and enough brokers are free.
pub record IsFilling (brokers : List BrokerId) (assigned : Map BrokerId Bool)
    (replicas : List BrokerId) : Type 0 where
  pub distinct : IsDistinct replicas
  pub known : All (λ b. Occurs b brokers) replicas
  pub marked : (b : BrokerId) → IsFree assigned b → ¬ Occurs b replicas
  pub room : length brokers ≤ count_free assigned brokers + length replicas

pub fits_before :
    (g t n : ℕ)
    → 0 < n
    → suc g + suc t * n < max_int
    → (g + t * n < max_int) × (g < max_int) × (t < max_int)
fits_before g t n h k = grind arith

no_mark : (b : BrokerId) → IsFree [] b
unfolding amy_queue.Prelude.lookup
no_mark b = refl

module _ (brokers : List BrokerId) (different : IsDistinct brokers) where
  start-IsFilling : IsFilling brokers [] []
  start-IsFilling = record {
    distinct = tt;
    known = tt;
    marked = λ b f m. elim m [ ];
    room = omega (arith, count_free-nil brokers);
  }

  -- The broker that the next slot gets is free, and no free one scores lower.
  pub next_best :
      (assigned : Map BrokerId Bool) (replicas : List BrokerId) (c : Counts) (g t : ℕ)
      → IsFilling brokers assigned replicas
      → length replicas < length brokers
      → IsBounded c g t
      → g + t * length brokers < max_int
      → let best = pick_best brokers assigned c 1 (length brokers) in
        Occurs best brokers
        × IsFree assigned best
        × All
            (λ b.
              IsFree assigned b → score c 1 (length brokers) best ≤ score c 1 (length brokers) b)
            brokers
  next_best assigned replicas c g t f lt i h =
      let (b, m, free) = free_of_count assigned brokers (omega (arith, f.room)) in
      pick_best_lem assigned c 1 (length brokers) brokers b
        (scores_small c (length brokers) g t brokers i h) m free

  mark-IsFilling :
      (assigned : Map BrokerId Bool) (replicas : List BrokerId) (best : BrokerId)
      → IsFilling brokers assigned replicas
      → Occurs best brokers
      → IsFree assigned best
      → IsFilling brokers (insert best true assigned) (replicas ++ best ∷ [])
  mark-IsFilling assigned replicas best f m free = record {
    distinct = IsDistinct-snoc best replicas f.distinct (f.marked best free);
    known = All-append _ replicas (best ∷ []) f.known (m, tt);
    marked = λ b g o. elim (Occurs-snoc_inv b best replicas o) [
      | inl e ↦ ground (arith, get_or-assigned best b assigned, (eq_iff best b).1 (sym e), g)
      | inr p ↦ f.marked b (ground (arith, get_or-assigned best b assigned, g)) p
    ];
    room = omega (
      arith,
      f.room,
      count_free-insert best assigned brokers different,
      length-append replicas (best ∷ []),
    );
  }

  fill_slots-zero :
      (slot : ℕ) (assigned : Map BrokerId Bool) (replicas : List BrokerId) (c : Counts)
      → (replicas, c) ≡ fill_slots zero slot brokers 1 (length brokers) assigned replicas c
  unfolding fill_slots
  fill_slots-zero slot assigned replicas c = refl

  fill_slots-first :
      (left : ℕ) (assigned : Map BrokerId Bool) (replicas : List BrokerId) (c : Counts)
      → let best = pick_best brokers assigned c 1 (length brokers) in
        fill_slots left 1 brokers 1
          (length brokers)
          (insert best true assigned)
          (replicas ++ best ∷ [])
          (count_leader 0 best c)
        ≡ fill_slots (suc left) 0 brokers 1 (length brokers) assigned replicas c
  unfolding fill_slots
  fill_slots-first left assigned replicas c = refl

  fill_slots-later :
      (left slot : ℕ) (assigned : Map BrokerId Bool) (replicas : List BrokerId) (c : Counts)
      → let best = pick_best brokers assigned c 1 (length brokers) in
        fill_slots left
          (suc (suc slot))
          brokers
          1
          (length brokers)
          (insert best true assigned)
          (replicas ++ best ∷ [])
          c
        ≡ fill_slots (suc left) (suc slot) brokers 1 (length brokers) assigned replicas c
  unfolding fill_slots count_leader
  fill_slots-later left slot assigned replicas c = refl

  abbrev IsFilled : ℕ → List BrokerId → Counts → List BrokerId × Counts → Type 0
  IsFilled n replicas c r =
      IsPlaced brokers n r.0 × (r.1 ≡ c) × ((more : List BrokerId) × (r.0 ≡ replicas ++ more))

  IsFilled-grow :
      (n : ℕ) (replicas : List BrokerId) (best : BrokerId) (c : Counts) (r : List BrokerId × Counts)
      → IsFilled (n + length (replicas ++ best ∷ [])) (replicas ++ best ∷ []) c r
      → IsFilled (suc n + length replicas) replicas c r
  IsFilled-grow n replicas best c r (placed, same, (more, e)) = (
    record {
      distinct = placed.distinct;
      known = placed.known;
      size = omega (arith, placed.size, length-append replicas (best ∷ []));
    },
    same,
    (best ∷ more, e ∙ append_assoc replicas (best ∷ []) more),
  )

  -- Past the first slot the counts stay as they are.
  fill_rest :
      (left slot : ℕ) (assigned : Map BrokerId Bool) (replicas : List BrokerId) (c : Counts)
      (g t : ℕ)
      → IsFilling brokers assigned replicas
      → left + length replicas ≤ length brokers
      → IsBounded c g t
      → g + t * length brokers < max_int
      → IsFilled
          (left + length replicas)
          replicas
          c
          (fill_slots left (suc slot) brokers 1 (length brokers) assigned replicas c)
  fill_rest zero slot assigned replicas c g t f le i h =
      subst (IsFilled (zero + length replicas) replicas c)
        (fill_slots-zero (suc slot) assigned replicas c)
        (
          record { distinct = f.distinct; known = f.known; size = omega arith },
          refl,
          ([], sym (append-nil replicas)),
        )
  fill_rest (suc left) slot assigned replicas c g t f le i h =
      let (m, free, _) = next_best assigned replicas c g t f (omega arith) i h in
      let best = pick_best brokers assigned c 1 (length brokers) in
      subst (IsFilled (suc left + length replicas) replicas c)
        (fill_slots-later left slot assigned replicas c)
        (IsFilled-grow left replicas best c _ (
          fill_rest left (suc slot) (insert best true assigned) (replicas ++ best ∷ []) c g t
            (mark-IsFilling assigned replicas best f m free)
            (omega (arith, length-append replicas (best ∷ []))) i h))

  -- One partition: different brokers of the list, as many as asked; the first of them is the
  -- broker of lowest score, and it alone is counted.
  abbrev pub IsPartition : ℕ → Counts → List BrokerId × Counts → Type 0
  IsPartition n c r =
      IsPlaced brokers n r.0
      × ((best : BrokerId) × (more : List BrokerId) × (r.0 ≡ best ∷ more)
          × (r.1 ≡ count_leader 0 best c)
          × Occurs best brokers
          × All (λ b. score c 1 (length brokers) best ≤ score c 1 (length brokers) b) brokers)

  first_slot :
      (n : ℕ) (c : Counts) (best : BrokerId) (r : List BrokerId × Counts)
      → Occurs best brokers
      → All (λ b. score c 1 (length brokers) best ≤ score c 1 (length brokers) b) brokers
      → IsFilled (n + 1) (best ∷ []) (count_leader 0 best c) r
      → IsPartition (suc n) c r
  first_slot n c best r m low (placed, same, (more, e)) = (
    record { distinct = placed.distinct; known = placed.known; size = omega (arith, placed.size) },
    (best, more, e, same, m, low),
  )

  pub fill_slots-IsPartition :
      (left : ℕ) (c : Counts) (g t : ℕ)
      → suc left ≤ length brokers
      → IsBounded c g t
      → suc g + suc t * length brokers < max_int
      → IsPartition (suc left) c (fill_slots (suc left) 0 brokers 1 (length brokers) [] [] c)
  fill_slots-IsPartition left c g t le i h =
      let (h', hg, ht) = fits_before g t (length brokers) (omega arith) h in
      let (m, free, low) = next_best [] [] c g t start-IsFilling (omega arith) i h' in
      let best = pick_best brokers [] c 1 (length brokers) in
      subst (IsPartition (suc left) c) (fill_slots-first left [] [] c) (
        first_slot left c best _ m (All-imp _ _ (λ b k. k (no_mark b)) brokers low) (
          fill_rest left 0 (insert best true []) (best ∷ []) (count_leader 0 best c) (suc g) (suc t)
            (mark-IsFilling [] [] best start-IsFilling m free) (omega arith)
            (count_leader-IsBounded best c g t hg ht i) h))
