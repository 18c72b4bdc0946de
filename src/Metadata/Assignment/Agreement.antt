-- ===== src/Metadata/Assignment/Agreement.antt =====
-- `AssignReplicas` reads the leader counts only by broker (src/internal/metadata/assignment.go).
use amy_queue.Prelude.{
  ℕ, zero, suc, ◌+◌, ◌≡◌, refl, ap, Bool, true, List, [], ◌∷◌, ◌++◌, arith, length, u64, Map,
  insert, get_or, lookup-insert, nat_eq, string_eq,
}
use amy_queue.Metadata.Model.{BrokerId}
use amy_queue.Metadata.Assignment.{
  Counts, max_int, score, improves, pick_from, pick_best, bump, count_leader, fill_slots,
  assign_partitions, assign_replicas, effective_rf,
}

-- The same number for each broker.
abbrev pub SameNumbers : Map BrokerId ℕ → Map BrokerId ℕ → Type 0
SameNumbers m m' = (b : BrokerId) → get_or b m 0 ≡ get_or b m' 0

abbrev SameCounts : Counts → Counts → Type 0
SameCounts c c' = SameNumbers c.global c'.global × SameNumbers c.topic c'.topic

same_score :
    (c c' : Counts) (alpha beta : ℕ) (b : BrokerId)
    → SameCounts c c'
    → score c alpha beta b ≡ score c' alpha beta b
unfolding score
same_score c c' alpha beta b (g, t) = cc (g b, t b)

same_improves :
    (c c' : Counts) (assigned : Map BrokerId Bool) (alpha beta : ℕ) (b : BrokerId) (best : ℕ)
    → SameCounts c c'
    → improves assigned c alpha beta b best ≡ improves assigned c' alpha beta b best
unfolding improves
same_improves c c' assigned alpha beta b best h = rw (same_score c c' alpha beta b h) refl

same_pick_from :
    (c c' : Counts) (assigned : Map BrokerId Bool) (alpha beta : ℕ) (bs : List BrokerId)
    (best : BrokerId) (best_score : ℕ)
    → SameCounts c c'
    → pick_from bs assigned c alpha beta best best_score
      ≡ pick_from bs assigned c' alpha beta best best_score
unfolding pick_from
same_pick_from c c' assigned alpha beta [] best best_score h = refl
same_pick_from c c' assigned alpha beta (b ∷ bs) best best_score h =
    rw (same_improves c c' assigned alpha beta b best_score h, same_score c c' alpha beta b h)
      (same_pick_from c c' assigned alpha beta bs _ _ h)

same_pick_best :
    (c c' : Counts) (assigned : Map BrokerId Bool) (alpha beta : ℕ) (bs : List BrokerId)
    → SameCounts c c'
    → pick_best bs assigned c alpha beta ≡ pick_best bs assigned c' alpha beta
unfolding pick_best
same_pick_best c c' assigned alpha beta bs h =
    ap (λ (r : BrokerId × ℕ). r.0) (same_pick_from c c' assigned alpha beta bs "" max_int h)

bump-SameNumbers :
    (b : BrokerId) (m m' : Map BrokerId ℕ) → SameNumbers m m' → SameNumbers (bump b m) (bump b m')
unfolding bump
bump-SameNumbers b m m' h x = ground (
  arith,
  h x,
  h b,
  lookup-insert b x (u64 (get_or b m 0 + 1)) m,
  lookup-insert b x (u64 (get_or b m' 0 + 1)) m',
)

count_leader-SameCounts :
    (slot : ℕ) (b : BrokerId) (c c' : Counts)
    → SameCounts c c'
    → SameCounts (count_leader slot b c) (count_leader slot b c')
unfolding count_leader
count_leader-SameCounts zero b c c' (g, t) =
    (bump-SameNumbers b c.global c'.global g, bump-SameNumbers b c.topic c'.topic t)
count_leader-SameCounts (suc slot) b c c' h = h

same_slots :
    (left slot : ℕ) (bs : List BrokerId) (alpha beta : ℕ) (assigned : Map BrokerId Bool)
    (replicas : List BrokerId) (c c' : Counts)
    → SameCounts c c'
    → let r = fill_slots left slot bs alpha beta assigned replicas c in
      let r' = fill_slots left slot bs alpha beta assigned replicas c' in
      (r.0 ≡ r'.0) × SameCounts r.1 r'.1
unfolding fill_slots
same_slots zero slot bs alpha beta assigned replicas c c' h = (refl, h)
same_slots (suc left) slot bs alpha beta assigned replicas c c' h =
    let best = pick_best bs assigned c' alpha beta in
    rw (fill_slots, same_pick_best c c' assigned alpha beta bs h)
      (same_slots left (suc slot) bs alpha beta (insert best true assigned) (replicas ++ best ∷ [])
        (count_leader slot best c) (count_leader slot best c')
        (count_leader-SameCounts slot best c c' h))

same_partitions :
    (left : ℕ) (bs : List BrokerId) (alpha beta rf : ℕ) (c c' : Counts)
    → SameCounts c c'
    → assign_partitions left bs alpha beta rf c ≡ assign_partitions left bs alpha beta rf c'
unfolding assign_partitions
same_partitions zero bs alpha beta rf c c' h = refl
same_partitions (suc left) bs alpha beta rf c c' h =
    let (e, k) = same_slots rf 0 bs alpha beta [] [] c c' h in
    cc (e, same_partitions left bs alpha beta rf _ _ k)

-- Two maps with the same number for each broker give the same assignment.
pub assign_replicas-SameNumbers :
    (brokers : List BrokerId) (num rf : ℕ) (counts counts' : Map BrokerId ℕ)
    → SameNumbers counts counts'
    → assign_replicas brokers num rf counts ≡ assign_replicas brokers num rf counts'
unfolding assign_replicas
assign_replicas-SameNumbers brokers num rf counts counts' h =
    rw
      (same_partitions num brokers 1 (length brokers) (effective_rf rf brokers)
        (record { global = counts; topic = [] }) (record { global = counts'; topic = [] })
        (h, λ b. refl))
      refl
