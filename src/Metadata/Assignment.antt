-- ===== src/Metadata/Assignment.antt =====
-- src/internal/metadata/assignment.go: the greedy placement of a topic's partitions on brokers.
-- A Go `int` is a 64-bit pattern, so scores wrap as they do there.
pub mod Best
pub mod Counting
pub mod Slots
pub mod Spread
pub mod Placement
pub mod Agreement
use amy_queue.Prelude.{
  ℕ, zero, suc, ◌+◌, ◌*◌, ◌-◌, Bool, true, false, ◌&&◌, ◌||◌, not, List, [], ◌∷◌, ◌++◌, ltb, ◌==◌,
  if◌then◌else◌, length, u64, two63, slt64, is_positive32, Map, insert, get_or, nat_eq, string_eq,
}
use amy_queue.Metadata.Model.{BrokerId}

-- The maximum of `int`, where the search for a lowest score starts.
abbrev pub max_int : ℕ
max_int = two63 - 1

-- What the scores read: leaders of each broker over all topics, and over this topic.
pub record Counts : Type 0 where
  pub global : Map BrokerId ℕ
  pub topic : Map BrokerId ℕ

unfoldable pub score : Counts → (alpha beta : ℕ) → BrokerId → ℕ
score c alpha beta b = u64 (get_or b c.global 0 * alpha + get_or b c.topic 0 * beta)

-- The two guards of the loop of `pickBest`: the broker is not assigned, and its score is lower.
unfoldable pub improves : Map BrokerId Bool → Counts → (alpha beta : ℕ) → BrokerId → ℕ → Bool
improves assigned c alpha beta b best_score =
    not (get_or b assigned false) && slt64 (score c alpha beta b) best_score

-- The loop of `pickBest`, with its two variables `best` and `bestScore`.
unfoldable pub pick_from :
    List BrokerId → Map BrokerId Bool → Counts → (alpha beta : ℕ) → BrokerId → ℕ → BrokerId × ℕ
pick_from [] assigned c alpha beta best best_score = (best, best_score)
pick_from (b ∷ bs) assigned c alpha beta best best_score =
    let better = improves assigned c alpha beta b best_score in
    pick_from bs assigned c alpha beta (if better then b else best)
      (if better then score c alpha beta b else best_score)

unfoldable pub pick_best : List BrokerId → Map BrokerId Bool → Counts → (alpha beta : ℕ) → BrokerId
pick_best brokers assigned c alpha beta = (pick_from brokers assigned c alpha beta "" max_int).0

-- `m[b]++`.
unfoldable pub bump : BrokerId → Map BrokerId ℕ → Map BrokerId ℕ
bump b m = insert b (u64 (get_or b m 0 + 1)) m

-- Only the first slot, the leader, is counted.
unfoldable pub count_leader : ℕ → BrokerId → Counts → Counts
count_leader zero b c = record { global = bump b c.global; topic = bump b c.topic }
count_leader (suc slot) b c = c

-- The loop over the slots of one partition: `left` more rounds, from `slot`.
unfoldable pub fill_slots :
    (left slot : ℕ)
    → List BrokerId
    → (alpha beta : ℕ) → Map BrokerId Bool
    → List BrokerId
    → Counts
    → List BrokerId × Counts
fill_slots zero slot brokers alpha beta assigned replicas c = (replicas, c)
fill_slots (suc left) slot brokers alpha beta assigned replicas c =
    let best = pick_best brokers assigned c alpha beta in
    fill_slots left (suc slot) brokers alpha beta (insert best true assigned)
      (replicas ++ best ∷ []) (count_leader slot best c)

-- The loop over the partitions: `left` more of them.
unfoldable pub assign_partitions :
    (left : ℕ) → List BrokerId → (alpha beta rf : ℕ) → Counts → List (List BrokerId)
assign_partitions zero brokers alpha beta rf c = []
assign_partitions (suc left) brokers alpha beta rf c =
    let (replicas, c') = fill_slots rf 0 brokers alpha beta [] [] c in
    replicas ∷ assign_partitions left brokers alpha beta rf c'

unfoldable pub effective_rf : ℕ → List BrokerId → ℕ
effective_rf rf brokers = if ltb (length brokers) rf then length brokers else rf

-- `AssignReplicas`: the empty list for `nil`.
unfoldable pub assign_replicas :
    List BrokerId → (num_partitions replication_factor : ℕ) → Map BrokerId ℕ → List (List BrokerId)
assign_replicas brokers num_partitions replication_factor leader_counts =
    if length brokers == 0
      || not (is_positive32 num_partitions)
      || not (is_positive32 replication_factor)
    then []
    else assign_partitions num_partitions brokers 1 (length brokers)
        (effective_rf replication_factor brokers) (record { global = leader_counts; topic = [] })
