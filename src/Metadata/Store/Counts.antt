-- ===== src/Metadata/Store/Counts.antt =====
-- `leaderCountsLocked` (src/internal/metadata/store.go) as a sum over the partitions.
use amy_queue.Prelude.{
  ℕ, ◌+◌, ◌<◌, ◌≡◌, ◌&&◌, not, [], ◌∷◌, arith, ◌==◌, eq_iff, if◌then◌else◌, Map, lookup, insert,
  get_or, Unique, SameMap, lookup-insert, total, total_same, u64, two64, nat_eq, string_eq, pair_eq,
}
use amy_queue.Metadata.Model.{BrokerId, PartitionKey, PartitionState}
use amy_queue.Metadata.Assignment.Agreement.{SameNumbers}
use amy_queue.Metadata.Store.{is_online, count_leaders}

-- 1 for a partition that the broker leads, and 0 for any other.
abbrev pub leads : BrokerId → PartitionState → ℕ
leads b p = if is_online p.status && not (p.leader == "") && p.leader == b then 1 else 0

-- The counts after one more partition.
abbrev counted : PartitionState → Map BrokerId ℕ → Map BrokerId ℕ
counted p counts =
    if is_online p.status && not (p.leader == "")
    then insert p.leader (u64 (get_or p.leader counts 0 + 1)) counts
    else counts

counted_lem :
    (b : BrokerId) (p : PartitionState) (counts : Map BrokerId ℕ)
    → ((x : BrokerId) → get_or x counts 0 < two64)
    → (get_or b (counted p counts) 0 ≡ u64 (get_or b counts 0 + leads b p))
counted_lem b p counts small = ground (
  arith,
  small b,
  lookup-insert p.leader b (u64 (get_or p.leader counts 0 + 1)) counts,
  eq_iff p.leader b,
)

-- The loop counts the partitions that a broker leads, modulo the width of an int.
pub count_leaders-total :
    (b : BrokerId) (ps : Map PartitionKey PartitionState) (counts : Map BrokerId ℕ)
    → ((x : BrokerId) → get_or x counts 0 < two64)
    → get_or b (count_leaders ps counts) 0 ≡ u64 (get_or b counts 0 + total (leads b) ps)
unfolding count_leaders
count_leaders-total b [] counts small = omega (arith, small b)
count_leaders-total b ((k, p) ∷ ps) counts small =
    let step = counted_lem b p counts small in
    let rest =
      count_leaders-total b ps (counted p counts)
        (λ x. omega (arith, counted_lem x p counts small)) in
    omega (arith, step, rest)

pub count_leaders-SameNumbers :
    (ps ps' : Map PartitionKey PartitionState)
    → Unique ps
    → Unique ps'
    → SameMap ps ps'
    → SameNumbers (count_leaders ps []) (count_leaders ps' [])
unfolding lookup
count_leaders-SameNumbers ps ps' u u' h b =
    let l = count_leaders-total b ps [] (λ x. omega arith) in
    let l' = count_leaders-total b ps' [] (λ x. omega arith) in
    let t = total_same (leads b) ps ps' u u' h in omega (arith, l, l', t)
