-- ===== src/Metadata/Store/Agreement/Loops.antt =====
-- The loops of src/internal/metadata/store.go over the partitions, on two maps with the same entries.
use amy_queue.Prelude.{
  ℕ, zero, suc, ◌≡◌, refl, ap, inl, inr, Option-cases, List, ◌∷◌, Map, lookup, Unique,
  insert-Unique, delete-Unique, SameMap, insert-SameMap, delete-SameMap, nat_eq, string_eq, pair_eq,
}
use amy_queue.Metadata.Model.{TopicId, BrokerId, PartitionKey, PartitionState}
use amy_queue.Metadata.Store.{
  replicas_at, new_partition, create_partitions, delete_partitions, collect_partitions,
}

pub create_partitions-SameMap :
    (left i : ℕ) (id : TopicId) (lists : List (List BrokerId))
    (ps ps' : Map PartitionKey PartitionState)
    → SameMap ps ps'
    → SameMap (create_partitions left i id lists ps) (create_partitions left i id lists ps')
unfolding create_partitions
create_partitions-SameMap zero i id lists ps ps' h = h
create_partitions-SameMap (suc left) i id lists ps ps' h =
    create_partitions-SameMap left (suc i) id lists _ _
      (insert-SameMap (id, i) (new_partition id i (replicas_at lists i)) ps ps' h)

pub create_partitions-Unique :
    (left i : ℕ) (id : TopicId) (lists : List (List BrokerId))
    (ps : Map PartitionKey PartitionState)
    → Unique ps
    → Unique (create_partitions left i id lists ps)
unfolding create_partitions
create_partitions-Unique zero i id lists ps u = u
create_partitions-Unique (suc left) i id lists ps u =
    create_partitions-Unique left (suc i) id lists _
      (insert-Unique (id, i) (new_partition id i (replicas_at lists i)) ps u)

pub delete_partitions-SameMap :
    (left i : ℕ) (id : TopicId) (ps ps' : Map PartitionKey PartitionState)
    → SameMap ps ps'
    → SameMap (delete_partitions left i id ps) (delete_partitions left i id ps')
unfolding delete_partitions
delete_partitions-SameMap zero i id ps ps' h = h
delete_partitions-SameMap (suc left) i id ps ps' h =
    delete_partitions-SameMap left (suc i) id _ _ (delete-SameMap (id, i) ps ps' h)

pub delete_partitions-Unique :
    (left i : ℕ) (id : TopicId) (ps : Map PartitionKey PartitionState)
    → Unique ps
    → Unique (delete_partitions left i id ps)
unfolding delete_partitions
delete_partitions-Unique zero i id ps u = u
delete_partitions-Unique (suc left) i id ps u =
    delete_partitions-Unique left (suc i) id _ (delete-Unique (id, i) ps u)

pub same_collected :
    (left i : ℕ) (id : TopicId) (ps ps' : Map PartitionKey PartitionState)
    → SameMap ps ps'
    → collect_partitions left i id ps ≡ collect_partitions left i id ps'
unfolding collect_partitions
same_collected zero i id ps ps' h = refl
same_collected (suc left) i id ps ps' h =
    let rest = same_collected left (suc i) id ps ps' h in
    elim (Option-cases (lookup (id, i) ps')) [
      | inl e ↦ rw (collect_partitions, h (id, i), e) rest
      | inr (p, e) ↦ rw (collect_partitions, h (id, i), e) (ap (λ qs. p ∷ qs) rest)
    ]
