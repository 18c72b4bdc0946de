-- ===== src/Metadata/Store/Births.antt =====
-- The partitions of a new topic, and what a listing of them shows.
use amy_queue.Prelude.{
  two31, lt→ltb, ℕ, ◌+◌, ◌<◌, ◌≡◌, refl, sym, ap, ◌∙◌, none, some, List, [], ◌∷◌, length, get_elem?,
  get_elem?_of_lt, All-get_elem?, arith, min, lookup, rounds32, nat_eq, string_eq, pair_eq,
}
use amy_queue.Metadata.Model.{TopicId, BrokerId, online, Topic, PartitionState, CreateTopicPayload}
use amy_queue.Metadata.Assignment.{assign_replicas}
use amy_queue.Metadata.Assignment.Slots.{IsPlaced}
use amy_queue.Metadata.Assignment.Placement.{IsValid, assign_replicas-IsPlaced}
use amy_queue.Metadata.Store.{
  Store, new_partition, replicas_at, create_topic, apply_create_topic, collect_partitions,
  leader_counts, get_partition, list_partitions,
}
use amy_queue.Metadata.Store.Partitions.{
  created_at, Present, collect_partitions-Present, length-collect_partitions,
}
use amy_queue.Metadata.Store.Replay.{create_new}
use amy_queue.Metadata.Store.Consistency.{IsConsistent}

-- A partition as it should be born among the given brokers, with `n` replicas: online, led by its
-- first replica, all replicas in sync, both epochs 0.
pub record IsNewborn (brokers : List BrokerId) (n : ℕ) (q : PartitionState) : Type 0 where
  pub placed : IsPlaced brokers n q.replicas
  pub status : q.status ≡ online
  pub first : (more : List BrokerId) × (q.replicas ≡ q.leader ∷ more)
  pub in_sync : q.isr ≡ q.replicas
  pub epochs : (q.leader_epoch ≡ 0) × (q.partition_epoch ≡ 0)

new_partition-IsNewborn :
    (brokers : List BrokerId) (n i : ℕ) (id : TopicId) (rs : List BrokerId)
    → 0 < n
    → IsPlaced brokers n rs
    → IsNewborn brokers n (new_partition id i rs)
unfolding new_partition
new_partition-IsNewborn brokers n i id [] h p = absurd (omega (arith, p.size))
new_partition-IsNewborn brokers n i id (b ∷ bs) h p = record {
  placed = p;
  status = refl;
  first = (bs, refl);
  in_sync = refl;
  epochs = (refl, refl);
}

replicas_at_lem :
    (assignments : List (List BrokerId)) (i : ℕ) (rs : List BrokerId)
    → get_elem? assignments i ≡ some rs
    → replicas_at assignments i ≡ rs
unfolding replicas_at
replicas_at_lem assignments i rs e = rw (e, replicas_at)

module _ (s : Store) (payload : CreateTopicPayload) (g : ℕ)
    (v : IsValid payload.brokers payload.num_partitions payload.replication_factor
      (leader_counts s)
      g) where
  abbrev pub replica_count : ℕ
  replica_count = min payload.replication_factor (length payload.brokers)

  assigned_at :
      (i : ℕ)
      → i < payload.num_partitions
      → IsPlaced payload.brokers replica_count (
          replicas_at
            (assign_replicas payload.brokers payload.num_partitions payload.replication_factor
              (leader_counts s))
            i)
  assigned_at i h =
      let (size, all) =
        assign_replicas-IsPlaced payload.brokers payload.num_partitions payload.replication_factor
          (leader_counts s) g v in
      let assigned =
        assign_replicas payload.brokers payload.num_partitions payload.replication_factor
          (leader_counts s) in
      let (rs, e) = get_elem?_of_lt assigned i (omega (arith, size)) in
      rw (replicas_at_lem assigned i rs e) (All-get_elem? _ assigned i all e)

  created_partition :
      (i : ℕ)
      → i < payload.num_partitions
      → (q : PartitionState) × (lookup (payload.topic_id, i) (create_topic s payload).partitions
          ≡ some q)
        × IsNewborn payload.brokers replica_count q
  unfolding create_topic
  created_partition i h =
      let assigned =
        assign_replicas payload.brokers payload.num_partitions payload.replication_factor
          (leader_counts s) in
      (
        new_partition payload.topic_id i (replicas_at assigned i),
        created_at (rounds32 payload.num_partitions) payload.topic_id i assigned s.partitions
            (ground (arith, v.num_positive)),
        new_partition-IsNewborn payload.brokers replica_count i payload.topic_id _
            (omega (arith, v.rf_positive, v.some_broker)) (assigned_at i h),
      )

  -- From valid input for the placement, a topic under a new name gets all its partitions, each born online on as many different live
  -- brokers as asked, or on all of them where there are fewer, led by its first replica.
  pub apply_create_topic-IsNewborn :
      lookup payload.name s.topics_by_name ≡ none
      → (i : ℕ) → i < payload.num_partitions
      → (q : PartitionState) × (get_partition (apply_create_topic s payload) (payload.topic_id, i)
          ≡ some q)
        × IsNewborn payload.brokers replica_count q
  unfolding get_partition
  apply_create_topic-IsNewborn e i h = rw (create_new s payload e) (created_partition i h)

list_partitions_eq :
    (s : Store) (id : TopicId) (t : Topic)
    → lookup id s.topics ≡ some t
    → t.num_partitions < two31
    → list_partitions s id ≡ some (collect_partitions (rounds32 t.num_partitions) 0 id s.partitions)
unfolding list_partitions
list_partitions_eq s id t e small = rw (list_partitions, e, lt→ltb _ _ small) refl

all-Present :
    (s : Store) (id : TopicId) (t : Topic)
    → IsConsistent s
    → lookup id s.topics ≡ some t
    → Present (rounds32 t.num_partitions) 0 id s.partitions
all-Present s id t v e n h lt = v.complete id t n e (omega arith)

-- In a consistent store a topic whose number of partitions is not negative is listed with exactly its
-- partitions, in the order of their numbers: as many as it has, and the i-th is what `GetPartition`
-- finds.
pub list_partitions_complete :
    (s : Store) (id : TopicId) (t : Topic) (i : ℕ)
    → IsConsistent s
    → lookup id s.topics ≡ some t
    → t.num_partitions < two31
    → i < t.num_partitions
    → (ps : List PartitionState) × (list_partitions s id ≡ some ps)
      × (length ps ≡ t.num_partitions)
      × (get_elem? ps i ≡ get_partition s (id, i))
unfolding get_partition
list_partitions_complete s id t i v e small lt =
    let n = rounds32 t.num_partitions in
    let same : n ≡ t.num_partitions = ground (arith, small) in
    let all = all-Present s id t v e in
    let z : i ≡ 0 + i = omega arith in
    (
      collect_partitions n 0 id s.partitions,
      list_partitions_eq s id t e small,
      length-collect_partitions n 0 id s.partitions all ∙ same,
      collect_partitions-Present n 0 id s.partitions all i (omega (arith, same))
          ∙ ap (λ (k : ℕ). lookup (id, k) s.partitions) (sym z),
    )
