-- ===== src/Metadata/Store.antt =====
-- src/internal/metadata/store.go: the in-memory metadata state machine. Every method runs under the
-- store's lock, so it is one step; the `error` results are always nil and left out. The copies that
-- the readers hand out are the values themselves here.
pub mod Partitions
pub mod Consistency
pub mod Commands
pub mod Replay
pub mod Leadership
pub mod Births
pub mod Counts
pub mod Agreement
use amy_queue.Prelude.{
  ltb, two31, ℕ, zero, suc, String, ◌+◌, Bool, true, false, ◌&&◌, not, Option, none, some, List, [],
  ◌∷◌, map, ◌==◌, if◌then◌else◌, get_elem?, Map, lookup, insert, delete, get_or, u32, u64, rounds32,
  nat_eq, string_eq, pair_eq,
}
use amy_queue.Metadata.Model.{
  TopicId, BrokerId, PartitionKey, PartitionStatus, online, offline, Topic, PartitionState,
  ClusterInitPayload, CreateTopicPayload, DeleteTopicPayload, UpdatePartitionPayload,
}
use amy_queue.Metadata.Assignment.{assign_replicas}

-- `InMemoryStore`.
pub record Store : Type 0 where
  pub cluster_id : String
  pub topics : Map TopicId Topic
  pub topics_by_name : Map String TopicId
  pub partitions : Map PartitionKey PartitionState
  pub version : ℕ  -- int64

unfoldable pub new_store : Store
new_store = record {
  cluster_id = "";
  topics = [];
  topics_by_name = [];
  partitions = [];
  version = 0;
}

unfoldable pub apply_cluster_init : Store → ClusterInitPayload → Store
apply_cluster_init s payload =
    if not (s.cluster_id == "")
    then s
    else record s { cluster_id = payload.cluster_id; version = u64 (s.version + 1) }

abbrev pub is_online : PartitionStatus → Bool
is_online online = true
is_online offline = false

-- The loop of `leaderCountsLocked`.
unfoldable pub count_leaders : Map PartitionKey PartitionState → Map BrokerId ℕ → Map BrokerId ℕ
count_leaders [] counts = counts
count_leaders ((_, p) ∷ ps) counts = count_leaders ps (
    if is_online p.status && not (p.leader == "")
    then insert p.leader (u64 (get_or p.leader counts 0 + 1)) counts
    else counts)

unfoldable pub leader_counts : Store → Map BrokerId ℕ
leader_counts s = count_leaders s.partitions []

-- A partition as it is born: the first replica leads, and all replicas are in sync.
unfoldable pub new_partition : TopicId → ℕ → List BrokerId → PartitionState
new_partition id i [] = record {
  topic_id = id;
  partition_id = i;
  status = offline;
  replicas = [];
  isr = [];
  leader = "";
  leader_epoch = 0;
  partition_epoch = 0;
}
new_partition id i (b ∷ bs) = record {
  topic_id = id;
  partition_id = i;
  status = online;
  replicas = b ∷ bs;
  isr = b ∷ bs;
  leader = b;
  leader_epoch = 0;
  partition_epoch = 0;
}

-- `assignments[i]`, and no replicas past the end.
unfoldable pub replicas_at : List (List BrokerId) → ℕ → List BrokerId
replicas_at assignments i = elim (get_elem? assignments i) [ none ↦ [] | some replicas ↦ replicas ]

-- The loop over the partitions of a new topic: `left` more, from number `i`.
unfoldable pub create_partitions :
    (left i : ℕ)
    → TopicId
    → List (List BrokerId)
    → Map PartitionKey PartitionState
    → Map PartitionKey PartitionState
create_partitions zero i id assignments ps = ps
create_partitions (suc left) i id assignments ps =
    create_partitions left (suc i) id assignments
      (insert (id, i) (new_partition id i (replicas_at assignments i)) ps)

unfoldable pub new_topic : CreateTopicPayload → Topic
new_topic payload = record {
  topic_id = payload.topic_id;
  name = payload.name;
  num_partitions = payload.num_partitions;
  replication_factor = payload.replication_factor;
  internal = payload.internal;
  config = payload.config;
}

-- The part of `ApplyCreateTopic` behind its guard.
unfoldable pub create_topic : Store → CreateTopicPayload → Store
create_topic s payload =
    let assignments =
      assign_replicas payload.brokers payload.num_partitions payload.replication_factor
        (leader_counts s) in
    record s {
      topics = insert payload.topic_id (new_topic payload) s.topics;
      topics_by_name = insert payload.name payload.topic_id s.topics_by_name;
      partitions =
          create_partitions (rounds32 payload.num_partitions) 0 payload.topic_id assignments
            s.partitions;
      version = u64 (s.version + 1);
    }

unfoldable pub apply_create_topic : Store → CreateTopicPayload → Store
apply_create_topic s payload = elim (lookup payload.name s.topics_by_name) [
  | some _ ↦ s
  | none ↦ create_topic s payload
]

-- The loop that deletes a topic's partitions: `left` more, from number `i`.
unfoldable pub delete_partitions :
    (left i : ℕ) → TopicId → Map PartitionKey PartitionState → Map PartitionKey PartitionState
delete_partitions zero i id ps = ps
delete_partitions (suc left) i id ps = delete_partitions left (suc i) id (delete (id, i) ps)

unfoldable pub delete_topic : Store → TopicId → Topic → Store
delete_topic s id topic = record s {
  partitions = delete_partitions (rounds32 topic.num_partitions) 0 id s.partitions;
  topics = delete id s.topics;
  topics_by_name = delete topic.name s.topics_by_name;
  version = u64 (s.version + 1);
}

unfoldable pub apply_delete_topic : Store → DeleteTopicPayload → Store
apply_delete_topic s payload = elim (lookup payload.topic_id s.topics) [
  | none ↦ s
  | some topic ↦ delete_topic s payload.topic_id topic
]

-- The new state of a partition whose epoch matched.
unfoldable pub update_partition : PartitionState → UpdatePartitionPayload → PartitionState
update_partition p payload = record p {
  leader = payload.new_leader;
  isr = payload.new_isr;
  status = if payload.new_leader == "" then offline else online;
  leader_epoch =
      if payload.new_leader == p.leader then p.leader_epoch else u32 (p.leader_epoch + 1);
  partition_epoch = u32 (p.partition_epoch + 1);
}

unfoldable pub apply_update_partition : Store → UpdatePartitionPayload → Store
apply_update_partition s payload = elim (lookup payload.key s.partitions) [
  | none ↦ s
  | some p ↦ if not (payload.expected_epoch == p.partition_epoch) then s else record s {
    partitions = insert payload.key (update_partition p payload) s.partitions;
    version = u64 (s.version + 1);
  }
]

-- The four commands of the Raft state machine.
pub data Command : Type 0 where
  cluster_init : ClusterInitPayload → Command
  create : CreateTopicPayload → Command
  remove : DeleteTopicPayload → Command
  update : UpdatePartitionPayload → Command

unfoldable pub apply : Store → Command → Store
apply s (cluster_init payload) = apply_cluster_init s payload
apply s (create payload) = apply_create_topic s payload
apply s (remove payload) = apply_delete_topic s payload
apply s (update payload) = apply_update_partition s payload

unfoldable pub get_topic : Store → TopicId → Option Topic
get_topic s id = lookup id s.topics

-- The result of a reader that would dereference nil where `fault` stands.
pub data Read {ℓ} (A : Type ℓ) : Type ℓ where
  missing : Read A
  found : A → Read A
  fault : Read A

unfoldable pub get_topic_by_name : Store → String → Read Topic
get_topic_by_name s name = elim (lookup name s.topics_by_name) [
  | none ↦ missing
  | some id ↦ elim (lookup id s.topics) [ none ↦ fault | some t ↦ found t ]
]

unfoldable pub list_topics : Store → List Topic
list_topics s = map (λ e. e.1) s.topics

unfoldable pub get_partition : Store → PartitionKey → Option PartitionState
get_partition s key = lookup key s.partitions

-- The loop of `ListPartitions`.
unfoldable pub collect_partitions :
    (left i : ℕ) → TopicId → Map PartitionKey PartitionState → List PartitionState
collect_partitions zero i id ps = []
collect_partitions (suc left) i id ps =
    let rest = collect_partitions left (suc i) id ps in
    elim (lookup (id, i) ps) [ none ↦ rest | some p ↦ p ∷ rest ]

-- `none` is the panic of `make` for a negative capacity.
unfoldable pub list_partitions : Store → TopicId → Option (List PartitionState)
list_partitions s id = elim (lookup id s.topics) [
  | none ↦ some []
  | some topic ↦
      if ltb topic.num_partitions two31
      then some (collect_partitions (rounds32 topic.num_partitions) 0 id s.partitions)
      else none
]
