-- ===== src/Metadata/Store/Agreement.antt =====
-- Two replicas of the store (src/internal/metadata/store.go). A Go map has no order, so that the loop
-- over the partitions may visit them differently on each replica.
mod Loops
use Loops.{
  create_partitions-SameMap, create_partitions-Unique, delete_partitions-SameMap,
  delete_partitions-Unique, same_collected,
}
use amy_queue.Metadata.Store.Counts.{count_leaders-SameNumbers}
use amy_queue.Prelude.{
  ℕ, zero, suc, ◌+◌, ◌<◌, ◌≡◌, refl, ap, inl, inr, Bool-cases, false, ◌&&◌, not, Option-cases,
  String, List, [], ◌∷◌, arith, ◌==◌, eq_iff, if◌then◌else◌, Map, lookup, insert, get_or, Unique,
  insert-Unique, delete-Unique, SameMap, insert-SameMap, delete-SameMap, lookup-insert, total,
  total_same, u64, two64, rounds32, nat_eq, string_eq, pair_eq,
}
use amy_queue.Metadata.Model.{
  TopicId, BrokerId, PartitionKey, Topic, PartitionState, CreateTopicPayload,
}
use amy_queue.Metadata.Assignment.Agreement.{SameNumbers, assign_replicas-SameNumbers}
use amy_queue.Metadata.Store.{
  Store, is_online, count_leaders, leader_counts, replicas_at, new_partition, create_partitions,
  delete_partitions, create_topic, delete_topic, update_partition, Command, cluster_init, create,
  remove, update, apply, apply_cluster_init, apply_create_topic, apply_delete_topic,
  apply_update_partition, get_topic, get_topic_by_name, get_partition, list_partitions,
  collect_partitions,
}
use amy_queue.Metadata.Store.Commands.{run}

-- The same entries of the three maps, in whatever order, and each partition once.
pub record SameStore (s s' : Store) : Type 0 where
  pub same_id : s.cluster_id ≡ s'.cluster_id
  pub same_version : s.version ≡ s'.version
  pub same_topics : SameMap s.topics s'.topics
  pub same_names : SameMap s.topics_by_name s'.topics_by_name
  pub same_partitions : SameMap s.partitions s'.partitions
  pub unique : Unique s.partitions
  pub unique' : Unique s'.partitions

leader_counts-SameNumbers :
    (s s' : Store) → SameStore s s' → SameNumbers (leader_counts s) (leader_counts s')
unfolding leader_counts
leader_counts-SameNumbers s s' h =
    count_leaders-SameNumbers s.partitions s'.partitions h.unique h.unique' h.same_partitions

create_topic-SameStore :
    (s s' : Store) (payload : CreateTopicPayload)
    → SameStore s s'
    → SameStore (create_topic s payload) (create_topic s' payload)
unfolding create_topic
create_topic-SameStore s s' payload h =
    let same =
      assign_replicas-SameNumbers payload.brokers payload.num_partitions payload.replication_factor
        (leader_counts s) (leader_counts s') (leader_counts-SameNumbers s s' h) in
    rw (same) (record {
      same_id = h.same_id;
      same_version = ap (λ v. u64 (v + 1)) h.same_version;
      same_topics = insert-SameMap payload.topic_id _ s.topics s'.topics h.same_topics;
      same_names = insert-SameMap payload.name _ s.topics_by_name s'.topics_by_name h.same_names;
      same_partitions =
          create_partitions-SameMap _ 0 payload.topic_id _ s.partitions s'.partitions
            h.same_partitions;
      unique = create_partitions-Unique _ 0 payload.topic_id _ s.partitions h.unique;
      unique' = create_partitions-Unique _ 0 payload.topic_id _ s'.partitions h.unique';
    })

delete_topic-SameStore :
    (s s' : Store) (id : TopicId) (topic : Topic)
    → SameStore s s'
    → SameStore (delete_topic s id topic) (delete_topic s' id topic)
unfolding delete_topic
delete_topic-SameStore s s' id topic h = record {
  same_id = h.same_id;
  same_version = ap (λ v. u64 (v + 1)) h.same_version;
  same_topics = delete-SameMap id s.topics s'.topics h.same_topics;
  same_names = delete-SameMap topic.name s.topics_by_name s'.topics_by_name h.same_names;
  same_partitions = delete_partitions-SameMap _ 0 id s.partitions s'.partitions h.same_partitions;
  unique = delete_partitions-Unique _ 0 id s.partitions h.unique;
  unique' = delete_partitions-Unique _ 0 id s'.partitions h.unique';
}

apply-SameStore : (s s' : Store) (c : Command) → SameStore s s' → SameStore (apply s c) (apply s' c)
unfolding apply apply_cluster_init apply_create_topic apply_delete_topic apply_update_partition
apply-SameStore s s' (cluster_init payload) h = elim (Bool-cases (s'.cluster_id == "")) [
  | inl t ↦
      rw (h.same_id, t)
        (record {
          same_id = refl;
          same_version = ap (λ v. u64 (v + 1)) h.same_version;
          same_topics = h.same_topics;
          same_names = h.same_names;
          same_partitions = h.same_partitions;
          unique = h.unique;
          unique' = h.unique';
        })
  | inr f ↦ let f' : (s.cluster_id == "") ≡ false = rw (h.same_id) f in rw (f, f') h
]
apply-SameStore s s' (create payload) h =
    elim (Option-cases (lookup payload.name s'.topics_by_name)) [
      | inl e ↦
          rw (apply_create_topic, h.same_names payload.name, e)
            (create_topic-SameStore s s' payload h)
      | inr (id, e) ↦ rw (apply_create_topic, h.same_names payload.name, e) h
    ]
apply-SameStore s s' (remove payload) h = elim (Option-cases (lookup payload.topic_id s'.topics)) [
  | inl e ↦ rw (apply_delete_topic, h.same_topics payload.topic_id, e) h
  | inr (topic, e) ↦
      rw (apply_delete_topic, h.same_topics payload.topic_id, e)
        (delete_topic-SameStore s s' payload.topic_id topic h)
]
apply-SameStore s s' (update payload) h = elim (Option-cases (lookup payload.key s'.partitions)) [
  | inl e ↦ rw (apply_update_partition, h.same_partitions payload.key, e) h
  | inr (p, e) ↦ elim (Bool-cases (payload.expected_epoch == p.partition_epoch)) [
    | inl t ↦
        rw (apply_update_partition, h.same_partitions payload.key, e, t)
          (record {
            same_id = h.same_id;
            same_version = ap (λ v. u64 (v + 1)) h.same_version;
            same_topics = h.same_topics;
            same_names = h.same_names;
            same_partitions =
                insert-SameMap payload.key (update_partition p payload) s.partitions s'.partitions
                  h.same_partitions;
            unique = insert-Unique payload.key _ s.partitions h.unique;
            unique' = insert-Unique payload.key _ s'.partitions h.unique';
          })
    | inr f ↦ rw (apply_update_partition, h.same_partitions payload.key, e, f) h
  ]
]

-- Replicas whose stores agree still agree when both have applied the same commands, although the
-- loops over their maps may run in different orders.
run-SameStore :
    (s s' : Store) (cs : List Command) → SameStore s s' → SameStore (run s cs) (run s' cs)
unfolding run
run-SameStore s s' [] h = h
run-SameStore s s' (c ∷ cs) h = run-SameStore (apply s c) (apply s' c) cs (apply-SameStore s s' c h)

-- Agreeing stores answer the readers alike.
same_answers :
    (s s' : Store)
    → SameStore s s'
    → ((id : TopicId) → get_topic s id ≡ get_topic s' id)
      × ((name : String) → get_topic_by_name s name ≡ get_topic_by_name s' name)
      × ((key : PartitionKey) → get_partition s key ≡ get_partition s' key)
      × ((id : TopicId) → list_partitions s id ≡ list_partitions s' id)
unfolding get_topic get_topic_by_name get_partition list_partitions
same_answers s s' h = (
  h.same_topics,
  (λ name. elim (Option-cases (lookup name s'.topics_by_name)) [
    | inl e ↦ rw (get_topic_by_name, h.same_names name, e) refl
    | inr (id, e) ↦ rw (get_topic_by_name, h.same_names name, e, h.same_topics id) refl
  ]),
  h.same_partitions,
  (λ id. elim (Option-cases (lookup id s'.topics)) [
    | inl e ↦ rw (list_partitions, h.same_topics id, e) refl
    | inr (topic, e) ↦
        rw
          (
            list_partitions,
            h.same_topics id,
            e,
            same_collected (rounds32 topic.num_partitions) 0 id s.partitions s'.partitions
                h.same_partitions,
          )
          refl
  ]),
)

-- Two replicas whose stores hold the same entries, in whatever order their Go maps visit them and with
-- each partition once, apply the same commands. Then they answer get_topic, get_topic_by_name,
-- get_partition and list_partitions alike, so the replicas that a new topic was given are the same too.
pub replicas_agree :
    (s s' : Store) (cs : List Command)
    → SameStore s s'
    → ((id : TopicId) → get_topic (run s cs) id ≡ get_topic (run s' cs) id)
      × ((name : String) → get_topic_by_name (run s cs) name ≡ get_topic_by_name (run s' cs) name)
      × ((key : PartitionKey) → get_partition (run s cs) key ≡ get_partition (run s' cs) key)
      × ((id : TopicId) → list_partitions (run s cs) id ≡ list_partitions (run s' cs) id)
replicas_agree s s' cs h = same_answers (run s cs) (run s' cs) (run-SameStore s s' cs h)
