-- ===== src/Metadata/Store/Consistency.antt =====
-- What it means that the three maps of the store describe the same topics, with no orphaned partition.
pub mod Creation
pub mod Deletion
use amy_queue.Prelude.{
  ℕ, String, ◌<◌, ◌≡◌, ◌≢◌, refl, sym, ap, subst, ◌∙◌, inl, inr, true, false, none, some, some_inj,
  List, [], ◌∷◌, arith, Map, lookup, insert, lookup-insert_self, lookup-insert_ne, insert_cases,
  delete_cases, lookup-delete_ne, rounds32, nat_eq, string_eq, pair_eq,
}
use amy_queue.Metadata.Model.{
  TopicId, BrokerId, PartitionKey, Topic, PartitionState, CreateTopicPayload,
}
use amy_queue.Metadata.Assignment.{assign_replicas}
use amy_queue.Metadata.Store.{
  Store, new_store, new_topic, new_partition, replicas_at, create_partitions, leader_counts,
  create_topic, delete_topic,
}
use amy_queue.Metadata.Store.Partitions.{
  in_range, in_range_of_ne, in_range_of_lt, created_at, created_elsewhere, create_cases,
  delete_partitions_inv, deleted_elsewhere,
}

-- The index by name and the topics agree; the partitions of a topic are those numbered below its
-- count, under its id, and no others.
pub record IsConsistent (s : Store) : Type 0 where
  pub named :
      (name : String) (id : TopicId)
      → lookup name s.topics_by_name ≡ some id
      → (t : Topic) × (lookup id s.topics ≡ some t) × (t.name ≡ name)
  pub indexed :
      (id : TopicId) (t : Topic)
      → lookup id s.topics ≡ some t
      → (t.topic_id ≡ id) × (lookup t.name s.topics_by_name ≡ some id)
  pub owned :
      (id : TopicId) (n : ℕ) (p : PartitionState)
      → lookup (id, n) s.partitions ≡ some p
      → (t : Topic) × (lookup id s.topics ≡ some t)
        × (n < rounds32 t.num_partitions)
        × (p.topic_id ≡ id)
        × (p.partition_id ≡ n)
  pub complete :
      (id : TopicId) (t : Topic) (n : ℕ)
      → lookup id s.topics ≡ some t
      → n < rounds32 t.num_partitions
      → (p : PartitionState) × (lookup (id, n) s.partitions ≡ some p)

pub new_store-IsConsistent : IsConsistent new_store
unfolding new_store lookup
new_store-IsConsistent = record {
  named = λ name id e. cc;
  indexed = λ id t e. cc;
  owned = λ id n p e. cc;
  complete = λ id t n e. cc;
}
