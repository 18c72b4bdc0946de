-- ===== src/Metadata/Store/Replay.antt =====
-- Replaying a command, and what a command leaves alone.
use native.Mathlib.Decide.{ℕ_discrete}
use amy_queue.Prelude.{
  ◌+◌, ◌<◌, ◌≡◌, ◌≢◌, ap, ◌⊎◌, inl, inr, none, some, Option-cases, arith, eq_iff, lookup,
  lookup-insert_self, lookup-delete_self, u64, two64, nat_eq, string_eq, pair_eq,
}
use amy_queue.Metadata.Model.{
  TopicId, Topic, ClusterInitPayload, CreateTopicPayload, DeleteTopicPayload,
  UpdatePartitionPayload,
}
use amy_queue.Metadata.Store.{
  Store, Command, cluster_init, create, remove, update, create_topic, delete_topic,
  update_partition, apply_cluster_init, apply_create_topic, apply_delete_topic,
  apply_update_partition, apply,
}
use amy_queue.Metadata.Store.Leadership.{update_partition-epoch}
use amy_queue.Metadata.Store.Commands.{update_missing, update_stale, update_hit}

init_twice :
    (s : Store) (payload : ClusterInitPayload)
    → payload.cluster_id ≢ ""
    → apply_cluster_init (apply_cluster_init s payload) payload ≡ apply_cluster_init s payload
unfolding apply_cluster_init
init_twice s payload h = ground (arith, eq_iff s.cluster_id "", eq_iff payload.cluster_id "")

create_known :
    (s : Store) (payload : CreateTopicPayload) (id : TopicId)
    → lookup payload.name s.topics_by_name ≡ some id
    → apply_create_topic s payload ≡ s
unfolding apply_create_topic
create_known s payload id e = rw (e, apply_create_topic)

pub create_new :
    (s : Store) (payload : CreateTopicPayload)
    → lookup payload.name s.topics_by_name ≡ none
    → apply_create_topic s payload ≡ create_topic s payload
unfolding apply_create_topic
create_new s payload e = rw (e, apply_create_topic)

create_topic-name :
    (s : Store) (payload : CreateTopicPayload)
    → lookup payload.name (create_topic s payload).topics_by_name ≡ some payload.topic_id
unfolding create_topic
create_topic-name s payload = lookup-insert_self payload.name payload.topic_id s.topics_by_name

create_twice :
    (s : Store) (payload : CreateTopicPayload)
    → apply_create_topic (apply_create_topic s payload) payload ≡ apply_create_topic s payload
create_twice s payload = elim (Option-cases (lookup payload.name s.topics_by_name)) [
  | inl e ↦
      rw (create_new s payload e) (
        create_known (create_topic s payload) payload payload.topic_id
          (create_topic-name s payload))
  | inr (id, e) ↦ rw (create_known s payload id e) (create_known s payload id e)
]

delete_unknown :
    (s : Store) (payload : DeleteTopicPayload)
    → lookup payload.topic_id s.topics ≡ none
    → apply_delete_topic s payload ≡ s
unfolding apply_delete_topic
delete_unknown s payload e = rw (e, apply_delete_topic)

delete_known :
    (s : Store) (payload : DeleteTopicPayload) (t : Topic)
    → lookup payload.topic_id s.topics ≡ some t
    → apply_delete_topic s payload ≡ delete_topic s payload.topic_id t
unfolding apply_delete_topic
delete_known s payload t e = rw (e, apply_delete_topic)

delete_topic-gone :
    (s : Store) (id : TopicId) (t : Topic) → lookup id (delete_topic s id t).topics ≡ none
unfolding delete_topic
delete_topic-gone s id t = lookup-delete_self id s.topics

delete_twice :
    (s : Store) (payload : DeleteTopicPayload)
    → apply_delete_topic (apply_delete_topic s payload) payload ≡ apply_delete_topic s payload
delete_twice s payload = elim (Option-cases (lookup payload.topic_id s.topics)) [
  | inl e ↦ rw (delete_unknown s payload e) (delete_unknown s payload e)
  | inr (t, e) ↦ rw (delete_known s payload t e) (
      delete_unknown (delete_topic s payload.topic_id t) payload
        (delete_topic-gone s payload.topic_id t))
]

update_twice :
    (s : Store) (payload : UpdatePartitionPayload)
    → apply_update_partition (apply_update_partition s payload) payload
      ≡ apply_update_partition s payload
update_twice s payload = elim (Option-cases (lookup payload.key s.partitions)) [
  | inl e ↦ rw (update_missing s payload e) (update_missing s payload e)
  | inr (p, e) ↦ elim (ℕ_discrete payload.expected_epoch p.partition_epoch) [
    | yes h ↦ rw (update_hit s payload p e h) (
        update_stale _ payload (update_partition p payload)
          (lookup-insert_self payload.key (update_partition p payload) s.partitions)
          (update_partition-epoch p payload h))
    | no h ↦ rw (update_stale s payload p e h) (update_stale s payload p e h)
  ]
]

-- A command applied again at once changes nothing more; an initialisation must carry a cluster id.
abbrev pub HasId : Command → Type 0
HasId (cluster_init payload) = payload.cluster_id ≢ ""
HasId _ = Unit

-- Applying a command a second time, right after the first, changes nothing. This holds of each of the
-- four commands, of an initialisation if its cluster id is not empty. A command in between is another
-- matter: it may have undone what the first did.
pub apply_twice : (s : Store) (c : Command) → HasId c → apply (apply s c) c ≡ apply s c
unfolding apply
apply_twice s (cluster_init payload) h = init_twice s payload h
apply_twice s (create payload) h = create_twice s payload
apply_twice s (remove payload) h = delete_twice s payload
apply_twice s (update payload) h = update_twice s payload

-- An initialisation with the empty id is not recognised when it is replayed: each replay counts as a
-- change of the store.
init_empty_again :
    (s : Store) (payload : ClusterInitPayload)
    → s.cluster_id ≡ ""
    → payload.cluster_id ≡ ""
    → s.version + 2 < two64
    → (apply_cluster_init (apply_cluster_init s payload) payload).version ≡ s.version + 2
unfolding apply_cluster_init
init_empty_again s payload h k l =
    ground (arith, eq_iff s.cluster_id "", eq_iff payload.cluster_id "")

version_init :
    (s : Store) (payload : ClusterInitPayload)
    → (apply_cluster_init s payload ≡ s)
      ⊎ ((apply_cluster_init s payload).version ≡ u64 (s.version + 1))
unfolding apply_cluster_init
version_init s payload = ground arith

-- Each command either leaves the whole store as it was or counts its version up by one.
pub apply-version :
    (s : Store) (c : Command) → (apply s c ≡ s) ⊎ ((apply s c).version ≡ u64 (s.version + 1))
unfolding apply create_topic delete_topic
apply-version s (cluster_init payload) = version_init s payload
apply-version s (create payload) = elim (Option-cases (lookup payload.name s.topics_by_name)) [
  | inl e ↦ inr (ap (λ (q : Store). q.version) (create_new s payload e))
  | inr (id, e) ↦ inl (create_known s payload id e)
]
apply-version s (remove payload) = elim (Option-cases (lookup payload.topic_id s.topics)) [
  | inl e ↦ inl (delete_unknown s payload e)
  | inr (t, e) ↦ inr (ap (λ (q : Store). q.version) (delete_known s payload t e))
]
apply-version s (update payload) = elim (Option-cases (lookup payload.key s.partitions)) [
  | inl e ↦ inl (update_missing s payload e)
  | inr (p, e) ↦ elim (ℕ_discrete payload.expected_epoch p.partition_epoch) [
    | yes h ↦ inr (ap (λ (q : Store). q.version) (update_hit s payload p e h))
    | no h ↦ inl (update_stale s payload p e h)
  ]
]
