-- ===== src/Metadata/Store/Consistency/Creation.antt =====
-- A topic that is created keeps the three maps of the store together
-- (src/internal/metadata/store.go, ApplyCreateTopic).
use amy_queue.Prelude.{
  ℕ, String, ◌<◌, ◌≡◌, ◌≢◌, refl, sym, ap, subst, ◌∙◌, inl, inr, none, some, List, [], ◌∷◌, arith,
  Map, lookup, insert, lookup-insert_self, lookup-insert_ne, insert_cases, rounds32, nat_eq,
  string_eq, pair_eq,
}
use amy_queue.Metadata.Model.{
  TopicId, BrokerId, PartitionKey, Topic, PartitionState, CreateTopicPayload,
}
use amy_queue.Metadata.Assignment.{assign_replicas}
use amy_queue.Metadata.Store.{
  Store, new_topic, new_partition, replicas_at, create_partitions, leader_counts, create_topic,
}
use amy_queue.Metadata.Store.Partitions.{
  in_range_of_ne, created_at, created_elsewhere, create_cases,
}
use amy_queue.Metadata.Store.Consistency.{IsConsistent}

new_partition-ids :
    (id : TopicId) (n : ℕ) (rs : List BrokerId)
    → ((new_partition id n rs).topic_id ≡ id) × ((new_partition id n rs).partition_id ≡ n)
unfolding new_partition
new_partition-ids id n [] = (refl, refl)
new_partition-ids id n (b ∷ bs) = (refl, refl)

module _ (s : Store) (v : IsConsistent s) (payload : CreateTopicPayload)
    (unnamed : lookup payload.name s.topics_by_name ≡ none)
    (fresh : lookup payload.topic_id s.topics ≡ none) where
  old_ne : (id : TopicId) (t : Topic) → lookup id s.topics ≡ some t → payload.topic_id ≢ id
  old_ne id t e same = ground (arith, subst (λ k. lookup k s.topics ≡ none) same fresh)

  create-named :
      (name : String) (id : TopicId)
      → lookup name (insert payload.name payload.topic_id s.topics_by_name) ≡ some id
      → (t : Topic) × (lookup id (insert payload.topic_id (new_topic payload) s.topics) ≡ some t)
        × (t.name ≡ name)
  unfolding new_topic
  create-named name id e =
      elim (insert_cases payload.name name payload.topic_id id s.topics_by_name e) [
        | inl (same, new) ↦ (
          new_topic payload,
          rw (← new) (lookup-insert_self payload.topic_id (new_topic payload) s.topics),
          same,
        )
        | inr (ne, old) ↦
            let (t, l, n) = v.named name id old in
            (
              t,
              lookup-insert_ne payload.topic_id id (new_topic payload) s.topics (old_ne id t l) ∙ l,
              n,
            )
      ]

  create-indexed :
      (id : TopicId) (t : Topic)
      → lookup id (insert payload.topic_id (new_topic payload) s.topics) ≡ some t
      → (t.topic_id ≡ id)
        × (lookup t.name (insert payload.name payload.topic_id s.topics_by_name) ≡ some id)
  unfolding new_topic
  create-indexed id t e = elim (insert_cases payload.topic_id id (new_topic payload) t s.topics e) [
    | inl (same, new) ↦
        rw (← new, ← same) (refl, lookup-insert_self payload.name payload.topic_id s.topics_by_name)
    | inr (ne, old) ↦
        let (a, l) = v.indexed id t old in
        let other : payload.name ≢ t.name =
          λ q. ground (arith, subst (λ k. lookup k s.topics_by_name ≡ none) q unnamed) in
        (a, lookup-insert_ne payload.name t.name payload.topic_id s.topics_by_name other ∙ l)
  ]

  new_rounds :
      (t : Topic)
      → new_topic payload ≡ t
      → (n : ℕ) → n < rounds32 t.num_partitions
      → n < rounds32 payload.num_partitions
  unfolding new_topic
  new_rounds t e n h = rw (ap (λ (q : Topic). rounds32 q.num_partitions) e) h

  abbrev assigned : List (List BrokerId)
  assigned =
      assign_replicas payload.brokers payload.num_partitions payload.replication_factor
        (leader_counts s)

  abbrev made : Map PartitionKey PartitionState
  made =
      create_partitions (rounds32 payload.num_partitions) 0 payload.topic_id assigned s.partitions

  create-owned :
      (id : TopicId) (n : ℕ) (p : PartitionState)
      → lookup (id, n) made ≡ some p
      → (t : Topic) × (lookup id (insert payload.topic_id (new_topic payload) s.topics) ≡ some t)
        × (n < rounds32 t.num_partitions)
        × (p.topic_id ≡ id)
        × (p.partition_id ≡ n)
  create-owned id n p e =
      elim (create_cases (rounds32 payload.num_partitions) payload.topic_id id n _ s.partitions p
        e) [
          | inl (same, lt, new) ↦
              let (a, b) = new_partition-ids id n _ in
              (
                new_topic payload,
                rw (← same) (lookup-insert_self payload.topic_id (new_topic payload) s.topics),
                unfold new_topic in lt,
                ap (λ (q : PartitionState). q.topic_id) (sym new) ∙ a,
                ap (λ (q : PartitionState). q.partition_id) (sym new) ∙ b,
              )
          | inr old ↦
              let (t, l, lt, a, b) = v.owned id n p old in
              (
                t,
                lookup-insert_ne payload.topic_id id (new_topic payload) s.topics (old_ne id t l)
                    ∙ l,
                lt,
                a,
                b,
              )
        ]

  create_complete :
      (id : TopicId) (t : Topic) (n : ℕ)
      → lookup id (insert payload.topic_id (new_topic payload) s.topics) ≡ some t
      → n < rounds32 t.num_partitions
      → (p : PartitionState) × (lookup (id, n) made ≡ some p)
  create_complete id t n e lt =
      elim (insert_cases payload.topic_id id (new_topic payload) t s.topics e) [
        | inl (same, new) ↦
            let fits : n < rounds32 payload.num_partitions = new_rounds t new n lt in
            (
              new_partition payload.topic_id n (replicas_at assigned n),
              rw (← same) (
                  created_at (rounds32 payload.num_partitions) payload.topic_id n _ s.partitions
                    fits),
            )
        | inr (ne, old) ↦
            let (p, l) = v.complete id t n old lt in
            (
              p,
              created_elsewhere _ payload.topic_id id n _ s.partitions
                    (in_range_of_ne _ payload.topic_id id n ne)
                  ∙ l,
            )
      ]

  pub create_topic-IsConsistent : IsConsistent (create_topic s payload)
  unfolding create_topic
  create_topic-IsConsistent = record {
    named = create-named;
    indexed = create-indexed;
    owned = create-owned;
    complete = create_complete;
  }
