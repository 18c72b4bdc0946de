-- ===== src/Metadata/Store/Commands.antt =====
-- The commands of the state machine and the consistency of the store, for src/internal/metadata/store.go.
use amy_queue.Prelude.{
  ℕ, String, ◌+◌, ◌≡◌, ◌≢◌, refl, sym, ap, subst, ◌∙◌, inl, inr, none, some, Option-cases,
  Bool-cases, List, [], ◌∷◌, arith, ◌==◌, ==_iff, lookup, insert, lookup-insert_self,
  lookup-insert_ne, insert_cases, u64, nat_eq, string_eq, pair_eq,
}
use native.Mathlib.Decide.{ℕ_discrete}
use amy_queue.Metadata.Model.{
  PartitionKey, PartitionState, ClusterInitPayload, CreateTopicPayload, DeleteTopicPayload,
  UpdatePartitionPayload,
}
use amy_queue.Metadata.Store.{
  Store, Command, cluster_init, create, remove, update, new_store, update_partition,
  apply_cluster_init, apply_create_topic, apply_delete_topic, apply_update_partition, apply, fault,
  get_topic_by_name,
}
use amy_queue.Metadata.Store.Consistency.{IsConsistent, new_store-IsConsistent}
use amy_queue.Metadata.Store.Consistency.Creation.{create_topic-IsConsistent}
use amy_queue.Metadata.Store.Consistency.Deletion.{delete_topic-IsConsistent}

-- Swapping in a state that keeps its two ids.
module _ (s : Store) (v : IsConsistent s) (key : PartitionKey) (p q : PartitionState) (n : ℕ)
    (stored : lookup key s.partitions ≡ some p) (id : q.topic_id ≡ p.topic_id)
    (number : q.partition_id ≡ p.partition_id) where
  swap-IsConsistent :
      IsConsistent (record s { partitions = insert key q s.partitions; version = n })
  swap-IsConsistent = record {
    named = v.named;
    indexed = v.indexed;
    owned = λ j k r e. elim (insert_cases key (j, k) q r s.partitions e) [
      | inl (same, new) ↦
          let (t, l, lt, a, b) =
            v.owned j k p (subst (λ z. lookup z s.partitions ≡ some p) same stored) in
          (
            t,
            l,
            lt,
            ap (λ (z : PartitionState). z.topic_id) (sym new) ∙ id ∙ a,
            ap (λ (z : PartitionState). z.partition_id) (sym new) ∙ number ∙ b,
          )
      | inr (ne, old) ↦ v.owned j k r old
    ];
    complete = λ j t k e lt. elim (Bool-cases (key == (j, k))) [
      | inl same ↦ (
        q,
        subst (λ z. lookup z (insert key q s.partitions) ≡ some q) ((==_iff key (j, k)).0 same)
            (lookup-insert_self key q s.partitions),
      )
      | inr other ↦
          let (r, l) = v.complete j t k e lt in
          (
            r,
            lookup-insert_ne key (j, k) q s.partitions
                  (λ same. ground (arith, (==_iff key (j, k)).1 same))
                ∙ l,
          )
    ];
  }

apply_cluster_init-IsConsistent :
    (s : Store) (payload : ClusterInitPayload)
    → IsConsistent s
    → IsConsistent (apply_cluster_init s payload)
unfolding apply_cluster_init
apply_cluster_init-IsConsistent s payload v = elim (Bool-cases (s.cluster_id == "")) [
  | inl e ↦
      rw e (record { named = v.named; indexed = v.indexed; owned = v.owned; complete = v.complete })
  | inr e ↦ rw e v
]

-- A topic that is to be made brings an id that no topic has, as the proposer's UUID does.
abbrev pub IsFresh : Store → Command → Type 0
IsFresh s (create payload) =
    lookup payload.name s.topics_by_name ≡ none → lookup payload.topic_id s.topics ≡ none
IsFresh s _ = Unit

apply_create_topic-IsConsistent :
    (s : Store) (payload : CreateTopicPayload)
    → IsFresh s (create payload)
    → IsConsistent s
    → IsConsistent (apply_create_topic s payload)
unfolding apply_create_topic
apply_create_topic-IsConsistent s payload f v =
    elim (Option-cases (lookup payload.name s.topics_by_name)) [
      | inl e ↦ rw (e, apply_create_topic) (create_topic-IsConsistent s v payload e (f e))
      | inr (t, e) ↦ rw (e, apply_create_topic) v
    ]

apply_delete_topic-IsConsistent :
    (s : Store) (payload : DeleteTopicPayload)
    → IsConsistent s
    → IsConsistent (apply_delete_topic s payload)
unfolding apply_delete_topic
apply_delete_topic-IsConsistent s payload v =
    elim (Option-cases (lookup payload.topic_id s.topics)) [
      | inl e ↦ rw (e, apply_delete_topic) v
      | inr (t, e) ↦ rw (e, apply_delete_topic) (delete_topic-IsConsistent s v payload.topic_id t e)
    ]

-- The three branches of `ApplyUpdatePartition`.
pub update_missing :
    (s : Store) (payload : UpdatePartitionPayload)
    → lookup payload.key s.partitions ≡ none
    → apply_update_partition s payload ≡ s
unfolding apply_update_partition
update_missing s payload e = rw (e, apply_update_partition)

pub update_stale :
    (s : Store) (payload : UpdatePartitionPayload) (p : PartitionState)
    → lookup payload.key s.partitions ≡ some p
    → payload.expected_epoch ≢ p.partition_epoch
    → apply_update_partition s payload ≡ s
unfolding apply_update_partition
update_stale s payload p e h = rw (e, apply_update_partition) (ground arith)

pub update_hit :
    (s : Store) (payload : UpdatePartitionPayload) (p : PartitionState)
    → lookup payload.key s.partitions ≡ some p
    → payload.expected_epoch ≡ p.partition_epoch
    → apply_update_partition s payload ≡ record s {
      partitions = insert payload.key (update_partition p payload) s.partitions;
      version = u64 (s.version + 1);
    }
unfolding apply_update_partition
update_hit s payload p e h = rw (e, apply_update_partition) (ground arith)

update_partition-ids :
    (p : PartitionState) (payload : UpdatePartitionPayload)
    → ((update_partition p payload).topic_id ≡ p.topic_id)
      × ((update_partition p payload).partition_id ≡ p.partition_id)
unfolding update_partition
update_partition-ids p payload = (refl, refl)

apply_update_partition-IsConsistent :
    (s : Store) (payload : UpdatePartitionPayload)
    → IsConsistent s
    → IsConsistent (apply_update_partition s payload)
apply_update_partition-IsConsistent s payload v =
    elim (Option-cases (lookup payload.key s.partitions)) [
      | inl e ↦ subst IsConsistent (sym (update_missing s payload e)) v
      | inr (p, e) ↦ elim (ℕ_discrete payload.expected_epoch p.partition_epoch) [
        | yes h ↦
            let (id, number) = update_partition-ids p payload in
            subst IsConsistent (sym (update_hit s payload p e h))
              (swap-IsConsistent s v payload.key p (update_partition p payload) _ e id number)
        | no h ↦ subst IsConsistent (sym (update_stale s payload p e h)) v
      ]
    ]

-- Every command keeps the store consistent.
pub apply-IsConsistent :
    (s : Store) (c : Command) → IsFresh s c → IsConsistent s → IsConsistent (apply s c)
unfolding apply
apply-IsConsistent s (cluster_init payload) f v = apply_cluster_init-IsConsistent s payload v
apply-IsConsistent s (create payload) f v = apply_create_topic-IsConsistent s payload f v
apply-IsConsistent s (remove payload) f v = apply_delete_topic-IsConsistent s payload v
apply-IsConsistent s (update payload) f v = apply_update_partition-IsConsistent s payload v

-- The replay of a log of commands.
unfoldable pub run : Store → List Command → Store
run s [] = s
run s (c ∷ cs) = run (apply s c) cs

abbrev pub AllFresh : Store → List Command → Type 0
AllFresh s [] = Unit
AllFresh s (c ∷ cs) = IsFresh s c × AllFresh (apply s c) cs

run_from-IsConsistent :
    (s : Store) (cs : List Command) → AllFresh s cs → IsConsistent s → IsConsistent (run s cs)
unfolding run
run_from-IsConsistent s [] f v = v
run_from-IsConsistent s (c ∷ cs) f v =
    run_from-IsConsistent (apply s c) cs f.1 (apply-IsConsistent s c f.0 v)

-- Whatever commands a new store is given, its topics, its index by name and its partitions agree:
-- each name leads to the topic of that name, each topic stands under its id and name, and the
-- partitions of a topic are those numbered below its count, with no orphans. Topics must be
-- created under ids that are not in use.
pub run-IsConsistent : (cs : List Command) → AllFresh new_store cs → IsConsistent (run new_store cs)
run-IsConsistent cs f = run_from-IsConsistent new_store cs f new_store-IsConsistent

-- In a consistent store a lookup by name never meets a missing topic.
get_topic_by_name_safe :
    (s : Store) (name : String) → IsConsistent s → get_topic_by_name s name ≢ fault
unfolding get_topic_by_name
get_topic_by_name_safe s name v h = elim (Option-cases (lookup name s.topics_by_name)) [
  | inl e ↦ ground (arith, h, e)
  | inr (id, e) ↦ let (t, l, n) = v.named name id e in ground (arith, h, e, l)
]
