-- ===== src/Examples/Stores.antt =====
-- The metadata store with one topic of three partitions (src/internal/metadata).
use amy_queue.Prelude.{
  inl, inr, ap, String, apart, ◌+◌, ◌≤◌, ◌<◌, ◌≡◌, refl, none, some, false, List, [], ◌∷◌, length,
  min, arith, get_elem?, get_or, lookup, insert, two64, string_eq, nat_eq, pair_eq,
}
use amy_queue.Metadata.Model.{
  PartitionKey, BrokerId, PartitionState, online, ClusterInitPayload, CreateTopicPayload,
  UpdatePartitionPayload,
}
use amy_queue.Metadata.Assignment.Placement.{IsValid}
use amy_queue.Metadata.Store.{
  Store, new_store, Command, cluster_init, create, remove, update, apply, apply_cluster_init,
  apply_create_topic, create_topic, new_topic, apply_update_partition, get_partition,
  list_partitions, leader_counts, count_leaders,
}
use amy_queue.Metadata.Store.Commands.{run, AllFresh, run-IsConsistent}
use amy_queue.Metadata.Store.Consistency.{IsConsistent}
use amy_queue.Metadata.Store.Replay.{apply_twice}
use amy_queue.Metadata.Store.Leadership.{run_updates, first_update_wins, leader_counts_lem, led}
use amy_queue.Metadata.Store.Births.{
  IsNewborn, apply_create_topic-IsNewborn, list_partitions_complete,
}

abbrev pub orders_id : String
orders_id = "t1"

abbrev pub b1 : BrokerId
b1 = "b1"

abbrev pub b2 : BrokerId
b2 = "b2"

abbrev pub b3 : BrokerId
b3 = "b3"

abbrev pub orders : CreateTopicPayload
orders = record {
  topic_id = orders_id;
  name = "orders";
  num_partitions = 3;
  replication_factor = 2;
  internal = false;
  config = record {
    retention_ms = 604800000;
    retention_bytes = 0;
    segment_bytes = 1073741824;
    min_isr = 1;
    max_message_bytes = 1048576;
    cleanup_policy = "delete";
  };
  brokers = b1 ∷ b2 ∷ b3 ∷ [];
}

abbrev pub move : UpdatePartitionPayload
move = record {
  key = (orders_id, 0);
  new_leader = b2;
  new_isr = b2 ∷ [];
  expected_epoch = 0;
  reason = "broker-fenced";
}

abbrev commands : List Command
commands =
    cluster_init (record { cluster_id = "c" })
    ∷ create orders
    ∷ update move
    ∷ remove (record { topic_id = orders_id })
    ∷ []

commands-AllFresh : AllFresh new_store commands
unfolding new_store apply apply_cluster_init lookup
commands-AllFresh = (tt, ((λ _. refl), (tt, (tt, tt))))

run-IsConsistent_example : IsConsistent (run new_store commands)
run-IsConsistent_example = run-IsConsistent commands commands-AllFresh

abbrev created : List Command
created = create orders ∷ []

created-AllFresh : AllFresh new_store created
unfolding new_store lookup
created-AllFresh = ((λ _. refl), tt)

created-topic : lookup orders_id (run new_store created).topics ≡ some (new_topic orders)
unfolding run apply apply_create_topic create_topic new_store lookup insert
created-topic = refl

three : (new_topic orders).num_partitions ≡ 3
unfolding new_topic
three = refl

list_partitions_complete_example :
    let s = run new_store created in
    (ps : List PartitionState) × (list_partitions s orders_id ≡ some ps)
    × (length ps ≡ (new_topic orders).num_partitions)
    × (get_elem? ps 1 ≡ get_partition s (orders_id, 1))
list_partitions_complete_example =
    list_partitions_complete (run new_store created) orders_id (new_topic orders) 1
      (run-IsConsistent created created-AllFresh) created-topic (omega (arith, three))
      (omega (arith, three))

no_leaders : (b : BrokerId) → get_or b (leader_counts new_store) 0 ≤ 0
unfolding leader_counts count_leaders new_store lookup
no_leaders b = omega arith

orders-IsValid :
    IsValid orders.brokers orders.num_partitions orders.replication_factor
      (leader_counts new_store)
      0
orders-IsValid = record {
  some_broker = omega arith;
  different = ground (arith, apart b1 b2 refl, apart b1 b3 refl, apart b2 b3 refl);
  num_positive = omega arith;
  rf_positive = omega arith;
  counts_le = no_leaders;
  fits = omega arith;
}

orders_new : lookup orders.name new_store.topics_by_name ≡ none
unfolding new_store lookup
orders_new = refl

apply_create_topic-IsNewborn_example :
    (q : PartitionState) × (get_partition (apply_create_topic new_store orders) (orders_id, 2)
      ≡ some q)
    × IsNewborn orders.brokers (min 2 3) q
apply_create_topic-IsNewborn_example =
    apply_create_topic-IsNewborn new_store orders 0 orders-IsValid orders_new 2 (omega arith)

apply_twice_example :
    apply (apply new_store (create orders)) (create orders) ≡ apply new_store (create orders)
apply_twice_example = apply_twice new_store (create orders) tt

abbrev no_id : ClusterInitPayload
no_id = record { cluster_id = "" }

no_cluster : new_store.cluster_id ≡ ""
unfolding new_store
no_cluster = refl

first_versions : new_store.version + 2 < two64
unfolding new_store
first_versions = omega arith

abbrev pub first : PartitionState
first = record {
  topic_id = orders_id;
  partition_id = 0;
  status = online;
  replicas = b1 ∷ b2 ∷ [];
  isr = b1 ∷ b2 ∷ [];
  leader = b1;
  leader_epoch = 0;
  partition_epoch = 0;
}

abbrev small_store : Store
small_store = record {
  cluster_id = "c";
  topics =
      (
        orders_id,
        record {
          topic_id = orders_id;
          name = "orders";
          num_partitions = 1;
          replication_factor = 2;
          internal = false;
          config = orders.config;
        },
      )
      ∷ [];
  topics_by_name = ("orders", orders_id) ∷ [];
  partitions = ((orders_id, 0), first) ∷ [];
  version = 2;
}

first_stored : lookup move.key small_store.partitions ≡ some first
unfolding lookup
first_stored = refl

-- A rival that wants another leader, and an update of another partition in between.
abbrev rival : UpdatePartitionPayload
rival = record move { new_leader = b1 }

abbrev elsewhere : UpdatePartitionPayload
elsewhere = record move { key = ("t2", 0) }

first_update_wins_example :
    lookup move.key (run_updates small_store (move ∷ elsewhere ∷ rival ∷ [])).partitions
    ≡ lookup move.key (apply_update_partition small_store move).partitions
first_update_wins_example =
    first_update_wins small_store move (elsewhere ∷ rival ∷ [])
      (inl (λ e. apart "t2" "t1" refl (ap (λ (k : PartitionKey). k.0) e)), (inr (refl, refl), tt))

leader_counts_lem_example : get_or b1 (leader_counts small_store) 0 ≡ led b1 small_store.partitions
leader_counts_lem_example = leader_counts_lem small_store b1 (apart b1 "" refl) (omega arith)
