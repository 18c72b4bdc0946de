-- ===== src/Examples/Replicas.antt =====
-- Two replicas of the store whose maps list two partitions in different orders.
use amy_queue.Prelude.{
  String, ◌≡◌, refl, List, [], ◌∷◌, Map, lookup, SameMap, arith, string_eq, nat_eq, pair_eq, ==_iff,
}
use amy_queue.Metadata.Model.{TopicId, PartitionKey, PartitionState}
use amy_queue.Metadata.Store.{
  Store, Command, create, update, get_topic, get_topic_by_name, get_partition, list_partitions,
}
use amy_queue.Metadata.Store.Commands.{run}
use amy_queue.Metadata.Store.Agreement.{SameStore, replicas_agree}
use amy_queue.Examples.Stores.{orders, move, first, b2}

abbrev logs_id : TopicId
logs_id = "t2"

abbrev p0 : PartitionKey
p0 = (logs_id, 0)

abbrev p1 : PartitionKey
p1 = (logs_id, 1)

abbrev second : PartitionState
second = record first { leader = b2; partition_id = 1 }

abbrev replica : Map PartitionKey PartitionState → Store
replica ps = record {
  cluster_id = "c";
  topics = [];
  topics_by_name = [];
  partitions = ps;
  version = 4;
}

abbrev one_way : Map PartitionKey PartitionState
one_way = (p0, first) ∷ (p1, second) ∷ []

abbrev other_way : Map PartitionKey PartitionState
other_way = (p1, second) ∷ (p0, first) ∷ []

both_ways : SameMap one_way other_way
unfolding lookup
both_ways k = ground (arith, ==_iff p0 k, ==_iff p1 k, ==_iff p0 p1)

replicas-SameStore : SameStore (replica one_way) (replica other_way)
unfolding lookup
replicas-SameStore = record {
  same_id = refl;
  same_version = refl;
  same_topics = λ _. refl;
  same_names = λ _. refl;
  same_partitions = both_ways;
  unique = (refl, (refl, tt));
  unique' = (refl, (refl, tt));
}

abbrev commands : List Command
commands = create orders ∷ update move ∷ []

replicas_agree_example :
    ((id : TopicId)
      → get_topic (run (replica one_way) commands) id
        ≡ get_topic (run (replica other_way) commands) id)
    × ((name : String)
        → get_topic_by_name (run (replica one_way) commands) name
          ≡ get_topic_by_name (run (replica other_way) commands) name)
    × ((key : PartitionKey)
        → get_partition (run (replica one_way) commands) key
          ≡ get_partition (run (replica other_way) commands) key)
    × ((id : TopicId)
        → list_partitions (run (replica one_way) commands) id
          ≡ list_partitions (run (replica other_way) commands) id)
replicas_agree_example =
    replicas_agree (replica one_way) (replica other_way) commands replicas-SameStore
