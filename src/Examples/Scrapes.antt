-- ===== src/Examples/Scrapes.antt =====
-- A scrape of a node (src/internal/metrics/collector.go).
use amy_queue.Prelude.{
  ◌+◌, ◌-◌, ◌<◌, refl, arith, [], ◌∷◌, All, length, Unique, lookup, string_eq, if◌then◌else◌,
}
use amy_queue.Raft.Membership.{members, count_voters}
use amy_queue.Raft.Node.{MetricsSnapshot, leader, is_leader, metrics_snapshot}
use amy_queue.Metrics.{
  collect, two53, voter_count_desc, observer_count_desc, member_count_desc, is_leader_desc,
}
use amy_queue.Metrics.Scrape.{IsDescribed, AllApart, collect-AllApart}
use amy_queue.Metrics.Counts.{HasValue, collect_roles}
use amy_queue.Examples.Nodes.{node}

abbrev snapshot : MetricsSnapshot
snapshot = record {
  node_id = "n1";
  state = leader;
  term = 3;
  commit_index = 2;
  last_applied = 2;
  leader_id = "n1";
  members = [];
  observer_lag = ("n4", 0) ∷ ("n5", 7) ∷ [];
  elections_started = 2;
  leader_changes = 1;
  heartbeat_failures = ("a2", 1) ∷ ("a3", 5) ∷ [];
}

lags-Unique : Unique snapshot.observer_lag
unfolding lookup
lags-Unique = (refl, (refl, tt))

failures-Unique : Unique snapshot.heartbeat_failures
unfolding lookup
failures-Unique = (refl, (refl, tt))

collect-AllApart_example : All IsDescribed (collect snapshot) × AllApart (collect snapshot)
collect-AllApart_example = collect-AllApart snapshot lags-Unique failures-Unique

few_members : length (members node.voters) < two53
unfolding members
few_members = omega arith

collect_roles_example :
    let ms = collect (metrics_snapshot node) in
    let observers = length (members node.voters) - count_voters node.voters in
    HasValue ms 5 voter_count_desc (count_voters node.voters)
    × HasValue ms 6 observer_count_desc observers
    × HasValue ms 4 member_count_desc (count_voters node.voters + observers)
    × HasValue ms 1 is_leader_desc (if is_leader node.state then 1 else 0)
collect_roles_example = collect_roles node few_members
