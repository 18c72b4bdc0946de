-- ===== src/Metrics.antt =====
-- src/internal/metrics/collector.go: a snapshot of a Raft node as Prometheus metrics.
--
-- The Prometheus client is not part of the repository: a `ConstMetric` is a call of its
-- MustNewConstMetric, and what goes into a channel is the list of the values sent. Every value is an
-- integer of at most 64 bits without a sign, converted to float64.
pub mod Scrape
pub mod Counts
use amy_queue.Prelude.{
  ℕ, zero, suc, String, ◌+◌, ◌*◌, ◌/◌, ◌%◌, ◌&&◌, ◌||◌, List, [], ◌∷◌, ◌++◌, ◌==◌, if◌then◌else◌,
  ltb, length, Map, nat_eq,
}
use amy_queue.Raft.Membership.{Member, is_voter_state}
use amy_queue.Raft.Node.{MetricsSnapshot, is_leader}

pub record Desc : Type 0 where
  pub fq_name : String
  pub help : String
  pub variable_labels : List String

pub data ValueType : Type 0 where
  gauge_value counter_value : ValueType

pub record ConstMetric : Type 0 where
  pub desc : Desc
  pub value_type : ValueType
  pub value : ℕ  -- the integer that the float64 is
  pub label_values : List String

-- `ns + "_current_term"` and the others.
abbrev pub labels : List String
labels = "node_id" ∷ []

abbrev pub current_term_desc : Desc
current_term_desc = record {
  fq_name = "amyqueue_raft_current_term";
  help = "Current Raft term.";
  variable_labels = labels;
}

abbrev pub is_leader_desc : Desc
is_leader_desc = record {
  fq_name = "amyqueue_raft_is_leader";
  help = "1 if this node is the current leader, 0 otherwise.";
  variable_labels = labels;
}

abbrev pub commit_index_desc : Desc
commit_index_desc = record {
  fq_name = "amyqueue_raft_commit_index";
  help = "Highest log index committed by a quorum.";
  variable_labels = labels;
}

abbrev pub last_applied_desc : Desc
last_applied_desc = record {
  fq_name = "amyqueue_raft_last_applied";
  help = "Highest log index applied to the state machine.";
  variable_labels = labels;
}

abbrev pub member_count_desc : Desc
member_count_desc = record {
  fq_name = "amyqueue_raft_member_count";
  help = "Total cluster members (voters + observers).";
  variable_labels = labels;
}

abbrev pub voter_count_desc : Desc
voter_count_desc = record {
  fq_name = "amyqueue_raft_voter_count";
  help = "Number of voting members.";
  variable_labels = labels;
}

abbrev pub observer_count_desc : Desc
observer_count_desc = record {
  fq_name = "amyqueue_raft_observer_count";
  help = "Number of observer (non-voting) members.";
  variable_labels = labels;
}

abbrev pub observer_lag_desc : Desc
observer_lag_desc = record {
  fq_name = "amyqueue_raft_observer_lag";
  help = "Log entries the observer is behind the leader (leader only).";
  variable_labels = "node_id" ∷ "observer_id" ∷ [];
}

abbrev pub elections_total_desc : Desc
elections_total_desc = record {
  fq_name = "amyqueue_raft_elections_total";
  help = "Total elections started by this node. A rising value indicates instability.";
  variable_labels = labels;
}

abbrev pub leader_changes_total_desc : Desc
leader_changes_total_desc = record {
  fq_name = "amyqueue_raft_leader_changes_total";
  help = "Total times this node observed a new leader.";
  variable_labels = labels;
}

abbrev pub heartbeat_failures_total_desc : Desc
heartbeat_failures_total_desc = record {
  fq_name = "amyqueue_raft_heartbeat_failures_total";
  help = "Total failed AppendEntries RPCs per peer.";
  variable_labels = "node_id" ∷ "peer" ∷ [];
}

unfoldable pub describe : List Desc
describe =
    current_term_desc ∷ is_leader_desc ∷ commit_index_desc ∷ last_applied_desc ∷ member_count_desc
    ∷ voter_count_desc ∷ observer_count_desc ∷ observer_lag_desc ∷ elections_total_desc
    ∷ leader_changes_total_desc ∷ heartbeat_failures_total_desc ∷ []

abbrev pub two53 : ℕ
two53 = 9007199254740992

-- The unit in the last place of a number: 2 ^ k for as many halvings as bring it below 2 ^ 53.
unfoldable pub unit_of : (fuel : ℕ) → ℕ → ℕ
unit_of zero n = 1
unit_of (suc fuel) n = let rest = unit_of fuel (n / 2) in if ltb n two53 then 1 else 2 * rest

-- To the nearest multiple of the unit, and to the even one of two.
unfoldable pub round_to : (unit n : ℕ) → ℕ
round_to unit n =
    let q = n / unit in
    let r = n % unit in
    if ltb unit (2 * r) || (2 * r == unit && q % 2 == 1) then (q + 1) * unit else q * unit

-- `float64(n)`; 64 bits need 11 halvings.
unfoldable pub float64 : ℕ → ℕ
float64 n = round_to (unit_of 11 n) n

-- The loop over the members.
unfoldable pub count_roles : List Member → ℕ × ℕ → ℕ × ℕ
count_roles [] counts = counts
count_roles (m ∷ ms) counts =
    count_roles ms
      (if is_voter_state m.state then (counts.0 + 1, counts.1) else (counts.0, counts.1 + 1))

abbrev pub const_metric : Desc → ValueType → ℕ → List String → ConstMetric
const_metric desc value_type value label_values = record {
  desc = desc;
  value_type = value_type;
  value = float64 value;
  label_values = label_values;
}

-- The two loops over a map: a metric for each entry.
unfoldable pub range_metrics : Desc → ValueType → String → Map String ℕ → List ConstMetric
range_metrics desc value_type id [] = []
range_metrics desc value_type id ((key, value) ∷ m) =
    const_metric desc value_type value (id ∷ key ∷ []) ∷ range_metrics desc value_type id m

unfoldable pub collect : MetricsSnapshot → List ConstMetric
collect s =
    let ids = s.node_id ∷ [] in
    let (voters, observers) = count_roles s.members (0, 0) in
    const_metric current_term_desc gauge_value s.term ids
    ∷ const_metric is_leader_desc gauge_value (if is_leader s.state then 1 else 0) ids
    ∷ const_metric commit_index_desc gauge_value s.commit_index ids
    ∷ const_metric last_applied_desc gauge_value s.last_applied ids
    ∷ const_metric member_count_desc gauge_value (length s.members) ids
    ∷ const_metric voter_count_desc gauge_value voters ids
    ∷ const_metric observer_count_desc gauge_value observers ids
    ∷ (range_metrics observer_lag_desc gauge_value s.node_id s.observer_lag
        ++ (const_metric elections_total_desc counter_value s.elections_started ids
            ∷ const_metric leader_changes_total_desc counter_value s.leader_changes ids
            ∷ range_metrics heartbeat_failures_total_desc counter_value s.node_id
                s.heartbeat_failures))
