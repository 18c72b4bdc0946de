-- ===== src/Raft/Node.antt =====
-- src/internal/raft/node.go: the state of a Raft node and what it answers about itself. A method
-- that holds the node's mutex is one step, a function of the node; transport and logger are left
-- out. The children hold the node's elections, its replication and its administration.
pub mod Election
pub mod Replication
pub mod Admin
pub mod Frames
pub mod Steps
pub mod Votes
pub mod Follower
pub mod Acks
pub mod Commit
pub mod Order
pub mod Campaigns
pub mod Copies
pub mod Roster
pub mod Statics
pub mod Pending
pub mod Promotion
pub mod Probing
pub mod Changes
pub mod Safety
pub mod Waits
pub mod Loop
pub mod Deposed
pub mod Newcomer
use amy_queue.Prelude.{
  ℕ, String, ◌-◌, Bool, true, false, List, [], ◌∷◌, ◌==◌, if◌then◌else◌, Map, insert, get_or,
  string_eq,
}
use amy_queue.Raft.Membership.{
  VoterSet, Member, NodeState, observer, voter, new_voter_set, add_voter, members,
}
use amy_queue.Raft.Log.{Log, new_log, last_index}
use amy_queue.Raft.Messages.{ClusterInfoResponse, ClusterStatusResponse}

pub data State : Type 0 where
  follower candidate leader : State

abbrev pub is_leader : State → Bool
is_leader leader = true
is_leader _ = false

-- `ClusterMode` is a text.
abbrev pub mode_static : String
mode_static = "static"

abbrev pub mode_dynamic : String
mode_dynamic = "dynamic"

pub record Config : Type 0 where
  pub id : String
  pub addr : String
  pub peers : List String
  pub mode : String
  pub election_timeout_ms : ℕ  -- int
  pub heartbeat_ms : ℕ  -- int
  pub auto_promote : Bool
  pub auto_promote_lag_threshold : ℕ  -- int

pub record Node : Type 0 where
  pub cfg : Config
  pub log : Log
  pub voters : VoterSet
  pub state : State
  pub current_term : ℕ  -- uint64
  pub voted_for : String
  pub commit_index : ℕ  -- uint64
  pub last_applied : ℕ  -- uint64
  pub leader_id : String
  pub leader_addr : String
  pub next_index : Map String ℕ
  pub match_index : Map String ℕ
  pub pending_promotion : Map String Bool
  pub elections_started : ℕ  -- uint64
  pub leader_changes : ℕ  -- uint64
  pub heartbeat_failures : Map String ℕ
  pub heartbeat_pending : Bool  -- the one place of the channel `heartbeatC`

-- The loop that seeds the voters with the configured peers; an address stands in for the id.
unfoldable pub seed_peers : List String → VoterSet → VoterSet
seed_peers [] v = v
seed_peers (addr ∷ addrs) v = seed_peers addrs (add_voter addr addr v)

unfoldable pub new_node : Config → Node
new_node cfg = record {
  cfg = record cfg { mode = if cfg.mode == "" then mode_static else cfg.mode };
  log = new_log;
  voters = seed_peers cfg.peers (add_voter cfg.id cfg.addr new_voter_set);
  state = follower;
  current_term = 0;
  voted_for = "";
  commit_index = 0;
  last_applied = 0;
  leader_id = "";
  leader_addr = "";
  next_index = [];
  match_index = [];
  pending_promotion = [];
  elections_started = 0;
  leader_changes = 0;
  heartbeat_failures = [];
  heartbeat_pending = false;
}

unfoldable pub cluster_status : Node → ClusterStatusResponse
cluster_status n = record {
  leader_id = n.leader_id;
  leader_addr = n.leader_addr;
  term = n.current_term;
  members = members n.voters;
}

unfoldable pub handle_cluster_info : Node → ClusterInfoResponse
handle_cluster_info n = record {
  leader_id = n.leader_id;
  leader_addr = n.leader_addr;
  members = members n.voters;
}

pub record MetricsSnapshot : Type 0 where
  pub node_id : String
  pub state : State
  pub term : ℕ
  pub commit_index : ℕ
  pub last_applied : ℕ
  pub leader_id : String
  pub members : List Member
  pub observer_lag : Map String ℕ
  pub elections_started : ℕ
  pub leader_changes : ℕ
  pub heartbeat_failures : Map String ℕ

-- How far an observer is behind; one that is ahead has lag 0, as the truncated `-` says. The two
-- conversions to `int64` are exact for indices below 2 ^ 63, and so for every log in memory.
unfoldable pub lag_of : Node → Member → ℕ
lag_of n m = last_index n.log - get_or m.addr n.match_index 0

unfoldable pub observer_lags : Node → List Member → Map String ℕ → Map String ℕ
observer_lags n [] lags = lags
observer_lags n (m ∷ ms) lags =
    observer_lags n ms (elim m.state [ observer ↦ insert m.id (lag_of n m) lags | voter ↦ lags ])

unfoldable pub metrics_snapshot : Node → MetricsSnapshot
metrics_snapshot n = record {
  node_id = n.cfg.id;
  state = n.state;
  term = n.current_term;
  commit_index = n.commit_index;
  last_applied = n.last_applied;
  leader_id = n.leader_id;
  members = members n.voters;
  observer_lag = if is_leader n.state then observer_lags n (members n.voters) [] else [];
  elections_started = n.elections_started;
  leader_changes = n.leader_changes;
  heartbeat_failures = n.heartbeat_failures;
}
