-- ===== src/Examples/Nodes.antt =====
-- A Raft node among three: votes, elections, members (src/internal/raft).
pub mod Elections
pub mod Members
pub mod Runs
pub mod Contests
pub mod Deposals
use amy_queue.Prelude.{ℕ, String, Bool, true, false, none, List, [], ◌∷◌}
use amy_queue.Raft.Membership.{VoterSet, voter, observer}
use amy_queue.Raft.Log.{LogEntry, Log, cmd_data}
use amy_queue.Raft.Node.{Config, Node, follower, leader}
use amy_queue.Raft.Node.Replication.{Decode}

abbrev pub decode_nothing : Decode
decode_nothing _ = none

abbrev pub config : Config
config = record {
  id = "n1";
  addr = "a1";
  peers = "a2" ∷ "a3" ∷ [];
  mode = "dynamic";
  election_timeout_ms = 300;
  heartbeat_ms = 100;
  auto_promote = true;
  auto_promote_lag_threshold = 10;
}

abbrev pub entry_at : ℕ → ℕ → LogEntry
entry_at index term = record { index = index; term = term; kind = cmd_data; command = [] }

abbrev pub one_entry : Log
one_entry = record { sentinel = entry_at 0 0; rest = entry_at 1 1 ∷ [] }

abbrev pub two_entries : Log
two_entries = record { sentinel = entry_at 0 0; rest = entry_at 1 1 ∷ entry_at 2 1 ∷ [] }

-- Three voters and an observer.
abbrev pub roster : VoterSet
roster =
    ("n1", record { id = "n1"; addr = "a1"; state = voter })
    ∷ ("n2", record { id = "n2"; addr = "a2"; state = voter })
    ∷ ("n3", record { id = "n3"; addr = "a3"; state = voter })
    ∷ ("n4", record { id = "n4"; addr = "a4"; state = observer })
    ∷ []

abbrev pub node : Node
node = record {
  cfg = config;
  log = two_entries;
  voters = roster;
  state = follower;
  current_term = 1;
  voted_for = "";
  commit_index = 0;
  last_applied = 0;
  leader_id = "";
  leader_addr = "";
  next_index = [];
  match_index = [];
  pending_promotion = [];
  elections_started = 0;
  leader_changes = 0;
  heartbeat_failures = [];
  heartbeat_pending = false;
}

-- The same node as a leader that has heard from "n2" and "n4".
abbrev pub lead_node : Node
lead_node = record node {
  state = leader;
  next_index = ("a2", 3) ∷ ("a3", 2) ∷ ("a4", 3) ∷ [];
  match_index = ("a2", 2) ∷ ("a4", 2) ∷ [];
}
