-- ===== src/Raft/Messages.antt =====
-- src/internal/raft/messages.go and admin.go: the requests and responses of a node.
use amy_queue.Prelude.{ℕ, String, Bool, List}
use amy_queue.Raft.Membership.{Member}
use amy_queue.Raft.Log.{LogEntry}

pub record ObserverJoinRequest : Type 0 where
  pub node_id : String
  pub addr : String

-- `err` is the empty text where there is no error.
pub record ObserverJoinResponse : Type 0 where
  pub success : Bool
  pub leader_id : String
  pub leader_addr : String
  pub err : String

pub record AddVoterRequest : Type 0 where
  pub node_id : String
  pub addr : String

pub record AddVoterResponse : Type 0 where
  pub success : Bool
  pub leader_id : String
  pub leader_addr : String
  pub err : String

pub record RemoveVoterRequest : Type 0 where
  pub node_id : String

pub record RemoveVoterResponse : Type 0 where
  pub success : Bool
  pub leader_id : String
  pub leader_addr : String
  pub err : String

pub record VoteRequest : Type 0 where
  pub term : ℕ  -- uint64
  pub candidate_id : String
  pub last_log_index : ℕ  -- uint64
  pub last_log_term : ℕ  -- uint64

pub record VoteResponse : Type 0 where
  pub term : ℕ  -- uint64
  pub vote_granted : Bool

pub record AppendEntriesRequest : Type 0 where
  pub term : ℕ  -- uint64
  pub leader_id : String
  pub leader_addr : String
  pub prev_log_index : ℕ  -- uint64
  pub prev_log_term : ℕ  -- uint64
  pub entries : List LogEntry
  pub leader_commit : ℕ  -- uint64

pub record AppendEntriesResponse : Type 0 where
  pub term : ℕ  -- uint64
  pub success : Bool
  pub next_index : ℕ  -- uint64

pub record ClusterInfoRequest : Type 0 where

pub record ClusterInfoResponse : Type 0 where
  pub leader_id : String
  pub leader_addr : String
  pub members : List Member

pub record ClusterStatusResponse : Type 0 where
  pub leader_id : String
  pub leader_addr : String
  pub term : ℕ  -- uint64
  pub members : List Member
