-- ===== src/Raft/Transport.antt =====
-- src/internal/raft/transport.go: the callbacks that a transport routes requests to, and those that
-- `Start` (src/internal/raft/node.go) registers.
use amy_queue.Prelude.{Option, some}
use amy_queue.Raft.Messages.{
  VoteRequest, VoteResponse, AppendEntriesRequest, AppendEntriesResponse, ObserverJoinRequest,
  ObserverJoinResponse, ClusterInfoRequest, ClusterInfoResponse,
}
use amy_queue.Raft.Node.{Node, handle_cluster_info}
use amy_queue.Raft.Node.Election.{handle_vote_request}
use amy_queue.Raft.Node.Replication.{Decode, handle_append_entries}
use amy_queue.Raft.Node.Admin.{Others, join_as_observer}

-- A callback on a state: the state after it and its answer, or `none` for a panic.
abbrev pub Callback : Type 0 → Type 0 → Type 0 → Type 0
Callback S Req Resp = Req → S → Option (S × Resp)

pub record Handlers (S : Type 0) : Type 0 where
  pub on_vote_request : Callback S VoteRequest VoteResponse
  pub on_append_entries : Callback S AppendEntriesRequest AppendEntriesResponse
  pub on_observer_join : Callback S ObserverJoinRequest ObserverJoinResponse
  pub on_cluster_info : Callback S ClusterInfoRequest ClusterInfoResponse

-- The handlers that `Start` registers. `first` and `second` are what the other goroutines do to the
-- node while a join does not hold its lock.
unfoldable pub node_handlers : (first second : Others) → Decode → Handlers Node
node_handlers first second decode = record {
  on_vote_request = λ req n. some (handle_vote_request req n);
  on_append_entries = handle_append_entries decode;
  on_observer_join = λ req n. some (join_as_observer first second req n);
  on_cluster_info = λ req n. some (n, handle_cluster_info n);
}
