-- ===== src/Api/Admin.antt =====
-- src/internal/api/metadata/http/admin.go: the handlers of the administration server.
--
-- net/http and the JSON decoder are not part of the repository: a handler takes what the decoder made
-- of the body, or the path's value, and returns the status and the value that is written as JSON.
-- `between`, `first` and `second` are what the other goroutines do to the node while a call of it does
-- not hold its lock; `polls` are the commit indices that a call that waits reads before its deadline.
-- What happens after the last section of a call is not part of its result.
use amy_queue.Prelude.{ℕ, String, List, ◌==◌, if◌then◌else◌, string_eq}
use amy_queue.Raft.Membership.{MembershipChange}
use amy_queue.Raft.Log.{cmd_membership}
use amy_queue.Raft.Messages.{
  ObserverJoinRequest, ObserverJoinResponse, AddVoterRequest, AddVoterResponse, RemoveVoterRequest,
  RemoveVoterResponse, ClusterStatusResponse,
}
use amy_queue.Raft.Node.{Node, cluster_status}
use amy_queue.Raft.Node.Admin.{
  Encoded, Others, answer, submit, join_as_observer, check_add_voter, check_remove_voter,
  append_command, wait_commit, finish_add_voter, finish_remove_voter,
}

-- What the decoder makes of a body: the request, or the text of its error.
pub data Parsed (R : Type 0) : Type 0 where
  parsed : R → Parsed R
  malformed : String → Parsed R

-- What is written as JSON: the answer, or `{"error": msg}`.
pub data Body (R : Type 0) : Type 0 where
  body : R → Body R
  error : String → Body R

pub record Reply (R : Type 0) : Type 0 where
  pub status : ℕ
  pub content : Body R

-- `writeErr` with 400.
abbrev pub bad_request : {R : Type 0} → String → Reply R
bad_request e = record { status = 400; content = error e }

-- `AddVoter` and `RemoveVoter` of the node. The lock is free between the check and the section that
-- appends, which does not check again.
unfoldable pub add_voter_call :
    (MembershipChange → Encoded)
    → Others
    → List ℕ
    → AddVoterRequest
    → Node
    → Node × AddVoterResponse
add_voter_call encode between polls req n =
    let later = between n in
    elim (check_add_voter encode req n later) [
      | answer resp ↦ (later, resp)
      | submit cmd ↦
          let (n', idx) = append_command cmd_membership cmd later in
          (n', finish_add_voter (wait_commit idx polls))
    ]

unfoldable pub remove_voter_call :
    (MembershipChange → Encoded)
    → Others
    → List ℕ
    → RemoveVoterRequest
    → Node
    → Node × RemoveVoterResponse
remove_voter_call encode between polls req n =
    let later = between n in
    elim (check_remove_voter encode req n later) [
      | answer resp ↦ (later, resp)
      | submit cmd ↦
          let (n', idx) = append_command cmd_membership cmd later in
          (n', finish_remove_voter (wait_commit idx polls))
    ]

unfoldable pub handle_status : Node → Reply ClusterStatusResponse
handle_status n = record { status = 200; content = body (cluster_status n) }

unfoldable pub handle_join :
    (first second : Others) → Parsed ObserverJoinRequest → Node → Node × Reply ObserverJoinResponse
handle_join first second (malformed e) n = (n, bad_request e)
handle_join first second (parsed req) n =
    let (n', resp) = join_as_observer first second req n in
    (n', record { status = if resp.success then 200 else 400; content = body resp })

unfoldable pub handle_add_voter :
    (MembershipChange → Encoded)
    → Others
    → List ℕ
    → Parsed AddVoterRequest
    → Node
    → Node × Reply AddVoterResponse
handle_add_voter encode between polls (malformed e) n = (n, bad_request e)
handle_add_voter encode between polls (parsed req) n =
    let (n', resp) = add_voter_call encode between polls req n in
    (n', record { status = if resp.success then 200 else 400; content = body resp })

unfoldable pub handle_remove_voter :
    (MembershipChange → Encoded)
    → Others
    → List ℕ
    → String
    → Node
    → Node × Reply RemoveVoterResponse
handle_remove_voter encode between polls id n =
    let (n', resp) = remove_voter_call encode between polls (record { node_id = id }) n in
    if id == ""
    then (n, bad_request "missing voter id in path")
    else (n', record { status = if resp.success then 200 else 400; content = body resp })
