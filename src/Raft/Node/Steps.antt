-- ===== src/Raft/Node/Steps.antt =====
-- The steps of a node: every section of its code that holds the mutex, in any order, with any
-- message. What the network and the other goroutines do is in the choice of the steps.
use amy_queue.Prelude.{ℕ, String, ◌+◌, ◌<◌, ◌≡◌, List, some, two64}
use amy_queue.Raft.Log.{CommandType}
use amy_queue.Raft.Messages.{
  VoteRequest, VoteResponse, AppendEntriesRequest, AppendEntriesResponse, ObserverJoinRequest,
  AddVoterRequest, AddVoterResponse,
}
use amy_queue.Raft.Membership.{Member}
use amy_queue.Raft.Node.{Node}
use amy_queue.Raft.Node.Election.{
  Election, CandidateEvent, on_election_timeout, take_heartbeat, begin_election, on_vote_response,
  candidate_step, handle_vote_request,
}
use amy_queue.Raft.Node.Replication.{
  Decode, next_for, on_append_failure, on_append_response, handle_append_entries,
}
use amy_queue.Raft.Node.Admin.{
  enroll_observer, track_observer, append_command, promote_member, on_promotion,
}

pub data Step (decode : Decode) : Node → Node → Type 0 where
  expires : (n : Node) → Step decode n (on_election_timeout n)
  beats : (n : Node) → Step decode n (take_heartbeat n)
  begins : (n : Node) → Step decode n (begin_election n)
  hears_vote : (resp : VoteResponse) (n : Node) → Step decode n (on_vote_response resp n)
  campaigns :
      (e : Election) (event : CandidateEvent) (n : Node)
      → Step decode n (candidate_step n e event).0
  votes : (req : VoteRequest) (n : Node) → Step decode n (handle_vote_request req n).0
  follows :
      (req : AppendEntriesRequest) (resp : AppendEntriesResponse) {n m : Node}
      → handle_append_entries decode req n ≡ some (m, resp)
      → Step decode n m
  sends : (addr : String) (n : Node) → Step decode n (next_for addr n).0
  fails : (addr : String) (n : Node) → Step decode n (on_append_failure addr n)
  hears_append :
      (addr : String) (req : AppendEntriesRequest) (resp : AppendEntriesResponse) (n : Node)
      → Step decode n (on_append_response decode addr req resp n)
  enrolls : (req : ObserverJoinRequest) (n : Node) → Step decode n (enroll_observer req n)
  tracks : (req : ObserverJoinRequest) (n : Node) → Step decode n (track_observer req n)
  submits :
      (kind : CommandType) (cmd : List ℕ) (n : Node) → Step decode n (append_command kind cmd n).0
  promotes :
      (last threshold : ℕ) (m : Member) (calls : List AddVoterRequest) (n : Node)
      → Step decode n (promote_member last threshold m (n, calls)).0
  promoted :
      (id : String) (resp : AddVoterResponse) (n : Node) → Step decode n (on_promotion id resp n)

-- Runs in which the counter of terms does not wrap.
pub data Reach (decode : Decode) (n : Node) : Node → Type 0 where
  here : Reach decode n n
  next :
      {m k : Node}
      → Reach decode n m
      → m.current_term + 1 < two64
      → Step decode m k
      → Reach decode n k
