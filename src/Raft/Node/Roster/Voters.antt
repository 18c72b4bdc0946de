-- ===== src/Raft/Node/Roster/Voters.antt =====
-- The steps of a node that leave its voter set alone (src/internal/raft/node.go).
use amy_queue.Prelude.{ℕ, String, ◌≡◌, refl, true, false, List, arith, nat_eq, string_eq}
use amy_queue.Raft.Membership.{Member}
use amy_queue.Raft.Messages.{VoteRequest, VoteResponse, AddVoterRequest, AddVoterResponse}
use amy_queue.Raft.Node.{Node}
use amy_queue.Raft.Node.Election.{
  Election, CandidateEvent, stop, timeout, heartbeat, vote, on_election_timeout, on_vote_response,
  step_down, become_leader, candidate_step, handle_vote_request, decide_vote,
}
use amy_queue.Raft.Node.Replication.{next_for}
use amy_queue.Raft.Node.Admin.{promote_member, on_promotion}

pub expires-voters : (n : Node) → n.voters ≡ (on_election_timeout n).voters
unfolding on_election_timeout
expires-voters n = ground arith

pub hears_vote-voters :
    (resp : VoteResponse) (n : Node) → n.voters ≡ (on_vote_response resp n).voters
unfolding on_vote_response step_down
hears_vote-voters resp n = ground arith

pub campaigns-voters :
    (e : Election) (event : CandidateEvent) (n : Node)
    → n.voters ≡ (candidate_step n e event).0.voters
unfolding candidate_step become_leader
campaigns-voters e stop n = refl
campaigns-voters e timeout n = refl
campaigns-voters e heartbeat n = refl
campaigns-voters e (vote false) n = refl
campaigns-voters e (vote true) n = ground arith

pub votes-voters : (req : VoteRequest) (n : Node) → n.voters ≡ (handle_vote_request req n).0.voters
unfolding handle_vote_request decide_vote step_down
votes-voters req n = ground arith

pub sends-voters : (addr : String) (n : Node) → n.voters ≡ (next_for addr n).0.voters
unfolding next_for
sends-voters addr n = ground arith

pub promote_member-voters :
    (last threshold : ℕ) (m : Member) (n : Node) (calls : List AddVoterRequest)
    → n.voters ≡ (promote_member last threshold m (n, calls)).0.voters
unfolding promote_member
promote_member-voters last threshold m n calls = ground arith

pub promoted-voters :
    (id : String) (resp : AddVoterResponse) (n : Node) → n.voters ≡ (on_promotion id resp n).voters
unfolding on_promotion
promoted-voters id resp n = ground arith
