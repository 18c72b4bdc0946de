-- ===== src/Raft/Node/Election.antt =====
-- Elections: the follower's timer, the candidate's loop, the votes, and `becomeLeader`
-- (src/internal/raft/node.go). The candidate's goroutines and its loop are separate steps, so other
-- handlers may run between them.
use amy_queue.Prelude.{
  ℕ, String, ◌+◌, Bool, true, false, ◌&&◌, ◌||◌, not, List, [], ◌∷◌, ◌==◌, if◌then◌else◌, ltb, leb,
  Map, insert, u64, nat_eq, string_eq,
}
use amy_queue.Raft.Membership.{is_voter, quorum_size, voters}
use amy_queue.Raft.Log.{last_index, last_term}
use amy_queue.Raft.Messages.{VoteRequest, VoteResponse}
use amy_queue.Raft.Node.{Node, follower, candidate, leader}

-- The term, the state and the vote that follow a higher term.
unfoldable pub step_down : ℕ → Node → Node
step_down term n = record n { current_term = term; state = follower; voted_for = "" }

-- The expired timer of `runFollower`: only voters call elections.
unfoldable pub on_election_timeout : Node → Node
on_election_timeout n = if is_voter n.cfg.id n.voters then record n { state = candidate } else n

-- The heartbeat that `runFollower` takes from the channel.
unfoldable pub take_heartbeat : Node → Node
take_heartbeat n = record n { heartbeat_pending = false }

-- The local variables of `runCandidate`.
pub record Election : Type 0 where
  pub term : ℕ
  pub votes : ℕ
  pub needed : ℕ
  pub peers : List String
  pub request : VoteRequest

-- The first section of `runCandidate`.
unfoldable pub begin_election : Node → Node
begin_election n = record n {
  current_term = u64 (n.current_term + 1);
  voted_for = n.cfg.id;
  elections_started = u64 (n.elections_started + 1);
}

-- What it reads afterwards; `term` is the one that its first section left.
unfoldable pub open_election : ℕ → Node → Election
open_election term n = record {
  term = term;
  votes = 1;
  needed = quorum_size n.voters;
  peers = voters n.cfg.id n.voters;
  request = record {
    term = term;
    candidate_id = n.cfg.id;
    last_log_index = last_index n.log;
    last_log_term = last_term n.log;
  };
}

-- The goroutine of a peer that answered.
unfoldable pub on_vote_response : VoteResponse → Node → Node
on_vote_response resp n = if ltb n.current_term resp.term then step_down resp.term n else n

-- The loop of `becomeLeader` over the other voters.
unfoldable pub reset_peers : List String → ℕ → Map String ℕ → Map String ℕ
reset_peers [] value m = m
reset_peers (addr ∷ addrs) value m = reset_peers addrs value (insert addr value m)

unfoldable pub become_leader : Node → Node
become_leader n = record n {
  state = leader;
  leader_id = n.cfg.id;
  leader_addr = n.cfg.addr;
  next_index = reset_peers (voters n.cfg.id n.voters) (u64 (last_index n.log + 1)) n.next_index;
  match_index = reset_peers (voters n.cfg.id n.voters) 0 n.match_index;
  pending_promotion = [];
}

-- What the loop of `runCandidate` waits for.
pub data CandidateEvent : Type 0 where
  stop timeout heartbeat : CandidateEvent
  vote : Bool → CandidateEvent

-- One round of that loop; the last part tells whether it returns.
unfoldable pub candidate_step : Node → Election → CandidateEvent → Node × Election × Bool
candidate_step n e stop = (n, e, true)
candidate_step n e timeout = (n, e, true)
candidate_step n e heartbeat = (record n { state = follower; heartbeat_pending = false }, e, true)
candidate_step n e (vote false) = (n, e, false)
candidate_step n e (vote true) =
    let e' = record e { votes = e.votes + 1 } in
    if leb e.needed (e.votes + 1) then (become_leader n, e', true) else (n, e', false)

-- The candidate's log is at least as new as the voter's.
unfoldable pub log_ok : Node → VoteRequest → Bool
log_ok n req =
    ltb (last_term n.log) req.last_log_term
    || (req.last_log_term == last_term n.log && leb (last_index n.log) req.last_log_index)

unfoldable pub already_voted : Node → VoteRequest → Bool
already_voted n req = not (n.voted_for == "") && not (n.voted_for == req.candidate_id)

-- `handleVoteRequest` behind its two tests of the term; `old` is the term of the prepared answer.
unfoldable pub decide_vote : ℕ → VoteRequest → Node → Node × VoteResponse
decide_vote old req n =
    if not (already_voted n req) && log_ok n req
    then (
      record n { voted_for = req.candidate_id },
      record { term = n.current_term; vote_granted = true },
    )
    else (n, record { term = old; vote_granted = false })

unfoldable pub handle_vote_request : VoteRequest → Node → Node × VoteResponse
handle_vote_request req n =
    if ltb req.term n.current_term
    then (n, record { term = n.current_term; vote_granted = false })
    else decide_vote n.current_term req
        (if ltb n.current_term req.term then step_down req.term n else n)
