-- ===== src/Examples/Nodes/Elections.antt =====
-- Votes and elections.
use amy_queue.Prelude.{
  Bool, inr, String, not, ◌==◌, apart, ◌+◌, ◌≤◌, ◌<◌, ◌≡◌, ◌≢◌, refl, true, false, some, List, [],
  ◌∷◌, arith, two64, nat_eq, string_eq,
}
use amy_queue.Raft.Log.{last_index, last_term, last_entry}
use amy_queue.Raft.Messages.{VoteRequest, VoteResponse}
use amy_queue.Raft.Node.{Node, follower, leader}
use amy_queue.Raft.Node.Election.{
  Election, CandidateEvent, vote, timeout, handle_vote_request, decide_vote, already_voted, log_ok,
  step_down, take_heartbeat, become_leader, candidate_step, on_vote_response,
}
use amy_queue.Raft.Node.Steps.{Reach, here, next, beats}
use amy_queue.Raft.Node.Votes.{one_vote_per_term}
use amy_queue.Raft.Node.Campaigns.{
  campaign, granted, campaign_lem, campaign_alone, stale_candidate_leads,
}
use amy_queue.Raft.Membership.{Member, members, count_voters, quorum_size}
use amy_queue.Raft.Membership.Quorum.{count_voters_with}
use amy_queue.Raft.Node.Safety.{History, HasVoted}
use amy_queue.Examples.Nodes.{decode_nothing, node, roster}

abbrev request : VoteRequest
request = record { term = 2; candidate_id = "n2"; last_log_index = 2; last_log_term = 1 }

abbrev voted : Node
voted = (handle_vote_request request node).0

voted-granted : (handle_vote_request request node).1.vote_granted ≡ true
unfolding handle_vote_request decide_vote already_voted log_ok step_down last_index last_term
    last_entry
voted-granted = refl

voted-term : voted.current_term + 1 < two64
unfolding handle_vote_request decide_vote already_voted log_ok step_down last_index last_term
    last_entry
voted-term = omega arith

later : Reach decode_nothing voted (take_heartbeat voted)
later = next here voted-term (beats voted)

later-granted : (handle_vote_request request (take_heartbeat voted)).1.vote_granted ≡ true
unfolding handle_vote_request decide_vote already_voted log_ok step_down last_index last_term
    last_entry take_heartbeat
later-granted = refl

one_vote_per_term_example : request.candidate_id ≡ request.candidate_id
one_vote_per_term_example =
    one_vote_per_term request request node (take_heartbeat voted) (apart "n2" "" refl) voted-granted
      later later-granted refl

abbrev election : Election
election = record {
  term = 1;
  votes = 1;
  needed = 2;
  peers = "a2" ∷ "a3" ∷ [];
  request = record { term = 1; candidate_id = "n1"; last_log_index = 2; last_log_term = 1 };
}

abbrev rounds : List (Node × CandidateEvent)
rounds = (node, vote true) ∷ []

no_leader : node.state ≢ leader
no_leader h = cc

elected : campaign election rounds ≡ some (become_leader node)
unfolding campaign candidate_step
elected = refl

leads_now : (become_leader node).state ≡ leader
unfolding become_leader
leads_now = refl

campaign_lem_example : election.needed ≤ election.votes + granted rounds
campaign_lem_example =
    campaign_lem election rounds (become_leader node) (no_leader, tt) elected leads_now

abbrev alone : Election
alone = record election { needed = 1; peers = [] }

abbrev silence : List (Node × CandidateEvent)
silence = (node, timeout) ∷ []

gives_up : campaign alone silence ≡ some node
unfolding campaign candidate_step
gives_up = refl

campaign_alone_example : node.state ≢ leader
campaign_alone_example = campaign_alone alone silence node tt (no_leader, tt) gives_up

abbrev newer : VoteResponse
newer = record { term = 7; vote_granted = false }

stale_candidate_leads_example :
    let m = (candidate_step (on_vote_response newer node) election (vote true)).0 in
    ((on_vote_response newer node).state ≡ follower)
    × (m.state ≡ leader)
    × (m.current_term ≡ newer.term)
    × (election.term < m.current_term)
    × (m.voted_for ≡ "")
stale_candidate_leads_example =
    stale_candidate_leads election newer node refl (omega arith) (omega arith)

abbrev history : String → History decode_nothing
history _ = record { state = λ _. voted; moves = λ _. inr refl; terms = λ _. voted-term }

has_voted : HasVoted voted 2 "n2"
unfolding handle_vote_request decide_vote already_voted log_ok step_down last_index last_term
    last_entry
has_voted = (refl, refl)

abbrev not_n3 : Member → Bool
not_n3 m = not (m.id == "n3")

two_of_three : quorum_size roster ≤ count_voters_with not_n3 (members roster)
unfolding quorum_size count_voters members
two_of_three = omega arith

abbrev winner : String
winner = "n2"
