-- ===== src/Examples/Nodes/Contests.antt =====
-- An election in a cluster of three nodes, which the first of them wins.
use amy_queue.Prelude.{
  Occurs, String, ◌≡◌, refl, inl, inr, true, List, [], ◌∷◌, arith, apart, ◌==◌, if◌then◌else◌,
  string_eq, nat_eq,
}
use amy_queue.Raft.Log.{last_index, last_term, last_entry}
use amy_queue.Raft.Membership.{voters, count_voters, quorum_size}
use amy_queue.Raft.Messages.{VoteRequest, AppendEntriesRequest, AppendEntriesResponse}
use amy_queue.Raft.Node.{Node, new_node}
use amy_queue.Raft.Node.Replication.{follow}
use amy_queue.Raft.Node.Election.{
  begin_election, open_election, vote, candidate_step, become_leader, handle_vote_request,
  decide_vote, already_voted, log_ok, step_down,
}
use amy_queue.Raft.Node.Campaigns.{campaign}
use amy_queue.Raft.Cluster.{Cluster, Moves, none_yet, then_one, stands, grants, moved, cast}
use amy_queue.Raft.Cluster.Elections.{Covers, IsWon, one_winner}
use amy_queue.Examples.Nodes.{decode_nothing, config, node}

abbrev n2 : Node
n2 = record node { cfg = record config { id = "n2"; addr = "a2" } }

abbrev start : Cluster
start = record { node = λ addr. if addr == "a2" then n2 else node; ballots = [] }

abbrev addrs : List String
addrs = "a1" ∷ "a2" ∷ "a3" ∷ []

abbrev winner : Node
winner = begin_election node

abbrev stood : Cluster
stood = cast (record { voter = "a1"; term = 2; candidate_id = "n1" }) (moved "a1" winner start)

abbrev request : VoteRequest
request = record { term = 2; candidate_id = "n1"; last_log_index = 2; last_log_term = 1 }

abbrev voted : Cluster
voted =
    cast (record { voter = "a2"; term = 2; candidate_id = "n1" })
      (moved "a2" (handle_vote_request request n2).0 stood)

n2-granted : (handle_vote_request request n2).1.vote_granted ≡ true
unfolding handle_vote_request decide_vote already_voted log_ok step_down last_index last_term
    last_entry
n2-granted = refl

both-Moves : Moves decode_nothing start voted
both-Moves =
    then_one (then_one none_yet (stands "a1" start (omega arith) (apart "n1" "" refl)))
      (grants "a2" request stood (omega arith) (apart "n1" "" refl) n2-granted)

own_addr_new : ¬ Occurs "a1" config.peers
own_addr_new o = elim o [
  | inl e ↦ apart "a1" "a2" refl e
  | inr (inl e) ↦ apart "a1" "a3" refl e
  | inr (inr e) ↦ e
]

winner-Covers : Covers addrs "a1" winner
unfolding begin_election voters count_voters
winner-Covers = record {
  count = refl;
  own_in = inl refl;
  peers_in = (inr (inl refl), (inr (inr (inl refl)), tt));
  not_own = own_addr_new;
}

winner-IsWon : IsWon voted "a1" 2 winner
unfolding begin_election voters count_voters quorum_size open_election campaign candidate_step
    become_leader
winner-IsWon = record {
  heard = "a2" ∷ [];
  rounds = (winner, vote true) ∷ [];
  last = become_leader winner;
  own_vote = inr (inl refl);
  once = ((λ o. o), tt);
  from_peers = (inl refl, tt);
  their_votes = (inl refl, tt);
  counted = refl;
  no_leader = ((λ e. ground (arith, e)), tt);
  ends = refl;
  leads = refl;
}

one_winner_example : winner.cfg.id ≡ winner.cfg.id
one_winner_example =
    one_winner addrs start voted "a1" "a1" 2 winner winner refl both-Moves winner-Covers
      winner-Covers winner-IsWon winner-IsWon

-- The node that has just started hears from its leader, which it knows by its address alone.
abbrev heartbeat : AppendEntriesRequest
heartbeat = record {
  term = 1;
  leader_id = "n2";
  leader_addr = "a2";
  prev_log_index = 0;
  prev_log_term = 0;
  entries = [];
  leader_commit = 0;
}

abbrev heard : Node
heard = follow heartbeat (new_node config)

abbrev accepts : AppendEntriesResponse
accepts = record { term = 1; success = true; next_index = 0 }
