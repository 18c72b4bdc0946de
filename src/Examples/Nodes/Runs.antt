-- ===== src/Examples/Nodes/Runs.antt =====
-- Runs of a node from its start.
use amy_queue.Prelude.{◌+◌, ◌<◌, ◌≡◌, refl, true, some, [], arith, two64, nat_eq, string_eq}
use amy_queue.Raft.Messages.{AppendEntriesRequest, AppendEntriesResponse}
use amy_queue.Raft.Node.{Node, new_node}
use amy_queue.Raft.Node.Election.{begin_election}
use amy_queue.Raft.Node.Replication.{
  handle_append_entries, accept, follow, store_entries, prev_matches, follow_commit,
}
use amy_queue.Raft.Node.Steps.{Reach, here, next, begins, follows}
use amy_queue.Raft.Node.Commit.{IsOrdered}
use amy_queue.Raft.Node.Order.Runs.{NeverCuts, CutsNothing, Reach-IsOrdered}
use amy_queue.Raft.Node.Roster.{HasRoster, Reach-HasRoster}
use amy_queue.Examples.Nodes.{decode_nothing, config}

abbrev start : Node
start = new_node config

abbrev beat : AppendEntriesRequest
beat = record {
  term = 3;
  leader_id = "n2";
  leader_addr = "a2";
  prev_log_index = 0;
  prev_log_term = 0;
  entries = [];
  leader_commit = 0;
}

abbrev answer : AppendEntriesResponse
answer = record { term = 3; success = true; next_index = 0 }

beat_accepted : handle_append_entries decode_nothing beat start ≡ some (follow beat start, answer)
unfolding handle_append_entries accept store_entries prev_matches follow_commit follow new_node
beat_accepted = refl

start-term : start.current_term + 1 < two64
unfolding new_node
start-term = omega arith

followed-term : (follow beat start).current_term + 1 < two64
unfolding follow
followed-term = omega arith

abbrev run : Reach decode_nothing start (begin_election (follow beat start))
run =
    next (next here start-term (follows beat answer beat_accepted)) followed-term
      (begins (follow beat start))

run-NeverCuts : NeverCuts run
unfolding NeverCuts CutsNothing
run-NeverCuts = ((tt, λ s h. absurd (omega (arith, h))), tt)

Reach-IsOrdered_example : IsOrdered (begin_election (follow beat start))
Reach-IsOrdered_example = Reach-IsOrdered config run run-NeverCuts

Reach-HasRoster_example : HasRoster (begin_election (follow beat start))
Reach-HasRoster_example = Reach-HasRoster config run
