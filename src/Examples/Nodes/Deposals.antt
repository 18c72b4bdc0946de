-- ===== src/Examples/Nodes/Deposals.antt =====
-- A leader that is deposed, and a newcomer that deposes one.
use amy_queue.Prelude.{◌≡◌, refl, true, false, some, [], arith, string_eq, nat_eq}
use amy_queue.Raft.Messages.{AppendEntriesRequest, AppendEntriesResponse}
use amy_queue.Raft.Log.{entry, entries_from, last_index}
use amy_queue.Raft.Node.{Node, Config, follower, candidate, new_node}
use amy_queue.Raft.Node.Election.{on_election_timeout, step_down}
use amy_queue.Raft.Node.Replication.{
  on_append_response, handle_append_entries, accept, follow, follow_commit, prev_matches,
  store_entries, begin_broadcast, build_append,
}
use amy_queue.Raft.Node.Loop.{leader_tick}
use amy_queue.Raft.Node.Deposed.{deposed_leader_sends}
use amy_queue.Raft.Node.Newcomer.{elections, newcomer_deposes}
use amy_queue.Examples.Nodes.{decode_nothing, config, node, lead_node}

abbrev sent : AppendEntriesRequest
sent = record {
  term = 1;
  leader_id = "n1";
  leader_addr = "a1";
  prev_log_index = 2;
  prev_log_term = 1;
  entries = [];
  leader_commit = 0;
}

abbrev refusal : AppendEntriesResponse
refusal = record { term = 5; success = false; next_index = 0 }

abbrev deposed : Node
deposed = on_append_response decode_nothing "a3" sent refusal lead_node

abbrev other : Node
other = record node { cfg = record config { id = "n2"; addr = "a2" } }

abbrev once_more : AppendEntriesRequest
once_more = build_append (leader_tick deposed).0 3 deposed.log

abbrev misled : Node
misled = follow once_more other

taken :
    handle_append_entries decode_nothing once_more other
    ≡ some (misled, record { term = 5; success = true; next_index = 0 })
unfolding handle_append_entries accept follow follow_commit prev_matches store_entries leader_tick
    begin_broadcast build_append on_append_response step_down entry entries_from last_index
taken = refl

deposed_leader_sends_example :
    (deposed.state ≡ follower)
    × (deposed.voted_for ≡ "")
    × ((leader_tick deposed).0.term ≡ 5)
    × ((leader_tick deposed).3 ≡ true)
    × (misled.leader_id ≡ "n1")
deposed_leader_sends_example =
    deposed_leader_sends decode_nothing "a3" sent refusal lead_node other misled 3
      (record { term = 5; success = true; next_index = 0 }) (omega arith) (omega arith) taken

abbrev newcomer : Config
newcomer = record config { id = "n9"; addr = "a9"; peers = [] }

newcomer_deposes_example :
    let j = elections 4 (on_election_timeout (new_node newcomer)) in
    (j.state ≡ candidate)
    × ((resp : AppendEntriesResponse) × (handle_append_entries decode_nothing sent j
          ≡ some (j, resp))
        × ((on_append_response decode_nothing "a9" sent resp lead_node).state ≡ follower)
        × ((on_append_response decode_nothing "a9" sent resp lead_node).current_term ≡ 4))
newcomer_deposes_example =
    newcomer_deposes decode_nothing newcomer 4 sent "a9" lead_node refl (omega arith) (omega arith)
      (omega arith)
