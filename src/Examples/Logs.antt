-- ===== src/Examples/Logs.antt =====
-- Logs between a leader and a follower (src/internal/raft).
use amy_queue.Prelude.{
  zero, suc, two64, String, apart, inr, All, IsDistinct, ◌+◌, ◌*◌, ◌≤◌, ◌<◌, ◌≡◌, ◌≢◌, ◌⊎◌, refl,
  inl, true, false, some, List, [], ◌∷◌, length, arith, insert, lookup, nat_eq, string_eq,
}
use amy_queue.Raft.Membership.{
  new_voter_set, add_voter, add_observer, count_voters, quorum_size, members,
}
use amy_queue.Raft.Log.{Log, LogEntry, entry, last_index, append}
use amy_queue.Raft.Messages.{AppendEntriesRequest, AppendEntriesResponse}
use amy_queue.Raft.Node.{Node}
use amy_queue.Raft.Node.Replication.{
  Broadcast, build_append, handle_append_entries, on_append_response, count_matches, can_commit,
  is_current, maybe_advance_commit_index, advance_from, apply_committed, apply_rounds, apply_next,
}
use amy_queue.Raft.Node.Follower.{Matches, Accepted, Refused, handle_append_entries_lem}
use amy_queue.Raft.Membership.Keys.{
  IsKeyed, new_voter_set-IsKeyed, add_voter-IsKeyed, add_observer-IsKeyed,
}
use amy_queue.Raft.Node.Acks.{IsVoter, HasAcked}
use amy_queue.Raft.Node.Commit.{commit_needs_majority}
use amy_queue.Raft.Node.Copies.{Agree, append_copies}
use amy_queue.Raft.Node.Probing.{next_of, probe, probe_lem}
use amy_queue.Raft.Node.Order.Runs.{stale_append_cuts}
use amy_queue.Examples.Nodes.{decode_nothing, entry_at, one_entry, two_entries, node, lead_node}

abbrev appended : Log
appended = record { sentinel = entry_at 0 0; rest = entry_at 1 1 ∷ entry_at 2 3 ∷ [] }

appends : append two_entries 1 (entry_at 2 3 ∷ []) ≡ some appended
unfolding append
appends = refl

commit_in_log : lead_node.commit_index ≤ last_index lead_node.log
unfolding last_index
commit_in_log = omega arith

two_commits : (maybe_advance_commit_index decode_nothing lead_node).commit_index ≡ 2
unfolding maybe_advance_commit_index advance_from can_commit is_current count_matches quorum_size
    count_voters members last_index entry lookup apply_committed apply_rounds apply_next
two_commits = refl

commit_moves :
    (maybe_advance_commit_index decode_nothing lead_node).commit_index ≢ lead_node.commit_index
commit_moves h = absurd (omega (arith, h, two_commits))

lead_node-IsKeyed : IsKeyed lead_node.voters
unfolding new_voter_set add_voter add_observer insert lookup
lead_node-IsKeyed = add_observer-IsKeyed "n4" "a4" _ (
    add_voter-IsKeyed "n3" "a3" _ (
      add_voter-IsKeyed "n2" "a2" _
        (add_voter-IsKeyed "n1" "a1" new_voter_set new_voter_set-IsKeyed)))

abbrev three : List String
three = "n1" ∷ "n2" ∷ "n3" ∷ []

three_apart : IsDistinct three
three_apart = (
  (λ o. elim o [
    | inl e ↦ apart "n1" "n2" refl e
    | inr (inl e) ↦ apart "n1" "n3" refl e
    | inr (inr e) ↦ e
  ]),
  ((λ o. elim o [ inl e ↦ apart "n2" "n3" refl e | inr e ↦ e ]), ((λ o. o), tt)),
)

three_voters : All (IsVoter lead_node) three
unfolding lookup
three_voters = ((_, refl, refl), ((_, refl, refl), ((_, refl, refl), tt)))

commit_needs_majority_example :
    let idx = (maybe_advance_commit_index decode_nothing lead_node).commit_index in
    (lead_node.commit_index < idx)
    × (idx ≤ last_index lead_node.log)
    × ((e : LogEntry) × (entry lead_node.log idx ≡ some e) × (e.term ≡ lead_node.current_term))
    × ((acks : List String) × IsDistinct acks
        × All (HasAcked lead_node idx) acks
        × (length three < 2 * (1 + length acks)))
commit_needs_majority_example =
    commit_needs_majority decode_nothing lead_node three lead_node-IsKeyed commit_in_log
      commit_moves three_apart three_voters

abbrev replacement : AppendEntriesRequest
replacement = record {
  term = 3;
  leader_id = "n2";
  leader_addr = "a2";
  prev_log_index = 1;
  prev_log_term = 1;
  entries = entry_at 2 3 ∷ [];
  leader_commit = 1;
}

handle_append_entries_lem_example :
    (m : Node) × (resp : AppendEntriesResponse) × (handle_append_entries decode_nothing replacement
        node
      ≡ some (m, resp))
    × (((node.current_term ≤ replacement.term)
          × Matches replacement node.log
          × Accepted replacement node m resp)
        ⊎ (¬ ((node.current_term ≤ replacement.term) × Matches replacement node.log)
            × Refused replacement node m resp))
handle_append_entries_lem_example = handle_append_entries_lem decode_nothing replacement node

abbrev behind : Node
behind = record node { log = one_entry }

abbrev broadcast : Broadcast
broadcast = record {
  term = 1;
  leader_id = "n1";
  leader_addr = "a1";
  commit_index = 0;
  peers = "a2" ∷ "a3" ∷ "a4" ∷ [];
}

agrees : Agree 1 two_entries one_entry
unfolding entry
agrees zero h = refl
agrees (suc zero) h = refl
agrees (suc (suc i)) h = absurd (omega (arith, h))

next_in_log : 2 ≤ suc (last_index two_entries)
unfolding last_index
next_in_log = omega arith

small : last_index two_entries + 1 < two64
unfolding last_index
small = omega arith

append_copies_example :
    let req = build_append broadcast 2 two_entries in
    (m : Node) × (resp : AppendEntriesResponse) × (handle_append_entries decode_nothing req behind
      ≡ some (m, resp))
    × (resp.success ≡ true)
    × Agree (last_index two_entries) two_entries m.log
    × (lookup "a3" (on_append_response decode_nothing "a3" req resp lead_node).match_index
        ≡ some (last_index two_entries))
    × (lookup "a3" (on_append_response decode_nothing "a3" req resp lead_node).next_index
        ≡ some (last_index two_entries + 1))
append_copies_example =
    append_copies decode_nothing broadcast 2 two_entries behind lead_node "a3" (omega arith)
      next_in_log small agrees (omega arith) refl

abbrev refusals : List (AppendEntriesRequest × AppendEntriesResponse)
refusals = (replacement, record { term = 1; success = false; next_index = 0 }) ∷ []

next_is_two : next_of "a3" lead_node ≡ 2
unfolding lookup
next_is_two = refl

probe_lem_example :
    (next_of "a3" (probe decode_nothing "a3" refusals lead_node) ≡ 1)
    × ((b : Broadcast) (l log : Log)
        → Matches
            (build_append b (next_of "a3" (probe decode_nothing "a3" refusals lead_node)) l)
            log)
probe_lem_example =
    probe_lem decode_nothing "a3" refusals lead_node ((refl, omega arith), tt)
      (omega (arith, next_is_two)) (omega (arith, next_is_two))

abbrev stale : AppendEntriesRequest
stale = record {
  term = 1;
  leader_id = "n2";
  leader_addr = "a2";
  prev_log_index = 0;
  prev_log_term = 0;
  entries = entry_at 1 1 ∷ [];
  leader_commit = 0;
}

abbrev committed : Node
committed = record node { commit_index = 2; last_applied = 2 }

stale_append_cuts_example :
    (m : Node) × (resp : AppendEntriesResponse) × (handle_append_entries decode_nothing stale
        committed
      ≡ some (m, resp))
    × (resp.success ≡ true)
    × (last_index m.log < m.commit_index)
stale_append_cuts_example =
    stale_append_cuts decode_nothing stale committed (omega arith) (inl refl) (omega arith)
      (omega arith) (omega arith)
