-- ===== src/Examples/Nodes/Members.antt =====
-- Members, their promotion and the changes of the voters.
use amy_queue.Prelude.{
  none, inl, lookup, List, ◌⊎◌, ◌+◌, u64, ℕ, ◌≤◌, ◌≡◌, ◌≢◌, refl, Bool, true, false, not, ◌==◌,
  some, [], ◌∷◌, arith, nat_eq, string_eq,
}
use amy_queue.Raft.Membership.{
  Member, observer, MembershipChange, is_voter, members, count_voters, quorum_size,
}
use amy_queue.Raft.Membership.Quorum.{count_voters_with}
use amy_queue.Raft.Log.{cmd_data, cmd_membership, last_index}
use amy_queue.Raft.Messages.{AddVoterRequest, AddVoterResponse, RemoveVoterRequest}
use amy_queue.Raft.Node.Election.{step_down}
use amy_queue.Raft.Node.{Node, follower, leader, mode_static}
use amy_queue.Raft.Node.Replication.{Decode, apply_next}
use amy_queue.Raft.Node.Admin.{
  append_command, Encoded, bytes, submit, check_add_voter, check_remove_voter, wait_commit,
  promote_member, on_promotion,
}
use amy_queue.Raft.Node.Steps.{submits, promoted}
use amy_queue.Raft.Node.Promotion.{at_once, after_one, promote_member_once}
use amy_queue.Api.Admin.{parsed, handle_add_voter}
use amy_queue.Api.Answers.{handle_add_voter-status}
use amy_queue.Raft.Node.Changes.{submitted, addition, removal, add_voter_lem, remove_voter_lem}
use amy_queue.Examples.Nodes.{decode_nothing, roster, lead_node}

abbrev not_n3 : Member → Bool
not_n3 m = not (m.id == "n3")

abbrev not_n1 : Member → Bool
not_n1 m = not (m.id == "n1")

two_of_three : quorum_size roster ≤ count_voters_with not_n3 (members roster)
unfolding quorum_size count_voters members
two_of_three = omega arith

others_of_three : quorum_size roster ≤ count_voters_with not_n1 (members roster)
unfolding quorum_size count_voters members
others_of_three = omega arith

abbrev newcomer : Member
newcomer = record { id = "n4"; addr = "a4"; state = observer }

abbrev promoting : Node
promoting = (promote_member 2 10 newcomer (lead_node, [])).0

starts_call : (promote_member 2 10 newcomer (lead_node, [])).1 ≢ []
unfolding promote_member lookup
starts_call h = absurd cc

-- The leader appends a command, and the call that promotes the observer succeeds.
abbrev done : AddVoterResponse
done = record { success = true; leader_id = ""; leader_addr = ""; err = "" }

abbrev busy : Node
busy = on_promotion "n4" done (append_command cmd_data [] promoting).0

promote_member_once_example : (promote_member 3 10 newcomer (busy, [])).1 ≡ []
promote_member_once_example =
    promote_member_once {decode = decode_nothing} 2 3 10 10 newcomer newcomer lead_node busy [] []
      starts_call
      (after_one (after_one at_once (submits cmd_data [] promoting) tt)
        (promoted "n4" done (append_command cmd_data [] promoting).0) (inl refl))
      refl

abbrev join : AddVoterRequest
join = record { node_id = "n4"; addr = "a4" }

abbrev leave : RemoveVoterRequest
leave = record { node_id = "n1" }

abbrev encode : MembershipChange → Encoded
encode _ = bytes (1 ∷ [])

abbrev decode_join : Decode
decode_join _ = some (addition join)

abbrev decode_leave : Decode
decode_leave _ = some (removal leave)

join_submits : check_add_voter encode join lead_node lead_node ≡ submit (1 ∷ [])
unfolding check_add_voter
join_submits = refl

leave_submits : check_remove_voter encode leave lead_node lead_node ≡ submit (1 ∷ [])
unfolding check_remove_voter
leave_submits = refl

add_voter_lem_example :
    (lead_node.state ≡ leader)
    × (lead_node.cfg.mode ≢ mode_static)
    × (is_voter "n4" (apply_next decode_join (submitted (1 ∷ []) lead_node)).voters ≡ true)
add_voter_lem_example =
    add_voter_lem encode decode_join join lead_node lead_node (1 ∷ []) (λ _. refl) join_submits

remove_voter_lem_example :
    (lead_node.state ≡ leader)
    × (lead_node.cfg.mode ≢ mode_static)
    × (is_voter "n1" (apply_next decode_leave (submitted (1 ∷ []) lead_node)).voters ≡ false)
    × (leave.node_id ≡ lead_node.cfg.id
        → (apply_next decode_leave (submitted (1 ∷ []) lead_node)).state ≡ follower)
remove_voter_lem_example =
    remove_voter_lem encode decode_leave leave lead_node lead_node (1 ∷ []) (λ _. refl)
      leave_submits

-- The node learns of a higher term between the check and the append.
abbrev deposes : Node → Node
deposes n = step_down 5 n

handle_add_voter-status_example :
    let r = handle_add_voter encode deposes (2 ∷ 3 ∷ []) (parsed join) lead_node in
    let n = deposes lead_node in
    ((r.1.status ≡ 400) × (r.0 ≡ n))
    ⊎ ((lead_node.state ≡ leader)
        × (lead_node.cfg.mode ≢ mode_static)
        × ((cmd : List ℕ) × (encode (addition join) ≡ bytes cmd)
            × (r.0 ≡ (append_command cmd_membership cmd n).0)
            × (((r.1.status ≡ 200) × (wait_commit (u64 (last_index n.log + 1)) (2 ∷ 3 ∷ []) ≡ none))
                ⊎ ((r.1.status ≡ 400)
                    × (wait_commit (u64 (last_index n.log + 1)) (2 ∷ 3 ∷ []) ≢ none)))))
handle_add_voter-status_example = handle_add_voter-status encode deposes (2 ∷ 3 ∷ []) join lead_node
