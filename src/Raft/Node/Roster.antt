-- ===== src/Raft/Node/Roster.antt =====
-- The voter set of a node over all its steps (src/internal/raft/node.go).
mod Voters
use Voters.{
  expires-voters, hears_vote-voters, campaigns-voters, votes-voters, sends-voters,
  promote_member-voters, promoted-voters,
}
use amy_queue.Prelude.{
  ℕ, zero, suc, String, ◌+◌, ◌-◌, ◌≡◌, refl, sym, subst, inl, inr, Bool-cases, true, false, some,
  List, [], ◌∷◌, length, arith, ltb, min, not, ◌&&◌, ◌==◌, u64, nat_eq, string_eq,
}
use amy_queue.Raft.Membership.{
  VoterSet, Member, MembershipAction, MembershipChange, add_voter_action, remove_voter_action,
  other_action, new_voter_set, add_voter,
}
use amy_queue.Raft.Membership.Keys.{
  IsKeyed, new_voter_set-IsKeyed, add_voter-IsKeyed, add_observer-IsKeyed, remove-IsKeyed,
  update_id-IsKeyed,
}
use amy_queue.Raft.Log.{last_index}
use amy_queue.Raft.Messages.{
  VoteRequest, VoteResponse, AppendEntriesRequest, AppendEntriesResponse, AddVoterRequest,
  AddVoterResponse,
}
use amy_queue.Raft.Node.{Node, Config, new_node, seed_peers}
use amy_queue.Raft.Node.Election.{
  Election, CandidateEvent, stop, timeout, heartbeat, vote, on_election_timeout, take_heartbeat,
  begin_election, on_vote_response, step_down, become_leader, candidate_step, handle_vote_request,
  decide_vote,
}
use amy_queue.Raft.Node.Replication.{
  Decode, apply_change, apply_committed, advance_from, can_commit, maybe_advance_commit_index,
  next_for, on_append_failure, on_append_response, back_off, record_match, handle_append_entries,
  follow_commit, follow,
}
use amy_queue.Raft.Node.Admin.{
  enroll_observer, track_observer, append_command, promote_member, on_promotion,
}
use amy_queue.Raft.Node.Frames.{
  apply_rounds_inv, advance_from-zero, advance_from-suc-true, advance_from-suc-false,
}
use amy_queue.Raft.Node.Order.Runs.{accept-inv}
use amy_queue.Raft.Node.Steps.{
  Step, Reach, here, next, expires, beats, begins, hears_vote, campaigns, votes, follows, sends,
  fails, hears_append, enrolls, tracks, submits, promotes, promoted,
}

-- The voter set of a node is keyed by the members' ids.
abbrev pub HasRoster : Node → Type 0
HasRoster n = IsKeyed n.voters

action-HasRoster :
    (action : MembershipAction) (id addr : String) (n : Node)
    → HasRoster n
    → HasRoster (apply_change (record { action = action; node_id = id; addr = addr }) n)
unfolding apply_change
action-HasRoster add_voter_action id addr n v = add_voter-IsKeyed id addr n.voters v
action-HasRoster remove_voter_action id addr n v = remove-IsKeyed id n.voters v
action-HasRoster (other_action _) id addr n v = v

change-HasRoster : (mc : MembershipChange) (n : Node) → HasRoster n → HasRoster (apply_change mc n)
change-HasRoster mc n v = action-HasRoster mc.action mc.node_id mc.addr n v

committed-HasRoster :
    (decode : Decode) (n : Node) → HasRoster n → HasRoster (apply_committed decode n)
unfolding apply_committed
committed-HasRoster decode n v =
    apply_rounds_inv HasRoster decode (λ m k. k) change-HasRoster (n.commit_index - n.last_applied)
      n v

seed-IsKeyed : (addrs : List String) (v : VoterSet) → IsKeyed v → IsKeyed (seed_peers addrs v)
unfolding seed_peers
seed-IsKeyed [] v k = k
seed-IsKeyed (addr ∷ addrs) v k =
    seed-IsKeyed addrs (add_voter addr addr v) (add_voter-IsKeyed addr addr v k)

new_node-HasRoster : (cfg : Config) → HasRoster (new_node cfg)
unfolding new_node
new_node-HasRoster cfg =
    seed-IsKeyed cfg.peers (add_voter cfg.id cfg.addr new_voter_set)
      (add_voter-IsKeyed cfg.id cfg.addr new_voter_set new_voter_set-IsKeyed)

advance-HasRoster :
    (decode : Decode) (left : ℕ) (n : Node) → HasRoster n → HasRoster (advance_from decode left n)
advance-HasRoster decode zero n v = subst HasRoster (advance_from-zero decode n) v
advance-HasRoster decode (suc left) n v =
    elim (Bool-cases (can_commit n (n.commit_index + suc left))) [
      | inl e ↦
          subst HasRoster (sym (advance_from-suc-true decode left n e))
            (committed-HasRoster decode (record n { commit_index = n.commit_index + suc left }) v)
      | inr e ↦
          subst HasRoster (sym (advance_from-suc-false decode left n e))
            (advance-HasRoster decode left n v)
    ]

maybe_advance-HasRoster :
    (decode : Decode) (n : Node) → HasRoster n → HasRoster (maybe_advance_commit_index decode n)
unfolding maybe_advance_commit_index
maybe_advance-HasRoster decode n v =
    advance-HasRoster decode (last_index n.log - n.commit_index) n v

back_off-voters :
    (addr : String) (resp : AppendEntriesResponse) (n : Node)
    → n.voters ≡ (back_off addr resp n).voters
unfolding back_off
back_off-voters addr resp n = ground arith

hears_append-HasRoster :
    (decode : Decode) (addr : String) (req : AppendEntriesRequest) (resp : AppendEntriesResponse)
    (n : Node)
    → HasRoster n
    → HasRoster (on_append_response decode addr req resp n)
unfolding on_append_response step_down back_off record_match
hears_append-HasRoster decode addr req resp n v =
    let matched = u64 (req.prev_log_index + length req.entries) in
    let advanced = maybe_advance-HasRoster decode (record_match addr matched n) v in
    elim (Bool-cases (ltb n.current_term resp.term)) [
      | inl e ↦ rw e v
      | inr e ↦ elim (Bool-cases resp.success) [
        | inl s ↦ rw (e, s) advanced
        | inr s ↦ rw (e, s) (subst IsKeyed (back_off-voters addr resp n) v)
      ]
    ]

follow-HasRoster : (req : AppendEntriesRequest) (n : Node) → HasRoster n → HasRoster (follow req n)
unfolding follow
follow-HasRoster req n v =
    elim (Bool-cases (not (req.leader_id == "") && not (req.leader_addr == ""))) [
      | inl e ↦ rw e (update_id-IsKeyed req.leader_addr req.leader_id n.voters v)
      | inr e ↦ rw e v
    ]

follow_commit-HasRoster :
    (decode : Decode) (leader_commit : ℕ) (n : Node)
    → HasRoster n
    → HasRoster (follow_commit decode leader_commit n)
unfolding follow_commit
follow_commit-HasRoster decode leader_commit n v =
    elim (Bool-cases (ltb n.commit_index leader_commit)) [
      | inl e ↦ rw e (
          committed-HasRoster decode
            (record n { commit_index = min leader_commit (last_index n.log) }) v)
      | inr e ↦ rw e v
    ]

follows-HasRoster :
    (decode : Decode) (req : AppendEntriesRequest) (n m : Node) (resp : AppendEntriesResponse)
    → handle_append_entries decode req n ≡ some (m, resp)
    → HasRoster n
    → HasRoster m
unfolding handle_append_entries
follows-HasRoster decode req n m resp h v = elim (Bool-cases (ltb req.term n.current_term)) [
  | inl e ↦ let old : n ≡ m = ground (arith, h, e) in subst HasRoster old v
  | inr e ↦
      elim (accept-inv decode n.current_term req (follow req n) m resp (ground (arith, h, e))) [
        | inl k ↦ subst HasRoster (sym k) (follow-HasRoster req n v)
        | inr (log, s, k, _) ↦ subst HasRoster k (
            follow_commit-HasRoster decode req.leader_commit (record (follow req n) { log = log })
              (follow-HasRoster req n v))
      ]
]

-- Whatever a node does, its voter set stays keyed by the members' ids: no id is held twice, and each
-- member is found under its own.
pub Step-HasRoster : {decode : Decode} {n m : Node} → Step decode n m → HasRoster n → HasRoster m
unfolding take_heartbeat begin_election on_append_failure append_command enroll_observer
    track_observer
Step-HasRoster (expires n) v = subst IsKeyed (expires-voters n) v
Step-HasRoster (beats n) v = v
Step-HasRoster (begins n) v = v
Step-HasRoster (hears_vote resp n) v = subst IsKeyed (hears_vote-voters resp n) v
Step-HasRoster (campaigns e event n) v = subst IsKeyed (campaigns-voters e event n) v
Step-HasRoster (votes req n) v = subst IsKeyed (votes-voters req n) v
Step-HasRoster {decode} (follows req resp {n = n} {m = m} e) v =
    follows-HasRoster decode req n m resp e v
Step-HasRoster (sends addr n) v = subst IsKeyed (sends-voters addr n) v
Step-HasRoster (fails addr n) v = v
Step-HasRoster {decode} (hears_append addr req resp n) v =
    hears_append-HasRoster decode addr req resp n v
Step-HasRoster (enrolls req n) v = add_observer-IsKeyed req.node_id req.addr n.voters v
Step-HasRoster (tracks req n) v = v
Step-HasRoster (submits kind cmd n) v = v
Step-HasRoster (promotes last threshold m calls n) v =
    subst IsKeyed (promote_member-voters last threshold m n calls) v
Step-HasRoster (promoted id resp n) v = subst IsKeyed (promoted-voters id resp n) v

-- From its start on, a node's voter set is keyed by the members' ids, as long as the counter of terms
-- does not wrap.
pub Reach-HasRoster :
    {decode : Decode} (cfg : Config) {m : Node} → Reach decode (new_node cfg) m → HasRoster m
Reach-HasRoster cfg here = new_node-HasRoster cfg
Reach-HasRoster cfg (next r h st) = Step-HasRoster st (Reach-HasRoster cfg r)
