-- ===== src/Raft/Node/Pending.antt =====
-- The promotions that a node has started, over the sections of its code that touch more than a field
-- or two (src/internal/raft/node.go).
use amy_queue.Prelude.{
  ℕ, zero, suc, ◌+◌, String, ◌-◌, ◌≡◌, ◌≢◌, ◌⊎◌, Map, sym, subst, inl, inr, Bool-cases, Bool, true,
  false, some, List, length, arith, if◌then◌else◌, ltb, min, ◌==◌, get_or, insert, lookup-insert,
  lookup-delete_ne, u64, nat_eq, string_eq, eq_iff,
}
use amy_queue.Raft.Membership.{Member, MembershipChange}
use amy_queue.Raft.Log.{last_index}
use amy_queue.Raft.Messages.{
  AppendEntriesRequest, AppendEntriesResponse, AddVoterRequest, AddVoterResponse,
}
use amy_queue.Raft.Node.{Node, leader}
use amy_queue.Raft.Node.Election.{
  Election, CandidateEvent, stop, timeout, heartbeat, vote, step_down, become_leader,
  candidate_step,
}
use amy_queue.Raft.Node.Replication.{
  Decode, apply_change, apply_committed, advance_from, can_commit, maybe_advance_commit_index,
  on_append_response, back_off, record_match, handle_append_entries, follow_commit, follow,
}
use amy_queue.Raft.Node.Admin.{promote_member, on_promotion}
use amy_queue.Raft.Node.Frames.{
  apply_rounds_inv, advance_from-zero, advance_from-suc-true, advance_from-suc-false,
}
use amy_queue.Raft.Node.Order.Runs.{accept-inv}

-- A promotion of the member with this id has been started, and has not failed.
abbrev pub IsPending : String → Node → Type 0
IsPending id n = get_or id n.pending_promotion false ≡ true

SamePending-IsPending :
    (id : String) (n m : Node)
    → m.pending_promotion ≡ n.pending_promotion
    → IsPending id n
    → IsPending id m
SamePending-IsPending id n m e h = rw e h

change-IsPending :
    (id : String) (mc : MembershipChange) (m : Node)
    → IsPending id m
    → IsPending id (apply_change mc m)
unfolding apply_change
change-IsPending id mc m k = ground (arith, k)

committed-IsPending :
    (decode : Decode) (id : String) (n : Node)
    → IsPending id n
    → IsPending id (apply_committed decode n)
unfolding apply_committed
committed-IsPending decode id n h =
    apply_rounds_inv (IsPending id) decode (λ m k. k) (change-IsPending id) _ n h

advance-IsPending :
    (decode : Decode) (id : String) (left : ℕ) (n : Node)
    → IsPending id n
    → IsPending id (advance_from decode left n)
advance-IsPending decode id zero n h = subst (IsPending id) (advance_from-zero decode n) h
advance-IsPending decode id (suc left) n h =
    elim (Bool-cases (can_commit n (n.commit_index + suc left))) [
      | inl e ↦
          subst (IsPending id) (sym (advance_from-suc-true decode left n e)) (
            committed-IsPending decode id (record n { commit_index = n.commit_index + suc left }) h)
      | inr e ↦
          subst (IsPending id) (sym (advance_from-suc-false decode left n e))
            (advance-IsPending decode id left n h)
    ]

back_off-pending :
    (addr : String) (resp : AppendEntriesResponse) (n : Node)
    → (back_off addr resp n).pending_promotion ≡ n.pending_promotion
unfolding back_off
back_off-pending addr resp n = ground arith

pub hears_append-IsPending :
    (decode : Decode) (id addr : String) (req : AppendEntriesRequest) (resp : AppendEntriesResponse)
    (n : Node)
    → IsPending id n
    → IsPending id (on_append_response decode addr req resp n)
unfolding on_append_response step_down record_match maybe_advance_commit_index back_off
hears_append-IsPending decode id addr req resp n h =
    let m = record_match addr (u64 (req.prev_log_index + length req.entries)) n in
    let advanced = advance-IsPending decode id (last_index m.log - m.commit_index) m h in
    elim (Bool-cases (ltb n.current_term resp.term)) [
      | inl e ↦ rw e h
      | inr e ↦ elim (Bool-cases resp.success) [
        | inl s ↦ rw (e, s) advanced
        | inr s ↦
            rw (e, s)
              (SamePending-IsPending id n (back_off addr resp n) (back_off-pending addr resp n) h)
      ]
    ]

follow_commit-IsPending :
    (decode : Decode) (id : String) (leader_commit : ℕ) (n : Node)
    → IsPending id n
    → IsPending id (follow_commit decode leader_commit n)
unfolding follow_commit
follow_commit-IsPending decode id leader_commit n h =
    elim (Bool-cases (ltb n.commit_index leader_commit)) [
      | inl e ↦ rw e (
          committed-IsPending decode id
            (record n { commit_index = min leader_commit (last_index n.log) }) h)
      | inr e ↦ rw e h
    ]

pub follows-IsPending :
    (decode : Decode) (id : String) (req : AppendEntriesRequest) (n m : Node)
    (resp : AppendEntriesResponse)
    → handle_append_entries decode req n ≡ some (m, resp)
    → IsPending id n
    → IsPending id m
unfolding handle_append_entries follow
follows-IsPending decode id req n m resp e h = elim (Bool-cases (ltb req.term n.current_term)) [
  | inl old ↦ let same : n ≡ m = ground (arith, e, old) in subst (IsPending id) same h
  | inr new ↦
      elim (accept-inv decode n.current_term req (follow req n) m resp (ground (arith, e, new))) [
        | inl k ↦ subst (IsPending id) (sym k) h
        | inr (log, s, k, _) ↦ subst (IsPending id) k (
            follow_commit-IsPending decode id req.leader_commit
              (record (follow req n) { log = log }) h)
      ]
]

pub campaigns-IsPending :
    (id : String) (e : Election) (event : CandidateEvent) (n : Node)
    → (candidate_step n e event).0.state ≢ leader
    → IsPending id n
    → IsPending id (candidate_step n e event).0
unfolding candidate_step become_leader
campaigns-IsPending id e stop n c h = h
campaigns-IsPending id e timeout n c h = h
campaigns-IsPending id e heartbeat n c h = h
campaigns-IsPending id e (vote false) n c h = h
campaigns-IsPending id e (vote true) n c h = ground (arith, c, h)

pub mark :
    (x m : String) (p : Map String Bool)
    → get_or x (insert m true p) false ≡ (if m == x then true else get_or x p false)
mark x m p = ground (arith, lookup-insert m x true p)

pub promotes-IsPending :
    (id : String) (last threshold : ℕ) (m : Member) (n : Node) (calls : List AddVoterRequest)
    → IsPending id n
    → IsPending id (promote_member last threshold m (n, calls)).0
unfolding promote_member
promotes-IsPending id last threshold m n calls h =
    ground (arith, h, mark id m.id n.pending_promotion)

pub promoted-IsPending :
    (id other : String) (resp : AddVoterResponse) (n : Node)
    → (resp.err ≡ "") ⊎ (other ≢ id)
    → IsPending id n
    → IsPending id (on_promotion other resp n)
unfolding on_promotion
promoted-IsPending id other resp n (inl e) h = ground (arith, h, eq_iff resp.err "", e)
promoted-IsPending id other resp n (inr ne) h =
    ground (arith, h, lookup-delete_ne other id n.pending_promotion ne)
