-- ===== src/Raft/Node/Promotion.antt =====
-- The promotion of observers over the steps of a node (src/internal/raft/node.go,
-- maybePromoteObservers).
use amy_queue.Prelude.{ℕ, String, ◌≡◌, ◌≢◌, ◌⊎◌, sym, subst, List, arith, nat_eq, string_eq, eq_iff}
use amy_queue.Raft.Membership.{Member}
use amy_queue.Raft.Messages.{AddVoterRequest}
use amy_queue.Raft.Node.{Node, leader}
use amy_queue.Raft.Node.Election.{
  on_election_timeout, take_heartbeat, begin_election, on_vote_response, step_down, candidate_step,
  handle_vote_request, decide_vote,
}
use amy_queue.Raft.Node.Replication.{Decode, next_for, on_append_failure}
use amy_queue.Raft.Node.Admin.{enroll_observer, track_observer, append_command, promote_member}
use amy_queue.Raft.Node.Pending.{
  IsPending, hears_append-IsPending, follows-IsPending, campaigns-IsPending, promotes-IsPending,
  promoted-IsPending, mark,
}
use amy_queue.Raft.Node.Steps.{
  Step, expires, beats, begins, hears_vote, campaigns, votes, follows, sends, fails, hears_append,
  enrolls, tracks, submits, promotes, promoted,
}

-- Neither a promotion of this member fails in the step, nor does the node become leader.
abbrev pub IsQuiet : String → {decode : Decode} {n m : Node} → Step decode n m → Type 0
IsQuiet id (campaigns e event n) = (candidate_step n e event).0.state ≢ leader
IsQuiet id (promoted other resp n) = (resp.err ≡ "") ⊎ (other ≢ id)
IsQuiet id _ = Unit

Step-IsPending :
    (id : String) {decode : Decode} {n m : Node} (s : Step decode n m)
    → IsQuiet id s
    → IsPending id n
    → IsPending id m
unfolding on_election_timeout take_heartbeat begin_election on_vote_response step_down
    handle_vote_request decide_vote next_for on_append_failure enroll_observer track_observer
    append_command
Step-IsPending id (expires n) q h = ground (arith, h)
Step-IsPending id (beats n) q h = h
Step-IsPending id (begins n) q h = h
Step-IsPending id (hears_vote resp n) q h = ground (arith, h)
Step-IsPending id (campaigns e event n) q h = campaigns-IsPending id e event n q h
Step-IsPending id (votes req n) q h = ground (arith, h)
Step-IsPending id {decode} (follows req resp {n = n} {m = m} e) q h =
    follows-IsPending decode id req n m resp e h
Step-IsPending id (sends addr n) q h = ground (arith, h)
Step-IsPending id (fails addr n) q h = h
Step-IsPending id {decode} (hears_append addr req resp n) q h =
    hears_append-IsPending decode id addr req resp n h
Step-IsPending id (enrolls req n) q h = h
Step-IsPending id (tracks req n) q h = h
Step-IsPending id (submits kind cmd n) q h = h
Step-IsPending id (promotes last threshold m calls n) q h =
    promotes-IsPending id last threshold m n calls h
Step-IsPending id (promoted other resp n) q h = promoted-IsPending id other resp n q h

-- Runs of quiet steps.
pub data Quiet (id : String) (decode : Decode) (n : Node) : Node → Type 0 where
  at_once : Quiet id decode n n
  after_one :
      {m k : Node}
      → Quiet id decode n m
      → (s : Step decode m k) → IsQuiet id s
      → Quiet id decode n k

Quiet-IsPending :
    (id : String) {decode : Decode} {n m : Node}
    → Quiet id decode n m
    → IsPending id n
    → IsPending id m
Quiet-IsPending id at_once h = h
Quiet-IsPending id (after_one r s q) h = Step-IsPending id s q (Quiet-IsPending id r h)

starts-IsPending :
    (last threshold : ℕ) (m : Member) (n : Node) (calls : List AddVoterRequest)
    → (promote_member last threshold m (n, calls)).1 ≢ calls
    → IsPending m.id (promote_member last threshold m (n, calls)).0
unfolding promote_member
starts-IsPending last threshold m n calls h =
    ground (arith, h, mark m.id m.id n.pending_promotion, eq_iff m.id m.id)

pending_idle :
    (last threshold : ℕ) (m : Member) (n : Node) (calls : List AddVoterRequest)
    → IsPending m.id n
    → (promote_member last threshold m (n, calls)).1 ≡ calls
unfolding promote_member
pending_idle last threshold m n calls h = ground (arith, h)

-- Once a round of the leader's loop over the members has started the promotion of one, no later round
-- starts another promotion of it, whatever steps are taken in between, as long as no promotion of it
-- fails and the node does not become leader anew. By then the member may have another address or state,
-- and the log another length.
pub promote_member_once :
    {decode : Decode} (last later_last threshold later_threshold : ℕ) (m later_m : Member)
    (n k : Node) (calls later_calls : List AddVoterRequest)
    → (promote_member last threshold m (n, calls)).1 ≢ calls
    → Quiet m.id decode (promote_member last threshold m (n, calls)).0 k
    → later_m.id ≡ m.id
    → (promote_member later_last later_threshold later_m (k, later_calls)).1 ≡ later_calls
promote_member_once last later_last threshold later_threshold m later_m n k calls later_calls h r
      e =
    let pending = Quiet-IsPending m.id r (starts-IsPending last threshold m n calls h) in
    pending_idle later_last later_threshold later_m k later_calls
      (subst (λ id. IsPending id k) (sym e) pending)
