-- ===== src/Raft/Node/Votes.antt =====
-- Terms and votes over the steps of a node (src/internal/raft/node.go).
mod Grants
pub use Grants.{IsNewEnough, handle_vote_request-granted_iff, granted_state}
use amy_queue.Prelude.{
  ℕ, String, ◌+◌, ◌≤◌, ◌<◌, ◌≡◌, ◌≢◌, ◌↔◌, refl, sym, ◌∙◌, ◌⊎◌, inl, inr, Bool-cases, true, false,
  Option-cases, some, List, arith, ltb, lt→ltb, length, eq_iff, u64, two64, nat_eq, string_eq,
}
use native.Mathlib.Decide.{dec_lt}
use amy_queue.Raft.Membership.{Member}
use amy_queue.Raft.Log.{last_index, last_term}
use amy_queue.Raft.Messages.{
  VoteRequest, VoteResponse, AppendEntriesRequest, AppendEntriesResponse, AddVoterRequest,
  AddVoterResponse,
}
use amy_queue.Raft.Node.{Node}
use amy_queue.Raft.Node.Election.{
  Election, CandidateEvent, stop, timeout, heartbeat, vote, on_election_timeout, take_heartbeat,
  begin_election, on_vote_response, step_down, become_leader, candidate_step, handle_vote_request,
  decide_vote, already_voted, log_ok,
}
use amy_queue.Raft.Node.Replication.{
  Decode, next_for, on_append_failure, on_append_response, handle_append_entries, accept, follow,
  store_entries, prev_matches, back_off, record_match,
}
use amy_queue.Raft.Node.Admin.{
  enroll_observer, track_observer, append_command, promote_member, on_promotion,
}
use amy_queue.Raft.Node.Frames.{SameBase, maybe_advance-SameBase, follow_commit-SameBase}
use amy_queue.Raft.Node.Steps.{
  Step, Reach, expires, beats, begins, hears_vote, campaigns, votes, follows, sends, fails,
  hears_append, enrolls, tracks, submits, promotes, promoted, here, next,
}

-- A later state is in a later term, or in the same term with the same vote, if one was cast.
abbrev pub KeepsVote : Node → Node → Type 0
KeepsVote n m =
    (n.current_term < m.current_term)
    ⊎ ((m.current_term ≡ n.current_term) × ((n.voted_for ≡ "") ⊎ (m.voted_for ≡ n.voted_for)))

SameBase-KeepsVote : (n m : Node) → SameBase n m → KeepsVote n m
SameBase-KeepsVote n m b = inr (b.current_term, inr b.voted_for)

begin-KeepsVote : (n : Node) → n.current_term + 1 < two64 → KeepsVote n (begin_election n)
unfolding begin_election
begin-KeepsVote n h = inl (omega arith)

expires-KeepsVote : (n : Node) → KeepsVote n (on_election_timeout n)
unfolding on_election_timeout
expires-KeepsVote n = ground arith

hears_vote-KeepsVote : (resp : VoteResponse) (n : Node) → KeepsVote n (on_vote_response resp n)
unfolding on_vote_response step_down
hears_vote-KeepsVote resp n = ground arith

campaigns-KeepsVote :
    (e : Election) (event : CandidateEvent) (n : Node) → KeepsVote n (candidate_step n e event).0
unfolding candidate_step become_leader
campaigns-KeepsVote e stop n = ground arith
campaigns-KeepsVote e timeout n = ground arith
campaigns-KeepsVote e heartbeat n = ground arith
campaigns-KeepsVote e (vote false) n = ground arith
campaigns-KeepsVote e (vote true) n = ground arith

votes-KeepsVote : (req : VoteRequest) (n : Node) → KeepsVote n (handle_vote_request req n).0
unfolding handle_vote_request decide_vote already_voted step_down
votes-KeepsVote req n =
    ground (arith, eq_iff n.voted_for "", eq_iff n.voted_for req.candidate_id, eq_iff "" "")

follow-KeepsVote :
    (req : AppendEntriesRequest) (n : Node) → n.current_term ≤ req.term → KeepsVote n (follow req n)
unfolding follow
follow-KeepsVote req n h = ground arith

KeepsVote-SameBase : (n m k : Node) → KeepsVote n m → SameBase m k → KeepsVote n k
KeepsVote-SameBase n m k v b = ground (arith, b.current_term, b.voted_for)

-- What an accepted request leaves: the follower's base, with the log that the request makes.
accept-base :
    (decode : Decode) (old : ℕ) (req : AppendEntriesRequest) (n m : Node)
    (resp : AppendEntriesResponse)
    → accept decode old req n ≡ some (m, resp)
    → (m.current_term ≡ n.current_term) × (m.voted_for ≡ n.voted_for)
unfolding accept
accept-base decode old req n m resp h = elim (Bool-cases (prev_matches req n.log)) [
  | inl e ↦ elim (Option-cases (store_entries req n.log)) [
    | inl s ↦ ground (arith, h, e, s)
    | inr (log, s) ↦
        let b = follow_commit-SameBase decode req.leader_commit (record n { log = log }) in
        ground (arith, h, e, s, b.current_term, b.voted_for)
  ]
  | inr e ↦ ground (arith, h, e)
]

follows-KeepsVote :
    (decode : Decode) (req : AppendEntriesRequest) (n m : Node) (resp : AppendEntriesResponse)
    → handle_append_entries decode req n ≡ some (m, resp)
    → KeepsVote n m
unfolding handle_append_entries
follows-KeepsVote decode req n m resp h = elim (Bool-cases (ltb req.term n.current_term)) [
  | inl e ↦ ground (arith, h, e)
  | inr e ↦
      let kept = follow-KeepsVote req n (ground (arith, e)) in
      let same =
        accept-base decode n.current_term req (follow req n) m resp (ground (arith, h, e)) in
      ground (arith, kept, same)
]

sends-KeepsVote : (addr : String) (n : Node) → KeepsVote n (next_for addr n).0
unfolding next_for
sends-KeepsVote addr n = ground arith

hears_append-KeepsVote :
    (decode : Decode) (addr : String) (req : AppendEntriesRequest) (resp : AppendEntriesResponse)
    (n : Node)
    → KeepsVote n (on_append_response decode addr req resp n)
unfolding on_append_response step_down back_off record_match
hears_append-KeepsVote decode addr req resp n =
    let b =
      maybe_advance-SameBase decode
        (record_match addr (u64 (req.prev_log_index + length req.entries)) n) in
    ground (arith, b.current_term, b.voted_for)

promote_member-SameBase :
    (last threshold : ℕ) (m : Member) (n : Node) (calls : List AddVoterRequest)
    → SameBase n (promote_member last threshold m (n, calls)).0
unfolding promote_member
promote_member-SameBase last threshold m n calls = ground arith

promoted-KeepsVote :
    (id : String) (resp : AddVoterResponse) (n : Node) → KeepsVote n (on_promotion id resp n)
unfolding on_promotion
promoted-KeepsVote id resp n = ground arith

-- Every step keeps the vote of its term, or moves to a later term.
pub Step-KeepsVote :
    {decode : Decode} {n m : Node} → n.current_term + 1 < two64 → Step decode n m → KeepsVote n m
unfolding take_heartbeat on_append_failure append_command enroll_observer track_observer
Step-KeepsVote h (expires n) = expires-KeepsVote n
Step-KeepsVote h (beats n) = inr (refl, inr refl)
Step-KeepsVote h (begins n) = begin-KeepsVote n h
Step-KeepsVote h (hears_vote resp n) = hears_vote-KeepsVote resp n
Step-KeepsVote h (campaigns e event n) = campaigns-KeepsVote e event n
Step-KeepsVote h (votes req n) = votes-KeepsVote req n
Step-KeepsVote {decode} h (follows req resp {n = n} {m = m} e) =
    follows-KeepsVote decode req n m resp e
Step-KeepsVote h (sends addr n) = sends-KeepsVote addr n
Step-KeepsVote h (fails addr n) = inr (refl, inr refl)
Step-KeepsVote {decode} h (hears_append addr req resp n) =
    hears_append-KeepsVote decode addr req resp n
Step-KeepsVote h (enrolls req n) = inr (refl, inr refl)
Step-KeepsVote h (tracks req n) = inr (refl, inr refl)
Step-KeepsVote h (submits kind cmd n) = inr (refl, inr refl)
Step-KeepsVote h (promotes last threshold m calls n) =
    SameBase-KeepsVote n _ (promote_member-SameBase last threshold m n calls)
Step-KeepsVote h (promoted id resp n) = promoted-KeepsVote id resp n

KeepsVote-trans : (n m k : Node) → KeepsVote n m → KeepsVote m k → KeepsVote n k
KeepsVote-trans n m k (inl p) (inl q) = inl (omega arith)
KeepsVote-trans n m k (inl p) (inr (e, q)) = inl (omega arith)
KeepsVote-trans n m k (inr (e, p)) (inl q) = inl (omega arith)
KeepsVote-trans n m k (inr (e, inl p)) (inr (f, q)) = inr (f ∙ e, inl p)
KeepsVote-trans n m k (inr (e, inr p)) (inr (f, inl q)) = inr (f ∙ e, inl (sym p ∙ q))
KeepsVote-trans n m k (inr (e, inr p)) (inr (f, inr q)) = inr (f ∙ e, inr (q ∙ p))

-- Over any run in which the counter of terms does not wrap, a node's term never falls, and a vote
-- that was cast stands until the term ends.
pub Reach-KeepsVote : {decode : Decode} {n m : Node} → Reach decode n m → KeepsVote n m
Reach-KeepsVote {n = n} here = inr (refl, inr refl)
Reach-KeepsVote {n = n} (next {m} {k} r h st) =
    KeepsVote-trans n m k (Reach-KeepsVote r) (Step-KeepsVote h st)

-- A node that has granted its vote to a candidate grants no vote to another one in the same term,
-- whatever happens in between; the counter of terms does not wrap, and the first candidate's id is
-- not empty.
pub one_vote_per_term :
    {decode : Decode} (first second : VoteRequest) (n m : Node)
    → first.candidate_id ≢ ""
    → (handle_vote_request first n).1.vote_granted ≡ true
    → Reach decode (handle_vote_request first n).0 m
    → (handle_vote_request second m).1.vote_granted ≡ true
    → second.term ≡ first.term
    → second.candidate_id ≡ first.candidate_id
one_vote_per_term first second n m named granted r again same =
    let (v, t) = granted_state first n granted in
    let kept = Reach-KeepsVote r in
    let now = (handle_vote_request-granted_iff second m).0 again in ground (arith, v, t, kept, now)
