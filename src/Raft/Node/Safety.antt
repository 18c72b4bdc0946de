-- ===== src/Raft/Node/Safety.antt =====
-- Elections among several nodes: each voter has a history of its own, and two candidates gather votes
-- from it (src/internal/raft/node.go).
use amy_queue.Prelude.{
  Occurs, ℕ, zero, suc, String, ◌+◌, ◌-◌, ◌≤◌, ◌<◌, ◌≡◌, ◌≢◌, refl, sym, subst, ◌⊎◌, inl, inr, Bool,
  true, arith, two64, nat_eq, string_eq,
}
use native.Mathlib.Decide.{dec_lt}
use amy_queue.Raft.Membership.{voter, VoterSet, Member, members, quorum_size}
use amy_queue.Raft.Membership.Quorum.{count_voters_with, quorums_meet}
use amy_queue.Raft.Messages.{VoteRequest}
use amy_queue.Raft.Node.{Node}
use amy_queue.Raft.Node.Election.{begin_election, handle_vote_request}
use amy_queue.Raft.Node.Replication.{Decode}
use amy_queue.Raft.Node.Steps.{Step, Reach, here, next}
use amy_queue.Raft.Node.Votes.{Reach-KeepsVote, granted_state}

-- The states of a node over time: each is a step behind the one before, or the same. The counter of
-- terms does not wrap.
pub record History (decode : Decode) : Type 0 where
  pub state : ℕ → Node
  pub moves : (i : ℕ) → Step decode (state i) (state (suc i)) ⊎ (state (suc i) ≡ state i)
  pub terms : (i : ℕ) → (state i).current_term + 1 < two64

-- The node has given its vote of the term to the candidate.
abbrev pub HasVoted : Node → ℕ → String → Type 0
HasVoted n term id = (n.current_term ≡ term) × (n.voted_for ≡ id)

-- A vote is given by a candidate to itself, and by the answer to a request.
pub begin_election-HasVoted :
    (n : Node)
    → n.current_term + 1 < two64
    → HasVoted (begin_election n) (n.current_term + 1) n.cfg.id
unfolding begin_election
begin_election-HasVoted n h = (omega arith, refl)

pub handle_vote_request-HasVoted :
    (req : VoteRequest) (n : Node)
    → (handle_vote_request req n).1.vote_granted ≡ true
    → HasVoted (handle_vote_request req n).0 req.term req.candidate_id
handle_vote_request-HasVoted req n h = let (v, t) = granted_state req n h in (t, v)

reaches :
    {decode : Decode} (h : History decode) (i k : ℕ) → Reach decode (h.state i) (h.state (i + k))
reaches {decode} h i zero =
    let e : i ≡ i + 0 = omega arith in subst (λ j. Reach decode (h.state i) (h.state j)) e here
reaches {decode} h i (suc k) =
    let e : suc (i + k) ≡ i + suc k = omega arith in
    subst (λ j. Reach decode (h.state i) (h.state j)) e
      (elim (h.moves (i + k)) [
        | inl st ↦ next (reaches h i k) (h.terms (i + k)) st
        | inr same ↦ subst (λ n. Reach decode (h.state i) n) (sym same) (reaches h i k)
      ])

later_vote :
    {decode : Decode} (h : History decode) (i j : ℕ) (term : ℕ) (a b : String)
    → i ≤ j
    → a ≢ ""
    → HasVoted (h.state i) term a
    → HasVoted (h.state j) term b
    → a ≡ b
later_vote {decode} h i j term a b le named first second =
    let e : i + (j - i) ≡ j = omega arith in
    let r = subst (λ k. Reach decode (h.state i) (h.state k)) e (reaches h i (j - i)) in
    let kept = Reach-KeepsVote r in ground (arith, kept, first, second)

-- Over its whole history a node gives its vote of a term to one candidate.
one_candidate :
    {decode : Decode} (h : History decode) (i j : ℕ) (term : ℕ) (a b : String)
    → a ≢ ""
    → b ≢ ""
    → HasVoted (h.state i) term a
    → HasVoted (h.state j) term b
    → a ≡ b
one_candidate h i j term a b na nb first second = elim (dec_lt j i) [
  | yes before ↦ sym (later_vote h j i term b a (omega arith) nb second first)
  | no after ↦ later_vote h i j term a b (omega arith) na first second
]

-- Election safety: if two candidates each have the votes of a majority of the same voter set in one
-- term, they are the same candidate. Every voter that is counted has voted so at some time of its
-- history; histories take any steps, in which the counter of terms does not wrap, and the candidates'
-- ids are not empty.
election_safety :
    {decode : Decode} (history : String → History decode) (v : VoterSet) (p q : Member → Bool)
    (term : ℕ) (a b : String)
    → a ≢ ""
    → b ≢ ""
    → quorum_size v ≤ count_voters_with p (members v)
    → quorum_size v ≤ count_voters_with q (members v)
    → ((m : Member)
        → Occurs m (members v)
        → m.state ≡ voter
        → p m ≡ true
        → (i : ℕ) × HasVoted ((history m.id).state i) term a)
    → ((m : Member)
        → Occurs m (members v)
        → m.state ≡ voter
        → q m ≡ true
        → (i : ℕ) × HasVoted ((history m.id).state i) term b)
    → a ≡ b
election_safety history v p q term a b na nb first second for_a for_b =
    let (m, member, votes, in_p, in_q) = quorums_meet p q v first second in
    let (i, voted_a) = for_a m member votes in_p in
    let (j, voted_b) = for_b m member votes in_q in
    one_candidate (history m.id) i j term a b na nb voted_a voted_b
