-- ===== src/Raft/Cluster/Ballots.antt =====
-- No node gives two votes in a term, over all moves of a cluster (src/internal/raft/node.go).
use amy_queue.Prelude.{
  ℕ, String, ◌+◌, ◌<◌, ◌≡◌, ◌≢◌, refl, ap, sym, ◌∙◌, subst, ◌⊎◌, inl, inr, Bool-cases, List, [],
  ◌∷◌, All, Occurs, All-Occurs, arith, ◌==◌, eq_iff, string_eq,
}
use amy_queue.Raft.Node.{Node}
use amy_queue.Raft.Node.Election.{begin_election, handle_vote_request}
use amy_queue.Raft.Node.Replication.{Decode}
use amy_queue.Raft.Node.Steps.{Step, begins, votes}
use amy_queue.Raft.Node.Votes.{KeepsVote, Step-KeepsVote}
use amy_queue.Raft.Node.Safety.{HasVoted, begin_election-HasVoted, handle_vote_request-HasVoted}
use amy_queue.Raft.Cluster.{
  Ballot, Cluster, set_node, moved, cast, Move, alone, stands, grants, Moves, none_yet, then_one,
}

-- The voter is in a later term, or its vote still stands.
abbrev pub IsKept : (String → Node) → Ballot → Type 0
IsKept nodes b =
    (b.term < (nodes b.voter).current_term) ⊎ (HasVoted (nodes b.voter) b.term b.candidate_id)

abbrev AreOne : Ballot → Ballot → Type 0
AreOne b b' = b.voter ≡ b'.voter → b.term ≡ b'.term → b.candidate_id ≡ b'.candidate_id

-- Any two of the ballots that are of the same voter and term are for the same candidate.
abbrev AllOne : List Ballot → Type 0
AllOne [] = Unit
AllOne (b ∷ bs) = All (AreOne b) bs × AllOne bs

abbrev IsNamed : Ballot → Type 0
IsNamed b = b.candidate_id ≢ ""

pub record AreBallots (c : Cluster) : Type 0 where
  pub named : All IsNamed c.ballots
  pub kept : All (IsKept c.node) c.ballots
  pub one : AllOne c.ballots

later_node :
    (n m : Node) (term : ℕ) (id : String)
    → id ≢ ""
    → KeepsVote n m
    → (term < n.current_term) ⊎ HasVoted n term id
    → (term < m.current_term) ⊎ HasVoted m term id
later_node n m term id named k h = ground (arith, named, k, h)

moved_one-IsKept :
    (addr : String) (m : Node) (nodes : String → Node) (b : Ballot)
    → KeepsVote (nodes addr) m
    → IsNamed b
    → IsKept nodes b
    → IsKept (set_node addr m nodes) b
moved_one-IsKept addr m nodes b k named h = elim (Bool-cases (addr == b.voter)) [
  | inl t ↦
      let same : addr ≡ b.voter = (eq_iff addr b.voter).0 t in
      let k' : KeepsVote (nodes b.voter) m = subst (λ x. KeepsVote (nodes x) m) same k in
      rw (t) (later_node (nodes b.voter) m b.term b.candidate_id named k' h)
  | inr f ↦ rw (f) h
]

-- A move of one node keeps the ballots.
moved-IsKept :
    (addr : String) (m : Node) (nodes : String → Node) (bs : List Ballot)
    → KeepsVote (nodes addr) m
    → All IsNamed bs
    → All (IsKept nodes) bs
    → All (IsKept (set_node addr m nodes)) bs
moved-IsKept addr m nodes [] k named h = tt
moved-IsKept addr m nodes (b ∷ bs) k named h =
    (moved_one-IsKept addr m nodes b k named.0 h.0, moved-IsKept addr m nodes bs k named.1 h.1)

cast_same :
    (n : Node) (new b : Ballot)
    → new.term ≡ b.term
    → HasVoted n new.term new.candidate_id
    → (b.term < n.current_term) ⊎ HasVoted n b.term b.candidate_id
    → new.candidate_id ≡ b.candidate_id
cast_same n new b term v (inl late) = absurd (omega (arith, term, v.0, late))
cast_same n new b term v (inr voted) = sym v.1 ∙ voted.1

-- A new vote agrees with the ballots that are kept.
cast-one :
    (nodes : String → Node) (new : Ballot) (bs : List Ballot)
    → HasVoted (nodes new.voter) new.term new.candidate_id
    → All (IsKept nodes) bs
    → All (AreOne new) bs
cast-one nodes new [] v h = tt
cast-one nodes new (b ∷ bs) v h = (
  (λ same term.
      let v' : HasVoted (nodes b.voter) new.term new.candidate_id =
        subst (λ x. HasVoted (nodes x) new.term new.candidate_id) same v in
      cast_same (nodes b.voter) new b term v' h.0),
  cast-one nodes new bs v h.1,
)

-- A node votes: its move, and the ballot.
cast-AreBallots :
    (addr : String) (m : Node) (term : ℕ) (id : String) (c : Cluster)
    → KeepsVote (c.node addr) m
    → id ≢ ""
    → HasVoted m term id
    → AreBallots c
    → AreBallots (cast (record { voter = addr; term = term; candidate_id = id }) (moved addr m c))
cast-AreBallots addr m term id c k named v h =
    let kept = moved-IsKept addr m c.node c.ballots k h.named h.kept in
    let here : HasVoted (set_node addr m c.node addr) term id = rw ((eq_iff addr addr).1 refl) v in
    record {
      named = (named, h.named);
      kept = (inr here, kept);
      one = (
        cast-one (set_node addr m c.node) (record { voter = addr; term = term; candidate_id = id })
            c.ballots here kept,
        h.one,
      );
    }

Move-AreBallots : {decode : Decode} {c d : Cluster} → Move decode c d → AreBallots c → AreBallots d
Move-AreBallots (alone addr m c small st) h = record {
  named = h.named;
  kept = moved-IsKept addr m c.node c.ballots (Step-KeepsVote small st) h.named h.kept;
  one = h.one;
}
Move-AreBallots {decode} (stands addr c small named) h =
    let n = c.node addr in
    let st : Step decode n (begin_election n) = begins n in
    cast-AreBallots addr (begin_election n) (n.current_term + 1) n.cfg.id c
      (Step-KeepsVote small st) named (begin_election-HasVoted n small) h
Move-AreBallots {decode} (grants addr req c small named granted) h =
    let n = c.node addr in
    let st : Step decode n (handle_vote_request req n).0 = votes req n in
    cast-AreBallots addr (handle_vote_request req n).0 req.term req.candidate_id c
      (Step-KeepsVote small st) named (handle_vote_request-HasVoted req n granted) h

Moves-AreBallots :
    {decode : Decode} {c d : Cluster} → Moves decode c d → c.ballots ≡ [] → AreBallots d
Moves-AreBallots {c = c} none_yet e = record {
  named = subst (All IsNamed) (sym e) tt;
  kept = subst (All (IsKept c.node)) (sym e) tt;
  one = subst AllOne (sym e) tt;
}
Moves-AreBallots (then_one r st) e = Move-AreBallots st (Moves-AreBallots r e)

-- Two ballots of a list in which any two of one voter and term agree.
find_one :
    (bs : List Ballot) (b b' : Ballot)
    → AllOne bs
    → Occurs b bs
    → Occurs b' bs
    → b.voter ≡ b'.voter
    → b.term ≡ b'.term
    → b.candidate_id ≡ b'.candidate_id
find_one [] b b' h o o' v t = absurd o
find_one (x ∷ bs) b b' h (inl e) (inl e') v t = ap (λ (y : Ballot). y.candidate_id) (e ∙ sym e')
find_one (x ∷ bs) b b' h (inl e) (inr o') v t =
    subst (λ y. AreOne y b') (sym e) (All-Occurs (AreOne x) bs b' h.0 o') v t
find_one (x ∷ bs) b b' h (inr o) (inl e') v t =
    sym (subst (λ y. AreOne y b) (sym e') (All-Occurs (AreOne x) bs b h.0 o) (sym v) (sym t))
find_one (x ∷ bs) b b' h (inr o) (inr o') v t = find_one bs b b' h.1 o o' v t

-- In a cluster that has started without votes, two ballots of the same voter and term are for the same
-- candidate.
pub ballots_agree :
    {decode : Decode} {c d : Cluster} (b b' : Ballot)
    → c.ballots ≡ []
    → Moves decode c d
    → Occurs b d.ballots
    → Occurs b' d.ballots
    → b.voter ≡ b'.voter
    → b.term ≡ b'.term
    → b.candidate_id ≡ b'.candidate_id
ballots_agree {d = d} b b' e r o o' v t =
    find_one d.ballots b b' (Moves-AreBallots r e).one o o' v t
