-- ===== src/Raft/Cluster/Elections.antt =====
-- Elections that are won in a cluster (src/internal/raft/node.go, runCandidate).
use amy_queue.Prelude.{
  ℕ, String, ◌+◌, ◌/◌, ◌≤◌, ◌≡◌, refl, List, [], ◌∷◌, All, All-Occurs, Occurs, IsDistinct, length,
  some, arith, share_element,
}
use amy_queue.Raft.Membership.{voters, count_voters, quorum_size}
use amy_queue.Raft.Node.{Node, leader}
use amy_queue.Raft.Node.Election.{CandidateEvent, open_election}
use amy_queue.Raft.Node.Replication.{Decode}
use amy_queue.Raft.Node.Campaigns.{campaign, granted, IsNoLeader, campaign_lem}
use amy_queue.Raft.Cluster.{Cluster, Moves}
use amy_queue.Raft.Cluster.Ballots.{ballots_agree}

-- The node at `own` counts as voters the nodes at these addresses, itself among them.
pub record Covers (addrs : List String) (own : String) (n : Node) : Type 0 where
  pub count : count_voters n.voters ≡ length addrs
  pub own_in : Occurs own addrs
  pub peers_in : All (λ p. Occurs p addrs) (voters n.cfg.id n.voters)
  pub not_own : ¬ Occurs own (voters n.cfg.id n.voters)

abbrev pub HasBallot : Cluster → ℕ → String → String → Type 0
HasBallot c term id voter =
    Occurs (record { voter = voter; term = term; candidate_id = id }) c.ballots

-- An election of the candidate `n` at the address `own` whose loop ends with the candidate as leader:
-- each vote that it counted is the answer of another of its peers, or its own.
pub record IsWon (c : Cluster) (own : String) (term : ℕ) (n : Node) : Type 0 where
  pub heard : List String
  pub rounds : List (Node × CandidateEvent)
  pub last : Node
  pub own_vote : HasBallot c term n.cfg.id own
  pub once : IsDistinct heard
  pub from_peers : All (λ p. Occurs p (voters n.cfg.id n.voters)) heard
  pub their_votes : All (HasBallot c term n.cfg.id) heard
  pub counted : granted rounds ≡ length heard
  pub no_leader : IsNoLeader rounds
  pub ends : campaign (open_election term n) rounds ≡ some last
  pub leads : last.state ≡ leader

All-in :
    (P Q : String → Type 0) (xs : List String) → ((x : String) → P x → Q x) → All P xs → All Q xs
All-in P Q [] f h = tt
All-in P Q (x ∷ xs) f h = (f x h.0, All-in P Q xs f h.1)

-- The winner's voters, itself included, are more than half of the addresses.
won_half :
    (addrs : List String) (c : Cluster) (own : String) (term : ℕ) (n : Node)
    → Covers addrs own n
    → (w : IsWon c own term n) → length addrs / 2 + 1 ≤ length (own ∷ w.heard)
unfolding open_election quorum_size
won_half addrs c own term n v w =
    let enough = campaign_lem (open_election term n) w.rounds w.last w.no_leader w.ends w.leads in
    omega (arith, enough, v.count, w.counted)

won-IsDistinct :
    (addrs : List String) (c : Cluster) (own : String) (term : ℕ) (n : Node)
    → Covers addrs own n
    → (w : IsWon c own term n)
    → IsDistinct (own ∷ w.heard) × All (λ p. Occurs p addrs) (own ∷ w.heard)
won-IsDistinct addrs c own term n v w =
    let peers = voters n.cfg.id n.voters in
    (
      ((λ o. v.not_own (All-Occurs (λ p. Occurs p peers) w.heard own w.from_peers o)), w.once),
      (
        v.own_in,
        All-in (λ p. Occurs p peers) (λ p. Occurs p addrs) w.heard
            (λ p o. All-Occurs (λ q. Occurs q addrs) peers p v.peers_in o) w.from_peers,
      ),
    )

-- Of the winner's voters each has a ballot for it.
won_ballot :
    (c : Cluster) (own : String) (term : ℕ) (n : Node) (w : IsWon c own term n) (p : String)
    → Occurs p (own ∷ w.heard)
    → HasBallot c term n.cfg.id p
won_ballot c own term n w p o =
    All-Occurs (HasBallot c term n.cfg.id) (own ∷ w.heard) p (w.own_vote, w.their_votes) o

-- A cluster starts without votes, and its nodes exchange requests for votes in any order, between which
-- each may take any other step. If two candidates win elections of the same term, where both count the
-- nodes at the same addresses as voters, then they are the same candidate. Terms do not wrap.
pub one_winner :
    {decode : Decode} (addrs : List String) (start c : Cluster) (a b : String) (term : ℕ)
    (n m : Node)
    → start.ballots ≡ []
    → Moves decode start c
    → Covers addrs a n
    → Covers addrs b m
    → IsWon c a term n
    → IsWon c b term m
    → n.cfg.id ≡ m.cfg.id
one_winner addrs start c a b term n m e r va vb wa wb =
    let (da, ia) = won-IsDistinct addrs c a term n va wa in
    let (db, ib) = won-IsDistinct addrs c b term m vb wb in
    let ha = won_half addrs c a term n va wa in
    let hb = won_half addrs c b term m vb wb in
    let (x, xa, xb) =
      share_element (a ∷ wa.heard) (b ∷ wb.heard) addrs da db ia ib (omega (arith, ha, hb)) in
    ballots_agree _ _ e r (won_ballot c a term n wa x xa) (won_ballot c b term m wb x xb) refl refl
