-- ===== src/Raft/Node/Campaigns.antt =====
-- The candidate's loop as a whole (src/internal/raft/node.go, runCandidate).
use amy_queue.Prelude.{
  ℕ, suc, ◌+◌, ◌≤◌, ◌<◌, ◌≡◌, ◌≢◌, refl, inl, inr, true, false, Bool-cases, Option, none, some,
  List, [], ◌∷◌, arith, if◌then◌else◌, leb, lt→ltb, nat_eq, string_eq,
}
use amy_queue.Raft.Messages.{VoteResponse}
use amy_queue.Raft.Node.{Node, follower, leader}
use amy_queue.Raft.Node.Election.{
  Election, CandidateEvent, stop, timeout, heartbeat, vote, candidate_step, become_leader,
  on_vote_response, step_down,
}

-- The rounds of the loop, each with the node as the other handlers have left it by then; `none` while
-- the loop still waits.
unfoldable pub campaign : Election → List (Node × CandidateEvent) → Option Node
campaign e [] = none
campaign e ((n, event) ∷ rounds) =
    let (m, e', done) = candidate_step n e event in
    let later = campaign e' rounds in if done then some m else later

-- How many votes were granted.
abbrev pub granted : List (Node × CandidateEvent) → ℕ
granted [] = 0
granted ((_, vote true) ∷ rounds) = suc (granted rounds)
granted (_ ∷ rounds) = granted rounds

-- No round finds the node a leader.
abbrev pub IsNoLeader : List (Node × CandidateEvent) → Type 0
IsNoLeader [] = Unit
IsNoLeader ((n, _) ∷ rounds) = (n.state ≢ leader) × IsNoLeader rounds

-- A candidate that becomes leader has got the votes that it needs, its own included.
pub campaign_lem :
    (e : Election) (rounds : List (Node × CandidateEvent)) (m : Node)
    → IsNoLeader rounds
    → campaign e rounds ≡ some m
    → m.state ≡ leader
    → e.needed ≤ e.votes + granted rounds
unfolding campaign candidate_step become_leader
campaign_lem e [] m c h s = ground (arith, h)
campaign_lem e ((n, stop) ∷ rounds) m c h s = ground (arith, h, s, c.0)
campaign_lem e ((n, timeout) ∷ rounds) m c h s = ground (arith, h, s, c.0)
campaign_lem e ((n, heartbeat) ∷ rounds) m c h s = ground (arith, h, s, c.0)
campaign_lem e ((n, vote false) ∷ rounds) m c h s = campaign_lem e rounds m c.1 h s
campaign_lem e ((n, vote true) ∷ rounds) m c h s = elim (Bool-cases (leb e.needed (e.votes + 1))) [
  | inl k ↦ ground (arith, k)
  | inr k ↦
      let later =
        campaign_lem (record e { votes = e.votes + 1 }) rounds m c.1 (ground (arith, h, k)) s in
      omega (arith, later)
]

-- No vote arrives.
abbrev pub HasNoVote : List (Node × CandidateEvent) → Type 0
HasNoVote [] = Unit
HasNoVote ((_, vote _) ∷ rounds) = ⊥
HasNoVote (_ ∷ rounds) = HasNoVote rounds

-- A candidate to which no vote is sent, as one without peers, never becomes leader, though its own
-- vote may be all that it needs.
pub campaign_alone :
    (e : Election) (rounds : List (Node × CandidateEvent)) (m : Node)
    → HasNoVote rounds
    → IsNoLeader rounds
    → campaign e rounds ≡ some m
    → m.state ≢ leader
unfolding campaign candidate_step
campaign_alone e [] m v c h s = ground (arith, h)
campaign_alone e ((n, stop) ∷ rounds) m v c h s = ground (arith, h, s, c.0)
campaign_alone e ((n, timeout) ∷ rounds) m v c h s = ground (arith, h, s, c.0)
campaign_alone e ((n, heartbeat) ∷ rounds) m v c h s = ground (arith, h, s, c.0)
campaign_alone e ((n, vote b) ∷ rounds) m v c h s = absurd v

-- A candidate that has learned of a higher term, and so is a follower of that term, still becomes
-- leader with the last vote of its old election: of the higher term, which is not the term that the
-- election was for and in which the candidate has not even voted for itself.
pub stale_candidate_leads :
    (e : Election) (resp : VoteResponse) (n : Node)
    → e.term ≡ n.current_term
    → n.current_term < resp.term
    → e.needed ≤ e.votes + 1
    → let m = (candidate_step (on_vote_response resp n) e (vote true)).0 in
      ((on_vote_response resp n).state ≡ follower)
      × (m.state ≡ leader)
      × (m.current_term ≡ resp.term)
      × (e.term < m.current_term)
      × (m.voted_for ≡ "")
unfolding candidate_step become_leader on_vote_response step_down
stale_candidate_leads e resp n own h k =
    let b : leb e.needed (e.votes + 1) ≡ true = ground arith in
    rw (lt→ltb _ _ h, b) (refl, refl, refl, omega arith, refl)
