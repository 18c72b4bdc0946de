-- ===== src/Raft/Cluster.antt =====
-- Several nodes that call each other for votes (src/internal/raft/node.go). A node is known by the
-- address that its transport listens at. Between the sections of an election any node may take any
-- other step, and an answer may be read at any later time, or never.
pub mod Ballots
pub mod Elections
pub mod Start
pub mod Follows
use amy_queue.Prelude.{
  ℕ, String, ◌+◌, ◌<◌, ◌≡◌, ◌≢◌, true, List, ◌∷◌, ◌==◌, if◌then◌else◌, two64, string_eq,
}
use amy_queue.Raft.Messages.{VoteRequest}
use amy_queue.Raft.Node.{Node}
use amy_queue.Raft.Node.Election.{begin_election, handle_vote_request}
use amy_queue.Raft.Node.Replication.{Decode}
use amy_queue.Raft.Node.Steps.{Step}

-- A vote that the node at the address gave: the answer to a candidate's request, or a candidate's own.
pub record Ballot : Type 0 where
  pub voter : String
  pub term : ℕ
  pub candidate_id : String

pub record Cluster : Type 0 where
  pub node : String → Node
  pub ballots : List Ballot

abbrev pub set_node : String → Node → (String → Node) → String → Node
set_node addr n nodes x = if addr == x then n else nodes x

abbrev pub moved : String → Node → Cluster → Cluster
moved addr n c = record c { node = set_node addr n c.node }

abbrev pub cast : Ballot → Cluster → Cluster
cast b c = record c { ballots = b ∷ c.ballots }

-- The counter of terms of the node that moves does not wrap, and ids are not empty.
pub data Move (decode : Decode) : Cluster → Cluster → Type 0 where
  -- any step of a node on its own, and any message that is not a vote
  alone :
      (addr : String) (m : Node) (c : Cluster)
      → (c.node addr).current_term + 1 < two64
      → Step decode (c.node addr) m
      → Move decode c (moved addr m c)
  -- the first section of `runCandidate`
  stands :
      (addr : String) (c : Cluster)
      → (c.node addr).current_term + 1 < two64
      → (c.node addr).cfg.id ≢ ""
      → Move decode c (
          cast
            (record {
              voter = addr;
              term = (c.node addr).current_term + 1;
              candidate_id = (c.node addr).cfg.id;
            })
            (moved addr (begin_election (c.node addr)) c))
  -- a request that a node grants
  grants :
      (addr : String) (req : VoteRequest) (c : Cluster)
      → (c.node addr).current_term + 1 < two64
      → req.candidate_id ≢ ""
      → (handle_vote_request req (c.node addr)).1.vote_granted ≡ true
      → Move decode c (
          cast
            (record { voter = addr; term = req.term; candidate_id = req.candidate_id })
            (moved addr (handle_vote_request req (c.node addr)).0 c))

pub data Moves (decode : Decode) (c : Cluster) : Cluster → Type 0 where
  none_yet : Moves decode c c
  then_one : {d e : Cluster} → Moves decode c d → Move decode d e → Moves decode c e
