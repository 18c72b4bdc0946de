-- ===== src/Raft/Node/Newcomer.antt =====
-- A node that has started and waits to be let into a cluster (src/internal/raft/node.go, NewNode).
use amy_queue.Prelude.{
  ℕ, zero, suc, ◌+◌, ◌<◌, ◌≡◌, refl, ◌∙◌, String, true, false, eq_iff, some, [], arith, ltb, lt→ltb,
  two64, lookup, insert, string_eq,
}
use amy_queue.Raft.Membership.{add_voter, is_voter, new_voter_set}
use amy_queue.Raft.Messages.{AppendEntriesRequest, AppendEntriesResponse}
use amy_queue.Raft.Node.{Node, Config, follower, candidate, new_node, seed_peers}
use amy_queue.Raft.Node.Election.{begin_election, on_election_timeout, step_down}
use amy_queue.Raft.Node.Replication.{Decode, on_append_response, handle_append_entries}

-- Elections in a row, each timed out.
abbrev pub elections : ℕ → Node → Node
elections zero n = n
elections (suc k) n = begin_election (elections k n)

elections-term :
    (k : ℕ) (n : Node)
    → n.current_term + k < two64
    → (elections k n).current_term ≡ n.current_term + k
unfolding begin_election
elections-term zero n h = omega arith
elections-term (suc k) n h = omega (arith, elections-term k n (omega (arith, h)))

elections-state : (k : ℕ) (n : Node) → (elections k n).state ≡ n.state
unfolding begin_election
elections-state zero n = refl
elections-state (suc k) n = elections-state k n

own_voter : (id addr : String) → is_voter id (add_voter id addr new_voter_set) ≡ true
unfolding is_voter add_voter new_voter_set insert lookup
own_voter id addr = rw (is_voter, (eq_iff id id).1 refl) refl

newcomer-voter : (cfg : Config) → cfg.peers ≡ [] → is_voter cfg.id (new_node cfg).voters ≡ true
unfolding new_node seed_peers
newcomer-voter cfg e = rw (e) (own_voter cfg.id cfg.addr)

new_node-term : (cfg : Config) → (new_node cfg).current_term ≡ 0
unfolding new_node
new_node-term cfg = refl

newcomer_campaigns :
    (cfg : Config)
    → cfg.peers ≡ []
    → ((on_election_timeout (new_node cfg)).state ≡ candidate)
      × ((on_election_timeout (new_node cfg)).current_term ≡ 0)
unfolding on_election_timeout is_voter lookup new_node
newcomer_campaigns cfg e = rw (on_election_timeout, newcomer-voter cfg e) (refl, new_node-term cfg)

-- A node without peers, as one that is to join a cluster, is a voter in its own voter set: its first
-- timeout makes it a candidate, and each further one begins an election in the next term. After k of them,
-- it answers a leader of a term below k with its own term, and this answer makes the leader a follower.
pub newcomer_deposes :
    (decode : Decode) (cfg : Config) (k : ℕ) (req : AppendEntriesRequest) (addr : String) (n : Node)
    → cfg.peers ≡ []
    → k < two64
    → req.term < k
    → n.current_term < k
    → let j = elections k (on_election_timeout (new_node cfg)) in
      (j.state ≡ candidate)
      × ((resp : AppendEntriesResponse) × (handle_append_entries decode req j ≡ some (j, resp))
          × ((on_append_response decode addr req resp n).state ≡ follower)
          × ((on_append_response decode addr req resp n).current_term ≡ k))
unfolding handle_append_entries on_append_response step_down
newcomer_deposes decode cfg k req addr n e small old below =
    let start = on_election_timeout (new_node cfg) in
    let (state, zero_term) = newcomer_campaigns cfg e in
    let term : (elections k start).current_term ≡ k =
      omega (arith, zero_term, elections-term k start (omega (arith, zero_term, small))) in
    let refused : ltb req.term (elections k start).current_term ≡ true =
      rw (term) (lt→ltb _ _ old) in
    let higher : ltb n.current_term (elections k start).current_term ≡ true =
      rw (term) (lt→ltb _ _ below) in
    (
      elections-state k start ∙ state,
      (
        record { term = (elections k start).current_term; success = false; next_index = 0 },
        rw (refused) refl,
        rw (higher) refl,
        rw (higher) term,
      ),
    )
