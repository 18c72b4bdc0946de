-- ===== src/Raft/Node/Follower/Commits.antt =====
-- The commit index of a follower (src/internal/raft/node.go, handleAppendEntries).
use amy_queue.Prelude.{
  ℕ, ◌≡◌, inl, inr, Bool-cases, arith, if◌then◌else◌, ltb, min, nat_eq, string_eq,
}
use amy_queue.Raft.Membership.{MembershipChange}
use amy_queue.Raft.Log.{last_index}
use amy_queue.Raft.Node.{Node, follower}
use amy_queue.Raft.Node.Replication.{Decode, apply_change, apply_committed, follow_commit}
use amy_queue.Raft.Node.Frames.{apply_rounds_inv, apply_committed-SameCommit}

-- How the follower's commit index follows the leader's.
abbrev pub followed : ℕ → ℕ → ℕ → ℕ
followed commit leader_commit last =
    if ltb commit leader_commit then min leader_commit last else commit

pub follow_commit-index :
    (decode : Decode) (leader_commit : ℕ) (n : Node)
    → (follow_commit decode leader_commit n).commit_index
      ≡ followed n.commit_index leader_commit (last_index n.log)
unfolding follow_commit
follow_commit-index decode leader_commit n =
    let m = record n { commit_index = min leader_commit (last_index n.log) } in
    let ((b, c), _) = apply_committed-SameCommit decode m in ground (arith, c)

change-follower :
    (mc : MembershipChange) (n : Node) → n.state ≡ follower → (apply_change mc n).state ≡ follower
unfolding apply_change
change-follower mc n h = ground arith

-- Applying entries makes no follower anything else.
pub follow_commit-follower :
    (decode : Decode) (leader_commit : ℕ) (n : Node)
    → n.state ≡ follower
    → (follow_commit decode leader_commit n).state ≡ follower
unfolding follow_commit apply_committed
follow_commit-follower decode leader_commit n h =
    elim (Bool-cases (ltb n.commit_index leader_commit)) [
      | inl e ↦ rw e (
          apply_rounds_inv (λ m. m.state ≡ follower) decode (λ m k. k) change-follower _
            (record n { commit_index = min leader_commit (last_index n.log) }) h)
      | inr e ↦ rw e h
    ]
