-- ===== src/Raft/Node/Commit.antt =====
-- How the commit index moves, and its place between the entries applied and the end of the log
-- (src/internal/raft/node.go).
use amy_queue.Prelude.{
  ℕ, String, List, All, IsDistinct, length, ◌+◌, ◌*◌, ◌≤◌, ◌<◌, ◌≡◌, ◌≢◌, refl, ap, inl, inr, true,
  Option-cases, some, arith, nat_eq, string_eq,
}
use amy_queue.Raft.Membership.{members, count_voters, quorum_size}
use amy_queue.Raft.Log.{LogEntry, entry, last_index}
use amy_queue.Raft.Membership.Keys.{IsKeyed}
use amy_queue.Raft.Node.{Node}
use amy_queue.Raft.Node.Acks.{IsVoter, HasAcked, voters-le, matches_acked}
use amy_queue.Raft.Node.Replication.{
  Decode, apply_committed, count_matches, is_current, can_commit, maybe_advance_commit_index,
}
use amy_queue.Raft.Node.Frames.{
  apply_committed-SameCommit, Advances, stays, commits, maybe_advance-Advances,
}

can_commit_inv :
    (n : Node) (idx : ℕ)
    → can_commit n idx ≡ true
    → ((e : LogEntry) × (entry n.log idx ≡ some e) × (e.term ≡ n.current_term))
      × (count_voters n.voters < 2 * (1 + count_matches n idx (members n.voters)))
unfolding can_commit is_current quorum_size
can_commit_inv n idx h = elim (Option-cases (entry n.log idx)) [
  | inl e ↦ ground (arith, h, e)
  | inr (x, e) ↦ ((x, e, ground (arith, h, e)), ground (arith, h, e))
]

committed_index :
    (decode : Decode) (n : Node) (idx : ℕ)
    → (apply_committed decode (record n { commit_index = idx })).commit_index ≡ idx
committed_index decode n idx =
    let ((_, c), _) = apply_committed-SameCommit decode (record n { commit_index = idx }) in c

advanced :
    (decode : Decode) (n m : Node) (top : ℕ)
    → Advances decode n top m
    → m.commit_index ≢ n.commit_index
    → (n.commit_index < m.commit_index)
      × (m.commit_index ≤ top)
      × (can_commit n m.commit_index ≡ true)
advanced decode n m top (stays below) h = absurd (h refl)
advanced decode n m top (commits idx lo hi can none_higher) h =
    let e = committed_index decode n idx in (omega (arith, e), omega (arith, e), rw e can)

-- Where `maybeAdvanceCommitIndex` moves a commit index that lies within the log, it moves it forward,
-- within the log, to an entry of the node's own term, and there are members that are voters, not the
-- node itself, each once, whose match index has reached that entry, and that are with the node itself
-- more than half of any voters, listed once each. The voter set is keyed by the members' ids.
pub commit_needs_majority :
    (decode : Decode) (n : Node) (all : List String)
    → IsKeyed n.voters
    → n.commit_index ≤ last_index n.log
    → (maybe_advance_commit_index decode n).commit_index ≢ n.commit_index
    → IsDistinct all
    → All (IsVoter n) all
    → let idx = (maybe_advance_commit_index decode n).commit_index in
      (n.commit_index < idx)
      × (idx ≤ last_index n.log)
      × ((e : LogEntry) × (entry n.log idx ≡ some e) × (e.term ≡ n.current_term))
      × ((acks : List String) × IsDistinct acks
          × All (HasAcked n idx) acks
          × (length all < 2 * (1 + length acks)))
commit_needs_majority decode n all keyed h moved once voters =
    let (lo, hi, can) =
      advanced decode n (maybe_advance_commit_index decode n) (last_index n.log)
        (maybe_advance-Advances decode n h) moved in
    let idx = (maybe_advance_commit_index decode n).commit_index in
    let (own, many) = can_commit_inv n idx can in
    let (acks, distinct, held, counted) = matches_acked n idx keyed in
    (lo, hi, own, (acks, distinct, held, omega (arith, many, counted, voters-le n all once voters)))

-- Applied entries are committed, and committed entries are in the log.
pub record IsOrdered (n : Node) : Type 0 where
  pub applied_le : n.last_applied ≤ n.commit_index
  pub commit_le : n.commit_index ≤ last_index n.log

pub committed-IsOrdered :
    (decode : Decode) (n : Node) (idx : ℕ)
    → n.last_applied ≤ idx
    → idx ≤ last_index n.log
    → IsOrdered (apply_committed decode (record n { commit_index = idx }))
committed-IsOrdered decode n idx h k =
    let ((b, c), done) = apply_committed-SameCommit decode (record n { commit_index = idx }) in
    record {
      applied_le = omega (arith, done h, c);
      commit_le = omega (arith, c, ap last_index b.log);
    }

Advances-IsOrdered :
    (decode : Decode) (n m : Node)
    → Advances decode n (last_index n.log) m
    → IsOrdered n
    → IsOrdered m
Advances-IsOrdered decode n m (stays below) v = v
Advances-IsOrdered decode n m (commits idx lo hi can none_higher) v =
    committed-IsOrdered decode n idx (omega (arith, v.applied_le)) hi

pub maybe_advance-IsOrdered :
    (decode : Decode) (n : Node) → IsOrdered n → IsOrdered (maybe_advance_commit_index decode n)
maybe_advance-IsOrdered decode n v =
    Advances-IsOrdered decode n (maybe_advance_commit_index decode n)
      (maybe_advance-Advances decode n v.commit_le) v
