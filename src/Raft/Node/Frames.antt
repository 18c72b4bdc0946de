-- ===== src/Raft/Node/Frames.antt =====
-- What the parts of a node's handlers leave alone, field by field.
mod Applying
pub use Applying.{
  apply_next-log, SameBase, SameBase-refl, SameBase-trans, counted, SameCommit, apply_next_cases,
  apply_rounds_inv, apply_rounds-SameCommit, apply_committed-SameCommit,
}
use amy_queue.Prelude.{
  ℕ, zero, suc, ◌+◌, ◌-◌, ◌≤◌, ◌<◌, ◌≡◌, refl, sym, subst, ◌∙◌, inl, inr, Bool-cases, true, false,
  Option-cases, arith, ltb, min, ◌==◌, nat_eq, string_eq,
}
use native.Mathlib.Decide.{ℕ_discrete}
use amy_queue.Raft.Membership.{MembershipChange}
use amy_queue.Raft.Log.{LogEntry, entry, last_index, cmd_membership}
use amy_queue.Raft.Node.{Node}
use amy_queue.Raft.Node.Replication.{
  Decode, apply_change, apply_membership_entry, apply_next, apply_rounds, apply_committed,
  can_commit, advance_from, maybe_advance_commit_index, follow_commit,
}

-- Where the commit index is moved, the base stays.
move_commit :
    (decode : Decode) (n : Node) (idx : ℕ)
    → SameBase n (apply_committed decode (record n { commit_index = idx }))
      × ((apply_committed decode (record n { commit_index = idx })).commit_index ≡ idx)
move_commit decode n idx =
    let ((b, c), _) = apply_committed-SameCommit decode (record n { commit_index = idx }) in
    (record { cfg = b.cfg; log = b.log; current_term = b.current_term; voted_for = b.voted_for }, c)

-- What `maybeAdvanceCommitIndex` may do: nothing, or commit the highest index above the commit index
-- that passes its tests.
pub data Advances (decode : Decode) (n : Node) : ℕ → Node → Type 0 where
  stays :
      {top : ℕ}
      → ((idx : ℕ) → n.commit_index < idx → idx ≤ top → can_commit n idx ≡ false)
      → Advances decode n top n
  commits :
      {top : ℕ} (idx : ℕ)
      → n.commit_index < idx
      → idx ≤ top
      → can_commit n idx ≡ true
      → ((higher : ℕ) → idx < higher → higher ≤ top → can_commit n higher ≡ false)
      → Advances decode n top (apply_committed decode (record n { commit_index = idx }))

pub advance_from-suc-true :
    (decode : Decode) (left : ℕ) (n : Node)
    → can_commit n (n.commit_index + suc left) ≡ true
    → advance_from decode (suc left) n
      ≡ apply_committed decode (record n { commit_index = n.commit_index + suc left })
unfolding advance_from
advance_from-suc-true decode left n e = rw e

pub advance_from-suc-false :
    (decode : Decode) (left : ℕ) (n : Node)
    → can_commit n (n.commit_index + suc left) ≡ false
    → advance_from decode (suc left) n ≡ advance_from decode left n
unfolding advance_from
advance_from-suc-false decode left n e = rw e

pub advance_from-zero : (decode : Decode) (n : Node) → n ≡ advance_from decode zero n
unfolding advance_from
advance_from-zero decode n = refl

none_up_to :
    (n : Node) (low top : ℕ)
    → ((idx : ℕ) → low < idx → idx ≤ top → can_commit n idx ≡ false)
    → can_commit n (suc top) ≡ false
    → (idx : ℕ) → low < idx
    → idx ≤ suc top
    → can_commit n idx ≡ false
none_up_to n low top below e idx h k = elim (ℕ_discrete idx (suc top)) [
  | yes q ↦ rw q e
  | no q ↦ below idx h (omega arith)
]

Advances-grow :
    {decode : Decode} {n : Node} {top : ℕ} {m : Node}
    → Advances decode n top m
    → can_commit n (suc top) ≡ false
    → Advances decode n (suc top) m
Advances-grow {n} {top} (stays none_below) e = stays (none_up_to n n.commit_index top none_below e)
Advances-grow {n} {top} (commits idx lo hi can none_between) e =
    commits idx lo (omega arith) can (none_up_to n idx top none_between e)

advance_from-Advances :
    (decode : Decode) (left : ℕ) (n : Node)
    → Advances decode n (n.commit_index + left) (advance_from decode left n)
advance_from-Advances decode zero n =
    subst (Advances decode n (n.commit_index + zero)) (advance_from-zero decode n)
      (stays (λ idx h k. absurd (omega arith)))
advance_from-Advances decode (suc left) n =
    let top : n.commit_index + suc left ≡ suc (n.commit_index + left) = omega arith in
    elim (Bool-cases (can_commit n (n.commit_index + suc left))) [
      | inl e ↦
          subst (Advances decode n (n.commit_index + suc left))
            (sym (advance_from-suc-true decode left n e))
            (commits (n.commit_index + suc left) (omega arith) (omega arith) e
              (λ j h k. absurd (omega arith)))
      | inr e ↦
          subst (Advances decode n (n.commit_index + suc left))
            (sym (advance_from-suc-false decode left n e))
            (subst (λ k. Advances decode n k (advance_from decode left n)) (sym top)
              (Advances-grow (advance_from-Advances decode left n)
                (subst (λ k. can_commit n k ≡ false) top e)))
    ]

-- `maybeAdvanceCommitIndex` commits the highest index above the commit index that passes its tests,
-- up to the end of the log, and does nothing if there is none.
pub maybe_advance-Advances :
    (decode : Decode) (n : Node)
    → n.commit_index ≤ last_index n.log
    → Advances decode n (last_index n.log) (maybe_advance_commit_index decode n)
unfolding maybe_advance_commit_index
maybe_advance-Advances decode n h =
    let e : n.commit_index + (last_index n.log - n.commit_index) ≡ last_index n.log = omega arith in
    subst (λ k. Advances decode n k (maybe_advance_commit_index decode n)) e
      (advance_from-Advances decode (last_index n.log - n.commit_index) n)

advance_from-SameBase :
    (decode : Decode) (left : ℕ) (n : Node) → SameBase n (advance_from decode left n)
advance_from-SameBase decode zero n =
    subst (SameBase n) (advance_from-zero decode n) (SameBase-refl n)
advance_from-SameBase decode (suc left) n =
    elim (Bool-cases (can_commit n (n.commit_index + suc left))) [
      | inl e ↦
          subst (SameBase n) (sym (advance_from-suc-true decode left n e))
            (move_commit decode n (n.commit_index + suc left)).0
      | inr e ↦
          subst (SameBase n) (sym (advance_from-suc-false decode left n e))
            (advance_from-SameBase decode left n)
    ]

pub maybe_advance-SameBase :
    (decode : Decode) (n : Node) → SameBase n (maybe_advance_commit_index decode n)
unfolding maybe_advance_commit_index
maybe_advance-SameBase decode n = advance_from-SameBase decode (last_index n.log - n.commit_index) n

pub follow_commit-SameBase :
    (decode : Decode) (leader_commit : ℕ) (n : Node)
    → SameBase n (follow_commit decode leader_commit n)
unfolding follow_commit
follow_commit-SameBase decode leader_commit n =
    elim (Bool-cases (ltb n.commit_index leader_commit)) [
      | inl e ↦ rw e (move_commit decode n (min leader_commit (last_index n.log))).0
      | inr e ↦ rw e (SameBase-refl n)
    ]
