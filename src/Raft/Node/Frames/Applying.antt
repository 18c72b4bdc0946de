-- ===== src/Raft/Node/Frames/Applying.antt =====
-- What `applyCommitted` (src/internal/raft/node.go) leaves alone.
use amy_queue.Prelude.{
  ℕ, zero, suc, ◌+◌, ◌-◌, ◌≤◌, ◌≡◌, refl, ◌∙◌, inl, inr, Bool-cases, Option-cases, arith, ◌==◌,
  nat_eq, string_eq,
}
use amy_queue.Raft.Membership.{MembershipChange}
use amy_queue.Raft.Log.{LogEntry, entry, cmd_membership}
use amy_queue.Raft.Node.{Node}
use amy_queue.Raft.Node.Replication.{
  Decode, apply_change, apply_membership_entry, apply_next, apply_rounds, apply_committed,
}

-- The part of a node that applying entries does not touch.
pub record SameBase (n m : Node) : Type 0 where
  pub cfg : m.cfg ≡ n.cfg
  pub log : m.log ≡ n.log
  pub current_term : m.current_term ≡ n.current_term
  pub voted_for : m.voted_for ≡ n.voted_for

pub SameBase-refl : (n : Node) → SameBase n n
SameBase-refl n = record { cfg = refl; log = refl; current_term = refl; voted_for = refl }

pub SameBase-trans : {n m k : Node} → SameBase n m → SameBase m k → SameBase n k
SameBase-trans p q = record {
  cfg = q.cfg ∙ p.cfg;
  log = q.log ∙ p.log;
  current_term = q.current_term ∙ p.current_term;
  voted_for = q.voted_for ∙ p.voted_for;
}

-- The node with one more entry counted as applied.
abbrev pub counted : Node → Node
counted n = record n { last_applied = n.last_applied + 1 }

entry_cases {ℓ} :
    (P : Node → Type ℓ) (decode : Decode) (e : LogEntry) (n : Node)
    → P n
    → ((mc : MembershipChange) → P (apply_change mc n))
    → P (apply_membership_entry decode e n)
unfolding apply_membership_entry
entry_cases P decode e n plain change = elim (Option-cases (decode e.command)) [
  | inl d ↦ rw (d, apply_membership_entry) plain
  | inr (mc, d) ↦ rw (d, apply_membership_entry) (change mc)
]

-- One round counts an entry as applied, and makes the change that the entry carries, if any.
pub apply_next_cases {ℓ} :
    (P : Node → Type ℓ) (decode : Decode) (n : Node)
    → P (counted n)
    → ((mc : MembershipChange) → P (apply_change mc (counted n)))
    → P (apply_next decode n)
unfolding apply_next
apply_next_cases P decode n plain change = elim (Option-cases (entry n.log (n.last_applied + 1))) [
  | inl h ↦ rw (h, apply_next) plain
  | inr (e, h) ↦ elim (Bool-cases (e.kind == cmd_membership)) [
    | inl k ↦ rw (h, apply_next) (rw k (entry_cases P decode e (counted n) plain change))
    | inr k ↦ rw (h, apply_next) (rw k plain)
  ]
]

-- What every round keeps holds after all of them.
pub apply_rounds_inv {ℓ} :
    (P : Node → Type ℓ) (decode : Decode)
    → ((n : Node) → P n → P (counted n))
    → ((mc : MembershipChange) (n : Node) → P n → P (apply_change mc n))
    → (rounds : ℕ) (n : Node) → P n
    → P (apply_rounds decode rounds n)
unfolding apply_rounds
apply_rounds_inv P decode plain change zero n h = h
apply_rounds_inv P decode plain change (suc rounds) n h =
    apply_rounds_inv P decode plain change rounds (apply_next decode n)
      (apply_next_cases P decode n (plain n h) (λ mc. change mc (counted n) (plain n h)))

-- Applying entries keeps the base and the commit index.
abbrev pub SameCommit : Node → Node → Type 0
SameCommit n m = SameBase n m × (m.commit_index ≡ n.commit_index)

change-SameCommit :
    (mc : MembershipChange) (n : Node)
    → SameCommit n (apply_change mc n) × ((apply_change mc n).last_applied ≡ n.last_applied)
unfolding apply_change
change-SameCommit mc n = ground arith

apply_next-SameCommit :
    (decode : Decode) (n : Node)
    → SameCommit n (apply_next decode n) × ((apply_next decode n).last_applied ≡ n.last_applied + 1)
apply_next-SameCommit decode n =
    apply_next_cases (λ m. SameCommit n m × (m.last_applied ≡ n.last_applied + 1)) decode n
      ((record { cfg = refl; log = refl; current_term = refl; voted_for = refl }, refl), refl)
      (λ mc.
        let ((b, c), l) = change-SameCommit mc (counted n) in
        (
          (
            record {
              cfg = b.cfg;
              log = b.log;
              current_term = b.current_term;
              voted_for = b.voted_for;
            },
            c,
          ),
          l,
        ))

pub apply_next-log : (decode : Decode) (n : Node) → (apply_next decode n).log ≡ n.log
apply_next-log decode n = let ((b, _), _) = apply_next-SameCommit decode n in b.log

pub apply_rounds-SameCommit :
    (decode : Decode) (rounds : ℕ) (n : Node)
    → SameCommit n (apply_rounds decode rounds n)
      × ((apply_rounds decode rounds n).last_applied ≡ n.last_applied + rounds)
unfolding apply_rounds
apply_rounds-SameCommit decode zero n = ((SameBase-refl n, refl), omega arith)
apply_rounds-SameCommit decode (suc rounds) n =
    let ((b, c), l) = apply_next-SameCommit decode n in
    let ((b', c'), l') = apply_rounds-SameCommit decode rounds (apply_next decode n) in
    ((SameBase-trans b b', c' ∙ c), omega (arith, l, l'))

-- `applyCommitted` ends with every entry up to the commit index counted as applied.
pub apply_committed-SameCommit :
    (decode : Decode) (n : Node)
    → SameCommit n (apply_committed decode n)
      × (n.last_applied ≤ n.commit_index → (apply_committed decode n).last_applied ≡ n.commit_index)
unfolding apply_committed
apply_committed-SameCommit decode n =
    let (b, l) = apply_rounds-SameCommit decode (n.commit_index - n.last_applied) n in
    (b, λ h. omega (arith, l))
