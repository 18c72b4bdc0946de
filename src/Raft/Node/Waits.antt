-- ===== src/Raft/Node/Waits.antt =====
-- `appendAndWaitCommit` and the answers that rest on it (src/internal/raft/node.go).
use amy_queue.Prelude.{
  ℕ, ◌≤◌, ◌≡◌, ◌↔◌, refl, inl, inr, Bool-cases, true, none, Option-cases, List, [], ◌∷◌, Occurs,
  arith, leb, nat_eq,
}
use amy_queue.Raft.Node.Admin.{wait_commit, finish_add_voter, finish_remove_voter}

seen :
    (idx : ℕ) (polls : List ℕ) → wait_commit idx polls ≡ none → (c : ℕ) × Occurs c polls × (idx ≤ c)
unfolding wait_commit
seen idx [] h = ground (arith, h)
seen idx (c ∷ polls) h = elim (Bool-cases (leb idx c)) [
  | inl e ↦ (c, inl refl, ground (arith, e))
  | inr e ↦ let (x, o, le) = seen idx polls (ground (arith, h, e)) in (x, inr o, le)
]

returns : (idx c : ℕ) (polls : List ℕ) → Occurs c polls → idx ≤ c → wait_commit idx polls ≡ none
unfolding wait_commit
returns idx c [] o h = elim o [ ]
returns idx c (x ∷ polls) (inl e) h = let k : leb idx x ≡ true = ground (arith, e) in rw k refl
returns idx c (x ∷ polls) (inr o) h = ground (arith, returns idx c polls o h)

-- `AddVoter` and `RemoveVoter` answer with success exactly if one of the polls before the deadline finds
-- the commit index at the submitted entry or behind it.
finish_success_iff :
    (idx : ℕ) (polls : List ℕ)
    → (((finish_add_voter (wait_commit idx polls)).success ≡ true)
        ↔ ((c : ℕ) × Occurs c polls × (idx ≤ c)))
      × (((finish_remove_voter (wait_commit idx polls)).success ≡ true)
          ↔ ((c : ℕ) × Occurs c polls × (idx ≤ c)))
unfolding finish_add_voter finish_remove_voter
finish_success_iff idx polls = elim (Option-cases (wait_commit idx polls)) [
  | inl e ↦ rw e (((λ _. seen idx polls e), (λ _. refl)), ((λ _. seen idx polls e), (λ _. refl)))
  | inr (x, e) ↦
      let lost : ¬ ((c : ℕ) × Occurs c polls × (idx ≤ c)) =
        λ r. ground (arith, e, returns idx r.0 polls r.1 r.2) in
      rw e (
        ((λ h. absurd (ground (arith, h))), (λ r. absurd (lost r))),
        ((λ h. absurd (ground (arith, h))), (λ r. absurd (lost r))),
      )
]
