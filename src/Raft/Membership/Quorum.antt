-- ===== src/Raft/Membership/Quorum.antt =====
-- Quorums of the voter set (src/internal/raft/membership.go).
use amy_queue.Prelude.{
  ℕ, suc, String, ◌+◌, ◌/◌, ◌≤◌, ◌<◌, ◌≡◌, refl, ap, subst, inl, inr, Bool, Bool-cases, true, ◌&&◌,
  none, Option-cases, List, [], ◌∷◌, Occurs, arith, eq_iff, if◌then◌else◌, lookup, insert,
  lookup-insert, string_eq,
}
use amy_queue.Raft.Membership.{
  VoterSet, Member, observer, voter, is_voter_state, add_observer, count_voters, quorum_size,
  is_voter, members,
}

-- How many voters of the set satisfy the test.
abbrev pub count_voters_with : (Member → Bool) → List Member → ℕ
count_voters_with p [] = 0
count_voters_with p (m ∷ ms) =
    let rest = count_voters_with p ms in if is_voter_state m.state && p m then suc rest else rest

both_of_count :
    (p q : Member → Bool) (v : VoterSet)
    → count_voters v < count_voters_with p (members v) + count_voters_with q (members v)
    → (m : Member) × Occurs m (members v) × (m.state ≡ voter) × (p m ≡ true) × (q m ≡ true)
unfolding count_voters members
both_of_count p q [] h = absurd (omega arith)
both_of_count p q ((id, m) ∷ v) h = elim (Bool-cases (is_voter_state m.state && (p m && q m))) [
  | inl e ↦ (m, inl refl, ground arith, ground arith, ground arith)
  | inr e ↦ let (x, o, s, a, b) = both_of_count p q v (ground arith) in (x, inr o, s, a, b)
]

-- Two majorities of the voters share a voter.
pub quorums_meet :
    (p q : Member → Bool) (v : VoterSet)
    → quorum_size v ≤ count_voters_with p (members v)
    → quorum_size v ≤ count_voters_with q (members v)
    → (m : Member) × Occurs m (members v) × (m.state ≡ voter) × (p m ≡ true) × (q m ≡ true)
unfolding quorum_size
quorums_meet p q v h k = both_of_count p q v (omega arith)

count_voters-insert_observer :
    (id addr : String) (v : VoterSet)
    → lookup id v ≡ none
    → count_voters (insert id (record { id = id; addr = addr; state = observer }) v)
      ≡ count_voters v
unfolding count_voters insert lookup
count_voters-insert_observer id addr [] e = refl
count_voters-insert_observer id addr ((j, m) ∷ v) e =
    ground (arith, count_voters-insert_observer id addr v)

-- An observer changes neither the quorum nor anybody's vote, and a voter is never demoted by a join.
add_observer_lem :
    (id addr other : String) (v : VoterSet)
    → (quorum_size (add_observer id addr v) ≡ quorum_size v)
      × (is_voter other (add_observer id addr v) ≡ is_voter other v)
unfolding add_observer quorum_size is_voter
add_observer_lem id addr other v = elim (Option-cases (lookup id v)) [
  | inl e ↦
      rw (e, add_observer)
        (
          ap (λ (n : ℕ). n / 2 + 1) (count_voters-insert_observer id addr v e),
          ground (
            arith,
            lookup-insert id other (record { id = id; addr = addr; state = observer }) v,
            eq_iff id other,
            (λ (same : id ≡ other). subst (λ k. lookup k v ≡ none) same e),
          ),
        )
  | inr (m, e) ↦ rw (e, add_observer) (refl, refl)
]
