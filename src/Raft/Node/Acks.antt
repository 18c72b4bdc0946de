-- ===== src/Raft/Node/Acks.antt =====
-- Who holds an entry of a leader's log, as the leader knows it (src/internal/raft/node.go,
-- maybeAdvanceCommitIndex).
use amy_queue.Prelude.{
  ℕ, String, ◌≤◌, ◌≡◌, ◌≢◌, ◌⊎◌, refl, ap, sym, subst, ◌∙◌, inl, inr, Bool, true, false, Bool-cases,
  some, List, [], ◌∷◌, All, All-imp, Occurs, IsDistinct, IsDistinct-le, length, arith, leb, not,
  ◌&&◌, ◌==◌, if◌then◌else◌, get_or, lookup, Unique, eq_iff, nat_eq, string_eq,
}
use amy_queue.Raft.Membership.{
  VoterSet, NodeState, Member, voter, observer, is_voter_state, members, count_voters,
}
use amy_queue.Raft.Membership.Keys.{IsKeyed}
use amy_queue.Raft.Node.{Node}
use amy_queue.Raft.Node.Replication.{count_matches}

-- The id is that of a voter.
abbrev pub IsVoter : Node → String → Type 0
IsVoter n id = (m : Member) × (lookup id n.voters ≡ some m) × (m.state ≡ voter)

-- The id is that of another voter, whose match index has reached the index.
abbrev pub HasAcked : Node → ℕ → String → Type 0
HasAcked n idx id =
    (id ≢ n.cfg.id)
    × ((m : Member) × (lookup id n.voters ≡ some m)
        × (m.state ≡ voter)
        × (idx ≤ get_or m.addr n.match_index 0))

voter_of : (s : NodeState) → is_voter_state s ≡ true → s ≡ voter
voter_of voter h = refl
voter_of observer h = absurd cc

-- The ids of the members of a kind.
abbrev ids : (Member → Bool) → VoterSet → List String
ids test [] = []
ids test ((j, m) ∷ v) = let rest = ids test v in if test m then j ∷ rest else rest

Occurs-head :
    (b : Bool) (id j : String) (rest : List String)
    → Occurs id (if b then j ∷ rest else rest)
    → ((id ≡ j) × (b ≡ true)) ⊎ Occurs id rest
Occurs-head true id j rest (inl e) = inl (e, refl)
Occurs-head true id j rest (inr o) = inr o
Occurs-head false id j rest o = inr o

IsDistinct-head :
    (b : Bool) (j : String) (rest : List String)
    → ¬ Occurs j rest
    → IsDistinct rest
    → IsDistinct (if b then j ∷ rest else rest)
IsDistinct-head true j rest n d = (n, d)
IsDistinct-head false j rest n d = d

Occurs-later :
    (b : Bool) (id j : String) (rest : List String)
    → Occurs id rest
    → Occurs id (if b then j ∷ rest else rest)
Occurs-later true id j rest o = inr o
Occurs-later false id j rest o = o

module _ (test : Member → Bool) where
  Occurs-ids :
      (id : String) (v : VoterSet)
      → Unique v
      → Occurs id (ids test v)
      → (m : Member) × (lookup id v ≡ some m) × (test m ≡ true)
  unfolding lookup
  Occurs-ids id [] u o = absurd o
  Occurs-ids id ((j, m) ∷ v) u o = elim (Occurs-head (test m) id j (ids test v) o) [
    | inl (e, t) ↦ (m, ground (arith, (eq_iff j id).1 (sym e)), t)
    | inr later ↦
        let (x, l, t) = Occurs-ids id v u.1 later in (x, ground (arith, l, u.0, eq_iff j id), t)
  ]

  ids-IsDistinct : (v : VoterSet) → Unique v → IsDistinct (ids test v)
  unfolding lookup
  ids-IsDistinct [] u = tt
  ids-IsDistinct ((j, m) ∷ v) u =
      IsDistinct-head (test m) j (ids test v)
        (λ o. let (x, l, t) = Occurs-ids j v u.1 o in ground (arith, l, u.0)) (ids-IsDistinct v u.1)

  lookup-ids :
      (id : String) (m : Member) (v : VoterSet)
      → lookup id v ≡ some m
      → test m ≡ true
      → Occurs id (ids test v)
  unfolding lookup
  lookup-ids id m [] e t = absurd cc
  lookup-ids id m ((j, x) ∷ v) e t = elim (Bool-cases (j == id)) [
    | inl s ↦
        let same : x ≡ m = ground (arith, e, s) in rw (same, t) (inl (sym ((eq_iff j id).0 s)))
    | inr f ↦ Occurs-later (test x) id j (ids test v) (lookup-ids id m v (ground (arith, e, f)) t)
  ]

abbrev a_voter : Member → Bool
a_voter m = is_voter_state m.state

abbrev acked : Node → ℕ → Member → Bool
acked n idx m =
    not (m.id == n.cfg.id) && is_voter_state m.state && leb idx (get_or m.addr n.match_index 0)

length-voters : (v : VoterSet) → length (ids a_voter v) ≡ count_voters v
unfolding count_voters
length-voters [] = refl
length-voters ((j, m) ∷ v) = ground (arith, length-voters v)

length-acked :
    (n : Node) (idx : ℕ) (v : VoterSet)
    → length (ids (acked n idx) v) ≡ count_matches n idx (members v)
unfolding count_matches members
length-acked n idx [] = refl
length-acked n idx ((j, m) ∷ v) = ground (arith, length-acked n idx v)

-- Voters that are listed once each are no more than the code counts.
pub voters-le :
    (n : Node) (vs : List String)
    → IsDistinct vs
    → All (IsVoter n) vs
    → length vs ≤ count_voters n.voters
voters-le n vs d h =
    let inside =
      All-imp (IsVoter n) (λ id. Occurs id (ids a_voter n.voters))
        (λ id (m, l, s). lookup-ids a_voter id m n.voters l (ap is_voter_state s)) vs h in
    subst (λ k. length vs ≤ k) (length-voters n.voters) (IsDistinct-le vs _ d inside)

All-ids :
    (P : String → Type 0) (ks : List String) → ((id : String) → Occurs id ks → P id) → All P ks
All-ids P [] f = tt
All-ids P (k ∷ ks) f = (f k (inl refl), All-ids P ks (λ id o. f id (inr o)))

-- Those that the code counts are that many voters other than the leader, which hold the entry.
pub matches_acked :
    (n : Node) (idx : ℕ)
    → IsKeyed n.voters
    → (acks : List String) × IsDistinct acks
      × All (HasAcked n idx) acks
      × (length acks ≡ count_matches n idx (members n.voters))
matches_acked n idx k =
    let acks = ids (acked n idx) n.voters in
    (
      acks,
      ids-IsDistinct (acked n idx) n.voters k.unique,
      All-ids (HasAcked n idx) acks (λ id o.
          let (m, l, t) = Occurs-ids (acked n idx) id n.voters k.unique o in
          let same = k.keyed id m l in
          (
            (λ e. ground (arith, t, (eq_iff m.id n.cfg.id).1 (same ∙ e))),
            (m, l, voter_of m.state (ground (arith, t)), ground (arith, t)),
          )),
      length-acked n idx n.voters,
    )
