-- ===== src/Metrics/Counts.antt =====
-- The numbers of a scrape (src/internal/metrics/collector.go) against the node they are taken from.
use amy_queue.Prelude.{
  ℕ, ◌+◌, ◌-◌, ◌≤◌, ◌<◌, ◌≡◌, refl, ap, ◌∙◌, inl, inr, Bool-cases, List, [], ◌∷◌, length, get_elem?,
  some, arith, if◌then◌else◌, lt→ltb,
}
use amy_queue.Raft.Membership.{VoterSet, members, count_voters, is_voter_state}
use amy_queue.Raft.Node.{Node, metrics_snapshot, is_leader}
use amy_queue.Metrics.{
  ConstMetric, Desc, collect, count_roles, float64, unit_of, round_to, two53, is_leader_desc,
  member_count_desc, voter_count_desc, observer_count_desc,
}

-- Below 2 ^ 53 a float64 is exact.
unit_of_small : (n : ℕ) → n < two53 → unit_of 11 n ≡ 1
unfolding unit_of
unit_of_small n h = rw (unit_of, lt→ltb n two53 h) refl

round_to_one : (n : ℕ) → round_to 1 n ≡ n
unfolding round_to
round_to_one n = ground arith

float64_exact : (n : ℕ) → n < two53 → float64 n ≡ n
unfolding float64
float64_exact n h = rw (float64, unit_of_small n h) (round_to_one n)

count_roles_lem :
    (v : VoterSet) (x y : ℕ)
    → (count_roles (members v) (x, y)).0 ≡ x + count_voters v
      × (count_roles (members v) (x, y)).1 ≡ y + (length (members v) - count_voters v)
      × count_voters v ≤ length (members v)
unfolding count_roles members count_voters
count_roles_lem [] x y = (omega arith, omega arith, omega arith)
count_roles_lem ((id, m) ∷ v) x y = elim (Bool-cases (is_voter_state m.state)) [
  | inl t ↦ rw (t) (ground (arith, count_roles_lem v (x + 1) y))
  | inr t ↦ rw (t) (ground (arith, count_roles_lem v x (y + 1)))
]

-- The value of the metric at a place of the list.
abbrev pub HasValue : List ConstMetric → ℕ → Desc → ℕ → Type 0
HasValue ms i desc value =
    (m : ConstMetric) × (get_elem? ms i ≡ some m) × (m.desc ≡ desc) × (m.value ≡ value)

-- A scrape of a node with fewer than 2 ^ 53 members shows as voter count the number of voters that the
-- node's quorum is computed from, as observer count the number of all other members, as member count the
-- sum of both, and as is_leader 1 for a leader and 0 for any other node.
pub collect_roles :
    (n : Node)
    → length (members n.voters) < two53
    → let ms = collect (metrics_snapshot n) in
      let observers = length (members n.voters) - count_voters n.voters in
      HasValue ms 5 voter_count_desc (count_voters n.voters)
      × HasValue ms 6 observer_count_desc observers
      × HasValue ms 4 member_count_desc (count_voters n.voters + observers)
      × HasValue ms 1 is_leader_desc (if is_leader n.state then 1 else 0)
unfolding collect metrics_snapshot
collect_roles n small =
    let (v, o, le) = count_roles_lem n.voters 0 0 in
    (
      (_, refl, refl, ap float64 v ∙ float64_exact _ (omega (arith, le, small)) ∙ omega arith),
      (_, refl, refl, ap float64 o ∙ float64_exact _ (omega (arith, le, small)) ∙ omega arith),
      (_, refl, refl, float64_exact _ small ∙ omega (arith, le)),
      (_, refl, refl, float64_exact _ (ground arith)),
    )
