-- ===== src/Controller/Joining.antt =====
-- What becomes of `joinCluster` in a cluster with a leader, and among nodes that name each other
-- (src/cmd/controller/main.go).
use amy_queue.Prelude.{
  ℕ, zero, suc, String, ◌≡◌, ◌≢◌, refl, ap, sym, subst, apart, ◌∙◌, ◌⊎◌, inl, inr, Bool-cases, true,
  false, none, some, List, [], ◌∷◌, Occurs, arith, ◌==◌, eq_iff, string_eq,
}
use amy_queue.Raft.Messages.{ObserverJoinResponse}
use amy_queue.Controller.Join.{
  Network, joined, failed, running, redirects, follow_redirects, try_seeds, try_attempts,
  join_cluster,
}

-- A node sends its caller to the leader.
abbrev pub Sends : Network → String → String → Type 0
Sends net leader target =
    (calls : ℕ)
    → (resp : ObserverJoinResponse) × (net calls target ≡ some resp)
      × (resp.success ≡ false)
      × (resp.leader_addr ≡ leader)

-- A network with a leader that lets nodes in: every other node is out of reach, or knows the leader.
pub record IsSettled (net : Network) (leader : String) : Type 0 where
  pub named : leader ≢ ""
  pub lets_in :
      (calls : ℕ)
      → (resp : ObserverJoinResponse) × (net calls leader ≡ some resp) × (resp.success ≡ true)
  pub others :
      (target : String)
      → target ≢ leader
      → ((calls : ℕ) → net calls target ≡ none) ⊎ Sends net leader target

at_leader :
    (net : Network) (leader : String) (fuel calls : ℕ)
    → IsSettled net leader
    → follow_redirects net (suc fuel) calls leader ≡ joined leader
unfolding follow_redirects
at_leader net leader fuel calls v =
    let (resp, e, s) = v.lets_in calls in rw (follow_redirects, e) (rw s refl)

redirects-true :
    (resp : ObserverJoinResponse) (leader target : String)
    → leader ≢ ""
    → leader ≢ target
    → resp.leader_addr ≡ leader
    → redirects resp target ≡ true
redirects-true resp leader target named other l =
    rw l (ground (arith, eq_iff leader "", eq_iff leader target))

-- One redirect is followed.
redirected :
    (net : Network) (leader target : String) (fuel calls : ℕ)
    → leader ≢ ""
    → leader ≢ target
    → Sends net leader target
    → follow_redirects net (suc fuel) calls target ≡ follow_redirects net fuel (suc calls) leader
unfolding follow_redirects
redirected net leader target fuel calls named other sends =
    let (resp, e, s, l) = sends calls in
    let r = redirects-true resp leader target named other l in
    rw (follow_redirects, e) (simp (s, r) (ap (λ t. follow_redirects net fuel (suc calls) t) l))

out_of_reach :
    (net : Network) (target : String) (fuel calls : ℕ)
    → ((c : ℕ) → net c target ≡ none)
    → follow_redirects net (suc fuel) calls target ≡ failed (suc calls)
unfolding follow_redirects
out_of_reach net target fuel calls h = rw (follow_redirects, h calls) refl

-- A node through which the leader is found: itself, or one that knows it.
abbrev pub Leads : Network → String → String → Type 0
Leads net leader target = (target ≡ leader) ⊎ Sends net leader target

through :
    (net : Network) (leader target : String) (fuel calls : ℕ)
    → IsSettled net leader
    → target ≢ leader
    → Sends net leader target
    → follow_redirects net (suc (suc fuel)) calls target ≡ joined leader
through net leader target fuel calls v other sends =
    redirected net leader target (suc fuel) calls v.named (λ e. other (sym e)) sends
    ∙ at_leader net leader fuel (suc calls) v

no_answer :
    (net : Network) (leader target : String)
    → target ≢ leader
    → ((calls : ℕ) → net calls target ≡ none)
    → ¬ Leads net leader target
no_answer net leader target other h (inl e) = other e
no_answer net leader target other h (inr sends) =
    let (resp, e, _, _) = sends 0 in ground (arith, h 0, e)

try_seeds-joined :
    (net : Network) (leader : String) (fuel calls : ℕ) (seed : String) (seeds : List String)
    → follow_redirects net fuel calls seed ≡ joined leader
    → try_seeds net fuel calls (seed ∷ seeds) ≡ joined leader
unfolding try_seeds
try_seeds-joined net leader fuel calls seed seeds e = rw (try_seeds, e) refl

try_seeds-failed :
    (net : Network) (fuel calls calls' : ℕ) (seed : String) (seeds : List String)
    → follow_redirects net fuel calls seed ≡ failed calls'
    → try_seeds net fuel calls (seed ∷ seeds) ≡ try_seeds net fuel calls' seeds
unfolding try_seeds
try_seeds-failed net fuel calls calls' seed seeds e = rw (try_seeds, e) refl

-- Past a seed that is out of reach, the seed that helps is one of the rest.
later_seed :
    (net : Network) (leader seed x : String) (seeds : List String)
    → seed ≢ leader
    → ((calls : ℕ) → net calls seed ≡ none)
    → Occurs x (seed ∷ seeds)
    → Leads net leader x
    → Occurs x seeds
later_seed net leader seed x seeds other h (inl e) k =
    absurd (no_answer net leader seed other h (subst (Leads net leader) e k))
later_seed net leader seed x seeds other h (inr o) k = o

pass_joins :
    (net : Network) (leader : String) (fuel calls : ℕ) (seeds : List String) (x : String)
    → IsSettled net leader
    → Occurs x seeds
    → Leads net leader x
    → try_seeds net (suc (suc fuel)) calls seeds ≡ joined leader
pass_joins net leader fuel calls [] x v o k = elim o [ ]
pass_joins net leader fuel calls (seed ∷ seeds) x v o k =
    let n = suc (suc fuel) in
    elim (Bool-cases (seed == leader)) [
      | inl e ↦
          let same = (eq_iff seed leader).0 e in
          try_seeds-joined net leader n calls seed seeds (
            ap (λ t. follow_redirects net n calls t) same ∙ at_leader net leader (suc fuel) calls v)
      | inr e ↦
          let other : seed ≢ leader = apart seed leader e in
          elim (v.others seed other) [
            | inl h ↦
                try_seeds-failed net n calls (suc calls) seed seeds
                  (out_of_reach net seed (suc fuel) calls h)
                ∙ pass_joins net leader fuel (suc calls) seeds x v
                    (later_seed net leader seed x seeds other h o k) k
            | inr sends ↦
                try_seeds-joined net leader n calls seed seeds
                  (through net leader seed fuel calls v other sends)
          ]
    ]

first_pass :
    (net : Network) (fuel left calls : ℕ) (seeds : List String) (leader : String)
    → try_seeds net fuel calls seeds ≡ joined leader
    → try_attempts net fuel (suc left) calls seeds ≡ joined leader
unfolding try_attempts
first_pass net fuel left calls seeds leader e = rw (try_attempts, e) refl

-- In a cluster whose leader lets nodes in, and whose other nodes are out of reach or know the leader, a
-- node joins at the leader in its first pass, if one of its seeds is the leader or knows it. No seed
-- takes more than two calls, so two units of fuel suffice.
pub join_cluster_settled :
    (net : Network) (leader : String) (fuel retries : ℕ) (seeds : List String) (seed : String)
    → IsSettled net leader
    → Occurs seed seeds
    → Leads net leader seed
    → join_cluster net (suc (suc fuel)) (suc retries) seeds ≡ joined leader
unfolding join_cluster
join_cluster_settled net leader fuel retries seeds seed v o k =
    first_pass net (suc (suc fuel)) retries 0 seeds leader
      (pass_joins net leader fuel 0 seeds seed v o k)

round_and_round :
    (net : Network) (a b : String) (fuel calls : ℕ)
    → a ≢ ""
    → b ≢ ""
    → a ≢ b
    → Sends net b a
    → Sends net a b
    → follow_redirects net fuel calls a ≡ running
unfolding follow_redirects
round_and_round net a b zero calls na nb d to_b to_a = refl
round_and_round net a b (suc fuel) calls na nb d to_b to_a =
    redirected net b a fuel calls nb (λ e. d (sym e)) to_b
    ∙ round_and_round net b a fuel (suc calls) nb na (λ e. d (sym e)) to_a to_b

-- Two nodes that each take the other for the leader hold a joining node for good: whatever the fuel,
-- and however few passes are allowed, `joinCluster` is still following redirects from its first seed.
pub join_cluster_loops :
    (net : Network) (a b : String) (fuel retries : ℕ) (seeds : List String)
    → a ≢ ""
    → b ≢ ""
    → a ≢ b
    → Sends net b a
    → Sends net a b
    → join_cluster net fuel (suc retries) (a ∷ seeds) ≡ running
unfolding join_cluster try_attempts try_seeds
join_cluster_loops net a b fuel retries seeds na nb d to_b to_a =
    rw (try_attempts, try_seeds, round_and_round net a b fuel 0 na nb d to_b to_a) refl
