-- ===== src/Controller/Join.antt =====
-- `joinCluster` (src/cmd/controller/main.go): a node asks the bootstrap servers, in passes, to let it
-- in as an observer, and follows their redirects to the leader.
--
-- The transport is not part of the function: `net n target` is what the n-th call gets, `none` for an
-- error. The inner loop has no bound in the code, so it takes fuel here, and `running` is a call that
-- has not come back. Log lines and waiting times are left out.
use amy_queue.Prelude.{
  ℕ, zero, suc, String, Bool, ◌&&◌, not, Option, none, some, List, [], ◌∷◌, ◌==◌, if◌then◌else◌,
  string_eq,
}
use amy_queue.Raft.Messages.{ObserverJoinResponse}

abbrev pub Network : Type 0
Network = ℕ → String → Option ObserverJoinResponse

-- How a loop ends: at the node that let this one in, or without success after so many calls.
pub data Outcome : Type 0 where
  joined : String → Outcome
  failed : ℕ → Outcome
  running : Outcome

-- `resp.LeaderAddr != "" && resp.LeaderAddr != target`.
abbrev pub redirects : ObserverJoinResponse → String → Bool
redirects resp target = not (resp.leader_addr == "") && not (resp.leader_addr == target)

-- The inner loop: one seed, and the redirects that start from it.
unfoldable pub follow_redirects : Network → (fuel calls : ℕ) → String → Outcome
follow_redirects net zero calls target = running
follow_redirects net (suc fuel) calls target = elim (net calls target) [
  | none ↦ failed (suc calls)
  | some resp ↦
      let further = follow_redirects net fuel (suc calls) resp.leader_addr in
      if resp.success
      then joined target
      else if redirects resp target
      then further
      else failed (suc calls)
]

-- One pass over the seeds.
unfoldable pub try_seeds : Network → (fuel calls : ℕ) → List String → Outcome
try_seeds net fuel calls [] = failed calls
try_seeds net fuel calls (seed ∷ seeds) = elim (follow_redirects net fuel calls seed) [
  | joined target ↦ joined target
  | failed calls' ↦ try_seeds net fuel calls' seeds
  | running ↦ running
]

-- The passes: `left` of them to come.
unfoldable pub try_attempts : Network → (fuel left calls : ℕ) → List String → Outcome
try_attempts net fuel zero calls seeds = failed calls
try_attempts net fuel (suc left) calls seeds = elim (try_seeds net fuel calls seeds) [
  | joined target ↦ joined target
  | failed calls' ↦ try_attempts net fuel left calls' seeds
  | running ↦ running
]

-- `max_retries` is not negative here: a negative one gives no pass, as 0 does.
unfoldable pub join_cluster : Network → (fuel max_retries : ℕ) → List String → Outcome
join_cluster net fuel max_retries seeds = try_attempts net fuel max_retries 0 seeds
