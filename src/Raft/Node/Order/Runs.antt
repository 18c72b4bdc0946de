-- ===== src/Raft/Node/Order/Runs.antt =====
-- The order of applied, committed and last index over whole runs (src/internal/raft/node.go).
use amy_queue.Prelude.{
  ℕ, ◌+◌, ◌≤◌, ◌<◌, ◌≡◌, refl, ap, sym, subst, ◌∙◌, ◌⊎◌, inl, inr, Bool-cases, true, Option-cases,
  some, length, arith, ltb, min, nat_eq, string_eq,
}
use amy_queue.Raft.Log.{Log, new_log, last_index}
use amy_queue.Raft.Log.Contents.{append-Appended}
use amy_queue.Raft.Messages.{AppendEntriesRequest, AppendEntriesResponse}
use amy_queue.Raft.Node.{Node, Config, new_node}
use amy_queue.Raft.Node.Election.{take_heartbeat, begin_election}
use amy_queue.Raft.Node.Replication.{
  Decode, on_append_failure, handle_append_entries, follow_commit, accept, follow, store_entries,
  prev_matches,
}
use amy_queue.Raft.Node.Commit.{IsOrdered, committed-IsOrdered}
use amy_queue.Raft.Node.Follower.{Matches, Stored, handle_append_entries_lem}
use amy_queue.Raft.Node.Admin.{enroll_observer, track_observer}
use amy_queue.Raft.Node.Steps.{
  Step, Reach, here, next, expires, beats, begins, hears_vote, campaigns, votes, follows, sends,
  fails, hears_append, enrolls, tracks, submits, promotes, promoted,
}
use amy_queue.Raft.Node.Order.{
  SameOrder, SameOrder-IsOrdered, campaigns-SameOrder, votes-SameOrder, expires-SameOrder,
  hears_vote-SameOrder, sends-SameOrder, promoted-SameOrder, promote_member-SameOrder,
  submits-IsOrdered, hears_append-IsOrdered,
}

-- The two ways in which `accept` answers.
pub accept-inv :
    (decode : Decode) (old : ℕ) (req : AppendEntriesRequest) (n m : Node)
    (resp : AppendEntriesResponse)
    → accept decode old req n ≡ some (m, resp)
    → (m ≡ n)
      ⊎ ((log : Log) × (store_entries req n.log ≡ some log)
          × (follow_commit decode req.leader_commit (record n { log = log }) ≡ m)
          × (resp.success ≡ true))
unfolding accept
accept-inv decode old req n m resp h = elim (Bool-cases (prev_matches req n.log)) [
  | inl e ↦ elim (Option-cases (store_entries req n.log)) [
    | inl s ↦ ground (arith, h, e, s)
    | inr (log, s) ↦ inr (log, s, ground (arith, h, e, s), ground (arith, h, e, s))
  ]
  | inr e ↦ inl (ground (arith, h, e))
]

follow_commit-IsOrdered :
    (decode : Decode) (leader_commit : ℕ) (n : Node)
    → IsOrdered n
    → IsOrdered (follow_commit decode leader_commit n)
unfolding follow_commit
follow_commit-IsOrdered decode leader_commit n v =
    elim (Bool-cases (ltb n.commit_index leader_commit)) [
      | inl e ↦
          let a = v.applied_le in
          let c = v.commit_le in
          rw e (
            committed-IsOrdered decode n (min leader_commit (last_index n.log)) (ground (arith, e))
              (ground arith))
      | inr e ↦ rw e v
    ]

-- The request's entries, if it has any, reach as far as the entries committed.
abbrev pub Reaches : AppendEntriesRequest → Node → Type 0
Reaches req n = 0 < length req.entries → n.commit_index ≤ req.prev_log_index + length req.entries

stored_last :
    (req : AppendEntriesRequest) (log log' : Log)
    → store_entries req log ≡ some log'
    → (log' ≡ log)
      ⊎ ((0 < length req.entries) × (last_index log' ≡ req.prev_log_index + length req.entries))
unfolding store_entries
stored_last req log log' h = elim (Bool-cases (ltb 0 (length req.entries))) [
  | inl e ↦
      let a = append-Appended log log' req.prev_log_index req.entries (ground (arith, h, e)) in
      inr (ground (arith, e), a.last)
  | inr e ↦ inl (ground (arith, h, e))
]

stored-IsOrdered :
    (decode : Decode) (req : AppendEntriesRequest) (n : Node) (log : Log)
    → store_entries req n.log ≡ some log
    → Reaches req n
    → IsOrdered n
    → IsOrdered (follow_commit decode req.leader_commit (record (follow req n) { log = log }))
unfolding follow
stored-IsOrdered decode req n log s reach v =
    let last = stored_last req n.log log s in
    follow_commit-IsOrdered decode req.leader_commit (record (follow req n) { log = log })
      (record {
        applied_le = v.applied_le;
        commit_le = elim last [
          | inl same ↦ omega (arith, v.commit_le, ap last_index same)
          | inr (some_entries, e) ↦ omega (arith, reach some_entries, e)
        ];
      })

follow-SameOrder : (req : AppendEntriesRequest) (n : Node) → SameOrder n (follow req n)
unfolding follow
follow-SameOrder req n = (refl, refl, refl)

follows-IsOrdered :
    (decode : Decode) (req : AppendEntriesRequest) (n m : Node) (resp : AppendEntriesResponse)
    → handle_append_entries decode req n ≡ some (m, resp)
    → (resp.success ≡ true → Reaches req n)
    → IsOrdered n
    → IsOrdered m
unfolding handle_append_entries
follows-IsOrdered decode req n m resp h reach v =
    let same = follow-SameOrder req n in
    elim (Bool-cases (ltb req.term n.current_term)) [
      | inl e ↦ let old : n ≡ m = ground (arith, h, e) in subst IsOrdered old v
      | inr e ↦
          elim (accept-inv decode n.current_term req (follow req n) m resp (ground (arith, h, e))) [
            | inl k ↦ subst IsOrdered (sym k) (SameOrder-IsOrdered n (follow req n) same v)
            | inr (log, s, k, yes_said) ↦ subst IsOrdered k (
                stored-IsOrdered decode req n log (sym (ap (store_entries req) same.0) ∙ s)
                  (reach yes_said) v)
          ]
    ]

-- A request that the step accepts does not cut the log below the entries committed.
unfoldable pub CutsNothing : {decode : Decode} {n m : Node} → Step decode n m → Type 0
CutsNothing (follows req resp {n = n} e) = resp.success ≡ true → Reaches req n
CutsNothing _ = Unit

-- Every step keeps the order of applied, committed and last index; a request to append entries that
-- is accepted must reach as far as the entries committed.
pub Step-IsOrdered :
    {decode : Decode} {n m : Node} (st : Step decode n m)
    → CutsNothing st
    → IsOrdered n
    → IsOrdered m
unfolding take_heartbeat begin_election on_append_failure enroll_observer track_observer CutsNothing
Step-IsOrdered (expires n) c v = SameOrder-IsOrdered n _ (expires-SameOrder n) v
Step-IsOrdered (beats n) c v = record { applied_le = v.applied_le; commit_le = v.commit_le }
Step-IsOrdered (begins n) c v = record { applied_le = v.applied_le; commit_le = v.commit_le }
Step-IsOrdered (hears_vote resp n) c v = SameOrder-IsOrdered n _ (hears_vote-SameOrder resp n) v
Step-IsOrdered (campaigns e event n) c v = SameOrder-IsOrdered n _ (campaigns-SameOrder e event n) v
Step-IsOrdered (votes req n) c v = SameOrder-IsOrdered n _ (votes-SameOrder req n) v
Step-IsOrdered {decode} (follows req resp {n = n} {m = m} e) c v =
    follows-IsOrdered decode req n m resp e c v
Step-IsOrdered (sends addr n) c v = SameOrder-IsOrdered n _ (sends-SameOrder addr n) v
Step-IsOrdered (fails addr n) c v = record { applied_le = v.applied_le; commit_le = v.commit_le }
Step-IsOrdered {decode} (hears_append addr req resp n) c v =
    hears_append-IsOrdered decode addr req resp n v
Step-IsOrdered (enrolls req n) c v = record { applied_le = v.applied_le; commit_le = v.commit_le }
Step-IsOrdered (tracks req n) c v = record { applied_le = v.applied_le; commit_le = v.commit_le }
Step-IsOrdered (submits kind cmd n) c v = submits-IsOrdered kind cmd n v
Step-IsOrdered (promotes last threshold m calls n) c v =
    SameOrder-IsOrdered n _ (promote_member-SameOrder last threshold m n calls) v
Step-IsOrdered (promoted id resp n) c v = SameOrder-IsOrdered n _ (promoted-SameOrder id resp n) v

new_node-IsOrdered : (cfg : Config) → IsOrdered (new_node cfg)
unfolding new_node new_log last_index
new_node-IsOrdered cfg = record { applied_le = omega arith; commit_le = omega arith }

-- No request of the run cuts the log below the entries committed by then.
unfoldable pub NeverCuts : {decode : Decode} {n m : Node} → Reach decode n m → Type 0
NeverCuts here = Unit
NeverCuts (next r h st) = NeverCuts r × CutsNothing st

-- From its start on, a node has committed what it applies, and has in its log what it has committed,
-- in every run in which the counter of terms does not wrap and the entries of no accepted request end
-- below the entries committed, which is where such a request cuts the log.
pub Reach-IsOrdered :
    {decode : Decode} (cfg : Config) {m : Node} (r : Reach decode (new_node cfg) m)
    → NeverCuts r
    → IsOrdered m
unfolding NeverCuts
Reach-IsOrdered cfg here c = new_node-IsOrdered cfg
Reach-IsOrdered cfg (next r h st) c = Step-IsOrdered st c.1 (Reach-IsOrdered cfg r c.0)

cut_last :
    (req : AppendEntriesRequest) (n m : Node)
    → Stored req n.log m.log
    → 0 < length req.entries
    → last_index m.log ≡ req.prev_log_index + length req.entries
cut_last req n m (inl (e, _)) h = ground (arith, e)
cut_last req n m (inr a) h = a.last

-- A request with entries that matches the log but ends below the entries committed, as a delayed
-- duplicate does, cuts them off: it is accepted, its commit index brings nothing new, and the
-- follower's commit index lies behind the end of its log.
pub stale_append_cuts :
    (decode : Decode) (req : AppendEntriesRequest) (n : Node)
    → n.current_term ≤ req.term
    → Matches req n.log
    → 0 < length req.entries
    → req.prev_log_index + length req.entries < n.commit_index
    → req.leader_commit ≤ n.commit_index
    → (m : Node) × (resp : AppendEntriesResponse) × (handle_append_entries decode req n
        ≡ some (m, resp))
      × (resp.success ≡ true)
      × (last_index m.log < m.commit_index)
stale_append_cuts decode req n h matches entries_sent short old =
    let (m, resp, e, outcome) = handle_append_entries_lem decode req n in
    elim outcome [
      | inr (refusal, _) ↦ absurd (refusal (h, matches))
      | inl (_, _, a) ↦
          let last = cut_last req n m a.stored entries_sent in
          (m, resp, e, a.success, ground (arith, a.commit, last))
    ]
