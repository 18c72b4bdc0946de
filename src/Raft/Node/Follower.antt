-- ===== src/Raft/Node/Follower.antt =====
-- `handleAppendEntries` as the leader sees it (src/internal/raft/node.go).
mod Logs
pub use Logs.{Matches, Stored}
mod Commits
pub use Commits.{followed}
use Commits.{follow_commit-index, follow_commit-follower}
use Logs.{prev_matches_iff, Matches-le, stored_lem}
use native.Mathlib.Decide.{dec_lt}
use amy_queue.Prelude.{
  ℕ, ◌+◌, ◌≤◌, ◌<◌, ◌≡◌, ◌↔◌, refl, ap, sym, ◌∙◌, ◌⊎◌, inl, inr, Bool-cases, true, false,
  Option-cases, some, List, [], ◌∷◌, arith, if◌then◌else◌, ltb, lt→ltb, min, ◌==◌, u64, nat_eq,
  string_eq,
}
use amy_queue.Raft.Membership.{MembershipChange}
use amy_queue.Raft.Log.{Log, LogEntry, entry, last_index}
use amy_queue.Raft.Log.Contents.{Appended, entry_iff, append-Appended, append-some}
use amy_queue.Raft.Messages.{AppendEntriesRequest, AppendEntriesResponse}
use amy_queue.Raft.Node.{Node, follower}
use amy_queue.Raft.Node.Replication.{
  Decode, apply_change, apply_committed, handle_append_entries, accept, follow, follow_commit,
  store_entries, prev_matches,
}
use amy_queue.Raft.Node.Frames.{
  apply_rounds_inv, follow_commit-SameBase, apply_committed-SameCommit,
}

accept_yes :
    (decode : Decode) (old : ℕ) (req : AppendEntriesRequest) (n : Node) (log : Log)
    → prev_matches req n.log ≡ true
    → store_entries req n.log ≡ some log
    → let m = follow_commit decode req.leader_commit (record n { log = log }) in
      accept decode old req n
      ≡ some (m, record { term = m.current_term; success = true; next_index = 0 })
unfolding accept
accept_yes decode old req n log e s = rw (e, s)

accept_no :
    (decode : Decode) (old : ℕ) (req : AppendEntriesRequest) (n : Node)
    → prev_matches req n.log ≡ false
    → accept decode old req n
      ≡ some (n, record { term = old; success = false; next_index = u64 (last_index n.log + 1) })
unfolding accept
accept_no decode old req n e = rw e

-- An accepted request: the node follows the sender in the sender's term, its log holds what the
-- request brought, and its commit index follows the leader's up to the end of the log.
pub record Accepted (req : AppendEntriesRequest) (n m : Node) (resp : AppendEntriesResponse)
    : Type 0 where
  pub success : resp.success ≡ true
  pub term : (resp.term ≡ req.term) × (m.current_term ≡ req.term)
  pub state : m.state ≡ follower
  pub stored : Stored req n.log m.log
  pub commit : m.commit_index ≡ followed n.commit_index req.leader_commit (last_index m.log)

-- A refused request changes neither log nor commit index. The answer is in the term that the node was
-- in; one that found no match asks for the entries behind the end of the log.
pub record Refused (req : AppendEntriesRequest) (n m : Node) (resp : AppendEntriesResponse)
    : Type 0 where
  pub success : resp.success ≡ false
  pub term : resp.term ≡ n.current_term
  pub log : m.log ≡ n.log
  pub commit : m.commit_index ≡ n.commit_index
  pub next :
      ((req.term < n.current_term) × (m ≡ n))
      ⊎ ((n.current_term ≤ req.term)
          × (m.current_term ≡ req.term)
          × (resp.next_index ≡ u64 (last_index n.log + 1)))

handle_old :
    (decode : Decode) (req : AppendEntriesRequest) (n : Node)
    → req.term < n.current_term
    → handle_append_entries decode req n
      ≡ some (n, record { term = n.current_term; success = false; next_index = 0 })
unfolding handle_append_entries
handle_old decode req n h = rw (lt→ltb _ _ h)

handle_new :
    (decode : Decode) (req : AppendEntriesRequest) (n : Node)
    → n.current_term ≤ req.term
    → handle_append_entries decode req n ≡ accept decode n.current_term req (follow req n)
unfolding handle_append_entries
handle_new decode req n h = let e : ltb req.term n.current_term ≡ false = ground arith in rw e

follow_lem :
    (req : AppendEntriesRequest) (n : Node)
    → ((follow req n).log ≡ n.log)
      × ((follow req n).commit_index ≡ n.commit_index)
      × ((follow req n).last_applied ≡ n.last_applied)
      × ((follow req n).current_term ≡ req.term)
      × ((follow req n).state ≡ follower)
unfolding follow
follow_lem req n = (refl, refl, refl, refl, refl)

-- The two answers to a request that is not of an older term.
abbrev Answers : Decode → AppendEntriesRequest → Node → Type 0
Answers decode req n =
    (m : Node) × (resp : AppendEntriesResponse) × (handle_append_entries decode req n
      ≡ some (m, resp))
    × (((n.current_term ≤ req.term) × Matches req n.log × Accepted req n m resp)
        ⊎ (¬ ((n.current_term ≤ req.term) × Matches req n.log) × Refused req n m resp))

handle_matching :
    (decode : Decode) (req : AppendEntriesRequest) (n : Node)
    → n.current_term ≤ req.term
    → prev_matches req n.log ≡ true
    → Answers decode req n
handle_matching decode req n le e =
    let matches = (prev_matches_iff req n.log).0 e in
    let (log, s, stored) = stored_lem req req.entries n.log refl (Matches-le req n.log matches) in
    let (same_log, same_commit, _, in_term, is_follower) = follow_lem req n in
    let n' = record (follow req n) { log = log } in
    let m = follow_commit decode req.leader_commit n' in
    let b = follow_commit-SameBase decode req.leader_commit n' in
    (
      m,
      record { term = m.current_term; success = true; next_index = 0 },
      handle_new decode req n le
          ∙ accept_yes decode n.current_term req (follow req n) log (rw same_log e) (rw same_log s),
      inl (
        le,
        matches,
        record {
          success = refl;
          term = (b.current_term ∙ in_term, b.current_term ∙ in_term);
          state = follow_commit-follower decode req.leader_commit n' is_follower;
          stored = rw b.log stored;
          commit =
              follow_commit-index decode req.leader_commit n'
              ∙ ap (λ (k : ℕ). followed k req.leader_commit (last_index log)) same_commit
              ∙ ap (λ (l : Log). followed n.commit_index req.leader_commit (last_index l))
                  (sym b.log);
        },
      ),
    )

handle_unmatched :
    (decode : Decode) (req : AppendEntriesRequest) (n : Node)
    → n.current_term ≤ req.term
    → prev_matches req n.log ≡ false
    → Answers decode req n
handle_unmatched decode req n le e =
    let (same_log, same_commit, _, in_term, _) = follow_lem req n in
    let none_matches : ¬ Matches req n.log =
      λ h. ground (arith, (prev_matches_iff req n.log).1 h, e) in
    (
      follow req n,
      record {
        term = n.current_term;
        success = false;
        next_index = u64 (last_index (follow req n).log + 1);
      },
      handle_new decode req n le
          ∙ accept_no decode n.current_term req (follow req n) (rw same_log e),
      inr (
        (λ h. none_matches h.1),
        record {
          success = refl;
          term = refl;
          log = same_log;
          commit = same_commit;
          next = inr (le, in_term, ap (λ (l : Log). u64 (last_index l + 1)) same_log);
        },
      ),
    )

-- `AppendEntries` never runs into the panic of the log's slice: there is always an answer. It is
-- success, with the effects of `Accepted`, if the request is not of an older term and the entry
-- before the new ones matches, and otherwise a refusal, with those of `Refused`.
pub handle_append_entries_lem :
    (decode : Decode) (req : AppendEntriesRequest) (n : Node)
    → (m : Node) × (resp : AppendEntriesResponse) × (handle_append_entries decode req n
        ≡ some (m, resp))
      × (((n.current_term ≤ req.term) × Matches req n.log × Accepted req n m resp)
          ⊎ (¬ ((n.current_term ≤ req.term) × Matches req n.log) × Refused req n m resp))
handle_append_entries_lem decode req n = elim (dec_lt req.term n.current_term) [
  | yes old ↦ (
    n,
    record { term = n.current_term; success = false; next_index = 0 },
    handle_old decode req n old,
    inr (
      (λ h. absurd (omega (arith, h.0))),
      record { success = refl; term = refl; log = refl; commit = refl; next = inl (old, refl) },
    ),
  )
  | no new ↦
      let le : n.current_term ≤ req.term = omega arith in
      elim (Bool-cases (prev_matches req n.log)) [
        | inl e ↦ handle_matching decode req n le e
        | inr e ↦ handle_unmatched decode req n le e
      ]
]
