-- ===== src/Raft/Node/Statics.antt =====
-- What a node's steps do to its id and its voter set when no entry of the logs changes the membership
-- (src/internal/raft/node.go).
use amy_queue.Prelude.{
  ℕ, zero, suc, String, ◌+◌, ◌-◌, ◌≡◌, ◌≢◌, ap, ◌∙◌, false, ◌⊎◌, refl, sym, ◌∙◌, subst, inl, inr,
  Bool-cases, Option-cases, true, false, some, List, length, arith, ltb, min, ◌==◌, u64, nat_eq,
  string_eq,
}
use amy_queue.Raft.Membership.{Member}
use amy_queue.Raft.Log.{Log, LogEntry, entry, cmd_membership, last_index}
use amy_queue.Raft.Messages.{
  VoteRequest, VoteResponse, AppendEntriesRequest, AppendEntriesResponse, AddVoterRequest,
  AddVoterResponse,
}
use amy_queue.Raft.Node.{Node}
use amy_queue.Raft.Node.Election.{
  Election, CandidateEvent, stop, timeout, heartbeat, vote, on_election_timeout, on_vote_response,
  step_down, become_leader, candidate_step, handle_vote_request, decide_vote,
}
use amy_queue.Raft.Node.Replication.{
  Decode, apply_next, apply_rounds, apply_committed, advance_from, can_commit,
  maybe_advance_commit_index, next_for, on_append_response, back_off, record_match,
  handle_append_entries, follow_commit, follow,
}
use amy_queue.Raft.Node.Admin.{promote_member, on_promotion}
use amy_queue.Raft.Node.Frames.{
  apply_next-log, follow_commit-SameBase, advance_from-zero, advance_from-suc-true,
  advance_from-suc-false,
}
use amy_queue.Raft.Node.Order.Runs.{accept-inv}

-- The same id and the same voter set.
abbrev pub SameRoll : Node → Node → Type 0
SameRoll n m = (n.cfg.id ≡ m.cfg.id) × (n.voters ≡ m.voters)

-- No entry of the log is a membership change.
abbrev pub IsStatic : Log → Type 0
IsStatic l = (i : ℕ) (e : LogEntry) → entry l i ≡ some e → e.kind ≢ cmd_membership

SameRoll-trans : (n m k : Node) → SameRoll n m → SameRoll m k → SameRoll n k
SameRoll-trans n m k (a, b) (c, d) = (a ∙ c, b ∙ d)

pub expires-SameRoll : (n : Node) → SameRoll n (on_election_timeout n)
unfolding on_election_timeout
expires-SameRoll n = ground arith

pub hears_vote-SameRoll : (resp : VoteResponse) (n : Node) → SameRoll n (on_vote_response resp n)
unfolding on_vote_response step_down
hears_vote-SameRoll resp n = ground arith

pub campaigns-SameRoll :
    (e : Election) (event : CandidateEvent) (n : Node) → SameRoll n (candidate_step n e event).0
unfolding candidate_step become_leader
campaigns-SameRoll e stop n = (refl, refl)
campaigns-SameRoll e timeout n = (refl, refl)
campaigns-SameRoll e heartbeat n = (refl, refl)
campaigns-SameRoll e (vote false) n = (refl, refl)
campaigns-SameRoll e (vote true) n = ground arith

pub votes-SameRoll : (req : VoteRequest) (n : Node) → SameRoll n (handle_vote_request req n).0
unfolding handle_vote_request decide_vote step_down
votes-SameRoll req n = ground arith

pub sends-SameRoll : (addr : String) (n : Node) → SameRoll n (next_for addr n).0
unfolding next_for
sends-SameRoll addr n = ground arith

pub promotes-SameRoll :
    (last threshold : ℕ) (m : Member) (n : Node) (calls : List AddVoterRequest)
    → SameRoll n (promote_member last threshold m (n, calls)).0
unfolding promote_member
promotes-SameRoll last threshold m n calls = ground arith

pub promoted-SameRoll :
    (id : String) (resp : AddVoterResponse) (n : Node) → SameRoll n (on_promotion id resp n)
unfolding on_promotion
promoted-SameRoll id resp n = ground arith

module _ (decode : Decode) where
  next-SameRoll : (n : Node) → IsStatic n.log → SameRoll n (apply_next decode n)
  unfolding apply_next
  next-SameRoll n static = elim (Option-cases (entry n.log (n.last_applied + 1))) [
    | inl h ↦ rw (h, apply_next) (refl, refl)
    | inr (e, h) ↦
        let other : (e.kind == cmd_membership) ≡ false =
          ground (arith, static (n.last_applied + 1) e h) in
        rw (h, apply_next) (rw other (refl, refl))
  ]

  rounds-SameRoll :
      (rounds : ℕ) (n : Node) → IsStatic n.log → SameRoll n (apply_rounds decode rounds n)
  unfolding apply_rounds
  rounds-SameRoll zero n static = (refl, refl)
  rounds-SameRoll (suc rounds) n static =
      SameRoll-trans n (apply_next decode n) (apply_rounds decode rounds (apply_next decode n))
        (next-SameRoll n static)
        (rounds-SameRoll rounds (apply_next decode n)
          (subst IsStatic (sym (apply_next-log decode n)) static))

  committed-SameRoll : (n : Node) → IsStatic n.log → SameRoll n (apply_committed decode n)
  unfolding apply_committed
  committed-SameRoll n = rounds-SameRoll (n.commit_index - n.last_applied) n

  advance-SameRoll :
      (left : ℕ) (n : Node) → IsStatic n.log → SameRoll n (advance_from decode left n)
  advance-SameRoll zero n static = subst (SameRoll n) (advance_from-zero decode n) (refl, refl)
  advance-SameRoll (suc left) n static =
      elim (Bool-cases (can_commit n (n.commit_index + suc left))) [
        | inl e ↦
            subst (SameRoll n) (sym (advance_from-suc-true decode left n e))
              (committed-SameRoll (record n { commit_index = n.commit_index + suc left }) static)
        | inr e ↦
            subst (SameRoll n) (sym (advance_from-suc-false decode left n e))
              (advance-SameRoll left n static)
      ]

  maybe_advance-SameRoll :
      (n : Node) → IsStatic n.log → SameRoll n (maybe_advance_commit_index decode n)
  unfolding maybe_advance_commit_index
  maybe_advance-SameRoll n = advance-SameRoll (last_index n.log - n.commit_index) n

  pub hears_append-SameRoll :
      (addr : String) (req : AppendEntriesRequest) (resp : AppendEntriesResponse) (n : Node)
      → IsStatic n.log
      → SameRoll n (on_append_response decode addr req resp n)
  unfolding on_append_response step_down back_off record_match
  hears_append-SameRoll addr req resp n static =
      let matched = u64 (req.prev_log_index + length req.entries) in
      ground (arith, maybe_advance-SameRoll (record_match addr matched n) static)

  follow_commit-SameRoll :
      (leader_commit : ℕ) (n : Node)
      → IsStatic n.log
      → SameRoll n (follow_commit decode leader_commit n)
  unfolding follow_commit
  follow_commit-SameRoll leader_commit n static =
      elim (Bool-cases (ltb n.commit_index leader_commit)) [
        | inl e ↦ rw e (
            committed-SameRoll (record n { commit_index = min leader_commit (last_index n.log) })
              static)
        | inr e ↦ rw e (refl, refl)
      ]

  -- An append request changes at most what following its sender changes.
  pub follows-SameRoll :
      (req : AppendEntriesRequest) (n m : Node) (resp : AppendEntriesResponse)
      → handle_append_entries decode req n ≡ some (m, resp)
      → IsStatic m.log
      → (SameRoll n m) ⊎ (SameRoll (follow req n) m)
  unfolding handle_append_entries
  follows-SameRoll req n m resp h static = elim (Bool-cases (ltb req.term n.current_term)) [
    | inl e ↦ let old : n ≡ m = ground (arith, h, e) in inl (subst (SameRoll n) old (refl, refl))
    | inr e ↦
        elim (accept-inv decode n.current_term req (follow req n) m resp (ground (arith, h, e))) [
          | inl k ↦ inr (subst (SameRoll (follow req n)) (sym k) (refl, refl))
          | inr (log, s, k, _) ↦
              let n' = record (follow req n) { log = log } in
              let b = follow_commit-SameBase decode req.leader_commit n' in
              let same : m.log ≡ log = ap (λ (x : Node). x.log) (sym k) ∙ b.log in
              inr (
                subst (SameRoll (follow req n)) k
                  (follow_commit-SameRoll req.leader_commit n' (subst IsStatic same static)))
        ]
  ]
