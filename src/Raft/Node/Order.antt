-- ===== src/Raft/Node/Order.antt =====
-- Entries applied, entries committed, entries in the log: the order of the three over the steps that
-- append nothing a leader sent (src/internal/raft/node.go).
pub mod Runs
use amy_queue.Prelude.{
  ℕ, String, ◌+◌, ◌≤◌, ◌<◌, ◌≡◌, refl, ap, sym, subst, ◌∙◌, ◌⊎◌, inl, inr, Bool-cases, true, false,
  Option-cases, some, List, [], ◌∷◌, length, length-append, arith, ltb, min, u64, nat_eq, string_eq,
}
use amy_queue.Raft.Membership.{Member, members}
use amy_queue.Raft.Log.{Log, new_log, LogEntry, CommandType, last_index, append_one}
use amy_queue.Raft.Log.Contents.{append-Appended}
use amy_queue.Raft.Messages.{
  VoteRequest, VoteResponse, AppendEntriesRequest, AppendEntriesResponse, ObserverJoinRequest,
  AddVoterRequest, AddVoterResponse,
}
use amy_queue.Raft.Node.{Node, Config, new_node}
use amy_queue.Raft.Node.Election.{
  Election, CandidateEvent, stop, timeout, heartbeat, vote, on_election_timeout, take_heartbeat,
  begin_election, on_vote_response, step_down, become_leader, candidate_step, handle_vote_request,
  decide_vote,
}
use amy_queue.Raft.Node.Replication.{
  Decode, next_for, on_append_failure, on_append_response, back_off, record_match,
  handle_append_entries, follow_commit, accept, follow, store_entries, prev_matches,
}
use amy_queue.Raft.Node.Admin.{
  join_as_observer, append_command, maybe_promote_observers, promotion_threshold, promote_member,
  promote_members, on_promotion,
}
use amy_queue.Raft.Node.Commit.{IsOrdered, committed-IsOrdered, maybe_advance-IsOrdered}
use amy_queue.Raft.Node.Follower.{Matches, Stored, handle_append_entries_lem}
use amy_queue.Raft.Node.Steps.{
  Step, Reach, here, next, expires, beats, begins, hears_vote, campaigns, votes, follows, sends,
  fails, hears_append, submits, promotes, promoted,
}

-- A node with the same log and the same two indices.
abbrev pub SameOrder : Node → Node → Type 0
SameOrder n m =
    (m.log ≡ n.log) × (m.commit_index ≡ n.commit_index) × (m.last_applied ≡ n.last_applied)

pub SameOrder-IsOrdered : (n m : Node) → SameOrder n m → IsOrdered n → IsOrdered m
SameOrder-IsOrdered n m (l, c, a) v = record {
  applied_le = omega (arith, v.applied_le, c, a);
  commit_le = omega (arith, v.commit_le, c, ap last_index l);
}

pub campaigns-SameOrder :
    (e : Election) (event : CandidateEvent) (n : Node) → SameOrder n (candidate_step n e event).0
unfolding candidate_step become_leader
campaigns-SameOrder e stop n = ground arith
campaigns-SameOrder e timeout n = ground arith
campaigns-SameOrder e heartbeat n = ground arith
campaigns-SameOrder e (vote false) n = ground arith
campaigns-SameOrder e (vote true) n = ground arith

pub votes-SameOrder : (req : VoteRequest) (n : Node) → SameOrder n (handle_vote_request req n).0
unfolding handle_vote_request decide_vote step_down
votes-SameOrder req n = ground arith

pub expires-SameOrder : (n : Node) → SameOrder n (on_election_timeout n)
unfolding on_election_timeout
expires-SameOrder n = ground arith

pub hears_vote-SameOrder : (resp : VoteResponse) (n : Node) → SameOrder n (on_vote_response resp n)
unfolding on_vote_response step_down
hears_vote-SameOrder resp n = ground arith

pub sends-SameOrder : (addr : String) (n : Node) → SameOrder n (next_for addr n).0
unfolding next_for
sends-SameOrder addr n = ground arith

pub promoted-SameOrder :
    (id : String) (resp : AddVoterResponse) (n : Node) → SameOrder n (on_promotion id resp n)
unfolding on_promotion
promoted-SameOrder id resp n = ground arith

pub promote_member-SameOrder :
    (last threshold : ℕ) (m : Member) (n : Node) (calls : List AddVoterRequest)
    → SameOrder n (promote_member last threshold m (n, calls)).0
unfolding promote_member
promote_member-SameOrder last threshold m n calls = ground arith

pub submits-IsOrdered :
    (kind : CommandType) (cmd : List ℕ) (n : Node)
    → IsOrdered n
    → IsOrdered (append_command kind cmd n).0
unfolding append_command append_one last_index
submits-IsOrdered kind cmd n v = record {
  applied_le = v.applied_le;
  commit_le =
      let e : LogEntry = record {
        index = u64 (last_index n.log + 1);
        term = n.current_term;
        kind = kind;
        command = cmd;
      } in
      omega (arith, v.commit_le, length-append n.log.rest (e ∷ []));
}

pub matched-IsOrdered :
    (addr : String) (matched : ℕ) (n : Node) → IsOrdered n → IsOrdered (record_match addr matched n)
unfolding record_match
matched-IsOrdered addr matched n v = record { applied_le = v.applied_le; commit_le = v.commit_le }

pub back_off-SameOrder :
    (addr : String) (resp : AppendEntriesResponse) (n : Node) → SameOrder n (back_off addr resp n)
unfolding back_off
back_off-SameOrder addr resp n = ground arith

pub step_down-SameOrder : (term : ℕ) (n : Node) → SameOrder n (step_down term n)
unfolding step_down
step_down-SameOrder term n = (refl, refl, refl)

pub hears_append-IsOrdered :
    (decode : Decode) (addr : String) (req : AppendEntriesRequest) (resp : AppendEntriesResponse)
    (n : Node)
    → IsOrdered n
    → IsOrdered (on_append_response decode addr req resp n)
unfolding on_append_response back_off
hears_append-IsOrdered decode addr req resp n v = elim (Bool-cases (ltb n.current_term resp.term)) [
  | inl e ↦ rw e (SameOrder-IsOrdered n _ (step_down-SameOrder resp.term n) v)
  | inr e ↦ elim (Bool-cases resp.success) [
    | inl s ↦
        let matched = u64 (req.prev_log_index + length req.entries) in
        rw (e, s)
          (maybe_advance-IsOrdered decode (record_match addr matched n)
            (matched-IsOrdered addr matched n v))
    | inr s ↦ rw (e, s) (SameOrder-IsOrdered n _ (back_off-SameOrder addr resp n) v)
  ]
]
