-- ===== src/Raft/Node/Replication.antt =====
-- Replication: what the leader sends and learns, the follower's `handleAppendEntries`, and the
-- commit index with the entries it applies (src/internal/raft/node.go).
--
-- The bytes of a membership entry are decoded by encoding/json; `decode` stands for that, with
-- `none` for a decoding error.
use amy_queue.Prelude.{
  ℕ, zero, suc, String, ◌+◌, ◌-◌, Bool, true, false, ◌&&◌, ◌||◌, not, Option, none, some, List, [],
  ◌∷◌, length, ◌==◌, if◌then◌else◌, ltb, leb, min, insert, get_or, u64, nat_eq, string_eq,
}
use amy_queue.Raft.Membership.{
  Member, MembershipChange, add_voter_action, remove_voter_action, other_action, add_voter, remove,
  update_id, is_voter_state, members, quorum_size, all_peer_addrs,
}
use amy_queue.Raft.Log.{Log, LogEntry, cmd_membership, last_index, entry, entries_from, append}
use amy_queue.Raft.Messages.{AppendEntriesRequest, AppendEntriesResponse}
use amy_queue.Raft.Node.{Node, follower}
use amy_queue.Raft.Node.Election.{step_down}

abbrev pub Decode : Type 0
Decode = List ℕ → Option MembershipChange

-- The switch of `applyMembershipEntry`.
unfoldable pub apply_change : MembershipChange → Node → Node
apply_change mc n = elim mc.action [
  | add_voter_action ↦ record n { voters = add_voter mc.node_id mc.addr n.voters }
  | remove_voter_action ↦ record n {
    voters = remove mc.node_id n.voters;
    state = if mc.node_id == n.cfg.id then follower else n.state;
  }
  | other_action _ ↦ n
]

unfoldable pub apply_membership_entry : Decode → LogEntry → Node → Node
apply_membership_entry decode e n = elim (decode e.command) [
  | none ↦ n
  | some mc ↦ apply_change mc n
]

-- One round of the loop of `applyCommitted`.
unfoldable pub apply_next : Decode → Node → Node
apply_next decode n =
    let n' = record n { last_applied = n.last_applied + 1 } in
    elim (entry n'.log n'.last_applied) [
      | none ↦ n'
      | some e ↦ if e.kind == cmd_membership then apply_membership_entry decode e n' else n'
    ]

unfoldable pub apply_rounds : Decode → ℕ → Node → Node
apply_rounds decode zero n = n
apply_rounds decode (suc rounds) n = apply_rounds decode rounds (apply_next decode n)

-- The loop runs while `lastApplied < commitIndex`, and no round changes the commit index.
unfoldable pub apply_committed : Decode → Node → Node
apply_committed decode n = apply_rounds decode (n.commit_index - n.last_applied) n

-- The other voters of the list that hold the entry at `idx`.
unfoldable pub count_matches : Node → ℕ → List Member → ℕ
count_matches n idx [] = 0
count_matches n idx (m ∷ ms) =
    let rest = count_matches n idx ms in
    if m.id == n.cfg.id || not (is_voter_state m.state)
    then rest
    else if leb idx (get_or m.addr n.match_index 0)
    then suc rest
    else rest

-- The two tests of one round of `maybeAdvanceCommitIndex`.
unfoldable pub is_current : Node → ℕ → Bool
is_current n idx = elim (entry n.log idx) [ none ↦ false | some e ↦ e.term == n.current_term ]

unfoldable pub can_commit : Node → ℕ → Bool
can_commit n idx =
    is_current n idx && leb (quorum_size n.voters) (1 + count_matches n idx (members n.voters))

-- The loop of `maybeAdvanceCommitIndex`, at the index that lies `left` above the commit index.
unfoldable pub advance_from : Decode → ℕ → Node → Node
advance_from decode zero n = n
advance_from decode (suc left) n =
    let idx = n.commit_index + suc left in
    let committed = apply_committed decode (record n { commit_index = idx }) in
    let lower = advance_from decode left n in if can_commit n idx then committed else lower

unfoldable pub maybe_advance_commit_index : Decode → Node → Node
maybe_advance_commit_index decode n = advance_from decode (last_index n.log - n.commit_index) n

-- What `broadcastHeartbeat` reads before it starts a goroutine for each peer.
pub record Broadcast : Type 0 where
  pub term : ℕ
  pub leader_id : String
  pub leader_addr : String
  pub commit_index : ℕ
  pub peers : List String

unfoldable pub begin_broadcast : Node → Broadcast
begin_broadcast n = record {
  term = n.current_term;
  leader_id = n.cfg.id;
  leader_addr = n.cfg.addr;
  commit_index = n.commit_index;
  peers = all_peer_addrs n.cfg.id n.voters;
}

-- The goroutine's first section: the next index of the peer, set if it was not known.
unfoldable pub next_for : String → Node → Node × ℕ
next_for addr n =
    let next = get_or addr n.next_index 0 in
    if next == 0
    then (
      record n { next_index = insert addr (u64 (last_index n.log + 1)) n.next_index },
      u64 (last_index n.log + 1),
    )
    else (n, next)

-- The request, from the log as it stands then. The next index is at least 1.
unfoldable pub build_append : Broadcast → ℕ → Log → AppendEntriesRequest
build_append b next log = record {
  term = b.term;
  leader_id = b.leader_id;
  leader_addr = b.leader_addr;
  prev_log_index = next - 1;
  prev_log_term = elim (entry log (next - 1)) [ none ↦ 0 | some e ↦ e.term ];
  entries = entries_from log next;
  leader_commit = b.commit_index;
}

-- A call that failed.
unfoldable pub on_append_failure : String → Node → Node
on_append_failure addr n = record n {
  heartbeat_failures =
      insert addr (u64 (get_or addr n.heartbeat_failures 0 + 1)) n.heartbeat_failures;
}

unfoldable pub back_off : String → AppendEntriesResponse → Node → Node
back_off addr resp n =
    let next = get_or addr n.next_index 0 in
    if ltb 0 resp.next_index && ltb resp.next_index next
    then record n { next_index = insert addr resp.next_index n.next_index }
    else if ltb 1 next
    then record n { next_index = insert addr (next - 1) n.next_index }
    else n

unfoldable pub record_match : String → ℕ → Node → Node
record_match addr matched n = record n {
  match_index = insert addr matched n.match_index;
  next_index = insert addr (u64 (matched + 1)) n.next_index;
}

-- A call that was answered.
unfoldable pub on_append_response :
    Decode → String → AppendEntriesRequest → AppendEntriesResponse → Node → Node
on_append_response decode addr req resp n =
    if ltb n.current_term resp.term
    then step_down resp.term n
    else if resp.success
    then maybe_advance_commit_index decode
        (record_match addr (u64 (req.prev_log_index + length req.entries)) n)
    else back_off addr resp n

-- `handleAppendEntries` up to its test of the previous entry: the node follows the sender.
unfoldable pub follow : AppendEntriesRequest → Node → Node
follow req n = record n {
  current_term = req.term;
  voted_for = if ltb n.current_term req.term then "" else n.voted_for;
  leader_changes =
      if req.leader_id == n.leader_id then n.leader_changes else u64 (n.leader_changes + 1);
  state = follower;
  leader_id = req.leader_id;
  leader_addr = req.leader_addr;
  voters =
      if not (req.leader_id == "") && not (req.leader_addr == "")
      then update_id req.leader_addr req.leader_id n.voters
      else n.voters;
  heartbeat_pending = true;
}

unfoldable pub prev_matches : AppendEntriesRequest → Log → Bool
prev_matches req log =
    if req.prev_log_index == 0
    then true
    else elim (entry log req.prev_log_index) [ none ↦ false | some e ↦ e.term == req.prev_log_term ]

unfoldable pub store_entries : AppendEntriesRequest → Log → Option Log
store_entries req log =
    if ltb 0 (length req.entries) then append log req.prev_log_index req.entries else some log

unfoldable pub follow_commit : Decode → ℕ → Node → Node
follow_commit decode leader_commit n =
    if ltb n.commit_index leader_commit
    then apply_committed decode (record n { commit_index = min leader_commit (last_index n.log) })
    else n

-- The rest of `handleAppendEntries`; `old` is the term of the prepared answer, and `none` is the
-- panic of `append`.
unfoldable pub accept :
    Decode → ℕ → AppendEntriesRequest → Node → Option (Node × AppendEntriesResponse)
accept decode old req n =
    if prev_matches req n.log
    then elim (store_entries req n.log) [
      | none ↦ none
      | some log ↦
          let n' = follow_commit decode req.leader_commit (record n { log = log }) in
          some (n', record { term = n'.current_term; success = true; next_index = 0 })
    ]
    else some (n, record { term = old; success = false; next_index = u64 (last_index n.log + 1) })

unfoldable pub handle_append_entries :
    Decode → AppendEntriesRequest → Node → Option (Node × AppendEntriesResponse)
handle_append_entries decode req n =
    if ltb req.term n.current_term
    then some (n, record { term = n.current_term; success = false; next_index = 0 })
    else accept decode n.current_term req (follow req n)
