-- ===== src/Raft/Node/Admin.antt =====
-- Administration of a cluster's members: joins, changes of the voters through the log, and the
-- promotion of observers (src/internal/raft/node.go). A call that blocks is given by its parts: the
-- section that checks, the section that appends, and what each poll of the commit index answers.
use amy_queue.Prelude.{
  ℕ, String, ◌+◌, ◌-◌, true, false, ◌&&◌, ◌||◌, not, Option, none, some, List, [], ◌∷◌, ◌==◌,
  if◌then◌else◌, ltb, leb, insert, delete, get_or, two63, u64, nat_eq, string_eq,
}
use amy_queue.Raft.Membership.{
  Member, MembershipChange, add_voter_action, remove_voter_action, add_observer, is_voter_state,
  members,
}
use amy_queue.Raft.Log.{CommandType, last_index, append_one}
use amy_queue.Raft.Messages.{
  ObserverJoinRequest, ObserverJoinResponse, AddVoterRequest, AddVoterResponse, RemoveVoterRequest,
  RemoveVoterResponse,
}
use amy_queue.Raft.Node.{Node, is_leader, mode_static, mode_dynamic}

abbrev pub err_not_leader : String
err_not_leader = "not the leader"

-- The two sections behind the checks of `JoinAsObserver`: the members, then the leader's indices.
unfoldable pub enroll_observer : ObserverJoinRequest → Node → Node
enroll_observer req n = record n { voters = add_observer req.node_id req.addr n.voters }

unfoldable pub track_observer : ObserverJoinRequest → Node → Node
track_observer req n = record n {
  next_index = insert req.addr (u64 (last_index n.log + 1)) n.next_index;
  match_index = insert req.addr 0 n.match_index;
}

-- What the other goroutines do to the node while an operation does not hold its lock.
abbrev pub Others : Type 0
Others = Node → Node

-- `JoinAsObserver`. The lock is free after the first section, and between the last two.
unfoldable pub join_as_observer :
    (first second : Others) → ObserverJoinRequest → Node → Node × ObserverJoinResponse
join_as_observer first second req n =
    let later = first n in
    if not (is_leader n.state)
    then (
      later,
      record {
        success = false;
        leader_id = n.leader_id;
        leader_addr = later.leader_addr;
        err = err_not_leader;
      },
    )
    else if n.cfg.mode == mode_static
    then (
      later,
      record {
        success = false;
        leader_id = "";
        leader_addr = "";
        err = "cluster is in static mode, dynamic join not allowed";
      },
    )
    else (
      track_observer req (second (enroll_observer req later)),
      record { success = true; leader_id = ""; leader_addr = ""; err = "" },
    )

-- `json.Marshal` of a membership change: the bytes, or the text of its error.
pub data Encoded : Type 0 where
  bytes : List ℕ → Encoded
  failed : String → Encoded

-- What the checks of an operation come to: an answer at once, or a command for the log.
pub data Checked (R : Type 0) : Type 0 where
  answer : R → Checked R
  submit : List ℕ → Checked R

-- The checks of `AddVoter`; `encode` is applied to the change that it submits. The lock is free after
-- the state is read, and `later` is the node when the leader's address is.
unfoldable pub check_add_voter :
    (MembershipChange → Encoded) → AddVoterRequest → Node → Node → Checked AddVoterResponse
check_add_voter encode req n later =
    if not (is_leader n.state)
    then answer (record {
      success = false;
      leader_id = n.leader_id;
      leader_addr = later.leader_addr;
      err = err_not_leader;
    })
    else if n.cfg.mode == mode_static
    then answer (record {
      success = false;
      leader_id = "";
      leader_addr = "";
      err = "cluster is in static mode";
    })
    else elim (encode
        (record { action = add_voter_action; node_id = req.node_id; addr = req.addr })) [
          | bytes cmd ↦ submit cmd
          | failed e ↦
              answer (record { success = false; leader_id = ""; leader_addr = ""; err = e })
        ]

unfoldable pub check_remove_voter :
    (MembershipChange → Encoded) → RemoveVoterRequest → Node → Node → Checked RemoveVoterResponse
check_remove_voter encode req n later =
    if not (is_leader n.state)
    then answer (record {
      success = false;
      leader_id = n.leader_id;
      leader_addr = later.leader_addr;
      err = err_not_leader;
    })
    else if n.cfg.mode == mode_static
    then answer (record {
      success = false;
      leader_id = "";
      leader_addr = "";
      err = "cluster is in static mode";
    })
    else elim (encode (record { action = remove_voter_action; node_id = req.node_id; addr = "" })) [
      | bytes cmd ↦ submit cmd
      | failed e ↦ answer (record { success = false; leader_id = ""; leader_addr = ""; err = e })
    ]

-- The first section of `appendAndWaitCommit`, with the index that it waits for.
unfoldable pub append_command : CommandType → List ℕ → Node → Node × ℕ
append_command kind cmd n =
    let idx = u64 (last_index n.log + 1) in
    (
      record n {
        log =
            append_one n.log
              (record { index = idx; term = n.current_term; kind = kind; command = cmd });
      },
      idx,
    )

-- Its polls: the commit indices that are read before the deadline passes.
unfoldable pub wait_commit : ℕ → List ℕ → Option String
wait_commit idx [] = some "timeout waiting for log entry to commit"
wait_commit idx (commit_index ∷ polls) =
    let rest = wait_commit idx polls in if leb idx commit_index then none else rest

unfoldable pub finish_add_voter : Option String → AddVoterResponse
finish_add_voter none = record { success = true; leader_id = ""; leader_addr = ""; err = "" }
finish_add_voter (some e) = record { success = false; leader_id = ""; leader_addr = ""; err = e }

unfoldable pub finish_remove_voter : Option String → RemoveVoterResponse
finish_remove_voter none = record { success = true; leader_id = ""; leader_addr = ""; err = "" }
finish_remove_voter (some e) = record { success = false; leader_id = ""; leader_addr = ""; err = e }

-- `threshold <= 0` of an `int` takes the default.
unfoldable pub promotion_threshold : Node → ℕ
promotion_threshold n =
    let t = n.cfg.auto_promote_lag_threshold in if ltb 0 t && ltb t two63 then t else 10

-- One round of the loop of `maybePromoteObservers`, with the calls of `AddVoter` that it starts.
unfoldable pub promote_member :
    (last threshold : ℕ) → Member → Node × List AddVoterRequest → Node × List AddVoterRequest
promote_member last threshold m (n, calls) =
    let pending = get_or m.id n.pending_promotion false in
    let marked = record n { pending_promotion = insert m.id true n.pending_promotion } in
    if is_voter_state m.state || ltb threshold (last - get_or m.addr n.match_index 0) || pending
    then (n, calls)
    else if n.cfg.auto_promote
    then (marked, record { node_id = m.id; addr = m.addr } ∷ calls)
    else (marked, calls)

unfoldable pub promote_members :
    (last threshold : ℕ) → List Member → Node × List AddVoterRequest → Node × List AddVoterRequest
promote_members last threshold [] r = r
promote_members last threshold (m ∷ ms) r =
    promote_members last threshold ms (promote_member last threshold m r)

-- `maybePromoteObservers` where nothing runs between its sections.
unfoldable pub maybe_promote_observers : Node → Node × List AddVoterRequest
maybe_promote_observers n =
    if not (n.cfg.mode == mode_dynamic) || not (is_leader n.state)
    then (n, [])
    else promote_members (last_index n.log) (promotion_threshold n) (members n.voters) (n, [])

-- What the started goroutine does with the answer: a failure makes the observer eligible again.
unfoldable pub on_promotion : String → AddVoterResponse → Node → Node
on_promotion id resp n =
    if resp.err == "" then n else record n { pending_promotion = delete id n.pending_promotion }
