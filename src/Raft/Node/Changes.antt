-- ===== src/Raft/Node/Changes.antt =====
-- `AddVoter` and `RemoveVoter` from the checks to the entry that is applied (src/internal/raft/node.go).
use amy_queue.Prelude.{
  ℕ, suc, String, ◌+◌, ◌≡◌, ◌≢◌, ◌⊎◌, refl, ap, sym, u64, eq_iff, ◌∙◌, inl, inr, true, false, some,
  List, [], ◌∷◌, ◌++◌, length, arith, ◌==◌, get_elem?, get_elem?-append_right, lookup-insert_self,
  lookup-delete_self, nat_eq, string_eq,
}
use amy_queue.Raft.Membership.{
  MembershipChange, add_voter_action, remove_voter_action, add_voter, remove, is_voter, voter,
}
use amy_queue.Raft.Log.{Log, LogEntry, cmd_membership, entry, last_index, append_one}
use amy_queue.Raft.Messages.{AddVoterRequest, RemoveVoterRequest}
use amy_queue.Raft.Node.{Node, follower, leader, is_leader, mode_static}
use amy_queue.Raft.Node.Replication.{Decode, apply_change, apply_membership_entry, apply_next}
use amy_queue.Raft.Node.Frames.{counted}
use amy_queue.Raft.Node.Admin.{
  Encoded, bytes, failed, submit, check_add_voter, check_remove_voter, append_command,
}

append_one-entry : (l : Log) (e : LogEntry) → entry (append_one l e) (last_index l + 1) ≡ some e
unfolding entry append_one last_index
append_one-entry l e =
    ap (λ (i : ℕ). get_elem? (l.sentinel ∷ (l.rest ++ e ∷ [])) i)
      (let q : length l.rest + 1 ≡ suc (length l.rest + 0) = omega arith in q)
    ∙ get_elem?-append_right l.rest (e ∷ []) 0

-- The node as it stands when the entry that it has just appended is the next one to be applied.
abbrev pub submitted : List ℕ → Node → Node
submitted cmd n = record (append_command cmd_membership cmd n).0 { last_applied = last_index n.log }

apply_next-entry :
    (decode : Decode) (n : Node) (e : LogEntry) (mc : MembershipChange)
    → entry n.log (n.last_applied + 1) ≡ some e
    → e.kind ≡ cmd_membership
    → decode e.command ≡ some mc
    → apply_next decode n ≡ apply_change mc (counted n)
unfolding apply_next apply_membership_entry
apply_next-entry decode n e mc found kind d =
    rw (apply_next, found, kind) (rw (apply_membership_entry, d) refl)

submitted-applied :
    (decode : Decode) (cmd : List ℕ) (mc : MembershipChange) (n : Node)
    → decode cmd ≡ some mc
    → apply_next decode (submitted cmd n) ≡ apply_change mc (counted (submitted cmd n))
unfolding append_command
submitted-applied decode cmd mc n h =
    apply_next-entry decode (submitted cmd n)
      (record {
        index = u64 (last_index n.log + 1);
        term = n.current_term;
        kind = cmd_membership;
        command = cmd;
      })
      mc (append_one-entry n.log _) refl h

submitted-cfg_id : (cmd : List ℕ) (n : Node) → (submitted cmd n).cfg.id ≡ n.cfg.id
unfolding append_command
submitted-cfg_id cmd n = refl

encoded_cases : (x : Encoded) → ((cmd : List ℕ) × (x ≡ bytes cmd)) ⊎ ((e : String) × (x ≡ failed e))
encoded_cases (bytes cmd) = inl (cmd, refl)
encoded_cases (failed e) = inr (e, refl)

-- The changes that the two calls submit.
abbrev pub addition : AddVoterRequest → MembershipChange
addition req = record { action = add_voter_action; node_id = req.node_id; addr = req.addr }

abbrev pub removal : RemoveVoterRequest → MembershipChange
removal req = record { action = remove_voter_action; node_id = req.node_id; addr = "" }

pub check_add_voter-inv :
    (encode : MembershipChange → Encoded) (req : AddVoterRequest) (n later : Node) (cmd : List ℕ)
    → check_add_voter encode req n later ≡ submit cmd
    → (is_leader n.state ≡ true)
      × ((n.cfg.mode == mode_static) ≡ false)
      × (encode (addition req) ≡ bytes cmd)
unfolding check_add_voter
check_add_voter-inv encode req n later cmd h = elim (encoded_cases (encode (addition req))) [
  | inl (x, e) ↦ ground (arith, h, e)
  | inr (x, e) ↦ ground (arith, h, e)
]

check_remove_voter-inv :
    (encode : MembershipChange → Encoded) (req : RemoveVoterRequest) (n later : Node) (cmd : List ℕ)
    → check_remove_voter encode req n later ≡ submit cmd
    → (is_leader n.state ≡ true)
      × ((n.cfg.mode == mode_static) ≡ false)
      × (encode (removal req) ≡ bytes cmd)
unfolding check_remove_voter
check_remove_voter-inv encode req n later cmd h = elim (encoded_cases (encode (removal req))) [
  | inl (x, e) ↦ ground (arith, h, e)
  | inr (x, e) ↦ ground (arith, h, e)
]

applied_addition :
    (req : AddVoterRequest) (n : Node)
    → is_voter req.node_id (apply_change (addition req) n).voters ≡ true
unfolding apply_change add_voter is_voter
applied_addition req n = ground (
  arith,
  lookup-insert_self req.node_id (record { id = req.node_id; addr = req.addr; state = voter })
      n.voters,
)

applied_removal :
    (req : RemoveVoterRequest) (n : Node)
    → (is_voter req.node_id (apply_change (removal req) n).voters ≡ false)
      × (req.node_id ≡ n.cfg.id → (apply_change (removal req) n).state ≡ follower)
unfolding apply_change remove is_voter
applied_removal req n = (
  ground (arith, lookup-delete_self req.node_id n.voters),
  λ own. ground (arith, own, eq_iff req.node_id n.cfg.id),
)

-- Only a leader outside static mode submits the addition of a voter, and if the codec reads back what
-- it has written, the node is a voter once the submitted entry is applied.
pub add_voter_lem :
    (encode : MembershipChange → Encoded) (decode : Decode) (req : AddVoterRequest) (n later : Node)
    (cmd : List ℕ)
    (reads_back : encode (addition req) ≡ bytes cmd → decode cmd ≡ some (addition req))
    → check_add_voter encode req n later ≡ submit cmd
    → (n.state ≡ leader)
      × (n.cfg.mode ≢ mode_static)
      × (is_voter req.node_id (apply_next decode (submitted cmd n)).voters ≡ true)
add_voter_lem encode decode req n later cmd reads_back h =
    let (lead, mode, wrote) = check_add_voter-inv encode req n later cmd h in
    (
      ground (arith, lead),
      ground (arith, mode, eq_iff n.cfg.mode mode_static),
      rw (submitted-applied decode cmd (addition req) n (reads_back wrote))
          (applied_addition req (counted (submitted cmd n))),
    )

-- Only a leader outside static mode submits the removal of a voter, and if the codec reads back what
-- it has written, the node is no voter once the submitted entry is applied; a leader that has removed
-- itself is then a follower.
pub remove_voter_lem :
    (encode : MembershipChange → Encoded) (decode : Decode) (req : RemoveVoterRequest)
    (n later : Node) (cmd : List ℕ)
    (reads_back : encode (removal req) ≡ bytes cmd → decode cmd ≡ some (removal req))
    → check_remove_voter encode req n later ≡ submit cmd
    → (n.state ≡ leader)
      × (n.cfg.mode ≢ mode_static)
      × (is_voter req.node_id (apply_next decode (submitted cmd n)).voters ≡ false)
      × (req.node_id ≡ n.cfg.id → (apply_next decode (submitted cmd n)).state ≡ follower)
remove_voter_lem encode decode req n later cmd reads_back h =
    let (lead, mode, wrote) = check_remove_voter-inv encode req n later cmd h in
    let applied = submitted-applied decode cmd (removal req) n (reads_back wrote) in
    let (gone, stepped) = applied_removal req (counted (submitted cmd n)) in
    (
      ground (arith, lead),
      ground (arith, mode, eq_iff n.cfg.mode mode_static),
      rw applied gone,
      (λ own. rw applied (stepped (own ∙ sym (submitted-cfg_id cmd n)))),
    )
