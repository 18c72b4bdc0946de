-- ===== src/Api/Answers.antt =====
-- The status that the administration server answers with, and what the request has then done
-- (src/internal/api/metadata/http/admin.go).
use amy_queue.Prelude.{
  ℕ, String, ◌+◌, ◌≡◌, ◌≢◌, ◌⊎◌, refl, inl, inr, false, none, some, Option, List, arith, eq_iff,
  if◌then◌else◌, u64, nat_eq, string_eq,
}
use amy_queue.Raft.Membership.{MembershipChange}
use amy_queue.Raft.Log.{cmd_membership, last_index}
use amy_queue.Raft.Messages.{AddVoterRequest, AddVoterResponse}
use amy_queue.Raft.Node.{Node, leader, mode_static}
use amy_queue.Raft.Node.Admin.{
  Encoded, Others, bytes, Checked, answer, submit, check_add_voter, append_command, wait_commit,
  finish_add_voter,
}
use amy_queue.Raft.Node.Changes.{addition, check_add_voter-inv}
use amy_queue.Api.Admin.{parsed, add_voter_call, handle_add_voter}

-- The two ways in which an operation that changes the voters ends.
checked_cases :
    (x : Checked AddVoterResponse)
    → ((resp : AddVoterResponse) × (x ≡ answer resp)) ⊎ ((cmd : List ℕ) × (x ≡ submit cmd))
checked_cases (answer resp) = inl (resp, refl)
checked_cases (submit cmd) = inr (cmd, refl)

answers_false :
    (encode : MembershipChange → Encoded) (req : AddVoterRequest) (n later : Node)
    (resp : AddVoterResponse)
    → check_add_voter encode req n later ≡ answer resp
    → resp.success ≡ false
unfolding check_add_voter
answers_false encode req n later resp h = ground (arith, h)

add_voter_call-answer :
    (encode : MembershipChange → Encoded) (between : Others) (polls : List ℕ)
    (req : AddVoterRequest) (n : Node) (resp : AddVoterResponse)
    → check_add_voter encode req n (between n) ≡ answer resp
    → add_voter_call encode between polls req n ≡ (between n, resp)
unfolding add_voter_call
add_voter_call-answer encode between polls req n resp h = rw (add_voter_call, h) refl

add_voter_call-submit :
    (encode : MembershipChange → Encoded) (between : Others) (polls : List ℕ)
    (req : AddVoterRequest) (n : Node) (cmd : List ℕ)
    → check_add_voter encode req n (between n) ≡ submit cmd
    → let r = append_command cmd_membership cmd (between n) in
      add_voter_call encode between polls req n ≡ (r.0, finish_add_voter (wait_commit r.1 polls))
unfolding add_voter_call
add_voter_call-submit encode between polls req n cmd h = rw (add_voter_call, h) refl

appended :
    (encode : MembershipChange → Encoded) (between : Others) (polls : List ℕ)
    (req : AddVoterRequest) (n : Node) (cmd : List ℕ)
    → check_add_voter encode req n (between n) ≡ submit cmd
    → (handle_add_voter encode between polls (parsed req) n).0
      ≡ (append_command cmd_membership cmd (between n)).0
unfolding handle_add_voter
appended encode between polls req n cmd e =
    rw (handle_add_voter, add_voter_call-submit encode between polls req n cmd e) refl

finished :
    (w : Option String)
    → let status : ℕ = if (finish_add_voter w).success then 200 else 400 in
      ((status ≡ 200) × (w ≡ none)) ⊎ ((status ≡ 400) × (w ≢ none))
unfolding finish_add_voter
finished none = inl (refl, refl)
finished (some e) = inr (refl, λ h. cc)

waited :
    (encode : MembershipChange → Encoded) (between : Others) (polls : List ℕ)
    (req : AddVoterRequest) (n : Node) (cmd : List ℕ)
    → check_add_voter encode req n (between n) ≡ submit cmd
    → let status = (handle_add_voter encode between polls (parsed req) n).1.status in
      let w = wait_commit (u64 (last_index (between n).log + 1)) polls in
      ((status ≡ 200) × (w ≡ none)) ⊎ ((status ≡ 400) × (w ≢ none))
unfolding handle_add_voter append_command
waited encode between polls req n cmd e =
    rw (handle_add_voter, add_voter_call-submit encode between polls req n cmd e)
      (finished (wait_commit (u64 (last_index (between n).log + 1)) polls))

-- A request to add a voter, once parsed, is answered with 400 and changes nothing itself, or the node led
-- outside static mode when it was checked and the change that the request asks for is appended to the log
-- of what the node has become by then, in the term that it then has, whether it still leads or not; the
-- answer is then 200 if the entry was seen committed in time, and 400 if not.
pub handle_add_voter-status :
    (encode : MembershipChange → Encoded) (between : Others) (polls : List ℕ)
    (req : AddVoterRequest) (n : Node)
    → let r = handle_add_voter encode between polls (parsed req) n in
      ((r.1.status ≡ 400) × (r.0 ≡ between n))
      ⊎ ((n.state ≡ leader)
          × (n.cfg.mode ≢ mode_static)
          × ((cmd : List ℕ) × (encode (addition req) ≡ bytes cmd)
              × (r.0 ≡ (append_command cmd_membership cmd (between n)).0)
              × (((r.1.status ≡ 200)
                    × (wait_commit (u64 (last_index (between n).log + 1)) polls ≡ none))
                  ⊎ ((r.1.status ≡ 400)
                      × (wait_commit (u64 (last_index (between n).log + 1)) polls ≢ none)))))
unfolding handle_add_voter append_command finish_add_voter
handle_add_voter-status encode between polls req n =
    elim (checked_cases (check_add_voter encode req n (between n))) [
      | inl (resp, e) ↦
          let s = answers_false encode req n (between n) resp e in
          inl (
            rw (handle_add_voter, add_voter_call-answer encode between polls req n resp e)
              (simp s refl, refl))
      | inr (cmd, e) ↦
          let (lead, mode, wrote) = check_add_voter-inv encode req n (between n) cmd e in
          inr (
            ground (arith, lead),
            ground (arith, mode, eq_iff n.cfg.mode mode_static),
            (
              cmd,
              wrote,
              appended encode between polls req n cmd e,
              waited encode between polls req n cmd e,
            ),
          )
    ]
