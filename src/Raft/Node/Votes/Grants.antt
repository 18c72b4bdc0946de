-- ===== src/Raft/Node/Votes/Grants.antt =====
-- When a node grants its vote (src/internal/raft/node.go, handleVoteRequest).
use amy_queue.Prelude.{
  ℕ, ◌≤◌, ◌<◌, ◌≡◌, ◌↔◌, refl, ◌⊎◌, inl, inr, true, false, arith, ltb, lt→ltb, eq_iff, nat_eq,
  string_eq,
}
use native.Mathlib.Decide.{dec_lt}
use amy_queue.Raft.Log.{last_index, last_term}
use amy_queue.Raft.Messages.{VoteRequest}
use amy_queue.Raft.Node.{Node}
use amy_queue.Raft.Node.Election.{
  step_down, handle_vote_request, decide_vote, already_voted, log_ok,
}

vote_old :
    (req : VoteRequest) (n : Node)
    → req.term < n.current_term
    → (handle_vote_request req n).1.vote_granted ≡ false
unfolding handle_vote_request
vote_old req n h = rw (lt→ltb _ _ h)

vote_new :
    (req : VoteRequest) (n : Node)
    → n.current_term < req.term
    → handle_vote_request req n ≡ decide_vote n.current_term req (step_down req.term n)
unfolding handle_vote_request
vote_new req n h =
    let e : ltb req.term n.current_term ≡ false = ground arith in rw (e, lt→ltb _ _ h)

vote_same :
    (req : VoteRequest) (n : Node)
    → n.current_term ≡ req.term
    → handle_vote_request req n ≡ decide_vote n.current_term req n
unfolding handle_vote_request
vote_same req n h =
    let e : ltb req.term n.current_term ≡ false = ground arith in
    let d : ltb n.current_term req.term ≡ false = ground arith in rw (e, d)

-- The candidate's log is at least as new as the voter's.
abbrev pub IsNewEnough : VoteRequest → Node → Type 0
IsNewEnough req n =
    (last_term n.log < req.last_log_term)
    ⊎ ((req.last_log_term ≡ last_term n.log) × (last_index n.log ≤ req.last_log_index))

decide_vote-granted_iff :
    (old : ℕ) (req : VoteRequest) (n : Node)
    → ((decide_vote old req n).1.vote_granted ≡ true)
      ↔ (((n.voted_for ≡ "") ⊎ (n.voted_for ≡ req.candidate_id)) × IsNewEnough req n)
unfolding decide_vote already_voted log_ok
decide_vote-granted_iff old req n =
    ground (arith, eq_iff n.voted_for "", eq_iff n.voted_for req.candidate_id)

step_down-granted_iff :
    (old : ℕ) (req : VoteRequest) (n : Node)
    → ((decide_vote old req (step_down req.term n)).1.vote_granted ≡ true) ↔ IsNewEnough req n
unfolding step_down
step_down-granted_iff old req n =
    let (f, g) = decide_vote-granted_iff old req (step_down req.term n) in
    ((λ h. (f h).1), (λ h. g (inl refl, h)))

pub handle_vote_request-granted_iff :
    (req : VoteRequest) (n : Node)
    → ((handle_vote_request req n).1.vote_granted ≡ true) ↔ (
        ((n.current_term < req.term)
          ⊎ ((n.current_term ≡ req.term) × ((n.voted_for ≡ "") ⊎ (n.voted_for ≡ req.candidate_id))))
        × IsNewEnough req n)
handle_vote_request-granted_iff req n = elim (dec_lt req.term n.current_term) [
  | yes old ↦ ground (arith, vote_old req n old)
  | no not_old ↦ elim (dec_lt n.current_term req.term) [
    | yes new ↦
        let (f, g) = step_down-granted_iff n.current_term req n in
        rw (vote_new req n new) ((λ h. (inl new, f h)), (λ h. g h.1))
    | no not_new ↦
        let e : n.current_term ≡ req.term = omega arith in
        let (f, g) = decide_vote-granted_iff n.current_term req n in
        rw (vote_same req n e)
          ((λ h. (inr (e, (f h).0), (f h).1)), (λ h. g (ground (arith, h), h.1)))
  ]
]

pub granted_state :
    (req : VoteRequest) (n : Node)
    → (handle_vote_request req n).1.vote_granted ≡ true
    → ((handle_vote_request req n).0.voted_for ≡ req.candidate_id)
      × ((handle_vote_request req n).0.current_term ≡ req.term)
unfolding handle_vote_request decide_vote already_voted step_down log_ok
granted_state req n h = ground (arith, eq_iff "" "")
