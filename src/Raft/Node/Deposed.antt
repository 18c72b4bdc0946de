-- ===== src/Raft/Node/Deposed.antt =====
-- A leader that has learned of a higher term, in the time before its loop notices
-- (src/internal/raft/node.go, runLeader).
use amy_queue.Prelude.{
  ℕ, ◌≤◌, ◌<◌, ◌≡◌, refl, sym, subst, String, inl, inr, Bool-cases, Option-cases, true, false, some,
  arith, ltb, lt→ltb, min, string_eq, nat_eq,
}
use amy_queue.Raft.Log.{last_index}
use amy_queue.Raft.Membership.{MembershipChange}
use amy_queue.Raft.Messages.{AppendEntriesRequest, AppendEntriesResponse}
use amy_queue.Raft.Node.{Node, follower}
use amy_queue.Raft.Node.Election.{step_down}
use amy_queue.Raft.Node.Replication.{
  Decode, begin_broadcast, build_append, on_append_response, handle_append_entries, accept, follow,
  follow_commit, apply_committed, apply_change, prev_matches, store_entries,
}
use amy_queue.Raft.Node.Frames.{apply_rounds_inv}
use amy_queue.Raft.Node.Loop.{leader_tick}

change-leader_id :
    (id : String) (mc : MembershipChange) (n : Node)
    → n.leader_id ≡ id
    → (apply_change mc n).leader_id ≡ id
unfolding apply_change
change-leader_id id mc n h = ground arith

follow_commit-leader_id :
    (decode : Decode) (leader_commit : ℕ) (n : Node)
    → (follow_commit decode leader_commit n).leader_id ≡ n.leader_id
unfolding follow_commit apply_committed
follow_commit-leader_id decode leader_commit n =
    elim (Bool-cases (ltb n.commit_index leader_commit)) [
      | inl e ↦ rw e (
          apply_rounds_inv (λ m. m.leader_id ≡ n.leader_id) decode (λ m k. k)
            (change-leader_id n.leader_id) _
            (record n { commit_index = min leader_commit (last_index n.log) }) refl)
      | inr e ↦ rw e refl
    ]

accept-leader_id :
    (decode : Decode) (old : ℕ) (req : AppendEntriesRequest) (n m : Node)
    (resp : AppendEntriesResponse)
    → accept decode old req n ≡ some (m, resp)
    → m.leader_id ≡ n.leader_id
unfolding accept
accept-leader_id decode old req n m resp h = elim (Bool-cases (prev_matches req n.log)) [
  | inl e ↦ elim (Option-cases (store_entries req n.log)) [
    | inl s ↦ ground (arith, h, e, s)
    | inr (log, s) ↦
        let k = follow_commit-leader_id decode req.leader_commit (record n { log = log }) in
        ground (arith, h, e, s, k)
  ]
  | inr e ↦ ground (arith, h, e)
]

-- Whatever a node answers to a request of a term that is not old, it takes the sender for its leader.
takes_leader :
    (decode : Decode) (req : AppendEntriesRequest) (n m : Node) (resp : AppendEntriesResponse)
    → n.current_term ≤ req.term
    → handle_append_entries decode req n ≡ some (m, resp)
    → m.leader_id ≡ req.leader_id
unfolding handle_append_entries follow
takes_leader decode req n m resp le h =
    let new : ltb req.term n.current_term ≡ false = ground arith in
    accept-leader_id decode n.current_term req (follow req n) m resp (ground (arith, h, new))

-- What comes of the ticker's next round at a node.
abbrev Sends : Decode → ℕ → Node → Node → ℕ → Node → Node → AppendEntriesResponse → Type 0
Sends decode term n n' next other other' answer =
    let (b, _, _, returns) = leader_tick n' in
    handle_append_entries decode (build_append b next n'.log) other ≡ some (other', answer)
    → (n'.state ≡ follower)
      × (n'.voted_for ≡ "")
      × (b.term ≡ term)
      × (returns ≡ true)
      × (other'.leader_id ≡ n.cfg.id)

stepped_down-Sends :
    (decode : Decode) (term : ℕ) (n : Node) (next : ℕ) (other other' : Node)
    (answer : AppendEntriesResponse)
    → other.current_term ≤ term
    → Sends decode term n (step_down term n) next other other' answer
unfolding step_down leader_tick begin_broadcast build_append
stepped_down-Sends decode term n next other other' answer k e =
    (refl, refl, refl, refl, takes_leader decode _ other other' answer k e)

-- A leader learns of a higher term from an answer and becomes a follower of it. When its ticker fires next,
-- its loop still sends requests to append entries: in the new term, and as that term's leader. Each node
-- whose term is not higher yet and that answers takes it for the leader of that term, in which it has not
-- even voted for itself. The loop returns only after that.
pub deposed_leader_sends :
    (decode : Decode) (addr : String) (sent : AppendEntriesRequest) (resp : AppendEntriesResponse)
    (n other other' : Node) (next : ℕ) (answer : AppendEntriesResponse)
    → n.current_term < resp.term
    → other.current_term ≤ resp.term
    → let n' = on_append_response decode addr sent resp n in
      let (b, _, _, returns) = leader_tick n' in
      handle_append_entries decode (build_append b next n'.log) other ≡ some (other', answer)
      → (n'.state ≡ follower)
        × (n'.voted_for ≡ "")
        × (b.term ≡ resp.term)
        × (returns ≡ true)
        × (other'.leader_id ≡ n.cfg.id)
unfolding on_append_response
deposed_leader_sends decode addr sent resp n other other' next answer h k e =
    let d : on_append_response decode addr sent resp n ≡ step_down resp.term n =
      rw (on_append_response, lt→ltb _ _ h) refl in
    subst (λ n'. Sends decode resp.term n n' next other other' answer) (sym d)
      (stepped_down-Sends decode resp.term n next other other' answer k) e
