-- ===== src/Raft/Node/Copies.antt =====
-- Replication from end to end: a leader's request and the follower's log that it meets
-- (src/internal/raft/node.go, broadcastHeartbeat and handleAppendEntries).
use amy_queue.Prelude.{
  ℕ, zero, suc, String, Bool-cases, false, subst, lookup, lookup-insert_self, ltb, u64, two64,
  string_eq, ◌+◌, ◌-◌, ◌≤◌, ◌<◌, ◌≡◌, refl, ap, ◌∙◌, sym, inl, inr, true, some, List, [], ◌∷◌,
  length, length-drop, get_elem?, drop, arith,
}
use native.Mathlib.Decide.{dec_lt}
use amy_queue.Raft.Log.{Log, LogEntry, entries, entry, last_index, entries_from}
use amy_queue.Raft.Log.Contents.{entry_iff}
use amy_queue.Raft.Messages.{AppendEntriesRequest, AppendEntriesResponse}
use amy_queue.Raft.Node.{Node}
use amy_queue.Raft.Membership.{MembershipChange}
use amy_queue.Raft.Node.Replication.{
  Decode, Broadcast, build_append, handle_append_entries, on_append_response, record_match,
  apply_change, apply_committed, advance_from, can_commit, maybe_advance_commit_index,
}
use amy_queue.Raft.Node.Frames.{
  apply_rounds_inv, advance_from-zero, advance_from-suc-true, advance_from-suc-false,
}
use amy_queue.Raft.Node.Follower.{Matches, Stored, handle_append_entries_lem}

get_elem?-drop {ℓ} :
    {A : Type ℓ} (n k : ℕ) (xs : List A) → get_elem? (drop n xs) k ≡ get_elem? xs (n + k)
get_elem?-drop zero k xs = ap (λ (j : ℕ). get_elem? xs j) (omega arith)
get_elem?-drop (suc n) k [] = refl
get_elem?-drop (suc n) k (x ∷ xs) =
    get_elem?-drop n k xs
    ∙ ap (λ (j : ℕ). get_elem? (x ∷ xs) j) (let e : suc (n + k) ≡ suc n + k = omega arith in e)

entries_from_lem :
    (l : Log) (next : ℕ)
    → (length (entries_from l next) ≡ suc (last_index l) - next)
      × ((k : ℕ) → get_elem? (entries_from l next) k ≡ entry l (next + k))
unfolding entries_from last_index entry
entries_from_lem l next = (length-drop next (entries l), λ k. get_elem?-drop next k (entries l))

-- Two logs hold the same entries up to an index.
abbrev pub Agree : ℕ → Log → Log → Type 0
Agree top l l' = (i : ℕ) → i ≤ top → entry l' i ≡ entry l i

build_append_lem :
    (b : Broadcast) (next : ℕ) (l : Log)
    → let req = build_append b next l in
      (req.prev_log_index ≡ next - 1) × (req.entries ≡ entries_from l next) × (req.term ≡ b.term)
unfolding build_append
build_append_lem b next l = (refl, refl, refl)

prev_term :
    (b : Broadcast) (next : ℕ) (l : Log) (e : LogEntry)
    → entry l (next - 1) ≡ some e
    → e.term ≡ (build_append b next l).prev_log_term
unfolding build_append
prev_term b next l e found = rw (found, build_append) refl

matches_lem :
    (b : Broadcast) (next : ℕ) (l log : Log)
    → next ≤ suc (last_index l)
    → Agree (next - 1) l log
    → Matches (build_append b next l) log
unfolding build_append
matches_lem b next l log h agree =
    let (e, found) = (entry_iff l (next - 1)).0 (omega arith) in
    inr (e, agree (next - 1) (omega arith) ∙ found, prev_term b next l e found)

Stored-Agree :
    (b : Broadcast) (next : ℕ) (l log log' : Log)
    → 0 < next
    → next ≤ suc (last_index l)
    → Agree (next - 1) l log
    → Stored (build_append b next l) log log'
    → Agree (last_index l) l log'
unfolding build_append
Stored-Agree b next l log log' h k agree (inl (none_sent, same)) i le =
    let (len, _) = entries_from_lem l next in
    let top : i ≤ next - 1 = ground (arith, len, none_sent) in rw same (agree i top)
Stored-Agree b next l log log' h k agree (inr a) i le = elim (dec_lt i next) [
  | yes low ↦ a.kept i (omega arith) ∙ agree i (omega arith)
  | no high ↦
      let (len, at) = entries_from_lem l next in
      let e : next - 1 + 1 + (i - next) ≡ i = omega arith in
      let e' : next + (i - next) ≡ i = omega arith in
      ap (λ (j : ℕ). entry log' j) (sym e)
      ∙ a.added (i - next) (omega (arith, len))
      ∙ at (i - next)
      ∙ ap (λ (j : ℕ). entry l j) e'
]

-- Applying entries and moving the commit index leave what the leader knows of its peers alone.
abbrev SamePeers : Node → Node → Type 0
SamePeers n m = (m.match_index ≡ n.match_index) × (m.next_index ≡ n.next_index)

change-SamePeers :
    (mc : MembershipChange) (n m : Node) → SamePeers n m → SamePeers n (apply_change mc m)
unfolding apply_change
change-SamePeers mc n m h = ground (arith, h)

committed-SamePeers :
    (decode : Decode) (n : Node) (idx : ℕ)
    → SamePeers n (apply_committed decode (record n { commit_index = idx }))
unfolding apply_committed
committed-SamePeers decode n idx =
    apply_rounds_inv (SamePeers n) decode (λ m h. h) (λ mc m. change-SamePeers mc n m) _
      (record n { commit_index = idx }) (refl, refl)

advance-SamePeers :
    (decode : Decode) (left : ℕ) (n : Node) → SamePeers n (advance_from decode left n)
advance-SamePeers decode zero n = subst (SamePeers n) (advance_from-zero decode n) (refl, refl)
advance-SamePeers decode (suc left) n =
    let idx = n.commit_index + suc left in
    elim (Bool-cases (can_commit n idx)) [
      | inl e ↦
          subst (SamePeers n) (sym (advance_from-suc-true decode left n e))
            (committed-SamePeers decode n idx)
      | inr e ↦
          subst (SamePeers n) (sym (advance_from-suc-false decode left n e))
            (advance-SamePeers decode left n)
    ]

-- What a leader counts as matching after a success of its own term.
counted_match :
    (decode : Decode) (addr : String) (req : AppendEntriesRequest) (resp : AppendEntriesResponse)
    (lead : Node) (last : ℕ)
    → resp.success ≡ true
    → resp.term ≤ lead.current_term
    → req.prev_log_index + length req.entries ≡ last
    → last + 1 < two64
    → let lead' = on_append_response decode addr req resp lead in
      (lookup addr lead'.match_index ≡ some last) × (lookup addr lead'.next_index ≡ some (last + 1))
unfolding on_append_response maybe_advance_commit_index record_match
counted_match decode addr req resp lead last yes_said old sum fits =
    let same : u64 (req.prev_log_index + length req.entries) ≡ last = ground (arith, sum, fits) in
    let new : ltb lead.current_term resp.term ≡ false = ground arith in
    let n = record_match addr last lead in
    let (m, x) = advance-SamePeers decode (last_index n.log - n.commit_index) n in
    let bound : u64 (last + 1) ≡ last + 1 = ground (arith, fits) in
    rw (on_append_response, new, yes_said, same)
      (
        ap (lookup addr) m ∙ lookup-insert_self addr last lead.match_index,
        ap (lookup addr) x
            ∙ lookup-insert_self addr (u64 (last + 1)) lead.next_index
            ∙ ap some bound,
      )

-- A follower whose log agrees with the leader's below the next index takes the leader's request, from
-- a term that is not older: afterwards it holds every entry of the log that the request was built from.
-- A leader of the same term that gets the answer, whatever it has done in the meantime, then counts
-- just these entries as matching, and the next one as the next to send. Indices do not wrap.
pub append_copies :
    (decode : Decode) (b : Broadcast) (next : ℕ) (l : Log) (n lead : Node) (addr : String)
    → 0 < next
    → next ≤ suc (last_index l)
    → last_index l + 1 < two64
    → Agree (next - 1) l n.log
    → n.current_term ≤ b.term
    → lead.current_term ≡ b.term
    → let req = build_append b next l in
      (m : Node) × (resp : AppendEntriesResponse) × (handle_append_entries decode req n
        ≡ some (m, resp))
      × (resp.success ≡ true)
      × Agree (last_index l) l m.log
      × (lookup addr (on_append_response decode addr req resp lead).match_index
          ≡ some (last_index l))
      × (lookup addr (on_append_response decode addr req resp lead).next_index
          ≡ some (last_index l + 1))
append_copies decode b next l n lead addr h k fits agree newer own =
    let req = build_append b next l in
    let (prev, sent, term) = build_append_lem b next l in
    let (len, _) = entries_from_lem l next in
    let (m, resp, e, outcome) = handle_append_entries_lem decode req n in
    let le : n.current_term ≤ req.term = omega (arith, term) in
    let sum : req.prev_log_index + length req.entries ≡ last_index l =
      omega (arith, prev, len, ap (λ es. length es) sent) in
    elim outcome [
      | inr (refusal, _) ↦ absurd (refusal (le, matches_lem b next l n.log k agree))
      | inl (_, _, a) ↦
          let matched =
            counted_match decode addr req resp lead (last_index l) a.success
              (omega (arith, a.term.0, term, own)) sum fits in
          (
            m,
            resp,
            e,
            a.success,
            Stored-Agree b next l n.log m.log h k agree a.stored,
            matched.0,
            matched.1,
          )
    ]
