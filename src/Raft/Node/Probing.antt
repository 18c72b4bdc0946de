-- ===== src/Raft/Node/Probing.antt =====
-- How a leader searches for the entry where a follower's log and its own still agree
-- (src/internal/raft/node.go, broadcastHeartbeat).
use amy_queue.Prelude.{
  ℕ, suc, String, ◌+◌, ◌-◌, ◌≤◌, ◌<◌, ◌≡◌, refl, sym, subst, inl, inr, Bool-cases, false, List, [],
  ◌∷◌, All, length, arith, ltb, ◌&&◌, get_or, insert, lookup-insert_self, nat_eq, string_eq,
}
use native.Mathlib.Decide.{dec_lt}
use amy_queue.Raft.Log.{Log}
use amy_queue.Raft.Messages.{AppendEntriesRequest, AppendEntriesResponse}
use amy_queue.Raft.Node.{Node}
use amy_queue.Raft.Node.Replication.{Decode, Broadcast, build_append, back_off, on_append_response}
use amy_queue.Raft.Node.Follower.{Matches}

-- The next index of a peer.
abbrev pub next_of : String → Node → ℕ
next_of addr n = get_or addr n.next_index 0

next_of-insert :
    (addr : String) (value : ℕ) (n : Node)
    → next_of addr (record n { next_index = insert addr value n.next_index }) ≡ value
next_of-insert addr value n = ground (arith, lookup-insert_self addr value n.next_index)

back_off_lem :
    (addr : String) (resp : AppendEntriesResponse) (n : Node)
    → 0 < next_of addr n
    → ((back_off addr resp n).current_term ≡ n.current_term)
      × (0 < next_of addr (back_off addr resp n))
      × (next_of addr (back_off addr resp n) ≤ next_of addr n)
      × (1 < next_of addr n → next_of addr (back_off addr resp n) < next_of addr n)
unfolding back_off
back_off_lem addr resp n h =
    elim (Bool-cases (ltb 0 resp.next_index && ltb resp.next_index (next_of addr n))) [
      | inl e ↦
          let at = next_of-insert addr resp.next_index n in
          rw (e, at) (refl, ground (arith, e), ground (arith, e), λ _. ground (arith, e))
      | inr e ↦ elim (Bool-cases (ltb 1 (next_of addr n))) [
        | inl k ↦
            let at = next_of-insert addr (next_of addr n - 1) n in
            rw (e, k, at) (refl, ground (arith, k), omega arith, λ _. omega arith)
        | inr k ↦ rw (e, k) (refl, h, omega arith, λ more. ground (arith, k, more))
      ]
    ]

falls_far :
    (next next' left : ℕ)
    → 0 < next'
    → (1 < next → next' < next)
    → next' ≤ next
    → next ≤ 1 + suc left
    → next' ≤ 1 + left
falls_far next next' left h falls le top = elim (dec_lt 1 next) [
  | yes more ↦ omega (arith, falls more)
  | no one ↦ omega arith
]

first_matches :
    (b : Broadcast) (next : ℕ) (l : Log) → next ≡ 1 → (build_append b next l).prev_log_index ≡ 0
unfolding build_append
first_matches b next l e = omega (arith, e)

-- A refusal in a term that the leader has.
abbrev pub IsRefusal : ℕ → AppendEntriesResponse → Type 0
IsRefusal term resp = (resp.success ≡ false) × (resp.term ≤ term)

refused :
    (decode : Decode) (addr : String) (req : AppendEntriesRequest) (resp : AppendEntriesResponse)
    (n : Node)
    → IsRefusal n.current_term resp
    → on_append_response decode addr req resp n ≡ back_off addr resp n
unfolding on_append_response
refused decode addr req resp n (s, t) =
    let e : ltb n.current_term resp.term ≡ false = ground arith in
    elim (Bool-cases resp.success) [ inl k ↦ ground (arith, s, k) | inr k ↦ simp (e, k) refl ]

-- The leader's side of a run of calls to one peer.
unfoldable pub probe :
    Decode → String → List (AppendEntriesRequest × AppendEntriesResponse) → Node → Node
probe decode addr [] n = n
probe decode addr ((req, resp) ∷ calls) n =
    probe decode addr calls (on_append_response decode addr req resp n)

probe-next :
    (decode : Decode) (addr : String) (calls : List (AppendEntriesRequest × AppendEntriesResponse))
    (n : Node)
    → All (λ call. IsRefusal n.current_term call.1) calls
    → 0 < next_of addr n
    → next_of addr n ≤ 1 + length calls
    → next_of addr (probe decode addr calls n) ≡ 1
unfolding probe
probe-next decode addr [] n all low high = omega (arith, low, high)
probe-next decode addr ((req, resp) ∷ calls) n all low high =
    let m = back_off addr resp n in
    let (same_term, above, below, falls) = back_off_lem addr resp n low in
    rw (probe, refused decode addr req resp n all.0)
      (probe-next decode addr calls m
        (subst (λ t. All (λ call. IsRefusal t call.1) calls) (sym same_term) all.1) above
        (falls_far (next_of addr n) (next_of addr m) (length calls) above falls below high))

-- As many refusals in a row as the next index is above 1 bring it down to 1, and no lower; the request
-- that is then built matches every log, so that the probing ends.
pub probe_lem :
    (decode : Decode) (addr : String) (calls : List (AppendEntriesRequest × AppendEntriesResponse))
    (n : Node)
    → All (λ call. IsRefusal n.current_term call.1) calls
    → 0 < next_of addr n
    → next_of addr n ≤ 1 + length calls
    → (next_of addr (probe decode addr calls n) ≡ 1)
      × ((b : Broadcast) (l log : Log)
          → Matches (build_append b (next_of addr (probe decode addr calls n)) l) log)
probe_lem decode addr calls n all low high =
    let one = probe-next decode addr calls n all low high in
    (one, λ b l log. inl (first_matches b (next_of addr (probe decode addr calls n)) l one))
