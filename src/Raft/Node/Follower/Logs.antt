-- ===== src/Raft/Node/Follower/Logs.antt =====
-- The log of a follower under `handleAppendEntries` (src/internal/raft/node.go).
use native.Mathlib.Decide.{dec_lt}
use amy_queue.Prelude.{
  ◌≤◌, ◌≡◌, ◌↔◌, refl, ◌⊎◌, inl, inr, Bool-cases, true, Option-cases, some, List, [], ◌∷◌, arith,
  ◌==◌, nat_eq, string_eq,
}
use amy_queue.Raft.Log.{Log, LogEntry, entry, last_index}
use amy_queue.Raft.Log.Contents.{Appended, entry_iff, append-Appended, append-some}
use amy_queue.Raft.Messages.{AppendEntriesRequest}
use amy_queue.Raft.Node.Replication.{store_entries, prev_matches}

-- The entry before the new ones is the one that the leader names, or there is none to compare.
abbrev pub Matches : AppendEntriesRequest → Log → Type 0
Matches req log =
    (req.prev_log_index ≡ 0)
    ⊎ ((e : LogEntry) × (entry log req.prev_log_index ≡ some e) × (e.term ≡ req.prev_log_term))

pub prev_matches_iff :
    (req : AppendEntriesRequest) (log : Log) → (prev_matches req log ≡ true) ↔ Matches req log
unfolding prev_matches
prev_matches_iff req log = (forth, back)
  where
    forth : prev_matches req log ≡ true → Matches req log
    forth h = elim (Option-cases (entry log req.prev_log_index)) [
      | inl e ↦ inl (ground (arith, h, e))
      | inr (x, e) ↦ elim (Bool-cases (req.prev_log_index == 0)) [
        | inl z ↦ inl (ground arith)
        | inr z ↦ inr (x, e, ground (arith, h, e, z))
      ]
    ]

    back : Matches req log → prev_matches req log ≡ true
    back (inl z) = ground (arith, z)
    back (inr (x, e, t)) = ground (arith, e, t)

pub Matches-le :
    (req : AppendEntriesRequest) (log : Log) → Matches req log → req.prev_log_index ≤ last_index log
Matches-le req log (inl z) = omega arith
Matches-le req log (inr (x, e, t)) = elim (dec_lt (last_index log) req.prev_log_index) [
  | yes over ↦ absurd (ground (arith, (entry_iff log req.prev_log_index).1 over, e))
  | no fits ↦ omega arith
]

-- What the request makes of a log that it matches.
abbrev pub Stored : AppendEntriesRequest → Log → Log → Type 0
Stored req log log' =
    ((req.entries ≡ []) × (log' ≡ log)) ⊎ Appended log req.prev_log_index req.entries log'

pub stored_lem :
    (req : AppendEntriesRequest) (es : List LogEntry) (log : Log)
    → req.entries ≡ es
    → req.prev_log_index ≤ last_index log
    → (log' : Log) × (store_entries req log ≡ some log') × Stored req log log'
unfolding store_entries
stored_lem req [] log e h = (log, rw e, inl (e, refl))
stored_lem req (x ∷ xs) log e h =
    let (log', s) = append-some log req.prev_log_index req.entries h in
    (log', ground (arith, e, s), inr (append-Appended log log' req.prev_log_index req.entries s))
