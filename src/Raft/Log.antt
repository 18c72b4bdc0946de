-- ===== src/Raft/Log.antt =====
-- src/internal/raft/log.go: the log of a node. The slice `entries` always holds the sentinel at
-- index 0, which stands in a field of its own here; so indices count from the sentinel.
pub mod Contents
use amy_queue.Prelude.{
  ℕ, Option, none, some, List, [], ◌∷◌, ◌++◌, if◌then◌else◌, leb, length, get_elem?, take, drop,
}

-- The byte that tells a membership change from data.
abbrev pub CommandType : Type 0
CommandType = ℕ

abbrev pub cmd_data : CommandType
cmd_data = 0

abbrev pub cmd_membership : CommandType
cmd_membership = 1

pub record LogEntry : Type 0 where
  pub index : ℕ  -- uint64
  pub term : ℕ  -- uint64
  pub kind : CommandType
  pub command : List ℕ  -- bytes

pub record Log : Type 0 where
  pub sentinel : LogEntry
  pub rest : List LogEntry

-- The slice as it stands in memory.
abbrev pub entries : Log → List LogEntry
entries l = l.sentinel ∷ l.rest

unfoldable pub new_log : Log
new_log = record {
  sentinel = record { index = 0; term = 0; kind = cmd_data; command = [] };
  rest = [];
}

unfoldable pub last_index : Log → ℕ
last_index l = length l.rest

unfoldable pub last_entry : LogEntry → List LogEntry → LogEntry
last_entry e [] = e
last_entry e (x ∷ xs) = last_entry x xs

unfoldable pub last_term : Log → ℕ
last_term l = (last_entry l.sentinel l.rest).term

unfoldable pub entry : Log → ℕ → Option LogEntry
entry l index = get_elem? (entries l) index

unfoldable pub entries_from : Log → ℕ → List LogEntry
entries_from l index = drop index (entries l)

-- `none` where the slice expression `entries[:prevIndex+1]` leaves the slice's length, which Go
-- answers with a panic or with stale memory.
unfoldable pub append : Log → ℕ → List LogEntry → Option Log
append l prev_index es =
    if leb prev_index (length l.rest)
    then some (record l { rest = take prev_index l.rest ++ es })
    else none

unfoldable pub append_one : Log → LogEntry → Log
append_one l e = record l { rest = l.rest ++ e ∷ [] }
