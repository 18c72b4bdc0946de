-- ===== src/Raft/Cluster/Start.antt =====
-- The voter set of a node that starts with a list of peers (src/internal/raft/node.go, NewNode), and
-- what becomes of it.
use amy_queue.Prelude.{string_eq}
use amy_queue.Raft.Node.{Node}
