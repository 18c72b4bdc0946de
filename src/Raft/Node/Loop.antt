-- ===== src/Raft/Node/Loop.antt =====
-- The event loop of a node (src/internal/raft/node.go, run with runFollower and runLeader). A round is
-- what one case of a `select` does; when several are ready Go chooses one, so the event is an argument.
-- Timers are left out.
use amy_queue.Prelude.{
  ℕ, ◌+◌, ◌/◌, ◌==◌, ◌&&◌, ltb, two63, nat_eq, Bool, true, false, not, Option, none, some, List, [],
  if◌then◌else◌,
}
use amy_queue.Raft.Membership.{is_voter}
use amy_queue.Raft.Messages.{AddVoterRequest}
use amy_queue.Raft.Node.{Node, Config, follower, candidate, leader, is_leader}
use amy_queue.Raft.Node.Election.{
  Election, begin_election, open_election, on_election_timeout, take_heartbeat,
}
use amy_queue.Raft.Node.Replication.{Broadcast, begin_broadcast}
use amy_queue.Raft.Node.Admin.{maybe_promote_observers}

-- Which of the three functions runs, with its local variables.
pub data Phase : Type 0 where
  following : Phase
  campaigning : Election → Phase
  leading : Phase

-- The switch of `run`, and what the function that it calls does before its loop: `runCandidate` begins
-- an election, and `runLeader` sends to all.
unfoldable pub enter : Node → Node × Phase × Option Broadcast
enter n = elim n.state [
  | follower ↦ (n, following, none)
  | candidate ↦
      let n' = begin_election n in (n', campaigning (open_election n'.current_term n'), none)
  | leader ↦ (n, leading, some (begin_broadcast n))
]

pub data FollowerEvent : Type 0 where
  stopped heard_leader timer_fired : FollowerEvent

-- One round of `runFollower`; the last part tells whether it returns.
unfoldable pub follower_round : Node → FollowerEvent → Node × Bool
follower_round n stopped = (n, true)
follower_round n heard_leader = (take_heartbeat n, false)
follower_round n timer_fired = (on_election_timeout n, is_voter n.cfg.id n.voters)

-- The ticker's case of `runLeader`: what it sends, the node and the promotions it asks for, and whether
-- the loop returns. It sends before it looks at the state.
unfoldable pub leader_tick : Node → Broadcast × Node × List AddVoterRequest × Bool
leader_tick n =
    let b = begin_broadcast n in
    if not (is_leader n.state)
    then (b, n, [], true)
    else let (n', calls) = maybe_promote_observers n in (b, n', calls, false)

-- `electionTimeout` in milliseconds, for the jitter that `rand.Intn` chose; `none` is its panic when it
-- is asked for a number below 0, as for a base of 1.
unfoldable pub election_timeout : Config → ℕ → Option ℕ
election_timeout cfg jitter =
    let set = cfg.election_timeout_ms in
    let base = if ltb 0 set && ltb set two63 then set else 1000 in
    if base / 2 == 0 then none else some (base + jitter)
