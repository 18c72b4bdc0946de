-- ===== src/Controller/Main.antt =====
-- `main` (src/cmd/controller/main.go) as the calls that it makes on the controller's parts, in order.
-- What each of them returns is an argument; `joinCluster` is modelled in Join, and the log is left out.
use Prim.Native.String.{◌++◌ as ◌+++◌}
use amy_queue.Prelude.{
  ℕ, zero, suc, String, ◌-◌, ◌/◌, ◌%◌, Bool, true, false, ◌&&◌, not, none, some, List, [], ◌∷◌,
  length, get_elem?, ltb, ◌==◌, if◌then◌else◌, two63, two64, string_eq,
}
use amy_queue.Configuration.Loading.{Config, Result, ok, failed}
use amy_queue.Raft.Node.{Config as NodeConfig}

pub data Part : Type 0 where
  raft_node admin_server metrics_server : Part

-- A call, with what it returned where that decides what comes next.
pub data Call : Type 0 where
  kill_port : ℕ → Call
  start : Part → Bool → Call
  join : Bool → Call
  await_signal : Call
  stop : Part → Call
  exit : ℕ → Call

-- What the calls return: true for no error.
pub record Returns : Type 0 where
  pub node_starts : Bool
  pub joins : Bool
  pub admin_starts : Bool
  pub metrics_starts : Bool

-- `main` from the metrics server on; the node and the admin server run.
unfoldable pub run_metrics : Returns → List Call
run_metrics r =
    if r.metrics_starts
    then start metrics_server true
      ∷ await_signal
      ∷ stop metrics_server
      ∷ stop admin_server
      ∷ stop raft_node
      ∷ []
    else start metrics_server false ∷ stop admin_server ∷ stop raft_node ∷ exit 1 ∷ []

-- From the admin server on; the node runs.
unfoldable pub run_admin : Returns → List Call
run_admin r =
    if r.admin_starts
    then start admin_server true ∷ run_metrics r
    else start admin_server false ∷ stop raft_node ∷ exit 1 ∷ []

-- `cfg.ClusterMode == "dynamic" && len(cfg.BootstrapServers) > 0`.
abbrev pub is_joining : Config → Bool
is_joining cfg = cfg.cluster_mode == "dynamic" && ltb 0 (length cfg.bootstrap_servers)

unfoldable pub run_node : Config → Returns → List Call
run_node cfg r =
    if not r.node_starts
    then start raft_node false ∷ exit 1 ∷ []
    else start raft_node true
      ∷ (if is_joining cfg
          then if r.joins
            then join true ∷ run_admin r
            else join false ∷ stop raft_node ∷ exit 1 ∷ []
          else run_admin r)

unfoldable pub main : Result Config → Returns → List Call
main (failed _) r = exit 1 ∷ []
main (ok cfg) r =
    if cfg.kill_port_on_start then kill_port cfg.raft_port ∷ run_node cfg r else run_node cfg r

abbrev digits : List String
digits = "0" ∷ "1" ∷ "2" ∷ "3" ∷ "4" ∷ "5" ∷ "6" ∷ "7" ∷ "8" ∷ "9" ∷ []

abbrev digit : ℕ → String
digit d = elim (get_elem? digits d) [ none ↦ "" | some s ↦ s ]

-- `%d` of a number below 10 ^ fuel.
abbrev decimal : (fuel : ℕ) → ℕ → String
decimal zero n = ""
decimal (suc fuel) n =
    let front = decimal fuel (n / 10) in if ltb n 10 then digit n else front +++ digit (n % 10)

-- `%d` of an int.
abbrev pub print_int : ℕ → String
print_int n = if ltb n two63 then decimal 20 n else "-" +++ decimal 20 (two64 - n)

abbrev pub self_raft_addr : Config → String
self_raft_addr cfg = "localhost:" +++ print_int cfg.raft_port

-- The node's configuration from the program's.
unfoldable pub node_config : Config → NodeConfig
node_config cfg = record {
  id = cfg.node_id;
  addr = self_raft_addr cfg;
  peers = cfg.peer_nodes;
  mode = cfg.cluster_mode;
  election_timeout_ms = cfg.raft_election_timeout_ms;
  heartbeat_ms = cfg.raft_heartbeat_ms;
  auto_promote = cfg.auto_promote;
  auto_promote_lag_threshold = cfg.auto_promote_lag_threshold;
}

-- The level of `buildLogger`, and whether it writes JSON.
pub data Level : Type 0 where
  debug info warn error : Level

unfoldable pub build_logger : String → String → Level × Bool
build_logger level format = (
  (if level == "debug"
      then debug
      else if level == "warn"
      then warn
      else if level == "error"
      then error
      else info),
  format == "json",
)
