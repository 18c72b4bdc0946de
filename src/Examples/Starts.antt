-- ===== src/Examples/Starts.antt =====
-- Starts of the controller (src/cmd/controller/main.go).
use amy_queue.Prelude.{
  ◌≡◌, refl, String, Option, none, ◌==◌, if◌then◌else◌, some, true, false, [], ◌∷◌, string_eq,
}
use amy_queue.Configuration.Loading.{Config, ok}
use amy_queue.Controller.Main.{Returns, main, print_int}
use amy_queue.Controller.Ports.{Command, kill_commands}
use amy_queue.Configuration.Texts.{keep_nodes, trim_space, trim_left, trim_right}
use amy_queue.Controller.Order.{running_after, main_stops}

abbrev dynamic_config : Config
dynamic_config = record {
  node_role = "controller";
  controller_host = "localhost";
  controller_port = 8080;
  peer_nodes = [];
  node_id = "n4";
  http_port = 8080;
  grpc_port = 8082;
  raft_port = 7004;
  raft_election_timeout_ms = 1000;
  raft_heartbeat_ms = 100;
  log_level = "info";
  log_format = "text";
  kill_port_on_start = true;
  cluster_mode = "dynamic";
  bootstrap_servers = "a1:7000" ∷ [];
  join_max_retries = 10;
  join_retry_interval_ms = 2000;
  auto_promote = false;
  auto_promote_lag_threshold = 10;
  metrics_port = 9090;
}

-- The metrics server cannot be started.
abbrev no_metrics : Returns
no_metrics = record {
  node_starts = true;
  joins = true;
  admin_starts = true;
  metrics_starts = false;
}

main_stops_example : running_after (main (ok dynamic_config) no_metrics) [] ≡ some []
main_stops_example = main_stops (ok dynamic_config) no_metrics

printed : print_int 7004 ≡ "7004"
printed = refl

printed_below : print_int 18446744073709551574 ≡ "-42"
printed_below = refl

abbrev kills : String → Command
kills pid = record { program = "kill"; args = "-9" ∷ pid ∷ [] }

-- What the port's look-up writes on either system, and nothing for another port.
abbrev looked_up : Command → Option String
looked_up c =
    if c.program == "lsof"
    then some "41\n 42\n"
    else (elim c.args [ [] ↦ none | a ∷ _ ↦ if a == "7004/tcp" then some " 41  42" else none ])

killed_lines : kill_commands "darwin" looked_up 7004 ≡ kills "41" ∷ kills "42" ∷ []
unfolding kill_commands keep_nodes trim_space trim_left trim_right
killed_lines = refl

killed_fields : kill_commands "linux" looked_up 7004 ≡ kills "41" ∷ kills "42" ∷ []
unfolding kill_commands keep_nodes trim_space trim_left trim_right
killed_fields = refl

nothing_killed : kill_commands "linux" looked_up 7005 ≡ []
unfolding kill_commands
nothing_killed = refl
