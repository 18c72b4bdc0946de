-- ===== src/Configuration/Loading.antt =====
-- `Load` (src/internal/config/config.go). `os.LookupEnv` is a function of the name. godotenv is not part
-- of the repository: it is the argument `dotenv`, from the file's name and the environment before
-- to the environment after.
use amy_queue.Prelude.{
  ℕ, String, Bool, true, false, ◌||◌, Option, none, some, List, ◌==◌, if◌then◌else◌, string_eq,
}
use amy_queue.Configuration.Texts.{parse_peer_nodes, is_true, atoi}

abbrev pub Environment : Type 0
Environment = String → Option String

abbrev pub role_controller : String
role_controller = "controller"

abbrev pub role_broker : String
role_broker = "broker"

pub record Config : Type 0 where
  pub node_role : String
  pub controller_host : String
  pub controller_port : ℕ  -- int, as are the numbers below
  pub peer_nodes : List String
  pub node_id : String
  pub http_port : ℕ
  pub grpc_port : ℕ
  pub raft_port : ℕ
  pub raft_election_timeout_ms : ℕ
  pub raft_heartbeat_ms : ℕ
  pub log_level : String
  pub log_format : String
  pub kill_port_on_start : Bool
  pub cluster_mode : String
  pub bootstrap_servers : List String
  pub join_max_retries : ℕ
  pub join_retry_interval_ms : ℕ
  pub auto_promote : Bool
  pub auto_promote_lag_threshold : ℕ
  pub metrics_port : ℕ

-- The four error texts, each with what it quotes; that of an integer names its variable too.
pub data LoadError : Type 0 where
  bad_role : String → LoadError
  not_an_integer : (key value : String) → LoadError
  bad_format : String → LoadError
  bad_mode : String → LoadError

pub data Result {ℓ} (A : Type ℓ) : Type ℓ where
  ok : A → Result A
  failed : LoadError → Result A

infixl 5 ◌>>=◌
abbrev pub ◌>>=◌ {ℓ κ} : {A : Type ℓ} {B : Type κ} → Result A → (A → Result B) → Result B
ok a >>= f = f a
failed e >>= f = failed e

unfoldable pub get_env : Environment → String → String → String
get_env env key fallback = elim (env key) [ none ↦ fallback | some v ↦ v ]

unfoldable pub get_env_bool : Environment → String → Bool → Bool
get_env_bool env key fallback = elim (env key) [ none ↦ fallback | some v ↦ is_true v ]

unfoldable pub get_env_int : Environment → String → ℕ → Result ℕ
get_env_int env key fallback = elim (env key) [
  | none ↦ ok fallback
  | some v ↦ elim (atoi v) [ none ↦ failed (not_an_integer key v) | some n ↦ ok n ]
]

-- The three checks of `Load`: one of two texts, or an error.
abbrev pub one_of : String → String → (String → LoadError) → String → Result String
one_of a b error v = if v == a || v == b then ok v else failed (error v)

-- `Load` behind the reading of the file.
unfoldable pub load_env : Environment → Result Config
load_env env = do
  role ← one_of role_controller role_broker bad_role (get_env env "NODE_ROLE" "broker")
  controller_port ← get_env_int env "CONTROLLER_PORT" 8080
  http_port ← get_env_int env "HTTP_PORT" 8080
  grpc_port ← get_env_int env "GRPC_PORT" 8082
  raft_port ← get_env_int env "RAFT_PORT" 8081
  election_timeout ← get_env_int env "RAFT_ELECTION_TIMEOUT_MS" 1000
  heartbeat ← get_env_int env "CONTROLLER_HEART_BEAT_INTERVAL" 1000
  log_format ← one_of "text" "json" bad_format (get_env env "LOG_FORMAT" "text")
  cluster_mode ← one_of "static" "dynamic" bad_mode (get_env env "CLUSTER_MODE" "static")
  max_retries ← get_env_int env "JOIN_MAX_RETRIES" 10
  retry_interval ← get_env_int env "JOIN_RETRY_INTERVAL_MS" 2000
  lag_threshold ← get_env_int env "AUTO_PROMOTE_LAG_THRESHOLD" 10
  metrics_port ← get_env_int env "METRICS_PORT" 9090
  ok (record {
    node_role = role;
    controller_host = get_env env "CONTROLLER_HOST" "localhost";
    controller_port = controller_port;
    peer_nodes = parse_peer_nodes (get_env env "PEER_NODES" "");
    node_id = get_env env "NODE_ID" "node-1";
    http_port = http_port;
    grpc_port = grpc_port;
    raft_port = raft_port;
    raft_election_timeout_ms = election_timeout;
    raft_heartbeat_ms = heartbeat;
    log_level = get_env env "LOG_LEVEL" "info";
    log_format = log_format;
    kill_port_on_start = get_env_bool env "KILL_PORT_ON_START" true;
    cluster_mode = cluster_mode;
    bootstrap_servers = parse_peer_nodes (get_env env "BOOTSTRAP_SERVERS" "");
    join_max_retries = max_retries;
    join_retry_interval_ms = retry_interval;
    auto_promote = get_env_bool env "AUTO_PROMOTE" false;
    auto_promote_lag_threshold = lag_threshold;
    metrics_port = metrics_port;
  })

unfoldable pub load :
    (dotenv : String → Environment → Environment) → Environment → String → Result Config
load dotenv env env_file = load_env (dotenv (if env_file == "" then ".env" else env_file) env)
