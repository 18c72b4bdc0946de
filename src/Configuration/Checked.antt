-- ===== src/Configuration/Checked.antt =====
-- What `Load` (src/internal/config/config.go) accepts and what it refuses.
use amy_queue.Prelude.{
  ℕ, String, ◌≡◌, ◌≢◌, refl, inl, inr, ◌⊎◌, Bool-cases, Option-cases, none, some, All, arith, ◌==◌,
  eq_iff, if◌then◌else◌, string_eq,
}
use amy_queue.Configuration.Texts.{atoi}
use amy_queue.Configuration.Peers.{IsAddress, parse_peer_nodes-IsAddress}
use amy_queue.Configuration.Loading.{
  Environment, Config, LoadError, bad_role, not_an_integer, bad_format, bad_mode, Result, ok,
  failed, ◌>>=◌, get_env, get_env_int, one_of, load_env, load, role_controller, role_broker,
}

abbrev pub IsOneOf : String → String → String → Type 0
IsOneOf a b v = (v ≡ a) ⊎ (v ≡ b)

-- What the rest of the program may rely on.
pub record IsChecked (cfg : Config) : Type 0 where
  pub role : IsOneOf role_controller role_broker cfg.node_role
  pub format : IsOneOf "text" "json" cfg.log_format
  pub mode : IsOneOf "static" "dynamic" cfg.cluster_mode
  pub peers : All IsAddress cfg.peer_nodes
  pub servers : All IsAddress cfg.bootstrap_servers

-- The error quotes the variable that it names, whose value is not allowed.
abbrev pub IsReason : Environment → LoadError → Type 0
IsReason env (bad_role v) = (env "NODE_ROLE" ≡ some v) × (v ≢ role_controller) × (v ≢ role_broker)
IsReason env (not_an_integer key v) = (env key ≡ some v) × (atoi v ≡ none)
IsReason env (bad_format v) = (env "LOG_FORMAT" ≡ some v) × (v ≢ "text") × (v ≢ "json")
IsReason env (bad_mode v) = (env "CLUSTER_MODE" ≡ some v) × (v ≢ "static") × (v ≢ "dynamic")

-- A result that is as `P` says, or an error with its reason.
abbrev pub Sound : {A : Type 0} → Environment → (A → Type 0) → Result A → Type 0
Sound env P (ok a) = P a
Sound env P (failed e) = IsReason env e

bind-Sound :
    {A B : Type 0} (env : Environment) (P : A → Type 0) (Q : B → Type 0) (r : Result A)
    (f : A → Result B)
    → Sound env P r
    → ((a : A) → P a → Sound env Q (f a))
    → Sound env Q (r >>= f)
bind-Sound env P Q (ok a) f h k = k a h
bind-Sound env P Q (failed e) f h k = h

get_env_int-Sound :
    (env : Environment) (key : String) (fallback : ℕ)
    → Sound env (λ _. Unit {0}) (get_env_int env key fallback)
unfolding get_env_int
get_env_int-Sound env key fallback = elim (Option-cases (env key)) [
  | inl e ↦ rw (get_env_int, e) tt
  | inr (v, e) ↦ elim (Option-cases (atoi v)) [
    | inl f ↦ rw (get_env_int, e, f) (e, f)
    | inr (n, f) ↦ rw (get_env_int, e, f) tt
  ]
]

one_of_cases :
    (a b : String) (error : String → LoadError) (v : String)
    → (IsOneOf a b v × (one_of a b error v ≡ ok v))
      ⊎ ((v ≢ a) × (v ≢ b) × (one_of a b error v ≡ failed (error v)))
one_of_cases a b error v = elim (Bool-cases (v == a)) [
  | inl t ↦ inl (inl ((eq_iff v a).0 t), rw (t) refl)
  | inr f ↦ elim (Bool-cases (v == b)) [
    | inl t ↦ inl (inr ((eq_iff v b).0 t), rw (f, t) refl)
    | inr g ↦ inr (
      (λ e. ground (arith, f, e, eq_iff v a)),
      (λ e. ground (arith, g, e, eq_iff v b)),
      rw (f, g) refl,
    )
  ]
]

-- A check of a variable whose fallback is allowed.
one_of-Sound :
    (env : Environment) (a b key fallback : String) (error : String → LoadError)
    → IsOneOf a b fallback
    → ((v : String) → env key ≡ some v → v ≢ a → v ≢ b → IsReason env (error v))
    → Sound env (IsOneOf a b) (one_of a b error (get_env env key fallback))
unfolding get_env
one_of-Sound env a b key fallback error allowed reason = elim (Option-cases (env key)) [
  | inl e ↦ elim (one_of_cases a b error fallback) [
    | inl (h, q) ↦ rw (get_env, e, q) h
    | inr (x, y, q) ↦ absurd (elim allowed [ inl p ↦ x p | inr p ↦ y p ])
  ]
  | inr (v, e) ↦ elim (one_of_cases a b error v) [
    | inl (h, q) ↦ rw (get_env, e, q) h
    | inr (x, y, q) ↦ rw (get_env, e, q) (reason v e x y)
  ]
]

Sound-cases :
    {A : Type 0} {P : A → Type 0} (env : Environment) (r : Result A)
    → Sound env P r
    → ((a : A) × (r ≡ ok a) × P a) ⊎ ((e : LoadError) × (r ≡ failed e) × IsReason env e)
Sound-cases env (ok a) h = inl (a, refl, h)
Sound-cases env (failed e) h = inr (e, refl, h)

-- One more integer.
after_int :
    (env : Environment) (key : String) (fallback : ℕ) (f : ℕ → Result Config)
    → ((n : ℕ) → Sound env IsChecked (f n))
    → Sound env IsChecked (get_env_int env key fallback >>= f)
after_int env key fallback f k =
    bind-Sound env (λ _. Unit {0}) IsChecked _ f (get_env_int-Sound env key fallback) (λ n _. k n)

load_env-Sound : (env : Environment) → Sound env IsChecked (load_env env)
unfolding load_env
load_env-Sound env =
    bind-Sound env (IsOneOf role_controller role_broker) IsChecked _ _
      (one_of-Sound env role_controller role_broker "NODE_ROLE" "broker" bad_role (inr refl)
        (λ v e x y. (e, x, y)))
      (λ role role_checked. after_int env "CONTROLLER_PORT" 8080 _ (λ port.
        after_int env "HTTP_PORT" 8080 _ (λ http. after_int env "GRPC_PORT" 8082 _ (λ grpc.
          after_int env "RAFT_PORT" 8081 _ (λ raft.
            after_int env "RAFT_ELECTION_TIMEOUT_MS" 1000 _ (λ election.
              after_int env "CONTROLLER_HEART_BEAT_INTERVAL" 1000 _ (λ heartbeat.
                bind-Sound env (IsOneOf "text" "json") IsChecked _ _
                  (one_of-Sound env "text" "json" "LOG_FORMAT" "text" bad_format (inl refl)
                    (λ v e x y. (e, x, y)))
                  (λ format format_checked.
                    bind-Sound env (IsOneOf "static" "dynamic") IsChecked _ _
                      (one_of-Sound env "static" "dynamic" "CLUSTER_MODE" "static" bad_mode
                        (inl refl) (λ v e x y. (e, x, y)))
                      (λ mode mode_checked. after_int env "JOIN_MAX_RETRIES" 10 _ (λ retries.
                        after_int env "JOIN_RETRY_INTERVAL_MS" 2000 _ (λ interval.
                          after_int env "AUTO_PROMOTE_LAG_THRESHOLD" 10 _ (λ lag.
                            after_int env "METRICS_PORT" 9090 _ (λ metrics. record {
                              role = role_checked;
                              format = format_checked;
                              mode = mode_checked;
                              peers = parse_peer_nodes-IsAddress (get_env env "PEER_NODES" "");
                              servers =
                                  parse_peer_nodes-IsAddress (get_env env "BOOTSTRAP_SERVERS" "");
                            })))))))))))))

-- `Load` either gives a configuration whose role, log format and cluster mode are among the two that each
-- may be and whose peers and bootstrap servers are addresses, or an error that names a variable of the
-- environment, with a value that is not allowed there. The environment is that after the file was read.
pub load-Sound :
    (dotenv : String → Environment → Environment) (env : Environment) (env_file : String)
    → let env' = dotenv (if env_file == "" then ".env" else env_file) env in
      ((cfg : Config) × (load dotenv env env_file ≡ ok cfg) × IsChecked cfg)
      ⊎ ((e : LoadError) × (load dotenv env env_file ≡ failed e) × IsReason env' e)
unfolding load
load-Sound dotenv env env_file =
    let env' = dotenv (if env_file == "" then ".env" else env_file) env in
    Sound-cases env' (load_env env') (load_env-Sound env')
