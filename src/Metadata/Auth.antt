-- ===== src/Metadata/Auth.antt =====
-- src/internal/metadata/auth.go: the shared-token check of a request.
use amy_queue.Prelude.{
  String, ◌≡◌, ◌≢◌, ◌⊎◌, ◌↔◌, ◌&&◌, not, Option, none, some, arith, ◌==◌, eq_iff, if◌then◌else◌,
  string_eq,
}

pub data AuthError : Type 0 where
  wrong_cluster_id invalid_token : AuthError

pub record ClusterAuthConfig : Type 0 where
  pub cluster_id : String
  pub primary_token : String
  pub secondary_token : String  -- empty = disabled

-- `ValidateRequest`: `none` is the nil error.
unfoldable pub validate_request : ClusterAuthConfig → String → String → Option AuthError
validate_request cfg cluster_id token =
    if not (cluster_id == cfg.cluster_id)
    then some wrong_cluster_id
    else if token == cfg.primary_token
    then none
    else if not (cfg.secondary_token == "") && token == cfg.secondary_token
    then none
    else some invalid_token

-- A request is admitted exactly when it names this cluster and carries the primary token, or the
-- secondary one where that is set.
validate_request-none_iff :
    (cfg : ClusterAuthConfig) (cluster_id token : String)
    → (validate_request cfg cluster_id token ≡ none) ↔ (
        (cluster_id ≡ cfg.cluster_id)
        × ((token ≡ cfg.primary_token)
            ⊎ ((cfg.secondary_token ≢ "") × (token ≡ cfg.secondary_token))))
unfolding validate_request
validate_request-none_iff cfg cluster_id token = ground (
  arith,
  eq_iff cluster_id cfg.cluster_id,
  eq_iff token cfg.primary_token,
  eq_iff cfg.secondary_token "",
  eq_iff token cfg.secondary_token,
)

-- The three configurations that a node goes through when its token is replaced, as the comment of
-- `ClusterAuthConfig` gives them.
abbrev pub staged : ClusterAuthConfig → String → ClusterAuthConfig
staged cfg fresh = record cfg { secondary_token = fresh }

abbrev pub promoted : ClusterAuthConfig → String → ClusterAuthConfig
promoted cfg fresh = record cfg { primary_token = fresh; secondary_token = cfg.primary_token }

abbrev pub retired : ClusterAuthConfig → String → ClusterAuthConfig
retired cfg fresh = record cfg { primary_token = fresh; secondary_token = "" }

-- Token rotation needs no pause: a node that has not yet started accepts the old token, a node at
-- either middle stage accepts the old and the new one, and a node that is done accepts the new one
-- and refuses the old one. So nodes one stage apart accept each other's tokens. Neither token is
-- empty, and they differ.
pub rotation_lem :
    (cfg : ClusterAuthConfig) (fresh : String)
    → cfg.primary_token ≢ ""
    → fresh ≢ ""
    → cfg.primary_token ≢ fresh
    → let id = cfg.cluster_id in
      let old = cfg.primary_token in
      (validate_request cfg id old ≡ none)
      × (validate_request (staged cfg fresh) id old ≡ none)
      × (validate_request (staged cfg fresh) id fresh ≡ none)
      × (validate_request (promoted cfg fresh) id old ≡ none)
      × (validate_request (promoted cfg fresh) id fresh ≡ none)
      × (validate_request (retired cfg fresh) id fresh ≡ none)
      × (validate_request (retired cfg fresh) id old ≡ some invalid_token)
unfolding validate_request
rotation_lem cfg fresh h k d = ground (
  arith,
  eq_iff cfg.cluster_id cfg.cluster_id,
  eq_iff cfg.primary_token cfg.primary_token,
  eq_iff cfg.primary_token fresh,
  eq_iff fresh cfg.primary_token,
  eq_iff fresh fresh,
  eq_iff fresh "",
  eq_iff cfg.primary_token "",
  eq_iff "" "",
)
