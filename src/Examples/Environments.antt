-- ===== src/Examples/Environments.antt =====
-- An environment, and lists of addresses (src/internal/config/config.go).
use amy_queue.Prelude.{
  String, ◌≡◌, refl, ◌⊎◌, none, some, List, [], ◌∷◌, All, ◌==◌, if◌then◌else◌, string_eq,
}
use amy_queue.Configuration.Texts.{parse_peer_nodes, trim_space, trim_left, trim_right}
use amy_queue.Configuration.Peers.{IsAddress, join, parse_peer_nodes-join}
use amy_queue.Configuration.Loading.{Environment, Config, LoadError, load, ok, failed}
use amy_queue.Configuration.Checked.{IsChecked, IsReason, load-Sound}

abbrev two_peers : List String
two_peers = "a1:7000" ∷ "a2:7000" ∷ []

two_peers-IsAddress : All IsAddress two_peers
unfolding trim_space trim_left trim_right
two_peers-IsAddress = (
  record {
    filled = refl;
    whole = (refl, (refl, (refl, (refl, (refl, (refl, (refl, tt)))))));
    trimmed = refl;
  },
  (
    record {
      filled = refl;
      whole = (refl, (refl, (refl, (refl, (refl, (refl, (refl, tt)))))));
      trimmed = refl;
    },
    tt,
  ),
)

parse_peer_nodes-join_example : parse_peer_nodes (join two_peers) ≡ two_peers
parse_peer_nodes-join_example = parse_peer_nodes-join two_peers two_peers-IsAddress

abbrev bad_port : Environment
bad_port key = if key == "RAFT_PORT" then some "70x" else none

-- No file.
abbrev no_file : String → Environment → Environment
no_file _ env = env

load-Sound_example :
    ((cfg : Config) × (load no_file bad_port "" ≡ ok cfg) × IsChecked cfg)
    ⊎ ((e : LoadError) × (load no_file bad_port "" ≡ failed e) × IsReason bad_port e)
load-Sound_example = load-Sound no_file bad_port ""
