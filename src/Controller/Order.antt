-- ===== src/Controller/Order.antt =====
-- What `main` (src/cmd/controller/main.go) leaves behind.
use amy_queue.Prelude.{
  Bool, true, false, ◌≡◌, refl, Option, none, some, List, [], ◌∷◌, Bool-cases, inl, inr,
  if◌then◌else◌,
}
use amy_queue.Configuration.Loading.{Config, Result, ok, failed}
use amy_queue.Controller.Main.{
  Part, raft_node, admin_server, metrics_server, Call, start, stop, exit, Returns, run_metrics,
  run_admin, run_node, main, is_joining,
}

abbrev same_part : Part → Part → Bool
same_part raft_node raft_node = true
same_part admin_server admin_server = true
same_part metrics_server metrics_server = true
same_part _ _ = false

-- The parts that run behind a call, the last one started first; `none` for a part that is stopped
-- without being the last one, and for an end while one runs.
abbrev pub running_after : List Call → List Part → Option (List Part)
running_after [] parts = some parts
running_after (start p true ∷ calls) parts = running_after calls (p ∷ parts)
running_after (stop p ∷ calls) [] = none
running_after (stop p ∷ calls) (q ∷ parts) =
    let rest = running_after calls parts in if same_part p q then rest else none
running_after (exit _ ∷ calls) [] = running_after calls []
running_after (exit _ ∷ calls) (q ∷ parts) = none
running_after (_ ∷ calls) parts = running_after calls parts

metrics_stops :
    (r : Returns) → running_after (run_metrics r) (admin_server ∷ raft_node ∷ []) ≡ some []
unfolding run_metrics
metrics_stops r = elim (Bool-cases r.metrics_starts) [
  | inl t ↦ rw (run_metrics, t) refl
  | inr f ↦ rw (run_metrics, f) refl
]

admin_stops : (r : Returns) → running_after (run_admin r) (raft_node ∷ []) ≡ some []
unfolding run_admin
admin_stops r = elim (Bool-cases r.admin_starts) [
  | inl t ↦ rw (run_admin, t) (metrics_stops _)
  | inr f ↦ rw (run_admin, f) refl
]

node_stops : (cfg : Config) (r : Returns) → running_after (run_node cfg r) [] ≡ some []
unfolding run_node
node_stops cfg r = elim (Bool-cases r.node_starts) [
  | inl t ↦ elim (Bool-cases (is_joining cfg)) [
    | inl j ↦ elim (Bool-cases r.joins) [
      | inl k ↦ rw (run_node, t, j, k) (admin_stops _)
      | inr k ↦ rw (run_node, t, j, k) refl
    ]
    | inr j ↦ rw (run_node, t, j) (admin_stops _)
  ]
  | inr f ↦ rw (run_node, f) refl
]

-- Whatever the configuration is and whatever the calls return, `main` stops every part that it has started,
-- the last one first, and no part that it has not, before it exits or ends.
pub main_stops : (loaded : Result Config) (r : Returns) → running_after (main loaded r) [] ≡ some []
unfolding main
main_stops (failed _) r = refl
main_stops (ok cfg) r = elim (Bool-cases cfg.kill_port_on_start) [
  | inl t ↦ rw (main, t) (node_stops _ r)
  | inr f ↦ rw (main, f) (node_stops _ r)
]
