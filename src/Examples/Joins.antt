-- ===== src/Examples/Joins.antt =====
-- A node that joins through its bootstrap servers (src/cmd/controller/main.go).
use amy_queue.Prelude.{
  String, apart, ◌≡◌, refl, inl, inr, Bool-cases, true, false, none, some, [], ◌∷◌, arith, ◌==◌,
  eq_iff, if◌then◌else◌, string_eq,
}
use amy_queue.Raft.Messages.{ObserverJoinResponse}
use amy_queue.Controller.Join.{Network, joined, running, join_cluster}
use amy_queue.Controller.Joining.{IsSettled, join_cluster_settled, join_cluster_loops}

abbrev a1 : String
a1 = "a1"

abbrev a2 : String
a2 = "a2"

abbrev a3 : String
a3 = "a3"

abbrev let_in : ObserverJoinResponse
let_in = record { success = true; leader_id = ""; leader_addr = ""; err = "" }

abbrev send_to : String → ObserverJoinResponse
send_to addr = record {
  success = false;
  leader_id = "n";
  leader_addr = addr;
  err = "not the leader";
}

-- "a1" leads, "a2" knows it, and no other node is there.
abbrev led : Network
led calls target =
    if target == a1 then some let_in else if target == a2 then some (send_to a1) else none

led-IsSettled : IsSettled led a1
led-IsSettled = record {
  named = apart a1 "" refl;
  lets_in = λ calls. (let_in, refl, refl);
  others = λ target other. elim (Bool-cases (target == a2)) [
    | inl e ↦ inr (λ calls. (send_to a1, ground (arith, e, other, eq_iff target a1), refl, refl))
    | inr e ↦ inl (λ calls. ground (arith, e, other, eq_iff target a1))
  ];
}

join_cluster_settled_example : join_cluster led 2 10 (a3 ∷ a2 ∷ []) ≡ joined a1
join_cluster_settled_example =
    join_cluster_settled led a1 0 9 (a3 ∷ a2 ∷ []) a2 led-IsSettled (inr (inl refl))
      (inr (λ calls. (send_to a1, refl, refl, refl)))

-- "a2" and "a3" take each other for the leader.
abbrev confused : Network
confused calls target =
    if target == a2 then some (send_to a3) else if target == a3 then some (send_to a2) else none

join_cluster_loops_example : join_cluster confused 1000 10 (a2 ∷ a1 ∷ []) ≡ running
join_cluster_loops_example =
    join_cluster_loops confused a2 a3 1000 9 (a1 ∷ []) (apart a2 "" refl) (apart a3 "" refl)
      (apart a2 a3 refl) (λ calls. (send_to a3, refl, refl, refl))
      (λ calls. (send_to a2, refl, refl, refl))
