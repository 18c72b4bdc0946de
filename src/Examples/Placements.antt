-- ===== src/Examples/Placements.antt =====
-- Placements of partitions on brokers, and the tokens of a cluster (src/internal/metadata).
use amy_queue.Prelude.{
  String, IsDistinct, apart, ◌+◌, ◌≤◌, ◌<◌, ◌≡◌, ◌≢◌, refl, inl, inr, none, some, List, [], ◌∷◌,
  All, Occurs, length, min, arith, get_or, lookup, string_eq, nat_eq,
}
use amy_queue.Metadata.Model.{BrokerId}
use amy_queue.Metadata.Auth.{
  ClusterAuthConfig, validate_request, invalid_token, staged, promoted, retired, rotation_lem,
}
use amy_queue.Metadata.Assignment.{Counts, score, assign_replicas, max_int}
use amy_queue.Metadata.Assignment.Best.{IsFree}
use amy_queue.Metadata.Assignment.Slots.{IsPlaced}
use amy_queue.Metadata.Assignment.Spread.{leads}
use amy_queue.Metadata.Assignment.Placement.{
  IsValid, assign_replicas-IsPlaced, assign_replicas_even, assign_replicas_clump,
}

abbrev b1 : BrokerId
b1 = "b1"

abbrev b2 : BrokerId
b2 = "b2"

abbrev b3 : BrokerId
b3 = "b3"

abbrev brokers : List BrokerId
brokers = b1 ∷ b2 ∷ b3 ∷ []

brokers-IsDistinct : IsDistinct brokers
brokers-IsDistinct = ground (arith, apart b1 b2 refl, apart b1 b3 refl, apart b2 b3 refl)

input-IsValid : IsValid brokers 3 2 [] 0
unfolding lookup
input-IsValid = record {
  some_broker = omega arith;
  different = brokers-IsDistinct;
  num_positive = omega arith;
  rf_positive = omega arith;
  counts_le = λ b. omega arith;
  fits = omega arith;
}

assign_replicas-IsPlaced_example :
    (length (assign_replicas brokers 3 2 []) ≡ 3)
    × All (IsPlaced brokers (min 2 (length brokers))) (assign_replicas brokers 3 2 [])
assign_replicas-IsPlaced_example = assign_replicas-IsPlaced brokers 3 2 [] 0 input-IsValid

no_loads :
    (x y : BrokerId)
    → Occurs x brokers
    → Occurs y brokers
    → get_or x [] 0 ≤ get_or y [] 0 + length brokers
unfolding lookup
no_loads x y m o = omega arith

assign_replicas_even_example :
    leads b1 (assign_replicas brokers 3 2 []) ≤ leads b3 (assign_replicas brokers 3 2 []) + 1
assign_replicas_even_example =
    assign_replicas_even brokers 3 2 [] 0 input-IsValid no_loads b1 b3 (inl refl)
      (inr (inr (inl refl)))

b1_is_not_b2 : b1 ≢ b2
b1_is_not_b2 = apart b1 b2 refl

assign_replicas_clump_example :
    assign_replicas (b1 ∷ b2 ∷ []) 2 1 ((b1, 0) ∷ (b2, 4) ∷ []) ≡ (b1 ∷ []) ∷ (b1 ∷ []) ∷ []
assign_replicas_clump_example =
    assign_replicas_clump b1 b2 0 4 b1_is_not_b2 (omega arith) (omega arith)

abbrev counts : Counts
counts = record { global = (b1, 1) ∷ []; topic = [] }

scores_small : All (λ b. score counts 1 3 b < max_int) brokers
unfolding score lookup
scores_small = (omega arith, (omega arith, (omega arith, tt)))

b2-IsFree : IsFree [] b2
unfolding lookup
b2-IsFree = refl

abbrev old_token : String
old_token = "old"

abbrev new_token : String
new_token = "new"

abbrev no_token : String
no_token = ""

abbrev cluster_id : String
cluster_id = "c"

abbrev cluster : ClusterAuthConfig
cluster = record { cluster_id = cluster_id; primary_token = old_token; secondary_token = no_token }

old_is_set : old_token ≢ no_token
old_is_set = apart old_token no_token refl

new_is_set : new_token ≢ no_token
new_is_set = apart new_token no_token refl

old_is_not_new : old_token ≢ new_token
old_is_not_new = apart old_token new_token refl

rotation_lem_example :
    (validate_request cluster cluster_id old_token ≡ none)
    × (validate_request (staged cluster new_token) cluster_id old_token ≡ none)
    × (validate_request (staged cluster new_token) cluster_id new_token ≡ none)
    × (validate_request (promoted cluster new_token) cluster_id old_token ≡ none)
    × (validate_request (promoted cluster new_token) cluster_id new_token ≡ none)
    × (validate_request (retired cluster new_token) cluster_id new_token ≡ none)
    × (validate_request (retired cluster new_token) cluster_id old_token ≡ some invalid_token)
rotation_lem_example = rotation_lem cluster new_token old_is_set new_is_set old_is_not_new
