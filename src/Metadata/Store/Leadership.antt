-- ===== src/Metadata/Store/Leadership.antt =====
-- Who leads a partition, what counts its epochs, and how many partitions each broker leads.
use native.Mathlib.Decide.{ℕ_discrete}
use amy_queue.Prelude.{
  List, All, sym, subst, ap, ◌∙◌, some_inj, ℕ, suc, ◌≤◌, ◌<◌, ◌≡◌, ◌≢◌, ◌⊎◌, refl, inl, inr, ◌&&◌,
  some, Option-cases, [], ◌∷◌, length, arith, ◌==◌, eq_iff, if◌then◌else◌, Map, lookup, get_or,
  lookup-insert_self, lookup-insert_ne, two64, total, nat_eq, string_eq, pair_eq,
}
use amy_queue.Metadata.Model.{BrokerId, PartitionKey, PartitionState, UpdatePartitionPayload}
use amy_queue.Metadata.Store.{
  Store, is_online, leader_counts, update_partition, apply_update_partition,
}
use amy_queue.Metadata.Store.Counts.{leads, count_leaders-total}
use amy_queue.Metadata.Store.Commands.{update_missing, update_stale, update_hit}

-- `ApplyUpdatePartition` changes no partition under a key other than the one it names.
update_elsewhere :
    (s : Store) (payload : UpdatePartitionPayload) (key : PartitionKey)
    → payload.key ≢ key
    → lookup key (apply_update_partition s payload).partitions ≡ lookup key s.partitions
update_elsewhere s payload key ne = elim (Option-cases (lookup payload.key s.partitions)) [
  | inl e ↦ rw (update_missing s payload e)
  | inr (p, e) ↦ elim (ℕ_discrete payload.expected_epoch p.partition_epoch) [
    | yes h ↦
        rw (update_hit s payload p e h)
          (lookup-insert_ne payload.key key (update_partition p payload) s.partitions ne)
    | no h ↦ rw (update_stale s payload p e h)
  ]
]

-- The epoch moves on, so an update that matched once is stale from then on.
pub update_partition-epoch :
    (p : PartitionState) (payload : UpdatePartitionPayload)
    → payload.expected_epoch ≡ p.partition_epoch
    → payload.expected_epoch ≢ (update_partition p payload).partition_epoch
unfolding update_partition
update_partition-epoch p payload h = omega arith

-- The updates of a log, in order.
abbrev pub run_updates : Store → List UpdatePartitionPayload → Store
run_updates s [] = s
run_updates s (u ∷ us) = run_updates (apply_update_partition s u) us

-- The update is of another partition, or expects the same epoch of the same one.
abbrev pub IsRival : UpdatePartitionPayload → UpdatePartitionPayload → Type 0
IsRival first u =
    (u.key ≢ first.key) ⊎ ((u.key ≡ first.key) × (u.expected_epoch ≡ first.expected_epoch))

-- An update is stale if no partition under its key has the epoch that it expects.
abbrev IsStale : Store → UpdatePartitionPayload → Type 0
IsStale s u =
    (p : PartitionState) → lookup u.key s.partitions ≡ some p → u.expected_epoch ≢ p.partition_epoch

stale_idle : (s : Store) (u : UpdatePartitionPayload) → IsStale s u → apply_update_partition s u ≡ s
stale_idle s u stale = elim (Option-cases (lookup u.key s.partitions)) [
  | inl e ↦ update_missing s u e
  | inr (p, e) ↦ update_stale s u p e (stale p e)
]

-- Whether it took effect or not, an update is stale once it has been applied.
applied-IsStale : (s : Store) (u : UpdatePartitionPayload) → IsStale (apply_update_partition s u) u
applied-IsStale s u q found =
    let seen : (t : Store) → apply_update_partition s u ≡ t → lookup u.key t.partitions ≡ some q =
      λ t e. subst (λ (x : Store). lookup u.key x.partitions ≡ some q) e found in
    elim (Option-cases (lookup u.key s.partitions)) [
      | inl e ↦ λ h. absurd (ground (arith, e, seen s (update_missing s u e)))
      | inr (p, e) ↦ elim (ℕ_discrete u.expected_epoch p.partition_epoch) [
        | yes h ↦
            let new = update_partition p u in
            let stored : some new ≡ some q =
              sym (lookup-insert_self u.key new s.partitions) ∙ seen _ (update_hit s u p e h) in
            let epoch = ap (λ (x : PartitionState). x.partition_epoch) (some_inj new q stored) in
            λ k. update_partition-epoch p u h (k ∙ sym epoch)
        | no h ↦
            let same = some_inj p q (sym e ∙ seen s (update_stale s u p e h)) in
            subst (λ (x : PartitionState). u.expected_epoch ≢ x.partition_epoch) same h
      ]
    ]

rivals_idle :
    (first : UpdatePartitionPayload) (s : Store) (us : List UpdatePartitionPayload)
    → IsStale s first
    → All (IsRival first) us
    → lookup first.key (run_updates s us).partitions ≡ lookup first.key s.partitions
rivals_idle first s [] stale h = refl
rivals_idle first s (u ∷ us) stale (inl other, h) =
    let kept = update_elsewhere s u first.key other in
    rivals_idle first (apply_update_partition s u) us (λ p e. stale p (sym kept ∙ e)) h ∙ kept
rivals_idle first s (u ∷ us) stale (inr (same, epoch), h) =
    let rival : IsStale s u = λ p e.
      subst (λ k. k ≢ p.partition_epoch) (sym epoch)
        (stale p (ap (λ k. lookup k s.partitions) (sym same) ∙ e)) in
    ap (λ t. lookup first.key (run_updates t us).partitions) (stale_idle s u rival)
    ∙ rivals_idle first s us stale h

-- Of any number of updates of a partition that expect the same epoch, the first one in the log decides:
-- the partition is afterwards what that update alone has made of it, however many of the others follow
-- and whatever updates of other partitions stand among them. So two elections of a leader that start
-- from the same state of a partition cannot both take effect.
pub first_update_wins :
    (s : Store) (first : UpdatePartitionPayload) (us : List UpdatePartitionPayload)
    → All (IsRival first) us
    → lookup first.key (run_updates s (first ∷ us)).partitions
      ≡ lookup first.key (apply_update_partition s first).partitions
first_update_wins s first us h =
    rivals_idle first (apply_update_partition s first) us (applied-IsStale s first) h

-- How many partitions of the map the broker leads.
abbrev pub led : BrokerId → Map PartitionKey PartitionState → ℕ
led b [] = 0
led b ((_, p) ∷ ps) =
    let rest = led b ps in if is_online p.status && p.leader == b then suc rest else rest

led-le : (b : BrokerId) (ps : Map PartitionKey PartitionState) → led b ps ≤ length ps
led-le b [] = omega arith
led-le b ((k, p) ∷ ps) = ground (arith, led-le b ps)

leads-led :
    (b : BrokerId) (ps : Map PartitionKey PartitionState) → b ≢ "" → total (leads b) ps ≡ led b ps
leads-led b [] h = refl
leads-led b ((k, p) ∷ ps) h =
    ground (arith, leads-led b ps h, eq_iff p.leader b, eq_iff p.leader "")

-- `LeaderCounts` gives for each broker, if its id is not empty, the number of partitions that are
-- online under it, as long as there are fewer than 2 ^ 64 partitions.
pub leader_counts_lem :
    (s : Store) (b : BrokerId)
    → b ≢ ""
    → length s.partitions < two64
    → get_or b (leader_counts s) 0 ≡ led b s.partitions
unfolding leader_counts lookup
leader_counts_lem s b h fits =
    let counted = count_leaders-total b s.partitions [] (λ x. omega arith) in
    omega (arith, counted, leads-led b s.partitions h, led-le b s.partitions)
