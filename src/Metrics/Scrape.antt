-- ===== src/Metrics/Scrape.antt =====
-- What Prometheus relies on in a scrape (src/internal/metrics/collector.go): metrics that were
-- described, with as many label values as labels, and none twice.
use amy_queue.Prelude.{
  ℕ, zero, suc, String, ◌+◌, ◌≤◌, ◌≡◌, ◌≢◌, refl, sym, subst, append_nil, some_inj, ap, inl, inr,
  ◌⊎◌, List, [], ◌∷◌, ◌++◌, All, length, get_elem?, some, none, arith, ◌==◌, if◌then◌else◌, Map,
  lookup, Unique, string_eq, nat_eq, eq_iff,
}
use amy_queue.Raft.Node.{MetricsSnapshot}
use amy_queue.Metrics.{
  Desc, ValueType, ConstMetric, gauge_value, counter_value, describe, const_metric, range_metrics,
  collect, observer_lag_desc, heartbeat_failures_total_desc,
}

-- The position of a metric's name in `describe`, past the end for any other name.
abbrev rank_in : List Desc → String → ℕ
rank_in [] name = zero
rank_in (d ∷ ds) name = let rest = rank_in ds name in if d.fq_name == name then zero else suc rest

abbrev rank : ConstMetric → ℕ
rank m = rank_in describe m.desc.fq_name

-- A metric that was described, with a value for each of its labels.
abbrev pub IsDescribed : ConstMetric → Type 0
IsDescribed m =
    ((i : ℕ) × (get_elem? describe i ≡ some m.desc))
    × (length m.label_values ≡ length m.desc.variable_labels)

-- Two metrics have different names or different label values.
abbrev pub AreApart : ConstMetric → ConstMetric → Type 0
AreApart m m' = (m.desc.fq_name ≢ m'.desc.fq_name) ⊎ (m.label_values ≢ m'.label_values)

abbrev pub AllApart : List ConstMetric → Type 0
AllApart [] = Unit
AllApart (m ∷ ms) = All (AreApart m) ms × AllApart ms

abbrev RanksFrom : ℕ → List ConstMetric → Type 0
RanksFrom r = All (λ m. r ≤ rank m)

RanksFrom-down : (r q : ℕ) (ms : List ConstMetric) → r ≤ q → RanksFrom q ms → RanksFrom r ms
RanksFrom-down r q [] le h = tt
RanksFrom-down r q (m ∷ ms) le h = (omega (arith, h.0), RanksFrom-down r q ms le h.1)

later-AreApart :
    (m : ConstMetric) (ms : List ConstMetric) → RanksFrom (rank m + 1) ms → All (AreApart m) ms
later-AreApart m [] h = tt
later-AreApart m (m' ∷ ms) (h, hs) =
    (inl (λ e. absurd (omega (arith, h, ap (rank_in describe) e))), later-AreApart m ms hs)

record Ranked (r : ℕ) (ms : List ConstMetric) : Type 0 where
  from : RanksFrom r ms
  all_apart : AllApart ms

-- One more metric in front, of a rank below all others.
front :
    (r : ℕ) (m : ConstMetric) (ms : List ConstMetric)
    → rank m ≡ r
    → Ranked (r + 1) ms
    → Ranked r (m ∷ ms)
front r m ms e h =
    let h' : RanksFrom (rank m + 1) ms = rw (e) h.from in
    record {
      from = (omega (arith, e), RanksFrom-down r (r + 1) ms (omega arith) h.from);
      all_apart = (later-AreApart m ms h', h.all_apart);
    }

-- A metric for a key that the map does not hold.
absent-AreApart :
    (desc : Desc) (kind : ValueType) (id key : String) (value : ℕ) (m : Map String ℕ)
    (ms : List ConstMetric)
    → lookup key m ≡ none
    → All (AreApart (const_metric desc kind value (id ∷ key ∷ []))) ms
    → All
        (AreApart (const_metric desc kind value (id ∷ key ∷ [])))
        (range_metrics desc kind id m ++ ms)
unfolding range_metrics lookup
absent-AreApart desc kind id key value [] ms u k = k
absent-AreApart desc kind id key value ((j, w) ∷ m) ms u k =
    let other : key ≢ j = λ e. ground (arith, e, u, eq_iff j key) in
    (
      inr (λ e. other (some_inj key j (ap (λ (l : List String). get_elem? l 1) e))),
      absent-AreApart desc kind id key value m ms (ground (arith, u, eq_iff j key)) k,
    )

-- The metrics of a map, in front of others of higher ranks.
range-Ranked :
    (r : ℕ) (desc : Desc) (kind : ValueType) (id : String) (m : Map String ℕ)
    (ms : List ConstMetric)
    → rank_in describe desc.fq_name ≡ r
    → Unique m
    → Ranked (r + 1) ms
    → Ranked r (range_metrics desc kind id m ++ ms)
unfolding range_metrics
range-Ranked r desc kind id [] ms e u h = record {
  from = RanksFrom-down r (r + 1) ms (omega arith) h.from;
  all_apart = h.all_apart;
}
range-Ranked r desc kind id ((key, value) ∷ m) ms e u h =
    let rest = range-Ranked r desc kind id m ms e u.1 h in
    let here = const_metric desc kind value (id ∷ key ∷ []) in
    let h' : RanksFrom (rank here + 1) ms = rw (e) h.from in
    record {
      from = (omega (arith, e), rest.from);
      all_apart = (
        absent-AreApart desc kind id key value m ms u.0 (later-AreApart here ms h'),
        rest.all_apart,
      );
    }

range-IsDescribed :
    (desc : Desc) (kind : ValueType) (id : String) (m : Map String ℕ)
    → (i : ℕ) × (get_elem? describe i ≡ some desc)
    → length desc.variable_labels ≡ 2
    → (ms : List ConstMetric) → All IsDescribed ms
    → All IsDescribed (range_metrics desc kind id m ++ ms)
unfolding range_metrics
range-IsDescribed desc kind id [] h l ms k = k
range-IsDescribed desc kind id ((key, value) ∷ m) h l ms k =
    ((h, sym l), range-IsDescribed desc kind id m h l ms k)

collect-IsDescribed : (s : MetricsSnapshot) → All IsDescribed (collect s)
unfolding collect describe
collect-IsDescribed s =
    let failures =
      range-IsDescribed heartbeat_failures_total_desc counter_value s.node_id s.heartbeat_failures
        (10, refl) refl [] tt in
    let failures' = subst (All IsDescribed) (append_nil _) failures in
    (
      ((0, refl), refl),
      (
        ((1, refl), refl),
        (
          ((2, refl), refl),
          (
            ((3, refl), refl),
            (
              ((4, refl), refl),
              (
                ((5, refl), refl),
                (
                  ((6, refl), refl),
                  (range-IsDescribed observer_lag_desc gauge_value s.node_id s.observer_lag
                      (7, refl) refl _ (((8, refl), refl), (((9, refl), refl), failures'))),
                ),
              ),
            ),
          ),
        ),
      ),
    )

collect-Ranked :
    (s : MetricsSnapshot)
    → Unique s.observer_lag
    → Unique s.heartbeat_failures
    → Ranked 0 (collect s)
unfolding collect describe
collect-Ranked s u w =
    let failures =
      range-Ranked 10 heartbeat_failures_total_desc counter_value s.node_id s.heartbeat_failures []
        refl w (record { from = tt; all_apart = tt }) in
    let failures' = subst (Ranked 10) (append_nil _) failures in
    front 0 _ _ refl (
      front 1 _ _ refl (
        front 2 _ _ refl (
          front 3 _ _ refl (
            front 4 _ _ refl (
              front 5 _ _ refl (
                front 6 _ _ refl (
                  range-Ranked 7 observer_lag_desc gauge_value s.node_id s.observer_lag _ refl u
                    (front 8 _ _ refl (front 9 _ _ refl failures')))))))))

-- Prometheus rejects a scrape with a metric that was not described, with a wrong number of label values,
-- or with two metrics of the same name and label values. A scrape of a snapshot, whose two maps hold each
-- key once as every Go map does, has none of these.
pub collect-AllApart :
    (s : MetricsSnapshot)
    → Unique s.observer_lag
    → Unique s.heartbeat_failures
    → All IsDescribed (collect s) × AllApart (collect s)
unfolding collect describe
collect-AllApart s u w = (collect-IsDescribed s, (collect-Ranked s u w).all_apart)
