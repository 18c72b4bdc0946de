-- ===== src/Metadata/Assignment/Best.antt =====
-- `pickBest`: the search for an unassigned broker of lowest score.
use amy_queue.Prelude.{
  ℕ, ◌≤◌, ◌<◌, ◌≡◌, refl, sym, ap, subst, ◌⊎◌, inl, inr, Bool, true, false, List, [], ◌∷◌, All,
  Occurs, All-Occurs, All-imp, Bool-cases, arith, two63, slt64_small, Map, get_or, string_eq,
}
use amy_queue.Metadata.Model.{BrokerId}
use amy_queue.Metadata.Assignment.{Counts, max_int, score, improves, pick_from, pick_best}

abbrev pub IsFree : Map BrokerId Bool → BrokerId → Type 0
IsFree assigned b = get_or b assigned false ≡ false

module _ (assigned : Map BrokerId Bool) (c : Counts) (alpha beta : ℕ) where
  abbrev pub IsBest : List BrokerId → BrokerId → ℕ → BrokerId × ℕ → Type 0
  IsBest bs best best_score r =
      (r.1 ≤ best_score)
      × ((r ≡ (best, best_score))
          ⊎ (Occurs r.0 bs × IsFree assigned r.0 × (r.1 ≡ score c alpha beta r.0)))
      × All (λ b. IsFree assigned b → r.1 ≤ score c alpha beta b) bs

  IsBest-skip :
      (b : BrokerId) (bs : List BrokerId) (best : BrokerId) (best_score : ℕ) (r : BrokerId × ℕ)
      → (IsFree assigned b → best_score ≤ score c alpha beta b)
      → IsBest bs best best_score r
      → IsBest (b ∷ bs) best best_score r
  IsBest-skip b bs best best_score r h (lower, inl e, all) =
      (lower, inl e, (λ f. omega (arith, h f), all))
  IsBest-skip b bs best best_score r h (lower, inr (o, f, e), all) =
      (lower, inr (inr o, f, e), (λ g. omega (arith, h g), all))

  IsBest-take :
      (b : BrokerId) (bs : List BrokerId) (best : BrokerId) (best_score : ℕ) (r : BrokerId × ℕ)
      → IsFree assigned b
      → score c alpha beta b ≤ best_score
      → IsBest bs b (score c alpha beta b) r
      → IsBest (b ∷ bs) best best_score r
  IsBest-take b bs best best_score r free h (lower, inl e, all) =
      (omega arith, inr (inl (ground arith), ground arith, ground arith), (λ f. lower, all))
  IsBest-take b bs best best_score r free h (lower, inr (o, f, e), all) =
      (omega arith, inr (inr o, f, e), (λ g. lower, all))

  improves-true :
      (b : BrokerId) (best_score : ℕ)
      → score c alpha beta b < two63
      → best_score < two63
      → improves assigned c alpha beta b best_score ≡ true
      → IsFree assigned b × (score c alpha beta b ≤ best_score)
  unfolding improves
  improves-true b best_score h k e =
      ground (arith, slt64_small (score c alpha beta b) best_score h k)

  improves-false :
      (b : BrokerId) (best_score : ℕ)
      → score c alpha beta b < two63
      → best_score < two63
      → improves assigned c alpha beta b best_score ≡ false
      → IsFree assigned b
      → best_score ≤ score c alpha beta b
  unfolding improves
  improves-false b best_score h k e f =
      ground (arith, slt64_small (score c alpha beta b) best_score h k)

  pick_from_nil :
      (best : BrokerId) (best_score : ℕ)
      → (best, best_score) ≡ pick_from [] assigned c alpha beta best best_score
  unfolding pick_from
  pick_from_nil best best_score = refl

  pick_from-true :
      (b : BrokerId) (bs : List BrokerId) (best : BrokerId) (best_score : ℕ)
      → improves assigned c alpha beta b best_score ≡ true
      → pick_from (b ∷ bs) assigned c alpha beta best best_score
        ≡ pick_from bs assigned c alpha beta b (score c alpha beta b)
  unfolding pick_from
  pick_from-true b bs best best_score e = rw e

  pick_from-false :
      (b : BrokerId) (bs : List BrokerId) (best : BrokerId) (best_score : ℕ)
      → improves assigned c alpha beta b best_score ≡ false
      → pick_from (b ∷ bs) assigned c alpha beta best best_score
        ≡ pick_from bs assigned c alpha beta best best_score
  unfolding pick_from
  pick_from-false b bs best best_score e = rw e

  pub pick_from-IsBest :
      (bs : List BrokerId) (best : BrokerId) (best_score : ℕ)
      → best_score < two63
      → All (λ b. score c alpha beta b < two63) bs
      → IsBest bs best best_score (pick_from bs assigned c alpha beta best best_score)
  pick_from-IsBest [] best best_score h small =
      subst (IsBest [] best best_score) (pick_from_nil best best_score) (omega arith, inl refl, tt)
  pick_from-IsBest (b ∷ bs) best best_score h small =
      elim (Bool-cases (improves assigned c alpha beta b best_score)) [
        | inl e ↦
            let (free, le) = improves-true b best_score small.0 h e in
            subst (IsBest (b ∷ bs) best best_score) (sym (pick_from-true b bs best best_score e)) (
              IsBest-take b bs best best_score _ free le
                (pick_from-IsBest bs b (score c alpha beta b) small.0 small.1))
        | inr e ↦
            subst (IsBest (b ∷ bs) best best_score) (sym (pick_from-false b bs best best_score e)) (
              IsBest-skip b bs best best_score _ (improves-false b best_score small.0 h e)
                (pick_from-IsBest bs best best_score h small.1))
      ]

  -- While scores stay below the largest `int` and some broker is free, `pickBest` returns a free
  -- broker of the list, and no free broker of the list has a lower score.
  pub pick_best_lem :
      (brokers : List BrokerId) (free : BrokerId)
      → All (λ b. score c alpha beta b < max_int) brokers
      → Occurs free brokers
      → IsFree assigned free
      → let best = pick_best brokers assigned c alpha beta in
        Occurs best brokers
        × IsFree assigned best
        × All (λ b. IsFree assigned b → score c alpha beta best ≤ score c alpha beta b) brokers
  unfolding pick_best
  pick_best_lem brokers free small m f = finish (
      pick_from-IsBest brokers "" max_int (omega arith)
        (All-imp _ _ (λ b h. omega arith) brokers small))
    where
      finish :
          IsBest brokers "" max_int (pick_from brokers assigned c alpha beta "" max_int)
          → let best = (pick_from brokers assigned c alpha beta "" max_int).0 in
            Occurs best brokers
            × IsFree assigned best
            × All (λ b. IsFree assigned b → score c alpha beta best ≤ score c alpha beta b) brokers
      finish (lower, inl e, all) = absurd (
          omega (
            arith,
            All-Occurs _ brokers free all m f,
            All-Occurs _ brokers free small m,
            ap (λ (p : BrokerId × ℕ). p.1) e,
          ))
      finish (lower, inr (o, g, e), all) =
          (o, g, All-imp _ _ (λ b h k. omega (arith, h k)) brokers all)
