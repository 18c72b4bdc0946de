-- ===== src/Raft/Membership/Renames.antt =====
-- A member that gets its real id (src/internal/raft/membership.go, UpdateID): who votes stays the same.
use amy_queue.Prelude.{
  suc, Bool, ◌≡◌, ◌≢◌, refl, sym, ap, subst, ◌∙◌, String, none, some, true, false, Option-cases,
  Bool-cases, inl, inr, List, [], ◌∷◌, All, arith, eq_iff, lookup, insert, delete, lookup-delete,
  Unique, string_eq, ◌==◌, not, ◌&&◌, if◌then◌else◌,
}
use amy_queue.Raft.Membership.{
  VoterSet, Member, voters, count_voters, update_id, find_other, add_observer, observer,
  is_voter_state,
}

-- The entry that the loop stops at.
find_other_lem :
    (addr real_id id : String) (m : Member) (v : VoterSet)
    → Unique v
    → find_other addr real_id v ≡ some (id, m)
    → (lookup id v ≡ some m) × (m.addr ≡ addr) × (id ≢ real_id)
unfolding find_other lookup
find_other_lem addr real_id id m [] u e = absurd cc
find_other_lem addr real_id id m ((j, x) ∷ v) u e =
    elim (Bool-cases (x.addr == addr && not (j == real_id))) [
      | inl t ↦ ground (arith, e, t, eq_iff j real_id, eq_iff j id, eq_iff x.addr addr)
      | inr f ↦
          let old = find_other_lem addr real_id id m v u.1 (ground (arith, e, f)) in
          ground (arith, old, u.0, eq_iff j id)
    ]

delete_absent : (id : String) (v : VoterSet) → lookup id v ≡ none → delete id v ≡ v
unfolding lookup delete
delete_absent id [] e = refl
delete_absent id ((j, x) ∷ v) e = ground (arith, e, delete_absent id v)

count_voters-delete :
    (id : String) (m : Member) (v : VoterSet)
    → Unique v
    → lookup id v ≡ some m
    → count_voters v ≡ (
        if is_voter_state m.state
        then suc (count_voters (delete id v))
        else count_voters (delete id v))
unfolding count_voters delete lookup
count_voters-delete id m [] u e = absurd cc
count_voters-delete id m ((j, x) ∷ v) (fresh, u) e = elim (Bool-cases (j == id)) [
  | inl t ↦
      let same : x ≡ m = ground (arith, e, t) in
      let gone : delete id v ≡ v =
        delete_absent id v (subst (λ k. lookup k v ≡ none) ((eq_iff j id).0 t) fresh) in
      rw (t, gone, ← same) refl
  | inr f ↦ ground (arith, f, e, count_voters-delete id m v u (ground (arith, e, f)))
]

count_voters-insert :
    (id : String) (m : Member) (v : VoterSet)
    → lookup id v ≡ none
    → count_voters (insert id m v)
      ≡ (if is_voter_state m.state then suc (count_voters v) else count_voters v)
unfolding count_voters insert lookup
count_voters-insert id m [] e = ground arith
count_voters-insert id m ((j, x) ∷ v) e = ground (arith, count_voters-insert id m v)

module _ (P : String → Type 0) where
  drop_head :
      (b : Bool) (a : String) (xs : List String) → All P (if b then a ∷ xs else xs) → All P xs
  drop_head true a xs h = h.1
  drop_head false a xs h = h

  swap_tail :
      (b : Bool) (a : String) (xs ys : List String)
      → (All P xs → All P ys)
      → All P (if b then a ∷ xs else xs)
      → All P (if b then a ∷ ys else ys)
  swap_tail true a xs ys f h = (h.0, f h.1)
  swap_tail false a xs ys f h = f h

  new_head :
      (b c : Bool) (a : String) (xs : List String)
      → ((c ≡ true) → P a)
      → All P xs
      → All P (if b && c then a ∷ xs else xs)
  new_head true true a xs p h = (p refl, h)
  new_head true false a xs p h = h
  new_head false c a xs p h = h

  first_voter :
      (b c : Bool) (a : String) (xs : List String)
      → b ≡ true
      → c ≡ true
      → All P (if b && c then a ∷ xs else xs)
      → P a
  first_voter true true a xs s t h = h.0
  first_voter true false a xs s t h = absurd cc
  first_voter false c a xs s t h = absurd cc

  module _ (self : String) where
    voters-delete-All :
        (id : String) (v : VoterSet) → All P (voters self v) → All P (voters self (delete id v))
    unfolding voters delete
    voters-delete-All id [] h = tt
    voters-delete-All id ((j, x) ∷ v) h =
        let b = not (j == self) && is_voter_state x.state in
        elim (Bool-cases (j == id)) [
          | inl t ↦ rw (t) (voters-delete-All id v (drop_head b x.addr (voters self v) h))
          | inr f ↦ rw (f) (
              swap_tail b x.addr (voters self v) (voters self (delete id v))
                (voters-delete-All id v) h)
        ]

    voters-insert-All :
        (id : String) (m : Member) (v : VoterSet)
        → ((is_voter_state m.state ≡ true) → P m.addr)
        → All P (voters self v)
        → All P (voters self (insert id m v))
    unfolding voters insert
    voters-insert-All id m [] p h =
        new_head (not (id == self)) (is_voter_state m.state) m.addr [] p tt
    voters-insert-All id m ((j, x) ∷ v) p h =
        let b = not (j == self) && is_voter_state x.state in
        elim (Bool-cases (j == id)) [
          | inl t ↦ rw (t) (
              new_head (not (id == self)) (is_voter_state m.state) m.addr (voters self v) p
                (drop_head b x.addr (voters self v) h))
          | inr f ↦ rw (f) (
              swap_tail b x.addr (voters self v) (voters self (insert id m v))
                (voters-insert-All id m v p) h)
        ]

    voter-All :
        (id : String) (m : Member) (v : VoterSet)
        → id ≢ self
        → lookup id v ≡ some m
        → All P (voters self v)
        → is_voter_state m.state ≡ true
        → P m.addr
    unfolding voters lookup
    voter-All id m [] n e h s = absurd cc
    voter-All id m ((j, x) ∷ v) n e h s = elim (Bool-cases (j == id)) [
      | inl t ↦
          let same : x ≡ m = ground (arith, e, t) in
          subst (λ (y : Member). P y.addr) same
            (first_voter (not (j == self)) (is_voter_state x.state) x.addr (voters self v)
              (ground (arith, n, t, eq_iff j id, eq_iff j self))
              (ap (λ (y : Member). is_voter_state y.state) same ∙ s) h)
      | inr f ↦
          voter-All id m v n (ground (arith, e, f))
            (drop_head (not (j == self) && is_voter_state x.state) x.addr (voters self v) h) s
    ]

-- `self` counts as many voters after a member gets its real id, and what holds of its peers still does.
pub update_id_lem :
    (P : String → Type 0) (self addr real_id : String) (v : VoterSet)
    → Unique v
    → real_id ≢ self
    → ((m : Member) → lookup self v ≡ some m → m.addr ≢ addr)
    → ((m : Member) → lookup real_id v ≡ some m → find_other addr real_id v ≡ none)
    → All P (voters self v)
    → (count_voters (update_id addr real_id v) ≡ count_voters v)
      × All P (voters self (update_id addr real_id v))
unfolding update_id
update_id_lem P self addr real_id v u other own known h =
    elim (Option-cases (find_other addr real_id v)) [
      | inl e ↦ rw (e, update_id) (refl, h)
      | inr ((id, m), e) ↦
          let (l, a, ne) = find_other_lem addr real_id id m v u e in
          let not_self : id ≢ self = λ q. own m (ap (λ k. lookup k v) (sym q) ∙ l) a in
          let fresh : lookup real_id v ≡ none = elim (Option-cases (lookup real_id v)) [
            | inl f ↦ f
            | inr (x, f) ↦ absurd (ground (arith, e, known x f))
          ] in
          let fresh' : lookup real_id (delete id v) ≡ none =
            ground (arith, lookup-delete id real_id v, fresh) in
          let m' = record m { id = real_id } in
          rw (e, update_id)
            (
              ground (
                arith,
                count_voters-insert real_id m' (delete id v) fresh',
                count_voters-delete id m v u l,
              ),
              voters-insert-All P self real_id m' (delete id v)
                  (λ s. voter-All P self id m v not_self l h s) (voters-delete-All P self id v h),
            )
    ]

-- The same where an observer is added.
pub add_observer_keeps :
    (P : String → Type 0) (self id addr : String) (v : VoterSet)
    → All P (voters self v)
    → (count_voters (add_observer id addr v) ≡ count_voters v)
      × All P (voters self (add_observer id addr v))
unfolding add_observer
add_observer_keeps P self id addr v h = elim (Option-cases (lookup id v)) [
  | inl e ↦
      let m : Member = record { id = id; addr = addr; state = observer } in
      rw (e, add_observer)
        (count_voters-insert id m v e, voters-insert-All P self id m v (λ s. absurd cc) h)
  | inr (m, e) ↦ rw (e, add_observer) (refl, h)
]
