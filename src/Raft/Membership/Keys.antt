-- ===== src/Raft/Membership/Keys.antt =====
-- The keys of the voter set: a member stands under its own id, and no id stands twice.
use amy_queue.Prelude.{
  String, ◌≡◌, refl, ap, sym, ◌∙◌, inl, inr, some, Option-cases, lookup, insert, delete, Unique,
  insert_cases, delete_cases, insert-Unique, delete-Unique, string_eq,
}
use amy_queue.Raft.Membership.{
  VoterSet, Member, new_voter_set, add_voter, add_observer, update_id, find_other, remove,
}

pub record IsKeyed (v : VoterSet) : Type 0 where
  pub unique : Unique v
  pub keyed : (id : String) (m : Member) → lookup id v ≡ some m → m.id ≡ id

pub new_voter_set-IsKeyed : IsKeyed new_voter_set
unfolding new_voter_set lookup
new_voter_set-IsKeyed = record { unique = tt; keyed = λ id m e. cc }

pub insert-IsKeyed :
    (id : String) (m : Member) (v : VoterSet) → m.id ≡ id → IsKeyed v → IsKeyed (insert id m v)
insert-IsKeyed id m v same k = record {
  unique = insert-Unique id m v k.unique;
  keyed = λ j x e. elim (insert_cases id j m x v e) [
    | inl (a, b) ↦ ap (λ (z : Member). z.id) (sym b) ∙ same ∙ a
    | inr (ne, old) ↦ k.keyed j x old
  ];
}

pub delete-IsKeyed : (id : String) (v : VoterSet) → IsKeyed v → IsKeyed (delete id v)
delete-IsKeyed id v k = record {
  unique = delete-Unique id v k.unique;
  keyed = λ j x e. k.keyed j x (delete_cases id j x v e).1;
}

pub add_voter-IsKeyed :
    (id addr : String) (v : VoterSet) → IsKeyed v → IsKeyed (add_voter id addr v)
unfolding add_voter
add_voter-IsKeyed id addr v k = insert-IsKeyed id _ v refl k

pub add_observer-IsKeyed :
    (id addr : String) (v : VoterSet) → IsKeyed v → IsKeyed (add_observer id addr v)
unfolding add_observer
add_observer-IsKeyed id addr v k = elim (Option-cases (lookup id v)) [
  | inl e ↦ rw (e, add_observer) (insert-IsKeyed id _ v refl k)
  | inr (m, e) ↦ rw (e, add_observer) k
]

pub remove-IsKeyed : (id : String) (v : VoterSet) → IsKeyed v → IsKeyed (remove id v)
unfolding remove
remove-IsKeyed id v k = delete-IsKeyed id v k

pub update_id-IsKeyed :
    (addr real_id : String) (v : VoterSet) → IsKeyed v → IsKeyed (update_id addr real_id v)
unfolding update_id
update_id-IsKeyed addr real_id v k = elim (Option-cases (find_other addr real_id v)) [
  | inl e ↦ rw (e, update_id) k
  | inr (p, e) ↦
      rw (e, update_id) (insert-IsKeyed real_id _ (delete p.0 v) refl (delete-IsKeyed p.0 v k))
]
