-- ===== src/Metadata/Store/Consistency/Deletion.antt =====
-- A topic that is deleted keeps the three maps of the store together
-- (src/internal/metadata/store.go, ApplyDeleteTopic).
use amy_queue.Prelude.{
  ℕ, String, ◌<◌, ◌≡◌, ◌≢◌, sym, ap, subst, ◌∙◌, true, false, some, some_inj, arith, lookup,
  delete_cases, lookup-delete_ne, rounds32, nat_eq, string_eq, pair_eq,
}
use amy_queue.Metadata.Model.{TopicId, Topic}
use amy_queue.Metadata.Store.{Store, delete_topic}
use amy_queue.Metadata.Store.Partitions.{
  in_range, in_range_of_ne, in_range_of_lt, delete_partitions_inv, deleted_elsewhere,
}
use amy_queue.Metadata.Store.Consistency.{IsConsistent}

module _ (s : Store) (v : IsConsistent s) (id : TopicId) (topic : Topic)
    (stored : lookup id s.topics ≡ some topic) where
  same_topic : (j : TopicId) (t : Topic) → lookup j s.topics ≡ some t → id ≡ j → topic ≡ t
  same_topic j t e same =
      some_inj topic t (sym stored ∙ ap (λ (k : TopicId). lookup k s.topics) same ∙ e)

  -- The name index points nowhere else: every other topic has another name.
  other_name : (j : TopicId) (t : Topic) → lookup j s.topics ≡ some t → id ≢ j → topic.name ≢ t.name
  other_name j t e ne same = ne (
      some_inj id j (
        sym (v.indexed id topic stored).1
        ∙ ap (λ (n : String). lookup n s.topics_by_name) same
        ∙ (v.indexed j t e).1))

  in_topic :
      (j : TopicId) (n : ℕ) (t : Topic)
      → in_range (rounds32 topic.num_partitions) 0 id (j, n) ≡ false
      → n < rounds32 t.num_partitions
      → id ≡ j
      → ¬ (topic ≡ t)
  in_topic j n t out lt same e =
      let fits : n < rounds32 topic.num_partitions =
        subst (λ (q : Topic). n < rounds32 q.num_partitions) (sym e) lt in
      let hit : in_range (rounds32 topic.num_partitions) 0 id (j, n) ≡ true =
        subst (λ k. in_range (rounds32 topic.num_partitions) 0 id (k, n) ≡ true) same
          (in_range_of_lt (rounds32 topic.num_partitions) id n fits) in
      absurd (ground (arith, hit, out))

  pub delete_topic-IsConsistent : IsConsistent (delete_topic s id topic)
  unfolding delete_topic
  delete_topic-IsConsistent = record {
    named = λ name j e.
        let (ne, old) = delete_cases topic.name name j s.topics_by_name e in
        let (t, l, n) = v.named name j old in
        let other : id ≢ j = λ same. ne (ap (λ (q : Topic). q.name) (same_topic j t l same) ∙ n) in
        (t, lookup-delete_ne id j s.topics other ∙ l, n);
    indexed = λ j t e.
        let (ne, old) = delete_cases id j t s.topics e in
        let (a, l) = v.indexed j t old in
        (a, lookup-delete_ne topic.name t.name s.topics_by_name (other_name j t old ne) ∙ l);
    owned = λ j n p e.
        let (out, old) = delete_partitions_inv _ id j n s.partitions p e in
        let (t, l, lt, a, b) = v.owned j n p old in
        let other : id ≢ j = λ same. in_topic j n t out lt same (same_topic j t l same) in
        (t, lookup-delete_ne id j s.topics other ∙ l, lt, a, b);
    complete = λ j t n e lt.
        let (ne, old) = delete_cases id j t s.topics e in
        let (p, l) = v.complete j t n old lt in
        (p, deleted_elsewhere _ id j n s.partitions (in_range_of_ne _ id j n ne) ∙ l);
  }
