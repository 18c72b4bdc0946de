-- ===== src/Raft/Log/Contents.antt =====
-- What an append leaves in the log, and how the readers see it.
use amy_queue.Prelude.{
  ℕ, zero, suc, ◌+◌, ◌≤◌, ◌<◌, ◌≡◌, refl, none, some, List, [], ◌∷◌, ◌++◌, arith, length,
  length-append, length-take, get_elem?, get_elem?_of_lt, get_elem?_of_ge, get_elem?-take_append,
  get_elem?-append_right, take,
}
use amy_queue.Raft.Log.{Log, LogEntry, entries, last_index, last_entry, last_term, entry, append}

-- An entry is found exactly at the indices up to the last one.
pub entry_iff :
    (l : Log) (i : ℕ)
    → (i ≤ last_index l → (e : LogEntry) × (entry l i ≡ some e))
      × (last_index l < i → entry l i ≡ none)
unfolding entry last_index
entry_iff l i = (
  (λ h. get_elem?_of_lt (entries l) i (omega arith)),
  (λ h. get_elem?_of_ge (entries l) i (omega arith)),
)

-- The last term is that of the entry at the last index.
last_entry_lem :
    (e : LogEntry) (es : List LogEntry) → get_elem? (e ∷ es) (length es) ≡ some (last_entry e es)
unfolding last_entry
last_entry_lem e [] = refl
last_entry_lem e (x ∷ xs) = last_entry_lem x xs

pub last_term_lem :
    (l : Log) → (e : LogEntry) × (entry l (last_index l) ≡ some e) × (e.term ≡ last_term l)
unfolding entry last_index last_term
last_term_lem l = (last_entry l.sentinel l.rest, last_entry_lem l.sentinel l.rest, refl)

-- A log that holds the entries of another up to an index, then new ones, and nothing else.
pub record Appended (l : Log) (prev : ℕ) (es : List LogEntry) (m : Log) : Type 0 where
  pub last : last_index m ≡ prev + length es
  pub kept : (i : ℕ) → i ≤ prev → entry m i ≡ entry l i
  pub added : (k : ℕ) → k < length es → entry m (prev + 1 + k) ≡ get_elem? es k

append-rest :
    (l m : Log) (prev : ℕ) (es : List LogEntry)
    → append l prev es ≡ some m
    → (prev ≤ length l.rest) × (m ≡ record l { rest = take prev l.rest ++ es })
unfolding append
append-rest l m prev es h = ground arith

kept_lem :
    (l : Log) (prev : ℕ) (es : List LogEntry) (i : ℕ)
    → prev ≤ length l.rest
    → i ≤ prev
    → get_elem? (l.sentinel ∷ (take prev l.rest ++ es)) i ≡ get_elem? (l.sentinel ∷ l.rest) i
kept_lem l prev es zero h k = refl
kept_lem l prev es (suc i) h k = get_elem?-take_append prev l.rest es i (omega arith) h

added_lem :
    (l : Log) (prev : ℕ) (es : List LogEntry) (k : ℕ)
    → prev ≤ length l.rest
    → get_elem? (l.sentinel ∷ (take prev l.rest ++ es)) (prev + 1 + k) ≡ get_elem? es k
added_lem l prev es k h =
    let e : prev + 1 + k ≡ suc (length (take prev l.rest) + k) =
      omega (arith, length-take prev l.rest) in
    rw e (get_elem?-append_right (take prev l.rest) es k)

-- An append after an index `prev` that succeeds leaves `prev` and as many more entries as it brings:
-- it keeps the entries up to `prev`, and the new ones stand behind them in their order.
pub append-Appended :
    (l m : Log) (prev : ℕ) (es : List LogEntry) → append l prev es ≡ some m → Appended l prev es m
unfolding last_index entry
append-Appended l m prev es h =
    let (le, e) = append-rest l m prev es h in
    rw e (record {
      last = omega (arith, length-append (take prev l.rest) es, length-take prev l.rest);
      kept = λ i k. kept_lem l prev es i le k;
      added = λ k lt. added_lem l prev es k le;
    })

pub append-some :
    (l : Log) (prev : ℕ) (es : List LogEntry)
    → prev ≤ last_index l
    → (m : Log) × (append l prev es ≡ some m)
unfolding append last_index
append-some l prev es h = (record l { rest = take prev l.rest ++ es }, ground arith)
