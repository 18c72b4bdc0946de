-- ===== src/Raft/Cluster/Follows.antt =====
-- The voters of a node that learns who its leader is (src/internal/raft/node.go, handleAppendEntries).
use amy_queue.Prelude.{
  ◌≡◌, ◌≢◌, refl, sym, ap, ◌∙◌, subst, String, none, some, inl, inr, List, [], ◌∷◌, All, Occurs,
  All-Occurs, Bool-cases, lookup, string_eq, not, ◌&&◌, ◌==◌,
}
use amy_queue.Raft.Membership.{Member, voters, count_voters, update_id, add_observer, find_other}
use amy_queue.Raft.Membership.Keys.{IsKeyed}
use amy_queue.Raft.Membership.Renames.{update_id_lem, add_observer_keeps}
use amy_queue.Raft.Messages.{AppendEntriesRequest, ObserverJoinRequest}
use amy_queue.Raft.Node.{Node}
use amy_queue.Raft.Node.Election.{take_heartbeat, begin_election}
use amy_queue.Raft.Node.Replication.{Decode, follow, on_append_failure}
use amy_queue.Raft.Node.Admin.{enroll_observer, track_observer, append_command}
use amy_queue.Raft.Node.Steps.{
  Step, expires, beats, begins, hears_vote, campaigns, votes, follows, sends, fails, hears_append,
  enrolls, tracks, submits, promotes, promoted,
}
use amy_queue.Raft.Node.Roster.{HasRoster, Step-HasRoster}
use amy_queue.Raft.Node.Statics.{
  SameRoll, IsStatic, expires-SameRoll, hears_vote-SameRoll, campaigns-SameRoll, votes-SameRoll,
  sends-SameRoll, promotes-SameRoll, promoted-SameRoll, hears_append-SameRoll, follows-SameRoll,
}
use amy_queue.Raft.Cluster.Elections.{Covers}

-- A peer's address: one of the cluster's, and not the node's own.
abbrev IsPeer : List String → String → String → Type 0
IsPeer addrs own p = Occurs p addrs × (own ≢ p)

All-IsPeer :
    (addrs : List String) (own : String) (ps : List String)
    → All (λ p. Occurs p addrs) ps
    → ¬ Occurs own ps
    → All (IsPeer addrs own) ps
All-IsPeer addrs own [] h n = tt
All-IsPeer addrs own (p ∷ ps) h n =
    ((h.0, λ e. n (inl e)), All-IsPeer addrs own ps h.1 (λ o. n (inr o)))

peers_in_addrs :
    (addrs : List String) (own : String) (ps : List String)
    → All (IsPeer addrs own) ps
    → All (λ p. Occurs p addrs) ps
peers_in_addrs addrs own [] h = tt
peers_in_addrs addrs own (p ∷ ps) h = (h.0.0, peers_in_addrs addrs own ps h.1)

renamed-Covers :
    (addrs : List String) (own addr real_id : String) (n : Node)
    → IsKeyed n.voters
    → Covers addrs own n
    → real_id ≢ n.cfg.id
    → ((m : Member) → lookup n.cfg.id n.voters ≡ some m → m.addr ≢ addr)
    → ((m : Member) → lookup real_id n.voters ≡ some m → find_other addr real_id n.voters ≡ none)
    → Covers addrs own (record n { voters = update_id addr real_id n.voters })
renamed-Covers addrs own addr real_id n k c other apart known =
    let ps = voters n.cfg.id n.voters in
    let (count, peers) =
      update_id_lem (IsPeer addrs own) n.cfg.id addr real_id n.voters k.unique other apart known
        (All-IsPeer addrs own ps c.peers_in c.not_own) in
    let qs = voters n.cfg.id (update_id addr real_id n.voters) in
    record {
      count = count ∙ c.count;
      own_in = c.own_in;
      peers_in = peers_in_addrs addrs own qs peers;
      not_own = λ o. (All-Occurs (IsPeer addrs own) qs own peers o).1 refl;
    }

-- Who a node may take for its leader: the leader has neither its id nor its address, and if the
-- leader's id is a member already, then no other member has the leader's address.
pub record IsLeaderOf (req : AppendEntriesRequest) (n : Node) : Type 0 where
  pub other_id : req.leader_id ≢ n.cfg.id
  pub other_addr : (m : Member) → lookup n.cfg.id n.voters ≡ some m → m.addr ≢ req.leader_addr
  pub alone_there :
      (m : Member)
      → lookup req.leader_id n.voters ≡ some m
      → find_other req.leader_addr req.leader_id n.voters ≡ none

-- The leader's member gets its real id, and neither the quorum nor the peers change.
follow-Covers :
    (addrs : List String) (own : String) (req : AppendEntriesRequest) (n : Node)
    → HasRoster n
    → Covers addrs own n
    → IsLeaderOf req n
    → Covers addrs own (follow req n)
unfolding follow
follow-Covers addrs own req n k c l =
    let r =
      renamed-Covers addrs own req.leader_addr req.leader_id n k c l.other_id l.other_addr
        l.alone_there in
    elim (Bool-cases (not (req.leader_id == "") && not (req.leader_addr == ""))) [
      | inl e ↦
          rw (e, follow)
            (record {
              count = r.count;
              own_in = r.own_in;
              peers_in = r.peers_in;
              not_own = r.not_own;
            })
      | inr e ↦
          rw (e, follow)
            (record {
              count = c.count;
              own_in = c.own_in;
              peers_in = c.peers_in;
              not_own = c.not_own;
            })
    ]

enrolls-Covers :
    (addrs : List String) (own : String) (req : ObserverJoinRequest) (n : Node)
    → Covers addrs own n
    → Covers addrs own (enroll_observer req n)
unfolding enroll_observer
enrolls-Covers addrs own req n c =
    let ps = voters n.cfg.id n.voters in
    let (count, peers) =
      add_observer_keeps (IsPeer addrs own) n.cfg.id req.node_id req.addr n.voters
        (All-IsPeer addrs own ps c.peers_in c.not_own) in
    let qs = voters n.cfg.id (add_observer req.node_id req.addr n.voters) in
    record {
      count = count ∙ c.count;
      own_in = c.own_in;
      peers_in = peers_in_addrs addrs own qs peers;
      not_own = λ o. (All-Occurs (IsPeer addrs own) qs own peers o).1 refl;
    }

SameRoll-Covers :
    (addrs : List String) (own : String) (n m : Node)
    → SameRoll n m
    → Covers addrs own n
    → Covers addrs own m
SameRoll-Covers addrs own n m (i, v) c =
    let same : voters n.cfg.id n.voters ≡ voters m.cfg.id m.voters = rw (i, v) refl in
    record {
      count = ap count_voters (sym v) ∙ c.count;
      own_in = c.own_in;
      peers_in = subst (All (λ p. Occurs p addrs)) same c.peers_in;
      not_own = subst (λ ps. ¬ Occurs own ps) same c.not_own;
    }

-- A step in which an append request comes from one that the node may take for its leader.
abbrev pub IsHonest : {decode : Decode} {n m : Node} → Step decode n m → Type 0
IsHonest (follows req resp {n = n} e) = IsLeaderOf req n
IsHonest _ = Unit

Step-Covers :
    {decode : Decode} (addrs : List String) (own : String) {n m : Node}
    → IsStatic n.log
    → IsStatic m.log
    → HasRoster n
    → Covers addrs own n
    → (s : Step decode n m) → IsHonest s
    → Covers addrs own m
unfolding take_heartbeat begin_election on_append_failure append_command track_observer
Step-Covers addrs own static static' k c (expires n) h =
    SameRoll-Covers addrs own n _ (expires-SameRoll n) c
Step-Covers addrs own static static' k c (beats n) h = SameRoll-Covers addrs own n _ (refl, refl) c
Step-Covers addrs own static static' k c (begins n) h = SameRoll-Covers addrs own n _ (refl, refl) c
Step-Covers addrs own static static' k c (hears_vote resp n) h =
    SameRoll-Covers addrs own n _ (hears_vote-SameRoll resp n) c
Step-Covers addrs own static static' k c (campaigns e event n) h =
    SameRoll-Covers addrs own n _ (campaigns-SameRoll e event n) c
Step-Covers addrs own static static' k c (votes req n) h =
    SameRoll-Covers addrs own n _ (votes-SameRoll req n) c
Step-Covers {decode} addrs own static static' k c (follows req resp {n = n} {m = m} e) h =
    elim (follows-SameRoll decode req n m resp e static') [
      | inl s ↦ SameRoll-Covers addrs own n m s c
      | inr s ↦ SameRoll-Covers addrs own (follow req n) m s (follow-Covers addrs own req n k c h)
    ]
Step-Covers addrs own static static' k c (sends addr n) h =
    SameRoll-Covers addrs own n _ (sends-SameRoll addr n) c
Step-Covers addrs own static static' k c (fails addr n) h =
    SameRoll-Covers addrs own n _ (refl, refl) c
Step-Covers {decode} addrs own static static' k c (hears_append addr req resp n) h =
    SameRoll-Covers addrs own n _ (hears_append-SameRoll decode addr req resp n static) c
Step-Covers addrs own static static' k c (enrolls req n) h = enrolls-Covers addrs own req n c
Step-Covers addrs own static static' k c (tracks req n) h =
    SameRoll-Covers addrs own n _ (refl, refl) c
Step-Covers addrs own static static' k c (submits kind cmd n) h =
    SameRoll-Covers addrs own n _ (refl, refl) c
Step-Covers addrs own static static' k c (promotes last threshold m calls n) h =
    SameRoll-Covers addrs own n _ (promotes-SameRoll last threshold m n calls) c
Step-Covers addrs own static static' k c (promoted id resp n) h =
    SameRoll-Covers addrs own n _ (promoted-SameRoll id resp n) c

-- Runs of honest steps, in which no entry of the node's log is ever a membership change.
pub data Steady (decode : Decode) (n : Node) : Node → Type 0 where
  at_start : IsStatic n.log → Steady decode n n
  and_then :
      {m k : Node}
      → Steady decode n m
      → (s : Step decode m k) → IsHonest s
      → IsStatic k.log
      → Steady decode n k

Steady-IsStatic : {decode : Decode} {n m : Node} → Steady decode n m → IsStatic m.log
Steady-IsStatic (at_start static) = static
Steady-IsStatic (and_then r s h static) = static

Steady-HasRoster : {decode : Decode} {n m : Node} → HasRoster n → Steady decode n m → HasRoster m
Steady-HasRoster k (at_start _) = k
Steady-HasRoster k (and_then r s h _) = Step-HasRoster s (Steady-HasRoster k r)

-- Honest steps keep what the node counts as voters.
pub Steady-Covers :
    {decode : Decode} (addrs : List String) (own : String) {n m : Node}
    → HasRoster n
    → Covers addrs own n
    → Steady decode n m
    → Covers addrs own m
Steady-Covers addrs own k c (at_start _) = c
Steady-Covers addrs own k c (and_then r s h static) =
    Step-Covers addrs own (Steady-IsStatic r) static (Steady-HasRoster k r)
      (Steady-Covers addrs own k c r) s h
