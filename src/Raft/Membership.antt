-- ===== src/Raft/Membership.antt =====
-- src/internal/raft/membership.go: who votes and who observes. Every method runs under the set's
-- lock, so it is one step.
pub mod Quorum
pub mod Keys
pub mod Renames
use amy_queue.Prelude.{
  ℕ, suc, String, ◌+◌, ◌/◌, Bool, true, false, ◌&&◌, not, Option, none, some, List, [], ◌∷◌, map,
  ◌==◌, if◌then◌else◌, Map, lookup, insert, delete, string_eq,
}

pub data NodeState : Type 0 where
  observer voter : NodeState

abbrev pub is_voter_state : NodeState → Bool
is_voter_state voter = true
is_voter_state observer = false

pub record Member : Type 0 where
  pub id : String
  pub addr : String
  pub state : NodeState

-- The members by node id.
abbrev pub VoterSet : Type 0
VoterSet = Map String Member

unfoldable pub new_voter_set : VoterSet
new_voter_set = []

unfoldable pub add_voter : String → String → VoterSet → VoterSet
add_voter id addr v = insert id (record { id = id; addr = addr; state = voter }) v

unfoldable pub add_observer : String → String → VoterSet → VoterSet
add_observer id addr v = elim (lookup id v) [
  | some _ ↦ v
  | none ↦ insert id (record { id = id; addr = addr; state = observer }) v
]

-- The first member that the loop of `UpdateID` stops at.
unfoldable pub find_other : String → String → VoterSet → Option (String × Member)
find_other addr real_id [] = none
find_other addr real_id ((id, m) ∷ v) =
    if m.addr == addr && not (id == real_id) then some (id, m) else find_other addr real_id v

unfoldable pub update_id : String → String → VoterSet → VoterSet
update_id addr real_id v = elim (find_other addr real_id v) [
  | none ↦ v
  | some (id, m) ↦ insert real_id (record m { id = real_id }) (delete id v)
]

unfoldable pub remove : String → VoterSet → VoterSet
remove id v = delete id v

unfoldable pub voters : String → VoterSet → List String
voters self [] = []
voters self ((id, m) ∷ v) =
    let rest = voters self v in
    if not (id == self) && is_voter_state m.state then m.addr ∷ rest else rest

unfoldable pub count_voters : VoterSet → ℕ
count_voters [] = 0
count_voters ((id, m) ∷ v) =
    let rest = count_voters v in if is_voter_state m.state then suc rest else rest

unfoldable pub quorum_size : VoterSet → ℕ
quorum_size v = count_voters v / 2 + 1

unfoldable pub members : VoterSet → List Member
members v = map (λ e. e.1) v

unfoldable pub is_voter : String → VoterSet → Bool
is_voter id v = elim (lookup id v) [ none ↦ false | some m ↦ is_voter_state m.state ]

unfoldable pub all_peer_addrs : String → VoterSet → List String
all_peer_addrs self [] = []
all_peer_addrs self ((id, m) ∷ v) =
    let rest = all_peer_addrs self v in
    if not (id == self) && not (m.addr == "") then m.addr ∷ rest else rest

unfoldable pub addr_of : String → VoterSet → String
addr_of id v = elim (lookup id v) [ none ↦ "" | some m ↦ m.addr ]

-- What a membership entry of the log carries. `other` is any action but the two that the code names.
pub data MembershipAction : Type 0 where
  add_voter_action remove_voter_action : MembershipAction
  other_action : String → MembershipAction

pub record MembershipChange : Type 0 where
  pub action : MembershipAction
  pub node_id : String
  pub addr : String
