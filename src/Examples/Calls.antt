-- ===== src/Examples/Calls.antt =====
-- Calls over a wire whose units are whole values (src/internal/raft/tcp/transport.go).
use amy_queue.Prelude.{
  ℕ, ◌≡◌, String, ◌⊎◌, inl, inr, true, false, ◌==◌, nat_eq, if◌then◌else◌, refl, subst, some_inj,
  Option, none, some, List, [], ◌∷◌, ◌++◌, ◌>>=◌,
}
use amy_queue.Raft.Messages.{
  VoteRequest, VoteResponse, AppendEntriesRequest, AppendEntriesResponse, ObserverJoinRequest,
  ObserverJoinResponse, ClusterInfoRequest, ClusterInfoResponse,
}
use amy_queue.Raft.Node.{Node}
use amy_queue.Raft.Node.Election.{handle_vote_request}
use amy_queue.Examples.Nodes.{decode_nothing, node}
use amy_queue.Raft.Transport.{Handlers, node_handlers}
use amy_queue.Raft.Tcp.{
  Codec, Gob, Dial, conn_handler, handle_conn, serve, tag_vote_request, tag_append_entries,
}
use amy_queue.Raft.Tcp.Requests.{IsFaithful, AreFaithful, ask_vote, voted, send, handle, served_by}
use amy_queue.Raft.Tcp.Calls.{call_served}
use amy_queue.TcpServer.{
  Running, accept_step, handler_step, listen_failed, start, new_server, close,
}

data Wire : Type 0 where
  tag_value : ℕ → Wire
  vote_request : VoteRequest → Wire
  vote_response : VoteResponse → Wire
  append_request : AppendEntriesRequest → Wire
  append_response : AppendEntriesResponse → Wire
  join_request : ObserverJoinRequest → Wire
  join_response : ObserverJoinResponse → Wire
  info_request : ClusterInfoRequest → Wire
  info_response : ClusterInfoResponse → Wire

abbrev tag_value_of : Wire → Option ℕ
tag_value_of (tag_value a) = some a
tag_value_of _ = none

abbrev vote_request_of : Wire → Option VoteRequest
vote_request_of (vote_request a) = some a
vote_request_of _ = none

abbrev vote_response_of : Wire → Option VoteResponse
vote_response_of (vote_response a) = some a
vote_response_of _ = none

abbrev append_request_of : Wire → Option AppendEntriesRequest
append_request_of (append_request a) = some a
append_request_of _ = none

abbrev append_response_of : Wire → Option AppendEntriesResponse
append_response_of (append_response a) = some a
append_response_of _ = none

abbrev join_request_of : Wire → Option ObserverJoinRequest
join_request_of (join_request a) = some a
join_request_of _ = none

abbrev join_response_of : Wire → Option ObserverJoinResponse
join_response_of (join_response a) = some a
join_response_of _ = none

abbrev info_request_of : Wire → Option ClusterInfoRequest
info_request_of (info_request a) = some a
info_request_of _ = none

abbrev info_response_of : Wire → Option ClusterInfoResponse
info_response_of (info_response a) = some a
info_response_of _ = none

module _ {A : Type 0} (inj : A → Wire) (proj : Wire → Option A) where
  abbrev decode_by : List Wire → Option (A × List Wire)
  decode_by [] = none
  decode_by (v ∷ rest) = do a ← proj v; some (a, rest)

  abbrev value_codec : Codec Wire A
  value_codec = record { encode = λ a. some (inj a ∷ []); decode = decode_by }

  value_codec-IsFaithful : ((a : A) → proj (inj a) ≡ some a) → IsFaithful value_codec
  value_codec-IsFaithful law a bs rest e =
      subst (λ ws. decode_by (ws ++ rest) ≡ some (a, rest)) (some_inj _ _ e) (rw (law a) refl)

abbrev values : Gob Wire
values = record {
  tags = value_codec tag_value tag_value_of;
  vote_requests = value_codec vote_request vote_request_of;
  vote_responses = value_codec vote_response vote_response_of;
  append_requests = value_codec append_request append_request_of;
  append_responses = value_codec append_response append_response_of;
  join_requests = value_codec join_request join_request_of;
  join_responses = value_codec join_response join_response_of;
  info_requests = value_codec info_request info_request_of;
  info_responses = value_codec info_response info_response_of;
}

values-AreFaithful : AreFaithful values
values-AreFaithful = record {
  tags = value_codec-IsFaithful tag_value tag_value_of (λ a. refl);
  vote_requests = value_codec-IsFaithful vote_request vote_request_of (λ a. refl);
  vote_responses = value_codec-IsFaithful vote_response vote_response_of (λ a. refl);
  append_requests = value_codec-IsFaithful append_request append_request_of (λ a. refl);
  append_responses = value_codec-IsFaithful append_response append_response_of (λ a. refl);
  join_requests = value_codec-IsFaithful join_request join_request_of (λ a. refl);
  join_responses = value_codec-IsFaithful join_response join_response_of (λ a. refl);
  info_requests = value_codec-IsFaithful info_request info_request_of (λ a. refl);
  info_responses = value_codec-IsFaithful info_response info_response_of (λ a. refl);
}

abbrev request : VoteRequest
request = record { term = 2; candidate_id = "n2"; last_log_index = 2; last_log_term = 1 }

-- The node hears a request for votes while it lets a newcomer join.
abbrev handlers : Handlers Node
handlers = node_handlers (λ n. n) (λ n. (handle_vote_request request n).0) decode_nothing

abbrev after : Node × VoteResponse
after = handle_vote_request request node

abbrev to_node : Dial Wire
to_node _ = some (served_by values handlers node)

handled : handle handlers (ask_vote request) node ≡ some (after.0, voted after.1)
unfolding node_handlers
handled = refl

call_served_example :
    (send values to_node "a1" (ask_vote request) ≡ some (voted after.1))
    × (conn_handler values handlers node (tag_value tag_vote_request ∷ vote_request request ∷ [])
        ≡ some (after.0, vote_response after.1 ∷ []))
call_served_example =
    call_served values values-AreFaithful handlers node after.0 to_node "a1" (ask_vote request)
      (voted after.1) (tag_value tag_vote_request ∷ vote_request request ∷ [])
      (vote_response after.1 ∷ []) refl handled refl refl

-- A tag without a request.
abbrev cut_off : List Wire
cut_off = tag_value tag_append_entries ∷ []

-- A server that listens, and then closes its listener, which has the number 7.
abbrev listens : String → String ⊎ ℕ
listens addr = inr 7

abbrev busy : String → String ⊎ ℕ
busy addr = inl "address in use"

abbrev closes_seven : ℕ → Option String
closes_seven ln = if ln == 7 then none else some "closed twice"

started_server :
    (start listens (new_server "a1") ≡ (none, record { addr = "a1"; listener = some 7 }))
    × (start busy (new_server "a1") ≡ (some (listen_failed "a1" "address in use"), new_server "a1"))
unfolding start new_server
started_server = (refl, refl)

closed_server :
    (close closes_seven (start listens (new_server "a1")).1 ≡ none)
    × (close closes_seven (new_server "a1") ≡ none)
    × (close closes_seven (record { addr = "a1"; listener = some 8 }) ≡ some "closed twice")
unfolding start new_server close
closed_server = (refl, refl, refl)

abbrev serving : Running (List Wire) Node
serving = record { accepting = true; goroutines = []; state = node }

-- Two connections, the first with a vote request and the second cut off.
abbrev accepted : Running (List Wire) Node
accepted =
    accept_step (some cut_off)
      (accept_step (some (tag_value tag_vote_request ∷ vote_request request ∷ [])) serving)

-- The second one runs first, and then the listener is closed and the first one runs.
abbrev waiting : Running (List Wire) Node
waiting = record {
  accepting = true;
  goroutines = (tag_value tag_vote_request ∷ vote_request request ∷ []) ∷ [];
  state = node;
}

abbrev drained : Running (List Wire) Node
drained = record { accepting = false; goroutines = []; state = after.0 }

second_first : handler_step (handle_conn values handlers) 1 accepted ≡ some waiting
unfolding handler_step accept_step handle_conn conn_handler serve
second_first = refl

then_first : handler_step (handle_conn values handlers) 0 (accept_step none waiting) ≡ some drained
unfolding handler_step accept_step handle_conn conn_handler serve node_handlers
then_first = refl
