-- ===== src/Raft/Tcp.antt =====
-- src/internal/raft/tcp/transport.go: one call per connection, a tag and a request one way and the
-- answer the other way.
--
-- encoding/gob and the sockets are not part of the repository: a `Codec` is what Encode and Decode do
-- on a stream, with `none` for an error, and `dial` gives for an address what its other end writes in
-- answer to what is written. Deadlines are left out: a call that runs into one is an error of these.
-- `return resp, dec.Decode(&resp)` reads `resp` after the call, as Go's compiler does.
pub mod Requests
pub mod Calls
use amy_queue.Prelude.{
  ℕ, String, Option, none, some, List, [], ◌++◌, ◌>>=◌, ◌==◌, if◌then◌else◌, nat_eq,
}
use amy_queue.Raft.Messages.{
  VoteRequest, VoteResponse, AppendEntriesRequest, AppendEntriesResponse, ObserverJoinRequest,
  ObserverJoinResponse, ClusterInfoRequest, ClusterInfoResponse,
}
use amy_queue.Raft.Transport.{Callback, Handlers}

abbrev pub tag_vote_request : ℕ
tag_vote_request = 1

abbrev pub tag_append_entries : ℕ
tag_append_entries = 3

abbrev pub tag_observer_join : ℕ
tag_observer_join = 5

abbrev pub tag_cluster_info : ℕ
tag_cluster_info = 7

-- `Encode` of a value of type A, and `Decode` of one with the rest of the stream.
pub record Codec (W A : Type 0) : Type 0 where
  pub encode : A → Option (List W)
  pub decode : List W → Option (A × List W)

pub record Gob (W : Type 0) : Type 0 where
  pub tags : Codec W ℕ
  pub vote_requests : Codec W VoteRequest
  pub vote_responses : Codec W VoteResponse
  pub append_requests : Codec W AppendEntriesRequest
  pub append_responses : Codec W AppendEntriesResponse
  pub join_requests : Codec W ObserverJoinRequest
  pub join_responses : Codec W ObserverJoinResponse
  pub info_requests : Codec W ClusterInfoRequest
  pub info_responses : Codec W ClusterInfoResponse

abbrev pub Dial : Type 0 → Type 0
Dial W = String → Option (List W → List W)

module _ {W : Type 0} (gob : Gob W) where
  -- The body that the four Send methods share.
  unfoldable pub call :
      {Req Resp : Type 0} → Codec W Req → Codec W Resp → ℕ → Dial W → String → Req → Option Resp
  call reqs resps tag dial addr req = do
    other_end ← dial addr
    tag_bytes ← gob.tags.encode tag
    req_bytes ← reqs.encode req
    answer ← resps.decode (other_end (tag_bytes ++ req_bytes))
    some answer.0

  unfoldable pub send_vote_request : Dial W → String → VoteRequest → Option VoteResponse
  send_vote_request = call gob.vote_requests gob.vote_responses tag_vote_request

  unfoldable pub send_append_entries :
      Dial W → String → AppendEntriesRequest → Option AppendEntriesResponse
  send_append_entries = call gob.append_requests gob.append_responses tag_append_entries

  unfoldable pub send_observer_join :
      Dial W → String → ObserverJoinRequest → Option ObserverJoinResponse
  send_observer_join = call gob.join_requests gob.join_responses tag_observer_join

  unfoldable pub send_cluster_info :
      Dial W → String → ClusterInfoRequest → Option ClusterInfoResponse
  send_cluster_info = call gob.info_requests gob.info_responses tag_cluster_info

  module _ {S : Type 0} where
    -- A case of the switch in `connHandler`: the state after it and what it writes. A request that
    -- does not decode, or an answer that does not encode, writes nothing; `none` is a panic.
    unfoldable pub serve :
        {Req Resp : Type 0}
        → Codec W Req
        → Codec W Resp
        → Callback S Req Resp
        → S
        → List W
        → Option (S × List W)
    serve reqs resps handle s bytes = elim (reqs.decode bytes) [
      | none ↦ some (s, [])
      | some (req, _) ↦ elim (handle req s) [
        | none ↦ none
        | some (s', resp) ↦ elim (resps.encode resp) [
          | none ↦ some (s', [])
          | some out ↦ some (s', out)
        ]
      ]
    ]

    unfoldable pub conn_handler : Handlers S → S → List W → Option (S × List W)
    conn_handler h s bytes = elim (gob.tags.decode bytes) [
      | none ↦ some (s, [])
      | some (tag, rest) ↦
          if tag == tag_vote_request
          then serve gob.vote_requests gob.vote_responses h.on_vote_request s rest
          else if tag == tag_append_entries
          then serve gob.append_requests gob.append_responses h.on_append_entries s rest
          else if tag == tag_observer_join
          then serve gob.join_requests gob.join_responses h.on_observer_join s rest
          else if tag == tag_cluster_info
          then serve gob.info_requests gob.info_responses h.on_cluster_info s rest
          else some (s, [])
    ]

    -- The handler that the transport's Start gives to its server; what it writes goes to the other end.
    unfoldable pub handle_conn : Handlers S → List W → S → Option S
    handle_conn h bytes s = do r ← conn_handler h s bytes; some r.0
