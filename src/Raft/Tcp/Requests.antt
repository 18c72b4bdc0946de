-- ===== src/Raft/Tcp/Requests.antt =====
-- The four kinds of request that src/internal/raft/tcp/transport.go carries, taken together, and what
-- encoding/gob is relied on for.
use amy_queue.Prelude.{
  ℕ, String, ◌≡◌, ◌∙◌, ap, Option, none, some, List, [], ◌++◌, ◌>>=◌, >>=-eq-some, some_inj, sym,
  nat_eq,
}
use amy_queue.Raft.Messages.{
  VoteRequest, VoteResponse, AppendEntriesRequest, AppendEntriesResponse, ObserverJoinRequest,
  ObserverJoinResponse, ClusterInfoRequest, ClusterInfoResponse,
}
use amy_queue.Raft.Transport.{Handlers}
use amy_queue.Raft.Tcp.{
  Codec, Gob, Dial, conn_handler, send_vote_request, send_append_entries, send_observer_join,
  send_cluster_info, tag_vote_request, tag_append_entries, tag_observer_join, tag_cluster_info,
}

-- What gob documents: a value decodes to what was encoded, and no more of the stream is taken.
abbrev pub IsFaithful : {W A : Type 0} → Codec W A → Type 0
IsFaithful {W} {A} c =
    (a : A) (bs rest : List W) → c.encode a ≡ some bs → c.decode (bs ++ rest) ≡ some (a, rest)

pub record AreFaithful {W : Type 0} (gob : Gob W) : Type 0 where
  pub tags : IsFaithful gob.tags
  pub vote_requests : IsFaithful gob.vote_requests
  pub vote_responses : IsFaithful gob.vote_responses
  pub append_requests : IsFaithful gob.append_requests
  pub append_responses : IsFaithful gob.append_responses
  pub join_requests : IsFaithful gob.join_requests
  pub join_responses : IsFaithful gob.join_responses
  pub info_requests : IsFaithful gob.info_requests
  pub info_responses : IsFaithful gob.info_responses

-- One request and one answer of the four kinds.
pub data Request : Type 0 where
  ask_vote : VoteRequest → Request
  ask_append : AppendEntriesRequest → Request
  ask_join : ObserverJoinRequest → Request
  ask_info : ClusterInfoRequest → Request

pub data Answer : Type 0 where
  voted : VoteResponse → Answer
  appended : AppendEntriesResponse → Answer
  let_in : ObserverJoinResponse → Answer
  told : ClusterInfoResponse → Answer

abbrev pub answers : {S Resp : Type 0} → (Resp → Answer) → Option (S × Resp) → Option (S × Answer)
answers wrap r = do sr ← r; some (sr.0, wrap sr.1)

-- The callback that a request is meant for.
abbrev pub handle : {S : Type 0} → Handlers S → Request → S → Option (S × Answer)
handle h (ask_vote req) s = answers voted (h.on_vote_request req s)
handle h (ask_append req) s = answers appended (h.on_append_entries req s)
handle h (ask_join req) s = answers let_in (h.on_observer_join req s)
handle h (ask_info req) s = answers told (h.on_cluster_info req s)

pub answers_parts :
    {S Resp : Type 0} (wrap : Resp → Answer) (r : Option (S × Resp)) (s : S) (ans : Answer)
    → answers wrap r ≡ some (s, ans)
    → (resp : Resp) × (r ≡ some (s, resp)) × (ans ≡ wrap resp)
answers_parts {S} wrap r s ans h =
    let (sr, er, e) = >>=-eq-some r _ (s, ans) h in
    let p = some_inj (sr.0, wrap sr.1) (s, ans) e in
    (sr.1, er ∙ ap (λ (x : S × Answer). some (x.0, sr.1)) p, sym (ap (λ (x : S × Answer). x.1) p))

module _ {W : Type 0} (gob : Gob W) where
  abbrev pub told_by : {Resp : Type 0} → (Resp → Answer) → Option Resp → Option Answer
  told_by wrap r = do resp ← r; some (wrap resp)

  -- The Send method for a request.
  abbrev pub send : Dial W → String → Request → Option Answer
  send dial addr (ask_vote req) = told_by voted (send_vote_request gob dial addr req)
  send dial addr (ask_append req) = told_by appended (send_append_entries gob dial addr req)
  send dial addr (ask_join req) = told_by let_in (send_observer_join gob dial addr req)
  send dial addr (ask_info req) = told_by told (send_cluster_info gob dial addr req)

  abbrev pub tagged : ℕ → Option (List W) → Option (List W)
  tagged tag r = do t ← gob.tags.encode tag; bs ← r; some (t ++ bs)

  -- What a client writes for a request, and a server for an answer.
  abbrev pub written : Request → Option (List W)
  written (ask_vote req) = tagged tag_vote_request (gob.vote_requests.encode req)
  written (ask_append req) = tagged tag_append_entries (gob.append_requests.encode req)
  written (ask_join req) = tagged tag_observer_join (gob.join_requests.encode req)
  written (ask_info req) = tagged tag_cluster_info (gob.info_requests.encode req)

  abbrev pub written_back : Answer → Option (List W)
  written_back (voted resp) = gob.vote_responses.encode resp
  written_back (appended resp) = gob.append_responses.encode resp
  written_back (let_in resp) = gob.join_responses.encode resp
  written_back (told resp) = gob.info_responses.encode resp

  -- What a connection to a server in state `s` writes back: nothing when it panics.
  abbrev pub served_by : {S : Type 0} → Handlers S → S → List W → List W
  served_by h s bytes = elim (conn_handler gob h s bytes) [ none ↦ [] | some (_, out) ↦ out ]
