-- ===== src/Raft/Tcp/Calls.antt =====
-- A call over the TCP transport (src/internal/raft/tcp/transport.go), from the client's Send method
-- through `connHandler` to the callback and back.
use amy_queue.Raft.Tcp.Requests.{
  IsFaithful, AreFaithful, Request, ask_vote, ask_append, ask_join, ask_info, Answer, voted,
  appended, let_in, told, answers_parts, handle, told_by, send, tagged, written, written_back,
  served_by,
}
use amy_queue.Prelude.{
  ℕ, String, ◌≡◌, ◌∙◌, refl, ap, Option, some, List, [], ◌++◌, >>=-eq-some, some_inj, sym, subst,
  append_nil, nat_eq,
}
use amy_queue.Raft.Transport.{Callback, Handlers}
use amy_queue.Raft.Tcp.{
  Codec, Gob, Dial, call, serve, conn_handler, send_vote_request, send_append_entries,
  send_observer_join, send_cluster_info, tag_vote_request, tag_append_entries, tag_observer_join,
  tag_cluster_info,
}

module _ {W : Type 0} (gob : Gob W) where
  tagged_parts :
      (tag : ℕ) (r : Option (List W)) (bs : List W)
      → tagged gob tag r ≡ some bs
      → (t : List W) × (rb : List W) × (gob.tags.encode tag ≡ some t)
        × (r ≡ some rb)
        × (bs ≡ t ++ rb)
  tagged_parts tag r bs h =
      let (t, et, rest) = >>=-eq-some (gob.tags.encode tag) _ bs h in
      let (rb, er, eb) = >>=-eq-some r _ bs rest in (t, rb, et, er, some_inj _ _ (sym eb))

  serve_lem :
      {S Req Resp : Type 0} (reqs : Codec W Req) (resps : Codec W Resp)
      (callback : Callback S Req Resp) (s s' : S) (req : Req) (resp : Resp) (rb out : List W)
      → IsFaithful reqs
      → reqs.encode req ≡ some rb
      → callback req s ≡ some (s', resp)
      → resps.encode resp ≡ some out
      → serve gob reqs resps callback s rb ≡ some (s', out)
  unfolding serve
  serve_lem reqs resps callback s s' req resp rb out law er e eo =
      let d : reqs.decode rb ≡ some (req, []) =
        subst (λ bs. reqs.decode bs ≡ some (req, [])) (append_nil rb) (law req rb [] er) in
      rw (serve, d, e, eo) refl

  -- A request under a tag that `connHandler` routes to the callback.
  served :
      {S Req Resp : Type 0} (h : Handlers S) (reqs : Codec W Req) (resps : Codec W Resp)
      (callback : Callback S Req Resp) (tag : ℕ) (s s' : S) (req : Req) (resp : Resp)
      (bs out : List W)
      → AreFaithful gob
      → IsFaithful reqs
      → ((bytes rest : List W)
          → gob.tags.decode bytes ≡ some (tag, rest)
          → conn_handler gob h s bytes ≡ serve gob reqs resps callback s rest)
      → callback req s ≡ some (s', resp)
      → tagged gob tag (reqs.encode req) ≡ some bs
      → resps.encode resp ≡ some out
      → conn_handler gob h s bs ≡ some (s', out)
  served h reqs resps callback tag s s' req resp bs out law law' route e w b =
      let (t, rb, et, er, eb) = tagged_parts tag (reqs.encode req) bs w in
      route bs rb (rw (eb) (law.tags tag t rb et))
      ∙ serve_lem reqs resps callback s s' req resp rb out law' er e b

  module _ {S : Type 0} (law : AreFaithful gob) (h : Handlers S) (s s' : S) where
    -- A request that a client writes reaches the callback that it is meant for, once, and the bytes
    -- that the server writes are those of the callback's answer.
    conn_handler-written :
        (req : Request) (ans : Answer) (bs out : List W)
        → handle h req s ≡ some (s', ans)
        → written gob req ≡ some bs
        → written_back gob ans ≡ some out
        → conn_handler gob h s bs ≡ some (s', out)
    unfolding conn_handler
    conn_handler-written (ask_vote req) ans bs out e w b =
        let (resp, eh, ea) = answers_parts voted (h.on_vote_request req s) s' ans e in
        served h gob.vote_requests gob.vote_responses h.on_vote_request tag_vote_request s s' req
          resp bs out law law.vote_requests (λ bytes rest d. rw (conn_handler, d) refl) eh w cc
    conn_handler-written (ask_append req) ans bs out e w b =
        let (resp, eh, ea) = answers_parts appended (h.on_append_entries req s) s' ans e in
        served h gob.append_requests gob.append_responses h.on_append_entries tag_append_entries s
          s' req resp bs out law law.append_requests (λ bytes rest d. rw (conn_handler, d) refl) eh
          w cc
    conn_handler-written (ask_join req) ans bs out e w b =
        let (resp, eh, ea) = answers_parts let_in (h.on_observer_join req s) s' ans e in
        served h gob.join_requests gob.join_responses h.on_observer_join tag_observer_join s s' req
          resp bs out law law.join_requests (λ bytes rest d. rw (conn_handler, d) refl) eh w cc
    conn_handler-written (ask_info req) ans bs out e w b =
        let (resp, eh, ea) = answers_parts told (h.on_cluster_info req s) s' ans e in
        served h gob.info_requests gob.info_responses h.on_cluster_info tag_cluster_info s s' req
          resp bs out law law.info_requests (λ bytes rest d. rw (conn_handler, d) refl) eh w cc

  called :
      {Req Resp : Type 0} (reqs : Codec W Req) (resps : Codec W Resp) (tag : ℕ) (dial : Dial W)
      (addr : String) (other_end : List W → List W) (req : Req) (resp : Resp) (bs out : List W)
      → IsFaithful resps
      → dial addr ≡ some other_end
      → tagged gob tag (reqs.encode req) ≡ some bs
      → other_end bs ≡ out
      → resps.encode resp ≡ some out
      → call gob reqs resps tag dial addr req ≡ some resp
  unfolding call
  called reqs resps tag dial addr other_end req resp bs out law ed w eo b =
      let (t, rb, et, er, eb) = tagged_parts tag (reqs.encode req) bs w in
      let d : resps.decode out ≡ some (resp, []) =
        subst (λ bs. resps.decode bs ≡ some (resp, [])) (append_nil out) (law resp out [] b) in
      rw (call, ed, et, er, sym eb, eo, d) refl

  module _ {S : Type 0} (law : AreFaithful gob) (h : Handlers S) (s s' : S) where
    -- The answer that a client reads is the callback's.
    send-answered :
        (dial : Dial W) (addr : String) (other_end : List W → List W) (req : Request) (ans : Answer)
        (bs out : List W)
        → dial addr ≡ some other_end
        → handle h req s ≡ some (s', ans)
        → written gob req ≡ some bs
        → other_end bs ≡ out
        → written_back gob ans ≡ some out
        → send gob dial addr req ≡ some ans
    unfolding send_vote_request send_append_entries send_observer_join send_cluster_info
    send-answered dial addr other_end (ask_vote req) ans bs out ed e w eo b =
        let (resp, _, ea) = answers_parts voted (h.on_vote_request req s) s' ans e in
        let c =
          called gob.vote_requests gob.vote_responses tag_vote_request dial addr other_end req resp
            bs out law.vote_responses ed w eo cc in
        ap (told_by gob voted) c ∙ ap (λ x. some x) (sym ea)
    send-answered dial addr other_end (ask_append req) ans bs out ed e w eo b =
        let (resp, _, ea) = answers_parts appended (h.on_append_entries req s) s' ans e in
        let c =
          called gob.append_requests gob.append_responses tag_append_entries dial addr other_end req
            resp bs out law.append_responses ed w eo cc in
        ap (told_by gob appended) c ∙ ap (λ x. some x) (sym ea)
    send-answered dial addr other_end (ask_join req) ans bs out ed e w eo b =
        let (resp, _, ea) = answers_parts let_in (h.on_observer_join req s) s' ans e in
        let c =
          called gob.join_requests gob.join_responses tag_observer_join dial addr other_end req resp
            bs out law.join_responses ed w eo cc in
        ap (told_by gob let_in) c ∙ ap (λ x. some x) (sym ea)
    send-answered dial addr other_end (ask_info req) ans bs out ed e w eo b =
        let (resp, _, ea) = answers_parts told (h.on_cluster_info req s) s' ans e in
        let c =
          called gob.info_requests gob.info_responses tag_cluster_info dial addr other_end req resp
            bs out law.info_responses ed w eo cc in
        ap (told_by gob told) c ∙ ap (λ x. some x) (sym ea)

    -- For each of the four kinds of request: the client has a connection to a server in state s, and the
    -- request and the answer of the callback that the request is meant for can be encoded. Then the Send
    -- method returns that answer without an error, and the server has run that callback once and is in the
    -- state after it.
    pub call_served :
        (dial : Dial W) (addr : String) (req : Request) (ans : Answer) (bs out : List W)
        → dial addr ≡ some (served_by gob h s)
        → handle h req s ≡ some (s', ans)
        → written gob req ≡ some bs
        → written_back gob ans ≡ some out
        → (send gob dial addr req ≡ some ans) × (conn_handler gob h s bs ≡ some (s', out))
    call_served dial addr req ans bs out ed e w b =
        let k = conn_handler-written law h s s' req ans bs out e w b in
        let eo : served_by gob h s bs ≡ out = rw (served_by, k) refl in
        (send-answered dial addr (served_by gob h s) req ans bs out ed e w eo b, k)
