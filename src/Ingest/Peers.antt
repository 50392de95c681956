-- ===== src/Ingest/Peers.antt =====
-- The server of ingest/server.go with the router of cluster/router.go behind its interface, as main.go
-- puts them together.
use fruitfly.Base.{
  ltb, length, Str, ℕ, suc, ◌≤◌, ◌≡◌, refl, ap, ◌∙◌, ◌≢◌, true, false, not, Option, none, some, [],
  ◌∷◌, ◌++◌, arith,
}
use fruitfly.Types.{Event}
use fruitfly.Cluster.{Router, HttpReply, ForwardError, owner, forward, ingest_url}
use fruitfly.Cluster
use fruitfly.Ingest.{
  World, Config, Pipe, Request, RouterOps, RouterError, from_cluster, parsed, parse_event,
  parse_next, content_type_ok, is_empty, process_locally, after_forward, route, route_parsed,
  peer_status, handle_event,
}

wrap : Option ForwardError → Option RouterError
wrap none = none
wrap (some e) = some (from_cluster e)

-- *cluster.Router as an ingest.Router; `http n` answers the n-th request.
unfoldable pub cluster_ops : Router → (ℕ → Str → Str → HttpReply) → RouterOps
unfolding wrap
cluster_ops rt http = record {
  owner = owner rt;
  forward = λ n peer body batch. wrap (forward (http n) peer body batch);
}

-- No error of the cluster router shows a status to the server.
peer_status-wrap :
    (o : Option ForwardError) (e : RouterError) → wrap o ≡ some e → peer_status e ≡ none
unfolding wrap peer_status
peer_status-wrap none e h = cc
peer_status-wrap (some x) e h = ground arith

-- The request passes the checks of the handler and is not marked as forwarded.
pub record IsFresh (c : Config) (r : Request) : Type 0 where
  pub type_fits : content_type_ok r ≡ true
  pub body_fits : ltb c.max_bytes (length r.body) ≡ false
  pub whole : r.broken ≡ false
  pub unmarked : is_empty r.forwarded ≡ true

-- The handler's pipe once the event is parsed and its one request is made.
abbrev pub asked : Pipe → Str → Event → Pipe
asked p peer e = record p {
  drawn = suc p.drawn;
  sent = p.sent ++ (record { peer = peer; body = e.raw_json; batch = false }) ∷ [];
}

after_refusal :
    (w : World) (e : Event) (q : Pipe) (o : Option ForwardError)
    → o ≢ none
    → after_forward w e q (wrap o) ≡ process_locally w q e
unfolding wrap after_forward
after_refusal w e q none h = absurd (h refl)
after_refusal w e q (some x) h = refl

refused :
    (http : Str → Str → HttpReply) (peer body : Str) (code : ℕ)
    → http (ingest_url peer false) body ≡ Cluster.status code
    → 300 ≤ code
    → forward http peer body false ≢ none
unfolding forward
refused http peer body code h k e = ground (arith, h, k)

module _ (w : World) (c : Config) (rt : Router) (http : ℕ → Str → Str → HttpReply) (p : Pipe)
    (r : Request) (e : Event) (peer : Str) (code : ℕ) where
  route_refused :
      (q : Pipe)
      → owner rt e.entity_id ≡ (peer, false)
      → forward (http (length q.sent)) peer e.raw_json false ≢ none
      → route w (some (cluster_ops rt http)) false q e
        ≡ process_locally w
            (record q {
              sent = q.sent ++ (record { peer = peer; body = e.raw_json; batch = false }) ∷ [];
            })
            e
  unfolding route cluster_ops
  route_refused q o f = rw o (after_refusal w e _ _ f)

  -- A peer that answers an event with a refusal, 429 included, is not heeded: the handler goes on as
  -- if the peer had not been reached and offers the event to the local pipeline, whose status it
  -- answers with.
  pub handle_event_refused :
      c.router ≡ some (cluster_ops rt http)
      → IsFresh c r
      → parse_event w c (w.new_id p.drawn) r.body ≡ parsed e
      → owner rt e.entity_id ≡ (peer, false)
      → http (length p.sent) (ingest_url peer false) e.raw_json ≡ Cluster.status code
      → 300 ≤ code
      → handle_event w c p r ≡ process_locally w (asked p peer e) e
  unfolding handle_event route_parsed
  handle_event_refused cluster f ok o h k =
      let q : Pipe = record p { drawn = suc p.drawn } in
      rw (f.type_fits, f.body_fits, f.whole)
        (ap (λ b. route_parsed w c (not b) (parse_next w c p r.body)) f.unmarked
          ∙ ap (λ x. route_parsed w c false (q, x)) ok
          ∙ ap (λ x. route w x false q e) cluster
          ∙ route_refused q o (refused (http (length p.sent)) peer e.raw_json code h k))
