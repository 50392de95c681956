-- ===== src/Ingest/Single.antt =====
-- What POST /events does (handleEvent of ingest/server.go).
use fruitfly.Base.{
  ◌<◌, ltb, if_elim, length, ℕ, suc, ◌≡◌, refl, ◌≢◌, ◌⊎◌, Bool, true, false, not, Option, none,
  some, [], ◌∷◌, ◌++◌, arith,
}
use fruitfly.Types.{Event}
use fruitfly.Ingest.{
  World, Config, Pipe, Request, RouterOps, RouterError, with_status_code, ParseError, Parsed,
  parsed, invalid, parse_event, content_type_ok, is_empty, process_locally, route, route_parsed,
  handle_event,
}

abbrev pub status : Pipe × ℕ → ℕ
status r = r.1

-- What becomes of an event, from the pipe before its routing to that after it, and the status.
module _ (w : World) (router : Option RouterOps) (forwarded : Bool) (p : Pipe) (e : Event) where
  -- One request was made, for this event to its owner, and was answered so.
  abbrev pub Asked : Pipe → Option RouterError → Type 0
  Asked q answer =
      (ops : RouterOps) × (router ≡ some ops)
      × (forwarded ≡ false)
      × ((ops.owner e.entity_id).1 ≡ false)
      × (q.sent
          ≡ p.sent
            ++ (record { peer = (ops.owner e.entity_id).0; body = e.raw_json; batch = false }) ∷ [])
      × (ops.forward (length p.sent) (ops.owner e.entity_id).0 e.raw_json false ≡ answer)

  -- No request was made: there are no peers, the event comes from one, or it belongs here.
  abbrev pub Unasked : Pipe → Type 0
  Unasked q =
      (q.sent ≡ p.sent)
      × ((router ≡ none)
          ⊎ ((forwarded ≡ true)
              ⊎ ((ops : RouterOps) × (router ≡ some ops) × ((ops.owner e.entity_id).1 ≡ true))))

  -- The owner could not be asked: its router fails without a status of the peer's.
  abbrev pub Unreached : Pipe → Type 0
  Unreached q = (x : RouterError) × Asked q (some x) × ((code : ℕ) → x ≢ with_status_code code)

  -- The channel took the event, as its last, or was full.
  abbrev pub Offered : Pipe × ℕ → Type 0
  Offered r =
      ((w.accepts p.tried ≡ true) × (status r ≡ 202) × (r.0.delivered ≡ p.delivered ++ e ∷ []))
      ⊎ ((w.accepts p.tried ≡ false) × (status r ≡ 429) × (r.0.delivered ≡ p.delivered))

  -- The owner's refusal, and the status that it is passed on with.
  abbrev pub Refused : Pipe × ℕ → Type 0
  Refused r =
      (code : ℕ) × Asked r.0 (some (with_status_code code))
      × (((code ≡ 429) × (status r ≡ 429)) ⊎ ((code ≢ 429) × (status r ≡ 502)))

  abbrev pub Settled : Pipe × ℕ → Type 0
  Settled r =
      ((Unasked r.0 ⊎ Unreached r.0) × Offered r)
      ⊎ ((Asked r.0 none × (status r ≡ 202) × (r.0.delivered ≡ p.delivered))
          ⊎ (Refused r × (r.0.delivered ≡ p.delivered)))

module _ (w : World) (c : Config) (p : Pipe) (r : Request) where
  -- Why a request is refused before its event is routed.
  abbrev pub Unfit : ℕ → Type 0
  Unfit code =
      ((code ≡ 415) × (content_type_ok r ≡ false))
      ⊎ (((code ≡ 413) × (c.max_bytes < length r.body))
          ⊎ ((code ≡ 400)
              × ((r.broken ≡ true)
                  ⊎ ((x : ParseError) × (parse_event w c (w.new_id p.drawn) r.body ≡ invalid x)))))

  abbrev pub Accounted : Pipe × ℕ → Type 0
  Accounted q =
      (Unfit (status q) × (q.0.delivered ≡ p.delivered) × (q.0.sent ≡ p.sent))
      ⊎ ((e : Event) × (parse_event w c (w.new_id p.drawn) r.body ≡ parsed e)
          × Settled w c.router (not (is_empty r.forwarded)) p e q)

  sent-process_locally : (q : Pipe) (e : Event) → (process_locally w q e).0.sent ≡ q.sent
  unfolding process_locally
  sent-process_locally q e = ground arith

  sent-route_forwarded :
      (router : Option RouterOps) (q : Pipe) (e : Event) → (route w router true q e).0.sent ≡ q.sent
  unfolding route
  sent-route_forwarded none q e = sent-process_locally q e
  sent-route_forwarded (some x) q e = sent-process_locally q e

  sent-route_parsed :
      (x : Parsed) → (route_parsed w c true (record p { drawn = suc p.drawn }, x)).0.sent ≡ p.sent
  unfolding route_parsed
  sent-route_parsed (invalid x) = refl
  sent-route_parsed (parsed e) = sent-route_forwarded c.router (record p { drawn = suc p.drawn }) e

  -- One hop at most: an event that arrives from a peer is never sent to another.
  pub sent-handle_event_forwarded :
      is_empty r.forwarded ≡ false → (handle_event w c p r).0.sent ≡ p.sent
  unfolding handle_event
  sent-handle_event_forwarded h =
      if_elim Kept (not (content_type_ok r)) _ _ (λ _. refl)
        λ _.
          if_elim Kept (ltb c.max_bytes (length r.body)) _ _ (λ _. refl)
            λ _. if_elim Kept r.broken _ _ (λ _. refl) λ _. rw h (sent-route_parsed _)
    where
      Kept : Pipe × ℕ → Type 0
      Kept q = q.0.sent ≡ p.sent
