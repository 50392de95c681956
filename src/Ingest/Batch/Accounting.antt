-- ===== src/Ingest/Batch/Accounting.antt =====
-- What the reply to a batch says of its lines and of the channel (handleBatch of ingest/server.go).
use fruitfly.Base.{
  ltb, Bool-cases, if_elim, length, Str, StrMap, ℕ, ◌+◌, ◌≡◌, refl, sym, ap, ◌∙◌, subst, ◌⊎◌, inl,
  inr, Bool, true, false, not, Option, none, some, List, [], ◌∷◌, arith,
}
use mathlib.Core.List.{Permᴰ}
use native.Mathlib.Nat.{zero-add}
use fruitfly.Types.{Event}
use fruitfly.Ingest.{
  World, Config, Pipe, Request, RouterOps, RemoteGroup, Parsed, parsed, invalid, is_empty,
  content_type_ok, parse_next,
}
use fruitfly.Ingest.Batch.{
  BatchState, reject, offer, place, place_parsed, batch_line, batch_lines, forward_groups,
  forward_remote, request_lines, initial, process_batch, BatchReply, counts, handle_batch,
}
use fruitfly.Ingest.Batch.Counts.{
  staged, IsPaired, IsTally, IsClosing, line_count, batch_lines-IsTally, forward_groups-IsClosing,
}

-- Go visits each entry of a map once, in any order.
abbrev pub VisitsOnce : World → Type 0
VisitsOnce w = (m : StrMap RemoteGroup) → Permᴰ (w.map_order m) m

staged-perm : {xs ys : StrMap RemoteGroup} → Permᴰ xs ys → staged xs ≡ staged ys
staged-perm Permᴰ.nil = refl
staged-perm (Permᴰ.cons {a = (i, g)} {b = (j, h)} e p) =
    omega (arith, ap (λ (x : Str × RemoteGroup). length x.1.raws) e, staged-perm p)
staged-perm (Permᴰ.swap {a = (i, g)} {b = (j, h)} {a' = (k, x)} {b' = (l, y)} e f) = omega (
  arith,
  ap (λ (x : Str × RemoteGroup). length x.1.raws) e,
  ap (λ (x : Str × RemoteGroup). length x.1.raws) f,
)
staged-perm (Permᴰ.trans p q) = staged-perm p ∙ staged-perm q

IsPaired-perm : {xs ys : StrMap RemoteGroup} → Permᴰ xs ys → IsPaired ys → IsPaired xs
IsPaired-perm Permᴰ.nil h = h
IsPaired-perm (Permᴰ.cons {a = (i, g)} {b = (j, k)} e p) h = (
  ap (λ (x : Str × RemoteGroup). length x.1.raws) e
      ∙ h.0
      ∙ sym (ap (λ (x : Str × RemoteGroup). length x.1.events) e),
  IsPaired-perm p h.1,
)
IsPaired-perm (Permᴰ.swap {a = (i, g)} {b = (j, k)} {a' = (m, x)} {b' = (l, y)} e f) h = (
  ap (λ (x : Str × RemoteGroup). length x.1.raws) e
      ∙ h.1.0
      ∙ sym (ap (λ (x : Str × RemoteGroup). length x.1.events) e),
  (
    ap (λ (x : Str × RemoteGroup). length x.1.raws) f
        ∙ h.0
        ∙ sym (ap (λ (x : Str × RemoteGroup). length x.1.events) f),
    h.1.1,
  ),
)
IsPaired-perm (Permᴰ.trans p q) h = IsPaired-perm p (IsPaired-perm q h)

perm-nil : {xs ys : StrMap RemoteGroup} → Permᴰ xs ys → ys ≡ [] → xs ≡ []
perm-nil Permᴰ.nil e = refl
perm-nil (Permᴰ.cons a p) e = absurd (ground (arith, e))
perm-nil (Permᴰ.swap a b) e = absurd (ground (arith, e))
perm-nil (Permᴰ.trans p q) e = perm-nil p (perm-nil q e)

-- Nothing is staged without a router, or for a request that a peer has forwarded.
abbrev IsLocal : Option RouterOps → Bool → Type 0
IsLocal o forwarded = (o ≡ none) ⊎ (forwarded ≡ true)

-- No group waits, and no request was made beyond `sent`.
abbrev Unsent : Pipe → BatchState → Type 0
Unsent p s = (s.remote ≡ []) × (s.pipe.sent ≡ p.sent) × (s.forwarded ≡ 0)

offer-Unsent :
    (w : World) (e : Event) (p : Pipe) (s : BatchState) → Unsent p s → Unsent p (offer w e s)
unfolding offer
offer-Unsent w e p s u = ground arith

place-Unsent :
    (w : World) (o : Option RouterOps) (forwarded : Bool) (raw : Str) (e : Event) (p : Pipe)
    (s : BatchState)
    → IsLocal o forwarded
    → Unsent p s
    → Unsent p (place w o forwarded raw e s)
unfolding place
place-Unsent w none forwarded raw e p s l u = offer-Unsent w e p s u
place-Unsent w (some r) true raw e p s l u = offer-Unsent w e p s u
place-Unsent w (some r) false raw e p s l u = absurd (ground (arith, l))

place_parsed-Unsent :
    (w : World) (c : Config) (forwarded : Bool) (raw : Str) (q : Pipe) (x : Parsed) (p : Pipe)
    (s : BatchState)
    → IsLocal c.router forwarded
    → q.sent ≡ p.sent
    → Unsent p s
    → Unsent p (place_parsed w c forwarded raw s (q, x))
unfolding place_parsed reject
place_parsed-Unsent w c forwarded raw q (invalid x) p s l e u = (u.0, e, u.2)
place_parsed-Unsent w c forwarded raw q (parsed x) p s l e u =
    place-Unsent w c.router forwarded raw x p (record s { pipe = q }) l (u.0, e, u.2)

batch_line-Unsent :
    (w : World) (c : Config) (forwarded : Bool) (line : Str) (p : Pipe) (s : BatchState)
    → IsLocal c.router forwarded
    → Unsent p s
    → Unsent p (batch_line w c forwarded s line)
unfolding batch_line parse_next reject
batch_line-Unsent w c forwarded line p s l u =
    if_elim (Unsent p) (is_empty line) _ _ (λ _. u)
      λ _.
        if_elim (Unsent p) (ltb c.max_bytes (length line)) _ _ (λ _. u)
          λ _.
            if_elim (Unsent p) s.overloaded _ _ (λ _. u)
              λ _. place_parsed-Unsent w c forwarded line _ _ p s l u.1 u

batch_lines-Unsent :
    (w : World) (c : Config) (forwarded : Bool) (lines : List Str) (p : Pipe) (s : BatchState)
    → IsLocal c.router forwarded
    → Unsent p s
    → Unsent p (batch_lines w c forwarded s lines)
unfolding batch_lines
batch_lines-Unsent w c forwarded [] p s l u = u
batch_lines-Unsent w c forwarded (x ∷ xs) p s l u =
    batch_lines-Unsent w c forwarded xs p _ l
      (batch_line-Unsent w c forwarded (w.trim_space x) p s l u)

forward_remote-Unsent :
    (w : World) (o : Option RouterOps) (p : Pipe) (s : BatchState)
    → VisitsOnce w
    → Unsent p s
    → Unsent p (forward_remote w o s)
unfolding forward_remote
forward_remote-Unsent w none p s v u = u
forward_remote-Unsent w (some r) p s v u =
    rw (perm-nil (v s.remote) u.0) (unfold forward_groups in u)

-- One hop at most, for a batch too: one that arrives from a peer is not sent on, in whole or in part.
pub sent-handle_batch_forwarded :
    (w : World) (c : Config) (p : Pipe) (r : Request)
    → VisitsOnce w
    → is_empty r.forwarded ≡ false
    → (handle_batch w c p r).0.sent ≡ p.sent
unfolding handle_batch process_batch
sent-handle_batch_forwarded w c p r v h =
    let lines =
      batch_lines-Unsent w c (not (is_empty r.forwarded)) (request_lines r) p (initial p)
        (inr (ap not h)) (refl, refl, refl) in
    if_elim {A = Pipe × BatchReply} (λ q. q.0.sent ≡ p.sent) (content_type_ok r) _ _
      (λ _. (forward_remote-Unsent w c.router p _ v lines).1) (λ _. refl)

forward_remote-IsClosing :
    (w : World) (o : Option RouterOps) (n d : ℕ) (s : BatchState)
    → VisitsOnce w
    → IsTally n d s
    → (o ≡ none → s.remote ≡ [])
    → IsClosing n d (forward_remote w o s)
unfolding forward_remote
forward_remote-IsClosing w none n d s v t h = record {
  counted = omega (arith, t.counted, ap staged (h refl));
  delivered = t.delivered;
}
forward_remote-IsClosing w (some r) n d s v t h =
    subst (λ k. IsClosing k d (forward_groups w r s (w.map_order s.remote)))
      (omega (arith, t.counted, staged-perm (v s.remote)))
      (forward_groups-IsClosing w r (w.map_order s.remote) (s.accepted + s.forwarded + s.rejected) d
        s (IsPaired-perm (v s.remote) t.paired)
        (record { counted = refl; delivered = t.delivered }))

pub process_batch-IsClosing :
    (w : World) (c : Config) (p : Pipe) (r : Request)
    → VisitsOnce w
    → IsClosing (line_count w (request_lines r)) (length p.delivered) (process_batch w c p r)
unfolding process_batch
process_batch-IsClosing w c p r v =
    forward_remote-IsClosing w c.router _ _ _ v
      (rw zero-add at (
        batch_lines-IsTally w c (not (is_empty r.forwarded)) (request_lines r) 0
          (length p.delivered) (initial p) (omega arith)))
      (λ e.
        (batch_lines-Unsent w c (not (is_empty r.forwarded)) (request_lines r) p (initial p) (inl e)
          (refl, refl, refl)).0)

-- The counts of a batch's reply add up: every line that is not empty once trimmed is accepted,
-- forwarded or rejected, exactly one of them and once; and the channel has gained exactly as many
-- events as lines are reported accepted. Go visits the groups of a map in any order, each once.
pub handle_batch_counts :
    (w : World) (c : Config) (p : Pipe) (r : Request) (status accepted forwarded rejected : ℕ)
    → VisitsOnce w
    → (handle_batch w c p r).1 ≡ counts status accepted forwarded rejected
    → (accepted + forwarded + rejected ≡ line_count w (request_lines r))
      × (length (handle_batch w c p r).0.delivered ≡ length p.delivered + accepted)
unfolding handle_batch
handle_batch_counts w c p r status accepted forwarded rejected v h =
    let done = process_batch-IsClosing w c p r v in
    elim (Bool-cases (content_type_ok r)) [
      | inl e ↦ rw e (ground (arith, e, done))
      | inr e ↦ absurd (ground (arith, e))
    ]
