-- ===== src/Ingest/Batch/Counts.antt =====
-- The counts of a batch against the lines and the events (batchLine of ingest/server.go).
use fruitfly.Base.{
  ltb, if◌then◌else◌, Bool-cases, Option-cases, if_elim, length, length-append, Str, str_eq, StrMap,
  lookup, insert, ℕ, suc, ◌+◌, ◌≡◌, refl, subst, inl, inr, Bool, true, false, Option, none, some,
  List, [], ◌∷◌, ◌++◌, arith,
}
use native.Mathlib.Nat.{add-zero}
use fruitfly.Types.{Event}
use fruitfly.Ingest.{
  World, Config, Pipe, RouterOps, RouterError, RemoteGroup, Parsed, parsed, invalid, is_empty,
  parse_next, send, peer_status,
}
use fruitfly.Ingest.Batch.{
  BatchState, reject, offer, or_new, stage, place, place_parsed, batch_line, batch_lines, offer_all,
  after_group, forward_groups,
}

-- The lines that wait in the groups of the peers.
abbrev pub staged : StrMap RemoteGroup → ℕ
staged [] = 0
staged ((k, g) ∷ m) = length g.raws + staged m

-- Each group has as many lines as events.
abbrev pub IsPaired : StrMap RemoteGroup → Type 0
IsPaired [] = Unit {0}
IsPaired ((k, g) ∷ m) = (length g.raws ≡ length g.events) × IsPaired m

-- `n` lines were met so far, `d` events stood in the channel before the batch.
pub record IsTally (n d : ℕ) (s : BatchState) : Type 0 where
  pub counted : s.accepted + s.forwarded + s.rejected + staged s.remote ≡ n
  pub delivered : length s.pipe.delivered ≡ d + s.accepted
  pub paired : IsPaired s.remote

staged-insert :
    (k : Str) (g : RemoteGroup) (m : StrMap RemoteGroup)
    → staged (insert k g m) + length (or_new (lookup k m)).raws ≡ staged m + length g.raws
unfolding insert lookup
staged-insert k g [] = omega arith
staged-insert k g ((j, h) ∷ m) = elim (Bool-cases (str_eq j k)) [
  | inl e ↦ rw e (omega arith)
  | inr e ↦ rw e (omega (arith, staged-insert k g m))
]

insert-IsPaired :
    (k : Str) (g : RemoteGroup) (m : StrMap RemoteGroup)
    → length g.raws ≡ length g.events
    → IsPaired m
    → IsPaired (insert k g m)
unfolding insert
insert-IsPaired k g [] h p = (h, tt)
insert-IsPaired k g ((j, x) ∷ m) h p = elim (Bool-cases (str_eq j k)) [
  | inl e ↦ rw e (h, p.1)
  | inr e ↦ rw e (p.0, insert-IsPaired k g m h p.1)
]

lookup-IsPaired :
    (k : Str) (m : StrMap RemoteGroup)
    → IsPaired m
    → length (or_new (lookup k m)).raws ≡ length (or_new (lookup k m)).events
unfolding lookup
lookup-IsPaired k [] p = refl
lookup-IsPaired k ((j, x) ∷ m) p = elim (Bool-cases (str_eq j k)) [
  | inl e ↦ rw e p.0
  | inr e ↦ rw e (lookup-IsPaired k m p.1)
]

reject-IsTally : (n d : ℕ) (s : BatchState) → IsTally n d s → IsTally (suc n) d (reject s)
unfolding reject
reject-IsTally n d s t = record {
  counted = omega arith;
  delivered = t.delivered;
  paired = t.paired;
}

-- Another pipe with as many events.
pipe-IsTally :
    (n d : ℕ) (s : BatchState) (p : Pipe)
    → p.delivered ≡ s.pipe.delivered
    → IsTally n d s
    → IsTally n d (record s { pipe = p })
pipe-IsTally n d s p e t = record {
  counted = t.counted;
  delivered = rw e t.delivered;
  paired = t.paired;
}

offer-IsTally :
    (w : World) (e : Event) (n d : ℕ) (s : BatchState)
    → IsTally n d s
    → IsTally (suc n) d (offer w e s)
unfolding offer
offer-IsTally w e n d s t = elim (Bool-cases (w.accepts s.pipe.tried)) [
  | inl a ↦ rw a (record {
    counted = omega arith;
    delivered = omega (arith, length-append s.pipe.delivered (e ∷ []));
    paired = t.paired;
  })
  | inr a ↦ rw a (record { counted = omega arith; delivered = t.delivered; paired = t.paired })
]

stage-IsTally :
    (peer raw : Str) (e : Event) (n d : ℕ) (s : BatchState)
    → IsTally n d s
    → IsTally (suc n) d (stage peer raw e s)
unfolding stage
stage-IsTally peer raw e n d s t = record {
  counted = omega (arith, staged-insert peer g s.remote, length-append old.raws (raw ∷ []));
  delivered = t.delivered;
  paired =
      insert-IsPaired peer g s.remote
        (omega (
          arith,
          lookup-IsPaired peer s.remote t.paired,
          length-append old.raws (raw ∷ []),
          length-append old.events (e ∷ []),
        ))
        t.paired;
}
  where
    old : RemoteGroup
    old = or_new (lookup peer s.remote)

    g : RemoteGroup
    g = record { raws = old.raws ++ raw ∷ []; events = old.events ++ e ∷ [] }

place-IsTally :
    (w : World) (o : Option RouterOps) (forwarded : Bool) (raw : Str) (e : Event) (n d : ℕ)
    (s : BatchState)
    → IsTally n d s
    → IsTally (suc n) d (place w o forwarded raw e s)
unfolding place
place-IsTally w none forwarded raw e n d s t = offer-IsTally w e n d s t
place-IsTally w (some r) true raw e n d s t = offer-IsTally w e n d s t
place-IsTally w (some r) false raw e n d s t =
    let (peer, self) = r.owner e.entity_id in
    if_elim (IsTally (suc n) d) self _ _ (λ _. offer-IsTally w e n d s t)
      (λ _. stage-IsTally peer raw e n d s t)

place_parsed-IsTally :
    (w : World) (c : Config) (forwarded : Bool) (raw : Str) (p : Pipe) (x : Parsed) (n d : ℕ)
    (s : BatchState)
    → p.delivered ≡ s.pipe.delivered
    → IsTally n d s
    → IsTally (suc n) d (place_parsed w c forwarded raw s (p, x))
unfolding place_parsed
place_parsed-IsTally w c forwarded raw p (invalid x) n d s e t =
    reject-IsTally n d _ (pipe-IsTally n d s p e t)
place_parsed-IsTally w c forwarded raw p (parsed x) n d s e t =
    place-IsTally w c.router forwarded raw x n d _ (pipe-IsTally n d s p e t)

-- A line that is not empty is one more line met, whatever becomes of it.
pub batch_line-IsTally :
    (w : World) (c : Config) (forwarded : Bool) (line : Str) (n d : ℕ) (s : BatchState)
    → IsTally n d s
    → IsTally (if is_empty line then n else suc n) d (batch_line w c forwarded s line)
unfolding batch_line parse_next
batch_line-IsTally w c forwarded [] n d s t = t
batch_line-IsTally w c forwarded (b ∷ line) n d s t =
    if_elim (IsTally (suc n) d) (ltb c.max_bytes (length (b ∷ line))) _ _
      (λ _. reject-IsTally n d s t)
      λ _.
        if_elim (IsTally (suc n) d) s.overloaded _ _ (λ _. reject-IsTally n d s t)
          λ _. place_parsed-IsTally w c forwarded (b ∷ line) _ _ n d s refl t

-- The lines that are not empty once trimmed.
abbrev pub line_count : World → List Str → ℕ
line_count w [] = 0
line_count w (l ∷ ls) = if is_empty (w.trim_space l) then line_count w ls else suc (line_count w ls)

pub batch_lines-IsTally :
    (w : World) (c : Config) (forwarded : Bool) (lines : List Str) (n d : ℕ) (s : BatchState)
    → IsTally n d s
    → IsTally (n + line_count w lines) d (batch_lines w c forwarded s lines)
unfolding batch_lines
batch_lines-IsTally w c forwarded [] n d s t = rw add-zero t
batch_lines-IsTally w c forwarded (l ∷ ls) n d s t =
    let step = batch_line-IsTally w c forwarded (w.trim_space l) n d s t in
    subst (λ k. IsTally k d (batch_lines w c forwarded s (l ∷ ls))) (ground arith)
      (batch_lines-IsTally w c forwarded ls (if is_empty (w.trim_space l) then n else suc n) d _
        step)

-- A tally of lines without the groups, once these are being forwarded.
pub record IsClosing (n d : ℕ) (s : BatchState) : Type 0 where
  pub counted : s.accepted + s.forwarded + s.rejected ≡ n
  pub delivered : length s.pipe.delivered ≡ d + s.accepted

offer-IsClosing :
    (w : World) (e : Event) (n d : ℕ) (s : BatchState)
    → IsClosing n d s
    → IsClosing (suc n) d (offer w e s)
unfolding offer
offer-IsClosing w e n d s t = elim (Bool-cases (w.accepts s.pipe.tried)) [
  | inl a ↦ rw a (record {
    counted = omega arith;
    delivered = omega (arith, length-append s.pipe.delivered (e ∷ []));
  })
  | inr a ↦ rw a (record { counted = omega arith; delivered = t.delivered })
]

offer_all-IsClosing :
    (w : World) (es : List Event) (n d : ℕ) (s : BatchState)
    → IsClosing n d s
    → IsClosing (n + length es) d (offer_all w es s)
unfolding offer_all
offer_all-IsClosing w [] n d s t = rw add-zero t
offer_all-IsClosing w (e ∷ es) n d s t =
    subst (λ k. IsClosing k d (offer_all w (e ∷ es) s)) (omega arith)
      (offer_all-IsClosing w es (suc n) d (offer w e s) (offer-IsClosing w e n d s t))

after_group-IsClosing :
    (w : World) (g : RemoteGroup) (o : Option RouterError) (n d : ℕ) (s : BatchState)
    → length g.raws ≡ length g.events
    → IsClosing n d s
    → IsClosing (n + length g.raws) d (after_group w g s o)
unfolding after_group
after_group-IsClosing w g none n d s h t = record { counted = omega arith; delivered = t.delivered }
after_group-IsClosing w g (some e) n d s h t = elim (Option-cases (peer_status e)) [
  | inl a ↦ rw (a, after_group, h) (offer_all-IsClosing w g.events n d s t)
  | inr (code, a) ↦ rw (a, after_group) (record { counted = omega arith; delivered = t.delivered })
]

pub forward_groups-IsClosing :
    (w : World) (r : RouterOps) (m : StrMap RemoteGroup) (n d : ℕ) (s : BatchState)
    → IsPaired m
    → IsClosing n d s
    → IsClosing (n + staged m) d (forward_groups w r s m)
unfolding forward_groups send
forward_groups-IsClosing w r [] n d s h t = rw add-zero t
forward_groups-IsClosing w r ((peer, g) ∷ m) n d s h t =
    subst (λ k. IsClosing k d (forward_groups w r s ((peer, g) ∷ m))) (omega arith)
      (forward_groups-IsClosing w r m (n + length g.raws) d _ h.1 (
        after_group-IsClosing w g _ n d _ h.0
          (record { counted = t.counted; delivered = t.delivered })))
