-- ===== src/Ingest/Batch.antt =====
-- POST /events/batch of ingest/server.go: NDJSON, one event on a line.
use fruitfly.Base.{
  ltb, leb, ◌==◌, if◌then◌else◌, leb→le, le→leb, ltb→lt, ==_iff, &&-true, Bool-cases, Option-cases,
  if_elim, is_some, length, get_or, set, replicate, take, drop, All, In, select, count_if,
  length-append, length-set, All-append, All-In, In-append_left, In-append_right, In-append,
  select-append, length-select-le, Str, str, str_eq, str_eq→eq, str_eq_refl, str_eq_iff, has_prefix,
  ℤ, pos, negsuc, pos_part, neg_part, ◌≤ℤ◌, ◌<ℤ◌, ltb_ℤ, leb_ℤ, eq_ℤ, eq_ℤ→eq, ≤ℤ_antisymm, StrMap,
  lookup, insert, lookup-insert, ℕ, zero, suc, ◌+◌, ◌-◌, ◌*◌, ◌/◌, ◌%◌, ◌^◌, ◌≤◌, ◌<◌, ◌≡◌, refl,
  sym, ap, ◌∙◌, subst, ◌≢◌, ◌↔◌, ◌⊎◌, inl, inr, Bool, true, false, ◌&&◌, ◌||◌, not, Option, none,
  some, List, [], ◌∷◌, ◌++◌, map, arith,
}
use fruitfly.Types.{Event}
use fruitfly.Ingest.{
  World, Config, Pipe, Request, RouterOps, RouterError, RemoteGroup, Parsed, parsed, invalid,
  parse_next, content_type_ok, is_empty, enqueue, send, peer_status,
}
pub mod Counts
pub mod Accounting

abbrev pub max_batch_bytes : ℕ
max_batch_bytes = 8 * 2 ^ 20

abbrev pub newline : ℕ
newline = 10

pub record BatchState : Type 0 where
  pub accepted : ℕ
  pub forwarded : ℕ
  pub rejected : ℕ
  pub overloaded : Bool
  pub remote : StrMap RemoteGroup
  pub pipe : Pipe

unfoldable pub reject : BatchState → BatchState
reject s = record s { rejected = suc s.rejected }

-- The channel's answer to one event.
unfoldable pub offer : World → Event → BatchState → BatchState
unfolding enqueue
offer w event s =
    let (pipe', ok) = enqueue w s.pipe event in
    if ok
    then record s { accepted = suc s.accepted; pipe = pipe' }
    else record s { rejected = suc s.rejected; overloaded = true; pipe = pipe' }

abbrev pub or_new : Option RemoteGroup → RemoteGroup
or_new none = record { raws = []; events = [] }
or_new (some g) = g

-- The line joins its peer's group.
unfoldable pub stage : Str → Str → Event → BatchState → BatchState
stage peer raw event s =
    let g = or_new (lookup peer s.remote) in
    record s {
      remote =
          insert peer (record { raws = g.raws ++ raw ∷ []; events = g.events ++ event ∷ [] })
            s.remote;
    }

place : World → Option RouterOps → Bool → Str → Event → BatchState → BatchState
unfolding offer stage
place w none forwarded raw event s = offer w event s
place w (some r) true raw event s = offer w event s
place w (some r) false raw event s =
    let (peer, self) = r.owner event.entity_id in
    if self then offer w event s else stage peer raw event s

place_parsed : World → Config → Bool → Str → BatchState → Pipe × Parsed → BatchState
unfolding place reject
place_parsed w c forwarded raw s (p, invalid e) = reject (record s { pipe = p })
place_parsed w c forwarded raw s (p, parsed event) =
    place w c.router forwarded raw event (record s { pipe = p })

unfoldable pub batch_line : World → Config → Bool → BatchState → Str → BatchState
unfolding place_parsed parse_next
batch_line w c forwarded s line =
    if is_empty line
    then s
    else if ltb c.max_bytes (length line)
    then reject s
    else if s.overloaded
    then reject s
    else place_parsed w c forwarded line s (parse_next w c s.pipe line)

unfoldable pub batch_lines : World → Config → Bool → BatchState → List Str → BatchState
batch_lines w c forwarded s [] = s
batch_lines w c forwarded s (line ∷ rest) =
    batch_lines w c forwarded (batch_line w c forwarded s (w.trim_space line)) rest

-- bytes.Join(raws, "\n")
unfoldable pub join_lines : List Str → Str
join_lines [] = []
join_lines (l ∷ []) = l
join_lines (l ∷ m ∷ ls) = l ++ newline ∷ join_lines (m ∷ ls)

offer_all : World → List Event → BatchState → BatchState
offer_all w [] s = s
offer_all w (e ∷ es) s = offer_all w es (offer w e s)

after_group : World → RemoteGroup → BatchState → Option RouterError → BatchState
unfolding offer_all peer_status
after_group w g s none = record s { forwarded = s.forwarded + length g.raws }
after_group w g s (some e) = elim (peer_status e) [
  | none ↦ offer_all w g.events s
  | some code ↦ record s {
    rejected = s.rejected + length g.raws;
    overloaded = s.overloaded || (code == 429);
  }
]

unfoldable pub forward_groups : World → RouterOps → BatchState → StrMap RemoteGroup → BatchState
unfolding after_group send
forward_groups w r s [] = s
forward_groups w r s ((peer, g) ∷ rest) =
    let (pipe', e) = send r s.pipe peer (join_lines g.raws) true in
    forward_groups w r (after_group w g (record s { pipe = pipe' }) e) rest

-- With no router there is no group to forward.
forward_remote : World → Option RouterOps → BatchState → BatchState
unfolding forward_groups
forward_remote w none s = s
forward_remote w (some r) s = forward_groups w r s (w.map_order s.remote)

-- The lines of a body, each with its newline, and what follows the last newline.
unfoldable pub read_lines : Str → List Str × Str
read_lines [] = ([], [])
read_lines (b ∷ bs) =
    let (lines, rest) = read_lines bs in
    if b == newline
    then ((b ∷ []) ∷ lines, rest)
    else elim lines [ [] ↦ ([], b ∷ rest) | l ∷ ls ↦ ((b ∷ l) ∷ ls, rest) ]

-- readStatus: 0 when the whole body was read.
unfoldable pub read_status : Request → ℕ
read_status r = if ltb max_batch_bytes (length r.body) then 413 else if r.broken then 400 else 0

-- The lines that reach batchLine: a partial line before a read error is discarded.
unfoldable pub request_lines : Request → List Str
unfolding read_status read_lines
request_lines r =
    let (lines, rest) = read_lines (take max_batch_bytes r.body) in
    if read_status r == 0 then lines ++ rest ∷ [] else lines

abbrev pub initial : Pipe → BatchState
initial p = record {
  accepted = 0;
  forwarded = 0;
  rejected = 0;
  overloaded = false;
  remote = [];
  pipe = p;
}

unfoldable pub process_batch : World → Config → Pipe → Request → BatchState
unfolding forward_remote
process_batch w c p r =
    forward_remote w c.router
      (batch_lines w c (not (is_empty r.forwarded)) (initial p) (request_lines r))

unfoldable pub batch_status : Request → BatchState → ℕ
batch_status r s =
    if not (read_status r == 0) then read_status r else if s.overloaded then 429 else 202

-- handleBatch: the status and the three counts, or a refusal of the content type.
pub data BatchReply : Type 0 where
  unsupported : BatchReply
  counts : ℕ → ℕ → ℕ → ℕ → BatchReply

unfoldable pub handle_batch : World → Config → Pipe → Request → Pipe × BatchReply
unfolding content_type_ok process_batch
handle_batch w c p r =
    let s = process_batch w c p r in
    if content_type_ok r
    then (s.pipe, counts (batch_status r s) s.accepted s.forwarded s.rejected)
    else (p, unsupported)
