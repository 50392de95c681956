-- ===== src/Ingest.antt =====
-- ingest/server.go: the HTTP server that takes events in. What it does not implement enters as the
-- record `World`: the JSON decoder, the RFC 3339 parser, the UUIDs, the outcome of each non-blocking
-- send to the event channel (the workers empty it meanwhile), and the order in which Go visits a map.
-- Response texts are left out, statuses and counts are not.
use fruitfly.Base.{
  ltb, leb, ◌==◌, if◌then◌else◌, leb→le, le→leb, ltb→lt, ==_iff, &&-true, Bool-cases, Option-cases,
  is_some, length, get_or, set, replicate, take, drop, All, In, select, count_if, length-append,
  length-set, All-append, All-In, In-append_left, In-append_right, In-append, select-append,
  length-select-le, Str, str, str_eq, str_eq→eq, str_eq_refl, str_eq_iff, has_prefix, ℤ, pos,
  negsuc, pos_part, neg_part, ◌≤ℤ◌, ◌<ℤ◌, ltb_ℤ, leb_ℤ, eq_ℤ, eq_ℤ→eq, ≤ℤ_antisymm, StrMap, lookup,
  insert, lookup-insert, ℕ, zero, suc, ◌+◌, ◌-◌, ◌*◌, ◌/◌, ◌%◌, ◌^◌, ◌≤◌, ◌<◌, ◌≡◌, refl, sym, ap,
  ◌∙◌, subst, ◌≢◌, ◌↔◌, ◌⊎◌, inl, inr, Bool, true, false, ◌&&◌, ◌||◌, not, Option, none, some, List,
  [], ◌∷◌, ◌++◌, map, arith,
}
use fruitfly.Types.{Json, Fields, text, get, Event}
use fruitfly.Cluster.{ForwardError}
pub mod Parsing
pub mod Batch
pub mod Single
pub mod Peers

-- The dynamic types of the errors that a Router's Forward may return: those of cluster.Router, and
-- types that have a method StatusCode.
pub data RouterError : Type 0 where
  from_cluster : ForwardError → RouterError
  with_status_code : ℕ → RouterError

-- peerStatus: errors.As finds a method StatusCode() int. *cluster.StatusError has the field Code and
-- the method Error only.
unfoldable pub peer_status : RouterError → Option ℕ
peer_status (with_status_code code) = some code
peer_status (from_cluster e) = none

-- The interface Router; the first argument of `forward` numbers the calls.
pub record RouterOps : Type 0 where
  pub owner : Str → Str × Bool
  pub forward : ℕ → Str → Str → Bool → Option RouterError

pub record RemoteGroup : Type 0 where
  pub raws : List Str
  pub events : List Event

pub record World : Type 0 where
  pub decode : Str → Option Fields
  pub parse_time : Str → Option ℤ
  pub new_id : ℕ → Option Str
  pub accepts : ℕ → Bool
  pub trim_space : Str → Str
  pub map_order : StrMap RemoteGroup → StrMap RemoteGroup

pub record Config : Type 0 where
  pub max_bytes : ℕ
  pub routing_field : Str
  pub router : Option RouterOps

-- A request that was forwarded: the peer, the body, and whether to the batch endpoint.
pub record Sent : Type 0 where
  pub peer : Str
  pub body : Str
  pub batch : Bool

-- What has gone out so far: events into the channel, requests to peers, sends tried, identifiers drawn.
pub record Pipe : Type 0 where
  pub delivered : List Event
  pub sent : List Sent
  pub tried : ℕ
  pub drawn : ℕ

pub data ParseError : Type 0 where
  invalid_json bad_event_type missing_timestamp bad_timestamp long_event_id no_event_id : ParseError

pub data Parsed : Type 0 where
  parsed : Event → Parsed
  invalid : ParseError → Parsed

-- v, ok := payload[k].(string)
unfoldable pub get_string : Fields → Str → Option Str
get_string m k = elim (get m k) [ none ↦ none | some v ↦ elim v [ text s ↦ some s | _ ↦ none ] ]

abbrev pub is_empty : Str → Bool
is_empty [] = true
is_empty (_ ∷ _) = false

abbrev pub max_id_bytes : ℕ
max_id_bytes = 256

-- The identifier of the event: the client's, or a new one where that is missing or empty.
unfoldable pub choose_id : Option Str → Str → Option Str
choose_id fresh given = if is_empty given then fresh else some given

abbrev pub or_else : Option Str → Str → Str
or_else none d = d
or_else (some s) d = s

-- The routing key: the routing field when it is a non-empty string, else the identifier.
unfoldable pub routing_key : Fields → Str → Str → Str
routing_key payload routing_field event_id =
    let v = or_else (get_string payload routing_field) [] in if is_empty v then event_id else v

make_event : Config → Str → Fields → Str → ℤ → Option Str → Parsed
unfolding routing_key
make_event c raw payload event_type ts none = invalid no_event_id
make_event c raw payload event_type ts (some event_id) = parsed (record {
  event_id = event_id;
  event_type = event_type;
  entity_id = routing_key payload c.routing_field event_id;
  timestamp = ts;
  payload = payload;
  raw_json = raw;
})

with_time : Config → Option Str → Str → Fields → Str → Option ℤ → Parsed
unfolding make_event choose_id get_string
with_time c fresh raw payload event_type none = invalid bad_timestamp
with_time c fresh raw payload event_type (some ts) =
    let given = or_else (get_string payload (str "event_id")) [] in
    if ltb max_id_bytes (length given)
    then invalid long_event_id
    else make_event c raw payload event_type ts (choose_id fresh given)

with_timestamp : World → Config → Option Str → Str → Fields → Str → Option Str → Parsed
unfolding with_time
with_timestamp w c fresh raw payload event_type none = invalid missing_timestamp
with_timestamp w c fresh raw payload event_type (some stamp) =
    with_time c fresh raw payload event_type (w.parse_time stamp)

with_type : World → Config → Option Str → Str → Fields → Option Str → Parsed
unfolding with_timestamp
with_type w c fresh raw payload none = invalid bad_event_type
with_type w c fresh raw payload (some event_type) =
    if is_empty event_type
    then invalid bad_event_type
    else with_timestamp w c fresh raw payload event_type (get_string payload (str "timestamp"))

with_payload : World → Config → Option Str → Str → Option Fields → Parsed
unfolding with_type
with_payload w c fresh raw none = invalid invalid_json
with_payload w c fresh raw (some payload) =
    with_type w c fresh raw payload (get_string payload (str "event_type"))

-- `fresh` is the UUID that this call would draw.
unfoldable pub parse_event : World → Config → Option Str → Str → Parsed
unfolding with_payload
parse_event w c fresh raw = with_payload w c fresh raw (w.decode raw)

-- enqueue: the non-blocking send.
unfoldable pub enqueue : World → Pipe → Event → Pipe × Bool
enqueue w p event =
    if w.accepts p.tried
    then (record p { delivered = p.delivered ++ event ∷ []; tried = suc p.tried }, true)
    else (record p { tried = suc p.tried }, false)

-- parseEvent as the handlers call it: the next UUID is used up.
unfoldable pub parse_next : World → Config → Pipe → Str → Pipe × Parsed
parse_next w c p raw = (record p { drawn = suc p.drawn }, parse_event w c (w.new_id p.drawn) raw)

-- Router.Forward, with the request on record.
unfoldable pub send : RouterOps → Pipe → Str → Str → Bool → Pipe × Option RouterError
send r p peer body batch = (
  record p { sent = p.sent ++ (record { peer = peer; body = body; batch = batch }) ∷ [] },
  r.forward (length p.sent) peer body batch,
)

-- What the handlers read of a request: the bytes that arrive, and whether the connection then breaks.
pub record Request : Type 0 where
  pub content_type : Str
  pub forwarded : Str
  pub body : Str
  pub broken : Bool

unfoldable pub content_type_ok : Request → Bool
content_type_ok r = is_empty r.content_type || has_prefix r.content_type (str "application/json")

abbrev pub accepted_status : ℕ
accepted_status = 202

-- After the routing: the local pipeline.
unfoldable pub process_locally : World → Pipe → Event → Pipe × ℕ
unfolding enqueue
process_locally w p event =
    let (p', ok) = enqueue w p event in (p', if ok then accepted_status else 429)

-- A peer's own refusal is passed on; a failure to reach it falls back to the local pipeline.
after_forward : World → Event → Pipe → Option RouterError → Pipe × ℕ
unfolding process_locally peer_status
after_forward w event p none = (p, accepted_status)
after_forward w event p (some e) = elim (peer_status e) [
  | none ↦ process_locally w p event
  | some code ↦ (p, if code == 429 then 429 else 502)
]

route : World → Option RouterOps → Bool → Pipe → Event → Pipe × ℕ
unfolding after_forward send process_locally
route w none forwarded p event = process_locally w p event
route w (some r) true p event = process_locally w p event
route w (some r) false p event =
    let (peer, self) = r.owner event.entity_id in
    let (p', e) = send r p peer event.raw_json false in
    if self then process_locally w p event else after_forward w event p' e

route_parsed : World → Config → Bool → Pipe × Parsed → Pipe × ℕ
unfolding route
route_parsed w c forwarded (p, invalid e) = (p, 400)
route_parsed w c forwarded (p, parsed event) = route w c.router forwarded p event

-- handleEvent: the response's status.
unfoldable pub handle_event : World → Config → Pipe → Request → Pipe × ℕ
unfolding content_type_ok parse_next route_parsed
handle_event w c p r =
    if not (content_type_ok r)
    then (p, 415)
    else if ltb c.max_bytes (length r.body)
    then (p, 413)
    else if r.broken
    then (p, 400)
    else route_parsed w c (not (is_empty r.forwarded)) (parse_next w c p r.body)
