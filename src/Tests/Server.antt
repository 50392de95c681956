-- ===== src/Tests/Server.antt =====
-- Runs of ingest/server.go, with a decoder that makes the same object of every body.
use fruitfly.Base.{
  ◌==◌, if◌then◌else◌, length, Str, str, str_eq, pos, StrMap, ℕ, ◌+◌, ◌≡◌, refl, ◌↔◌, false, Option,
  none, some, [], ◌∷◌, arith,
}
use mathlib.Core.List.{Permᴰ}
use fruitfly.Types.{Fields, field, end, get, text, Event}
use fruitfly.Cluster.{
  owner_loop, fnv_sum, score, mix64, Router, HttpReply, ForwardError, owner, ingest_url,
}
use fruitfly.Cluster
use fruitfly.Ingest.{
  World, Config, Pipe, Request, RouterOps, RemoteGroup, parsed, parse_event, enqueue,
  content_type_ok, process_locally, handle_event,
}
use fruitfly.Ingest.Parsing.{IsReading, parse_event_iff}
use fruitfly.Ingest.Single.{sent-handle_event_forwarded}
use fruitfly.Ingest.Peers.{cluster_ops, IsFresh, asked, handle_event_refused}
use fruitfly.Ingest.Batch.{
  process_batch, batch_lines, batch_line, read_lines, read_status, batch_status, counts,
  request_lines, handle_batch,
}
use fruitfly.Ingest.Batch.Counts.{line_count}
use fruitfly.Ingest.Batch.Accounting.{VisitsOnce, sent-handle_batch_forwarded, handle_batch_counts}

abbrev a_payload : Fields
a_payload =
    field (str "event_type") (text (str "login"))
      (field (str "timestamp") (text (str "t")) (field (str "event_id") (text (str "e1")) end))

-- Lines of two bytes carry a carriage return or nothing but the newline's byte before it.
abbrev without_newline : Str → Str
without_newline [] = []
without_newline (c ∷ s) = if c == 10 then without_newline s else c ∷ without_newline s

same-perm : (m : StrMap RemoteGroup) → Permᴰ m m
same-perm [] = Permᴰ.nil
same-perm (x ∷ m) = Permᴰ.cons refl (same-perm m)

abbrev a_world : World
a_world = record {
  decode = λ raw. some a_payload;
  parse_time = λ s. some (pos 0);
  new_id = λ n. none;
  accepts = λ n. n == 0;
  trim_space = without_newline;
  map_order = λ m. m;
}

a_world-VisitsOnce : VisitsOnce a_world
a_world-VisitsOnce m = same-perm m

abbrev a_pipe : Pipe
a_pipe = record { delivered = []; sent = []; tried = 0; drawn = 0 }

-- A body of `n` bytes, from a peer or not.
abbrev a_request : Str → Str → Request
a_request forwarded body = record {
  content_type = [];
  forwarded = forwarded;
  body = body;
  broken = false;
}

abbrev two_peers : Router
two_peers = record { self = str "a"; peers = str "a" ∷ str "b" ∷ [] }

-- Every peer answers 429.
abbrev always_429 : ℕ → Str → Str → HttpReply
always_429 n url body = Cluster.status 429

abbrev a_config : Option RouterOps → Config
a_config router = record { max_bytes = 100; routing_field = str "user"; router = router }

abbrev clustered : Config
clustered = a_config (some (cluster_ops two_peers always_429))

abbrev an_event : Event
an_event = record {
  event_id = str "e1";
  event_type = str "login";
  entity_id = str "e1";
  timestamp = pos 0;
  payload = a_payload;
  raw_json = str "{}";
}

parse_event_iff_example :
    (parse_event a_world clustered none (str "{}") ≡ parsed an_event)
    ↔ IsReading a_world clustered none (str "{}") an_event
parse_event_iff_example = parse_event_iff a_world clustered none (str "{}") an_event

parses : parse_event a_world clustered none (str "{}") ≡ parsed an_event
unfolding parse_event get str_eq
parses = refl

sent-handle_event_forwarded_example :
    (handle_event a_world clustered a_pipe (a_request (str "1") (str "{}"))).0.sent ≡ []
sent-handle_event_forwarded_example =
    sent-handle_event_forwarded a_world clustered a_pipe (a_request (str "1") (str "{}")) refl

fresh : IsFresh clustered (a_request [] (str "{}"))
unfolding content_type_ok
fresh = record { type_fits = refl; body_fits = refl; whole = refl; unmarked = refl }

other_owner : owner two_peers (str "e1") ≡ (str "b", false)
unfolding owner owner_loop fnv_sum score mix64 str_eq
other_owner = refl

handle_event_refused_example :
    handle_event a_world clustered a_pipe (a_request [] (str "{}"))
    ≡ process_locally a_world (asked a_pipe (str "b") an_event) an_event
handle_event_refused_example =
    handle_event_refused a_world clustered two_peers always_429 a_pipe (a_request [] (str "{}"))
      an_event (str "b") 429 refl fresh parses other_owner refl (omega arith)

sent-handle_batch_forwarded_example :
    (handle_batch a_world clustered a_pipe (a_request (str "1") (str "{}"))).0.sent ≡ []
sent-handle_batch_forwarded_example =
    sent-handle_batch_forwarded a_world clustered a_pipe (a_request (str "1") (str "{}"))
      a_world-VisitsOnce refl

-- Two lines and an empty one; the channel takes one event.
abbrev two_lines : Request
two_lines = a_request [] (b'1' ∷ 10 ∷ 10 ∷ b'2' ∷ [])

one_accepted : (handle_batch a_world (a_config none) a_pipe two_lines).1 ≡ counts 429 1 0 1
unfolding handle_batch content_type_ok process_batch batch_lines batch_line request_lines read_lines
    read_status batch_status parse_event get str_eq enqueue
one_accepted = refl

handle_batch_counts_example :
    (1 + 0 + 1 ≡ line_count a_world (request_lines two_lines))
    × (length (handle_batch a_world (a_config none) a_pipe two_lines).0.delivered ≡ 0 + 1)
handle_batch_counts_example =
    handle_batch_counts a_world (a_config none) a_pipe two_lines 429 1 0 1 a_world-VisitsOnce
      one_accepted
