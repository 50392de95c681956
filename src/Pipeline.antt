-- ===== src/Pipeline.antt =====
-- The pipeline that main.go puts together: the channels, the workers' loops of executor/pool.go and
-- the writer, from the enqueuing of an event to the shutdown. Each goroutine makes one move at a time,
-- in any order; `move` gives none where the goroutine that would make it is blocked or gone.
use fruitfly.Base.{
  ltb, leb, ◌==◌, if◌then◌else◌, leb→le, le→leb, ltb→lt, ==_iff, &&-true, Bool-cases, Option-cases,
  if_elim, is_some, length, get_or, set, replicate, take, drop, All, In, select, count_if,
  length-append, length-set, All-append, All-In, In-append_left, In-append_right, In-append,
  select-true, select-false, select-append, length-select-le, Str, str, str_eq, str_eq→eq,
  str_eq_refl, str_eq_iff, has_prefix, ℤ, pos, negsuc, pos_part, neg_part, ◌≤ℤ◌, ◌<ℤ◌, ltb_ℤ, leb_ℤ,
  eq_ℤ, eq_ℤ→eq, ≤ℤ_antisymm, StrMap, lookup, insert, lookup-insert, str_leb, sort_strings,
  sort_strings-perm, IsAscending, sort_strings-IsAscending, ℕ, zero, suc, ◌+◌, ◌-◌, ◌*◌, ◌/◌, ◌%◌,
  ◌^◌, ◌≤◌, ◌<◌, ◌≡◌, refl, sym, ap, ◌∙◌, subst, ◌≢◌, ◌↔◌, ◌⊎◌, inl, inr, Bool, true, false, ◌&&◌,
  ◌||◌, not, Option, none, some, List, [], ◌∷◌, ◌++◌, map, arith,
}
use fruitfly.Types.{Event, Result}
use fruitfly.Rules.Snapshot.{Snapshot}
use fruitfly.Executor.Pool.{Runtime, process_event}
use fruitfly.Output.Store.{Database}
use fruitfly.Output.Writer.{
  Mode, running, draining, stopped, Writer, Signal, received, closed, flush_tick, cancelled,
  drain_timeout, hook_done, retention_tick, step,
}
pub mod Accounting
pub mod Order
pub mod Progress
pub mod Drain

abbrev pub event_chan_cap : ℕ
event_chan_cap = 100

abbrev pub result_chan_cap : ℕ
result_chan_cap = 100

-- Where a worker stands in its loop: at the channel of events, in processEvent, at the channel of
-- results, or returned.
pub data Stage : Type 0 where
  idle returned : Stage
  evaluating : Event → Stage
  sending : Result → Stage

-- `accepted` and `signals` are histories: what went into eventChan, and what the writer received.
pub record Pipeline (S : Type 0) : Type 0 where
  pub waiting : List Event
  pub events_closed : Bool
  pub workers : List Stage
  pub results : List Result
  pub results_closed : Bool
  pub writer : Writer
  pub snapshot : Option Snapshot
  pub state : S
  pub accepted : List Event
  pub signals : List Signal

pub data Move : Type 0 where
  offer : Event → Move
  publish : Snapshot → Move
  evict : ℕ → Move
  close_events close_results deliver deliver_closed : Move
  take_event evaluate send_result leave : ℕ → Move
  -- A tick, a cancellation, a timeout or a finished webhook.
  notify : Signal → Move

abbrev pub is_returned : Stage → Bool
is_returned returned = true
is_returned _ = false

abbrev pub all_returned : List Stage → Bool
all_returned [] = true
all_returned (w ∷ ws) = is_returned w && all_returned ws

-- What the writer's select receives from elsewhere than the channel of results.
abbrev pub is_own : Signal → Bool
is_own (received r) = false
is_own closed = false
is_own _ = true

abbrev pub is_stopped : Mode → Bool
is_stopped stopped = true
is_stopped _ = false

module _ {S : Type 0} (r : Runtime S) (gc : ℕ → S → S) (d : Database) where
  -- The non-blocking send of a handler; there is none once the server has shut down.
  offered : Pipeline S → Event → Bool → Option (Pipeline S)
  offered p e true = none
  offered p e false = some (
      if ltb (length p.waiting) event_chan_cap
      then record p { waiting = p.waiting ++ e ∷ []; accepted = p.accepted ++ e ∷ [] }
      else p)

  closing : Pipeline S → Bool → Option (Pipeline S)
  closing p true = none
  closing p false = some (record p { events_closed = true })

  -- range over the channel: an event, or the end once it is closed and empty.
  pub taken : Pipeline S → ℕ → Stage → List Event → Option (Pipeline S)
  taken p i idle (e ∷ es) =
      some (record p { waiting = es; workers = set p.workers i (evaluating e) })
  taken p i _ _ = none

  pub left : Pipeline S → ℕ → Stage → List Event → Bool → Option (Pipeline S)
  left p i idle [] true = some (record p { workers = set p.workers i returned })
  left p i _ _ _ = none

  pub processed : Pipeline S → ℕ → Stage → Option (Pipeline S)
  processed p i (evaluating e) =
      let (s, result) = process_event r p.snapshot e p.state in
      some (record p { state = s; workers = set p.workers i (sending result) })
  processed p i _ = none

  pub sent : Pipeline S → ℕ → Stage → Option (Pipeline S)
  sent p i (sending result) =
      if ltb (length p.results) result_chan_cap
      then some (record p { results = p.results ++ result ∷ []; workers = set p.workers i idle })
      else none
  sent p i _ = none

  -- wg.Wait, then close(out).
  joined : Pipeline S → Bool → Bool → Option (Pipeline S)
  joined p true false = some (record p { results_closed = true })
  joined p _ _ = none

  told : Pipeline S → Signal → Pipeline S
  told p s = record p { writer = step d p.writer s; signals = p.signals ++ s ∷ [] }

  delivered : Pipeline S → Bool → List Result → Option (Pipeline S)
  unfolding told
  delivered p false (result ∷ rest) = some (told (record p { results = rest }) (received result))
  delivered p _ _ = none

  ended : Pipeline S → Bool → List Result → Bool → Option (Pipeline S)
  unfolding told
  ended p false [] true = some (told p closed)
  ended p _ _ _ = none

  notified : Pipeline S → Bool → Signal → Bool → Option (Pipeline S)
  unfolding told
  notified p false s true = some (told p s)
  notified p _ s _ = none

  unfoldable pub move : Pipeline S → Move → Option (Pipeline S)
  unfolding offered closing taken left processed sent joined delivered ended notified
  move p (offer e) = offered p e p.events_closed
  move p (publish snap) = some (record p { snapshot = some snap })
  move p (evict now) = some (record p { state = gc now p.state })
  move p close_events = closing p p.events_closed
  move p (take_event i) = taken p i (get_or p.workers i returned) p.waiting
  move p (leave i) = left p i (get_or p.workers i returned) p.waiting p.events_closed
  move p (evaluate i) = processed p i (get_or p.workers i returned)
  move p (send_result i) = sent p i (get_or p.workers i returned)
  move p close_results = joined p (all_returned p.workers) p.results_closed
  move p deliver = delivered p (is_stopped p.writer.mode) p.results
  move p deliver_closed = ended p (is_stopped p.writer.mode) p.results p.results_closed
  move p (notify s) = notified p (is_stopped p.writer.mode) s (is_own s)

  -- A run of moves none of which is blocked.
  unfoldable pub moves : Pipeline S → List Move → Option (Pipeline S)
  moves p [] = some p
  moves p (m ∷ ms) = elim (move p m) [ none ↦ none | some q ↦ moves q ms ]

-- The pipeline as main starts it.
abbrev pub start : {S : Type 0} → ℕ → Writer → Option Snapshot → S → Pipeline S
start n w snap s = record {
  waiting = [];
  events_closed = false;
  workers = replicate n idle;
  results = [];
  results_closed = false;
  writer = w;
  snapshot = snap;
  state = s;
  accepted = [];
  signals = [];
}
