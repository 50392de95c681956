-- ===== src/Output/Writer.antt =====
-- output/writer.go: the emission policy, the loop of Run as a step over the events that its selects
-- wait for; the delivery of a webhook.
use fruitfly.Base.{
  ltb, leb, ◌==◌, if◌then◌else◌, leb→le, le→leb, ltb→lt, ==_iff, &&-true, Bool-cases, Option-cases,
  if_elim, is_some, length, get_or, set, replicate, take, drop, All, In, select, count_if,
  length-append, length-set, All-append, All-In, In-append_left, In-append_right, In-append,
  select-true, select-false, select-append, length-select-le, Str, str, str_eq, str_eq→eq,
  str_eq_refl, str_eq_iff, has_prefix, ℤ, pos, negsuc, pos_part, neg_part, ◌≤ℤ◌, ◌<ℤ◌, ltb_ℤ, leb_ℤ,
  eq_ℤ, eq_ℤ→eq, ≤ℤ_antisymm, StrMap, lookup, insert, lookup-insert, ℕ, zero, suc, ◌+◌, ◌-◌, ◌*◌,
  ◌/◌, ◌%◌, ◌^◌, ◌≤◌, ◌<◌, ◌≡◌, refl, sym, ap, ◌∙◌, subst, ◌≢◌, ◌↔◌, ◌⊎◌, inl, inr, Bool, true,
  false, ◌&&◌, ◌||◌, not, Option, none, some, List, [], ◌∷◌, ◌++◌, map, arith,
}
use fruitfly.Types.{Verdict, approve, block, review, Result}
use fruitfly.Output.Store.{Database, Db, flush, run_retention}
pub mod Loop
pub mod Delivery
pub mod Plain
pub mod Webhook

abbrev pub batch_size : ℕ
batch_size = 100

abbrev pub max_concurrent_webhooks : ℕ
max_concurrent_webhooks = 100

pub record Stats : Type 0 where
  pub approved : ℕ
  pub blocked : ℕ
  pub reviewed : ℕ
  pub errored : ℕ
  pub skipped : ℕ

abbrev pub has_failures : Result → Bool
has_failures r = ltb 0 (length r.failed_rules)

count_verdict : Verdict → Stats → Stats
count_verdict v s =
    if str_eq v block
    then record s { blocked = suc s.blocked }
    else if str_eq v review
    then record s { reviewed = suc s.reviewed }
    else record s { approved = suc s.approved }

count_errored : Result → Stats → Stats
count_errored r s = if has_failures r then record s { errored = suc s.errored } else s

-- What the policy drops.
abbrev pub is_skipped : Bool → Result → Bool
is_skipped emit_interesting r =
    emit_interesting && str_eq r.final_verdict approve && (length r.failed_rules == 0)

-- observe: the new counts, and whether the result is kept.
unfoldable pub observe : Bool → Stats → Result → Stats × Bool
unfolding count_verdict count_errored
observe emit_interesting s r =
    let s' = count_errored r (count_verdict r.final_verdict s) in
    if is_skipped emit_interesting r
    then (record s' { skipped = suc s'.skipped }, false)
    else (s', true)

-- Where the loop of Run stands: in its select, in the drain after a cancellation, or returned.
pub data Mode : Type 0 where
  running draining stopped : Mode

-- `dropped` holds what flush reports as dropped after its retry, `hooks` the results for which a
-- webhook was started, `in_flight` the slots of the semaphore that are taken.
pub record Writer : Type 0 where
  pub mode : Mode
  pub emit_interesting : Bool
  pub batch : List Result
  pub stats : Stats
  pub db : Db
  pub dropped : List Result
  pub hooks : List Result
  pub in_flight : ℕ
  pub ready : Bool

pub data Signal : Type 0 where
  received : Result → Signal
  closed flush_tick cancelled drain_timeout hook_done : Signal
  retention_tick : ℕ → Signal

-- flush and resetBatch.
unfoldable pub flush_batch : Database → Writer → Writer
flush_batch d w =
    let (db', ok) = flush d w.db w.batch in
    record w { db = db'; batch = []; dropped = if ok then w.dropped else w.dropped ++ w.batch }

-- flush and Close.
unfoldable pub finish : Database → Writer → Writer
unfolding flush_batch
finish d w = record (flush_batch d w) { mode = stopped; ready = false }

unfoldable pub append_result : Database → Writer → Result → Writer
unfolding flush_batch
append_result d w r =
    let w' = record w { batch = w.batch ++ r ∷ [] } in
    if leb batch_size (length w'.batch) then flush_batch d w' else w'

unfoldable pub start_webhook : Writer → Result → Writer
start_webhook w r =
    if ltb w.in_flight max_concurrent_webhooks
    then record w { hooks = w.hooks ++ r ∷ []; in_flight = suc w.in_flight }
    else w

take_running : Database → Writer → Result → Writer × Bool → Writer
unfolding append_result start_webhook
take_running d w r (w', false) = w'
take_running d w r (w', true) = start_webhook (append_result d w' r) r

take_draining : Database → Writer → Result → Writer × Bool → Writer
unfolding append_result
take_draining d w r (w', false) = w'
take_draining d w r (w', true) = append_result d w' r

unfoldable pub observed : Writer → Result → Writer × Bool
observed w r =
    let (s, keep) = observe w.emit_interesting w.stats r in (record w { stats = s }, keep)

step_running : Database → Writer → Signal → Writer
unfolding take_running finish flush_batch observed
step_running d w (received r) = take_running d w r (observed w r)
step_running d w closed = finish d w
step_running d w flush_tick = if ltb 0 (length w.batch) then flush_batch d w else w
step_running d w (retention_tick now) = record w { db = run_retention d w.db now }
step_running d w cancelled = record w { mode = draining }
step_running d w drain_timeout = w
step_running d w hook_done = record w { in_flight = w.in_flight - 1 }

step_draining : Database → Writer → Signal → Writer
unfolding take_draining finish observed
step_draining d w (received r) = take_draining d w r (observed w r)
step_draining d w closed = finish d w
step_draining d w drain_timeout = finish d w
step_draining d w hook_done = record w { in_flight = w.in_flight - 1 }
step_draining d w _ = w

step_in : Database → Writer → Mode → Signal → Writer
unfolding step_running step_draining
step_in d w running e = step_running d w e
step_in d w draining e = step_draining d w e
step_in d w stopped e = w

unfoldable pub step : Database → Writer → Signal → Writer
unfolding step_in
step d w e = step_in d w w.mode e

-- Run, over the signals that arrive.
unfoldable pub run : Database → Writer → List Signal → Writer
run d w [] = w
run d w (e ∷ es) = run d (step d w e) es

-- NewWriter, over an opened database.
abbrev pub new_writer : Bool → Db → Writer
new_writer emit_interesting db = record {
  mode = running;
  emit_interesting = emit_interesting;
  batch = [];
  stats = record { approved = 0; blocked = 0; reviewed = 0; errored = 0; skipped = 0 };
  db = db;
  dropped = [];
  hooks = [];
  in_flight = 0;
  ready = true;
}
