-- ===== src/Output/Writer/Loop.antt =====
-- What the loop of Writer.Run (output/writer.go) keeps.
use fruitfly.Base.{
  ltb, leb, if_elim, length, ◌≤◌, ◌<◌, Bool, true, false, List, [], ◌∷◌, ◌++◌, arith,
}
use fruitfly.Types.{Result}
use fruitfly.Output.Store.{Database, Db}
use fruitfly.Output.Writer.{
  Mode, running, draining, stopped, Writer, Signal, received, closed, flush_tick, drain_timeout,
  batch_size, max_concurrent_webhooks, observed, flush_batch, finish, append_result, start_webhook,
  take_running, take_draining, step_running, step_draining, step_in, step, run, new_writer,
}

-- The bounds of the loop: a batch short of its size, and no more webhooks than slots.
pub record IsBounded (w : Writer) : Type 0 where
  pub batch_short : length w.batch < batch_size
  pub hooks_few : w.in_flight ≤ max_concurrent_webhooks

flush_batch-IsBounded :
    (d : Database) (w : Writer)
    → w.in_flight ≤ max_concurrent_webhooks
    → IsBounded (flush_batch d w)
unfolding flush_batch
flush_batch-IsBounded d w h = record { batch_short = omega arith; hooks_few = h }

append_result-IsBounded :
    (d : Database) (w : Writer) (r : Result) → IsBounded w → IsBounded (append_result d w r)
unfolding append_result
append_result-IsBounded d w r b =
    if_elim IsBounded (leb batch_size (length (w.batch ++ r ∷ []))) _ _
      (λ _. flush_batch-IsBounded d (record w { batch = w.batch ++ r ∷ [] }) b.hooks_few)
      (λ e. record { batch_short = ground (arith, e); hooks_few = b.hooks_few })

start_webhook-IsBounded : (w : Writer) (r : Result) → IsBounded w → IsBounded (start_webhook w r)
unfolding start_webhook
start_webhook-IsBounded w r b = ground arith

observed-IsBounded : (w : Writer) (r : Result) → IsBounded w → IsBounded (observed w r).0
unfolding observed
observed-IsBounded w r b = record { batch_short = b.batch_short; hooks_few = b.hooks_few }

take_running-IsBounded :
    (d : Database) (w : Writer) (r : Result) (q : Writer × Bool)
    → IsBounded q.0
    → IsBounded (take_running d w r q)
unfolding take_running
take_running-IsBounded d w r (q, false) b = b
take_running-IsBounded d w r (q, true) b =
    start_webhook-IsBounded _ r (append_result-IsBounded d q r b)

take_draining-IsBounded :
    (d : Database) (w : Writer) (r : Result) (q : Writer × Bool)
    → IsBounded q.0
    → IsBounded (take_draining d w r q)
unfolding take_draining
take_draining-IsBounded d w r (q, false) b = b
take_draining-IsBounded d w r (q, true) b = append_result-IsBounded d q r b

finish-IsBounded : (d : Database) (w : Writer) → IsBounded w → IsBounded (finish d w)
unfolding finish flush_batch
finish-IsBounded d w b = record { batch_short = omega arith; hooks_few = b.hooks_few }

step_in-IsBounded :
    (d : Database) (w : Writer) (m : Mode) (e : Signal) → IsBounded w → IsBounded (step_in d w m e)
unfolding step_in step_running step_draining
step_in-IsBounded d w running (received r) b =
    take_running-IsBounded d w r _ (observed-IsBounded w r b)
step_in-IsBounded d w running closed b = finish-IsBounded d w b
step_in-IsBounded d w running flush_tick b =
    if_elim IsBounded (ltb 0 (length w.batch)) _ _ (λ _. flush_batch-IsBounded d w b.hooks_few)
      (λ _. b)
step_in-IsBounded d w running _ b = record {
  batch_short = b.batch_short;
  hooks_few = omega (arith, b.hooks_few);
}
step_in-IsBounded d w draining (received r) b =
    take_draining-IsBounded d w r _ (observed-IsBounded w r b)
step_in-IsBounded d w draining closed b = finish-IsBounded d w b
step_in-IsBounded d w draining drain_timeout b = finish-IsBounded d w b
step_in-IsBounded d w draining _ b = record {
  batch_short = b.batch_short;
  hooks_few = omega (arith, b.hooks_few);
}
step_in-IsBounded d w stopped _ b = b

run-IsBounded' :
    (d : Database) (es : List Signal) (w : Writer) → IsBounded w → IsBounded (run d w es)
unfolding run step
run-IsBounded' d [] w b = b
run-IsBounded' d (e ∷ es) w b = run-IsBounded' d es (step d w e) (step_in-IsBounded d w w.mode e b)

-- Whatever arrives, from a new writer on the pending batch stays below a hundred results and at most
-- a hundred webhooks are in flight.
pub run-IsBounded :
    (d : Database) (emit_interesting : Bool) (db : Db) (es : List Signal)
    → IsBounded (run d (new_writer emit_interesting db) es)
run-IsBounded d emit db es =
    run-IsBounded' d es (new_writer emit db)
      (record { batch_short = omega arith; hooks_few = omega arith })
