-- ===== src/Tests/Storage.antt =====
-- Runs of output/writer.go.
use fruitfly.Base.{
  ltb, ◌==◌, if◌then◌else◌, if_elim, All, Str, str, ℕ, ◌≡◌, refl, ◌⊎◌, Bool, true, false, Option,
  some, List, [], ◌∷◌, ◌++◌,
}
use fruitfly.Types.{end, Result, block}
use fruitfly.Output.Store.{Database, Row, Db, row_of, make_row, payload_json, insert_batch, flush}
use fruitfly.Output.Store.Laws.{IsHealthy, AllStored, Extends}
use fruitfly.Output.Store.Retry.{FailTwice, HasUnmarshalled, flush_outcome}
use fruitfly.Output.Writer.{
  Signal, received, closed, cancelled, hook_done, stopped, run, new_writer,
}
use fruitfly.Output.Writer.Webhook.{
  Response, no_response, status, delivered, judge, attempts, send_webhook,
}
use fruitfly.Output.Writer.Loop.{IsBounded, run-IsBounded}
use fruitfly.Output.Writer.Delivery.{
  Held, NotRetention, kept_results, kept_results-Held, run_closed_stores,
}

-- The first call fails.
abbrev flaky : Database
flaky = record {
  call_ok = λ n. ltb 0 n;
  marshal_rules = λ l. some [];
  marshal_payload = λ m. some [];
  now = 1000;
}

abbrev pub healthy : Database
healthy = record flaky { call_ok = λ n. true }

abbrev pub no_rows : Db
no_rows = record { table = []; calls = 0 }

abbrev a_result : Result
a_result = record {
  event_id = str "e1";
  event_type = str "post";
  final_verdict = block;
  triggered_rules = [];
  failed_rules = [];
  payload = end;
  raw_payload = str "{}";
  latency_us = 1;
  processed_at = 5;
}

flush_outcome_example :
    (((flush flaky no_rows (a_result ∷ [])).1 ≡ true)
      × Extends no_rows.table (flush flaky no_rows (a_result ∷ [])).0.table
      × AllStored (a_result ∷ []) (flush flaky no_rows (a_result ∷ [])).0.table)
    ⊎ (((flush flaky no_rows (a_result ∷ [])).1 ≡ false)
        × ((flush flaky no_rows (a_result ∷ [])).0.table ≡ no_rows.table)
        × (FailTwice flaky no_rows.calls (flush flaky no_rows (a_result ∷ [])).0.calls
            ⊎ HasUnmarshalled flaky (a_result ∷ [])))
flush_outcome_example = flush_outcome flaky no_rows (a_result ∷ [])

-- The retry stores what the first try did not.
retry_stores : (flush flaky no_rows (a_result ∷ [])).1 ≡ true
unfolding flush insert_batch
retry_stores = refl

abbrev some_signals : List Signal
some_signals = received a_result ∷ hook_done ∷ cancelled ∷ received a_result ∷ []

some_signals-NotRetention : All NotRetention some_signals
some_signals-NotRetention = (tt, (tt, (tt, (tt, tt))))

run-IsBounded_example : IsBounded (run flaky (new_writer true no_rows) some_signals)
run-IsBounded_example = run-IsBounded flaky true no_rows some_signals

kept_results-Held_example :
    All
      (Held (run flaky (new_writer true no_rows) some_signals))
      (kept_results flaky (new_writer true no_rows) some_signals)
kept_results-Held_example =
    kept_results-Held flaky some_signals (new_writer true no_rows) some_signals-NotRetention

has-row : (r : Result) → (row : Row) × (row_of healthy r ≡ some row)
unfolding row_of payload_json make_row
has-row r =
    if_elim (λ o. (row : Row) × (make_row healthy r (some []) (some []) o ≡ some row)) _ (some [])
      (some r.raw_payload) (λ _. made []) (λ _. made r.raw_payload)
  where
    made : (s : Str) → (row : Row) × (make_row healthy r (some []) (some []) (some s) ≡ some row)
    made s = (_, refl)

pub healthy-IsHealthy : IsHealthy healthy
healthy-IsHealthy = record { calls_ok = λ n. refl; rows_ok = has-row }

run_closed_stores_example :
    ((run healthy (new_writer true no_rows) (some_signals ++ closed ∷ [])).mode ≡ stopped)
    × AllStored
        (kept_results healthy (new_writer true no_rows) (some_signals ++ closed ∷ []))
        (run healthy (new_writer true no_rows) (some_signals ++ closed ∷ [])).db.table
run_closed_stores_example =
    run_closed_stores healthy true no_rows some_signals healthy-IsHealthy some_signals-NotRetention

-- No answer, a 503 and a 200.
abbrev answers : ℕ → Response
answers n = if n == 0 then no_response else if n == 1 then status 503 else status 200

abbrev never_ends : ℕ → Bool
never_ends n = false

abbrev as_id : Result → Option Str
as_id r = some r.event_id

third_succeeds : send_webhook answers never_ends as_id (str "http://sink") a_result ≡ delivered
unfolding send_webhook judge attempts
third_succeeds = refl
