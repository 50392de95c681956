-- ===== src/Tests/Replaying.antt =====
-- Runs of cmd/replay/main.go, config/config.go, output/trace.go and rules/stats.go.
use fruitfly.Base.{
  map, select, count_if, Str, str, str_eq, pos, StrMap, lookup, ℕ, ◌≡◌, refl, ◌↔◌, true, Option,
  none, some, List, [], ◌∷◌, arith,
}
use fruitfly.Types.{Verdict, approve, block, end, RuleResult, Result}
use fruitfly.Output.Trace.{TraceEntry}
use fruitfly.Replay.{
  load_traces, count_at, diff_against_trace, diff_two_runs, results_by_id, exit_status,
}
use fruitfly.Replay.Counting.{
  blamed, compared, is_changed, is_unchanged, difference, diff_two_runs-counts,
}
use fruitfly.Output.Trace.{TraceRecorder, new_trace_recorder}
use fruitfly.Replay.Reading.{carried, record_all, load_traces-record_all}
use fruitfly.Rules.Stats.{RuleStats, Average, Steps, start, warned, swaps, may_warn, swap_warn}
use fruitfly.Rules.Stats.Warnings.{AreSpaced, Steps-AreSpaced}
use fruitfly.Replay.Recorded.{recorded, diff_against_trace-diff_two_runs}
use fruitfly.Config.{Config, missing, ok, settle, load, apply_defaults, validate}
use fruitfly.Config.Settled.{IsValid, load-IsValid}

abbrev result_of : Str → Verdict → List RuleResult → Result
result_of id v triggered = record {
  event_id = id;
  event_type = str "post";
  final_verdict = v;
  triggered_rules = triggered;
  failed_rules = [];
  payload = end;
  raw_payload = [];
  latency_us = 0;
  processed_at = 0;
}

abbrev blocking : RuleResult
blocking = record {
  rule_id = str "spam";
  priority = pos 1;
  verdict = block;
  reason = [];
  err = none;
}

abbrev entry_of : Str → TraceEntry
entry_of id = record {
  event = record {
    event_id = id;
    event_type = str "post";
    entity_id = str "u1";
    timestamp = pos 60;
    payload = end;
    raw_json = [];
  };
  result = result_of id approve [];
  snapshot_id = str "s1";
  timestamp = pos 61;
}

abbrev two_entries : List TraceEntry
two_entries = entry_of (str "e1") ∷ entry_of (str "e2") ∷ []

abbrev new_results : StrMap Result
new_results =
    (str "e1", result_of (str "e1") block (blocking ∷ []))
    ∷ (str "e2", result_of (str "e2") approve [])
    ∷ []

-- One verdict changed, and the exit status tells.
one_changed : exit_status (diff_against_trace two_entries new_results) ≡ 1
unfolding exit_status diff_against_trace lookup str_eq
one_changed = refl

abbrev old_results : StrMap Result
old_results =
    (str "e1", result_of (str "e1") approve []) ∷ (str "e2", result_of (str "e2") approve []) ∷ []

diff_two_runs-counts_example :
    let report = diff_two_runs two_entries old_results new_results in
    let both = compared old_results new_results two_entries in
    (report.total_events ≡ 2)
    × (report.changed ≡ count_if is_changed both)
    × (report.unchanged ≡ count_if is_unchanged both)
    × (report.diffs ≡ map difference (select is_changed both))
    × ((k : Str) → count_at k report.changes_by_rule ≡ blamed k report.diffs)
    × ((exit_status report ≡ 0) ↔ (count_if is_changed both ≡ 0))
diff_two_runs-counts_example = diff_two_runs-counts two_entries old_results new_results

diff_against_trace-diff_two_runs_example :
    diff_against_trace two_entries new_results
    ≡ diff_two_runs two_entries (results_by_id (recorded two_entries) []) new_results
unfolding str_eq
diff_against_trace-diff_two_runs_example =
    diff_against_trace-diff_two_runs two_entries new_results ((refl, tt), (tt, tt))
      (refl, (refl, tt))

abbrev default_config : Config
default_config = record {
  address = str ":8080";
  rules_dir = str "./rules";
  duckdb_path = str "fruitfly.duckdb";
  webhook_url = [];
  workers = pos 4;
  log_level = str "info";
  emit = str "all";
  routing_field = str "entity_id";
  cluster_peers = [];
  cluster_self = [];
}

loads_defaults : load (λ s. none) (pos 4) (str "fruitfly.yaml") missing ≡ ok default_config
unfolding load apply_defaults validate str_eq
loads_defaults = refl

load-IsValid_example : IsValid default_config × (settle (pos 4) default_config ≡ ok default_config)
load-IsValid_example =
    load-IsValid (λ s. none) (pos 4) (str "fruitfly.yaml") missing default_config (omega arith)
      loads_defaults

-- A rule that failed, and the raw payload of the event: neither the error nor the payload is in JSON.
abbrev failing : RuleResult
failing = record blocking { err = some (str "boom") }

abbrev told : TraceEntry → TraceEntry
told x = record x {
  result = record x.result { failed_rules = failing ∷ []; raw_payload = str "{}" };
}

abbrev told_entries : List TraceEntry
told_entries = told (entry_of (str "e1")) ∷ told (entry_of (str "e2")) ∷ []

-- A line is the identifier of the event.
abbrev encode : TraceEntry → Option Str
encode x = some x.event.event_id

abbrev parse : Str → Option TraceEntry
parse s = some (carried (told (entry_of s)))

load_traces-record_all_example :
    (tr : TraceRecorder) × (loaded : List TraceEntry) × (new_trace_recorder true (some [])
      ≡ some tr)
    × (load_traces parse (some (record_all encode tr told_entries).lines) true ≡ some loaded)
    × (map carried loaded ≡ map carried told_entries)
    × ((new : StrMap Result) → diff_against_trace loaded new ≡ diff_against_trace told_entries new)
load_traces-record_all_example = load_traces-record_all encode parse told_entries (
  (b'e', b'1' ∷ [], carried (told (entry_of (str "e1"))), refl, refl, refl),
  ((b'e', b'2' ∷ [], carried (told (entry_of (str "e2"))), refl, refl, refl), tt),
)

abbrev plain_average : Average
plain_average = record { sample = λ n. n; blend = λ a b. a; duration = λ n. n }

abbrev slow_at : ℕ → RuleStats
slow_at last = record { evals = 10; ewma_bits = 100; last_warn = last }

two_warnings : Steps plain_average (slow_at 0) (slow_at 170) (170 ∷ 100 ∷ [])
unfolding may_warn swap_warn
two_warnings =
    warned (warned (start (slow_at 0)) (swaps (slow_at 0) (slow_at 0) 10 1 100 0 refl refl))
      (swaps (slow_at 100) (slow_at 100) 10 1 170 100 refl refl)

Steps-AreSpaced_example : AreSpaced (170 ∷ 100 ∷ [])
Steps-AreSpaced_example =
    Steps-AreSpaced plain_average (slow_at 0) (slow_at 170) (170 ∷ 100 ∷ []) two_warnings
