-- ===== src/Replay/Recorded.antt =====
-- The comparison with a trace as a comparison of two runs (cmd/replay/main.go).
use fruitfly.Base.{
  length, All, Str, str_eq, str_eq_refl, StrMap, lookup, insert, lookup-insert, ◌≡◌, refl, sym, ap,
  ◌∙◌, false, some, List, [], ◌∷◌, map,
}
use fruitfly.Types.{Result}
use fruitfly.Output.Trace.{TraceEntry}
use fruitfly.Replay.{
  ReplayReport, compare_found, empty_report, trace_loop, diff_against_trace, runs_loop,
  diff_two_runs, results_by_id,
}

-- No two entries of the trace are of the same event.
abbrev pub AreDistinct : List TraceEntry → Type 0
AreDistinct [] = Unit {0}
AreDistinct (entry ∷ entries) =
    All (λ (x : TraceEntry). str_eq x.result.event_id entry.result.event_id ≡ false) entries
    × AreDistinct entries

-- The result of an entry is that of its event.
abbrev pub IsPaired : TraceEntry → Type 0
IsPaired entry = entry.result.event_id ≡ entry.event.event_id

abbrev pub recorded : List TraceEntry → List Result
recorded entries = map (λ (entry : TraceEntry). entry.result) entries

lookup-results_by_id :
    (k : Str) (entries : List TraceEntry) (m : StrMap Result)
    → All (λ (x : TraceEntry). str_eq x.result.event_id k ≡ false) entries
    → lookup k (results_by_id (recorded entries) m) ≡ lookup k m
unfolding results_by_id
lookup-results_by_id k [] m h = refl
lookup-results_by_id k (entry ∷ entries) m h =
    lookup-results_by_id k entries (insert entry.result.event_id entry.result m) h.1
    ∙ lookup-insert entry.result.event_id k entry.result m
    ∙ rw (h.0) refl

-- Both loops give the same, as long as the older results are those of the entries.
loops_agree :
    (old new : StrMap Result) (entries : List TraceEntry) (report : ReplayReport)
    → All (λ (x : TraceEntry). lookup x.event.event_id old ≡ some x.result) entries
    → trace_loop new entries report ≡ runs_loop old new entries report
unfolding trace_loop runs_loop
loops_agree old new [] report h = refl
loops_agree old new (entry ∷ entries) report h =
    loops_agree old new entries _ h.1
    ∙ ap
        (λ o.
          runs_loop old new entries
            (compare_found entry.event o (lookup entry.event.event_id new) report))
        (sym h.0)

recorded_found :
    (entries : List TraceEntry) (m : StrMap Result)
    → AreDistinct entries
    → All IsPaired entries
    → All
        (λ (x : TraceEntry).
          lookup x.event.event_id (results_by_id (recorded entries) m) ≡ some x.result)
        entries
unfolding results_by_id
recorded_found [] m d p = tt
recorded_found (entry ∷ entries) m d p =
    let id = entry.result.event_id in
    (
      ap (λ k. lookup k (results_by_id (recorded entries) (insert id entry.result m))) (sym p.0)
          ∙ lookup-results_by_id id entries (insert id entry.result m) d.0
          ∙ lookup-insert id id entry.result m
          ∙ rw (str_eq_refl id) refl,
      recorded_found entries (insert id entry.result m) d.1 p.1,
    )

-- Replay is shadow mode against the trace: for a trace with one entry for an event, each with the
-- result of its event, the comparison of new results with the verdicts of the trace is the comparison
-- of two runs, the older of which gave the results of the trace.
pub diff_against_trace-diff_two_runs :
    (entries : List TraceEntry) (new : StrMap Result)
    → AreDistinct entries
    → All IsPaired entries
    → diff_against_trace entries new
      ≡ diff_two_runs entries (results_by_id (recorded entries) []) new
unfolding diff_against_trace diff_two_runs
diff_against_trace-diff_two_runs entries new d p =
    loops_agree (results_by_id (recorded entries) []) new entries (empty_report (length entries))
      (recorded_found entries [] d p)
