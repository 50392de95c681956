-- ===== src/Replay.antt =====
-- cmd/replay/main.go, the comparison of verdicts between a trace and a rule set or between two rule
-- sets. A Go map is an association list.
use fruitfly.Base.{
  ltb, leb, ◌==◌, if◌then◌else◌, leb→le, le→leb, ltb→lt, ==_iff, &&-true, Bool-cases, Option-cases,
  if_elim, is_some, length, get_or, set, replicate, take, drop, All, In, select, count_if,
  length-append, length-set, All-append, All-In, In-append_left, In-append_right, In-append,
  select-true, select-false, select-append, length-select-le, Str, str, str_eq, str_eq→eq,
  str_eq_refl, str_eq_iff, has_prefix, ℤ, pos, negsuc, pos_part, neg_part, ◌≤ℤ◌, ◌<ℤ◌, ltb_ℤ, leb_ℤ,
  eq_ℤ, eq_ℤ→eq, ≤ℤ_antisymm, StrMap, lookup, insert, lookup-insert, str_leb, sort_strings,
  sort_strings-perm, IsAscending, sort_strings-IsAscending, ℕ, zero, suc, ◌+◌, ◌-◌, ◌*◌, ◌/◌, ◌%◌,
  ◌^◌, ◌≤◌, ◌<◌, ◌≡◌, refl, sym, ap, ◌∙◌, subst, ◌≢◌, ◌↔◌, ◌⊎◌, inl, inr, Bool, true, false, ◌&&◌,
  ◌||◌, not, Option, none, some, List, [], ◌∷◌, ◌++◌, map, arith,
}
use fruitfly.Output.Trace.{TraceEntry}
use fruitfly.Types.{Event, Verdict, RuleResult, Result}
pub mod Counting
pub mod Recorded
pub mod Reading

pub record VerdictDiff : Type 0 where
  pub event_id : Str
  pub event_type : Str
  pub old_verdict : Verdict
  pub new_verdict : Verdict
  pub old_rules : List Str
  pub new_rules : List Str

-- `Duration` is left out.
pub record ReplayReport : Type 0 where
  pub total_events : ℕ
  pub changed : ℕ
  pub unchanged : ℕ
  pub diffs : List VerdictDiff
  pub changes_by_rule : StrMap ℕ

abbrev pub rule_ids : List RuleResult → List Str
rule_ids rrs = map (λ (rr : RuleResult). rr.rule_id) rrs

-- The zero value where the key is missing.
unfoldable pub count_at : Str → StrMap ℕ → ℕ
count_at k m = elim (lookup k m) [ none ↦ 0 | some n ↦ n ]

-- for _, ruleID := range newRuleIDs { report.ChangesByRule[ruleID]++ }
unfoldable pub count_rules : List Str → StrMap ℕ → StrMap ℕ
unfolding count_at
count_rules [] m = m
count_rules (id ∷ ids) m = count_rules ids (insert id (suc (count_at id m)) m)

abbrev pub diff_of : Event → Result → Result → VerdictDiff
diff_of e old new = record {
  event_id = e.event_id;
  event_type = e.event_type;
  old_verdict = old.final_verdict;
  new_verdict = new.final_verdict;
  old_rules = rule_ids old.triggered_rules;
  new_rules = rule_ids new.triggered_rules;
}

-- The body of the loop, once both results are found.
unfoldable pub compare_results : Event → Result → Result → ReplayReport → ReplayReport
unfolding count_rules
compare_results e old new report =
    if str_eq old.final_verdict new.final_verdict
    then record report { unchanged = suc report.unchanged }
    else record report {
      changed = suc report.changed;
      diffs = report.diffs ++ diff_of e old new ∷ [];
      changes_by_rule = count_rules (rule_ids new.triggered_rules) report.changes_by_rule;
    }

unfoldable pub compare_found : Event → Option Result → Option Result → ReplayReport → ReplayReport
unfolding compare_results
compare_found e (some old) (some new) report = compare_results e old new report
compare_found e _ _ report = report

abbrev pub empty_report : ℕ → ReplayReport
empty_report n = record {
  total_events = n;
  changed = 0;
  unchanged = 0;
  diffs = [];
  changes_by_rule = [];
}

unfoldable pub trace_loop : StrMap Result → List TraceEntry → ReplayReport → ReplayReport
unfolding compare_found
trace_loop new [] report = report
trace_loop new (entry ∷ entries) report =
    trace_loop new entries
      (compare_found entry.event (some entry.result) (lookup entry.event.event_id new) report)

-- diffAgainstTrace
unfoldable pub diff_against_trace : List TraceEntry → StrMap Result → ReplayReport
unfolding trace_loop
diff_against_trace entries new = trace_loop new entries (empty_report (length entries))

unfoldable pub runs_loop :
    StrMap Result → StrMap Result → List TraceEntry → ReplayReport → ReplayReport
unfolding compare_found
runs_loop old new [] report = report
runs_loop old new (entry ∷ entries) report =
    let id = entry.event.event_id in
    runs_loop old new entries (compare_found entry.event (lookup id old) (lookup id new) report)

-- diffTwoRuns
unfoldable pub diff_two_runs : List TraceEntry → StrMap Result → StrMap Result → ReplayReport
unfolding runs_loop
diff_two_runs entries old new = runs_loop old new entries (empty_report (length entries))

-- The results of a run by event ID, as they come out of the pool.
unfoldable pub results_by_id : List Result → StrMap Result → StrMap Result
results_by_id [] m = m
results_by_id (r ∷ rs) m = results_by_id rs (insert r.event_id r m)

unfoldable pub parse_lines :
    (Str → Option TraceEntry) → List Str → List TraceEntry → Option (List TraceEntry)
parse_lines parse [] entries = some entries
parse_lines parse ([] ∷ lines) entries = parse_lines parse lines entries
parse_lines parse ((c ∷ line) ∷ lines) entries = elim (parse (c ∷ line)) [
  | none ↦ none
  | some entry ↦ parse_lines parse lines (entries ++ entry ∷ [])
]

-- loadTraces: `lines` is what the scanner gives, none where the file cannot be opened, and `scan_ok`
-- whether it ended without an error; `parse` is json.Unmarshal.
unfoldable pub load_traces :
    (Str → Option TraceEntry) → Option (List Str) → Bool → Option (List TraceEntry)
unfolding parse_lines
load_traces parse none scan_ok = none
load_traces parse (some lines) scan_ok = elim (parse_lines parse lines []) [
  | none ↦ none
  | some entries ↦ if scan_ok then some entries else none
]

-- The status with which printReport ends the process.
unfoldable pub exit_status : ReplayReport → ℕ
exit_status report = if ltb 0 report.changed then 1 else 0
