-- ===== src/Replay/Counting.antt =====
-- What the report of a comparison counts (cmd/replay/main.go).
use fruitfly.Base.{
  if◌then◌else◌, if_elim, length, count_if, Str, str_eq, str_eq→eq, StrMap, lookup, insert,
  lookup-insert, ℕ, suc, ◌+◌, ◌≡◌, refl, ap, ◌∙◌, ◌↔◌, Bool, true, false, Option, none, some, List,
  [], ◌∷◌, ◌++◌, arith, select, not, map, sym,
}
use mathlib.Core.List.{append-nil, append_assoc}
use fruitfly.Types.{RuleResult, Result}
use fruitfly.Output.Trace.{TraceEntry}
use fruitfly.Replay.{
  VerdictDiff, ReplayReport, rule_ids, count_at, count_rules, diff_of, compare_results,
  compare_found, empty_report, runs_loop, diff_two_runs, exit_status,
}

-- Occurrences of a rule in lists of identifiers.
abbrev pub occurrences : Str → List Str → ℕ
occurrences k ids = count_if (λ id. str_eq id k) ids

abbrev pub blamed : Str → List VerdictDiff → ℕ
blamed k [] = 0
blamed k (d ∷ ds) = occurrences k d.new_rules + blamed k ds

-- An entry of the trace with the results that both runs have for its event.
abbrev pub Compared : Type 0
Compared = TraceEntry × (Result × Result)

with_results : TraceEntry → Option Result → Option Result → List Compared → List Compared
with_results x (some old) (some new) rest = (x, (old, new)) ∷ rest
with_results x _ _ rest = rest

-- The entries for which both runs have a result, in order.
pub compared : StrMap Result → StrMap Result → List TraceEntry → List Compared
unfolding with_results
compared old new [] = []
compared old new (x ∷ xs) =
    with_results x (lookup x.event.event_id old) (lookup x.event.event_id new) (compared old new xs)

-- The verdicts of the two runs differ.
abbrev pub is_changed : Compared → Bool
is_changed (x, (old, new)) = not (str_eq old.final_verdict new.final_verdict)

abbrev pub is_unchanged : Compared → Bool
is_unchanged (x, (old, new)) = str_eq old.final_verdict new.final_verdict

-- What is to be said of a change: whose it is, both verdicts, and the rules that triggered.
abbrev pub difference : Compared → VerdictDiff
difference (x, (old, new)) = record {
  event_id = x.event.event_id;
  event_type = x.event.event_type;
  old_verdict = old.final_verdict;
  new_verdict = new.final_verdict;
  old_rules = map (λ (rr : RuleResult). rr.rule_id) old.triggered_rules;
  new_rules = map (λ (rr : RuleResult). rr.rule_id) new.triggered_rules;
}

count_at-insert :
    (k id : Str) (n : ℕ) (m : StrMap ℕ)
    → count_at k (insert id n m) ≡ (if str_eq id k then n else count_at k m)
unfolding count_at
count_at-insert k id n m =
    ap (λ o. elim o [ none ↦ 0 | some n ↦ n ]) (lookup-insert id k n m) ∙ pick (str_eq id k)
  where
    pick :
        (b : Bool)
        → (elim (if b then some n else lookup k m) [ none ↦ 0 | some n ↦ n ])
          ≡ (if b then n else (elim (lookup k m) [ none ↦ 0 | some n ↦ n ]))
    pick true = refl
    pick false = refl

count_at-count_rules :
    (k : Str) (ids : List Str) (m : StrMap ℕ)
    → count_at k (count_rules ids m) ≡ occurrences k ids + count_at k m
unfolding count_rules
count_at-count_rules k [] m = omega arith
count_at-count_rules k (id ∷ ids) m =
    count_at-count_rules k ids (insert id (suc (count_at id m)) m)
    ∙ ap (λ n. occurrences k ids + n) (count_at-insert k id (suc (count_at id m)) m)
    ∙ pick (str_eq id k) refl
  where
    pick :
        (b : Bool)
        → str_eq id k ≡ b
        → occurrences k ids + (if b then suc (count_at id m) else count_at k m)
          ≡ (if b then suc (occurrences k ids) else occurrences k ids) + count_at k m
    pick true h = omega (arith, ap (λ j. count_at j m) (str_eq→eq id k h))
    pick false h = refl

-- What the comparison of some entries adds to a report.
record Grows (ps : List Compared) (r u : ReplayReport) : Type 0 where
  changes : u.changed ≡ r.changed + count_if is_changed ps
  rest : u.unchanged ≡ r.unchanged + count_if is_unchanged ps
  listed : u.diffs ≡ r.diffs ++ map difference (select is_changed ps)
  tallied :
      (k : Str)
      → count_at k u.changes_by_rule
        ≡ count_at k r.changes_by_rule + blamed k (map difference (select is_changed ps))

Grows-refl : (r : ReplayReport) → Grows [] r r
Grows-refl r = record {
  changes = omega arith;
  rest = omega arith;
  listed = sym (append-nil r.diffs);
  tallied = λ k. omega arith;
}

compare_results-Grows :
    (x : TraceEntry) (old new : Result) (ps : List Compared) (r u : ReplayReport)
    → Grows ps (compare_results x.event old new r) u
    → Grows ((x, (old, new)) ∷ ps) r u
unfolding compare_results
compare_results-Grows x old new ps r u g =
    by_test (str_eq old.final_verdict new.final_verdict) refl g
  where
    picked : Bool → List VerdictDiff
    picked t =
        map difference
          (if not t then (x, (old, new)) ∷ select is_changed ps else select is_changed ps)

    by_test :
        (b : Bool)
        → str_eq old.final_verdict new.final_verdict ≡ b
        → Grows ps
            (if b then record r { unchanged = suc r.unchanged } else record r {
              changed = suc r.changed;
              diffs = r.diffs ++ diff_of x.event old new ∷ [];
              changes_by_rule = count_rules (rule_ids new.triggered_rules) r.changes_by_rule;
            })
            u
        → Grows ((x, (old, new)) ∷ ps) r u
    by_test true h g = record {
      changes = ground (arith, h, g.changes);
      rest = ground (arith, h, g.rest);
      listed = g.listed ∙ ap (λ t. r.diffs ++ picked t) (sym h);
      tallied =
          λ k. g.tallied k ∙ ap (λ t. count_at k r.changes_by_rule + blamed k (picked t)) (sym h);
    }
    by_test false h g = record {
      changes = ground (arith, h, g.changes);
      rest = ground (arith, h, g.rest);
      listed =
          g.listed
          ∙ append_assoc r.diffs (diff_of x.event old new ∷ [])
              (map difference (select is_changed ps))
          ∙ ap (λ t. r.diffs ++ picked t) (sym h);
      tallied = λ k.
          g.tallied k
          ∙ omega (arith, count_at-count_rules k (rule_ids new.triggered_rules) r.changes_by_rule)
          ∙ ap (λ t. count_at k r.changes_by_rule + blamed k (picked t)) (sym h);
    }

compare_found-Grows :
    (x : TraceEntry) (o p : Option Result) (ps : List Compared) (r u : ReplayReport)
    → Grows ps (compare_found x.event o p r) u
    → Grows (with_results x o p ps) r u
unfolding compare_found with_results
compare_found-Grows x (some old) (some new) ps r u g = compare_results-Grows x old new ps r u g
compare_found-Grows x (some old) none ps r u g = g
compare_found-Grows x none p ps r u g = g

runs_loop-Grows :
    (old new : StrMap Result) (entries : List TraceEntry) (r : ReplayReport)
    → Grows (compared old new entries) r (runs_loop old new entries r)
unfolding runs_loop compared
runs_loop-Grows old new [] r = Grows-refl r
runs_loop-Grows old new (x ∷ xs) r =
    let id = x.event.event_id in
    compare_found-Grows x (lookup id old) (lookup id new) (compared old new xs) r _
      (runs_loop-Grows old new xs (compare_found x.event (lookup id old) (lookup id new) r))

total-runs_loop :
    (old new : StrMap Result) (entries : List TraceEntry) (report : ReplayReport)
    → (runs_loop old new entries report).total_events ≡ report.total_events
unfolding runs_loop compare_found compare_results
total-runs_loop old new [] report = refl
total-runs_loop old new (entry ∷ entries) report =
    let id = entry.event.event_id in
    total-runs_loop old new entries _ ∙ one (lookup id old) (lookup id new)
  where
    one :
        (o p : Option Result)
        → (compare_found entry.event o p report).total_events ≡ report.total_events
    one (some old) (some new) =
        if_elim (λ (x : ReplayReport). x.total_events ≡ report.total_events)
          (str_eq old.final_verdict new.final_verdict) _ _ (λ _. refl) (λ _. refl)
    one (some old) none = refl
    one none p = refl

-- The report of a comparison of two runs says what changed: all entries of the trace are in the total;
-- changed and unchanged are the numbers of those entries for which both runs have a result, with
-- verdicts that differ and that agree; the differences are these changed entries in order, each with
-- its event, both verdicts and both runs' triggered rules; and a rule is counted as often as it
-- triggered, in the new run, on a changed entry. The process then ends with status 0 exactly if
-- nothing changed.
pub diff_two_runs-counts :
    (entries : List TraceEntry) (old new : StrMap Result)
    → let report = diff_two_runs entries old new in
      (report.total_events ≡ length entries)
      × (report.changed ≡ count_if is_changed (compared old new entries))
      × (report.unchanged ≡ count_if is_unchanged (compared old new entries))
      × (report.diffs ≡ map difference (select is_changed (compared old new entries)))
      × ((k : Str) → count_at k report.changes_by_rule ≡ blamed k report.diffs)
      × ((exit_status report ≡ 0) ↔ (count_if is_changed (compared old new entries) ≡ 0))
unfolding diff_two_runs exit_status count_at lookup
diff_two_runs-counts entries old new =
    let empty = empty_report (length entries) in
    let g = runs_loop-Grows old new entries empty in
    let changes = map difference (select is_changed (compared old new entries)) in
    (
      total-runs_loop old new entries empty,
      g.changes ∙ omega arith,
      g.rest ∙ omega arith,
      g.listed,
      λ k. g.tallied k ∙ zero_add (blamed k changes) ∙ ap (blamed k) (sym g.listed),
      (λ h. ground (arith, h, g.changes), λ h. ground (arith, h, g.changes)),
    )
  where
    zero_add : (n : ℕ) → 0 + n ≡ n
    zero_add n = omega arith
