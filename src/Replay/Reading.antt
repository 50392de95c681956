-- ===== src/Replay/Reading.antt =====
-- What cmd/replay reads of a trace that output/trace.go wrote.
use fruitfly.Base.{
  if◌then◌else◌, length, All, Str, str_eq, StrMap, lookup, ℕ, suc, ◌≡◌, refl, sym, ap, ◌∙◌, subst,
  true, Option, none, some, List, [], ◌∷◌, ◌++◌, map,
}
use mathlib.Core.List.{append-nil, append_assoc}
use fruitfly.Output.Trace.{TraceEntry, TraceRecorder, new_trace_recorder, record_entry}
use fruitfly.Types.{RuleResult, Result}
use fruitfly.Replay.{
  ReplayReport, rule_ids, count_rules, compare_results, compare_found, empty_report, trace_loop,
  diff_against_trace, parse_lines, load_traces,
}

-- Records after one another.
pub record_all : (TraceEntry → Option Str) → TraceRecorder → List TraceEntry → TraceRecorder
record_all encode tr [] = tr
record_all encode tr (x ∷ xs) =
    record_all encode (record_entry encode tr x.event x.result x.snapshot_id x.timestamp) xs

-- What JSON is sure to carry of a rule's result: not the error `Err`, which is tagged json:"-", and
-- for which `err` stands together with its message.
abbrev pub carried_rule : RuleResult → RuleResult
carried_rule rr = record rr { err = none }

-- What JSON carries of a result: not the raw payload, which is tagged json:"-".
abbrev pub carried_result : Result → Result
carried_result r = record r {
  triggered_rules = map carried_rule r.triggered_rules;
  failed_rules = map carried_rule r.failed_rules;
  raw_payload = [];
}

abbrev pub carried : TraceEntry → TraceEntry
carried x = record x { result = carried_result x.result }

-- The line of an entry is not empty and is decoded as an entry that has what JSON carries.
abbrev pub IsCodec : (TraceEntry → Option Str) → (Str → Option TraceEntry) → TraceEntry → Type 0
IsCodec encode parse x =
    (c : ℕ) × (line : Str) × (y : TraceEntry) × (encode x ≡ some (c ∷ line))
    × (parse (c ∷ line) ≡ some y)
    × (carried y ≡ carried x)

-- The comparison reads nothing that JSON does not carry.
rule_ids-carried : (rrs : List RuleResult) → rule_ids (map carried_rule rrs) ≡ rule_ids rrs
rule_ids-carried [] = refl
rule_ids-carried (rr ∷ rrs) = ap (λ ids. rr.rule_id ∷ ids) (rule_ids-carried rrs)

compare_found-carried :
    (x : TraceEntry) (o : Option Result) (report : ReplayReport)
    → compare_found (carried x).event (some (carried x).result) o report
      ≡ compare_found x.event (some x.result) o report
unfolding compare_found compare_results
compare_found-carried x none report = refl
compare_found-carried x (some new) report =
    ap
      (λ ids.
        if str_eq x.result.final_verdict new.final_verdict
        then record report { unchanged = suc report.unchanged }
        else record report {
          changed = suc report.changed;
          diffs =
              report.diffs
              ++ record {
                event_id = x.event.event_id;
                event_type = x.event.event_type;
                old_verdict = x.result.final_verdict;
                new_verdict = new.final_verdict;
                old_rules = ids;
                new_rules = rule_ids new.triggered_rules;
              }
                ∷ [];
          changes_by_rule = count_rules (rule_ids new.triggered_rules) report.changes_by_rule;
        })
      (rule_ids-carried x.result.triggered_rules)

trace_loop-carried :
    (new : StrMap Result) (xs : List TraceEntry) (report : ReplayReport)
    → trace_loop new (map carried xs) report ≡ trace_loop new xs report
unfolding trace_loop
trace_loop-carried new [] report = refl
trace_loop-carried new (x ∷ xs) report =
    ap (trace_loop new (map carried xs))
      (compare_found-carried x (lookup x.event.event_id new) report)
    ∙ trace_loop-carried new xs _

length-carried : (xs : List TraceEntry) → length (map carried xs) ≡ length xs
length-carried [] = refl
length-carried (x ∷ xs) = ap suc (length-carried xs)

diff_against_trace-carried :
    (xs : List TraceEntry) (new : StrMap Result)
    → diff_against_trace (map carried xs) new ≡ diff_against_trace xs new
unfolding diff_against_trace
diff_against_trace-carried xs new =
    trace_loop-carried new xs (empty_report (length (map carried xs)))
    ∙ ap (λ n. trace_loop new xs (empty_report n)) (length-carried xs)

-- The entries that the lines of others are decoded as.
abbrev decoded :
    (encode : TraceEntry → Option Str) (parse : Str → Option TraceEntry) (xs : List TraceEntry)
    → All (IsCodec encode parse) xs
    → List TraceEntry
decoded encode parse [] k = []
decoded encode parse (x ∷ xs) ((c, line, y, e, p, h), k) = y ∷ decoded encode parse xs k

map-carried-decoded :
    (encode : TraceEntry → Option Str) (parse : Str → Option TraceEntry) (xs : List TraceEntry)
    (k : All (IsCodec encode parse) xs)
    → map carried (decoded encode parse xs k) ≡ map carried xs
map-carried-decoded encode parse [] k = refl
map-carried-decoded encode parse (x ∷ xs) ((c, line, y, e, p, h), k) =
    ap (λ a. a ∷ map carried (decoded encode parse xs k)) h
    ∙ ap (λ l. carried x ∷ l) (map-carried-decoded encode parse xs k)

-- What the lines are read as, after entries that were read before.
Reads : (Str → Option TraceEntry) → List Str → List TraceEntry → Type 0
Reads parse lines xs =
    (more : List Str) (before : List TraceEntry)
    → parse_lines parse (lines ++ more) before ≡ parse_lines parse more (before ++ xs)

Reads-append :
    (parse : Str → Option TraceEntry) (lines : List Str) (xs : List TraceEntry) (c : ℕ) (line : Str)
    (x : TraceEntry)
    → parse (c ∷ line) ≡ some x
    → Reads parse lines xs
    → Reads parse (lines ++ (c ∷ line) ∷ []) (xs ++ x ∷ [])
unfolding Reads parse_lines
Reads-append parse lines xs c line x p h more before =
    ap (λ l. parse_lines parse l before) (append_assoc lines ((c ∷ line) ∷ []) more)
    ∙ h ((c ∷ line) ∷ more) before
    ∙ rw (parse_lines, p) (ap (parse_lines parse more) (append_assoc before xs (x ∷ [])))

recorded_lines :
    (encode : TraceEntry → Option Str) (parse : Str → Option TraceEntry) (tr : TraceRecorder)
    (x y : TraceEntry) (xs : List TraceEntry) (c : ℕ) (line : Str)
    → tr.enabled ≡ true
    → encode x ≡ some (c ∷ line)
    → parse (c ∷ line) ≡ some y
    → Reads parse tr.lines xs
    → (let u = record_entry encode tr x.event x.result x.snapshot_id x.timestamp in
        (u.enabled ≡ true) × Reads parse u.lines (xs ++ y ∷ []))
unfolding record_entry
recorded_lines encode parse tr x y xs c line on e p h =
    rw (on, e) (refl, Reads-append parse tr.lines xs c line y p h)

record_all-Reads :
    (encode : TraceEntry → Option Str) (parse : Str → Option TraceEntry) (tr : TraceRecorder)
    (xs ys : List TraceEntry) (k : All (IsCodec encode parse) ys)
    → tr.enabled ≡ true
    → Reads parse tr.lines xs
    → Reads parse (record_all encode tr ys).lines (xs ++ decoded encode parse ys k)
unfolding record_all
record_all-Reads encode parse tr xs [] k on h = subst (Reads parse tr.lines) (sym (append-nil xs)) h
record_all-Reads encode parse tr xs (y ∷ ys) ((c, line, z, e, p, _), k) on h =
    let next = record_entry encode tr y.event y.result y.snapshot_id y.timestamp in
    let r = recorded_lines encode parse tr y z xs c line on e p h in
    subst (Reads parse (record_all encode next ys).lines)
      (append_assoc xs (z ∷ []) (decoded encode parse ys k))
      (record_all-Reads encode parse next (xs ++ z ∷ []) ys k r.0 r.1)

-- What a trace recorder writes to a fresh file, replay reads back: entries that are the recorded ones
-- in order but for what JSON does not carry, the raw payload of a result and the errors of its rules;
-- and the comparison with them, of whatever new results, is the comparison with the recorded ones.
-- Taken for granted of encoding/json: each of the recorded entries has a line, which is not empty and
-- is decoded as an entry with all that JSON carries. No line is longer than the scanner's buffer.
pub load_traces-record_all :
    (encode : TraceEntry → Option Str) (parse : Str → Option TraceEntry) (entries : List TraceEntry)
    → All (IsCodec encode parse) entries
    → (tr : TraceRecorder) × (loaded : List TraceEntry) × (new_trace_recorder true (some [])
        ≡ some tr)
      × (load_traces parse (some (record_all encode tr entries).lines) true ≡ some loaded)
      × (map carried loaded ≡ map carried entries)
      × ((new : StrMap Result) → diff_against_trace loaded new ≡ diff_against_trace entries new)
unfolding load_traces new_trace_recorder Reads parse_lines
load_traces-record_all encode parse entries k = (
  fresh,
  loaded,
  refl,
  ap (λ o. elim o [ none ↦ none | some xs ↦ (if true then some xs else none) ]) read,
  same,
  λ new.
      sym (diff_against_trace-carried loaded new)
      ∙ ap (λ xs. diff_against_trace xs new) same
      ∙ diff_against_trace-carried entries new,
)
  where
    fresh : TraceRecorder
    fresh = record { enabled = true; lines = [] }

    loaded : List TraceEntry
    loaded = decoded encode parse entries k

    same : map carried loaded ≡ map carried entries
    same = map-carried-decoded encode parse entries k

    lines : List Str
    lines = (record_all encode fresh entries).lines

    read : parse_lines parse lines [] ≡ some loaded
    read =
        ap (λ l. parse_lines parse l []) (sym (append-nil lines))
        ∙ record_all-Reads encode parse fresh [] entries k refl
            (λ more before. ap (parse_lines parse more) (sym (append-nil before))) [] []
