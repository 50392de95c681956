-- ===== src/Tests/Verdicts.antt =====
-- Runs of executor/verdict.go and executor/pool.go.
use fruitfly.Base.{
  ◌⊎◌, if◌then◌else◌, length, All, In, count_if, Str, str, str_eq, ℤ, pos, ℕ, suc, ◌+◌, ◌≡◌, refl,
  ◌↔◌, inl, inr, true, none, some, [], ◌∷◌,
}
use fruitfly.Types.{approve, end, Event, Verdict, block, review, verdict_weight, RuleResult, Result}
use fruitfly.Rules.Match.{prefilter_match}
use fruitfly.Starlark.{attr_of, Value, string, struct, no_attrs, attr}
use fruitfly.Executor.Verdict.{
  resolve_verdict, resolve_loop, valid_verdict, interpret_verdict, ok, missing_reason, err,
}
use fruitfly.Executor.Verdict.Resolution.{
  resolve_verdict-order, IsVerdictStruct, interpret_verdict_iff,
}
use fruitfly.Rules.Snapshot.{Rule, Snapshot, rules_for_event}
use fruitfly.Executor.Pool.{Runtime, CallReply, returned, panicked, process_event}
use fruitfly.Executor.Pool.Outcome.{is_named, runs, IsTriggered, IsFailed, process_event-Accounted}

abbrev ruled : Str → ℤ → Verdict → RuleResult
ruled id priority v = record {
  rule_id = id;
  priority = priority;
  verdict = v;
  reason = [];
  err = none;
}

abbrev low_block : RuleResult
low_block = ruled (str "a") (pos 1) block

abbrev high_review : RuleResult
high_review = ruled (str "b") (pos 5) review

highest_wins : resolve_verdict (low_block ∷ high_review ∷ []) ≡ review
unfolding resolve_verdict resolve_loop verdict_weight str_eq
highest_wins = refl

both-valid :
    (rr : RuleResult) → In rr (low_block ∷ high_review ∷ []) → valid_verdict rr.verdict ≡ true
unfolding valid_verdict str_eq
both-valid rr (inl e) = rw e refl
both-valid rr (inr (inl e)) = rw e refl
both-valid rr (inr (inr x)) = absurd x

swapped : (rr : RuleResult) (x y : RuleResult) → In rr (x ∷ y ∷ []) → In rr (y ∷ x ∷ [])
swapped rr x y (inl e) = inr (inl e)
swapped rr x y (inr (inl e)) = inl e
swapped rr x y (inr (inr z)) = absurd z

resolve_verdict-order_example :
    resolve_verdict (low_block ∷ high_review ∷ []) ≡ resolve_verdict (high_review ∷ low_block ∷ [])
resolve_verdict-order_example =
    resolve_verdict-order (low_block ∷ high_review ∷ []) (high_review ∷ low_block ∷ []) both-valid
      (λ rr. (swapped rr low_block high_review, swapped rr high_review low_block))

abbrev blocking : Value
blocking =
    struct (attr (str "type") (string block) (attr (str "reason") (string (str "spam")) no_attrs))

interpret_verdict_iff_example : (interpret_verdict blocking ≡ ok block (str "spam")) ↔ (
    ((block ≡ approve) ⊎ ((block ≡ block) ⊎ (block ≡ review)))
    × IsVerdictStruct blocking block (str "spam"))
interpret_verdict_iff_example = interpret_verdict_iff blocking block (str "spam")

no_reason :
    interpret_verdict (struct (attr (str "type") (string block) no_attrs)) ≡ err missing_reason
unfolding interpret_verdict str_eq attr_of
no_reason = refl

-- An interpreter that counts its calls: the rule "a" blocks and every other rule panics.
abbrev reply_of : Rule → CallReply
reply_of rule = if str_eq rule.rule_id (str "a") then returned blocking else panicked

abbrev pub counting : Runtime ℕ
counting = record {
  enter_event = λ e s. s;
  ctx_err = λ s. none;
  call = λ rule e s. (suc s, reply_of rule);
  count_prefiltered = λ rule s. s;
  observe_stats = λ rule s. s;
  clear_memo = λ s. s;
  describe = λ id f. id;
  latency = λ s. s;
  now = λ s. s;
}

abbrev rule_of : Str → Rule
rule_of id = record { rule_id = id; event_type = str "*"; priority = pos 1; clauses = [] }

abbrev two_rules : Snapshot
two_rules = record {
  id = [];
  rules = rule_of (str "a") ∷ rule_of (str "b") ∷ [];
  by_type = none;
  wildcard = [];
}

abbrev an_event : Event
an_event = record {
  event_id = str "e1";
  event_type = str "login";
  entity_id = str "u1";
  timestamp = pos 0;
  payload = end;
  raw_json = [];
}

abbrev outcome : Result
outcome = (process_event counting (some two_rules) an_event 0).1

process_event-Accounted_example :
    ((k : Str)
      → count_if (is_named k) outcome.triggered_rules + count_if (is_named k) outcome.failed_rules
        ≡ count_if (runs k an_event) (rules_for_event two_rules (str "login")))
    × (All IsTriggered outcome.triggered_rules × All IsFailed outcome.failed_rules)
    × (outcome.final_verdict ≡ resolve_verdict outcome.triggered_rules)
    × (valid_verdict outcome.final_verdict ≡ true)
process_event-Accounted_example = process_event-Accounted counting two_rules an_event 0

one_blocks_one_fails : (outcome.final_verdict ≡ block) × (length outcome.failed_rules ≡ 1)
unfolding process_event rules_for_event str_eq resolve_verdict prefilter_match interpret_verdict
    attr_of
one_blocks_one_fails = (refl, refl)
