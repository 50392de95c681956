-- ===== src/Executor/Pool.antt =====
-- executor/pool.go: what a worker does with one event. The worker with its thread, caches, clock and
-- the statistics of the rules is an abstract state; the Starlark interpreter, the event's context and
-- the texts of errors are the record `Runtime` over it.
use fruitfly.Base.{
  ltb, leb, ◌==◌, if◌then◌else◌, leb→le, le→leb, ltb→lt, ==_iff, &&-true, Bool-cases, Option-cases,
  if_elim, is_some, length, get_or, set, replicate, take, drop, All, In, select, count_if,
  length-append, length-set, All-append, All-In, In-append_left, In-append_right, In-append,
  select-true, select-false, select-append, length-select-le, Str, str, str_eq, str_eq→eq,
  str_eq_refl, str_eq_iff, has_prefix, ℤ, pos, negsuc, pos_part, neg_part, ◌≤ℤ◌, ◌<ℤ◌, ltb_ℤ, leb_ℤ,
  eq_ℤ, eq_ℤ→eq, ≤ℤ_antisymm, StrMap, lookup, insert, lookup-insert, ℕ, zero, suc, ◌+◌, ◌-◌, ◌*◌,
  ◌/◌, ◌%◌, ◌^◌, ◌≤◌, ◌<◌, ◌≡◌, refl, sym, ap, ◌∙◌, subst, ◌≢◌, ◌↔◌, ◌⊎◌, inl, inr, Bool, true,
  false, ◌&&◌, ◌||◌, not, Option, none, some, List, [], ◌∷◌, ◌++◌, map, arith,
}
use fruitfly.Types.{Event, Verdict, approve, RuleResult, Result}
use fruitfly.Starlark.{Value}
use fruitfly.Rules.Match.{prefilter_match}
use fruitfly.Rules.Snapshot.{Rule, Snapshot, rules_for_event}
use fruitfly.Executor.Verdict.{
  VerdictError, Interpreted, ok, err, interpret_verdict, resolve_verdict,
}
pub mod Outcome

-- starlark.Call: a value, an error (with the flag of OnMaxSteps), or a Go panic.
pub data CallReply : Type 0 where
  returned : Value → CallReply
  raised : Bool → CallReply
  panicked : CallReply

-- What evalRule and processEvent put into an error.
pub data Failure : Type 0 where
  context_error : Str → Failure
  step_budget evaluation panic : Failure
  bad_verdict : VerdictError → Failure

pub record Runtime (S : Type 0) : Type 0 where
  -- w.curEntity = event.EntityID
  pub enter_event : Event → S → S
  -- eventCtx.Err()
  pub ctx_err : S → Option Str
  pub call : Rule → Event → S → S × CallReply
  pub count_prefiltered : Rule → S → S
  -- rule.Stats.Observe and WarnIfSlow
  pub observe_stats : Rule → S → S
  -- clear(w.memo)
  pub clear_memo : S → S
  pub describe : Str → Failure → Str
  pub latency : S → ℕ
  pub now : S → ℕ

pub record Tally : Type 0 where
  pub triggered : List RuleResult
  pub failed : List RuleResult

module _ {S : Type 0} (r : Runtime S) where
  unfoldable pub failure : Rule → Failure → RuleResult
  failure rule f = record {
    rule_id = rule.rule_id;
    priority = rule.priority;
    verdict = [];
    reason = [];
    err = some (r.describe rule.rule_id f);
  }

  unfoldable pub interpreted : Rule → Interpreted → RuleResult
  unfolding failure
  interpreted rule (ok verdict reason) = record {
    rule_id = rule.rule_id;
    priority = rule.priority;
    verdict = verdict;
    reason = reason;
    err = none;
  }
  interpreted rule (err e) = failure rule (bad_verdict e)

  -- The switch over the cause of an evaluation error.
  raised_failure : Option Str → Bool → Failure
  raised_failure (some e) steps_exceeded = context_error e
  raised_failure none steps_exceeded = if steps_exceeded then step_budget else evaluation

  unfoldable pub after_call : Rule → S × CallReply → S × RuleResult
  unfolding interpreted raised_failure
  after_call rule (s, returned v) = (s, interpreted rule (interpret_verdict v))
  after_call rule (s, raised steps_exceeded) =
      (s, failure rule (raised_failure (r.ctx_err s) steps_exceeded))
  after_call rule (s, panicked) = (s, failure rule panic)

  unfoldable pub eval_rule : Rule → Event → S → S × RuleResult
  unfolding after_call
  eval_rule rule e s = after_call rule (r.call rule e s)

  -- A verdict of "" without an error goes into neither list.
  unfoldable pub tally : RuleResult → Option Str → Tally → Tally
  tally rr (some message) t = record t { failed = t.failed ++ rr ∷ [] }
  tally rr none t =
      if str_eq rr.verdict [] then t else record t { triggered = t.triggered ++ rr ∷ [] }

  unfoldable pub after_eval : Rule → Tally → S × RuleResult → S × Tally
  unfolding tally
  after_eval rule t (s, rr) = (r.observe_stats rule s, tally rr rr.err t)

  -- A rule whose prefilter passes: it fails without running once the event's time is up.
  unfoldable pub admitted : Rule → Event → S → Tally → Option Str → S × Tally
  unfolding failure after_eval eval_rule
  admitted rule e s t (some message) =
      (s, record t { failed = t.failed ++ failure rule (context_error message) ∷ [] })
  admitted rule e s t none = after_eval rule t (eval_rule rule e s)

  unfoldable pub one_rule : Rule → Event → S → Tally → S × Tally
  unfolding admitted
  one_rule rule e s t =
      if not (prefilter_match rule.clauses e)
      then (r.count_prefiltered rule s, t)
      else admitted rule e s t (r.ctx_err s)

  -- The loop over the matched rules.
  unfoldable pub all_rules : List Rule → Event → S → Tally → S × Tally
  unfolding one_rule
  all_rules [] e s t = (s, t)
  all_rules (rule ∷ rules) e s t = let (s', t') = one_rule rule e s t in all_rules rules e s' t'

  unfoldable pub make_result : Event → S → Tally → Result
  make_result e s t = record {
    event_id = e.event_id;
    event_type = e.event_type;
    final_verdict = resolve_verdict t.triggered;
    triggered_rules = t.triggered;
    failed_rules = t.failed;
    payload = e.payload;
    raw_payload = e.raw_json;
    latency_us = r.latency s;
    processed_at = r.now s;
  }

  unfoldable pub evaluated : Snapshot → Event → S → S × Tally
  unfolding all_rules
  evaluated snap e s =
      all_rules (rules_for_event snap e.event_type) e (r.enter_event e s)
        (record { triggered = []; failed = [] })

  -- Without a snapshot the event is approved.
  unfoldable pub process_event : Option Snapshot → Event → S → S × Result
  unfolding make_result evaluated
  process_event none e s = (
    r.clear_memo s,
    record {
      event_id = e.event_id;
      event_type = e.event_type;
      final_verdict = approve;
      triggered_rules = [];
      failed_rules = [];
      payload = e.payload;
      raw_payload = e.raw_json;
      latency_us = r.latency s;
      processed_at = r.now s;
    },
  )
  process_event (some snap) e s =
      let (s', t) = evaluated snap e s in (r.clear_memo s', make_result e s' t)
