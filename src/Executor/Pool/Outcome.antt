-- ===== src/Executor/Pool/Outcome.antt =====
-- What becomes of the rules of an event in executor/pool.go.
use fruitfly.Base.{
  if◌then◌else◌, Bool-cases, if_elim, is_some, All, In, count_if, All-append, Str, str_eq, ℕ, suc,
  ◌+◌, ◌≡◌, refl, sym, ◌∙◌, subst, ◌⊎◌, inl, inr, Bool, true, false, ◌&&◌, not, Option, none, some,
  List, [], ◌∷◌, ◌++◌, arith,
}
use fruitfly.Types.{Event, Verdict, RuleResult}
use fruitfly.Starlark.{Value}
use fruitfly.Rules.Match.{prefilter_match}
use fruitfly.Rules.Snapshot.{Rule, Snapshot, rules_for_event}
use fruitfly.Executor.Verdict.{
  Interpreted, ok, err, interpret_verdict, valid_verdict, resolve_verdict,
}
use fruitfly.Executor.Verdict.Resolution.{interpret_verdict_inversion, resolve_verdict-IsBest}
use fruitfly.Executor.Pool.{
  context_error, Runtime, CallReply, returned, raised, panicked, Tally, failure, interpreted,
  after_call, eval_rule, tally, after_eval, admitted, one_rule, all_rules, make_result, evaluated,
  process_event,
}

abbrev pub is_named : Str → RuleResult → Bool
is_named k rr = str_eq rr.rule_id k

-- The entries under `k` in both lists.
abbrev pub entries : Str → Tally → ℕ
entries k t = count_if (is_named k) t.triggered + count_if (is_named k) t.failed

-- A rule with the identifier whose prefilter the event passes.
abbrev pub runs : Str → Event → Rule → Bool
runs k e rule = str_eq rule.rule_id k && prefilter_match rule.clauses e

-- A triggered result has a verdict and no error, a failed one has an error.
abbrev pub IsTriggered : RuleResult → Type 0
IsTriggered rr = (valid_verdict rr.verdict ≡ true) × (rr.err ≡ none)

abbrev pub IsFailed : RuleResult → Type 0
IsFailed rr = is_some rr.err ≡ true

abbrev pub IsSorted : Tally → Type 0
IsSorted t = All IsTriggered t.triggered × All IsFailed t.failed

abbrev IsOutcome : RuleResult → Type 0
IsOutcome rr = IsTriggered rr ⊎ IsFailed rr

count_if-snoc :
    {A : Type 0} (p : A → Bool) (xs : List A) (x : A)
    → count_if p (xs ++ x ∷ []) ≡ count_if p xs + (if p x then 1 else 0)
count_if-snoc p [] x = ground arith
count_if-snoc p (y ∷ ys) x = ground (arith, count_if-snoc p ys x)

valid-nonempty : (v : Verdict) → valid_verdict v ≡ true → str_eq v [] ≡ false
unfolding valid_verdict str_eq
valid-nonempty [] h = cc
valid-nonempty (c ∷ v) h = refl

module _ {S : Type 0} (r : Runtime S) where
  interpreted-IsOutcome :
      (rule : Rule) (v : Value) (i : Interpreted)
      → interpret_verdict v ≡ i
      → IsOutcome (interpreted r rule i)
  unfolding interpreted failure
  interpreted-IsOutcome rule v (ok verdict reason) h =
      inl ((interpret_verdict_inversion v verdict reason h).0, refl)
  interpreted-IsOutcome rule v (err e) h = inr refl

  after_call-IsOutcome : (rule : Rule) (c : S × CallReply) → IsOutcome (after_call r rule c).1
  unfolding after_call failure
  after_call-IsOutcome rule (s, returned v) = interpreted-IsOutcome rule v _ refl
  after_call-IsOutcome rule (s, raised b) = inr refl
  after_call-IsOutcome rule (s, panicked) = inr refl

  after_call-rule_id :
      (rule : Rule) (c : S × CallReply) → (after_call r rule c).1.rule_id ≡ rule.rule_id
  unfolding after_call failure interpreted
  after_call-rule_id rule (s, returned v) = named (interpret_verdict v)
    where
      named : (i : Interpreted) → (interpreted r rule i).rule_id ≡ rule.rule_id
      named (ok verdict reason) = refl
      named (err e) = refl
  after_call-rule_id rule (s, raised b) = refl
  after_call-rule_id rule (s, panicked) = refl

  -- One more entry, in the right list.
  abbrev Grows : RuleResult → Tally → Tally → Type 0
  Grows rr t t' =
      ((k : Str) → entries k t' ≡ entries k t + (if is_named k rr then 1 else 0))
      × (IsSorted t → IsSorted t')

  failed-Grows :
      (rr : RuleResult) (t : Tally)
      → IsFailed rr
      → Grows rr t (record t { failed = t.failed ++ rr ∷ [] })
  failed-Grows rr t h = (
    λ k. omega (arith, count_if-snoc (is_named k) t.failed rr),
    λ w. (w.0, All-append IsFailed t.failed (rr ∷ []) w.1 (h, tt)),
  )

  triggered-Grows :
      (rr : RuleResult) (t : Tally)
      → IsTriggered rr
      → Grows rr t (record t { triggered = t.triggered ++ rr ∷ [] })
  triggered-Grows rr t h = (
    λ k. omega (arith, count_if-snoc (is_named k) t.triggered rr),
    λ w. (All-append IsTriggered t.triggered (rr ∷ []) w.0 (h, tt), w.1),
  )

  tally-Grows :
      (rr : RuleResult) (t : Tally) (o : Option Str)
      → rr.err ≡ o
      → IsOutcome rr
      → Grows rr t (tally r rr o t)
  unfolding tally
  tally-Grows rr t (some m) e (inl h) = cc
  tally-Grows rr t (some m) e (inr h) = failed-Grows rr t h
  tally-Grows rr t none e (inl h) =
      if_elim (Grows rr t) (str_eq rr.verdict []) t _ (λ z. cc (valid-nonempty rr.verdict h.0))
        (λ _. triggered-Grows rr t h)
  tally-Grows rr t none e (inr h) = cc (subst (λ o. is_some o ≡ true) e h)

  eval_rule-Grows :
      (rule : Rule) (t : Tally) (c : S × CallReply)
      → (rr : RuleResult) × (rr.rule_id ≡ rule.rule_id)
        × Grows rr t (after_eval r rule t (after_call r rule c)).1
  unfolding after_eval
  eval_rule-Grows rule t c =
      let rr = (after_call r rule c).1 in
      (rr, after_call-rule_id rule c, tally-Grows rr t rr.err refl (after_call-IsOutcome rule c))

  admitted-Grows :
      (rule : Rule) (e : Event) (s : S) (t : Tally) (o : Option Str)
      → (rr : RuleResult) × (rr.rule_id ≡ rule.rule_id) × Grows rr t (admitted r rule e s t o).1
  unfolding admitted eval_rule failure
  admitted-Grows rule e s t (some m) = (
    failure r rule (context_error m),
    refl,
    failed-Grows (failure r rule (context_error m)) t refl,
  )
  admitted-Grows rule e s t none = eval_rule-Grows rule t (r.call rule e s)

  -- What one rule of the loop adds.
  abbrev Adds : Rule → Event → Tally → Tally → Type 0
  Adds rule e t t' =
      ((k : Str) → entries k t' ≡ entries k t + (if runs k e rule then 1 else 0))
      × (IsSorted t → IsSorted t')

  named-Adds :
      (rule : Rule) (e : Event) (t t' : Tally)
      → prefilter_match rule.clauses e ≡ true
      → (rr : RuleResult) × (rr.rule_id ≡ rule.rule_id) × Grows rr t t'
      → Adds rule e t t'
  named-Adds rule e t t' pass (rr, named, (grows, sorted)) =
      (λ k. grows k ∙ same k rr.rule_id named, sorted)
    where
      same :
          (k id : Str)
          → id ≡ rule.rule_id
          → entries k t + (if str_eq id k then 1 else 0)
            ≡ entries k t + (if runs k e rule then 1 else 0)
      same k id e = rw (e, pass) (ground arith)

  one_rule-Adds :
      (rule : Rule) (e : Event) (s : S) (t : Tally) → Adds rule e t (one_rule r rule e s t).1
  unfolding one_rule
  one_rule-Adds rule e s t = elim (Bool-cases (prefilter_match rule.clauses e)) [
    | inl pass ↦
        subst
          (λ b.
            Adds rule e t
              (if not b
                then (r.count_prefiltered rule s, t)
                else admitted r rule e s t (r.ctx_err s)).1)
          (sym pass) (named-Adds rule e t _ pass (admitted-Grows rule e s t (r.ctx_err s)))
    | inr stop ↦
        subst
          (λ b.
            Adds rule e t
              (if not b
                then (r.count_prefiltered rule s, t)
                else admitted r rule e s t (r.ctx_err s)).1)
          (sym stop) (λ k. rw stop (ground arith), λ w. w)
  ]

  all_rules-entries :
      (rules : List Rule) (e : Event) (s : S) (t : Tally)
      → ((k : Str)
          → entries k (all_rules r rules e s t).1 ≡ entries k t + count_if (runs k e) rules)
        × (IsSorted t → IsSorted (all_rules r rules e s t).1)
  unfolding all_rules
  all_rules-entries [] e s t = (λ k. omega arith, λ w. w)
  all_rules-entries (rule ∷ rules) e s t =
      let first = one_rule r rule e s t in
      let one = one_rule-Adds rule e s t in
      let rest = all_rules-entries rules e first.0 first.1 in
      (
        λ k.
            joined k (entries k t) _ _ (runs k e rule) (count_if (runs k e) rules) (one.0 k)
              (rest.0 k),
        λ w. rest.1 (one.1 w),
      )
    where
      joined :
          (k : Str) (a b c : ℕ) (p : Bool) (n : ℕ)
          → b ≡ a + (if p then 1 else 0)
          → c ≡ b + n
          → c ≡ a + (if p then suc n else n)
      joined k a b c p n h g = ground arith

  final-IsValid :
      (l : List RuleResult) → All IsTriggered l → valid_verdict (resolve_verdict l) ≡ true
  unfolding resolve_verdict valid_verdict str_eq
  final-IsValid [] h = refl
  final-IsValid (first ∷ rest) h =
      let (rr, i, e, all) = resolve_verdict-IsBest first rest in
      subst (λ v. valid_verdict v ≡ true) e (All-at (first ∷ rest) rr h i).0
    where
      All-at :
          (xs : List RuleResult) (x : RuleResult) → All IsTriggered xs → In x xs → IsTriggered x
      All-at [] x hs i = absurd i
      All-at (y ∷ ys) x hs (inl e) = rw e hs.0
      All-at (y ∷ ys) x hs (inr i) = All-at ys x hs.1 i

  -- With a snapshot, each rule that the event selects and whose prefilter it passes leaves exactly one
  -- entry under its identifier, in the triggered or in the failed rules, and the other rules leave
  -- none; a triggered entry has one of the three verdicts and no error, a failed one an error; and the
  -- final verdict is resolved from the triggered ones and is one of the three.
  pub process_event-Accounted :
      (snap : Snapshot) (e : Event) (s : S)
      → let result = (process_event r (some snap) e s).1 in
        ((k : Str)
          → count_if (is_named k) result.triggered_rules + count_if (is_named k) result.failed_rules
            ≡ count_if (runs k e) (rules_for_event snap e.event_type))
        × (All IsTriggered result.triggered_rules × All IsFailed result.failed_rules)
        × (result.final_verdict ≡ resolve_verdict result.triggered_rules)
        × (valid_verdict result.final_verdict ≡ true)
  unfolding process_event make_result evaluated
  process_event-Accounted snap e s =
      let rules = rules_for_event snap e.event_type in
      let h =
        all_rules-entries rules e (r.enter_event e s) (record { triggered = []; failed = [] }) in
      let sorted = h.1 (tt, tt) in
      (λ k. omega (arith, h.0 k), sorted, refl, final-IsValid _ sorted.0)
