-- ===== src/Executor/Verdict.antt =====
-- executor/verdict.go: the verdict of an event from those of its rules, and of a rule from the value
-- that its `evaluate` returned.
use fruitfly.Base.{
  ltb, leb, ◌==◌, if◌then◌else◌, leb→le, le→leb, ltb→lt, ==_iff, &&-true, Bool-cases, Option-cases,
  is_some, length, get_or, set, replicate, All, In, select, count_if, length-append, length-set,
  All-append, All-In, In-append_left, In-append_right, In-append, select-append, length-select-le,
  Str, str, str_eq, str_eq→eq, str_eq_refl, str_eq_iff, has_prefix, ℤ, pos, negsuc, pos_part,
  neg_part, ◌≤ℤ◌, ◌<ℤ◌, ltb_ℤ, leb_ℤ, eq_ℤ, eq_ℤ→eq, ≤ℤ_antisymm, StrMap, lookup, insert,
  lookup-insert, ℕ, zero, suc, ◌+◌, ◌-◌, ◌*◌, ◌/◌, ◌%◌, ◌^◌, ◌≤◌, ◌<◌, ◌≡◌, refl, sym, ap, ◌∙◌,
  subst, ◌≢◌, ◌↔◌, ◌⊎◌, inl, inr, Bool, true, false, ◌&&◌, ◌||◌, not, Option, none, some, List, [],
  ◌∷◌, ◌++◌, map, arith,
}
use fruitfly.Types.{Verdict, approve, block, review, verdict_weight, RuleResult}
use fruitfly.Starlark.{Value, string, struct, attr_of}
pub mod Resolution

-- The test of the loop in resolveVerdict.
abbrev pub beats : RuleResult → Verdict → ℤ → Bool
beats rr best best_priority =
    ltb_ℤ best_priority rr.priority
    || (eq_ℤ rr.priority best_priority && ltb (verdict_weight best) (verdict_weight rr.verdict))

unfoldable pub resolve_loop : Verdict → ℤ → List RuleResult → Verdict
resolve_loop best best_priority [] = best
resolve_loop best best_priority (rr ∷ rest) =
    let better = beats rr best best_priority in
    resolve_loop (if better then rr.verdict else best)
      (if better then rr.priority else best_priority) rest

unfoldable pub resolve_verdict : List RuleResult → Verdict
unfolding resolve_loop
resolve_verdict [] = approve
resolve_verdict (first ∷ rest) = resolve_loop first.verdict first.priority rest

pub data VerdictError : Type 0 where
  not_a_struct missing_type type_not_string missing_reason reason_not_string : VerdictError
  invalid_type : Str → VerdictError

pub data Interpreted : Type 0 where
  ok : Verdict → Str → Interpreted
  err : VerdictError → Interpreted

unfoldable pub valid_verdict : Verdict → Bool
valid_verdict v = str_eq v approve || str_eq v block || str_eq v review

check_type : Str → Str → Interpreted
unfolding valid_verdict
check_type type_str reason_str =
    if valid_verdict type_str then ok type_str reason_str else err (invalid_type type_str)

with_reason : Str → Option Value → Interpreted
unfolding check_type
with_reason type_str none = err missing_reason
with_reason type_str (some (string reason_str)) = check_type type_str reason_str
with_reason type_str (some _) = err reason_not_string

with_type : Option Value → Option Value → Interpreted
unfolding with_reason
with_type none reason = err missing_type
with_type (some (string type_str)) reason = with_reason type_str reason
with_type (some _) reason = err type_not_string

unfoldable pub interpret_verdict : Value → Interpreted
unfolding with_type
interpret_verdict (struct s) = with_type (attr_of s (str "type")) (attr_of s (str "reason"))
interpret_verdict _ = err not_a_struct
