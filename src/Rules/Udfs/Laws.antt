-- ===== src/Rules/Udfs/Laws.antt =====
-- The verdicts of rules/udfs.go as executor/verdict.go reads them back.
use fruitfly.Base.{Bool-cases, Str, str_eq, ◌≡◌, refl, ◌⊎◌, inl, inr, true, false}
use fruitfly.Starlark.{Value, attr_of}
use fruitfly.Executor.Verdict.{valid_verdict, interpret_verdict, ok}
use fruitfly.Rules.Udfs.{value, error, invalid_verdict, verdict_struct, verdict_builtin}

built :
    (verdict_type reason : Str)
    → valid_verdict verdict_type ≡ true
    → verdict_builtin verdict_type reason ≡ value (verdict_struct verdict_type reason)
unfolding valid_verdict verdict_builtin
built verdict_type reason h = rw h refl

read_back :
    (verdict_type reason : Str)
    → valid_verdict verdict_type ≡ true
    → interpret_verdict (verdict_struct verdict_type reason) ≡ ok verdict_type reason
unfolding interpret_verdict attr_of str_eq
read_back verdict_type reason h = rw h refl

refused :
    (verdict_type reason : Str)
    → valid_verdict verdict_type ≡ false
    → verdict_builtin verdict_type reason ≡ error (invalid_verdict verdict_type)
unfolding valid_verdict verdict_builtin
refused verdict_type reason h = rw h refl

-- What verdict() makes is read back as made: for a type of approve, block or review it gives a value,
-- and interpretVerdict reads that type and reason from it; for any other type it is an error.
pub verdict_builtin-interpret_verdict :
    (verdict_type reason : Str)
    → ((v : Value) × (verdict_builtin verdict_type reason ≡ value v)
        × (interpret_verdict v ≡ ok verdict_type reason))
      ⊎ ((valid_verdict verdict_type ≡ false)
          × (verdict_builtin verdict_type reason ≡ error (invalid_verdict verdict_type)))
verdict_builtin-interpret_verdict verdict_type reason =
    elim (Bool-cases (valid_verdict verdict_type)) [
      | inl h ↦ inl (
        verdict_struct verdict_type reason,
        built verdict_type reason h,
        read_back verdict_type reason h,
      )
      | inr h ↦ inr (h, refused verdict_type reason h)
    ]
