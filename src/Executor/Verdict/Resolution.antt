-- ===== src/Executor/Verdict/Resolution.antt =====
-- What resolveVerdict and interpretVerdict (executor/verdict.go) decide.
use fruitfly.Base.{
  Bool-cases, In, Str, str, str_eq_iff, ◌<ℤ◌, eq_ℤ→eq, ≤ℤ_antisymm, ◌≤◌, ◌≡◌, refl, sym, ◌∙◌, ◌↔◌,
  ◌⊎◌, inl, inr, true, false, Option, none, some, List, [], ◌∷◌, arith,
}
use fruitfly.Types.{Verdict, approve, block, review, verdict_weight, RuleResult}
use fruitfly.Starlark.{Value, Attrs, struct, string, attr_of}
use fruitfly.Executor.Verdict.{
  resolve_verdict, resolve_loop, beats, valid_verdict, interpret_verdict, ok, check_type,
  with_reason, with_type,
}

-- `w` is no better than `v`: a lower priority, or the same and no heavier a verdict.
abbrev pub Dominates : RuleResult → RuleResult → Type 0
Dominates v w =
    (w.priority <ℤ v.priority)
    ⊎ ((w.priority ≡ v.priority) × (verdict_weight w.verdict ≤ verdict_weight v.verdict))

abbrev pub IsBest : List RuleResult → Verdict → Type 0
IsBest triggered v =
    (rr : RuleResult) × In rr triggered
    × (rr.verdict ≡ v)
    × ((other : RuleResult) → In other triggered → Dominates rr other)

Dominates-refl : (v : RuleResult) → Dominates v v
Dominates-refl v = inr (refl, omega arith)

Dominates-trans : (u v w : RuleResult) → Dominates u v → Dominates v w → Dominates u w
Dominates-trans u v w h k = ground arith

beats-Dominates : (rr b : RuleResult) → beats rr b.verdict b.priority ≡ true → Dominates rr b
beats-Dominates rr b h = ground (arith, eq_ℤ→eq rr.priority b.priority)

not_beats-Dominates : (rr b : RuleResult) → beats rr b.verdict b.priority ≡ false → Dominates b rr
not_beats-Dominates rr b h = ground (arith, ≤ℤ_antisymm rr.priority b.priority)

resolve_loop-IsBest :
    (b : RuleResult) (rest : List RuleResult)
    → IsBest (b ∷ rest) (resolve_loop b.verdict b.priority rest)
unfolding resolve_loop
resolve_loop-IsBest b [] =
    (b, inl refl, refl, λ o i. elim i [ inl e ↦ rw e (Dominates-refl b) | inr x ↦ absurd x ])
resolve_loop-IsBest b (r ∷ rest) = elim (Bool-cases (beats r b.verdict b.priority)) [
  | inl e ↦ rw e (replaced (resolve_loop-IsBest r rest) (beats-Dominates r b e))
  | inr e ↦ rw e (kept (resolve_loop-IsBest b rest) (not_beats-Dominates r b e))
]
  where
    replaced : {v : Verdict} → IsBest (r ∷ rest) v → Dominates r b → IsBest (b ∷ r ∷ rest) v
    replaced (rr, i, e, all) h = (
      rr,
      inr i,
      e,
      λ o j. elim j [
        | inl p ↦ rw p (Dominates-trans rr r b (all r (inl refl)) h)
        | inr k ↦ all o k
      ],
    )

    kept : {v : Verdict} → IsBest (b ∷ rest) v → Dominates b r → IsBest (b ∷ r ∷ rest) v
    kept (rr, i, e, all) h = (
      rr,
      elim i [ inl p ↦ inl p | inr k ↦ inr (inr k) ],
      e,
      λ o j. elim j [
        | inl p ↦ all o (inl p)
        | inr (inl p) ↦ rw p (Dominates-trans rr b r (all b (inl refl)) h)
        | inr (inr k) ↦ all o (inr k)
      ],
    )

-- With at least one triggered rule the resolved verdict is the verdict of a triggered rule that no
-- triggered rule exceeds: each has a lower priority, or the same priority and no heavier a verdict.
pub resolve_verdict-IsBest :
    (first : RuleResult) (rest : List RuleResult)
    → IsBest (first ∷ rest) (resolve_verdict (first ∷ rest))
unfolding resolve_verdict
resolve_verdict-IsBest first rest = resolve_loop-IsBest first rest

verdict_weight-injective :
    (v w : Verdict)
    → valid_verdict v ≡ true
    → valid_verdict w ≡ true
    → verdict_weight v ≡ verdict_weight w
    → v ≡ w
unfolding valid_verdict verdict_weight
verdict_weight-injective v w hv hw e = ground (
  arith,
  str_eq_iff v approve,
  str_eq_iff v block,
  str_eq_iff v review,
  str_eq_iff w approve,
  str_eq_iff w block,
  str_eq_iff w review,
)

IsBest-unique :
    (xs ys : List RuleResult) (v w : Verdict)
    → ((rr : RuleResult) → In rr xs → valid_verdict rr.verdict ≡ true)
    → ((rr : RuleResult) → In rr xs ↔ In rr ys)
    → IsBest xs v
    → IsBest ys w
    → v ≡ w
IsBest-unique xs ys v w valid same (a, ia, ea, da) (b, ib, eb, db) =
    sym ea
    ∙ verdict_weight-injective a.verdict b.verdict (valid a ia) (valid b ((same b).1 ib))
        (ground (arith, da b ((same b).1 ib), db a ((same a).0 ia)))
    ∙ eb

-- The order of the triggered rules does not matter: two lists with the same members, all with a
-- verdict of approve, block or review, resolve to the same verdict.
pub resolve_verdict-order :
    (xs ys : List RuleResult)
    → ((rr : RuleResult) → In rr xs → valid_verdict rr.verdict ≡ true)
    → ((rr : RuleResult) → In rr xs ↔ In rr ys)
    → resolve_verdict xs ≡ resolve_verdict ys
resolve_verdict-order [] [] valid same = refl
resolve_verdict-order [] (y ∷ ys) valid same = absurd ((same y).1 (inl refl))
resolve_verdict-order (x ∷ xs) [] valid same = absurd ((same x).0 (inl refl))
resolve_verdict-order (x ∷ xs) (y ∷ ys) valid same =
    IsBest-unique (x ∷ xs) (y ∷ ys) _ _ valid same (resolve_verdict-IsBest x xs)
      (resolve_verdict-IsBest y ys)

-- The value is a struct with the two string fields of a verdict.
abbrev pub IsVerdictStruct : Value → Str → Str → Type 0
IsVerdictStruct v verdict reason =
    (s : Attrs) × (v ≡ struct s)
    × (attr_of s (str "type") ≡ some (string verdict))
    × (attr_of s (str "reason") ≡ some (string reason))

check_type_ok :
    (t r verdict reason : Str)
    → check_type t r ≡ ok verdict reason
    → (t ≡ verdict) × (r ≡ reason) × (valid_verdict verdict ≡ true)
unfolding check_type
check_type_ok t r verdict reason h = elim (Bool-cases (valid_verdict t)) [
  | inl e ↦ ground (arith, e)
  | inr e ↦ ground (arith, e)
]

with_reason_ok :
    (t verdict reason : Str) (o : Option Value)
    → with_reason t o ≡ ok verdict reason
    → (t ≡ verdict) × (o ≡ some (string reason)) × (valid_verdict verdict ≡ true)
unfolding with_reason
with_reason_ok t verdict reason none h = cc
with_reason_ok t verdict reason (some (string r)) h =
    let (p, q, k) = check_type_ok t r verdict reason h in (p, rw q, k)
with_reason_ok t verdict reason (some _) h = cc

with_type_ok :
    (verdict reason : Str) (o q : Option Value)
    → with_type o q ≡ ok verdict reason
    → (o ≡ some (string verdict)) × (q ≡ some (string reason)) × (valid_verdict verdict ≡ true)
unfolding with_type
with_type_ok verdict reason none q h = cc
with_type_ok verdict reason (some (string t)) q h =
    let (p, r, k) = with_reason_ok t verdict reason q h in (rw p, r, k)
with_type_ok verdict reason (some _) q h = cc

pub interpret_verdict_inversion :
    (v : Value) (verdict reason : Str)
    → interpret_verdict v ≡ ok verdict reason
    → (valid_verdict verdict ≡ true) × IsVerdictStruct v verdict reason
unfolding interpret_verdict
interpret_verdict_inversion (struct s) verdict reason h =
    let (p, q, k) = with_type_ok verdict reason _ _ h in (k, (s, refl, p, q))
interpret_verdict_inversion _ verdict reason h = cc

interpret_verdict_complete :
    (v : Value) (verdict reason : Str)
    → valid_verdict verdict ≡ true
    → IsVerdictStruct v verdict reason
    → interpret_verdict v ≡ ok verdict reason
unfolding interpret_verdict
interpret_verdict_complete v verdict reason k (s, e, p, q) = rw (e, p, q, k)

valid_verdict_iff :
    (v : Str) → (valid_verdict v ≡ true) ↔ ((v ≡ approve) ⊎ ((v ≡ block) ⊎ (v ≡ review)))
unfolding valid_verdict
valid_verdict_iff v =
    (λ h. ground (arith, h, str_eq_iff v approve, str_eq_iff v block, str_eq_iff v review), named)
  where
    named : (v ≡ approve) ⊎ ((v ≡ block) ⊎ (v ≡ review)) → valid_verdict v ≡ true
    named (inl e) = ground (arith, e, str_eq_iff v approve)
    named (inr (inl e)) = ground (arith, e, str_eq_iff v block)
    named (inr (inr e)) = ground (arith, e, str_eq_iff v review)

-- A rule's value is read as a verdict exactly when it is a struct whose `type` is the string
-- approve, block or review and whose `reason` is a string; these two are the verdict and the reason.
pub interpret_verdict_iff :
    (v : Value) (verdict reason : Str)
    → (interpret_verdict v ≡ ok verdict reason) ↔ (
        ((verdict ≡ approve) ⊎ ((verdict ≡ block) ⊎ (verdict ≡ review)))
        × IsVerdictStruct v verdict reason)
interpret_verdict_iff v verdict reason = (
  λ h.
      let (k, s) = interpret_verdict_inversion v verdict reason h in
      ((valid_verdict_iff verdict).0 k, s),
  λ (n, s). interpret_verdict_complete v verdict reason ((valid_verdict_iff verdict).1 n) s,
)
