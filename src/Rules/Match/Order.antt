-- ===== src/Rules/Match/Order.antt =====
-- The order operators of rules/match.go on numbers.
use fruitfly.Base.{
  if◌then◌else◌, Str, str, str_eq, ℕ, ◌+◌, ◌≡◌, refl, Bool, false, not, some, List, arith,
}
use fruitfly.Types.{number, Event}
use fruitfly.Rules.Match.{Predicate, resolve_path, eval, eval_resolved, eval_op}
use fruitfly.Rules.Match.Float.{is_nan, float_lt, float_le, float_eq}

-- The clause [path, op, w] for a number w.
abbrev pub number_clause : List Str → ℕ → Str → Predicate
number_clause path w op = record { path = path; op = op; value = number w }

abbrev count_true : Bool → Bool → Bool → ℕ
count_true a b c = (if a then 1 else 0) + (if b then 1 else 0) + (if c then 1 else 0)

-- What the operators promise of each other, given which of them hold.
abbrev pub IsOrdered : (Str → Bool) → Type 0
IsOrdered holds =
    (count_true (holds (str "<")) (holds (str "==")) (holds (str ">")) ≡ 1)
    × (holds (str "<=") ≡ not (holds (str ">")))
    × (holds (str ">=") ≡ not (holds (str "<")))
    × (holds (str "!=") ≡ not (holds (str "==")))

float_trichotomy :
    (x w : ℕ)
    → is_nan x ≡ false
    → is_nan w ≡ false
    → count_true (float_lt x w) (float_eq x w) (float_lt w x) ≡ 1
unfolding float_lt float_eq
float_trichotomy x w hx hw = rw (hx, hw) (ground arith)

float_le-not : (x w : ℕ) → is_nan x ≡ false → is_nan w ≡ false → float_le x w ≡ not (float_lt w x)
unfolding float_lt float_le
float_le-not x w hx hw = rw (hx, hw) (ground arith)

eval_op-IsOrdered :
    (x w : ℕ)
    → is_nan x ≡ false
    → is_nan w ≡ false
    → IsOrdered (λ op. eval_op op (number x) (number w))
unfolding eval_op str_eq
eval_op-IsOrdered x w hx hw =
    (float_trichotomy x w hx hw, float_le-not x w hx hw, float_le-not w x hw hx, refl)

eval-resolved :
    (e : Event) (path : List Str) (x w : ℕ)
    → resolve_path e path ≡ some (number x)
    → IsOrdered (λ op. eval_op op (number x) (number w))
    → IsOrdered (λ op. eval (number_clause path w op) e)
unfolding eval eval_resolved str_eq
eval-resolved e path x w h o = rw h o

-- Where the path of a clause leads to a number that is no NaN and the constant is one, exactly one of
-- the operators <, == and > makes the clause hold, <= holds where > does not, >= where < does not,
-- and != where == does not.
pub eval-IsOrdered :
    (e : Event) (path : List Str) (x w : ℕ)
    → resolve_path e path ≡ some (number x)
    → is_nan x ≡ false
    → is_nan w ≡ false
    → IsOrdered (λ op. eval (number_clause path w op) e)
eval-IsOrdered e path x w h hx hw = eval-resolved e path x w h (eval_op-IsOrdered x w hx hw)
