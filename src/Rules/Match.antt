-- ===== src/Rules/Match.antt =====
-- rules/match.go, the evaluation of the tier-1 prefilter. `any` is Json: float64 (bit patterns),
-- string, bool, and []any for the constants of `in`; `null` is nil.
use fruitfly.Base.{
  ltb, leb, ◌==◌, if◌then◌else◌, leb→le, le→leb, ltb→lt, ==_iff, &&-true, Bool-cases, Option-cases,
  if_elim, is_some, length, get_or, set, replicate, take, drop, All, In, select, count_if,
  length-append, length-set, All-append, All-In, In-append_left, In-append_right, In-append,
  select-true, select-false, select-append, length-select-le, Str, str, str_eq, str_eq→eq,
  str_eq_refl, str_eq_iff, has_prefix, ℤ, pos, negsuc, pos_part, neg_part, ◌≤ℤ◌, ◌<ℤ◌, ltb_ℤ, leb_ℤ,
  eq_ℤ, eq_ℤ→eq, ≤ℤ_antisymm, StrMap, lookup, insert, lookup-insert, ℕ, zero, suc, ◌+◌, ◌-◌, ◌*◌,
  ◌/◌, ◌%◌, ◌^◌, ◌≤◌, ◌<◌, ◌≡◌, refl, sym, ap, ◌∙◌, subst, ◌≢◌, ◌↔◌, ◌⊎◌, inl, inr, Bool, true,
  false, ◌&&◌, ◌||◌, not, Option, none, some, List, [], ◌∷◌, ◌++◌, map, arith,
}
use fruitfly.Types.{
  Json, null, boolean, number, int64, text, array, object, Items, nil, cons, Fields, get, Event,
}
pub mod Float
pub mod Clause
pub mod Order
use fruitfly.Rules.Match.Float.{float_of, float_lt, float_le, float_eq}

pub record Predicate : Type 0 where
  pub path : List Str
  pub op : Str
  pub value : Json

-- The loop of resolvePath over the segments after the first.
unfoldable pub descend : Json → List Str → Option Json
descend cur [] = some cur
descend (object m) (seg ∷ path) = elim (get m seg) [ none ↦ none | some v ↦ descend v path ]
descend _ (seg ∷ path) = none

abbrev pub unix_float : Event → Json
unix_float e = number (float_of e.timestamp)

resolve_from : Event → Str → List Str → Option Json
unfolding descend
resolve_from e first rest =
    if str_eq first (str "payload")
    then descend (object e.payload) rest
    else if str_eq first (str "event_type")
    then descend (text e.event_type) rest
    else if str_eq first (str "event_id")
    then descend (text e.event_id) rest
    else if str_eq first (str "entity_id")
    then descend (text e.entity_id) rest
    else if str_eq first (str "timestamp")
    then descend (unix_float e) rest
    else none

-- path[0] panics for an empty path, which lowerMatch never makes.
unfoldable pub resolve_path : Event → List Str → Option Json
unfolding resolve_from
resolve_path e [] = none
resolve_path e (first ∷ rest) = resolve_from e first rest

-- toFloat
unfoldable pub to_float : Json → Option ℕ
to_float (number n) = some n
to_float (int64 i) = some (float_of i)
to_float _ = none

both_floats : Option ℕ → Option ℕ → Option (ℕ × ℕ)
both_floats (some f) (some w) = some (f, w)
both_floats _ _ = none

unfoldable pub comparable2 : Json → Json → Option (ℕ × ℕ)
unfolding both_floats to_float
comparable2 field want = both_floats (to_float field) (to_float want)

equal_texts : Str → Json → Bool
equal_texts f (text w) = str_eq f w
equal_texts f _ = false

same_bool : Bool → Bool → Bool
same_bool true b = b
same_bool false b = not b

equal_bools : Bool → Json → Bool
unfolding same_bool
equal_bools f (boolean w) = same_bool f w
equal_bools f _ = false

-- The type switch of scalarEqual after the numbers.
equal_others : Json → Json → Bool
unfolding equal_texts equal_bools
equal_others (text f) want = equal_texts f want
equal_others (boolean f) want = equal_bools f want
equal_others _ want = false

unfoldable pub scalar_equal : Json → Json → Bool
unfolding comparable2 equal_others
scalar_equal field want = elim (comparable2 field want) [
  | some (f, w) ↦ float_eq f w
  | none ↦ equal_others field want
]

is_text : Json → Bool
is_text (text s) = true
is_text _ = false

is_boolean : Json → Bool
is_boolean (boolean b) = true
is_boolean _ = false

comparable_others : Json → Json → Bool
unfolding is_text is_boolean
comparable_others (text f) want = is_text want
comparable_others (boolean f) want = is_boolean want
comparable_others _ want = false

unfoldable pub scalar_comparable : Json → Json → Bool
unfolding comparable2 comparable_others
scalar_comparable field want = elim (comparable2 field want) [
  | some p ↦ true
  | none ↦ comparable_others field want
]

-- The loop of the case "in".
unfoldable pub equal_any : Json → Items → Bool
equal_any field nil = false
equal_any field (cons item items) = scalar_equal field item || equal_any field items

eval_in : Json → Json → Bool
unfolding equal_any
eval_in field (array items) = equal_any field items
eval_in field _ = false

eval_prefix : Json → Json → Bool
eval_prefix (text f) (text w) = has_prefix f w
eval_prefix _ _ = false

compare_floats : Str → ℕ → ℕ → Bool
compare_floats op f w =
    if str_eq op (str "<")
    then float_lt f w
    else if str_eq op (str "<=")
    then float_le f w
    else if str_eq op (str ">")
    then float_lt w f
    else float_le w f

eval_order : Str → Json → Json → Bool
unfolding comparable2 compare_floats
eval_order op field want = elim (comparable2 field want) [
  | some (f, w) ↦ compare_floats op f w
  | none ↦ false
]

abbrev pub is_order : Str → Bool
is_order op =
    str_eq op (str "<") || str_eq op (str "<=") || str_eq op (str ">") || str_eq op (str ">=")

-- The switch of eval.
unfoldable pub eval_op : Str → Json → Json → Bool
unfolding eval_order eval_in eval_prefix scalar_equal scalar_comparable
eval_op op field want =
    if str_eq op (str "==")
    then scalar_equal field want
    else if str_eq op (str "!=")
    then scalar_comparable field want && not (scalar_equal field want)
    else if is_order op
    then eval_order op field want
    else if str_eq op (str "in")
    then eval_in field want
    else if str_eq op (str "prefix")
    then eval_prefix field want
    else false

unfoldable pub eval_resolved : Predicate → Option Json → Bool
unfolding eval_op
eval_resolved p none = false
eval_resolved p (some field) = eval_op p.op field p.value

unfoldable pub eval : Predicate → Event → Bool
unfolding resolve_path eval_resolved
eval p e =
    let field = resolve_path e p.path in
    if str_eq p.op (str "exists") then is_some field else eval_resolved p field

-- PrefilterMatch of a rule with these clauses.
unfoldable pub prefilter_match : List Predicate → Event → Bool
unfolding eval
prefilter_match [] e = true
prefilter_match (p ∷ ps) e = if not (eval p e) then false else prefilter_match ps e
