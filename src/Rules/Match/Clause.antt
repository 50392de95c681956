-- ===== src/Rules/Match/Clause.antt =====
-- lowerMatch of rules/match.go: the `match` global of a rule, validated and lowered into predicates.
use fruitfly.Base.{
  ltb, leb, ◌==◌, if◌then◌else◌, leb→le, le→leb, ltb→lt, ==_iff, &&-true, Bool-cases, Option-cases,
  if_elim, is_some, length, get_or, set, replicate, take, drop, All, In, select, count_if,
  length-append, length-set, All-append, All-In, In-append_left, In-append_right, In-append,
  select-true, select-false, select-append, length-select-le, Str, str, str_eq, str_eq→eq,
  str_eq_refl, str_eq_iff, has_prefix, ℤ, pos, negsuc, pos_part, neg_part, ◌≤ℤ◌, ◌<ℤ◌, ltb_ℤ, leb_ℤ,
  eq_ℤ, eq_ℤ→eq, ≤ℤ_antisymm, StrMap, lookup, insert, lookup-insert, ℕ, zero, suc, ◌+◌, ◌-◌, ◌*◌,
  ◌/◌, ◌%◌, ◌^◌, ◌≤◌, ◌<◌, ◌≡◌, refl, sym, ap, ◌∙◌, subst, ◌≢◌, ◌↔◌, ◌⊎◌, inl, inr, Bool, true,
  false, ◌&&◌, ◌||◌, not, Option, none, some, List, [], ◌∷◌, ◌++◌, map, arith,
}
use fruitfly.Types.{Json, null, boolean, number, text, array, Items, nil, cons}
use fruitfly.Starlark.{
  Value, bool, int, float, string, list, dict, Values, no_values, elem, Entries, no_entries, entry,
}
use fruitfly.Rules.Match.{Predicate, is_order}
use fruitfly.Rules.Match.Float.{float_of}
pub mod Operands
pub mod Shape

pub data ClauseError : Type 0 where
  not_a_list bad_length bad_path unsupported_op exists_takes_no_value value_required : ClauseError
  empty_in_list int_overflow unsupported_constant mixed_in_list prefix_needs_string : ClauseError
  order_needs_number : ClauseError

pub data MatchError : Type 0 where
  not_a_dict not_one_key all_not_a_list : MatchError
  clause_error : ℕ → ClauseError → MatchError

pub data Lowered {ℓ} (A : Type ℓ) : Type ℓ where
  ok : A → Lowered A
  err : ClauseError → Lowered A

abbrev pub match_ops : List Str
match_ops =
    str "=="
    ∷ str "!="
    ∷ str "<"
    ∷ str "<="
    ∷ str ">"
    ∷ str ">="
    ∷ str "in"
    ∷ str "exists"
    ∷ str "prefix"
    ∷ []

unfoldable pub is_match_op : Str → List Str → Bool
is_match_op op [] = false
is_match_op op (o ∷ os) = str_eq op o || is_match_op op os

-- val.Int64()
abbrev pub fits_int64 : ℤ → Bool
fits_int64 z = ltb (pos_part z) (2 ^ 63) && leb (neg_part z) (2 ^ 63)

unfoldable pub lower_scalar : Value → Lowered Json
lower_scalar (string s) = ok (text s)
lower_scalar (int i) = if fits_int64 i then ok (number (float_of i)) else err int_overflow
lower_scalar (float f) = ok (number f)
lower_scalar (bool b) = ok (boolean b)
lower_scalar _ = err unsupported_constant

unfoldable pub scalar_type : Json → Str
scalar_type (text s) = str "string"
scalar_type (number n) = str "number"
scalar_type (boolean b) = str "bool"
scalar_type _ = str "unknown"

abbrev pub and_then {ℓ κ} : {A : Type ℓ} {B : Type κ} → Lowered A → (A → Lowered B) → Lowered B
and_then (ok a) f = f a
and_then (err e) f = err e

-- The loop over the items of `in` after the first; `t` is the first one's type.
unfoldable pub lower_items : Str → Values → Lowered Items
unfolding lower_scalar scalar_type
lower_items t no_values = ok nil
lower_items t (elem v vs) =
    let rest = lower_items t vs in
    and_then (lower_scalar v) (λ item.
      if str_eq (scalar_type item) t
      then and_then rest (λ items. ok (cons item items))
      else err mixed_in_list)

unfoldable pub lower_in : Value → Lowered Json
unfolding lower_items
lower_in (list (elem v vs)) =
    and_then (lower_scalar v)
      (λ item. and_then (lower_items (scalar_type item) vs) (λ items. ok (array (cons item items))))
lower_in _ = err empty_in_list

unfoldable pub check_prefix : Str → Json → Lowered Json
check_prefix op (text s) = ok (text s)
check_prefix op v = if str_eq op (str "prefix") then err prefix_needs_string else ok v

unfoldable pub check_order : Str → Json → Lowered Json
check_order op (number n) = ok (number n)
check_order op v = if is_order op then err order_needs_number else ok v

unfoldable pub lower_constant : Str → Value → Lowered Json
unfolding lower_scalar check_prefix check_order
lower_constant op v = and_then (lower_scalar v) (λ c. and_then (check_prefix op c) (check_order op))

-- The value of a clause with the operator, from what follows the operator.
unfoldable pub lower_value : Str → Values → Lowered Json
unfolding lower_in lower_constant
lower_value op (elem v no_values) =
    if str_eq op (str "exists")
    then err exists_takes_no_value
    else if str_eq op (str "in")
    then lower_in v
    else lower_constant op v
lower_value op _ = if str_eq op (str "exists") then ok null else err value_required

-- strings.Split(s, ".")
unfoldable pub split_dots : Str → List Str
split_dots [] = [] ∷ []
split_dots (c ∷ s) =
    let rest = split_dots s in
    if c == b'.'
    then [] ∷ rest
    else elim rest [ [] ↦ (c ∷ []) ∷ [] | seg ∷ segs ↦ (c ∷ seg) ∷ segs ]

unfoldable pub make_predicate : Str → Str → Values → Lowered Predicate
unfolding lower_value split_dots
make_predicate path op rest =
    and_then (lower_value op rest) (λ v. ok (record { path = split_dots path; op = op; value = v }))

unfoldable pub with_op : Str → Value → Values → Lowered Predicate
unfolding make_predicate is_match_op
with_op path (string op) rest =
    if is_match_op op match_ops then make_predicate path op rest else err unsupported_op
with_op path _ rest = err unsupported_op

unfoldable pub with_path : Value → Value → Values → Lowered Predicate
unfolding with_op
with_path (string []) op rest = err bad_path
with_path (string (c ∷ path)) op rest = with_op (c ∷ path) op rest
with_path _ op rest = err bad_path

-- One turn of the loop over the clauses: two or three items.
unfoldable pub lower_clause : Value → Lowered Predicate
unfolding with_path
lower_clause (list no_values) = err bad_length
lower_clause (list (elem path no_values)) = err bad_length
lower_clause (list (elem path (elem op no_values))) = with_path path op no_values
lower_clause (list (elem path (elem op (elem v no_values)))) = with_path path op (elem v no_values)
lower_clause (list (elem path (elem op (elem v (elem u rest))))) = err bad_length
lower_clause _ = err not_a_list

pub data Match : Type 0 where
  lowered : List Predicate → Match
  failed : MatchError → Match

unfoldable pub after_clause : ℕ → Lowered Predicate → Match → Match
after_clause i (err e) rest = failed (clause_error i e)
after_clause i (ok p) (failed e) = failed e
after_clause i (ok p) (lowered ps) = lowered (p ∷ ps)

unfoldable pub lower_clauses : ℕ → Values → Match
unfolding lower_clause after_clause
lower_clauses i no_values = lowered []
lower_clauses i (elem v vs) =
    let rest = lower_clauses (suc i) vs in after_clause i (lower_clause v) rest

-- The only entry of the dict, under the key "all".
unfoldable pub lower_entry : Value → Value → Match
unfolding lower_clauses
lower_entry (string k) v =
    if str_eq k (str "all")
    then elim v [ list clauses ↦ lower_clauses 0 clauses | _ ↦ failed all_not_a_list ]
    else failed not_one_key
lower_entry _ v = failed not_one_key

unfoldable pub lower_match : Value → Match
unfolding lower_entry
lower_match (dict (entry k v no_entries)) = lower_entry k v
lower_match (dict _) = failed not_one_key
lower_match _ = failed not_a_dict
