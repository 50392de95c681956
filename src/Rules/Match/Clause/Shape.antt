-- ===== src/Rules/Match/Clause/Shape.antt =====
-- What lowerMatch of rules/match.go accepts.
use fruitfly.Base.{
  ◌==◌, if_elim, All, Str, str, str_eq, ℕ, suc, ◌≡◌, refl, Bool, true, false, ◌&&◌, List, [], ◌∷◌,
}
use fruitfly.Types.{Json}
use fruitfly.Starlark
use fruitfly.Starlark.{
  Value, bool, int, float, string, list, dict, Values, no_values, elem, no_entries, entry,
}
use fruitfly.Rules.Match.{Predicate}
use fruitfly.Rules.Match.Clause.{
  not_one_key, all_not_a_list, unsupported_op, Lowered, ok, err, match_ops, is_match_op,
  lower_value, split_dots, make_predicate, with_op, with_path, lower_clause, Match, lowered, failed,
  after_clause, lower_clauses, lower_entry, lower_match,
}
use fruitfly.Rules.Match.Clause.Operands.{fits, Fits, OnOk, and_then-OnOk, lower_value-Fits}

has_segment : List Str → Bool
has_segment [] = false
has_segment (_ ∷ _) = true

unfoldable pub well_formed : Predicate → Bool
unfolding fits has_segment
well_formed p = has_segment p.path && is_match_op p.op match_ops && fits p.op p.value

WellFormed : Predicate → Type 0
unfolding well_formed
WellFormed p = well_formed p ≡ true

split_dots-segment : (s : Str) → has_segment (split_dots s) ≡ true
unfolding has_segment split_dots
split_dots-segment [] = refl
split_dots-segment (c ∷ s) =
    if_elim (λ l. has_segment l ≡ true) (c == b'.') _ _ (λ _. refl) (λ _. pushed (split_dots s))
  where
    pushed :
        (l : List Str)
        → has_segment (elim l [ [] ↦ (c ∷ []) ∷ [] | seg ∷ segs ↦ (c ∷ seg) ∷ segs ]) ≡ true
    pushed [] = refl
    pushed (seg ∷ segs) = refl

with_op-WellFormed :
    (path : Str) (op : Value) (rest : Values) → OnOk WellFormed (with_op path op rest)
unfolding with_op make_predicate WellFormed well_formed Fits
with_op-WellFormed path (string op) rest =
    if_elim (OnOk WellFormed) (is_match_op op match_ops) (make_predicate path op rest)
      (err unsupported_op)
      (λ known.
        and_then-OnOk (Fits op) WellFormed (lower_value op rest) _ (lower_value-Fits op rest)
          (λ v hv. formed v known hv))
      (λ _. tt)
  where
    formed :
        (v : Json)
        → is_match_op op match_ops ≡ true
        → Fits op v
        → WellFormed (record { path = split_dots path; op = op; value = v })
    formed v known hv = rw (split_dots-segment path, known, hv) refl
with_op-WellFormed path (int i) rest = tt
with_op-WellFormed path (float f) rest = tt
with_op-WellFormed path (bool b) rest = tt
with_op-WellFormed path Starlark.none_value rest = tt
with_op-WellFormed path (list vs) rest = tt
with_op-WellFormed path (dict es) rest = tt
with_op-WellFormed path (Starlark.struct s) rest = tt
with_op-WellFormed path (Starlark.other s) rest = tt

with_path-WellFormed : (path op : Value) (rest : Values) → OnOk WellFormed (with_path path op rest)
unfolding with_path
with_path-WellFormed (string []) op rest = tt
with_path-WellFormed (string (c ∷ path)) op rest = with_op-WellFormed (c ∷ path) op rest
with_path-WellFormed (int i) op rest = tt
with_path-WellFormed (float f) op rest = tt
with_path-WellFormed (bool b) op rest = tt
with_path-WellFormed Starlark.none_value op rest = tt
with_path-WellFormed (list vs) op rest = tt
with_path-WellFormed (dict es) op rest = tt
with_path-WellFormed (Starlark.struct s) op rest = tt
with_path-WellFormed (Starlark.other s) op rest = tt

lower_clause-WellFormed : (v : Value) → OnOk WellFormed (lower_clause v)
unfolding lower_clause
lower_clause-WellFormed (list no_values) = tt
lower_clause-WellFormed (list (elem path no_values)) = tt
lower_clause-WellFormed (list (elem path (elem op no_values))) =
    with_path-WellFormed path op no_values
lower_clause-WellFormed (list (elem path (elem op (elem v no_values)))) =
    with_path-WellFormed path op (elem v no_values)
lower_clause-WellFormed (list (elem path (elem op (elem v (elem u rest))))) = tt
lower_clause-WellFormed (string s) = tt
lower_clause-WellFormed (int i) = tt
lower_clause-WellFormed (float f) = tt
lower_clause-WellFormed (bool b) = tt
lower_clause-WellFormed Starlark.none_value = tt
lower_clause-WellFormed (dict es) = tt
lower_clause-WellFormed (Starlark.struct s) = tt
lower_clause-WellFormed (Starlark.other s) = tt

-- Every predicate of a successful lowering is well-formed.
abbrev pub AllWellFormed : Match → Type 0
AllWellFormed (lowered ps) = All (λ p. well_formed p ≡ true) ps
AllWellFormed (failed e) = Unit

after_clause-WellFormed :
    (i : ℕ) (r : Lowered Predicate) (m : Match)
    → OnOk WellFormed r
    → AllWellFormed m
    → AllWellFormed (after_clause i r m)
unfolding after_clause WellFormed
after_clause-WellFormed i (err e) m hr hm = tt
after_clause-WellFormed i (ok p) (failed e) hr hm = tt
after_clause-WellFormed i (ok p) (lowered ps) hr hm = (hr, hm)

lower_clauses-WellFormed : (i : ℕ) (vs : Values) → AllWellFormed (lower_clauses i vs)
unfolding lower_clauses
lower_clauses-WellFormed i no_values = tt
lower_clauses-WellFormed i (elem v vs) =
    after_clause-WellFormed i (lower_clause v) (lower_clauses (suc i) vs)
      (lower_clause-WellFormed v) (lower_clauses-WellFormed (suc i) vs)

lower_entry-WellFormed : (k v : Value) → AllWellFormed (lower_entry k v)
unfolding lower_entry
lower_entry-WellFormed (string k) v =
    if_elim AllWellFormed (str_eq k (str "all")) _ (failed not_one_key) (λ _. clauses_of v)
      (λ _. tt)
  where
    clauses_of :
        (u : Value)
        → AllWellFormed
            (elim u [ list clauses ↦ lower_clauses 0 clauses | _ ↦ failed all_not_a_list ])
    clauses_of (list vs) = lower_clauses-WellFormed 0 vs
    clauses_of (string s) = tt
    clauses_of (int i) = tt
    clauses_of (float f) = tt
    clauses_of (bool b) = tt
    clauses_of Starlark.none_value = tt
    clauses_of (dict es) = tt
    clauses_of (Starlark.struct s) = tt
    clauses_of (Starlark.other s) = tt
lower_entry-WellFormed (int i) v = tt
lower_entry-WellFormed (float f) v = tt
lower_entry-WellFormed (bool b) v = tt
lower_entry-WellFormed Starlark.none_value v = tt
lower_entry-WellFormed (list vs) v = tt
lower_entry-WellFormed (dict es) v = tt
lower_entry-WellFormed (Starlark.struct s) v = tt
lower_entry-WellFormed (Starlark.other s) v = tt

-- Whatever `match` value lowerMatch accepts, each predicate that it makes has a path of at least one
-- segment and one of the supported operators, and its value is what the operator takes: none for
-- `exists`, a non-empty list of constants of one type for `in`, a string for `prefix`, a number for
-- an order, a constant for == and !=.
pub lower_match-WellFormed : (v : Value) → AllWellFormed (lower_match v)
unfolding lower_match
lower_match-WellFormed (dict (entry k v no_entries)) = lower_entry-WellFormed k v
lower_match-WellFormed (dict (entry k v (entry j u es))) = tt
lower_match-WellFormed (dict no_entries) = tt
lower_match-WellFormed (string s) = tt
lower_match-WellFormed (int i) = tt
lower_match-WellFormed (float f) = tt
lower_match-WellFormed (bool b) = tt
lower_match-WellFormed Starlark.none_value = tt
lower_match-WellFormed (list vs) = tt
lower_match-WellFormed (Starlark.struct s) = tt
lower_match-WellFormed (Starlark.other s) = tt
