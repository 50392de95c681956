-- ===== src/Tests/Matching.antt =====
-- Runs of rules/match.go and of the snapshots of rules/compiler.go.
use fruitfly.Base.{Str, str, str_eq, pos, ℕ, ◌≡◌, refl, none, some, List, [], ◌∷◌, arith}
use mathlib.Core.List.{Perm}
use fruitfly.Types.{field, end, get, number, Event}
use fruitfly.Starlark.{Value, string, int, list, dict, no_values, elem, no_entries, entry}
use fruitfly.Rules.Match.{resolve_path}
use fruitfly.Rules.Match.Float.{float_of, float_of_nat}
use fruitfly.Rules.Match.Order.{number_clause}
use fruitfly.Rules.Match.Clause.{lower_match, lowered, failed, clause_error, order_needs_number}
use fruitfly.Rules.Match.Clause.Shape.{AllWellFormed, lower_match-WellFormed}
use fruitfly.Rules.Snapshot.{Rule, Snapshot, build_index, rules_for_event}
use fruitfly.Rules.Snapshot.Merge.{IsSorted}
use fruitfly.Rules.Snapshot.Index.{rules_for_event-build_index}

-- 3.0 and 2.5.
abbrev three : ℕ
three = 0x4008000000000000

abbrev two_and_a_half : ℕ
two_and_a_half = 0x4004000000000000

three_rounds : float_of (pos 3) ≡ three
unfolding float_of float_of_nat
three_rounds = refl

abbrev an_event : Event
an_event = record {
  event_id = str "e1";
  event_type = str "post";
  entity_id = str "u1";
  timestamp = pos 0;
  payload = field (str "n") (number three) end;
  raw_json = [];
}

abbrev a_path : List Str
a_path = str "payload" ∷ str "n" ∷ []

leads : resolve_path an_event a_path ≡ some (number three)
unfolding resolve_path get str_eq
leads = refl

abbrev order_clause : Value → Value
order_clause v = list (elem (string (str "payload.n")) (elem (string (str "<")) (elem v no_values)))

abbrev match_of : Value → Value
match_of clause = dict (entry (string (str "all")) (list (elem clause no_values)) no_entries)

lower_match-WellFormed_example : AllWellFormed (lower_match (match_of (order_clause (int (pos 3)))))
lower_match-WellFormed_example = lower_match-WellFormed (match_of (order_clause (int (pos 3))))

lowers :
    lower_match (match_of (order_clause (int (pos 3))))
    ≡ lowered (number_clause a_path three (str "<") ∷ [])
unfolding lower_match str_eq float_of
lowers = refl

order_of_text :
    lower_match (match_of (order_clause (string (str "x"))))
    ≡ failed (clause_error 0 order_needs_number)
unfolding lower_match str_eq
order_of_text = refl

abbrev rule_of : Str → Str → ℕ → Rule
rule_of id t priority = record {
  rule_id = id;
  event_type = t;
  priority = pos priority;
  clauses = [];
}

abbrev posts : List Rule
posts = rule_of (str "a") (str "post") 5 ∷ rule_of (str "b") (str "post") 1 ∷ []

abbrev wilds : List Rule
wilds = rule_of (str "c") (str "*") 3 ∷ []

abbrev three_rules : Snapshot
three_rules = record {
  id = [];
  rules =
      rule_of (str "a") (str "post") 5
      ∷ rule_of (str "c") (str "*") 3
      ∷ rule_of (str "b") (str "post") 1
      ∷ [];
  by_type = none;
  wildcard = [];
}

rules_for_event-build_index_example :
    IsSorted (rules_for_event (build_index three_rules) (str "post"))
    × Perm
        (rules_for_event (build_index three_rules) (str "post"))
        (rules_for_event three_rules (str "post"))
rules_for_event-build_index_example =
    rules_for_event-build_index three_rules (str "post")
      ((omega arith, (omega arith, tt)), ((omega arith, tt), (tt, tt)))
