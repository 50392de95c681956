-- ===== src/Rules/Snapshot.antt =====
-- Snapshots of rules/compiler.go: RulesForEvent, buildIndex and mergeByPriority. Of a rule only what
-- selection and the prefilter read is kept; its compiled program is the executor's parameter.
use fruitfly.Base.{
  ltb, leb, ◌==◌, if◌then◌else◌, leb→le, le→leb, ltb→lt, ==_iff, &&-true, Bool-cases, Option-cases,
  if_elim, is_some, length, get_or, set, replicate, take, drop, All, In, select, count_if,
  length-append, length-set, All-append, All-In, In-append_left, In-append_right, In-append,
  select-append, length-select-le, Str, str, str_eq, str_eq→eq, str_eq_refl, str_eq_iff, has_prefix,
  ℤ, pos, negsuc, pos_part, neg_part, ◌≤ℤ◌, ◌<ℤ◌, ltb_ℤ, leb_ℤ, eq_ℤ, eq_ℤ→eq, ≤ℤ_antisymm, StrMap,
  lookup, insert, lookup-insert, ℕ, zero, suc, ◌+◌, ◌-◌, ◌*◌, ◌/◌, ◌%◌, ◌^◌, ◌≤◌, ◌<◌, ◌≡◌, refl,
  sym, ap, ◌∙◌, subst, ◌≢◌, ◌↔◌, ◌⊎◌, inl, inr, Bool, true, false, ◌&&◌, ◌||◌, not, Option, none,
  some, List, [], ◌∷◌, ◌++◌, map, arith,
}
use fruitfly.Rules.Match.{Predicate}
pub mod Merge
pub mod Index

pub record Rule : Type 0 where
  pub rule_id : Str
  pub event_type : Str
  pub priority : ℤ
  pub clauses : List Predicate

-- `by_type` is none for a snapshot that was built without an index.
pub record Snapshot : Type 0 where
  pub id : Str
  pub rules : List Rule
  pub by_type : Option (StrMap (List Rule))
  pub wildcard : List Rule

abbrev pub star : Str
star = str "*"

abbrev pub is_wild : Rule → Bool
is_wild r = str_eq r.event_type star

abbrev pub is_of : Str → Rule → Bool
is_of t r = str_eq r.event_type t

-- The loop of mergeByPriority: the two slices from `i` and `j` on.
unfoldable pub merge_by_priority : List Rule → List Rule → List Rule
merge_by_priority [] b = b
merge_by_priority (x ∷ xs) [] = x ∷ xs
merge_by_priority (x ∷ xs) (y ∷ ys) =
    let left = x ∷ merge_by_priority xs (y ∷ ys) in
    let right = y ∷ merge_by_priority (x ∷ xs) ys in
    if leb_ℤ y.priority x.priority then left else right

abbrev pub or_nil : Option (List Rule) → List Rule
or_nil none = []
or_nil (some l) = l

-- s.byType[t] = append(s.byType[t], r)
unfoldable pub append_at : Str → Rule → StrMap (List Rule) → StrMap (List Rule)
append_at t r m = insert t (or_nil (lookup t m) ++ r ∷ []) m

-- The first loop of buildIndex, over the type-specific and the wildcard rules so far.
unfoldable pub group_rules :
    StrMap (List Rule) → List Rule → List Rule → StrMap (List Rule) × List Rule
unfolding append_at
group_rules m wild [] = (m, wild)
group_rules m wild (r ∷ rs) =
    let w = is_wild r in
    group_rules (if w then m else append_at r.event_type r m) (if w then wild ++ r ∷ [] else wild)
      rs

unfoldable pub merge_each : List Rule → StrMap (List Rule) → StrMap (List Rule)
merge_each wild [] = []
merge_each wild ((t, list) ∷ m) = (t, merge_by_priority list wild) ∷ merge_each wild m

with_wildcard : StrMap (List Rule) → List Rule → StrMap (List Rule)
unfolding merge_each
with_wildcard m [] = m
with_wildcard m (r ∷ rs) = merge_each (r ∷ rs) m

unfoldable pub build_index : Snapshot → Snapshot
unfolding group_rules with_wildcard
build_index s =
    let (m, wild) = group_rules [] [] s.rules in
    record s { by_type = some (with_wildcard m wild); wildcard = wild }

or_wildcard : List Rule → Option (List Rule) → List Rule
or_wildcard wild none = wild
or_wildcard wild (some matched) = matched

indexed_or_all : Snapshot → Str → Option (StrMap (List Rule)) → List Rule
unfolding or_wildcard
indexed_or_all s t (some m) = or_wildcard s.wildcard (lookup t m)
indexed_or_all s t none = select (λ r. is_wild r || is_of t r) s.rules

unfoldable pub rules_for_event : Snapshot → Str → List Rule
unfolding indexed_or_all
rules_for_event s t = indexed_or_all s t s.by_type
