-- ===== src/Rules/Snapshot/Index.antt =====
-- The index of a snapshot (buildIndex, RulesForEvent of rules/compiler.go) against the plain search.
use fruitfly.Base.{
  if◌then◌else◌, Bool-cases, Option-cases, select, select-true, select-false, Str, str_eq,
  str_eq→eq, StrMap, lookup, lookup-insert, ◌≡◌, refl, sym, ap, ◌∙◌, inl, inr, Bool, true, false,
  ◌&&◌, ◌||◌, not, none, some, List, [], ◌∷◌, ◌++◌, arith,
}
use mathlib.Core.List.{Perm, perm_middle, append-nil, append_assoc}
use mathlib.Core.List.Perm
use fruitfly.Rules.Snapshot.{
  Rule, Snapshot, is_wild, is_of, merge_by_priority, or_nil, append_at, group_rules, merge_each,
  with_wildcard, build_index, or_wildcard, rules_for_event,
}
use fruitfly.Rules.Snapshot.Merge.{Heads, IsSorted, merge-perm, merge-IsSorted}

-- The type-specific rules of an event type: a rule for "*" is not among them.
abbrev pub is_typed : Str → Rule → Bool
is_typed t r = not (is_wild r) && is_of t r

lookup-append_at :
    (t u : Str) (r : Rule) (m : StrMap (List Rule))
    → lookup t (append_at u r m)
      ≡ (if str_eq u t then some (or_nil (lookup u m) ++ r ∷ []) else lookup t m)
unfolding append_at
lookup-append_at t u r m = lookup-insert u t _ m

module _ (r : Rule) (rs : List Rule) (m : StrMap (List Rule)) (wild : List Rule) where
  group_wild : is_wild r ≡ true → group_rules m wild (r ∷ rs) ≡ group_rules m (wild ++ r ∷ []) rs
  unfolding group_rules
  group_wild e = rw e

  group_typed :
      is_wild r ≡ false
      → group_rules m wild (r ∷ rs) ≡ group_rules (append_at r.event_type r m) wild rs
  unfolding group_rules
  group_typed e = rw e

or_nil-append_at :
    (t : Str) (r : Rule) (m : StrMap (List Rule)) (rest : List Rule)
    → is_wild r ≡ false
    → or_nil (lookup t (append_at r.event_type r m)) ++ select (is_typed t) rest
      ≡ or_nil (lookup t m) ++ select (is_typed t) (r ∷ rest)
or_nil-append_at t r m rest w = elim (Bool-cases (is_of t r)) [
  | inl e ↦
      rw (lookup-append_at t r.event_type r m, select-true (is_typed t) r rest (rw (w, e)), e)
        (ap (λ u. (or_nil (lookup u m) ++ r ∷ []) ++ select (is_typed t) rest)
            (str_eq→eq r.event_type t e)
          ∙ append_assoc (or_nil (lookup t m)) (r ∷ []) (select (is_typed t) rest))
  | inr e ↦
      rw (lookup-append_at t r.event_type r m, select-false (is_typed t) r rest (rw (w, e)), e)
]

-- The loop of buildIndex leaves in its map, for each type, what was there and the typed rules.
grouped :
    (t : Str) (rs : List Rule) (m : StrMap (List Rule)) (wild : List Rule)
    → or_nil (lookup t (group_rules m wild rs).0) ≡ or_nil (lookup t m) ++ select (is_typed t) rs
grouped t [] m wild = unfold group_rules in rw append-nil
grouped t (r ∷ rs) m wild = elim (Bool-cases (is_wild r)) [
  | inl e ↦
      ap (λ (g : StrMap (List Rule) × List Rule). or_nil (lookup t g.0)) (group_wild r rs m wild e)
      ∙ grouped t rs m (wild ++ r ∷ [])
      ∙ ap (λ l. or_nil (lookup t m) ++ l) (sym (select-false (is_typed t) r rs (rw e)))
  | inr e ↦
      ap (λ (g : StrMap (List Rule) × List Rule). or_nil (lookup t g.0)) (group_typed r rs m wild e)
      ∙ grouped t rs (append_at r.event_type r m) wild
      ∙ or_nil-append_at t r m rs e
]

wild_grouped :
    (rs : List Rule) (m : StrMap (List Rule)) (wild : List Rule)
    → (group_rules m wild rs).1 ≡ wild ++ select is_wild rs
wild_grouped [] m wild = unfold group_rules in rw append-nil
wild_grouped (r ∷ rs) m wild = elim (Bool-cases (is_wild r)) [
  | inl e ↦
      ap (λ (g : StrMap (List Rule) × List Rule). g.1) (group_wild r rs m wild e)
      ∙ wild_grouped rs m (wild ++ r ∷ [])
      ∙ append_assoc wild (r ∷ []) (select is_wild rs)
      ∙ ap (λ l. wild ++ l) (sym (select-true is_wild r rs e))
  | inr e ↦
      ap (λ (g : StrMap (List Rule) × List Rule). g.1) (group_typed r rs m wild e)
      ∙ wild_grouped rs (append_at r.event_type r m) wild
      ∙ ap (λ l. wild ++ l) (sym (select-false is_wild r rs e))
]

lookup-merge_each :
    (t : Str) (wild : List Rule) (m : StrMap (List Rule))
    → or_wildcard wild (lookup t (merge_each wild m)) ≡ merge_by_priority (or_nil (lookup t m)) wild
unfolding lookup merge_each or_wildcard
lookup-merge_each t wild [] = unfold merge_by_priority in refl
lookup-merge_each t wild ((u, l) ∷ m) = ground (arith, lookup-merge_each t wild m)

merge-nil : (l : List Rule) → merge_by_priority l [] ≡ l
unfolding merge_by_priority
merge-nil [] = refl
merge-nil (x ∷ xs) = refl

lookup-with_wildcard :
    (t : Str) (wild : List Rule) (m : StrMap (List Rule))
    → or_wildcard wild (lookup t (with_wildcard m wild))
      ≡ merge_by_priority (or_nil (lookup t m)) wild
unfolding with_wildcard or_wildcard
lookup-with_wildcard t [] m = elim (Option-cases (lookup t m)) [
  | inl e ↦ rw (e, or_wildcard) (sym (merge-nil []))
  | inr (l, e) ↦ rw (e, or_wildcard) (sym (merge-nil l))
]
lookup-with_wildcard t (r ∷ rs) m = lookup-merge_each t (r ∷ rs) m

-- An indexed snapshot answers with the typed rules merged with the wildcard rules.
rules_for_event_indexed :
    (s : Snapshot) (t : Str)
    → rules_for_event (build_index s) t
      ≡ merge_by_priority (select (is_typed t) s.rules) (select is_wild s.rules)
unfolding rules_for_event build_index lookup
rules_for_event_indexed s t =
    lookup-with_wildcard t (group_rules [] [] s.rules).1 (group_rules [] [] s.rules).0
    ∙ ap (λ l. merge_by_priority l (group_rules [] [] s.rules).1) (grouped t s.rules [] [])
    ∙ ap (merge_by_priority (select (is_typed t) s.rules)) (wild_grouped s.rules [] [])

Heads-select : (p : Rule → Bool) (r : Rule) (l : List Rule) → Heads r l → Heads r (select p l)
Heads-select p r [] h = tt
Heads-select p r (x ∷ l) h = ground (arith, Heads-select p r l h.1)

select-IsSorted : (p : Rule → Bool) (l : List Rule) → IsSorted l → IsSorted (select p l)
select-IsSorted p [] h = tt
select-IsSorted p (x ∷ l) h = ground (arith, select-IsSorted p l h.1, Heads-select p x l h.0)

-- The rules of a type, in front of the wildcard rules, are the rules that the plain search finds.
split-perm :
    (t : Str) (rs : List Rule)
    → Perm (select (is_typed t) rs ++ select is_wild rs) (select (λ r. is_wild r || is_of t r) rs)
split-perm t [] = Perm.refl []
split-perm t (r ∷ rs) = elim (Bool-cases (is_wild r)) [
  | inl e ↦
      rw
        (
          select-false (is_typed t) r rs (rw e),
          select-true is_wild r rs e,
          select-true (λ r. is_wild r || is_of t r) r rs (rw e),
        )
        (Perm.trans (perm_middle (select (is_typed t) rs) (select is_wild rs))
          (Perm.cons r (split-perm t rs)))
  | inr e ↦ elim (Bool-cases (is_of t r)) [
    | inl q ↦
        rw
          (
            select-true (is_typed t) r rs (rw (e, q)),
            select-false is_wild r rs e,
            select-true (λ r. is_wild r || is_of t r) r rs (rw (e, q)),
          )
          (Perm.cons r (split-perm t rs))
    | inr q ↦
        rw
          (
            select-false (is_typed t) r rs (rw (e, q)),
            select-false is_wild r rs e,
            select-false (λ r. is_wild r || is_of t r) r rs (rw (e, q)),
          )
          (split-perm t rs)
  ]
]

-- From a snapshot whose rules stand by falling priority, the index answers for every event type with
-- the rules that the search without an index finds, each as often, and by falling priority.
pub rules_for_event-build_index :
    (s : Snapshot) (t : Str)
    → IsSorted s.rules
    → IsSorted (rules_for_event (build_index s) t)
      × Perm (rules_for_event (build_index s) t) (rules_for_event (record s { by_type = none }) t)
unfolding rules_for_event
rules_for_event-build_index s t h = rw (rules_for_event_indexed s t) (
  merge-IsSorted _ _ (select-IsSorted (is_typed t) s.rules h) (select-IsSorted is_wild s.rules h),
  Perm.trans (merge-perm (select (is_typed t) s.rules) (select is_wild s.rules))
      (split-perm t s.rules),
)
