-- ===== src/Tests/Compiling.antt =====
-- Runs of CompileDir of rules/compiler.go.
use fruitfly.Base.{
  if◌then◌else◌, Str, str, str_eq, str_eq→eq, sym, ap, Bool, false, pos, lookup, insert, ◌≡◌, refl,
  true, Option, none, some, List, [], ◌∷◌,
}
use mathlib.Core.List.{Perm}
use mathlib.Core.List.Perm
use fruitfly.Starlark.{string, int, other}
use fruitfly.Rules.Snapshot.{Rule, Snapshot, star, merge_by_priority, build_index}
use fruitfly.Rules.Snapshot.Merge.{IsSorted, merge-IsSorted, merge-perm}
use fruitfly.Rules.Compile.{
  Globals, Tools, ok, err, compile_source, compile_files, distinct_rules, compile_dir,
  string_global, int_global, cached_compile, duplicate_rule_id, Cache,
}
use fruitfly.Rules.Compile.Caching.{IsCoherent, compile_dir-IsCoherent}
use fruitfly.Rules.Compile.Directory.{IsSnapshotOf, compile_dir-IsSnapshotOf}

-- A source is the rule's identifier.
abbrev pub globals_of : Str → Globals
globals_of src =
    (str "rule_id", string src)
    ∷ (str "event_type", string star)
    ∷ (str "priority", int (pos 1))
    ∷ (str "evaluate", other (str "function"))
    ∷ []

abbrev pub insertion_sort : List Rule → List Rule
insertion_sort [] = []
insertion_sort (r ∷ rs) = merge_by_priority (r ∷ []) (insertion_sort rs)

insertion_sort-IsSorted : (l : List Rule) → IsSorted (insertion_sort l)
insertion_sort-IsSorted [] = tt
insertion_sort-IsSorted (r ∷ rs) =
    merge-IsSorted (r ∷ []) (insertion_sort rs) (tt, tt) (insertion_sort-IsSorted rs)

insertion_sort-perm : (l : List Rule) → Perm (insertion_sort l) l
insertion_sort-perm [] = Perm.refl []
insertion_sort-perm (r ∷ rs) =
    Perm.trans (merge-perm (r ∷ []) (insertion_sort rs)) (Perm.cons r (insertion_sort-perm rs))

abbrev pub tools : Tools
tools = record {
  load = λ name src. some (globals_of src);
  callable = λ v. true;
  hash = λ src. src;
  sort = insertion_sort;
}

abbrev two_files : List (Str × Option Str)
two_files = (str "a.star", some (str "a")) ∷ (str "b.star", some (str "b")) ∷ []

abbrev pub rule_of : Str → Rule
rule_of id = record { rule_id = id; event_type = star; priority = pos 1; clauses = [] }

abbrev two_rules : Snapshot
two_rules = build_index (record {
  id = str "s1";
  rules = insertion_sort (rule_of (str "a") ∷ rule_of (str "b") ∷ []);
  by_type = none;
  wildcard = [];
})

compiles : (compile_dir tools [] true two_files (some (str "s1"))).1 ≡ ok two_rules
unfolding compile_dir compile_files cached_compile compile_source string_global int_global lookup
    insert distinct_rules str_eq
compiles = refl

same_id :
    (compile_dir tools [] true
      ((str "a.star", some (str "a")) ∷ (str "c.star", some (str "a")) ∷ [])
      (some (str "s1"))).1
    ≡ err (duplicate_rule_id (str "a") (str "a.star") (str "c.star"))
unfolding compile_dir compile_files cached_compile compile_source string_global int_global lookup
    insert distinct_rules str_eq
same_id = refl

compile_dir-IsSnapshotOf_example : IsSnapshotOf 2 two_rules
compile_dir-IsSnapshotOf_example =
    compile_dir-IsSnapshotOf tools insertion_sort-IsSorted insertion_sort-perm [] true two_files
      (some (str "s1")) two_rules compiles

-- A cache that the first file is found in.
abbrev warm : Cache
warm = (str "a", rule_of (str "a")) ∷ []

warm-IsCoherent : IsCoherent tools warm
unfolding compile_source string_global int_global lookup str_eq
warm-IsCoherent = record { entries = λ key rule h. entry key rule (str_eq (str "a") key) refl h }
  where
    entry :
        (key : Str) (rule : Rule) (b : Bool)
        → str_eq (str "a") key ≡ b
        → (if b then some (rule_of (str "a")) else none) ≡ some rule
        → (name : Str) × (src : Str) × (key ≡ tools.hash src)
          × (compile_source tools name src ≡ ok rule)
    entry key rule true e h =
        (str "a.star", str "a", sym (str_eq→eq (str "a") key e), ap (λ (r : Rule). ok r) (same h))
      where
        same :
            ◌≡◌ {A = Option Rule} (some (rule_of (str "a"))) (some rule) → rule_of (str "a") ≡ rule
        same h = cc
    entry key rule false e h = cc

compile_dir-IsCoherent_example :
    ((compile_dir tools warm true two_files (some (str "s1"))).1
      ≡ (compile_dir tools [] true two_files (some (str "s1"))).1)
    × IsCoherent tools (compile_dir tools warm true two_files (some (str "s1"))).0
compile_dir-IsCoherent_example =
    compile_dir-IsCoherent tools (λ n m src. refl) (λ a b h. h) warm true two_files
      (some (str "s1")) warm-IsCoherent
