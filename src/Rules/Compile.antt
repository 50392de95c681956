-- ===== src/Rules/Compile.antt =====
-- rules/compiler.go: CompileSource, the cache by content and CompileDir. Parsing and running a rule's
-- source (go.starlark.net), SHA-256, sort.Slice and which values are callable are the record `Tools`;
-- a file is its base name with its contents, or none where it cannot be read. The files are compiled
-- one after the other here, in parallel there.
use fruitfly.Base.{
  ltb, leb, ◌==◌, if◌then◌else◌, leb→le, le→leb, ltb→lt, ==_iff, &&-true, Bool-cases, Option-cases,
  if_elim, is_some, length, get_or, set, replicate, take, drop, All, In, select, count_if,
  length-append, length-set, All-append, All-In, In-append_left, In-append_right, In-append,
  select-true, select-false, select-append, length-select-le, Str, str, str_eq, str_eq→eq,
  str_eq_refl, str_eq_iff, has_prefix, ℤ, pos, negsuc, pos_part, neg_part, ◌≤ℤ◌, ◌<ℤ◌, ltb_ℤ, leb_ℤ,
  eq_ℤ, eq_ℤ→eq, ≤ℤ_antisymm, StrMap, lookup, insert, lookup-insert, ℕ, zero, suc, ◌+◌, ◌-◌, ◌*◌,
  ◌/◌, ◌%◌, ◌^◌, ◌≤◌, ◌<◌, ◌≡◌, refl, sym, ap, ◌∙◌, subst, ◌≢◌, ◌↔◌, ◌⊎◌, inl, inr, Bool, true,
  false, ◌&&◌, ◌||◌, not, Option, none, some, List, [], ◌∷◌, ◌++◌, map, arith,
}
use fruitfly.Starlark.{Value, string, int}
use fruitfly.Rules.Match.{Predicate}
use fruitfly.Rules.Match.Clause.{MatchError, lower_match, lowered, failed, fits_int64}
use fruitfly.Rules.Snapshot.{Rule, Snapshot, build_index}
pub mod Directory
pub mod Caching

pub data CompileError : Type 0 where
  load_failed not_callable no_directory no_snapshot_id : CompileError
  missing_global not_a_string not_an_int overflow unreadable : Str → CompileError
  bad_match : MatchError → CompileError
  duplicate_rule_id : Str → Str → Str → CompileError

pub data Compiled {ℓ} (A : Type ℓ) : Type ℓ where
  ok : A → Compiled A
  err : CompileError → Compiled A

abbrev pub and_then {ℓ κ} : {A : Type ℓ} {B : Type κ} → Compiled A → (A → Compiled B) → Compiled B
and_then (ok a) f = f a
and_then (err e) f = err e

abbrev pub Globals : Type 0
Globals = StrMap Value

pub record Tools : Type 0 where
  -- Parse, FileProgram and Init: the globals of the source under a file name.
  pub load : Str → Str → Option Globals
  pub callable : Value → Bool
  pub hash : Str → Str
  pub sort : List Rule → List Rule

string_value : Str → Option Value → Compiled Str
string_value name none = err (missing_global name)
string_value name (some (string s)) = ok s
string_value name (some _) = err (not_a_string name)

unfoldable pub string_global : Globals → Str → Compiled Str
unfolding string_value
string_global g name = string_value name (lookup name g)

int_value : Str → Option Value → Compiled ℤ
int_value name none = err (missing_global name)
int_value name (some (int i)) = if fits_int64 i then ok i else err (overflow name)
int_value name (some _) = err (not_an_int name)

unfoldable pub int_global : Globals → Str → Compiled ℤ
unfolding int_value
int_global g name = int_value name (lookup name g)

-- The test of `evaluate`.
check_evaluate : Tools → Option Value → Compiled Value
check_evaluate t none = err (missing_global (str "evaluate"))
check_evaluate t (some v) = if t.callable v then ok v else err not_callable

match_clauses : Option Value → Compiled (List Predicate)
match_clauses none = ok []
match_clauses (some v) = elim (lower_match v) [
  | lowered clauses ↦ ok clauses
  | failed e ↦ err (bad_match e)
]

unfoldable pub make_rule : Tools → Option Globals → Compiled Rule
unfolding string_global int_global check_evaluate match_clauses
make_rule t none = err load_failed
make_rule t (some g) = and_then (string_global g (str "rule_id")) (λ rule_id.
    and_then (string_global g (str "event_type")) (λ event_type.
      and_then (int_global g (str "priority")) (λ priority.
        and_then (check_evaluate t (lookup (str "evaluate") g)) (λ evaluate.
          and_then (match_clauses (lookup (str "match") g)) (λ clauses. ok (record {
            rule_id = rule_id;
            event_type = event_type;
            priority = priority;
            clauses = clauses;
          }))))))

unfoldable pub compile_source : Tools → Str → Str → Compiled Rule
unfolding make_rule
compile_source t filename source = make_rule t (t.load filename source)

abbrev pub Cache : Type 0
Cache = StrMap Rule

unfoldable pub store_compiled : Cache → Str → Compiled Rule → Cache × Compiled Rule
store_compiled cache key (ok rule) = (insert key rule cache, ok rule)
store_compiled cache key (err e) = (cache, err e)

unfoldable pub compile_on_miss : Tools → Cache → Str → Str → Option Rule → Cache × Compiled Rule
unfolding store_compiled
compile_on_miss t cache filename src (some rule) = (cache, ok rule)
compile_on_miss t cache filename src none =
    store_compiled cache (t.hash src) (compile_source t filename src)

unfoldable pub cached_compile : Tools → Cache → Str → Str → Cache × Compiled Rule
unfolding compile_on_miss
cached_compile t cache filename src =
    compile_on_miss t cache filename src (lookup (t.hash src) cache)

-- What the loop over the compiled files reads of one.
pub record File : Type 0 where
  pub name : Str
  pub rule : Rule
  pub key : Str

unfoldable pub compile_file : Tools → Cache → Str → Option Str → Cache × Compiled File
unfolding cached_compile
compile_file t cache name none = (cache, err (unreadable name))
compile_file t cache name (some src) =
    let (cache', r) = cached_compile t cache name src in
    (cache', and_then r (λ rule. ok (record { name = name; rule = rule; key = t.hash src })))

-- All files are compiled; the first error in their order is reported.
unfoldable pub compile_files :
    Tools → Cache → List (Str × Option Str) → Cache × Compiled (List File)
unfolding compile_file
compile_files t cache [] = (cache, ok [])
compile_files t cache ((name, src) ∷ rest) =
    let (cache', file) = compile_file t cache name src in
    let (cache'', files) = compile_files t cache' rest in
    (cache'', and_then file (λ f. and_then files (λ fs. ok (f ∷ fs))))

-- The loop that looks for a rule_id seen before.
unfoldable pub distinct_rules : StrMap Str → List File → Compiled (List Rule)
distinct_rules seen [] = ok []
distinct_rules seen (f ∷ fs) =
    let rest = distinct_rules (insert f.rule.rule_id f.name seen) fs in
    elim (lookup f.rule.rule_id seen) [
      | some prev ↦ err (duplicate_rule_id f.rule.rule_id prev f.name)
      | none ↦ and_then rest (λ rules. ok (f.rule ∷ rules))
    ]

unfoldable pub uses : Str → List File → Bool
uses key [] = false
uses key (f ∷ fs) = str_eq f.key key || uses key fs

unfoldable pub prune : List File → Cache → Cache
unfolding uses
prune used cache = select (λ (entry : Str × Rule). uses entry.0 used) cache

unfoldable pub make_snapshot : Tools → Option Str → List Rule → Compiled Snapshot
make_snapshot t none rules = err no_snapshot_id
make_snapshot t (some id) rules =
    ok (build_index (record { id = id; rules = t.sort rules; by_type = none; wildcard = [] }))

unfoldable pub with_rules :
    Tools → Cache → Option Str → List File → Compiled (List Rule) → Cache × Compiled Snapshot
unfolding make_snapshot
with_rules t cache id files (err e) = (cache, err e)
with_rules t cache id files (ok rules) = (prune files cache, make_snapshot t id rules)

unfoldable pub with_files :
    Tools → Option Str → Cache × Compiled (List File) → Cache × Compiled Snapshot
unfolding with_rules
with_files t id (cache, err e) = (cache, err e)
with_files t id (cache, ok files) = with_rules t cache id files (distinct_rules [] files)

-- `found` says whether the directory is there, `id` is the UUID drawn for the snapshot.
unfoldable pub compile_dir :
    Tools → Cache → Bool → List (Str × Option Str) → Option Str → Cache × Compiled Snapshot
unfolding with_files
compile_dir t cache found files id =
    if found then with_files t id (compile_files t cache files) else (cache, err no_directory)
