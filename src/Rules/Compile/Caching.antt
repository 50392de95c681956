-- ===== src/Rules/Compile/Caching.antt =====
-- The compile cache of rules/compiler.go: CompileDir with it and without it.
use fruitfly.Base.{
  if◌then◌else◌, Str, str_eq, str_eq→eq, lookup, insert, lookup-insert, ◌≡◌, refl, sym, ap, ◌∙◌,
  subst, Bool, true, false, Option, none, some, List, [], ◌∷◌,
}
use fruitfly.Rules.Snapshot.{Rule}
use fruitfly.Rules.Compile.{
  Compiled, ok, err, and_then, Tools, Cache, File, unreadable, make_rule, compile_source,
  store_compiled, compile_on_miss, cached_compile, compile_file, compile_files, distinct_rules,
  uses, prune, with_rules, with_files, compile_dir,
}

-- Every entry is the compiled form of a source, under its hash.
pub record IsCoherent (t : Tools) (cache : Cache) : Type 0 where
  pub entries :
      (key : Str) (rule : Rule)
      → lookup key cache ≡ some rule
      → (name : Str) × (src : Str) × (key ≡ t.hash src) × (compile_source t name src ≡ ok rule)

pub empty-IsCoherent : (t : Tools) → IsCoherent t []
unfolding lookup
empty-IsCoherent t = record { entries = λ key rule h. cc }

-- One file, and all files, compiled without a cache.
unfoldable pub plain_file : Tools → Str → Option Str → Compiled File
plain_file t name none = err (unreadable name)
plain_file t name (some src) =
    and_then (compile_source t name src)
      (λ rule. ok (record { name = name; rule = rule; key = t.hash src }))

unfoldable pub plain_files : Tools → List (Str × Option Str) → Compiled (List File)
unfolding plain_file
plain_files t [] = ok []
plain_files t ((name, src) ∷ rest) =
    and_then (plain_file t name src) (λ f. and_then (plain_files t rest) (λ fs. ok (f ∷ fs)))

pruned_entry :
    (used : List File) (k key : Str) (r rule : Rule) (cache : Cache)
    → (b : Bool) → uses k used ≡ b
    → (c : Bool) → str_eq k key ≡ c
    → (lookup key (prune used cache) ≡ some rule
        → (uses key used ≡ true) × (lookup key cache ≡ some rule))
    → lookup key (if b then (k, r) ∷ prune used cache else prune used cache) ≡ some rule
    → (uses key used ≡ true) × ((if c then some r else lookup key cache) ≡ some rule)
unfolding lookup
pruned_entry used k key r rule cache true u true e rec h = (
  sym (ap (λ x. uses x used) (str_eq→eq k key e)) ∙ u,
  subst (λ x. (if x then some r else lookup key (prune used cache)) ≡ some rule) e h,
)
pruned_entry used k key r rule cache true u false e rec h =
    rec (subst (λ x. (if x then some r else lookup key (prune used cache)) ≡ some rule) e h)
pruned_entry used k key r rule cache false u true e rec h =
    let (now, rest) = rec h in absurd (cc (str_eq→eq k key e, u, now))
pruned_entry used k key r rule cache false u false e rec h = rec h

lookup-prune :
    (used : List File) (cache : Cache) (key : Str) (rule : Rule)
    → lookup key (prune used cache) ≡ some rule
    → (uses key used ≡ true) × (lookup key cache ≡ some rule)
unfolding prune lookup
lookup-prune used [] key rule h = cc
lookup-prune used ((k, r) ∷ cache) key rule h =
    pruned_entry used k key r rule cache (uses k used) refl (str_eq k key) refl
      (lookup-prune used cache key rule) h

module _ (t : Tools) (same_load : (n m src : Str) → t.load n src ≡ t.load m src)
    (no_collision : (a b : Str) → t.hash a ≡ t.hash b → a ≡ b) where
  source_named : (n m src : Str) → compile_source t n src ≡ compile_source t m src
  unfolding compile_source
  source_named n m src = ap (make_rule t) (same_load n m src)

  stored-IsCoherent :
      (cache : Cache) (name src : Str) (r : Compiled Rule)
      → IsCoherent t cache
      → compile_source t name src ≡ r
      → ((store_compiled cache (t.hash src) r).1 ≡ r)
        × IsCoherent t (store_compiled cache (t.hash src) r).0
  unfolding store_compiled
  stored-IsCoherent cache name src (err e) h k = (refl, h)
  stored-IsCoherent cache name src (ok rule) h k = (refl, record { entries = grown })
    where
      pick :
          (key : Str) (found : Rule) (b : Bool)
          → str_eq (t.hash src) key ≡ b
          → (if b then some rule else lookup key cache) ≡ some found
          → (n : Str) × (s : Str) × (key ≡ t.hash s) × (compile_source t n s ≡ ok found)
      pick key found true e f =
          (name, src, sym (str_eq→eq (t.hash src) key e), k ∙ ap (λ (x : Rule). ok x) (same_rule f))
        where
          same_rule : some rule ≡ some found → rule ≡ found
          same_rule f = cc
      pick key found false e f = h.entries key found f

      grown :
          (key : Str) (found : Rule)
          → lookup key (insert (t.hash src) rule cache) ≡ some found
          → (n : Str) × (s : Str) × (key ≡ t.hash s) × (compile_source t n s ≡ ok found)
      grown key found f =
          pick key found (str_eq (t.hash src) key) refl
            (sym (lookup-insert (t.hash src) key rule cache) ∙ f)

  missed-IsCoherent :
      (cache : Cache) (name src : Str) (o : Option Rule)
      → IsCoherent t cache
      → lookup (t.hash src) cache ≡ o
      → ((compile_on_miss t cache name src o).1 ≡ compile_source t name src)
        × IsCoherent t (compile_on_miss t cache name src o).0
  unfolding compile_on_miss
  missed-IsCoherent cache name src (some rule) h e =
      let (n, s, key, made) = h.entries (t.hash src) rule e in
      (sym (ap (compile_source t name) (no_collision src s key) ∙ source_named name n s ∙ made), h)
  missed-IsCoherent cache name src none h e =
      stored-IsCoherent cache name src (compile_source t name src) h refl

  file-IsCoherent :
      (cache : Cache) (name : Str) (src : Option Str)
      → IsCoherent t cache
      → ((compile_file t cache name src).1 ≡ plain_file t name src)
        × IsCoherent t (compile_file t cache name src).0
  unfolding compile_file cached_compile plain_file
  file-IsCoherent cache name none h = (refl, h)
  file-IsCoherent cache name (some src) h =
      let m = missed-IsCoherent cache name src (lookup (t.hash src) cache) h refl in
      (
        ap (λ r. and_then r (λ rule. ok (record { name = name; rule = rule; key = t.hash src })))
            m.0,
        m.1,
      )

  pub files-IsCoherent :
      (cache : Cache) (files : List (Str × Option Str))
      → IsCoherent t cache
      → ((compile_files t cache files).1 ≡ plain_files t files)
        × IsCoherent t (compile_files t cache files).0
  unfolding compile_files plain_files
  files-IsCoherent cache [] h = (refl, h)
  files-IsCoherent cache ((name, src) ∷ rest) h =
      let f = file-IsCoherent cache name src h in
      let fs = files-IsCoherent (compile_file t cache name src).0 rest f.1 in
      (
        ap
              (λ a. and_then a (λ x.
                and_then (compile_files t (compile_file t cache name src).0 rest).1
                  (λ xs. ok (x ∷ xs))))
              f.0
            ∙ ap (λ b. and_then (plain_file t name src) (λ x. and_then b (λ xs. ok (x ∷ xs)))) fs.0,
        fs.1,
      )

  pruned-IsCoherent :
      (used : List File) (cache : Cache) → IsCoherent t cache → IsCoherent t (prune used cache)
  pruned-IsCoherent used cache h = record {
    entries = λ key rule e. h.entries key rule (lookup-prune used cache key rule e).1;
  }

  with_rules-IsCoherent :
      (cache : Cache) (id : Option Str) (files : List File) (r : Compiled (List Rule))
      → IsCoherent t cache
      → IsCoherent t (with_rules t cache id files r).0
  unfolding with_rules
  with_rules-IsCoherent cache id files (ok rules) h = pruned-IsCoherent files cache h
  with_rules-IsCoherent cache id files (err e) h = h

  with_files-IsCoherent :
      (id : Option Str) (cache : Cache) (r : Compiled (List File))
      → IsCoherent t cache
      → IsCoherent t (with_files t id (cache, r)).0
  unfolding with_files
  with_files-IsCoherent id cache (ok files) h =
      with_rules-IsCoherent cache id files (distinct_rules [] files) h
  with_files-IsCoherent id cache (err e) h = h

  -- Only the cache of the outcome depends on the cache of the files.
  with_files_same :
      (id : Option Str) (a b : Cache) (r : Compiled (List File))
      → (with_files t id (a, r)).1 ≡ (with_files t id (b, r)).1
  unfolding with_files with_rules
  with_files_same id a b (ok files) = rules_same (distinct_rules [] files)
    where
      rules_same :
          (r : Compiled (List Rule)) → (with_rules t a id files r).1 ≡ (with_rules t b id files r).1
      rules_same (ok rules) = refl
      rules_same (err e) = refl
  with_files_same id a b (err e) = refl

  -- The cache is invisible: from a cache whose entries are compiled forms of sources under their hash,
  -- CompileDir gives the snapshot or the error that it gives without one, and leaves such a cache.
  -- Taken for granted: what a source loads to does not depend on the name of its file, and no two
  -- sources have the same hash.
  pub compile_dir-IsCoherent :
      (cache : Cache) (found : Bool) (files : List (Str × Option Str)) (id : Option Str)
      → IsCoherent t cache
      → ((compile_dir t cache found files id).1 ≡ (compile_dir t [] found files id).1)
        × IsCoherent t (compile_dir t cache found files id).0
  unfolding compile_dir
  compile_dir-IsCoherent cache true files id h =
      let a = files-IsCoherent cache files h in
      let b = files-IsCoherent [] files (empty-IsCoherent t) in
      let here = compile_files t cache files in
      let there = compile_files t [] files in
      (
        ap (λ r. (with_files t id (here.0, r)).1) (a.0 ∙ sym b.0)
            ∙ with_files_same id here.0 there.0 there.1,
        with_files-IsCoherent id here.0 here.1 a.1,
      )
  compile_dir-IsCoherent cache false files id h = (refl, h)
