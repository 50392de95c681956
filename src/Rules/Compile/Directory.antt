-- ===== src/Rules/Compile/Directory.antt =====
-- What a compiled directory holds (CompileDir of rules/compiler.go).
use fruitfly.Base.{
  if◌then◌else◌, if_elim, length, All, select, Str, str_eq, str_eq_refl, StrMap, lookup, insert,
  lookup-insert, ℕ, suc, ◌≡◌, refl, sym, ap, ◌∙◌, subst, ◌≢◌, Bool, true, false, ◌||◌, Option, none,
  some, List, [], ◌∷◌,
}
use mathlib.Core.List.{Perm}
use fruitfly.Rules.Snapshot.{Rule, Snapshot, is_wild, is_of, build_index, rules_for_event}
use fruitfly.Rules.Snapshot.Merge.{IsSorted}
use fruitfly.Rules.Snapshot.Index.{rules_for_event-build_index}
use fruitfly.Rules.Compile.{
  Compiled, ok, err, and_then, Tools, Cache, File, compile_file, compile_files, distinct_rules,
  duplicate_rule_id, make_snapshot, with_rules, with_files, compile_dir,
}

-- No two rules have the same identifier.
abbrev pub IsUnique : List Rule → Type 0
IsUnique [] = Unit {0}
IsUnique (r ∷ rs) = All (λ (s : Rule). s.rule_id ≢ r.rule_id) rs × IsUnique rs

abbrev OnOk {ℓ κ} : {A : Type ℓ} → (A → Type κ) → Compiled A → Type κ
OnOk P (ok a) = P a
OnOk P (err e) = Unit

and_then-OnOk {ℓ ℓ' κ κ'} :
    {A : Type ℓ} {B : Type ℓ'} (P : A → Type κ) (Q : B → Type κ') (r : Compiled A)
    (f : A → Compiled B)
    → OnOk P r
    → ((a : A) → P a → OnOk Q (f a))
    → OnOk Q (and_then r f)
and_then-OnOk P Q (ok a) f h k = k a h
and_then-OnOk P Q (err e) f h k = tt

-- One compiled file for each file.
compile_files-length :
    (t : Tools) (cache : Cache) (files : List (Str × Option Str))
    → OnOk (λ fs. length fs ≡ length files) (compile_files t cache files).1
unfolding compile_files
compile_files-length t cache [] = refl
compile_files-length t cache ((name, src) ∷ rest) =
    and_then-OnOk (λ f. Unit {0}) (λ fs. length fs ≡ suc (length rest))
      (compile_file t cache name src).1 _ (any (compile_file t cache name src).1)
      (λ f _.
        and_then-OnOk (λ fs. length fs ≡ length rest) (λ fs. length fs ≡ suc (length rest)) _ _
          (compile_files-length t (compile_file t cache name src).0 rest) (λ fs h. ap suc h))
  where
    any : (r : Compiled File) → OnOk (λ f. Unit {0}) r
    any (ok f) = tt
    any (err e) = tt

-- The rules are as many as the files, have distinct identifiers, and none seen before.
abbrev IsDistinct : StrMap Str → ℕ → List Rule → Type 0
IsDistinct seen n rules =
    (length rules ≡ n) × IsUnique rules × All (λ (r : Rule). lookup r.rule_id seen ≡ none) rules

unseen :
    (id name : Str) (seen : StrMap Str) (rs : List Rule)
    → All (λ (r : Rule). lookup r.rule_id (insert id name seen) ≡ none) rs
    → All (λ (r : Rule). r.rule_id ≢ id) rs × All (λ (r : Rule). lookup r.rule_id seen ≡ none) rs
unseen id name seen [] h = (tt, tt)
unseen id name seen (r ∷ rs) h =
    let rest = unseen id name seen rs h.1 in
    let k = sym (lookup-insert id r.rule_id name seen) ∙ h.0 in
    ((differs (str_eq id r.rule_id) refl k, rest.0), (older (str_eq id r.rule_id) k, rest.1))
  where
    differs :
        (b : Bool)
        → str_eq id r.rule_id ≡ b
        → (if b then some name else lookup r.rule_id seen) ≡ none
        → r.rule_id ≢ id
    differs true e k x = cc
    differs false e k x = cc (str_eq_refl id, x, e)

    older :
        (b : Bool)
        → (if b then some name else lookup r.rule_id seen) ≡ none
        → lookup r.rule_id seen ≡ none
    older true k = cc
    older false k = k

distinct_rules-IsDistinct :
    (seen : StrMap Str) (files : List File)
    → OnOk (IsDistinct seen (length files)) (distinct_rules seen files)
unfolding distinct_rules
distinct_rules-IsDistinct seen [] = (refl, tt, tt)
distinct_rules-IsDistinct seen (f ∷ fs) =
    step (distinct_rules-IsDistinct (insert f.rule.rule_id f.name seen) fs)
      (lookup f.rule.rule_id seen) refl
  where
    rest : Compiled (List Rule)
    rest = distinct_rules (insert f.rule.rule_id f.name seen) fs

    grown :
        (rules : List Rule)
        → lookup f.rule.rule_id seen ≡ none
        → IsDistinct (insert f.rule.rule_id f.name seen) (length fs) rules
        → IsDistinct seen (suc (length fs)) (f.rule ∷ rules)
    grown rules e h =
        let u = unseen f.rule.rule_id f.name seen rules h.2 in (ap suc h.0, (u.0, h.1), (e, u.1))

    step :
        OnOk (IsDistinct (insert f.rule.rule_id f.name seen) (length fs)) rest
        → (o : Option Str) → lookup f.rule.rule_id seen ≡ o
        → OnOk (IsDistinct seen (suc (length fs))) (elim o [
          | some prev ↦ err (duplicate_rule_id f.rule.rule_id prev f.name)
          | none ↦ and_then rest (λ rules. ok (f.rule ∷ rules))
        ])
    step h (some prev) e = tt
    step h none e =
        and_then-OnOk (IsDistinct (insert f.rule.rule_id f.name seen) (length fs))
          (IsDistinct seen (suc (length fs))) rest _ h (λ rules k. grown rules e k)

-- The snapshot of `n` files, with what its index answers.
abbrev pub IsSnapshotOf : ℕ → Snapshot → Type 0
IsSnapshotOf n snap =
    ((rules : List Rule) × (length rules ≡ n) × IsUnique rules × Perm snap.rules rules)
    × ((e : Str)
        → IsSorted (rules_for_event snap e)
          × Perm (rules_for_event snap e) (select (λ r. is_wild r || is_of e r) snap.rules))

module _ (t : Tools) (sorts : (l : List Rule) → IsSorted (t.sort l))
    (keeps : (l : List Rule) → Perm (t.sort l) l) where
  make_snapshot-IsSnapshotOf :
      (id : Option Str) (rules : List Rule) (n : ℕ)
      → IsDistinct [] n rules
      → OnOk (IsSnapshotOf n) (make_snapshot t id rules)
  unfolding make_snapshot build_index rules_for_event
  make_snapshot-IsSnapshotOf none rules n h = tt
  make_snapshot-IsSnapshotOf (some id) rules n h = (
    (rules, h.0, h.1, keeps rules),
    λ e.
        rules_for_event-build_index
          (record { id = id; rules = t.sort rules; by_type = none; wildcard = [] }) e (sorts rules),
  )

  with_rules-IsSnapshotOf :
      (cache : Cache) (id : Option Str) (files : List File) (n : ℕ) (r : Compiled (List Rule))
      → OnOk (IsDistinct [] n) r
      → OnOk (IsSnapshotOf n) (with_rules t cache id files r).1
  unfolding with_rules
  with_rules-IsSnapshotOf cache id files n (ok rules) h = make_snapshot-IsSnapshotOf id rules n h
  with_rules-IsSnapshotOf cache id files n (err e) h = tt

  with_files-IsSnapshotOf :
      (id : Option Str) (n : ℕ) (c : Cache × Compiled (List File))
      → OnOk (λ fs. length fs ≡ n) c.1
      → OnOk (IsSnapshotOf n) (with_files t id c).1
  unfolding with_files
  with_files-IsSnapshotOf id n (cache, ok files) h =
      with_rules-IsSnapshotOf cache id files n (distinct_rules [] files) (
        subst (λ k. OnOk (IsDistinct [] k) (distinct_rules [] files)) h
          (distinct_rules-IsDistinct [] files))
  with_files-IsSnapshotOf id n (cache, err e) h = tt

  -- A directory compiles to a snapshot of all of it: of one rule for each file, no two of them with the
  -- same rule_id; and for each event type the index answers with exactly the rules for it and for "*",
  -- by falling priority. Sorting is taken to sort by falling priority and to keep the rules.
  pub compile_dir-IsSnapshotOf :
      (cache : Cache) (found : Bool) (files : List (Str × Option Str)) (id : Option Str)
      (snap : Snapshot)
      → (compile_dir t cache found files id).1 ≡ ok snap
      → IsSnapshotOf (length files) snap
  unfolding compile_dir
  compile_dir-IsSnapshotOf cache found files id snap h =
      subst (OnOk (IsSnapshotOf (length files))) h (
        if_elim (λ (c : Cache × Compiled Snapshot). OnOk (IsSnapshotOf (length files)) c.1) found _
          _
          (λ _.
            with_files-IsSnapshotOf id (length files) (compile_files t cache files)
              (compile_files-length t cache files))
          (λ _. tt))
