-- ===== src/Tests/Reloading.antt =====
-- Runs of rules/reloader.go.
use fruitfly.Base.{
  some_injective, ◌==◌, length, Str, str, str_eq, lookup, insert, ℕ, ◌≡◌, refl, subst, ◌≢◌, inl,
  true, false, none, some, List, [], ◌∷◌,
}
use fruitfly.Rules.Snapshot.{Snapshot, build_index, merge_by_priority}
use fruitfly.Rules.Compile.{
  ok, compile_source, string_global, int_global, compile_files, cached_compile, distinct_rules,
  compile_dir,
}
use fruitfly.Rules.Compile.Caching.{empty-IsCoherent}
use fruitfly.Rules.Reloader.{
  Disk, frames, sort_files, read_files, hash_dir, Reloader, compile_disk, do_reload,
}
use fruitfly.Rules.Reloader.Frames.{IsPlain, ArePlain, read_frames, read_frames-frames}
use fruitfly.Rules.Reloader.Served.{IsPlainDisk, IsHonest, reload_all, do_reload_masked}
use fruitfly.Rules.Reloader.Current.{IsCurrent, do_reload-IsCurrent}
use fruitfly.Tests.Compiling.{tools, rule_of}

abbrev digest : Str → Str
digest s = 1 ∷ s

abbrev disk_of : Str → Disk
disk_of src = record { found = true; pattern_ok = true; files = (str "a.star", some src) ∷ [] }

abbrev snapshot_of : Str → Str → Snapshot
snapshot_of id src =
    build_index (record { id = id; rules = rule_of src ∷ []; by_type = none; wildcard = [] })

abbrev fresh : Reloader
fresh = record {
  snapshot = snapshot_of (str "s0") (str "z");
  last_hash = [];
  cache = [];
  ready = true;
  requested = false;
}

abbrev two_contents : List (Str × Str)
two_contents = (str "a.star", str "a") ∷ (str "b.star", 0 ∷ str "b") ∷ []

star-IsPlain : (b : ℕ) → (b == 0) ≡ false → IsPlain (b ∷ str ".star")
star-IsPlain b h = (h, (refl, (refl, (refl, (refl, (refl, tt))))))

read_frames-frames_example :
    read_frames (length (frames two_contents)) (frames two_contents) ≡ some two_contents
read_frames-frames_example =
    read_frames-frames two_contents (star-IsPlain b'a' refl, (star-IsPlain b'b' refl, tt))

changed_compiles :
    (compile_disk tools digest [] (disk_of (str "b")) (some (str "s1"))).1
    ≡ ok (snapshot_of (str "s1") (str "b"))
unfolding compile_dir sort_files compile_files cached_compile compile_source string_global
    int_global lookup insert distinct_rules str_eq merge_by_priority
changed_compiles = refl

do_reload_masked_example :
    (reload_all tools digest
      (do_reload tools digest fresh (disk_of (str "a")) (disk_of (str "b")) (some (str "s1")))
      (disk_of (str "a"))
      (some (str "s2") ∷ [])).snapshot
    ≡ snapshot_of (str "s1") (str "b")
do_reload_masked_example =
    do_reload_masked tools digest fresh (disk_of (str "a")) (disk_of (str "b"))
      (digest (frames ((str "a.star", str "a") ∷ []))) (some (str "s1"))
      (snapshot_of (str "s1") (str "b")) (some (str "s2") ∷ [])
      (unfold hash_dir sort_files read_files in refl) (unfold str_eq in refl) changed_compiles

disk_of-IsPlainDisk : (src : Str) → IsPlainDisk (disk_of src)
unfolding sort_files read_files
disk_of-IsPlainDisk src files h = subst ArePlain (some_injective h) (star-IsPlain b'a' refl, tt)

fresh-IsHonest : IsHonest tools digest fresh
fresh-IsHonest = record { coherent = empty-IsCoherent tools; hashed = inl refl }

digest_injective : (a b : Str) → digest a ≡ digest b → a ≡ b
digest_injective a b h = cc

digest_nonempty : (a : Str) → digest a ≢ []
digest_nonempty a h = cc

do_reload-IsCurrent_example :
    IsHonest tools digest
      (do_reload tools digest fresh (disk_of (str "a")) (disk_of (str "a")) (some (str "s1")))
    × IsCurrent tools digest
        (λ n m src. refl)
        (λ a b h. h)
        digest_injective
        digest_nonempty
        fresh
        (disk_of (str "a"))
        (some (str "s1"))
        (do_reload tools digest fresh (disk_of (str "a")) (disk_of (str "a")) (some (str "s1")))
do_reload-IsCurrent_example =
    do_reload-IsCurrent tools digest (λ n m src. refl) (λ a b h. h) digest_injective digest_nonempty
      fresh (disk_of (str "a")) (some (str "s1")) (disk_of-IsPlainDisk (str "a")) fresh-IsHonest
