-- ===== src/Rules/Reloader/Current.antt =====
-- A reload of rules/reloader.go over a directory that does not change meanwhile.
use fruitfly.Base.{
  if◌then◌else◌, Bool-cases, Str, str_eq, str_eq→eq, ◌≡◌, refl, sym, ap, ◌∙◌, subst, ◌≢◌, ◌⊎◌, inl,
  inr, Bool, true, false, ◌&&◌, Option, none, some, List, [],
}
use fruitfly.Rules.Snapshot.{Snapshot}
use fruitfly.Rules.Compile.{
  File, Tools, Cache, Compiled, ok, err, CompileError, no_directory, compile_files, with_files,
  compile_dir,
}
use fruitfly.Rules.Compile.Caching.{
  IsCoherent, files-IsCoherent, empty-IsCoherent, compile_dir-IsCoherent,
}
use fruitfly.Rules.Reloader.{
  Disk, frames, sort_files, read_files, digest_of, hash_dir, Reloader, compile_disk, is_unchanged,
  published, do_reload,
}
use fruitfly.Rules.Reloader.Served.{
  IsPlainDisk, with_content, read_files-with_content, frames_injective, Serves, IsHonest,
  changed_reload, unchanged_reload, hash_dir-some, unread_err,
}

module _ (t : Tools) (digest : Str → Str)
    (same_load : (n m src : Str) → t.load n src ≡ t.load m src)
    (no_collision : (a b : Str) → t.hash a ≡ t.hash b → a ≡ b)
    (distinct : (a b : Str) → digest a ≡ digest b → a ≡ b)
    (nonempty : (a : Str) → digest a ≢ []) where
  -- The snapshot is the directory's, or the directory does not compile and the snapshot is kept.
  abbrev pub IsCurrent : Reloader → Disk → Option Str → Reloader → Type 0
  IsCurrent r d id u =
      Serves t digest u.snapshot d
      ⊎ ((e : CompileError) × ((compile_disk t digest [] d id).1 ≡ err e)
          × (u.snapshot ≡ r.snapshot))

  -- Directories with the same hash hold the same files.
  same_files :
      (d c : Disk) (h : Str)
      → IsPlainDisk d
      → IsPlainDisk c
      → hash_dir digest d ≡ some h
      → hash_dir digest c ≡ some h
      → (sort_files d.files ≡ sort_files c.files) × (d.pattern_ok ≡ true)
  same_files d c h p q e k =
      let (ok_d, (fs, read_d, hash_d)) = hash_dir-some digest d h e in
      let (ok_c, (gs, read_c, hash_c)) = hash_dir-some digest c h k in
      let same =
        frames_injective fs gs (p fs read_d) (q gs read_c)
          (distinct (frames fs) (frames gs) (sym hash_d ∙ hash_c)) in
      (
        read_files-with_content (sort_files d.files) fs read_d
            ∙ ap with_content same
            ∙ sym (read_files-with_content (sort_files c.files) gs read_c),
        ok_d,
      )

  compiles_found :
      (b : Bool) (files : List (Str × Option Str)) (id : Option Str) (snap : Snapshot)
      → (compile_dir t [] b files id).1 ≡ ok snap
      → (compile_dir t [] true files id).1 ≡ ok snap
  unfolding compile_dir
  compiles_found true files id snap h = h
  compiles_found false files id snap h = cc

  unchanged-IsCurrent :
      (r : Reloader) (d c : Disk) (id : Option Str) (b : Bool)
      → d.found ≡ b
      → sort_files d.files ≡ sort_files c.files
      → d.pattern_ok ≡ true
      → Serves t digest r.snapshot c
      → IsCurrent r d id r
  unchanged-IsCurrent r d c id true f same p (i, s) = inl (
    i,
    rw (f, p, same) (compiles_found (c.found && c.pattern_ok) (sort_files c.files) i r.snapshot s),
  )
  unchanged-IsCurrent r d c id false f same p s = inr (no_directory, missing, refl)
    where
      missing : (compile_disk t digest [] d id).1 ≡ err no_directory
      missing = rw f (unfold compile_dir in refl)

  failed_files :
      (id : Option Str) (q : Cache × Compiled (List File)) (e : CompileError)
      → q.1 ≡ err e
      → (with_files t id q).1 ≡ err e
  unfolding with_files
  failed_files id (cache, ok fs) e h = cc
  failed_files id (cache, err x) e h = cc

  unread_dir :
      (b : Bool) (l : List (Str × Option Str)) (id : Option Str)
      → read_files l ≡ none
      → (e : CompileError) × ((compile_dir t [] b l id).1 ≡ err e)
  unfolding compile_dir
  unread_dir false l id h = (no_directory, refl)
  unread_dir true l id h =
      let (e, k) = unread_err t l h in
      (
        e,
        failed_files id (compile_files t [] l) e
            ((files-IsCoherent t same_load no_collision [] l (empty-IsCoherent t)).0 ∙ k),
      )

  -- Without a hash there is no snapshot.
  unhashed_err :
      (d : Disk) (id : Option Str)
      → hash_dir digest d ≡ none
      → (e : CompileError) × ((compile_disk t digest [] d id).1 ≡ err e)
  unfolding hash_dir digest_of
  unhashed_err d id h = by_pattern d.pattern_ok (read_files (sort_files d.files)) refl refl h
    where
      no_pattern :
          (b : Bool) (l : List (Str × Option Str))
          → (compile_dir t [] (b && false) l id).1 ≡ err no_directory
      no_pattern true l = unfold compile_dir in refl
      no_pattern false l = unfold compile_dir in refl

      by_pattern :
          (b : Bool) (o : Option (List (Str × Str)))
          → d.pattern_ok ≡ b
          → read_files (sort_files d.files) ≡ o
          → (if b then digest_of digest o else none) ≡ none
          → (e : CompileError) × ((compile_disk t digest [] d id).1 ≡ err e)
      by_pattern true none p q k = unread_dir (d.found && d.pattern_ok) (sort_files d.files) id q
      by_pattern true (some fs) p q k = cc
      by_pattern false o p q k = (no_directory, rw p (no_pattern d.found (sort_files d.files)))

  -- What is claimed of a reload.
  abbrev Reloaded : Reloader → Disk → Option Str → Reloader → Type 0
  Reloaded r d id u = IsHonest t digest u × IsCurrent r d id u

  published-Reloaded :
      (r : Reloader) (d : Disk) (id : Option Str) (o : Option Str) (q : Cache × Compiled Snapshot)
      → IsPlainDisk d
      → IsHonest t digest r
      → hash_dir digest d ≡ o
      → q.1 ≡ (compile_disk t digest [] d id).1
      → IsCoherent t q.0
      → Reloaded r d id (published t digest r o q)
  unfolding published
  published-Reloaded r d id o (cache, err e) p v h k c =
      (record { coherent = c; hashed = v.hashed }, inr (e, sym k, refl))
  published-Reloaded r d id (some h) (cache, ok snap) p v e k c =
      (record { coherent = c; hashed = inr (d, p, e, (id, sym k)) }, inl (id, sym k))
  published-Reloaded r d id none (cache, ok snap) p v e k c =
      let (x, f) = unhashed_err d id e in absurd (cc (k, f))

  unchanged-Reloaded :
      (r : Reloader) (d : Disk) (id : Option Str) (h : Str)
      → IsPlainDisk d
      → IsHonest t digest r
      → hash_dir digest d ≡ some h
      → h ≡ r.last_hash
      → Reloaded r d id r
  unchanged-Reloaded r d id h p v e same = (
    v,
    elim v.hashed [
      | inl none_yet ↦
          (let (_, (fs, _, made)) = hash_dir-some digest d h e in
            absurd (nonempty (frames fs) (sym made ∙ same ∙ none_yet)))
      | inr (c, q, k, s) ↦
          (let (files, fine) = same_files d c h p q e (k ∙ ap (λ x. some x) (sym same)) in
            unchanged-IsCurrent r d c id d.found refl files fine s)
    ],
  )

  changed-Reloaded :
      (r : Reloader) (d : Disk) (id : Option Str) (o : Option Str)
      → IsPlainDisk d
      → IsHonest t digest r
      → hash_dir digest d ≡ o
      → is_unchanged t digest o r.last_hash ≡ false
      → Reloaded r d id (do_reload t digest r d d id)
  changed-Reloaded r d id o p v e n =
      let same =
        compile_dir-IsCoherent t same_load no_collision r.cache (d.found && d.pattern_ok)
          (sort_files d.files) id v.coherent in
      subst (Reloaded r d id) (sym (changed_reload t digest r d d id o e n))
        (published-Reloaded r d id o (compile_disk t digest r.cache d id) p v e same.0 same.1)

  -- A reload of a directory that does not change while it runs makes what is served current: the
  -- snapshot is then the compiled form of the directory, or the directory does not compile and the
  -- snapshot is the one before. This holds from a reloader whose stored hash, if any, is that of the
  -- directory it serves, and leaves such a one. Taken for granted: no two contents and no two sources
  -- have the same hash, no hash is empty, no file name holds a NUL, and a source loads the same
  -- whatever the name of its file.
  pub do_reload-IsCurrent :
      (r : Reloader) (d : Disk) (id : Option Str)
      → IsPlainDisk d
      → IsHonest t digest r
      → IsHonest t digest (do_reload t digest r d d id)
        × IsCurrent r d id (do_reload t digest r d d id)
  do_reload-IsCurrent r d id p v = by_hash (hash_dir digest d) refl
    where
      kept :
          (h : Str)
          → hash_dir digest d ≡ some h
          → str_eq h r.last_hash ≡ true
          → Reloaded r d id (do_reload t digest r d d id)
      kept h e s =
          subst (Reloaded r d id) (sym (unchanged_reload t digest r d id h e s))
            (unchanged-Reloaded r d id h p v e (str_eq→eq h r.last_hash s))

      by_hash :
          (o : Option Str) → hash_dir digest d ≡ o → Reloaded r d id (do_reload t digest r d d id)
      by_hash none e = changed-Reloaded r d id none p v e refl
      by_hash (some h) e = elim (Bool-cases (str_eq h r.last_hash)) [
        | inl s ↦ kept h e s
        | inr n ↦ changed-Reloaded r d id (some h) p v e n
      ]
