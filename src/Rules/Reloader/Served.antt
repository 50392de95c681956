-- ===== src/Rules/Reloader/Served.antt =====
-- What the reloader of rules/reloader.go serves after a reload.
use fruitfly.Base.{
  some_injective, if◌then◌else◌, length, Str, str_eq, str_eq_refl, ◌≡◌, refl, sym, ap, ◌∙◌, ◌⊎◌,
  Bool, true, false, Option, none, some, List, [], ◌∷◌,
}
use fruitfly.Rules.Snapshot.{Snapshot}
use fruitfly.Rules.Compile.{
  unreadable, File, Tools, Cache, Compiled, ok, err, and_then, CompileError,
}
use fruitfly.Rules.Compile.Caching.{IsCoherent, plain_file, plain_files}
use fruitfly.Rules.Reloader.{
  Disk, frames, sort_files, read_files, digest_of, hash_dir, Reloader, compile_disk, is_unchanged,
  published, do_reload,
}
use fruitfly.Rules.Reloader.Frames.{ArePlain, read_frames, read_frames-frames}

-- The names in the directory hold no NUL.
abbrev pub IsPlainDisk : Disk → Type 0
IsPlainDisk d =
    (files : List (Str × Str)) → read_files (sort_files d.files) ≡ some files → ArePlain files

pub with_content : List (Str × Str) → List (Str × Option Str)
with_content [] = []
with_content ((name, content) ∷ fs) = (name, some content) ∷ with_content fs

-- What was read determines the listing.
pub read_files-with_content :
    (l : List (Str × Option Str)) (fs : List (Str × Str))
    → read_files l ≡ some fs
    → l ≡ with_content fs
unfolding read_files with_content
read_files-with_content [] fs h = ap with_content (some_injective h)
read_files-with_content ((name, none) ∷ l) fs h = cc
read_files-with_content ((name, some content) ∷ l) fs h =
    by_rest (read_files l) (read_files-with_content l) h
  where
    by_rest :
        (o : Option (List (Str × Str)))
        → ((gs : List (Str × Str)) → o ≡ some gs → l ≡ with_content gs)
        → (elim o [ none ↦ none | some rest ↦ some ((name, content) ∷ rest) ]) ≡ some fs
        → (name, some content) ∷ l ≡ with_content fs
    by_rest none rec k = cc
    by_rest (some rest) rec k =
        ap (λ l. (name, some content) ∷ l) (rec rest refl) ∙ ap with_content (some_injective k)

pub frames_injective :
    (a b : List (Str × Str)) → ArePlain a → ArePlain b → frames a ≡ frames b → a ≡ b
frames_injective a b p q e =
    some_injective
      (sym (read_frames-frames a p) ∙ ap (λ s. read_frames (length s) s) e ∙ read_frames-frames b q)

module _ (t : Tools) (digest : Str → Str) where
  -- The snapshot is the compiled form of the directory.
  abbrev pub Serves : Snapshot → Disk → Type 0
  Serves snap d = (id : Option Str) × ((compile_disk t digest [] d id).1 ≡ ok snap)

  -- The stored hash is that of the directory whose compiled form is served, or there is none.
  pub record IsHonest (r : Reloader) : Type 0 where
    pub coherent : IsCoherent t r.cache
    pub hashed :
        (r.last_hash ≡ [])
        ⊎ ((d : Disk) × IsPlainDisk d
            × (hash_dir digest d ≡ some r.last_hash)
            × Serves r.snapshot d)

  -- Reloads of a directory that stays as it is.
  pub reload_all : Reloader → Disk → List (Option Str) → Reloader
  reload_all r d [] = r
  reload_all r d (id ∷ ids) = reload_all (do_reload t digest r d d id) d ids

  kept_reload :
      (r : Reloader) (d : Disk) (ids : List (Option Str))
      → hash_dir digest d ≡ some r.last_hash
      → reload_all r d ids ≡ r
  unfolding reload_all do_reload
  kept_reload r d [] h = refl
  kept_reload r d (id ∷ ids) h = rw (h, str_eq_refl r.last_hash) (kept_reload r d ids h)

  published_ok :
      (r : Reloader) (h : Str) (snap : Snapshot) (q : Cache × Compiled Snapshot)
      → q.1 ≡ ok snap
      → ((published t digest r (some h) q).snapshot ≡ snap)
        × ((published t digest r (some h) q).last_hash ≡ h)
  unfolding published
  published_ok r h snap (cache, ok s) e = (ok_injective e, refl)
    where
      ok_injective : ◌≡◌ {A = Compiled Snapshot} (ok s) (ok snap) → s ≡ snap
      ok_injective e = cc
  published_ok r h snap (cache, err x) e = cc

  pub unchanged_reload :
      (r : Reloader) (d : Disk) (id : Option Str) (h : Str)
      → hash_dir digest d ≡ some h
      → str_eq h r.last_hash ≡ true
      → do_reload t digest r d d id ≡ r
  unfolding do_reload
  unchanged_reload r d id h e n = rw (e, n) refl

  pub changed_reload :
      (r : Reloader) (d d' : Disk) (id : Option Str) (o : Option Str)
      → hash_dir digest d ≡ o
      → is_unchanged t digest o r.last_hash ≡ false
      → do_reload t digest r d d' id ≡ published t digest r o (compile_disk t digest r.cache d' id)
  unfolding do_reload
  changed_reload r d d' id o e n = rw (e, n) refl

  -- The stored hash outlives its directory: when the directory is changed between the hash and the
  -- compilation and changed back before the next reload, what is served is the compiled form of the
  -- change, after any number of further reloads of the directory as it is.
  pub do_reload_masked :
      (r : Reloader) (d d' : Disk) (h : Str) (id : Option Str) (snap : Snapshot)
      (ids : List (Option Str))
      → hash_dir digest d ≡ some h
      → str_eq h r.last_hash ≡ false
      → (compile_disk t digest r.cache d' id).1 ≡ ok snap
      → (reload_all (do_reload t digest r d d' id) d ids).snapshot ≡ snap
  do_reload_masked r d d' h id snap ids e n c =
      let p = published_ok r h snap (compile_disk t digest r.cache d' id) c in
      let first = changed_reload r d d' id (some h) e n in
      let kept =
        kept_reload (do_reload t digest r d d' id) d ids
          (e ∙ ap (λ x. some x) (sym (ap (λ (x : Reloader). x.last_hash) first ∙ p.1))) in
      ap (λ (x : Reloader). x.snapshot) (kept ∙ first) ∙ p.0

pub hash_dir-some :
    (digest : Str → Str) (d : Disk) (h : Str)
    → hash_dir digest d ≡ some h
    → (d.pattern_ok ≡ true)
      × ((fs : List (Str × Str)) × (read_files (sort_files d.files) ≡ some fs)
          × (h ≡ digest (frames fs)))
unfolding hash_dir digest_of
hash_dir-some digest d h e = by_pattern d.pattern_ok (read_files (sort_files d.files)) refl refl e
  where
    by_pattern :
        (b : Bool) (o : Option (List (Str × Str)))
        → d.pattern_ok ≡ b
        → read_files (sort_files d.files) ≡ o
        → (if b then digest_of digest o else none) ≡ some h
        → (d.pattern_ok ≡ true)
          × ((fs : List (Str × Str)) × (read_files (sort_files d.files) ≡ some fs)
              × (h ≡ digest (frames fs)))
    by_pattern true (some fs) p q k = (p, (fs, q, sym (some_injective k)))
    by_pattern true none p q k = cc
    by_pattern false o p q k = cc

-- A file that cannot be read fails the compilation.
pub unread_err :
    (t : Tools) (l : List (Str × Option Str))
    → read_files l ≡ none
    → (e : CompileError) × (plain_files t l ≡ err e)
unfolding read_files plain_files plain_file
unread_err t [] h = cc
unread_err t ((name, none) ∷ l) h = (unreadable name, refl)
unread_err t ((name, some content) ∷ l) h = by_rest (read_files l) refl h (unread_err t l)
  where
    with_rest :
        (f : Compiled File)
        → ((e : CompileError) × (plain_files t l ≡ err e))
        → (e : CompileError) × (and_then f (λ x. and_then (plain_files t l) (λ xs. ok (x ∷ xs)))
            ≡ err e)
    with_rest (ok f) (e, k) = (e, rw k refl)
    with_rest (err e) k = (e, refl)

    by_rest :
        (o : Option (List (Str × Str)))
        → read_files l ≡ o
        → (elim o [ none ↦ none | some rest ↦ some ((name, content) ∷ rest) ]) ≡ none
        → (read_files l ≡ none → (e : CompileError) × (plain_files t l ≡ err e))
        → (e : CompileError) × (plain_files t ((name, some content) ∷ l) ≡ err e)
    by_rest none p k rec = with_rest (plain_file t name (some content)) (rec p)
    by_rest (some rest) p k rec = cc
