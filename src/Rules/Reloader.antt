-- ===== src/Rules/Reloader.antt =====
-- rules/reloader.go: the watcher that publishes new snapshots. A directory is a `Disk`; a reload reads
-- it twice, once to hash and once to compile, so it takes two. SHA-256 in hexadecimal is the parameter
-- `digest`; the names of files in a directory are distinct and hold no NUL.
use fruitfly.Base.{
  ltb, leb, ◌==◌, if◌then◌else◌, leb→le, le→leb, ltb→lt, ==_iff, &&-true, Bool-cases, Option-cases,
  if_elim, is_some, length, get_or, set, replicate, take, drop, All, In, select, count_if,
  length-append, length-set, All-append, All-In, In-append_left, In-append_right, In-append,
  select-true, select-false, select-append, length-select-le, Str, str, str_eq, str_eq→eq,
  str_eq_refl, str_eq_iff, has_prefix, ℤ, pos, negsuc, pos_part, neg_part, ◌≤ℤ◌, ◌<ℤ◌, ltb_ℤ, leb_ℤ,
  eq_ℤ, eq_ℤ→eq, ≤ℤ_antisymm, StrMap, lookup, insert, lookup-insert, str_leb, sort_strings,
  sort_strings-perm, IsAscending, sort_strings-IsAscending, ℕ, zero, suc, ◌+◌, ◌-◌, ◌*◌, ◌/◌, ◌%◌,
  ◌^◌, ◌≤◌, ◌<◌, ◌≡◌, refl, sym, ap, ◌∙◌, subst, ◌≢◌, ◌↔◌, ◌⊎◌, inl, inr, Bool, true, false, ◌&&◌,
  ◌||◌, not, Option, none, some, List, [], ◌∷◌, ◌++◌, map, arith,
}
use mathlib.Core.Logic.{dite}
use mathlib.Core.WellFounded.{Acc}
use native.Mathlib.Decide.{dec_lt}
use fruitfly.Rules.Snapshot.{Snapshot}
use fruitfly.Rules.Compile.{Tools, Cache, Compiled, ok, err, compile_dir}
pub mod Frames
pub mod Served
pub mod Current

acc_below : (k n : ℕ) → n < k → Acc ◌<◌ n
acc_below zero n h = absurd (omega arith)
acc_below (suc k) n h = Acc.intro n (λ m l. acc_below k m (omega arith))

unfoldable pub all_below : (n : ℕ) → Acc ◌<◌ n
unfolding acc_below
all_below n = acc_below (suc n) n (omega arith)

pub tenth-lt : (n : ℕ) → 9 < n → n / 10 < n
tenth-lt n h = omega arith

decimal_acc : (n : ℕ) → Acc ◌<◌ n → Str
decimal_acc n (Acc.intro _ smaller) =
    dite (dec_lt 9 n)
      (λ h. decimal_acc (n / 10) (smaller (n / 10) (tenth-lt n h)) ++ (b'0' + n % 10) ∷ [])
      (λ _. (b'0' + n) ∷ [])

-- fmt's %d of a length.
unfoldable pub decimal : ℕ → Str
unfolding decimal_acc all_below
decimal n = decimal_acc n (all_below n)

-- What is written to the hash for one file.
abbrev pub frame : Str × Str → Str
frame (name, content) = name ++ 0 ∷ (decimal (length content) ++ 0 ∷ content)

unfoldable pub frames : List (Str × Str) → Str
frames [] = []
frames (f ∷ fs) = frame f ++ frames fs

-- `found`: os.Stat succeeds; `pattern_ok`: the pattern of Glob is well-formed. A file is its base name
-- and its bytes, none where it cannot be read.
pub record Disk : Type 0 where
  pub found : Bool
  pub pattern_ok : Bool
  pub files : List (Str × Option Str)

insert_file : Str × Option Str → List (Str × Option Str) → List (Str × Option Str)
insert_file f [] = f ∷ []
insert_file (n, d) ((m, e) ∷ fs) =
    let rest = insert_file (n, d) fs in if str_leb n m then (n, d) ∷ (m, e) ∷ fs else (m, e) ∷ rest

-- sort.Strings over the paths, which differ in the base names only.
unfoldable pub sort_files : List (Str × Option Str) → List (Str × Option Str)
unfolding insert_file
sort_files [] = []
sort_files (f ∷ fs) = insert_file f (sort_files fs)

unfoldable pub read_files : List (Str × Option Str) → Option (List (Str × Str))
read_files [] = some []
read_files ((name, none) ∷ fs) = none
read_files ((name, some content) ∷ fs) = elim (read_files fs) [
  | none ↦ none
  | some rest ↦ some ((name, content) ∷ rest)
]

unfoldable pub digest_of : (Str → Str) → Option (List (Str × Str)) → Option Str
digest_of digest none = none
digest_of digest (some files) = some (digest (frames files))

unfoldable pub hash_dir : (Str → Str) → Disk → Option Str
unfolding digest_of
hash_dir digest d =
    if d.pattern_ok then digest_of digest (read_files (sort_files d.files)) else none

pub record Reloader : Type 0 where
  -- The pointer that the workers load.
  pub snapshot : Snapshot
  -- Empty before the first hash.
  pub last_hash : Str
  pub cache : Cache
  pub ready : Bool
  -- A request waits in reloadCh.
  pub requested : Bool

abbrev pub or_hash : Option Str → Str → Str
or_hash none h = h
or_hash (some g) h = g

module _ (t : Tools) (digest : Str → Str) where
  -- CompileDir of a directory, whose files Glob gives in order; a malformed pattern fails there as a missing directory does.
  abbrev pub compile_disk : Cache → Disk → Option Str → Cache × Compiled Snapshot
  compile_disk cache d id = compile_dir t cache (d.found && d.pattern_ok) (sort_files d.files) id

  started : Option Str → Cache × Compiled Snapshot → Option Reloader
  started hash (cache, err e) = none
  started hash (cache, ok snap) = some (record {
    snapshot = snap;
    last_hash = or_hash hash [];
    cache = cache;
    ready = true;
    requested = false;
  })

  -- NewReloader; `d` is the directory at the hash, `d'` at the compilation.
  unfoldable pub new_reloader : Cache → Disk → Disk → Option Str → Option Reloader
  unfolding started
  new_reloader cache d d' id = started (hash_dir digest d) (compile_disk cache d' id)

  -- hashErr == nil && hash == r.lastHash
  abbrev pub is_unchanged : Option Str → Str → Bool
  is_unchanged none last = false
  is_unchanged (some h) last = str_eq h last

  unfoldable pub published : Reloader → Option Str → Cache × Compiled Snapshot → Reloader
  published r hash (cache, err e) = record r { cache = cache }
  published r hash (cache, ok snap) = record r {
    snapshot = snap;
    last_hash = or_hash hash r.last_hash;
    cache = cache;
    ready = true;
  }

  -- doReload
  unfoldable pub do_reload : Reloader → Disk → Disk → Option Str → Reloader
  unfolding published
  do_reload r d d' id =
      let hash = hash_dir digest d in
      if is_unchanged hash r.last_hash then r else published r hash (compile_disk r.cache d' id)

  -- Reload: a request that already waits is enough.
  abbrev pub request : Reloader → Reloader
  request r = record r { requested = true }

  -- What the select of Run receives: a tick or a fired timer comes with the directory as it is read,
  -- and the identifier for a snapshot.
  pub data Signal : Type 0 where
    cancelled fs_event fs_closed fs_error : Signal
    request_taken polled debounced : Disk → Disk → Option Str → Signal

  pub record Watch : Type 0 where
    pub reloader : Reloader
    pub running : Bool
    pub watching : Bool
    -- The debounce timer runs.
    pub armed : Bool

  reloaded : Watch → Disk → Disk → Option Str → Watch
  unfolding do_reload
  reloaded w d d' id = record w { reloader = do_reload w.reloader d d' id }

  -- One turn of the loop; a channel that has nothing to receive is not chosen.
  turn : Watch → Signal → Watch
  unfolding reloaded
  turn w cancelled = record w { running = false }
  turn w (request_taken d d' id) =
      if w.reloader.requested
      then reloaded (record w { reloader = record w.reloader { requested = false } }) d d' id
      else w
  turn w (polled d d' id) = reloaded w d d' id
  turn w (debounced d d' id) = if w.armed then reloaded (record w { armed = false }) d d' id else w
  turn w fs_event = if w.watching then record w { armed = true } else w
  turn w fs_closed = record w { watching = false }
  turn w fs_error = w

  unfoldable pub step : Watch → Signal → Watch
  unfolding turn
  step w s = if w.running then turn w s else w

  -- Run, over the signals that arrive.
  unfoldable pub run : Watch → List Signal → Watch
  unfolding step
  run w [] = w
  run w (s ∷ ss) = run (step w s) ss
