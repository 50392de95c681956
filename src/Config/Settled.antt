-- ===== src/Config/Settled.antt =====
-- What a loaded configuration satisfies (Load of config/config.go).
use fruitfly.Base.{
  if◌then◌else◌, if_elim, Str, str, ℤ, pos, ◌≤ℤ◌, leb_ℤ, ◌≡◌, refl, ap, ◌∙◌, subst, ◌≢◌, ◌⊎◌, inl,
  inr, Bool, true, false, Option, none, some, List, [], ◌∷◌, arith,
}
use fruitfly.Config.{
  Config, invalid_emit, invalid_log_level, ok, err, FileRead, missing, failed, contents, or_str,
  or_count, apply_defaults, is_log_level, is_emit, with_routing, check_self, validate, settle,
  empty_config, parsed, load_file, load,
}

-- A configuration that the process can start with.
pub record IsValid (c : Config) : Type 0 where
  pub addressed : c.address ≢ []
  pub ruled : c.rules_dir ≢ []
  pub stored : c.duckdb_path ≢ []
  pub staffed : pos 1 ≤ℤ c.workers
  pub levelled : is_log_level c.log_level ≡ true
  pub emitting : is_emit c.emit ≡ true
  pub routed : c.routing_field ≢ []
  pub named : (c.cluster_peers ≡ []) ⊎ (c.cluster_self ≢ [])

or_str_idem : (s d : Str) → or_str (or_str s d) d ≡ or_str s d
or_str_idem [] [] = refl
or_str_idem [] (x ∷ d) = refl
or_str_idem (c ∷ s) d = refl

or_str_filled : (s d : Str) → d ≢ [] → or_str s d ≢ []
or_str_filled [] d h = h
or_str_filled (c ∷ s) d h = λ e. cc

or_count_idem : (n cpus : ℤ) → or_count (or_count n cpus) cpus ≡ or_count n cpus
or_count_idem n cpus =
    if_elim (λ w. or_count w cpus ≡ w) (leb_ℤ n (pos 0)) cpus n (λ _. same (leb_ℤ cpus (pos 0)))
      (λ h. rw h refl)
  where
    same : (b : Bool) → (if b then cpus else cpus) ≡ cpus
    same true = refl
    same false = refl

or_count_positive : (n cpus : ℤ) → pos 1 ≤ℤ cpus → pos 1 ≤ℤ or_count n cpus
or_count_positive n cpus h = if_elim (λ w. pos 1 ≤ℤ w) (leb_ℤ n (pos 0)) cpus n (λ _. h) (above n)
  where
    above : (n : ℤ) → leb_ℤ n (pos 0) ≡ false → pos 1 ≤ℤ n
    above n k = ground arith

defaults_idem :
    (cpus : ℤ) (c : Config)
    → apply_defaults cpus (with_routing (apply_defaults cpus c))
      ≡ with_routing (apply_defaults cpus c)
unfolding apply_defaults
defaults_idem cpus c =
    rw
      (
        or_str_idem c.address (str ":8080"),
        or_str_idem c.rules_dir (str "./rules"),
        or_str_idem c.duckdb_path (str "fruitfly.duckdb"),
        or_count_idem c.workers cpus,
        or_str_idem c.log_level (str "info"),
        or_str_idem c.emit (str "all"),
      )
      refl

routing_idem : (c : Config) → with_routing (with_routing c) ≡ with_routing c
routing_idem c = rw (or_str_idem c.routing_field (str "entity_id")) refl

-- The values with which a configuration passes.
Passes : Config → Type 0
Passes c =
    (is_log_level c.log_level ≡ true)
    × (is_emit c.emit ≡ true)
    × ((c.cluster_peers ≡ []) ⊎ (c.cluster_self ≢ []))

self_passes :
    (c u : Config) (ps : List Str) (self : Str)
    → check_self c ps self ≡ ok u
    → (c ≡ u) × ((ps ≡ []) ⊎ (self ≢ []))
unfolding check_self
self_passes c u (p ∷ ps) [] h = cc
self_passes c u (p ∷ ps) (x ∷ self) h = (same h, inr (λ e. cc))
  where
    same : ok c ≡ ok u → c ≡ u
    same h = cc
self_passes c u [] self h = (same h, inl refl)
  where
    same : ok c ≡ ok u → c ≡ u
    same h = cc

validate-Passes : (c u : Config) → validate c ≡ ok u → (with_routing c ≡ u) × Passes c
unfolding validate Passes
validate-Passes c u h = by_level (is_log_level c.log_level) (is_emit c.emit) refl refl h
  where
    by_level :
        (a b : Bool)
        → is_log_level c.log_level ≡ a
        → is_emit c.emit ≡ b
        → (if a
            then (if b
                then check_self (with_routing c) c.cluster_peers c.cluster_self
                else err (invalid_emit c.emit))
            else err (invalid_log_level c.log_level))
          ≡ ok u
        → (with_routing c ≡ u) × Passes c
    by_level true true p q k =
        let s = self_passes (with_routing c) u c.cluster_peers c.cluster_self k in
        (s.0, (p, q, s.1))
    by_level true false p q k = cc
    by_level false b p q k = cc

passes_self :
    (c : Config) (ps : List Str) (self : Str)
    → (ps ≡ []) ⊎ (self ≢ [])
    → check_self c ps self ≡ ok c
unfolding check_self
passes_self c [] self h = refl
passes_self c (p ∷ ps) (x ∷ self) h = refl
passes_self c (p ∷ ps) [] (inl h) = cc
passes_self c (p ∷ ps) [] (inr h) = absurd (h refl)

Passes-validate : (c : Config) → Passes c → validate c ≡ ok (with_routing c)
unfolding validate Passes
Passes-validate c (l, e, n) =
    rw (l, e) (passes_self (with_routing c) c.cluster_peers c.cluster_self n)

settle-IsValid :
    (cpus : ℤ) (c u : Config)
    → pos 1 ≤ℤ cpus
    → settle cpus c ≡ ok u
    → IsValid u × (settle cpus u ≡ ok u)
unfolding apply_defaults Passes
settle-IsValid cpus c u positive h =
    let (made, p) = validate-Passes (apply_defaults cpus c) u h in
    subst (λ x. IsValid x × (settle cpus x ≡ ok x)) made (filled p, again p)
  where
    again :
        Passes (apply_defaults cpus c)
        → settle cpus (with_routing (apply_defaults cpus c))
          ≡ ok (with_routing (apply_defaults cpus c))
    again p =
        ap validate (defaults_idem cpus c)
        ∙ Passes-validate (with_routing (apply_defaults cpus c)) p
        ∙ ap (λ (x : Config). ok x) (routing_idem (apply_defaults cpus c))

    filled : Passes (apply_defaults cpus c) → IsValid (with_routing (apply_defaults cpus c))
    filled (l, e, n) = record {
      addressed = or_str_filled c.address (str ":8080") (λ e. cc);
      ruled = or_str_filled c.rules_dir (str "./rules") (λ e. cc);
      stored = or_str_filled c.duckdb_path (str "fruitfly.duckdb") (λ e. cc);
      staffed = or_count_positive c.workers cpus positive;
      levelled = l;
      emitting = e;
      routed = or_str_filled c.routing_field (str "entity_id") (λ e. cc);
      named = n;
    }

-- A configuration that Load returns is valid: no address, path or routing field is empty, there is at
-- least one worker, the level and the policy are among those that the process knows, and peers come
-- with the name of this one; and it is settled: applying the defaults and the checks to it once more
-- gives it again. The machine has at least one processor.
pub load-IsValid :
    (unmarshal : Str → Option Config) (cpus : ℤ) (path : Str) (file : FileRead) (c : Config)
    → pos 1 ≤ℤ cpus
    → load unmarshal cpus path file ≡ ok c
    → IsValid c × (settle cpus c ≡ ok c)
unfolding load load_file parsed
load-IsValid unmarshal cpus [] file c p h = settle-IsValid cpus empty_config c p h
load-IsValid unmarshal cpus (x ∷ path) missing c p h = settle-IsValid cpus empty_config c p h
load-IsValid unmarshal cpus (x ∷ path) failed c p h = cc
load-IsValid unmarshal cpus (x ∷ path) (contents s) c p h = by_parse (unmarshal s) h
  where
    by_parse : (o : Option Config) → parsed cpus o ≡ ok c → IsValid c × (settle cpus c ≡ ok c)
    by_parse none k = cc
    by_parse (some u) k = settle-IsValid cpus u c p k
