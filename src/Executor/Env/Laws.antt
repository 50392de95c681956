-- ===== src/Executor/Env/Laws.antt =====
-- What counter(), memo() and regex_match() promise (executor/env.go, rules/udfs.go).
use fruitfly.Base.{
  ltb, ltb→lt, Bool-cases, Option-cases, length, get_or, take, drop, count_if, length-append, Str,
  str_eq, str_eq→eq, str_eq_refl, str_eq_iff, ℤ, pos, ◌<ℤ◌, ltb_ℤ, StrMap, lookup, insert,
  lookup-insert, ℕ, suc, ◌+◌, ◌-◌, ◌*◌, ◌%◌, ◌^◌, ◌<◌, ◌≡◌, refl, sym, ap, ◌∙◌, ◌↔◌, ◌⊎◌, inl, inr,
  Bool, true, false, ◌&&◌, not, Option, none, some, List, [], ◌∷◌, ◌++◌, arith,
}
use fruitfly.Starlark.{Value}
use fruitfly.Executor.Counters.{
  CounterKey, CounterStore, empty_store, max_window_seconds, store_increment, store_sum,
}
use fruitfly.Executor.Counters.Ring.{InOrder, is_counted}
use fruitfly.Executor.Counters.Shards.{
  run_store, times_of, store_sum-run_store, run_store-append, times_of-append,
}
use fruitfly.Executor.Env.{
  CounterError, CounterReply, total, refused, window_too_small, window_too_large, not_affine,
  affine_key, counter, matched, invalid_regex, regex_cached, cache_and_match, regex_match,
  RegexReply, Memo, memo, memo_cached, memo_store,
}

scope_of :
    (key entity : Str)
    → str_eq (take (length entity) key) entity ≡ true
    → key ≡ entity ++ drop (length entity) key
unfolding str_eq
scope_of [] [] h = refl
scope_of [] (y ∷ ys) h = cc
scope_of (x ∷ xs) [] h = refl
scope_of (x ∷ xs) (y ∷ ys) h = ground (arith, scope_of xs ys)

colon_at :
    (key entity : Str) (scope : Str)
    → key ≡ entity ++ scope
    → get_or key (length entity) 0 ≡ get_or scope 0 0
colon_at key [] scope e = ap (λ k. get_or k 0 0) e
colon_at key (y ∷ ys) scope e =
    ap (λ k. get_or k (suc (length ys)) 0) e ∙ colon_at (ys ++ scope) ys scope refl

take-append : (xs ys : Str) → take (length xs) (xs ++ ys) ≡ xs
take-append [] ys = refl
take-append (x ∷ xs) ys = ap (λ t. x ∷ t) (take-append xs ys)

-- A key scoped under an entity: the entity, a colon, and at least one byte.
abbrev pub IsScoped : Str → Str → Type 0
IsScoped key entity = (b : ℕ) × (scope : Str) × (key ≡ entity ++ b':' ∷ b ∷ scope)

IsScoped-of_rest :
    (key entity rest : Str)
    → key ≡ entity ++ rest
    → length entity + 1 < length key
    → get_or rest 0 0 ≡ b':'
    → IsScoped key entity
IsScoped-of_rest key entity [] e l c = cc
IsScoped-of_rest key entity (x ∷ []) e l c =
    absurd (omega (arith, ap length e, length-append entity (x ∷ [])))
IsScoped-of_rest key entity (x ∷ b ∷ scope) e l c =
    (b, scope, e ∙ ap (λ y. entity ++ y ∷ b ∷ scope) c)

-- A counter key is affine to an entity exactly when it is the entity, or the entity followed by a
-- colon and a non-empty scope.
pub affine_key_iff :
    (key entity : Str) → (affine_key key entity ≡ true) ↔ ((key ≡ entity) ⊎ IsScoped key entity)
unfolding affine_key
affine_key_iff key entity = (to, from)
  where
    to : affine_key key entity ≡ true → (key ≡ entity) ⊎ IsScoped key entity
    to h = elim (Bool-cases (str_eq key entity)) [
      | inl e ↦ inl (str_eq→eq key entity e)
      | inr e ↦
          (let e' : ltb (length entity + 1) (length key) ≡ true = ground arith in
            let c : get_or key (length entity) 0 ≡ b':' = ground arith in
            let p : str_eq (take (length entity) key) entity ≡ true = ground arith in
            let k = scope_of key entity p in
            inr (
              IsScoped-of_rest key entity (drop (length entity) key) k (ltb→lt _ _ e')
                (sym (colon_at key entity _ k) ∙ c)))
    ]

    from : (key ≡ entity) ⊎ IsScoped key entity → affine_key key entity ≡ true
    from (inl e) = rw (e, str_eq_refl entity)
    from (inr (b, scope, e)) = ground (
      arith,
      ap length e,
      length-append entity (b':' ∷ b ∷ scope),
      colon_at key entity (b':' ∷ b ∷ scope) e,
      ap (take (length entity)) e,
      take-append entity (b':' ∷ b ∷ scope),
      str_eq_refl entity,
    )

-- The key may be counted: no restriction, or an affine key.
abbrev pub Allowed : Bool → Str → Str → Type 0
Allowed affinity key entity = (affinity ≡ false) ⊎ (affine_key key entity ≡ true)

-- Why counter() is not to be answered: a window outside of 1 to 3600 seconds, or a foreign key.
abbrev pub IsRefusable : Bool → Str → Str → ℤ → Type 0
IsRefusable affinity entity_id cur_entity window =
    (window <ℤ pos 1)
    ⊎ ((pos 3600 <ℤ window) ⊎ ((affinity ≡ true) × (affine_key entity_id cur_entity ≡ false)))

module _ (store : CounterStore) (affinity : Bool) (cur_entity entity_id event_type : Str)
    (window : ℤ) (now later : ℕ) where
  refused_cause :
      (e : CounterError)
      → (counter store affinity cur_entity entity_id event_type window now later).1 ≡ refused e
      → IsRefusable affinity entity_id cur_entity window
  unfolding counter
  refused_cause e h = elim (Bool-cases (ltb_ℤ window (pos 1))) [
    | inl a ↦ inl (ground arith)
    | inr a ↦ elim (Bool-cases (ltb_ℤ (pos max_window_seconds) window)) [
      | inl b ↦ inr (inl (ground arith))
      | inr b ↦ inr (inr (ground arith))
    ]
  ]

  cause_refused :
      IsRefusable affinity entity_id cur_entity window
      → (e : CounterError) × ((counter store affinity cur_entity entity_id event_type window now
            later).1
          ≡ refused e)
  unfolding counter
  cause_refused h = elim (Bool-cases (ltb_ℤ window (pos 1))) [
    | inl a ↦ (window_too_small, rw a)
    | inr a ↦ elim (Bool-cases (ltb_ℤ (pos max_window_seconds) window)) [
      | inl b ↦ (window_too_large, rw (a, b))
      | inr b ↦ (not_affine, rw (a, b) (ground arith))
    ]
  ]

  unchanged :
      (e : CounterError)
      → (counter store affinity cur_entity entity_id event_type window now later).1 ≡ refused e
      → counter store affinity cur_entity entity_id event_type window now later ≡ (store, refused e)
  unfolding counter
  unchanged e h = ground arith

  -- counter() refuses exactly the windows outside of 1 to 3600 seconds and, in cluster mode, the keys
  -- that are not affine to the event's entity; and these calls leave the store as it was.
  pub counter-refused :
      (((e : CounterError) × ((counter store affinity cur_entity entity_id event_type window now
              later).1
            ≡ refused e))
        ↔ IsRefusable affinity entity_id cur_entity window)
      × (((e : CounterError) × (counter store affinity cur_entity entity_id event_type window now
                later
              ≡ (store, refused e)))
          ↔ IsRefusable affinity entity_id cur_entity window)
  counter-refused = (
    (λ h. refused_cause h.0 h.1, cause_refused),
    (
      λ h. refused_cause h.0 (ap (λ (q : CounterStore × CounterReply). q.1) h.1),
      λ k. let h = cause_refused k in (h.0, unchanged h.0 h.1),
    ),
  )

counter_allowed :
    (store : CounterStore) (affinity : Bool) (cur_entity : Str) (key : CounterKey) (w now later : ℕ)
    → ¬ IsRefusable affinity key.entity_id cur_entity (pos w)
    → counter store affinity cur_entity key.entity_id key.event_type (pos w) now later ≡ (
      store_increment store key now,
      total (store_sum (store_increment store key now) key (later - w)),
    )
unfolding counter
counter_allowed store affinity cur_entity key w now later fine =
    elim (Bool-cases (ltb_ℤ (pos w) (pos 1))) [
      | inl a ↦ absurd (fine (inl (ground arith)))
      | inr a ↦ elim (Bool-cases (ltb_ℤ (pos max_window_seconds) (pos w))) [
        | inl b ↦ absurd (fine (inr (inl (ground arith))))
        | inr b ↦ elim (Bool-cases (affinity && not (affine_key key.entity_id cur_entity))) [
          | inl c ↦ absurd (fine (inr (inr (ground arith))))
          | inr c ↦ rw (a, b, c)
        ]
      ]
    ]

-- After any history of counter increments, a call that is not refused answers with the number of
-- increments of its key whose minute begins within the window, its own included, when the window is
-- shorter than an hour (or the minute has begun), the times of the key do not fall and stay below
-- 2 ^ 32 minutes, and they are fewer than 2 ^ 32.
pub counter_total :
    (ops : List (CounterKey × ℕ)) (affinity : Bool) (cur_entity : Str) (key : CounterKey)
    (w now later : ℕ)
    → ¬ IsRefusable affinity key.entity_id cur_entity (pos w)
    → InOrder 0 later (times_of key ops ++ now ∷ [])
    → later < 60 * 2 ^ 32
    → length (times_of key ops ++ now ∷ []) < 2 ^ 32
    → w < 3600 + later % 60
    → counter
        (run_store empty_store ops)
        affinity
        cur_entity
        key.entity_id
        key.event_type
        (pos w)
        now
        later
      ≡ (
        run_store empty_store (ops ++ (key, now) ∷ []),
        total (count_if (is_counted (later - w)) (times_of key ops ++ now ∷ [])),
      )
unfolding counter
counter_total ops affinity cur_entity key w now later fine order word few short =
    counter_allowed (run_store empty_store ops) affinity cur_entity key w now later fine
    ∙ ap (λ s. (s, total (store_sum s key (later - w)))) (sym store)
    ∙ ap (λ n. (run_store empty_store ops', total n))
        (sum ∙ ap (count_if (is_counted (later - w))) times)
  where
    ops' : List (CounterKey × ℕ)
    ops' = ops ++ (key, now) ∷ []

    times : times_of key ops' ≡ times_of key ops ++ now ∷ []
    times = times_of-append ops key now

    store : run_store empty_store ops' ≡ store_increment (run_store empty_store ops) key now
    store = run_store-append ops empty_store key now

    sum :
        store_sum (run_store empty_store ops') key (later - w)
        ≡ count_if (is_counted (later - w)) (times_of key ops')
    sum =
        store_sum-run_store ops' key later (later - w) (rw times order) word (rw times few)
          (omega arith)

module _ {R : Type 0} (compile : Str → Option R) (match_string : R → Str → Bool) where
  -- Every cached expression is the compiled form of its pattern.
  pub record IsCoherent (cache : StrMap R) : Type 0 where
    pub compiled : (p : Str) (re : R) → lookup p cache ≡ some re → compile p ≡ some re

  -- The reply without a cache.
  abbrev uncached : Str → Option R → RegexReply
  uncached text none = invalid_regex
  uncached text (some re) = matched (match_string re text)

  insert-IsCoherent :
      (cache : StrMap R) (pattern : Str) (re : R)
      → compile pattern ≡ some re
      → IsCoherent cache
      → IsCoherent (insert pattern re cache)
  insert-IsCoherent cache pattern re e v = record {
    compiled = λ p x h.
        ground (arith, lookup-insert pattern p re cache, str_eq_iff pattern p, v.compiled p x);
  }

  -- From a cache in which every expression is the compiled form of its pattern, regex_match()
  -- answers as if it compiled the pattern anew, and leaves such a cache.
  pub regex_match-IsCoherent :
      (cache : StrMap R) (pattern text : Str)
      → IsCoherent cache
      → ((regex_match compile match_string cache pattern text).1 ≡ uncached text (compile pattern))
        × IsCoherent (regex_match compile match_string cache pattern text).0
  unfolding regex_match
  regex_match-IsCoherent cache pattern text v = elim (Option-cases (lookup pattern cache)) [
    | inr (re, e) ↦ rw (e, regex_cached) (rw (v.compiled pattern re e), v)
    | inl e ↦ elim (Option-cases (compile pattern)) [
      | inl c ↦ rw (e, regex_cached, c, cache_and_match) (refl, v)
      | inr (re, c) ↦
          rw (e, regex_cached, c, cache_and_match) (refl, insert-IsCoherent cache pattern re c v)
    ]
  ]

memo_store-some :
    (key : Str) (r : Memo × Option Value) (v : Value)
    → (memo_store key r).1 ≡ some v
    → lookup key (memo_store key r).0 ≡ some v
unfolding memo_store
memo_store-some key (cache, none) v h = cc
memo_store-some key (cache, some x) v h = lookup-insert key key x cache ∙ rw (str_eq_refl key) h

-- Once memo() has returned a value under a key, the next memo() of that key in the event returns
-- that value, whatever its function, without calling it and without changing the cache.
pub memo-memo :
    (cache : Memo) (key : Str) (fn other : Memo → Memo × Option Value) (v : Value)
    → (memo cache key fn).1 ≡ some v
    → memo (memo cache key fn).0 key other ≡ ((memo cache key fn).0, some v)
unfolding memo
memo-memo cache key fn other v h = ap (memo_cached (memo cache key fn).0 key other) stored
  where
    cached :
        (o : Option Value)
        → lookup key cache ≡ o
        → (memo_cached cache key fn o).1 ≡ some v
        → lookup key (memo_cached cache key fn o).0 ≡ some v
    cached none e k = memo_store-some key (fn cache) v k
    cached (some x) e k = e ∙ k

    stored : lookup key (memo cache key fn).0 ≡ some v
    stored = cached (lookup key cache) refl h
