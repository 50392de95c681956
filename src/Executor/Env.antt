-- ===== src/Executor/Env.antt =====
-- executor/env.go and the stateful builtins of rules/udfs.go: counter(), memo() and regex_match()
-- on a worker. The clock is read twice in Counter, so it enters as two times; a compiled regular
-- expression and the call of a Starlark function are parameters.
use fruitfly.Base.{
  ltb, leb, ◌==◌, if◌then◌else◌, leb→le, le→leb, ltb→lt, ==_iff, &&-true, Bool-cases, Option-cases,
  is_some, length, get_or, set, replicate, take, drop, All, In, select, count_if, length-append,
  length-set, All-append, All-In, In-append_left, In-append_right, In-append, select-append,
  length-select-le, Str, str, str_eq, str_eq→eq, str_eq_refl, str_eq_iff, has_prefix, ℤ, pos,
  negsuc, pos_part, neg_part, ◌≤ℤ◌, ◌<ℤ◌, ltb_ℤ, leb_ℤ, eq_ℤ, eq_ℤ→eq, ≤ℤ_antisymm, StrMap, lookup,
  insert, lookup-insert, ℕ, zero, suc, ◌+◌, ◌-◌, ◌*◌, ◌/◌, ◌%◌, ◌^◌, ◌≤◌, ◌<◌, ◌≡◌, refl, sym, ap,
  ◌∙◌, subst, ◌≢◌, ◌↔◌, ◌⊎◌, inl, inr, Bool, true, false, ◌&&◌, ◌||◌, not, Option, none, some, List,
  [], ◌∷◌, ◌++◌, map, arith,
}
use fruitfly.Starlark.{Value}
use fruitfly.Executor.Counters.{
  CounterKey, CounterStore, max_window_seconds, store_increment, store_sum,
}
pub mod Laws

pub data CounterError : Type 0 where
  window_too_small window_too_large not_affine : CounterError

pub data CounterReply : Type 0 where
  total : ℕ → CounterReply
  refused : CounterError → CounterReply

unfoldable pub affine_key : Str → Str → Bool
affine_key key entity =
    str_eq key entity
    || (ltb (length entity + 1) (length key)
        && (get_or key (length entity) 0 == b':')
        && str_eq (take (length entity) key) entity)

-- windowStart := time.Now().Unix() - windowSeconds, and 0 for a negative start: no epoch is earlier.
unfoldable pub counter_sum : CounterStore → CounterKey → ℕ → ℕ → ℕ
counter_sum store key window now = store_sum store key (now - window)

-- Counter: the clock shows `now` at the increment and `later` at the sum.
unfoldable pub counter :
    CounterStore → Bool → Str → Str → Str → ℤ → ℕ → ℕ → CounterStore × CounterReply
unfolding counter_sum
counter store affinity cur_entity entity_id event_type window now later =
    if ltb_ℤ window (pos 1)
    then (store, refused window_too_small)
    else if ltb_ℤ (pos max_window_seconds) window
    then (store, refused window_too_large)
    else if affinity && not (affine_key entity_id cur_entity)
    then (store, refused not_affine)
    else (let key : CounterKey = record { entity_id = entity_id; event_type = event_type } in
        let store' = store_increment store key now in
        (store', total (counter_sum store' key (pos_part window) later)))

-- regexCache, and RegexMatch over a compiler of patterns that may fail.
pub data RegexReply : Type 0 where
  matched : Bool → RegexReply
  invalid_regex : RegexReply

module _ {R : Type 0} (compile : Str → Option R) (match_string : R → Str → Bool) where
  cache_and_match : StrMap R → Str → Str → Option R → StrMap R × RegexReply
  cache_and_match cache pattern text none = (cache, invalid_regex)
  cache_and_match cache pattern text (some re) =
      (insert pattern re cache, matched (match_string re text))

  regex_cached : StrMap R → Str → Str → Option R → StrMap R × RegexReply
  unfolding cache_and_match
  regex_cached cache pattern text (some re) = (cache, matched (match_string re text))
  regex_cached cache pattern text none = cache_and_match cache pattern text (compile pattern)

  unfoldable pub regex_match : StrMap R → Str → Str → StrMap R × RegexReply
  unfolding regex_cached
  regex_match cache pattern text = regex_cached cache pattern text (lookup pattern cache)

-- memoBuiltin: a hit returns the cached value; a miss calls `fn`, which may itself use the cache, and
-- stores its value. An error of `fn` is passed on and stores nothing.
abbrev pub Memo : Type 0
Memo = StrMap Value

memo_store : Str → Memo × Option Value → Memo × Option Value
memo_store key (cache, none) = (cache, none)
memo_store key (cache, some v) = (insert key v cache, some v)

memo_cached : Memo → Str → (Memo → Memo × Option Value) → Option Value → Memo × Option Value
unfolding memo_store
memo_cached cache key fn (some v) = (cache, some v)
memo_cached cache key fn none = memo_store key (fn cache)

unfoldable pub memo : Memo → Str → (Memo → Memo × Option Value) → Memo × Option Value
unfolding memo_cached
memo cache key fn = memo_cached cache key fn (lookup key cache)
