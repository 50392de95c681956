-- ===== src/Executor/Counters/Shards.antt =====
-- The sharded store of executor/counters.go seen as one series for each key; the eviction of `gc`.
use fruitfly.Base.{
  ◌==◌, if◌then◌else◌, ==_iff, Bool-cases, Option-cases, length, count_if, str_eq_iff, ℕ, ◌+◌, ◌*◌,
  ◌/◌, ◌^◌, ◌≤◌, ◌<◌, ◌≡◌, refl, sym, ap, ◌∙◌, ◌↔◌, inl, inr, true, false, Option, none, some, List,
  [], ◌∷◌, ◌++◌, arith,
}
use fruitfly.Executor.Counters.{
  CounterKey, key_eq, Series, empty_series, bucket_seconds, max_window_seconds, slot_share,
  increment, sum, ShardMap, CounterStore, empty_store, shard, load, bump_key, store_increment,
  sum_loaded, store_sum, cutoff_epoch, any_since, gc_shard, gc,
}
use fruitfly.Executor.Counters.Ring.{run, InOrder, is_counted, sum-empty, sum-run_empty}

key_eq_iff : (a b : CounterKey) → (key_eq a b ≡ true) ↔ (a ≡ b)
key_eq_iff a b =
    ground (arith, str_eq_iff a.entity_id b.entity_id, str_eq_iff a.event_type b.event_type)

abbrev pub or_empty : Option Series → Series
or_empty none = empty_series
or_empty (some s) = s

-- The series of a key, an empty one where the store has none.
pub series : CounterStore → CounterKey → Series
series cs k = or_empty (load (cs.shards (shard k)) k)

load-bump_key :
    (m : ShardMap) (k j : CounterKey) (t : ℕ)
    → load (bump_key m k t) j
      ≡ (if key_eq k j then some (increment (or_empty (load m k)) t) else load m j)
unfolding load bump_key
load-bump_key [] k j t = refl
load-bump_key ((i, s) ∷ m) k j t =
    ground (arith, key_eq_iff k j, key_eq_iff i k, key_eq_iff i j, load-bump_key m k j t)

series-store_increment :
    (cs : CounterStore) (k j : CounterKey) (t : ℕ)
    → series (store_increment cs k t) j
      ≡ (if key_eq k j then increment (series cs k) t else series cs j)
unfolding series store_increment
series-store_increment cs k j t = elim (Bool-cases (shard j == shard k)) [
  | inl e ↦ rw e (ground (arith, load-bump_key (cs.shards (shard j)) k j t, key_eq_iff k j, same))
  | inr e ↦ rw e (ground (arith, key_eq_iff k j, differ e))
]
  where
    same : key_eq k j ≡ true → load (cs.shards (shard j)) k ≡ load (cs.shards (shard k)) k
    same h = rw ((key_eq_iff k j).0 h)

    differ : (shard j == shard k) ≡ false → key_eq k j ≡ false
    differ e = elim (Bool-cases (key_eq k j)) [
      | inl h ↦ cc (e, (==_iff (shard j) (shard k)).1 (ap shard (sym ((key_eq_iff k j).0 h))))
      | inr h ↦ h
    ]

-- A history of increments, oldest first.
pub run_store : CounterStore → List (CounterKey × ℕ) → CounterStore
run_store cs [] = cs
run_store cs ((k, t) ∷ ops) = run_store (store_increment cs k t) ops

-- The times at which a history increments one key.
abbrev pub times_of : CounterKey → List (CounterKey × ℕ) → List ℕ
times_of j [] = []
times_of j ((k, t) ∷ ops) = if key_eq k j then t ∷ times_of j ops else times_of j ops

series-run_store :
    (ops : List (CounterKey × ℕ)) (cs : CounterStore) (j : CounterKey)
    → series (run_store cs ops) j ≡ run (series cs j) (times_of j ops)
unfolding run_store run
series-run_store [] cs j = refl
series-run_store ((k, t) ∷ ops) cs j = elim (Bool-cases (key_eq k j)) [
  | inl e ↦
      series-run_store ops (store_increment cs k t) j
      ∙ rw (e, series-store_increment cs k j t) (rw (e, (key_eq_iff k j).0 e))
  | inr e ↦
      series-run_store ops (store_increment cs k t) j
      ∙ rw (e, series-store_increment cs k j t) (rw e)
]

store_sum-series :
    (cs : CounterStore) (k : CounterKey) (w : ℕ) → store_sum cs k w ≡ sum (series cs k) w
unfolding store_sum series
store_sum-series cs k w = elim (Option-cases (load (cs.shards (shard k)) k)) [
  | inl e ↦ rw (e, sum_loaded) (sym (sum-empty w))
  | inr (s, e) ↦ rw (e, sum_loaded)
]

-- Over any history of increments of any keys from the empty store, with the times of a key not
-- falling, up to the present and fewer than 2 ^ 32, a sum for that key over a window that starts less
-- than an hour before the present minute counts exactly that key's increments whose minute begins at
-- or after the start. Other keys, sharing the shard or not, do not matter.
pub store_sum-run_store :
    (ops : List (CounterKey × ℕ)) (k : CounterKey) (now w : ℕ)
    → InOrder 0 now (times_of k ops)
    → now < 60 * 2 ^ 32
    → length (times_of k ops) < 2 ^ 32
    → now / bucket_seconds * bucket_seconds < w + 3600
    → store_sum (run_store empty_store ops) k w ≡ count_if (is_counted w) (times_of k ops)
unfolding series load
store_sum-run_store ops k now w o word few fresh =
    store_sum-series (run_store empty_store ops) k w
    ∙ ap (λ s. sum s w) (series-run_store ops empty_store k)
    ∙ sum-run_empty (times_of k ops) now w o word few fresh

-- No key stands twice in a shard.
abbrev IsDistinct : ShardMap → Type 0
IsDistinct [] = Unit {0}
IsDistinct ((j, s) ∷ m) = (load m j ≡ none) × IsDistinct m

load-gc_shard :
    (c : ℕ) (m : ShardMap) (k : CounterKey) → load m k ≡ none → load (gc_shard c m) k ≡ none
unfolding load gc_shard
load-gc_shard c [] k h = refl
load-gc_shard c ((j, s) ∷ m) k h = ground (arith, load-gc_shard c m k)

sum_idle : (c w : ℕ) (s : Series) → any_since c s ≡ false → c * bucket_seconds ≤ w → sum s w ≡ 0
unfolding any_since sum slot_share
sum_idle c w [] h k = refl
sum_idle c w (v ∷ rest) h k = ground (arith, sum_idle c w rest)

sum-gc_shard :
    (c w : ℕ) (m : ShardMap) (k : CounterKey)
    → c * bucket_seconds ≤ w
    → IsDistinct m
    → sum_loaded (load (gc_shard c m) k) w ≡ sum_loaded (load m k) w
unfolding load gc_shard sum_loaded
sum-gc_shard c w [] k h d = refl
sum-gc_shard c w ((j, s) ∷ m) k h d = elim (Bool-cases (any_since c s)) [
  | inl e ↦ rw e (ground (arith, sum-gc_shard c w m k h d.1))
  | inr e ↦ elim (Bool-cases (key_eq j k)) [
    | inl q ↦
        rw (e, q)
          (let gone : load m k ≡ none = rw (← (key_eq_iff j k).0 q) d.0 in
            rw (load-gc_shard c m k gone) (sym (sum_idle c w s e h)))
    | inr q ↦ rw (e, q) (sum-gc_shard c w m k h d.1)
  ]
]

-- Every shard of the store holds each key once.
pub record IsStore (cs : CounterStore) : Type 0 where
  pub distinct : (i : ℕ) → IsDistinct (cs.shards i)

bump_key-IsDistinct :
    (m : ShardMap) (k : CounterKey) (t : ℕ) → IsDistinct m → IsDistinct (bump_key m k t)
unfolding bump_key load
bump_key-IsDistinct [] k t d = (refl, tt)
bump_key-IsDistinct ((j, s) ∷ m) k t d = elim (Bool-cases (key_eq j k)) [
  | inl q ↦ rw q d
  | inr q ↦ rw q (
    load-bump_key m k j t ∙ ground (arith, key_eq_iff k j, key_eq_iff j k, d.0),
    bump_key-IsDistinct m k t d.1,
  )
]

gc_shard-IsDistinct : (c : ℕ) (m : ShardMap) → IsDistinct m → IsDistinct (gc_shard c m)
unfolding gc_shard
gc_shard-IsDistinct c [] d = tt
gc_shard-IsDistinct c ((j, s) ∷ m) d = elim (Bool-cases (any_since c s)) [
  | inl e ↦ rw e (load-gc_shard c m j d.0, gc_shard-IsDistinct c m d.1)
  | inr e ↦ rw e (gc_shard-IsDistinct c m d.1)
]

-- Increments and evictions keep each key once in its shard.
pub store_increment-gc-IsStore :
    (cs : CounterStore) (k : CounterKey) (now : ℕ)
    → IsStore cs
    → IsStore (store_increment cs k now) × IsStore (gc cs now)
unfolding store_increment gc
store_increment-gc-IsStore cs k now d = (
  record {
    distinct = λ i. elim (Bool-cases (i == shard k)) [
      | inl e ↦ rw e (bump_key-IsDistinct (cs.shards i) k now (d.distinct i))
      | inr e ↦ rw e (d.distinct i)
    ];
  },
  record { distinct = λ i. gc_shard-IsDistinct (cutoff_epoch now) (cs.shards i) (d.distinct i) },
)

cutoff_epoch-le :
    (now w : ℕ)
    → max_window_seconds ≤ now
    → now < 60 * 2 ^ 32
    → now ≤ w + max_window_seconds
    → cutoff_epoch now * bucket_seconds ≤ w
unfolding cutoff_epoch
cutoff_epoch-le now w h word k = ground arith

-- Eviction is invisible: from the first hour on, a sum over any window of at most an hour is the same
-- after the eviction as before it.
pub store_sum-gc :
    (cs : CounterStore) (k : CounterKey) (now w : ℕ)
    → IsStore cs
    → max_window_seconds ≤ now
    → now < 60 * 2 ^ 32
    → now ≤ w + max_window_seconds
    → store_sum (gc cs now) k w ≡ store_sum cs k w
unfolding store_sum gc
store_sum-gc cs k now w d h word fits =
    sum-gc_shard (cutoff_epoch now) w (cs.shards (shard k)) k (cutoff_epoch-le now w h word fits)
      (d.distinct (shard k))

pub run_store-append :
    (ops : List (CounterKey × ℕ)) (cs : CounterStore) (k : CounterKey) (t : ℕ)
    → run_store cs (ops ++ (k, t) ∷ []) ≡ store_increment (run_store cs ops) k t
unfolding run_store
run_store-append [] cs k t = refl
run_store-append ((j, s) ∷ ops) cs k t = run_store-append ops (store_increment cs j s) k t

pub times_of-append :
    (ops : List (CounterKey × ℕ)) (k : CounterKey) (t : ℕ)
    → times_of k (ops ++ (k, t) ∷ []) ≡ times_of k ops ++ t ∷ []
times_of-append [] k t = rw (key_eq_iff k k).1 refl
times_of-append ((j, s) ∷ ops) k t = ground (arith, times_of-append ops k t)
