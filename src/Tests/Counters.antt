-- ===== src/Tests/Counters.antt =====
-- Runs of executor/counters.go and executor/env.go.
use fruitfly.Base.{
  count_if, Str, str, str_eq, has_prefix, pos, lookup, ℕ, ◌+◌, ◌*◌, ◌≤◌, ◌≡◌, refl, ◌↔◌, ◌⊎◌, inl,
  inr, Bool, true, Option, some, List, [], ◌∷◌, ◌++◌, arith,
}
use fruitfly.Executor.Counters.{
  CounterKey, empty_series, sum, CounterStore, empty_store, store_increment, store_sum, gc, bump,
}
use fruitfly.Executor.Counters.Ring.{InOrder, is_counted, sum-run_empty}
use fruitfly.Executor.Counters.Ring
use fruitfly.Executor.Counters.Shards.{
  run_store, times_of, IsStore, store_sum-run_store, store_increment-gc-IsStore, store_sum-gc,
}
use fruitfly.Executor.Counters.Cas.{
  Writer, Slot, loads, swaps, here, next, IsSerial, Steps-IsSerial, loading, finished, swapping,
  Step, Steps,
}
use fruitfly.Executor.Counters.Progress.{unfinished, steps_count, Steps-terminate}
use fruitfly.Executor.Counters.Boundary.{sum_full_window}
use fruitfly.Executor.Env.{
  affine_key, counter, CounterError, refused, total, matched, regex_match, Memo,
}
use fruitfly.Executor.Env.Laws.{
  IsRefusable, counter-refused, counter_total, IsCoherent, regex_match-IsCoherent,
}
use fruitfly.Starlark.{Value, int}

abbrev some_times : List ℕ
some_times = 60 ∷ 61 ∷ 200 ∷ 3700 ∷ []

abbrev login : CounterKey
login = record { entity_id = str "u1"; event_type = str "login" }

abbrev post : CounterKey
post = record { entity_id = str "u1"; event_type = str "post" }

abbrev some_ops : List (CounterKey × ℕ)
some_ops = (login, 60) ∷ (post, 70) ∷ (login, 130) ∷ []

login_times : times_of login some_ops ≡ 60 ∷ 130 ∷ []
unfolding str_eq
login_times = refl

store_sum-run_store_example :
    store_sum (run_store empty_store some_ops) login 100
    ≡ count_if (is_counted 100) (times_of login some_ops)
unfolding str_eq
store_sum-run_store_example =
    store_sum-run_store some_ops login 200 100
      (omega arith, omega arith, (omega arith, omega arith, tt)) (omega arith) (omega arith)
      (omega arith)

empty_store-IsStore : IsStore empty_store
empty_store-IsStore = record { distinct = λ i. tt }

abbrev one_login : CounterStore
one_login = store_increment empty_store login 60

one_login-IsStore : IsStore one_login
one_login-IsStore = (store_increment-gc-IsStore empty_store login 60 empty_store-IsStore).0

store_sum-gc_example : store_sum (gc one_login 7200) login 3600 ≡ store_sum one_login login 3600
store_sum-gc_example =
    store_sum-gc one_login login 7200 3600 one_login-IsStore (omega arith) (omega arith)
      (omega arith)

-- One writer of epoch 2, from its load to its swap.
abbrev slot_with : ℕ → Writer → Slot
slot_with word writer = record { word = word; writers = writer ∷ [] }

Steps-IsSerial_example : IsSerial 0 (slot_with (bump 0 2) (finished 2))
Steps-IsSerial_example =
    Steps-IsSerial 0 (slot_with 0 (loading 2)) (slot_with (bump 0 2) (finished 2))
      (record { order = []; result = refl; complete = λ e. refl })
      (next (next here (loads [] [] 2 refl refl)) (swaps [] [] 2 0 refl refl refl))

abbrev one_load : Steps (slot_with 0 (loading 2)) (slot_with 0 (swapping 2 0))
one_load = next here (loads [] [] 2 refl refl)

Steps-terminate_example :
    (steps_count one_load ≤ 5)
    × ((unfinished (swapping 2 0 ∷ []) ≡ 0) ⊎ ((v : Slot) × Step (slot_with 0 (swapping 2 0)) v))
Steps-terminate_example =
    Steps-terminate (slot_with 0 (loading 2)) (slot_with 0 (swapping 2 0)) one_load

sum_full_window_example :
    (sum (Ring.run empty_series (60 * 7 ∷ (60 * 7 + 3600) ∷ [])) (60 * 7) ≡ 1)
    × (count_if (is_counted (60 * 7)) (60 * 7 ∷ (60 * 7 + 3600) ∷ []) ≡ 2)
sum_full_window_example = sum_full_window 7 (omega arith)

counter-refused_example :
    (((e : CounterError) × ((counter empty_store true
            (str "u1")
            (str "u2")
            (str "login")
            (pos 60)
            100
            101).1
          ≡ refused e))
      ↔ IsRefusable true (str "u2") (str "u1") (pos 60))
    × (((e : CounterError) × (counter empty_store true
              (str "u1")
              (str "u2")
              (str "login")
              (pos 60)
              100
              101
            ≡ (empty_store, refused e)))
        ↔ IsRefusable true (str "u2") (str "u1") (pos 60))
counter-refused_example =
    counter-refused empty_store true (str "u1") (str "u2") (str "login") (pos 60) 100 101

not-IsRefusable : ¬ IsRefusable true (str "u1") (str "u1") (pos 60)
unfolding affine_key str_eq
not-IsRefusable (inl h) = omega arith
not-IsRefusable (inr (inl h)) = omega arith
not-IsRefusable (inr (inr h)) = cc

counter_total_example :
    counter
      (run_store empty_store some_ops)
      true
      (str "u1")
      (str "u1")
      (str "login")
      (pos 60)
      140
      141
    ≡ (
      run_store empty_store (some_ops ++ (login, 140) ∷ []),
      total (count_if (is_counted 81) (times_of login some_ops ++ 140 ∷ [])),
    )
unfolding str_eq
counter_total_example =
    counter_total some_ops true (str "u1") login 60 140 141 not-IsRefusable
      (omega arith, omega arith, (omega arith, omega arith, (omega arith, omega arith, tt)))
      (omega arith) (omega arith) (omega arith)

-- Expressions that are plain prefixes.
abbrev compile_prefix : Str → Option Str
compile_prefix p = some p

abbrev starts : Str → Str → Bool
starts re text = has_prefix text re

empty-IsCoherent : IsCoherent compile_prefix starts []
unfolding lookup
empty-IsCoherent = record { compiled = λ p re h. cc }

regex_match-IsCoherent_example :
    ((regex_match compile_prefix starts [] (str "ab") (str "abc")).1
      ≡ matched (has_prefix (str "abc") (str "ab")))
    × IsCoherent compile_prefix starts
        (regex_match compile_prefix starts [] (str "ab") (str "abc")).0
regex_match-IsCoherent_example =
    regex_match-IsCoherent compile_prefix starts [] (str "ab") (str "abc") empty-IsCoherent

abbrev answer : ℕ → Memo → Memo × Option Value
answer n cache = (cache, some (int (pos n)))
