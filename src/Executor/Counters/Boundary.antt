-- ===== src/Executor/Counters/Boundary.antt =====
-- The edges of the window of executor/counters.go: where quantising to minutes and the ring's length
-- show.
use fruitfly.Base.{
  length, get_or, set, replicate, count_if, ℕ, zero, suc, ◌+◌, ◌-◌, ◌*◌, ◌/◌, ◌%◌, ◌^◌, ◌<◌, ◌≡◌,
  refl, ap, ◌∙◌, List, [], ◌∷◌, arith,
}
use fruitfly.Executor.Counters.{
  Series, empty_series, bucket_seconds, ring_slots, bump, increment, slot_share, sum,
}
use fruitfly.Executor.Counters.Ring.{
  run, InOrder, is_counted, sum-set, sum-empty, sum-run_empty, increment_lem, length-increment,
}

get_or-set_self : (s : Series) (i v : ℕ) → i < length s → get_or (set s i v) i 0 ≡ v
get_or-set_self [] i v h = absurd (omega arith)
get_or-set_self (x ∷ s) zero v h = refl
get_or-set_self (x ∷ s) (suc i) v h = get_or-set_self s i v (omega arith)

get_or-replicate : (n i : ℕ) → get_or (replicate {A = ℕ} n 0) i 0 ≡ 0
get_or-replicate zero i = refl
get_or-replicate (suc n) zero = refl
get_or-replicate (suc n) (suc i) = get_or-replicate n i

module _ (s : Series) (len : length s ≡ ring_slots) (t m w : ℕ) (minute : t / bucket_seconds ≡ m)
    (word : t < 60 * 2 ^ 32) where
  get_or-increment :
      get_or (increment s t) (m % ring_slots) 0 ≡ bump (get_or s (m % ring_slots) 0) m
  get_or-increment =
      rw (← minute) (rw (increment_lem s t word) (get_or-set_self s _ _ (omega arith)))

  sum-increment :
      sum (increment s t) w + slot_share w (get_or s (m % ring_slots) 0)
      ≡ sum s w + slot_share w (bump (get_or s (m % ring_slots) 0) m)
  sum-increment = rw (← minute) (rw (increment_lem s t word) (sum-set s _ _ w (omega arith)))

zero_share : (w : ℕ) → slot_share w 0 ≡ 0
unfolding slot_share
zero_share w = ground arith

first_share : (k : ℕ) → k < 2 ^ 32 → slot_share (60 * k) (bump 0 k) ≡ 1
unfolding slot_share bump
first_share k h = ground arith

second_share : (k : ℕ) → k + 60 < 2 ^ 32 → slot_share (60 * k) (bump (bump 0 k) (k + 60)) ≡ 1
unfolding slot_share bump
second_share k h = ground arith

module _ (k : ℕ) (h : k + 60 < 2 ^ 32) where
  once : Series
  once = increment empty_series (60 * k)

  fresh_slot : get_or empty_series (k % ring_slots) 0 ≡ 0
  fresh_slot = get_or-replicate ring_slots (k % ring_slots)

  once_slot : get_or once (k % ring_slots) 0 ≡ bump 0 k
  unfolding once
  once_slot =
      get_or-increment empty_series refl (60 * k) k (60 * k) (omega arith) (omega arith)
      ∙ ap (λ v. bump v k) fresh_slot

  sum-once : sum once (60 * k) ≡ 1
  unfolding once
  sum-once = omega (
    arith,
    sum-increment empty_series refl (60 * k) k (60 * k) (omega arith) (omega arith),
    sum-empty (60 * k),
    ap (slot_share (60 * k)) fresh_slot,
    ap (λ v. slot_share (60 * k) (bump v k)) fresh_slot,
    first_share k (omega arith),
    zero_share (60 * k),
  )

  same_slot : (k + 60) % ring_slots ≡ k % ring_slots
  same_slot = omega arith

  twice_slot : get_or once ((k + 60) % ring_slots) 0 ≡ bump 0 k
  twice_slot = rw same_slot once_slot

  sum_twice : sum (increment once (60 * k + 3600)) (60 * k) ≡ 1
  unfolding once
  sum_twice = omega (
    arith,
    sum-increment once (length-increment empty_series (60 * k)) (60 * k + 3600) (k + 60) (60 * k)
        (omega arith) (omega arith),
    sum-once,
    ap (slot_share (60 * k)) twice_slot,
    ap (λ v. slot_share (60 * k) (bump v (k + 60))) twice_slot,
    first_share k (omega arith),
    second_share k h,
  )

-- At the largest window, 3600 seconds, read at the very start of a minute, the oldest minute of the
-- window is lost, since its slot is the present minute's: of an increment at the start of minute `k`
-- and one an hour later, both begin at or after the window's start, and the sum has one.
pub sum_full_window :
    (k : ℕ)
    → k + 60 < 2 ^ 32
    → (sum (run empty_series (60 * k ∷ (60 * k + 3600) ∷ [])) (60 * k) ≡ 1)
      × (count_if (is_counted (60 * k)) (60 * k ∷ (60 * k + 3600) ∷ []) ≡ 2)
unfolding run once
sum_full_window k h = (sum_twice k h, ground arith)

old_count :
    (from now w : ℕ) (ts : List ℕ)
    → InOrder from now ts
    → now / bucket_seconds * bucket_seconds < w
    → count_if (is_counted w) ts ≡ 0
old_count from now w [] o h = refl
old_count from now w (t ∷ ts) o h =
    let minute : t / bucket_seconds * bucket_seconds < w = omega arith in
    ground (arith, old_count t now w ts o.2 h)

-- A window shorter than the time since the present minute began counts nothing, not even an increment
-- made just now.
pub sum_short_window :
    (ts : List ℕ) (now window : ℕ)
    → InOrder 0 now ts
    → now < 60 * 2 ^ 32
    → length ts < 2 ^ 32
    → window < now % bucket_seconds
    → sum (run empty_series ts) (now - window) ≡ 0
sum_short_window ts now window o word few short =
    sum-run_empty ts now (now - window) o word few (omega arith)
    ∙ old_count 0 now (now - window) ts o (omega arith)
