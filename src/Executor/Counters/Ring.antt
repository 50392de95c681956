-- ===== src/Executor/Counters/Ring.antt =====
-- One series of executor/counters.go against the list of the times at which it was incremented.
use fruitfly.Base.{
  leb, ◌==◌, if◌then◌else◌, Bool-cases, length, get_or, set, count_if, length-set, ℕ, zero, suc,
  ◌+◌, ◌-◌, ◌*◌, ◌/◌, ◌%◌, ◌^◌, ◌≤◌, ◌<◌, ◌≡◌, refl, ap, ◌∙◌, ◌⊎◌, inl, inr, Bool, List, [], ◌∷◌,
  arith,
}
use native.Mathlib.Nat.{zero-add}
use fruitfly.Executor.Counters.{
  Series, empty_series, bucket_seconds, ring_slots, slot_epoch, slot_count, epoch_of, bump,
  increment, slot_share, sum,
}

-- The slots from position `i` on, after at most `n` increments up to the minute `e`: each is unused,
-- or holds a minute of its own residue.
abbrev pub IsRing : ℕ → ℕ → ℕ → Series → Type 0
IsRing i e n [] = Unit {0}
IsRing i e n (v ∷ rest) =
    ((v ≡ 0) ⊎ (slot_epoch v % ring_slots ≡ i))
    × (slot_epoch v ≤ e)
    × (slot_count v ≤ n)
    × (v < 2 ^ 64)
    × IsRing (suc i) e n rest

-- What `IsRing` says of one slot.
abbrev IsSlot : ℕ → ℕ → ℕ → ℕ → Type 0
IsSlot i e n v =
    ((v ≡ 0) ⊎ (slot_epoch v % ring_slots ≡ i))
    × (slot_epoch v ≤ e)
    × (slot_count v ≤ n)
    × (v < 2 ^ 64)

IsRing-get_or :
    (i e n : ℕ) (s : Series) (j : ℕ)
    → IsRing i e n s
    → j < length s
    → IsSlot (i + j) e n (get_or s j 0)
IsRing-get_or i e n [] j r h = absurd (omega arith)
IsRing-get_or i e n (v ∷ rest) zero r h =
    (elim r.0 [ inl z ↦ inl z | inr m ↦ inr (omega arith) ], r.1, r.2, r.3)
IsRing-get_or i e n (v ∷ rest) (suc j) r h =
    let (a, b, c, d) = IsRing-get_or (suc i) e n rest j r.4 (omega arith) in
    (elim a [ inl z ↦ inl z | inr m ↦ inr (omega arith) ], b, c, d)

IsRing-mono : (i e e' n : ℕ) (s : Series) → e ≤ e' → IsRing i e n s → IsRing i e' (suc n) s
IsRing-mono i e e' n [] h r = tt
IsRing-mono i e e' n (v ∷ rest) h r =
    (r.0, omega arith, omega arith, r.3, IsRing-mono (suc i) e e' n rest h r.4)

IsRing-set :
    (i e e' n : ℕ) (s : Series) (j v : ℕ)
    → e ≤ e'
    → IsRing i e n s
    → IsSlot (i + j) e' (suc n) v
    → IsRing i e' (suc n) (set s j v)
IsRing-set i e e' n [] j v h r k = tt
IsRing-set i e e' n (w ∷ rest) zero v h r k = (
  elim k.0 [ inl z ↦ inl z | inr m ↦ inr (omega arith) ],
  k.1,
  k.2,
  k.3,
  IsRing-mono (suc i) e e' n rest h r.4,
)
IsRing-set i e e' n (w ∷ rest) (suc j) v h r k = (
  r.0,
  omega arith,
  omega arith,
  r.3,
  IsRing-set (suc i) e e' n rest j v h r.4
      (elim k.0 [ inl z ↦ inl z | inr m ↦ inr (omega arith) ], k.1, k.2, k.3),
)

pub sum-set :
    (s : Series) (j v w : ℕ)
    → j < length s
    → sum (set s j v) w + slot_share w (get_or s j 0) ≡ sum s w + slot_share w v
unfolding sum
sum-set [] j v w h = absurd (omega arith)
sum-set (x ∷ rest) zero v w h = omega arith
sum-set (x ∷ rest) (suc j) v w h = omega (arith, sum-set rest j v w (omega arith))

abbrev pub is_counted : ℕ → ℕ → Bool
is_counted window_start t = leb window_start (t / bucket_seconds * bucket_seconds)

bump-IsSlot :
    (old e n m : ℕ)
    → IsSlot (m % ring_slots) e n old
    → e ≤ m
    → m < 2 ^ 32
    → n < 2 ^ 32 - 1
    → IsSlot (m % ring_slots) m (suc n) (bump old m)
unfolding bump
bump-IsSlot old e n m k h b c = elim (Bool-cases (slot_epoch old == m)) [
  | inl eq ↦ rw eq (inr (ground arith), ground arith, ground arith, ground arith)
  | inr ne ↦ rw ne (inr (omega arith), omega arith, omega arith, omega arith)
]

-- What an increment in the minute `m` adds: one if its bucket is counted, as long as the bucket that
-- it may overwrite is too old for the window.
share-bump :
    (old e n m w : ℕ)
    → IsSlot (m % ring_slots) e n old
    → e ≤ m
    → m < 2 ^ 32
    → n < 2 ^ 32 - 1
    → m * 60 < w + 3600
    → slot_share w (bump old m) ≡ slot_share w old + (if leb w (m * bucket_seconds) then 1 else 0)
unfolding bump slot_share
share-bump old e n m w k h b c fresh = elim (Bool-cases (slot_epoch old == m)) [
  | inl eq ↦ rw eq (ground arith)
  | inr ne ↦ rw ne (ground arith)
]

module _ (e n w m : ℕ) (s : Series) (r : IsRing 0 e n s) (len : length s ≡ ring_slots)
    (later : e ≤ m) (word : m < 2 ^ 32) (few : n < 2 ^ 32 - 1) where
  IsSlot-at : IsSlot (m % ring_slots) e n (get_or s (m % ring_slots) 0)
  IsSlot-at = rw zero-add at (IsRing-get_or 0 e n s (m % ring_slots) r (omega arith))

  set-IsRing : IsRing 0 m (suc n) (set s (m % ring_slots) (bump (get_or s (m % ring_slots) 0) m))
  set-IsRing =
      IsRing-set 0 e m n s (m % ring_slots) _ later r
        (rw zero-add (bump-IsSlot (get_or s (m % ring_slots) 0) e n m IsSlot-at later word few))

  sum-set-bump :
      m * 60 < w + 3600
      → sum (set s (m % ring_slots) (bump (get_or s (m % ring_slots) 0) m)) w
        ≡ sum s w + (if leb w (m * bucket_seconds) then 1 else 0)
  sum-set-bump fresh = omega (
    arith,
    sum-set s (m % ring_slots) (bump (get_or s (m % ring_slots) 0) m) w (omega arith),
    share-bump (get_or s (m % ring_slots) 0) e n m w IsSlot-at later word few fresh,
  )

epoch_of_lem : (t : ℕ) → t < 60 * 2 ^ 32 → epoch_of t ≡ t / bucket_seconds
epoch_of_lem t h = omega arith

pub increment_lem :
    (s : Series) (t : ℕ)
    → t < 60 * 2 ^ 32
    → increment s t
      ≡ set s
          (t / bucket_seconds % ring_slots)
          (bump (get_or s (t / bucket_seconds % ring_slots) 0) (t / bucket_seconds))
unfolding increment
increment_lem s t h =
    ap (λ m. set s (m % ring_slots) (bump (get_or s (m % ring_slots) 0) m)) (epoch_of_lem t h)

pub length-increment : (s : Series) (t : ℕ) → length (increment s t) ≡ length s
unfolding increment
length-increment s t = length-set s _ _

unfoldable pub run : Series → List ℕ → Series
run s [] = s
run s (t ∷ ts) = run (increment s t) ts

-- The times do not fall along the list, and none lies before `from` or after `now`.
abbrev pub InOrder : ℕ → ℕ → List ℕ → Type 0
InOrder from now [] = Unit {0}
InOrder from now (t ∷ ts) = (from ≤ t) × (t ≤ now) × InOrder t now ts

sum-run :
    (ts : List ℕ) (s : Series) (from now n w : ℕ)
    → IsRing 0 (from / bucket_seconds) n s
    → length s ≡ ring_slots
    → InOrder from now ts
    → now < 60 * 2 ^ 32
    → n + length ts < 2 ^ 32
    → now / bucket_seconds * bucket_seconds < w + 3600
    → sum (run s ts) w ≡ sum s w + count_if (is_counted w) ts
unfolding run
sum-run [] s from now n w r len o word few fresh = omega arith
sum-run (t ∷ ts) s from now n w r len o word few fresh =
    let m : ℕ = t / bucket_seconds in
    let e : ℕ = from / bucket_seconds in
    let later : e ≤ m = omega arith in
    let small : m < 2 ^ 32 = omega arith in
    let few' : n < 2 ^ 32 - 1 = omega arith in
    let fresh' : m * 60 < w + 3600 = omega arith in
    let step = increment_lem s t (omega arith) in
    let rest =
      sum-run ts (increment s t) t now (suc n) w
        (rw step (set-IsRing e n w m s r len later small few')) (length-increment s t ∙ len) o.2
        word (omega arith) fresh in
    rest
    ∙ ground (arith, ap (λ x. sum x w) step, sum-set-bump e n w m s r len later small few' fresh')

pub sum-empty : (w : ℕ) → sum empty_series w ≡ 0
unfolding sum slot_share
sum-empty w = ground arith

-- After increments at times that do not fall, fewer than 2 ^ 32 in number and up to the present, a
-- sum over a window whose start lies less than an hour before the present minute counts exactly the
-- increments whose minute begins at or after that start: nothing is lost and nothing counted twice.
pub sum-run_empty :
    (ts : List ℕ) (now w : ℕ)
    → InOrder 0 now ts
    → now < 60 * 2 ^ 32
    → length ts < 2 ^ 32
    → now / bucket_seconds * bucket_seconds < w + 3600
    → sum (run empty_series ts) w ≡ count_if (is_counted w) ts
sum-run_empty ts now w o word few fresh =
    sum-run ts empty_series 0 now 0 w (omega arith) refl o word (omega arith) fresh
    ∙ omega (arith, sum-empty w)
