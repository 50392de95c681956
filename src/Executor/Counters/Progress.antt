-- ===== src/Executor/Counters/Progress.antt =====
-- How long the compare-and-swap loops of counterSeries.increment can run (executor/counters.go).
use fruitfly.Base.{
  ◌==◌, if◌then◌else◌, Bool-cases, length, length-append, ℕ, suc, ◌+◌, ◌*◌, ◌≤◌, ◌<◌, ◌≡◌, refl,
  sym, ap, ◌∙◌, subst, ◌⊎◌, inl, inr, List, [], ◌∷◌, ◌++◌, arith,
}
use mathlib.Core.List.{append_assoc}
use fruitfly.Executor.Counters.{bump}
use fruitfly.Executor.Counters.Cas.{
  Writer, loading, finished, swapping, Slot, at, Step, loads, swaps, retries, Steps, here, next,
}

-- The writers that have not returned.
pub unfinished : List Writer → ℕ
unfinished [] = 0
unfinished (finished e ∷ ws) = unfinished ws
unfinished (loading e ∷ ws) = suc (unfinished ws)
unfinished (swapping e old ∷ ws) = suc (unfinished ws)

-- What a writer can do before some swap succeeds: a load, or a failed swap and a load.
abbrev weight : ℕ → Writer → ℕ
weight word (loading e) = 1
weight word (finished e) = 0
weight word (swapping e old) = if old == word then 0 else 2

weights : ℕ → List Writer → ℕ
weights word [] = 0
weights word (w ∷ ws) = weight word w + weights word ws

abbrev rank : ℕ → Slot → ℕ
rank n s = unfinished s.writers * (2 * n + 1) + weights s.word s.writers

unfinished-append : (xs ys : List Writer) → unfinished (xs ++ ys) ≡ unfinished xs + unfinished ys
unfolding unfinished
unfinished-append [] ys = omega arith
unfinished-append (finished e ∷ xs) ys = unfinished-append xs ys
unfinished-append (loading e ∷ xs) ys = omega (arith, unfinished-append xs ys)
unfinished-append (swapping e old ∷ xs) ys = omega (arith, unfinished-append xs ys)

weights-append : (v : ℕ) (xs ys : List Writer) → weights v (xs ++ ys) ≡ weights v xs + weights v ys
unfolding weights
weights-append v [] ys = omega arith
weights-append v (x ∷ xs) ys = omega (arith, weights-append v xs ys)

weights-le : (v : ℕ) (ws : List Writer) → weights v ws ≤ 2 * length ws
unfolding weights
weights-le v [] = omega arith
weights-le v (loading e ∷ ws) = omega (arith, weights-le v ws)
weights-le v (finished e ∷ ws) = omega (arith, weights-le v ws)
weights-le v (swapping e old ∷ ws) = ground (arith, weights-le v ws)

unfinished-le : (ws : List Writer) → unfinished ws ≤ length ws
unfolding unfinished
unfinished-le [] = omega arith
unfinished-le (finished e ∷ ws) = omega (arith, unfinished-le ws)
unfinished-le (loading e ∷ ws) = omega (arith, unfinished-le ws)
unfinished-le (swapping e old ∷ ws) = omega (arith, unfinished-le ws)

module _ (before after : List Writer) where
  around_length : (w x : Writer) → length (before ++ w ∷ after) ≡ length (before ++ x ∷ after)
  around_length w x =
      omega (arith, length-append before (w ∷ after), length-append before (x ∷ after))

  around_weights :
      (v : ℕ) (w : Writer)
      → weights v (before ++ w ∷ after) ≡ weights v before + weights v after + weight v w
  unfolding weights
  around_weights v w = omega (arith, weights-append v before (w ∷ after))

  around_unfinished :
      (w : Writer)
      → unfinished (before ++ w ∷ after) ≡ unfinished (before ++ after) + unfinished (w ∷ [])
  unfolding unfinished
  around_unfinished (finished e) =
      omega (arith, unfinished-append before (finished e ∷ after), unfinished-append before after)
  around_unfinished (loading e) =
      omega (arith, unfinished-append before (loading e ∷ after), unfinished-append before after)
  around_unfinished (swapping e old) =
      omega
        (arith, unfinished-append before (swapping e old ∷ after), unfinished-append before after)

  same_word :
      (n v : ℕ) (w x : Writer)
      → unfinished (w ∷ []) ≡ unfinished (x ∷ [])
      → weight v x < weight v w
      → rank n (at v before x after) < rank n (at v before w after)
  same_word n v w x e l =
      let c : unfinished (before ++ x ∷ after) ≡ unfinished (before ++ w ∷ after) =
        omega (arith, around_unfinished w, around_unfinished x) in
      rw c (omega (arith, around_weights v w, around_weights v x))

  one_returns :
      (n v u e old : ℕ)
      → length (before ++ finished e ∷ after) ≡ n
      → rank n (at u before (finished e) after) < rank n (at v before (swapping e old) after)
  unfolding unfinished
  one_returns n v u e old len =
      let c : unfinished (before ++ swapping e old ∷ after)
          ≡ suc (unfinished (before ++ finished e ∷ after)) =
        omega (arith, around_unfinished (swapping e old), around_unfinished (finished e)) in
      rw c (
        fewer (unfinished (before ++ finished e ∷ after)) _ _
          (omega (arith, len, weights-le u (before ++ finished e ∷ after))))
    where
      fewer : (k a b : ℕ) → a ≤ 2 * n → k * (2 * n + 1) + a < suc k * (2 * n + 1) + b
      fewer k a b h = grind arith

Step-rank :
    (n : ℕ) (s u : Slot)
    → length s.writers ≡ n
    → Step s u
    → (length u.writers ≡ n) × (rank n u < rank n s)
unfolding unfinished
Step-rank n s u len (loads before after epoch es eu) =
    let el = ap (λ (x : Slot). length x.writers) es in
    let l = around_length before after (loading epoch) (swapping epoch s.word) in
    (
      ap (λ (x : Slot). length x.writers) eu ∙ omega (arith, l, el, len),
      subst (λ x. rank n u < rank n x) (sym es)
          (subst (λ x. rank n x < rank n (at s.word before (loading epoch) after)) (sym eu)
            (same_word before after n s.word (loading epoch) (swapping epoch s.word) refl
              (ground arith))),
    )
Step-rank n s u len (swaps before after epoch old es ew eu) =
    let el = ap (λ (x : Slot). length x.writers) es in
    let l = around_length before after (swapping epoch old) (finished epoch) in
    (
      ap (λ (x : Slot). length x.writers) eu ∙ omega (arith, l, el, len),
      subst (λ x. rank n u < rank n x) (sym es)
          (subst (λ x. rank n x < rank n (at s.word before (swapping epoch old) after)) (sym eu)
            (one_returns before after n s.word _ epoch old (omega (arith, l, el, len)))),
    )
Step-rank n s u len (retries before after epoch old es ew eu) =
    let el = ap (λ (x : Slot). length x.writers) es in
    let l = around_length before after (swapping epoch old) (loading epoch) in
    (
      ap (λ (x : Slot). length x.writers) eu ∙ omega (arith, l, el, len),
      subst (λ x. rank n u < rank n x) (sym es)
          (subst (λ x. rank n x < rank n (at s.word before (swapping epoch old) after)) (sym eu)
            (same_word before after n s.word (swapping epoch old) (loading epoch) refl
              (ground arith))),
    )

-- The number of steps of a run.
pub steps_count : {s u : Slot} → Steps s u → ℕ
steps_count here = 0
steps_count (next r step) = suc (steps_count r)

Steps-rank :
    (n : ℕ) (s u : Slot)
    → length s.writers ≡ n
    → (r : Steps s u) → (length u.writers ≡ n) × (steps_count r + rank n u ≤ rank n s)
unfolding steps_count
Steps-rank n s u len here = (len, omega arith)
Steps-rank n s u len (next {t} r step) =
    let h = Steps-rank n s t len r in
    let k = Step-rank n t u h.0 step in (k.0, omega (arith, h.1, k.1))

rank-le : (s : Slot) → rank (length s.writers) s ≤ length s.writers * (2 * length s.writers + 3)
rank-le s =
    bound (unfinished s.writers) (length s.writers) _ (unfinished-le s.writers)
      (weights-le s.word s.writers)
  where
    bound : (k n a : ℕ) → k ≤ n → a ≤ 2 * n → k * (2 * n + 1) + a ≤ n * (2 * n + 3)
    bound k n a h l = grind arith

can-Step :
    (word : ℕ) (before ws : List Writer)
    → (unfinished ws ≡ 0) ⊎ ((u : Slot) × Step (record { word = word; writers = before ++ ws }) u)
unfolding unfinished
can-Step word before [] = inl refl
can-Step word before (loading e ∷ ws) =
    inr (at word before (swapping e word) ws, loads before ws e refl refl)
can-Step word before (swapping e old ∷ ws) = elim (Bool-cases (word == old)) [
  | inl same ↦
      inr (at (bump old e) before (finished e) ws, swaps before ws e old refl (ground arith) refl)
  | inr other ↦
      inr (at word before (loading e) ws, retries before ws e old refl (λ q. ground arith) refl)
]
can-Step word before (finished e ∷ ws) =
    subst (λ l. (unfinished ws ≡ 0) ⊎ ((u : Slot) × Step (record { word = word; writers = l }) u))
      (append_assoc before (finished e ∷ []) ws) (can-Step word (before ++ finished e ∷ []) ws)

-- The loops end: however the loads and swaps of n writers interleave, a run has at most n * (2 n + 3)
-- steps, and as long as a writer has not returned there is a next step.
pub Steps-terminate :
    (s u : Slot) (r : Steps s u)
    → (steps_count r ≤ length s.writers * (2 * length s.writers + 3))
      × ((unfinished u.writers ≡ 0) ⊎ ((v : Slot) × Step u v))
Steps-terminate s u r =
    let h = Steps-rank (length s.writers) s u refl r in
    (omega (arith, h.1, rank-le s), can-Step u.word [] u.writers)
