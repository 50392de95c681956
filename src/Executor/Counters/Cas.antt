-- ===== src/Executor/Counters/Cas.antt =====
-- The compare-and-swap loop of counterSeries.increment (executor/counters.go) on one slot, run by any
-- number of writers whose loads and swaps interleave in any order.
use fruitfly.Base.{
  ◌==◌, if◌then◌else◌, count_if, ℕ, suc, ◌+◌, ◌≡◌, refl, sym, ap, ◌∙◌, ◌≢◌, List, [], ◌∷◌, ◌++◌,
  arith,
}
use fruitfly.Executor.Counters.{bump}

-- Where a writer stands: before its load, between the load and the swap, or returned.
pub data Writer : Type 0 where
  loading finished : ℕ → Writer
  swapping : ℕ → ℕ → Writer

pub record Slot : Type 0 where
  pub word : ℕ
  pub writers : List Writer

abbrev pub at : ℕ → List Writer → Writer → List Writer → Slot
at word before writer after = record { word = word; writers = before ++ writer ∷ after }

-- One atomic action of one writer: the load, the swap that finds the loaded word, and the swap that
-- finds another and goes round the loop.
pub data Step (s : Slot) (u : Slot) : Type 0 where
  loads :
      (before after : List Writer) (epoch : ℕ)
      → s ≡ at s.word before (loading epoch) after
      → u ≡ at s.word before (swapping epoch s.word) after
      → Step s u
  swaps :
      (before after : List Writer) (epoch old : ℕ)
      → s ≡ at s.word before (swapping epoch old) after
      → s.word ≡ old
      → u ≡ at (bump old epoch) before (finished epoch) after
      → Step s u
  retries :
      (before after : List Writer) (epoch old : ℕ)
      → s ≡ at s.word before (swapping epoch old) after
      → s.word ≢ old
      → u ≡ at s.word before (loading epoch) after
      → Step s u

pub data Steps (s : Slot) : Slot → Type 0 where
  here : Steps s s
  next : {t u : Slot} → Steps s t → Step t u → Steps s u

-- The epochs of the writers that have returned.
abbrev finished_epochs : List Writer → List ℕ
finished_epochs [] = []
finished_epochs (finished e ∷ ws) = e ∷ finished_epochs ws
finished_epochs (_ ∷ ws) = finished_epochs ws

-- One `bump` after another, the latest epoch first in the list.
abbrev pub bump_all : ℕ → List ℕ → ℕ
bump_all word [] = word
bump_all word (e ∷ es) = bump (bump_all word es) e

abbrev occurrences : ℕ → List Writer → ℕ
occurrences e [] = 0
occurrences e (finished d ∷ ws) = if d == e then suc (occurrences e ws) else occurrences e ws
occurrences e (_ ∷ ws) = occurrences e ws

-- The word is what the increments of the writers that have returned make of the first word, one after
-- the other in the order of the list `es`; it names each epoch as often as a writer of it returned.
pub record IsSerial (word : ℕ) (s : Slot) : Type 0 where
  pub order : List ℕ
  pub result : s.word ≡ bump_all word order
  pub complete : (e : ℕ) → count_if (λ d. d == e) order ≡ occurrences e s.writers

occurrences-append :
    (e : ℕ) (xs ys : List Writer) → occurrences e (xs ++ ys) ≡ occurrences e xs + occurrences e ys
occurrences-append e [] ys = omega arith
occurrences-append e (finished d ∷ xs) ys = ground (arith, occurrences-append e xs ys)
occurrences-append e (loading d ∷ xs) ys = occurrences-append e xs ys
occurrences-append e (swapping d w ∷ xs) ys = occurrences-append e xs ys

-- A writer that has not returned may be replaced by another such.
same_occurrences :
    (e : ℕ) (before after : List Writer) (x y : Writer)
    → occurrences e (x ∷ []) ≡ 0
    → occurrences e (y ∷ after) ≡ occurrences e (y ∷ []) + occurrences e after
    → occurrences e (x ∷ after) ≡ occurrences e after
    → occurrences e (before ++ y ∷ after)
      ≡ occurrences e (before ++ x ∷ after) + occurrences e (y ∷ [])
same_occurrences e before after x y h k l =
    omega (arith, occurrences-append e before (x ∷ after), occurrences-append e before (y ∷ after))

Step-IsSerial : (word : ℕ) (s u : Slot) → IsSerial word s → Step s u → IsSerial word u
Step-IsSerial word s u v (loads before after epoch es eu) = rw eu (record {
  order = v.order;
  result = v.result;
  complete = λ e.
      v.complete e
      ∙ rw (ap (λ (x : Slot). occurrences e x.writers) es) (
          omega (
            arith,
            same_occurrences e before after (loading epoch) (swapping epoch s.word) refl
                (omega arith) refl,
          ));
})
Step-IsSerial word s u v (retries before after epoch old es ne eu) = rw eu (record {
  order = v.order;
  result = v.result;
  complete = λ e.
      v.complete e
      ∙ rw (ap (λ (x : Slot). occurrences e x.writers) es) (
          omega (
            arith,
            same_occurrences e before after (swapping epoch old) (loading epoch) refl (omega arith)
                refl,
          ));
})
Step-IsSerial word s u v (swaps before after epoch old es same eu) = rw eu (record {
  order = epoch ∷ v.order;
  result = ap (λ w. bump w epoch) (sym same ∙ v.result);
  complete = λ e. ground (
    arith,
    v.complete e,
    ap (λ (x : Slot). occurrences e x.writers) es,
    same_occurrences e before after (swapping epoch old) (finished epoch) refl,
  );
})

-- Whatever the interleaving of the writers' loads and swaps, from a slot where none has returned, the
-- word is always the result of the increments of exactly the writers that have returned, done one
-- after the other in some order: no increment is lost and none is done twice.
pub Steps-IsSerial : (word : ℕ) (s u : Slot) → IsSerial word s → Steps s u → IsSerial word u
Steps-IsSerial word s u v here = v
Steps-IsSerial word s u v (next {t} r step) =
    Step-IsSerial word t u (Steps-IsSerial word s t v r) step
