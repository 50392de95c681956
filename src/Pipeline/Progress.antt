-- ===== src/Pipeline/Progress.antt =====
-- How long the shutdown of the pipeline can take, in moves (main.go, executor/pool.go).
use fruitfly.Base.{
  some_injective, ltb, if◌then◌else◌, if_elim, is_some, length, get_or, All, length-append, ℕ, suc,
  ◌+◌, ◌*◌, ◌≤◌, ◌<◌, ◌≡◌, refl, ap, ◌∙◌, subst, ◌⊎◌, inl, inr, Bool, true, false, Option, none,
  some, List, [], ◌∷◌, arith,
}
use fruitfly.Types.{Event, Result}
use fruitfly.Executor.Pool.{Runtime, process_event}
use fruitfly.Output.Store.{Database}
use fruitfly.Output.Writer.{Mode, running, draining, stopped, received, closed, step, run}
use fruitfly.Output.Writer.Delivery.{run_closed_stops}
use fruitfly.Pipeline.{
  Stage, idle, returned, evaluating, sending, Pipeline, Move, offer, publish, evict, close_events,
  close_results, deliver, deliver_closed, take_event, evaluate, send_result, leave, notify,
  is_returned, all_returned, is_stopped, result_chan_cap, taken, left, processed, sent, joined,
  told, delivered, ended, move, moves,
}
use fruitfly.Pipeline.Accounting.{total, total-set}
pub mod Unblocked

-- A move of a worker, of the pool or of the writer at the channel of results.
abbrev pub IsWork : Move → Type 0
IsWork (take_event i) = Unit {0}
IsWork (evaluate i) = Unit {0}
IsWork (send_result i) = Unit {0}
IsWork (leave i) = Unit {0}
IsWork close_results = Unit {0}
IsWork deliver = Unit {0}
IsWork deliver_closed = Unit {0}
IsWork _ = ⊥

-- The moves that a worker has still to make for what it has, and the one to return.
abbrev pub weight : Stage → ℕ
weight returned = 0
weight idle = 1
weight (sending x) = 3
weight (evaluating e) = 4

abbrev pub open_bit : Bool → ℕ
open_bit b = if b then 0 else 1

open_bit-le : (b : Bool) → open_bit b ≤ 1
open_bit-le true = omega arith
open_bit-le false = omega arith

total-weight : (ws : List Stage) → total weight ws ≤ 4 * length ws
total-weight [] = omega arith
total-weight (idle ∷ ws) = omega (arith, total-weight ws)
total-weight (returned ∷ ws) = omega (arith, total-weight ws)
total-weight (evaluating e ∷ ws) = omega (arith, total-weight ws)
total-weight (sending x ∷ ws) = omega (arith, total-weight ws)

module _ {S : Type 0} where
  abbrev pub left_work : Pipeline S → ℕ
  left_work p =
      4 * length p.waiting
      + total weight p.workers
      + length p.results
      + open_bit p.results_closed
      + open_bit (is_stopped p.writer.mode)

  pub left_work-le :
      (p : Pipeline S)
      → left_work p ≤ 4 * length p.waiting + 4 * length p.workers + length p.results + 2
  left_work-le p = omega (
    arith,
    total-weight p.workers,
    open_bit-le p.results_closed,
    open_bit-le (is_stopped p.writer.mode),
  )

module _ {S : Type 0} (r : Runtime S) (gc : ℕ → S → S) (d : Database) where
  abbrev Lessens : Pipeline S → Option (Pipeline S) → Type 0
  Lessens p o =
      (q : Pipeline S)
      → o ≡ some q
      → (left_work q < left_work p) × (q.events_closed ≡ p.events_closed)

  on_none : (p : Pipeline S) → Lessens p none
  on_none p q h = cc

  on_some :
      (p u : Pipeline S)
      → left_work u < left_work p
      → u.events_closed ≡ p.events_closed
      → Lessens p (some u)
  on_some p u l e q h =
      subst (λ x. (left_work x < left_work p) × (x.events_closed ≡ p.events_closed))
        (some_injective h) (l, e)

  taken-lt :
      (p : Pipeline S) (i : ℕ) (w : Stage) (es : List Event)
      → get_or p.workers i returned ≡ w
      → p.waiting ≡ es
      → Lessens p (taken r gc d p i w es)
  unfolding taken
  taken-lt p i idle (e ∷ es) h n =
      on_some p _
        (omega (
          arith,
          total-set weight p.workers i (evaluating e) idle h refl,
          ap (λ (l : List Event). length l) n,
        ))
        refl
  taken-lt p i idle [] h n = on_none p
  taken-lt p i returned es h n = on_none p
  taken-lt p i (evaluating e) es h n = on_none p
  taken-lt p i (sending x) es h n = on_none p

  left-lt :
      (p : Pipeline S) (i : ℕ) (w : Stage) (es : List Event) (b : Bool)
      → get_or p.workers i returned ≡ w
      → Lessens p (left r gc d p i w es b)
  unfolding left
  left-lt p i idle [] true h =
      on_some p _ (omega (arith, total-set weight p.workers i returned idle h refl)) refl
  left-lt p i idle [] false h = on_none p
  left-lt p i idle (e ∷ es) b h = on_none p
  left-lt p i returned es b h = on_none p
  left-lt p i (evaluating e) es b h = on_none p
  left-lt p i (sending x) es b h = on_none p

  processed-lt :
      (p : Pipeline S) (i : ℕ) (w : Stage)
      → get_or p.workers i returned ≡ w
      → Lessens p (processed r gc d p i w)
  unfolding processed
  processed-lt p i (evaluating e) h =
      on_some p _
        (omega (
          arith,
          total-set weight p.workers i (sending (process_event r p.snapshot e p.state).1)
              (evaluating e) h refl,
        ))
        refl
  processed-lt p i idle h = on_none p
  processed-lt p i returned h = on_none p
  processed-lt p i (sending x) h = on_none p

  sent-lt :
      (p : Pipeline S) (i : ℕ) (w : Stage)
      → get_or p.workers i returned ≡ w
      → Lessens p (sent r gc d p i w)
  unfolding sent
  sent-lt p i (sending x) h =
      if_elim (Lessens p) (ltb (length p.results) result_chan_cap) _ _
        (λ _.
          on_some p _
            (omega (
              arith,
              total-set weight p.workers i idle (sending x) h refl,
              length-append p.results (x ∷ []),
            ))
            refl)
        (λ _. on_none p)
  sent-lt p i idle h = on_none p
  sent-lt p i returned h = on_none p
  sent-lt p i (evaluating e) h = on_none p

  joined-lt : (p : Pipeline S) (a b : Bool) → p.results_closed ≡ b → Lessens p (joined r gc d p a b)
  unfolding joined
  joined-lt p true false h = on_some p _ (omega (arith, ap open_bit h)) refl
  joined-lt p true true h = on_none p
  joined-lt p false b h = on_none p

  delivered-lt :
      (p : Pipeline S) (b : Bool) (rs : List Result)
      → is_stopped p.writer.mode ≡ b
      → p.results ≡ rs
      → Lessens p (delivered r gc d p b rs)
  unfolding delivered told
  delivered-lt p false (x ∷ rs) h n =
      on_some p _
        (omega (
          arith,
          ap open_bit h,
          ap (λ (l : List Result). length l) n,
          open_bit-le (is_stopped (step d p.writer (received x)).mode),
        ))
        refl
  delivered-lt p false [] h n = on_none p
  delivered-lt p true rs h n = on_none p

  ended-lt :
      (p : Pipeline S) (b : Bool) (rs : List Result) (c : Bool)
      → is_stopped p.writer.mode ≡ b
      → Lessens p (ended r gc d p b rs c)
  unfolding ended told
  ended-lt p false [] true h =
      on_some p _ (omega (arith, ap open_bit h, ap (λ m. open_bit (is_stopped m)) stops)) refl
    where
      stops : (step d p.writer closed).mode ≡ stopped
      stops = unfold run in run_closed_stops d [] p.writer
  ended-lt p false [] false h = on_none p
  ended-lt p false (x ∷ rs) c h = on_none p
  ended-lt p true rs c h = on_none p

  work-lt : (p : Pipeline S) (m : Move) → IsWork m → Lessens p (move r gc d p m)
  unfolding move
  work-lt p (take_event i) w = taken-lt p i (get_or p.workers i returned) p.waiting refl refl
  work-lt p (leave i) w = left-lt p i (get_or p.workers i returned) p.waiting p.events_closed refl
  work-lt p (evaluate i) w = processed-lt p i (get_or p.workers i returned) refl
  work-lt p (send_result i) w = sent-lt p i (get_or p.workers i returned) refl
  work-lt p close_results w = joined-lt p (all_returned p.workers) p.results_closed refl
  work-lt p deliver w = delivered-lt p (is_stopped p.writer.mode) p.results refl refl
  work-lt p deliver_closed w = ended-lt p (is_stopped p.writer.mode) p.results p.results_closed refl
  work-lt p (offer e) w = absurd w
  work-lt p (publish s) w = absurd w
  work-lt p (evict now) w = absurd w
  work-lt p close_events w = absurd w
  work-lt p (notify s) w = absurd w

  pub moves-lt :
      (p : Pipeline S) (ms : List Move) (q : Pipeline S)
      → All IsWork ms
      → moves r gc d p ms ≡ some q
      → (length ms + left_work q ≤ left_work p) × (q.events_closed ≡ p.events_closed)
  unfolding moves
  moves-lt p [] q g h =
      subst (λ x. (0 + left_work x ≤ left_work p) × (x.events_closed ≡ p.events_closed))
        (some_injective h) (omega arith, refl)
  moves-lt p (m ∷ ms) q g h = onward (move r gc d p m) refl h (λ u k. moves-lt u ms q g.1 k)
    where
      onward :
          (o : Option (Pipeline S))
          → move r gc d p m ≡ o
          → (elim o [ none ↦ none | some u ↦ moves r gc d u ms ]) ≡ some q
          → ((u : Pipeline S)
              → moves r gc d u ms ≡ some q
              → (length ms + left_work q ≤ left_work u) × (q.events_closed ≡ u.events_closed))
          → (length (m ∷ ms) + left_work q ≤ left_work p) × (q.events_closed ≡ p.events_closed)
      onward none e k rest = cc
      onward (some u) e k rest =
          let first = work-lt p m g.0 u e in
          let after = rest u k in (omega (arith, first.0, after.0), after.1 ∙ first.1)
