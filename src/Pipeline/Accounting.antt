-- ===== src/Pipeline/Accounting.antt =====
-- Where the events of the pipeline are (main.go, executor/pool.go).
use fruitfly.Base.{
  ltb, if◌then◌else◌, if_elim, length, get_or, set, replicate, count_if, Str, str_eq, ℕ, zero, suc,
  ◌+◌, ◌≡◌, refl, sym, ap, ◌∙◌, subst, Bool, true, false, Option, none, some, List, [], ◌∷◌, ◌++◌,
  arith,
}
use fruitfly.Types.{Event, Result}
use fruitfly.Rules.Snapshot.{Snapshot}
use fruitfly.Executor.Pool.{Runtime, process_event, make_result, evaluated}
use fruitfly.Output.Store.{Database}
use fruitfly.Output.Writer.{
  Writer, Signal, received, closed, flush_tick, cancelled, drain_timeout, hook_done, retention_tick,
}
use fruitfly.Output.Writer.Plain.{received_of}
use fruitfly.Pipeline.{
  Stage, idle, returned, evaluating, sending, Pipeline, Move, offer, publish, evict, close_events,
  close_results, deliver, deliver_closed, take_event, evaluate, send_result, leave, notify,
  is_returned, all_returned, is_own, is_stopped, event_chan_cap, result_chan_cap, offered, closing,
  taken, left, processed, sent, joined, told, delivered, ended, notified, move, start,
}
pub mod Moves

abbrev pub total : (Stage → ℕ) → List Stage → ℕ
total f [] = 0
total f (w ∷ ws) = f w + total f ws

-- One stage is replaced.
pub total-set :
    (f : Stage → ℕ) (ws : List Stage) (i : ℕ) (v w : Stage)
    → get_or ws i returned ≡ w
    → is_returned w ≡ false
    → total f (set ws i v) + f w ≡ total f ws + f v
total-set f [] i v w e h = absurd (cc (ap is_returned e, h))
total-set f (x ∷ ws) zero v w e h = omega (arith, ap f e)
total-set f (x ∷ ws) (suc i) v w e h = omega (arith, total-set f ws i v w e h)

pub total-replicate : (f : Stage → ℕ) (n : ℕ) → f idle ≡ 0 → total f (replicate n idle) ≡ 0
total-replicate f zero h = refl
total-replicate f (suc n) h = omega (arith, h, total-replicate f n h)

pub count_if-append {ℓ} :
    {A : Type ℓ} (p : A → Bool) (xs ys : List A)
    → count_if p (xs ++ ys) ≡ count_if p xs + count_if p ys
count_if-append p [] ys = omega arith
count_if-append p (x ∷ xs) ys = ground (arith, count_if-append p xs ys)

pub received_of-append :
    (xs ys : List Signal) → received_of (xs ++ ys) ≡ received_of xs ++ received_of ys
received_of-append [] ys = refl
received_of-append (received r ∷ xs) ys = ap (λ l. r ∷ l) (received_of-append xs ys)
received_of-append (closed ∷ xs) ys = received_of-append xs ys
received_of-append (flush_tick ∷ xs) ys = received_of-append xs ys
received_of-append (cancelled ∷ xs) ys = received_of-append xs ys
received_of-append (drain_timeout ∷ xs) ys = received_of-append xs ys
received_of-append (hook_done ∷ xs) ys = received_of-append xs ys
received_of-append (retention_tick n ∷ xs) ys = received_of-append xs ys

abbrev pub is_event : Str → Event → Bool
is_event k e = str_eq e.event_id k

abbrev pub is_result : Str → Result → Bool
is_result k r = str_eq r.event_id k

abbrev pub bit : Bool → ℕ
bit b = if b then 1 else 0

-- The events with the identifier that a worker has.
abbrev pub held : Str → Stage → ℕ
held k idle = 0
held k returned = 0
held k (evaluating e) = bit (is_event k e)
held k (sending r) = bit (is_result k r)

module _ {S : Type 0} where
  -- The events with the identifier on their way, and the results of such that the writer has received.
  abbrev pub present : Str → Pipeline S → ℕ
  present k p =
      count_if (is_event k) p.waiting
      + total (held k) p.workers
      + count_if (is_result k) p.results
      + count_if (is_result k) (received_of p.signals)

  abbrev pub IsCounted : Pipeline S → Type 0
  IsCounted p = (k : Str) → count_if (is_event k) p.accepted ≡ present k p

  pub start-IsCounted :
      (n : ℕ) (w : Writer) (snap : Option Snapshot) (s : S) → IsCounted (start n w snap s)
  start-IsCounted n w snap s k = omega (arith, total-replicate (held k) n refl)
