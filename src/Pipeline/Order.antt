-- ===== src/Pipeline/Order.antt =====
-- The order in which the stages of the pipeline shut down (main.go, executor/pool.go).
use fruitfly.Base.{
  some_injective, ltb, &&-true, if_elim, length, get_or, set, All, length-set, All-append, ℕ, zero,
  suc, ◌<◌, ◌≡◌, refl, sym, ap, ◌∙◌, subst, ◌⊎◌, inl, inr, Bool, true, false, ◌||◌, Option, none,
  some, List, [], ◌∷◌, ◌++◌, arith,
}
use fruitfly.Types.{Event, Result}
use fruitfly.Executor.Pool.{Runtime, process_event}
use fruitfly.Output.Store.{Database}
use fruitfly.Output.Writer.{stopped, Writer, Signal, received, closed, step, run}
use fruitfly.Output.Writer.Delivery.{run-append, run_closed_stops}
use fruitfly.Output.Writer.Plain.{IsPlain, IsOpen, step-IsOpen}
use fruitfly.Pipeline.{
  Stage, idle, returned, evaluating, sending, Pipeline, Move, offer, publish, evict, close_events,
  close_results, deliver, deliver_closed, take_event, evaluate, send_result, leave, notify,
  is_returned, all_returned, is_own, is_stopped, event_chan_cap, result_chan_cap, offered, closing,
  taken, left, processed, sent, joined, told, delivered, ended, notified, move,
}
pub mod Workers
pub mod Moves

abbrev pub some_returned : List Stage → Bool
some_returned [] = false
some_returned (w ∷ ws) = is_returned w || some_returned ws

-- A signal of another sort than the results, as a move that ends no loop may bring.
abbrev pub IsGentle : Move → Type 0
IsGentle (notify s) = IsPlain s
IsGentle _ = Unit {0}

-- A worker that is not to return is replaced by another such.
some_returned-set :
    (ws : List Stage) (i : ℕ) (v : Stage)
    → is_returned (get_or ws i returned) ≡ false
    → is_returned v ≡ false
    → some_returned (set ws i v) ≡ some_returned ws
some_returned-set [] i v h k = refl
some_returned-set (x ∷ ws) zero v h k = ground (arith, h, k)
some_returned-set (x ∷ ws) (suc i) v h k =
    ap (λ b. is_returned x || b) (some_returned-set ws i v h k)

pub all_returned-get :
    (ws : List Stage) (i : ℕ) → all_returned ws ≡ true → is_returned (get_or ws i returned) ≡ true
all_returned-get [] i h = refl
all_returned-get (x ∷ ws) zero h = (&&-true (is_returned x) (all_returned ws) h).0
all_returned-get (x ∷ ws) (suc i) h =
    all_returned-get ws i (&&-true (is_returned x) (all_returned ws) h).1

pub all_returned-some :
    (ws : List Stage) → 0 < length ws → all_returned ws ≡ true → some_returned ws ≡ true
all_returned-some [] h k = absurd (omega arith)
all_returned-some (x ∷ ws) h k = rw ((&&-true (is_returned x) (all_returned ws) k).0) refl

module _ {S : Type 0} (d : Database) (e : Bool) (w : Writer) where
  -- What the writer has received: nothing that ends it, or after such the end of the results, which
  -- were all read.
  abbrev pub IsFed : Pipeline S → Type 0
  IsFed p =
      (IsOpen e p.writer × All IsPlain p.signals)
      ⊎ ((p.writer.mode ≡ stopped)
          × ((p.results ≡ []) × (p.results_closed ≡ true))
          × ((es : List Signal) × ((p.signals ≡ es ++ closed ∷ []) × All IsPlain es)))

  -- A worker returns once the channel of events is closed and empty, the channel of results is closed
  -- once all workers returned, and the writer stops once it is closed and empty.
  pub record IsOrderly (p : Pipeline S) : Type 0 where
    pub crewed : 0 < length p.workers
    pub emptied : some_returned p.workers ≡ true → (p.events_closed ≡ true) × (p.waiting ≡ [])
    pub joined_all : p.results_closed ≡ true → all_returned p.workers ≡ true
    pub fed : IsFed p
    pub written : p.writer ≡ run d w p.signals

module _ {S : Type 0} (r : Runtime S) (gc : ℕ → S → S) (d : Database) (e : Bool) (w : Writer) where
  abbrev pub Keeps : Pipeline S → Option (Pipeline S) → Type 0
  Keeps p o = (q : Pipeline S) → o ≡ some q → IsOrderly d e w p → IsOrderly d e w q

  pub on_some : (p u : Pipeline S) → (IsOrderly d e w p → IsOrderly d e w u) → Keeps p (some u)
  on_some p u f q h c = subst (λ x. IsOrderly d e w x) (some_injective h) (f c)

  pub on_none : (p : Pipeline S) → Keeps p none
  on_none p q h c = cc

  -- A worker that has not returned leaves the channel of results open, and the writer running.
  pub still-IsOpen :
      (p : Pipeline S) (i : ℕ) (x : Stage)
      → get_or p.workers i returned ≡ x
      → is_returned x ≡ false
      → IsOrderly d e w p
      → (p.results_closed ≡ true → ⊥) × (IsOpen e p.writer × All IsPlain p.signals)
  still-IsOpen p i x h k o =
      let not_closed : p.results_closed ≡ true → ⊥ =
        λ c. absurd (cc (all_returned-get p.workers i (o.joined_all c), ap is_returned h, k)) in
      (not_closed, elim o.fed [ inl f ↦ f | inr (m, (n, c), t) ↦ absurd (not_closed c) ])

  -- A move of such a worker, between stages in its loop.
  pub worker-IsOrderly :
      (p : Pipeline S) (i : ℕ) (x v : Stage) (waiting : List Event) (results : List Result)
      (state : S)
      → get_or p.workers i returned ≡ x
      → is_returned x ≡ false
      → is_returned v ≡ false
      → (p.waiting ≡ [] → waiting ≡ [])
      → IsOrderly d e w p
      → IsOrderly d e w (record p {
        waiting = waiting;
        results = results;
        state = state;
        workers = set p.workers i v;
      })
  worker-IsOrderly p i x v waiting results state h k l f o =
      let open_still = still-IsOpen p i x h k o in
      let same = some_returned-set p.workers i v (ap is_returned h ∙ k) l in
      record {
        crewed = omega (arith, length-set p.workers i v, o.crewed);
        emptied = λ s. let t = o.emptied (sym same ∙ s) in (t.0, f t.1);
        joined_all = λ c. absurd (open_still.0 c);
        fed = inl open_still.1;
        written = o.written;
      }
