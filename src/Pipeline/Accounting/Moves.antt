-- ===== src/Pipeline/Accounting/Moves.antt =====
-- Every move keeps the events counted (main.go, executor/pool.go).
use fruitfly.Base.{
  some_injective, ltb, if_elim, length, get_or, set, count_if, str_eq, ℕ, ◌+◌, ◌≡◌, refl, sym, ap,
  ◌∙◌, subst, Bool, true, false, Option, none, some, List, [], ◌∷◌, ◌++◌, arith,
}
use fruitfly.Types.{Event, Result}
use fruitfly.Rules.Snapshot.{Snapshot}
use fruitfly.Executor.Pool.{Runtime, process_event, make_result, evaluated}
use fruitfly.Output.Store.{Database}
use fruitfly.Output.Writer.{
  Signal, received, closed, flush_tick, cancelled, drain_timeout, hook_done, retention_tick,
}
use fruitfly.Output.Writer.Plain.{received_of}
use fruitfly.Pipeline.{
  Stage, idle, returned, evaluating, sending, Pipeline, Move, offer, publish, evict, close_events,
  close_results, deliver, deliver_closed, take_event, evaluate, send_result, leave, notify,
  all_returned, is_own, is_stopped, event_chan_cap, result_chan_cap, offered, closing, taken, left,
  processed, sent, joined, told, delivered, ended, notified, move,
}
use fruitfly.Pipeline.Accounting.{
  total, total-set, count_if-append, received_of-append, is_event, is_result, bit, held, IsCounted,
}

event_id-process_event :
    {S : Type 0} (r : Runtime S) (snap : Option Snapshot) (e : Event) (s : S)
    → (process_event r snap e s).1.event_id ≡ e.event_id
unfolding process_event make_result evaluated
event_id-process_event r none e s = refl
event_id-process_event r (some snap) e s = refl

module _ {S : Type 0} (r : Runtime S) (gc : ℕ → S → S) (d : Database) where
  abbrev Counts : Pipeline S → Option (Pipeline S) → Type 0
  Counts p o = (q : Pipeline S) → o ≡ some q → IsCounted p → IsCounted q

  on_some : (p u : Pipeline S) → (IsCounted p → IsCounted u) → Counts p (some u)
  on_some p u f q h c = subst IsCounted (some_injective h) (f c)

  on_none : (p : Pipeline S) → Counts p none
  on_none p q h c = cc

  taken-IsCounted :
      (p : Pipeline S) (i : ℕ) (w : Stage) (es : List Event)
      → get_or p.workers i returned ≡ w
      → p.waiting ≡ es
      → Counts p (taken r gc d p i w es)
  unfolding taken
  taken-IsCounted p i idle (e ∷ es) h w = on_some p _ moved
    where
      moved :
          IsCounted p
          → IsCounted (record p { waiting = es; workers = set p.workers i (evaluating e) })
      moved c k =
          let t = total-set (held k) p.workers i (evaluating e) idle h refl in
          let n = ap (count_if (is_event k)) w in c k ∙ ground (arith, t, n)
  taken-IsCounted p i idle [] h w = on_none p
  taken-IsCounted p i returned es h w = on_none p
  taken-IsCounted p i (evaluating e) es h w = on_none p
  taken-IsCounted p i (sending e) es h w = on_none p

  left-IsCounted :
      (p : Pipeline S) (i : ℕ) (w : Stage) (es : List Event) (b : Bool)
      → get_or p.workers i returned ≡ w
      → Counts p (left r gc d p i w es b)
  unfolding left
  left-IsCounted p i idle [] true h =
      on_some p _ (λ c k. omega (arith, c k, total-set (held k) p.workers i returned idle h refl))
  left-IsCounted p i idle [] false h = on_none p
  left-IsCounted p i idle (e ∷ es) b h = on_none p
  left-IsCounted p i returned es b h = on_none p
  left-IsCounted p i (evaluating e) es b h = on_none p
  left-IsCounted p i (sending e) es b h = on_none p

  processed-IsCounted :
      (p : Pipeline S) (i : ℕ) (w : Stage)
      → get_or p.workers i returned ≡ w
      → Counts p (processed r gc d p i w)
  unfolding processed
  processed-IsCounted p i (evaluating e) h = on_some p _ (λ c k. omega (
    arith,
    c k,
    total-set (held k) p.workers i (sending (process_event r p.snapshot e p.state).1) (evaluating e)
        h refl,
    ap (λ s. bit (str_eq s k)) (event_id-process_event r p.snapshot e p.state),
  ))
  processed-IsCounted p i idle h = on_none p
  processed-IsCounted p i returned h = on_none p
  processed-IsCounted p i (sending e) h = on_none p

  sent-IsCounted :
      (p : Pipeline S) (i : ℕ) (w : Stage)
      → get_or p.workers i returned ≡ w
      → Counts p (sent r gc d p i w)
  unfolding sent
  sent-IsCounted p i (sending x) h =
      if_elim (Counts p) (ltb (length p.results) result_chan_cap) _ _
        (λ _. on_some p _ (λ c k.
          let t = total-set (held k) p.workers i idle (sending x) h refl in
          let n = count_if-append (is_result k) p.results (x ∷ []) in c k ∙ ground (arith, t, n)))
        (λ _. on_none p)
  sent-IsCounted p i idle h = on_none p
  sent-IsCounted p i returned h = on_none p
  sent-IsCounted p i (evaluating e) h = on_none p

  offered-IsCounted : (p : Pipeline S) (e : Event) (b : Bool) → Counts p (offered r gc d p e b)
  unfolding offered
  offered-IsCounted p e true = on_none p
  offered-IsCounted p e false =
      if_elim (λ u. Counts p (some u)) (ltb (length p.waiting) event_chan_cap) _ _
        (λ _. on_some p _ (λ c k. omega (
          arith,
          c k,
          count_if-append (is_event k) p.waiting (e ∷ []),
          count_if-append (is_event k) p.accepted (e ∷ []),
        )))
        (λ _. on_some p p (λ c. c))

  told-IsCounted :
      (p : Pipeline S) (s : Signal)
      → received_of (s ∷ []) ≡ []
      → IsCounted p
      → IsCounted (told r gc d p s)
  unfolding told
  told-IsCounted p s n c k =
      c k
      ∙ ap
          (λ l.
            count_if (is_event k) p.waiting
            + total (held k) p.workers
            + count_if (is_result k) p.results
            + l)
          (sym (
            ap (count_if (is_result k)) (received_of-append p.signals (s ∷ []))
            ∙ count_if-append (is_result k) (received_of p.signals) _
            ∙ omega (arith, ap (count_if (is_result k)) n)))

  delivered-IsCounted :
      (p : Pipeline S) (b : Bool) (rs : List Result)
      → p.results ≡ rs
      → Counts p (delivered r gc d p b rs)
  unfolding delivered told
  delivered-IsCounted p true rs h = on_none p
  delivered-IsCounted p false [] h = on_none p
  delivered-IsCounted p false (x ∷ rs) h = on_some p _ (λ c k.
      let n = ap (count_if (is_result k)) h in
      let g = ap (count_if (is_result k)) (received_of-append p.signals (received x ∷ [])) in
      let a = count_if-append (is_result k) (received_of p.signals) (x ∷ []) in
      let z : count_if (is_result k) p.results + count_if (is_result k) (received_of p.signals)
          ≡ count_if (is_result k) rs
            + count_if (is_result k) (received_of (p.signals ++ received x ∷ [])) =
        ground (arith, n, g, a) in
      omega (arith, c k, z))

  ended-IsCounted :
      (p : Pipeline S) (b : Bool) (rs : List Result) (c : Bool) → Counts p (ended r gc d p b rs c)
  unfolding ended
  ended-IsCounted p false [] true = on_some p _ (told-IsCounted p closed refl)
  ended-IsCounted p false [] false = on_none p
  ended-IsCounted p false (x ∷ rs) c = on_none p
  ended-IsCounted p true rs c = on_none p

  own_silent : (s : Signal) → is_own s ≡ true → received_of (s ∷ []) ≡ []
  own_silent (received x) h = cc
  own_silent closed h = refl
  own_silent flush_tick h = refl
  own_silent cancelled h = refl
  own_silent drain_timeout h = refl
  own_silent hook_done h = refl
  own_silent (retention_tick n) h = refl

  notified-IsCounted :
      (p : Pipeline S) (b : Bool) (s : Signal) (c : Bool)
      → is_own s ≡ c
      → Counts p (notified r gc d p b s c)
  unfolding notified
  notified-IsCounted p false s true h = on_some p _ (told-IsCounted p s (own_silent s h))
  notified-IsCounted p false s false h = on_none p
  notified-IsCounted p true s c h = on_none p

  closing-IsCounted : (p : Pipeline S) (b : Bool) → Counts p (closing r gc d p b)
  unfolding closing
  closing-IsCounted p true = on_none p
  closing-IsCounted p false = on_some p _ (λ c. c)

  joined-IsCounted : (p : Pipeline S) (a b : Bool) → Counts p (joined r gc d p a b)
  unfolding joined
  joined-IsCounted p true false = on_some p _ (λ c. c)
  joined-IsCounted p true true = on_none p
  joined-IsCounted p false b = on_none p

  pub move-IsCounted :
      (p : Pipeline S) (m : Move) (q : Pipeline S)
      → move r gc d p m ≡ some q
      → IsCounted p
      → IsCounted q
  unfolding move
  move-IsCounted p (offer e) = offered-IsCounted p e p.events_closed
  move-IsCounted p (publish snap) = on_some p _ (λ c. c)
  move-IsCounted p (evict now) = on_some p _ (λ c. c)
  move-IsCounted p close_events = closing-IsCounted p p.events_closed
  move-IsCounted p (take_event i) =
      taken-IsCounted p i (get_or p.workers i returned) p.waiting refl refl
  move-IsCounted p (leave i) =
      left-IsCounted p i (get_or p.workers i returned) p.waiting p.events_closed refl
  move-IsCounted p (evaluate i) = processed-IsCounted p i (get_or p.workers i returned) refl
  move-IsCounted p (send_result i) = sent-IsCounted p i (get_or p.workers i returned) refl
  move-IsCounted p close_results = joined-IsCounted p (all_returned p.workers) p.results_closed
  move-IsCounted p deliver = delivered-IsCounted p (is_stopped p.writer.mode) p.results refl
  move-IsCounted p deliver_closed =
      ended-IsCounted p (is_stopped p.writer.mode) p.results p.results_closed
  move-IsCounted p (notify s) = notified-IsCounted p (is_stopped p.writer.mode) s (is_own s) refl
