-- ===== src/Pipeline/Order/Workers.antt =====
-- The workers' moves and the order of the shutdown (executor/pool.go).
use fruitfly.Base.{
  ltb, if_elim, length, get_or, set, length-set, ℕ, ◌≡◌, refl, inl, Bool, true, false, List, [],
  ◌∷◌, ◌++◌, arith,
}
use fruitfly.Types.{Event}
use fruitfly.Executor.Pool.{Runtime, process_event}
use fruitfly.Output.Store.{Database}
use fruitfly.Output.Writer.{Writer}
use fruitfly.Pipeline.{
  Stage, idle, returned, evaluating, sending, Pipeline, result_chan_cap, taken, left, processed,
  sent,
}
use fruitfly.Pipeline.Order.{IsOrderly, Keeps, on_some, on_none, still-IsOpen, worker-IsOrderly}

module _ {S : Type 0} (r : Runtime S) (gc : ℕ → S → S) (d : Database) (e : Bool) (w : Writer) where
  pub taken-IsOrderly :
      (p : Pipeline S) (i : ℕ) (x : Stage) (es : List Event)
      → get_or p.workers i returned ≡ x
      → p.waiting ≡ es
      → Keeps r gc d e w p (taken r gc d p i x es)
  unfolding taken
  taken-IsOrderly p i idle (v ∷ es) h n = on_some r gc d e w p _ (
      worker-IsOrderly r gc d e w p i idle (evaluating v) es p.results p.state h refl refl
        (λ m. cc (m, n)))
  taken-IsOrderly p i idle [] h n = on_none r gc d e w p
  taken-IsOrderly p i returned es h n = on_none r gc d e w p
  taken-IsOrderly p i (evaluating v) es h n = on_none r gc d e w p
  taken-IsOrderly p i (sending v) es h n = on_none r gc d e w p

  pub left-IsOrderly :
      (p : Pipeline S) (i : ℕ) (x : Stage) (es : List Event) (b : Bool)
      → get_or p.workers i returned ≡ x
      → p.waiting ≡ es
      → p.events_closed ≡ b
      → Keeps r gc d e w p (left r gc d p i x es b)
  unfolding left
  left-IsOrderly p i idle [] true h n c = on_some r gc d e w p _ gone
    where
      gone : IsOrderly d e w p → IsOrderly d e w (record p { workers = set p.workers i returned })
      gone o =
          let open_still = still-IsOpen r gc d e w p i idle h refl o in
          record {
            crewed = omega (arith, length-set p.workers i returned, o.crewed);
            emptied = λ _. (c, n);
            joined_all = λ k. absurd (open_still.0 k);
            fed = inl open_still.1;
            written = o.written;
          }
  left-IsOrderly p i idle [] false h n c = on_none r gc d e w p
  left-IsOrderly p i idle (v ∷ es) b h n c = on_none r gc d e w p
  left-IsOrderly p i returned es b h n c = on_none r gc d e w p
  left-IsOrderly p i (evaluating v) es b h n c = on_none r gc d e w p
  left-IsOrderly p i (sending v) es b h n c = on_none r gc d e w p

  pub processed-IsOrderly :
      (p : Pipeline S) (i : ℕ) (x : Stage)
      → get_or p.workers i returned ≡ x
      → Keeps r gc d e w p (processed r gc d p i x)
  unfolding processed
  processed-IsOrderly p i (evaluating v) h =
      let q = process_event r p.snapshot v p.state in
      on_some r gc d e w p _ (
        worker-IsOrderly r gc d e w p i (evaluating v) (sending q.1) p.waiting p.results q.0 h refl
          refl (λ m. m))
  processed-IsOrderly p i idle h = on_none r gc d e w p
  processed-IsOrderly p i returned h = on_none r gc d e w p
  processed-IsOrderly p i (sending v) h = on_none r gc d e w p

  pub sent-IsOrderly :
      (p : Pipeline S) (i : ℕ) (x : Stage)
      → get_or p.workers i returned ≡ x
      → Keeps r gc d e w p (sent r gc d p i x)
  unfolding sent
  sent-IsOrderly p i (sending v) h =
      if_elim (Keeps r gc d e w p) (ltb (length p.results) result_chan_cap) _ _
        (λ _. on_some r gc d e w p _ (
          worker-IsOrderly r gc d e w p i (sending v) idle p.waiting (p.results ++ v ∷ []) p.state h
            refl refl (λ m. m)))
        (λ _. on_none r gc d e w p)
  sent-IsOrderly p i idle h = on_none r gc d e w p
  sent-IsOrderly p i returned h = on_none r gc d e w p
  sent-IsOrderly p i (evaluating v) h = on_none r gc d e w p
