-- ===== src/Pipeline/Progress/Unblocked.antt =====
-- Until the writer has returned, a move of the shutdown is not blocked (main.go, executor/pool.go).
use fruitfly.Base.{
  is_some, length, get_or, All, ℕ, suc, ◌+◌, ◌*◌, ◌≤◌, ◌≡◌, refl, ap, ◌∙◌, ◌⊎◌, inl, inr, Bool,
  true, false, Option, none, some, List, [], ◌∷◌, arith,
}
use fruitfly.Types.{Event, Result}
use fruitfly.Executor.Pool.{Runtime}
use fruitfly.Output.Store.{Database}
use fruitfly.Output.Writer.{Mode, running, draining, stopped}
use fruitfly.Pipeline.{
  Stage, idle, returned, evaluating, sending, Pipeline, Move, close_results, deliver,
  deliver_closed, take_event, evaluate, send_result, leave, is_returned, all_returned, is_stopped,
  taken, left, processed, sent, joined, delivered, ended, move, moves,
}
use fruitfly.Pipeline.Progress.{IsWork, left_work-le, moves-lt}

module _ {S : Type 0} (r : Runtime S) (gc : ℕ → S → S) (d : Database) where
  -- A move that is not blocked.
  abbrev pub CanWork : Pipeline S → Type 0
  CanWork p = (m : Move) × (IsWork m × ((q : Pipeline S) × (move r gc d p m ≡ some q)))

  -- A worker that has not returned, or all have.
  busy :
      (ws : List Stage)
      → (all_returned ws ≡ true)
        ⊎ ((i : ℕ) × ((w : Stage) × ((get_or ws i returned ≡ w) × (is_returned w ≡ false))))
  busy [] = inl refl
  busy (returned ∷ ws) = elim (busy ws) [ inl h ↦ inl h | inr (i, t) ↦ inr (suc i, t) ]
  busy (idle ∷ ws) = inr (0, (idle, (refl, refl)))
  busy (evaluating e ∷ ws) = inr (0, (evaluating e, (refl, refl)))
  busy (sending x ∷ ws) = inr (0, (sending x, (refl, refl)))

  can_move :
      (p : Pipeline S) (m : Move)
      → IsWork m
      → (o : Option (Pipeline S)) → move r gc d p m ≡ o
      → is_some o ≡ true
      → CanWork p
  can_move p m w none e h = cc
  can_move p m w (some q) e h = (m, (w, (q, e)))

  worker_moves :
      (p : Pipeline S) (i : ℕ) (w : Stage)
      → get_or p.workers i returned ≡ w
      → is_returned w ≡ false
      → p.events_closed ≡ true
      → p.results ≡ []
      → CanWork p
  unfolding move taken left processed sent
  worker_moves p i (evaluating e) h k c n = can_move p (evaluate i) tt _ refl (rw h refl)
  worker_moves p i (sending x) h k c n = can_move p (send_result i) tt _ refl (rw (h, n) refl)
  worker_moves p i returned h k c n = cc
  worker_moves p i idle h k c n = by_queue p.waiting refl
    where
      by_queue : (es : List Event) → p.waiting ≡ es → CanWork p
      by_queue [] m = can_move p (leave i) tt _ refl (rw (h, m, c) refl)
      by_queue (e ∷ es) m = can_move p (take_event i) tt _ refl (rw (h, m) refl)

  -- Once all workers have returned, the channel of results is closed, and then read to its end.
  end_moves :
      (p : Pipeline S) (b : Bool)
      → p.results_closed ≡ b
      → all_returned p.workers ≡ true
      → is_stopped p.writer.mode ≡ false
      → p.results ≡ []
      → CanWork p
  unfolding move joined ended
  end_moves p true h k s n = can_move p deliver_closed tt _ refl (rw (h, s, n) refl)
  end_moves p false h k s n = can_move p close_results tt _ refl (rw (h, k) refl)

  result_moves :
      (p : Pipeline S) (rs : List Result)
      → p.results ≡ rs
      → is_stopped p.writer.mode ≡ false
      → p.events_closed ≡ true
      → CanWork p
  unfolding move delivered
  result_moves p (x ∷ rs) n s c = can_move p deliver tt _ refl (rw (s, n) refl)
  result_moves p [] n s c = elim (busy p.workers) [
    | inl h ↦ end_moves p p.results_closed refl h s n
    | inr (i, (w, (h, k))) ↦ worker_moves p i w h k c n
  ]

  stopped_or_moves :
      (p : Pipeline S) (m : Mode)
      → p.writer.mode ≡ m
      → p.events_closed ≡ true
      → (m ≡ stopped) ⊎ CanWork p
  stopped_or_moves p stopped h c = inl refl
  stopped_or_moves p running h c = inr (result_moves p p.results refl (ap is_stopped h) c)
  stopped_or_moves p draining h c = inr (result_moves p p.results refl (ap is_stopped h) c)

  -- The shutdown ends: from any state in which the channel of events is closed, however the workers,
  -- the pool and the writer take turns, they make at most four moves for each event that waits and
  -- each worker, one for each result that waits, and two; and as long as the writer has not returned,
  -- one of them is not blocked.
  pub moves-terminate :
      (p : Pipeline S) (ms : List Move) (q : Pipeline S)
      → p.events_closed ≡ true
      → All IsWork ms
      → moves r gc d p ms ≡ some q
      → (length ms ≤ 4 * length p.waiting + 4 * length p.workers + length p.results + 2)
        × ((q.writer.mode ≡ stopped) ⊎ CanWork q)
  moves-terminate p ms q c g h =
      let l = moves-lt r gc d p ms q g h in
      (omega (arith, l.0, left_work-le p), stopped_or_moves q q.writer.mode refl (l.1 ∙ c))
