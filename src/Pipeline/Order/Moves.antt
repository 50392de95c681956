-- ===== src/Pipeline/Order/Moves.antt =====
-- Every move keeps the order of the shutdown (main.go, executor/pool.go).
use fruitfly.Base.{
  ltb, if_elim, length, get_or, All-append, ℕ, ◌≡◌, refl, sym, ap, ◌∙◌, inl, inr, Bool, true, false,
  some, List, [], ◌∷◌, ◌++◌,
}
use fruitfly.Types.{Event, Result}
use fruitfly.Executor.Pool.{Runtime}
use fruitfly.Output.Store.{Database}
use fruitfly.Output.Writer.{Writer, Signal, received, closed, step, run}
use fruitfly.Output.Writer.Delivery.{run-append, run_closed_stops}
use fruitfly.Output.Writer.Plain.{IsPlain, step-IsOpen}
use fruitfly.Pipeline.{
  returned, Pipeline, Move, offer, publish, evict, close_events, close_results, deliver,
  deliver_closed, take_event, evaluate, send_result, leave, notify, all_returned, is_own,
  is_stopped, event_chan_cap, offered, closing, joined, told, delivered, ended, notified, move,
}
use fruitfly.Pipeline.Order.{IsGentle, IsOrderly, Keeps, on_some, on_none}
use fruitfly.Pipeline.Order.Workers.{
  taken-IsOrderly, left-IsOrderly, processed-IsOrderly, sent-IsOrderly,
}

module _ {S : Type 0} (r : Runtime S) (gc : ℕ → S → S) (d : Database) (e : Bool) (w : Writer) where
  offered-IsOrderly :
      (p : Pipeline S) (v : Event) (b : Bool)
      → p.events_closed ≡ b
      → Keeps r gc d e w p (offered r gc d p v b)
  unfolding offered
  offered-IsOrderly p v true h = on_none r gc d e w p
  offered-IsOrderly p v false h =
      if_elim (λ u. Keeps r gc d e w p (some u)) (ltb (length p.waiting) event_chan_cap) _ _
        (λ _. on_some r gc d e w p _ (λ o. record {
          crewed = o.crewed;
          emptied = λ s. absurd (cc ((o.emptied s).0, h));
          joined_all = o.joined_all;
          fed = o.fed;
          written = o.written;
        }))
        (λ _. on_some r gc d e w p p (λ o. o))

  closing-IsOrderly : (p : Pipeline S) (b : Bool) → Keeps r gc d e w p (closing r gc d p b)
  unfolding closing
  closing-IsOrderly p true = on_none r gc d e w p
  closing-IsOrderly p false = on_some r gc d e w p _ (λ o. record {
    crewed = o.crewed;
    emptied = λ s. (refl, (o.emptied s).1);
    joined_all = o.joined_all;
    fed = o.fed;
    written = o.written;
  })

  joined-IsOrderly :
      (p : Pipeline S) (a b : Bool)
      → all_returned p.workers ≡ a
      → p.results_closed ≡ b
      → Keeps r gc d e w p (joined r gc d p a b)
  unfolding joined
  joined-IsOrderly p true false h k = on_some r gc d e w p _ (λ o. record {
    crewed = o.crewed;
    emptied = o.emptied;
    joined_all = λ _. h;
    fed = elim o.fed [ inl f ↦ inl f | inr (m, (n, c), t) ↦ absurd (cc (c, k)) ];
    written = o.written;
  })
  joined-IsOrderly p true true h k = on_none r gc d e w p
  joined-IsOrderly p false b h k = on_none r gc d e w p

  told_written :
      (p : Pipeline S) (s : Signal)
      → p.writer ≡ run d w p.signals
      → step d p.writer s ≡ run d w (p.signals ++ s ∷ [])
  unfolding run
  told_written p s h = ap (λ u. step d u s) h ∙ sym (run-append d p.signals (s ∷ []) w)

  -- A signal that does not end the loop reaches a writer that has not returned.
  told-IsOrderly :
      (p : Pipeline S) (rs : List Result) (s : Signal)
      → is_stopped p.writer.mode ≡ false
      → IsPlain s
      → IsOrderly d e w p
      → IsOrderly d e w (told r gc d (record p { results = rs }) s)
  unfolding told
  told-IsOrderly p rs s h k o = record {
    crewed = o.crewed;
    emptied = o.emptied;
    joined_all = o.joined_all;
    fed = elim o.fed [
      | inl (f, g) ↦
          inl (step-IsOpen d e p.writer s k f, All-append IsPlain p.signals (s ∷ []) g (k, tt))
      | inr (m, _, t) ↦ absurd (cc (ap is_stopped m, h))
    ];
    written = told_written p s o.written;
  }

  delivered-IsOrderly :
      (p : Pipeline S) (b : Bool) (rs : List Result)
      → is_stopped p.writer.mode ≡ b
      → Keeps r gc d e w p (delivered r gc d p b rs)
  unfolding delivered
  delivered-IsOrderly p true rs h = on_none r gc d e w p
  delivered-IsOrderly p false [] h = on_none r gc d e w p
  delivered-IsOrderly p false (x ∷ rs) h =
      on_some r gc d e w p _ (told-IsOrderly p rs (received x) h tt)

  ended-IsOrderly :
      (p : Pipeline S) (b : Bool) (rs : List Result) (c : Bool)
      → is_stopped p.writer.mode ≡ b
      → p.results ≡ rs
      → p.results_closed ≡ c
      → Keeps r gc d e w p (ended r gc d p b rs c)
  unfolding ended told
  ended-IsOrderly p false [] true h n c = on_some r gc d e w p _ (λ o. record {
    crewed = o.crewed;
    emptied = o.emptied;
    joined_all = o.joined_all;
    fed = elim o.fed [
      | inl (f, g) ↦ inr (
          (
            ap (λ (u : Writer). u.mode) (told_written p closed o.written)
                ∙ (run_closed_stops d p.signals w),
            (n, c),
            (p.signals, (refl, g)),
          ))
      | inr (m, _, t) ↦ absurd (cc (ap is_stopped m, h))
    ];
    written = told_written p closed o.written;
  })
  ended-IsOrderly p false [] false h n c = on_none r gc d e w p
  ended-IsOrderly p false (x ∷ rs) b h n c = on_none r gc d e w p
  ended-IsOrderly p true rs b h n c = on_none r gc d e w p

  notified-IsOrderly :
      (p : Pipeline S) (b : Bool) (s : Signal) (c : Bool)
      → is_stopped p.writer.mode ≡ b
      → IsPlain s
      → Keeps r gc d e w p (notified r gc d p b s c)
  unfolding notified
  notified-IsOrderly p false s true h k = on_some r gc d e w p _ (told-IsOrderly p p.results s h k)
  notified-IsOrderly p false s false h k = on_none r gc d e w p
  notified-IsOrderly p true s c h k = on_none r gc d e w p

  pub move-IsOrderly :
      (p : Pipeline S) (m : Move) (q : Pipeline S)
      → IsGentle m
      → move r gc d p m ≡ some q
      → IsOrderly d e w p
      → IsOrderly d e w q
  unfolding move
  move-IsOrderly p (offer v) q g = offered-IsOrderly p v p.events_closed refl q
  move-IsOrderly p (publish snap) q g = on_some r gc d e w p _ (unchanged p) q
    where
      unchanged :
          (p : Pipeline S) → IsOrderly d e w p → IsOrderly d e w (record p { snapshot = some snap })
      unchanged p o = record {
        crewed = o.crewed;
        emptied = o.emptied;
        joined_all = o.joined_all;
        fed = o.fed;
        written = o.written;
      }
  move-IsOrderly p (evict now) q g = on_some r gc d e w p _ (unchanged p) q
    where
      unchanged :
          (p : Pipeline S)
          → IsOrderly d e w p
          → IsOrderly d e w (record p { state = gc now p.state })
      unchanged p o = record {
        crewed = o.crewed;
        emptied = o.emptied;
        joined_all = o.joined_all;
        fed = o.fed;
        written = o.written;
      }
  move-IsOrderly p close_events q g = closing-IsOrderly p p.events_closed q
  move-IsOrderly p (take_event i) q g =
      taken-IsOrderly r gc d e w p i (get_or p.workers i returned) p.waiting refl refl q
  move-IsOrderly p (leave i) q g =
      left-IsOrderly r gc d e w p i (get_or p.workers i returned) p.waiting p.events_closed refl
        refl refl q
  move-IsOrderly p (evaluate i) q g =
      processed-IsOrderly r gc d e w p i (get_or p.workers i returned) refl q
  move-IsOrderly p (send_result i) q g =
      sent-IsOrderly r gc d e w p i (get_or p.workers i returned) refl q
  move-IsOrderly p close_results q g =
      joined-IsOrderly p (all_returned p.workers) p.results_closed refl refl q
  move-IsOrderly p deliver q g = delivered-IsOrderly p (is_stopped p.writer.mode) p.results refl q
  move-IsOrderly p deliver_closed q g =
      ended-IsOrderly p (is_stopped p.writer.mode) p.results p.results_closed refl refl refl q
  move-IsOrderly p (notify s) q g =
      notified-IsOrderly p (is_stopped p.writer.mode) s (is_own s) refl g q
