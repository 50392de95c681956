-- ===== src/Output/Writer/Plain.antt =====
-- The loop of Run (output/writer.go) until something ends it.
use fruitfly.Base.{
  ltb, leb, if◌then◌else◌, if_elim, length, All, select, ◌≡◌, refl, ap, ◌∙◌, Bool, true, false,
  ◌&&◌, not, List, [], ◌∷◌, ◌++◌,
}
use fruitfly.Types.{Result}
use fruitfly.Output.Store.{Database}
use fruitfly.Output.Writer.{
  Mode, running, draining, stopped, Writer, Signal, received, closed, flush_tick, cancelled,
  drain_timeout, hook_done, retention_tick, is_skipped, observed, flush_batch, append_result,
  start_webhook, take_running, take_draining, step_running, step_draining, step_in, step,
}
use fruitfly.Output.Writer.Delivery.{is_live, kept_results, NotRetention}

-- What the select received from the channel of results.
abbrev pub received_of : List Signal → List Result
received_of [] = []
received_of (received r ∷ ss) = r ∷ received_of ss
received_of (_ ∷ ss) = received_of ss

-- Neither the end of the results nor that of the time for a drain, nor the daily retention.
abbrev pub IsPlain : Signal → Type 0
IsPlain closed = ⊥
IsPlain drain_timeout = ⊥
IsPlain (retention_tick now) = ⊥
IsPlain _ = Unit {0}

-- The loop has not returned, and the policy is `e`.
abbrev pub IsOpen : Bool → Writer → Type 0
IsOpen e w = (is_live w.mode ≡ true) × (w.emit_interesting ≡ e)

module _ (d : Database) (e : Bool) where
  append_result-IsOpen : (w : Writer) (r : Result) → IsOpen e w → IsOpen e (append_result d w r)
  unfolding append_result flush_batch
  append_result-IsOpen w r o =
      if_elim (IsOpen e) (leb 100 (length (w.batch ++ r ∷ []))) _ _ (λ _. o) (λ _. o)

  start_webhook-IsOpen : (w : Writer) (r : Result) → IsOpen e w → IsOpen e (start_webhook w r)
  unfolding start_webhook
  start_webhook-IsOpen w r o = if_elim (IsOpen e) (ltb w.in_flight 100) _ _ (λ _. o) (λ _. o)

  take-IsOpen :
      (w : Writer) (r : Result) (q : Writer × Bool)
      → IsOpen e q.0
      → IsOpen e (take_running d w r q) × IsOpen e (take_draining d w r q)
  unfolding take_running take_draining
  take-IsOpen w r (q, false) o = (o, o)
  take-IsOpen w r (q, true) o =
      (start_webhook-IsOpen _ r (append_result-IsOpen q r o), append_result-IsOpen q r o)

  observed-IsOpen : (w : Writer) (r : Result) → IsOpen e w → IsOpen e (observed w r).0
  unfolding observed
  observed-IsOpen w r o = o

  step_in-IsOpen :
      (w : Writer) (m : Mode) (s : Signal)
      → w.mode ≡ m
      → IsPlain s
      → IsOpen e w
      → IsOpen e (step_in d w m s)
  unfolding step_in step_running step_draining flush_batch
  step_in-IsOpen w running (received x) h p o =
      (take-IsOpen w x (observed w x) (observed-IsOpen w x o)).0
  step_in-IsOpen w running flush_tick h p o =
      if_elim (IsOpen e) (ltb 0 (length w.batch)) _ _ (λ _. o) (λ _. o)
  step_in-IsOpen w running (retention_tick now) h p o = absurd p
  step_in-IsOpen w running cancelled h p o = (refl, o.1)
  step_in-IsOpen w running hook_done h p o = o
  step_in-IsOpen w running closed h p o = absurd p
  step_in-IsOpen w running drain_timeout h p o = absurd p
  step_in-IsOpen w draining (received x) h p o =
      (take-IsOpen w x (observed w x) (observed-IsOpen w x o)).1
  step_in-IsOpen w draining flush_tick h p o = o
  step_in-IsOpen w draining (retention_tick now) h p o = absurd p
  step_in-IsOpen w draining cancelled h p o = o
  step_in-IsOpen w draining hook_done h p o = o
  step_in-IsOpen w draining closed h p o = absurd p
  step_in-IsOpen w draining drain_timeout h p o = absurd p
  step_in-IsOpen w stopped s h p o = absurd (cc (ap is_live h, o.0))

  pub step-IsOpen : (w : Writer) (s : Signal) → IsPlain s → IsOpen e w → IsOpen e (step d w s)
  unfolding step
  step-IsOpen w s p o = step_in-IsOpen w w.mode s refl p o

  -- What is kept of signals that do not end the loop, and of the end.
  pub kept_results-IsPlain :
      (es : List Signal) (w : Writer)
      → All IsPlain es
      → IsOpen e w
      → kept_results d w (es ++ closed ∷ []) ≡ select (λ r. not (is_skipped e r)) (received_of es)
  unfolding kept_results
  kept_results-IsPlain [] w p o = refl
  kept_results-IsPlain (received x ∷ es) w p o =
      let rest =
        kept_results-IsPlain es (step d w (received x)) p.1 (step-IsOpen w (received x) tt o) in
      let k = kept_results d (step d w (received x)) (es ++ closed ∷ []) in
      ap (λ b. if b && not (is_skipped w.emit_interesting x) then x ∷ k else k) o.0
      ∙ ap (λ v. if not (is_skipped v x) then x ∷ k else k) o.1
      ∙ ap (λ l. if not (is_skipped e x) then x ∷ l else l) rest
  kept_results-IsPlain (flush_tick ∷ es) w p o =
      kept_results-IsPlain es (step d w flush_tick) p.1 (step-IsOpen w flush_tick tt o)
  kept_results-IsPlain (retention_tick now ∷ es) w p o = absurd p.0
  kept_results-IsPlain (cancelled ∷ es) w p o =
      kept_results-IsPlain es (step d w cancelled) p.1 (step-IsOpen w cancelled tt o)
  kept_results-IsPlain (hook_done ∷ es) w p o =
      kept_results-IsPlain es (step d w hook_done) p.1 (step-IsOpen w hook_done tt o)
  kept_results-IsPlain (closed ∷ es) w p o = absurd p.0
  kept_results-IsPlain (drain_timeout ∷ es) w p o = absurd p.0

pub IsPlain-NotRetention : (es : List Signal) → All IsPlain es → All NotRetention es
IsPlain-NotRetention [] p = tt
IsPlain-NotRetention (e ∷ es) p = (one e p.0, IsPlain-NotRetention es p.1)
  where
    one : (e : Signal) → IsPlain e → NotRetention e
    one (retention_tick now) p = p
    one closed p = tt
    one drain_timeout p = tt
    one (received x) p = tt
    one flush_tick p = tt
    one cancelled p = tt
    one hook_done p = tt
