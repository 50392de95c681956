-- ===== src/Output/Writer/Delivery.antt =====
-- No result that the policy keeps is lost on its way to the table (Writer.Run of output/writer.go).
use fruitfly.Base.{
  ltb, leb, if◌then◌else◌, if_elim, length, All, In, All-append, In-append_left, In-append_right,
  suc, ◌≡◌, refl, ap, ◌∙◌, subst, ◌≢◌, ◌⊎◌, inl, inr, Bool, true, false, ◌&&◌, not, List, [], ◌∷◌,
  ◌++◌, arith,
}
use fruitfly.Types.{Result}
use fruitfly.Output.Store.{Database, Row, Db, has_id, flush}
use fruitfly.Output.Store.Laws.{AllStored, IsAtomic, flush-IsAtomic, IsHealthy, flush_healthy}
use fruitfly.Output.Writer.{
  Mode, running, draining, stopped, Writer, Signal, received, closed, flush_tick, cancelled,
  drain_timeout, retention_tick, is_skipped, observe, observed, flush_batch, finish, append_result,
  start_webhook, take_running, take_draining, step_running, step_draining, step_in, step, run,
  new_writer,
}

-- The result has a row, or waits in the batch, or stood in a batch that was dropped.
abbrev pub Held : Writer → Result → Type 0
Held w r = (has_id r.event_id w.db.table ≡ true) ⊎ (In r w.batch ⊎ In r w.dropped)

-- What is held before is held after.
abbrev KeepsHeld : Writer → Writer → Type 0
KeepsHeld w u = (r : Result) → Held w r → Held u r

AllStored-In :
    (rs : List Result) (t : List Row) (r : Result)
    → AllStored rs t
    → In r rs
    → has_id r.event_id t ≡ true
AllStored-In [] t r a i = absurd i
AllStored-In (x ∷ rs) t r a (inl e) = rw e a.0
AllStored-In (x ∷ rs) t r a (inr i) = AllStored-In rs t r a.1 i

-- The writer that flush_batch makes of the outcome of its flush.
abbrev flushed : Writer → Db × Bool → Writer
flushed w q = record w {
  db = q.0;
  batch = [];
  dropped = if q.1 then w.dropped else w.dropped ++ w.batch;
}

flushed-Held : (w : Writer) (q : Db × Bool) → IsAtomic w.db w.batch q → KeepsHeld w (flushed w q)
flushed-Held w q (inl (e, x, y)) r (inl h) = inl (x.ids r.event_id h)
flushed-Held w q (inl (e, x, y)) r (inr (inl i)) = inl (AllStored-In w.batch _ r y i)
flushed-Held w q (inl (e, x, y)) r (inr (inr i)) = inr (
    inr (
      if_elim (In r) q.1 w.dropped (w.dropped ++ w.batch) (λ _. i)
        (λ _. In-append_left r w.dropped w.batch i)))
flushed-Held w q (inr (e, same)) r (inl h) = inl (rw same h)
flushed-Held w q (inr (e, same)) r (inr (inl i)) = inr (
    inr (
      if_elim (In r) q.1 w.dropped (w.dropped ++ w.batch) (λ t. absurd (ground (arith, t, e)))
        (λ _. In-append_right r w.dropped w.batch i)))
flushed-Held w q (inr (e, same)) r (inr (inr i)) = inr (
    inr (
      if_elim (In r) q.1 w.dropped (w.dropped ++ w.batch) (λ _. i)
        (λ _. In-append_left r w.dropped w.batch i)))

flush_batch-Held : (d : Database) (w : Writer) → KeepsHeld w (flush_batch d w)
unfolding flush_batch
flush_batch-Held d w = flushed-Held w (flush d w.db w.batch) (flush-IsAtomic d w.db w.batch)

longer-Held : (w : Writer) (x : Result) → KeepsHeld w (record w { batch = w.batch ++ x ∷ [] })
longer-Held w x r (inl h) = inl h
longer-Held w x r (inr (inl i)) = inr (inl (In-append_left r w.batch (x ∷ []) i))
longer-Held w x r (inr (inr i)) = inr (inr i)

append_result-Held :
    (d : Database) (w : Writer) (x : Result)
    → KeepsHeld w (append_result d w x) × Held (append_result d w x) x
unfolding append_result
append_result-Held d w x = (
  λ r h. grown r (longer-Held w x r h),
  grown x (inr (inl (In-append_right x w.batch (x ∷ []) (inl refl)))),
)
  where
    longer : Writer
    longer = record w { batch = w.batch ++ x ∷ [] }

    grown :
        (r : Result)
        → Held longer r
        → Held (if leb 100 (length longer.batch) then flush_batch d longer else longer) r
    grown r h =
        if_elim (λ u. Held u r) (leb 100 (length longer.batch)) (flush_batch d longer) longer
          (λ _. flush_batch-Held d longer r h) (λ _. h)

start_webhook-Held : (w : Writer) (x : Result) → KeepsHeld w (start_webhook w x)
unfolding start_webhook
start_webhook-Held w x r h =
    if_elim (λ u. Held u r) (ltb w.in_flight 100)
      (record w { hooks = w.hooks ++ x ∷ []; in_flight = suc w.in_flight }) w (λ _. h) (λ _. h)

observed-Held : (w : Writer) (x : Result) → KeepsHeld w (observed w x).0
unfolding observed
observed-Held w x r h = h

take_running-Held :
    (d : Database) (w : Writer) (x : Result) (q : Writer × Bool)
    → KeepsHeld q.0 (take_running d w x q) × (q.1 ≡ true → Held (take_running d w x q) x)
unfolding take_running
take_running-Held d w x (q, false) = (λ r h. h, λ e. cc)
take_running-Held d w x (q, true) = (
  λ r h. start_webhook-Held _ x r ((append_result-Held d q x).0 r h),
  λ e. start_webhook-Held _ x x (append_result-Held d q x).1,
)

take_draining-Held :
    (d : Database) (w : Writer) (x : Result) (q : Writer × Bool)
    → KeepsHeld q.0 (take_draining d w x q) × (q.1 ≡ true → Held (take_draining d w x q) x)
unfolding take_draining
take_draining-Held d w x (q, false) = (λ r h. h, λ e. cc)
take_draining-Held d w x (q, true) =
    ((append_result-Held d q x).0, λ e. (append_result-Held d q x).1)

finish-Held : (d : Database) (w : Writer) → KeepsHeld w (finish d w)
unfolding finish
finish-Held d w r h = flush_batch-Held d w r h

-- The retention does not delete while the signals are looked at.
abbrev pub NotRetention : Signal → Type 0
NotRetention (retention_tick now) = ⊥
NotRetention _ = Unit {0}

step_in-Held :
    (d : Database) (w : Writer) (m : Mode) (e : Signal)
    → NotRetention e
    → KeepsHeld w (step_in d w m e)
unfolding step_in step_running step_draining
step_in-Held d w running (received x) n =
    λ r h. (take_running-Held d w x _).0 r (observed-Held w x r h)
step_in-Held d w running closed n = finish-Held d w
step_in-Held d w running flush_tick n = λ r h.
    if_elim (λ u. Held u r) (ltb 0 (length w.batch)) (flush_batch d w) w
      (λ _. flush_batch-Held d w r h) (λ _. h)
step_in-Held d w running (retention_tick now) n = absurd n
step_in-Held d w running _ n = λ r h. h
step_in-Held d w draining (received x) n =
    λ r h. (take_draining-Held d w x _).0 r (observed-Held w x r h)
step_in-Held d w draining closed n = finish-Held d w
step_in-Held d w draining drain_timeout n = finish-Held d w
step_in-Held d w draining _ n = λ r h. h
step_in-Held d w stopped (received x) n = λ r h. h
step_in-Held d w stopped _ n = λ r h. h

abbrev pub is_live : Mode → Bool
is_live running = true
is_live draining = true
is_live stopped = false

observed-kept :
    (w : Writer) (x : Result) → is_skipped w.emit_interesting x ≡ false → (observed w x).1 ≡ true
unfolding observed observe
observed-kept w x h = rw h

received-Held :
    (d : Database) (w : Writer) (m : Mode) (x : Result)
    → is_live m ≡ true
    → is_skipped w.emit_interesting x ≡ false
    → Held (step_in d w m (received x)) x
unfolding step_in step_running step_draining
received-Held d w running x l k = (take_running-Held d w x _).1 (observed-kept w x k)
received-Held d w draining x l k = (take_draining-Held d w x _).1 (observed-kept w x k)
received-Held d w stopped x l k = cc

-- The results that arrive before the loop returns and that the policy keeps.
unfoldable pub kept_results : Database → Writer → List Signal → List Result
kept_results d w [] = []
kept_results d w (received r ∷ es) =
    let rest = kept_results d (step d w (received r)) es in
    if is_live w.mode && not (is_skipped w.emit_interesting r) then r ∷ rest else rest
kept_results d w (e ∷ es) = kept_results d (step d w e) es

run-Held :
    (d : Database) (es : List Signal) (w : Writer) → All NotRetention es → KeepsHeld w (run d w es)
unfolding run step
run-Held d [] w n = λ r h. h
run-Held d (e ∷ es) w n =
    λ r h. run-Held d es (step d w e) n.1 r (step_in-Held d w w.mode e n.0 r h)

-- Nothing is lost: whatever arrives but the daily retention, each result that arrives before the loop
-- returns and that the policy keeps has a row in the table, or still waits in the batch, or stood in
-- a batch that was reported as dropped.
pub kept_results-Held :
    (d : Database) (es : List Signal) (w : Writer)
    → All NotRetention es
    → All (Held (run d w es)) (kept_results d w es)
unfolding kept_results run
kept_results-Held d [] w n = tt
kept_results-Held d (received r ∷ es) w n =
    let rest = kept_results-Held d es (step d w (received r)) n.1 in
    if_elim (All (Held (run d w (received r ∷ es))))
      (is_live w.mode && not (is_skipped w.emit_interesting r)) _ _
      (λ t. (
        run-Held d es (step d w (received r)) n.1 r
            (unfold step in received-Held d w w.mode r (ground (arith, t)) (ground (arith, t))),
        rest,
      ))
      (λ _. rest)
kept_results-Held d (e ∷ es) w n = kept_results-Held d es (step d w e) n.1

-- Nothing was dropped, and nothing waits once the loop has returned.
pub record IsSound (w : Writer) : Type 0 where
  pub none_dropped : w.dropped ≡ []
  pub none_waits : w.mode ≡ stopped → w.batch ≡ []

module _ (d : Database) (healthy : IsHealthy d) where
  dropped-flush_batch : (w : Writer) → (flush_batch d w).dropped ≡ w.dropped
  unfolding flush_batch
  dropped-flush_batch w = rw (flush_healthy d w.db w.batch healthy)

  mode-flush_batch : (w : Writer) → (flush_batch d w).mode ≡ w.mode
  unfolding flush_batch
  mode-flush_batch w = refl

  -- A writer that has not returned, with nothing dropped.
  abbrev IsOpen : Writer → Type 0
  IsOpen w = (w.mode ≢ stopped) × (w.dropped ≡ [])

  append_result-IsOpen : (w : Writer) (r : Result) → IsOpen w → IsOpen (append_result d w r)
  unfolding append_result
  append_result-IsOpen w r o =
      if_elim IsOpen (leb 100 (length (w.batch ++ r ∷ []))) _ _
        (λ _. (
          rw (mode-flush_batch (record w { batch = w.batch ++ r ∷ [] })) o.0,
          dropped-flush_batch (record w { batch = w.batch ++ r ∷ [] }) ∙ o.1,
        ))
        (λ _. o)

  start_webhook-IsOpen : (w : Writer) (r : Result) → IsOpen w → IsOpen (start_webhook w r)
  unfolding start_webhook
  start_webhook-IsOpen w r o = if_elim IsOpen (ltb w.in_flight 100) _ _ (λ _. o) (λ _. o)

  observed-IsOpen : (w : Writer) (r : Result) → IsOpen w → IsOpen (observed w r).0
  unfolding observed
  observed-IsOpen w r o = o

  take-IsOpen :
      (w : Writer) (r : Result) (q : Writer × Bool)
      → IsOpen q.0
      → IsOpen (take_running d w r q) × IsOpen (take_draining d w r q)
  unfolding take_running take_draining
  take-IsOpen w r (q, false) o = (o, o)
  take-IsOpen w r (q, true) o =
      (start_webhook-IsOpen _ r (append_result-IsOpen q r o), append_result-IsOpen q r o)

  finish-IsSound : (w : Writer) → w.dropped ≡ [] → IsSound (finish d w)
  unfolding finish
  finish-IsSound w o = record {
    none_dropped = dropped-flush_batch w ∙ o;
    none_waits = λ _. unfold flush_batch in refl;
  }

  open-IsSound : (w : Writer) → IsOpen w → IsSound w
  open-IsSound w o = record { none_dropped = o.1; none_waits = λ e. absurd (o.0 e) }

  step_in-IsSound :
      (w : Writer) (m : Mode) (e : Signal) → w.mode ≡ m → IsSound w → IsSound (step_in d w m e)
  unfolding step_in step_running step_draining
  step_in-IsSound w running (received x) h v =
      open-IsSound _
        (take-IsOpen w x (observed w x) (observed-IsOpen w x (λ e. cc (h, e), v.none_dropped))).0
  step_in-IsSound w running closed h v = finish-IsSound w v.none_dropped
  step_in-IsSound w running flush_tick h v =
      if_elim IsSound (ltb 0 (length w.batch)) _ _
        (λ _.
          open-IsSound _
            (λ e. cc (h, e, mode-flush_batch w), dropped-flush_batch w ∙ v.none_dropped))
        (λ _. v)
  step_in-IsSound w running cancelled h v = open-IsSound _ (λ e. cc e, v.none_dropped)
  step_in-IsSound w running _ h v = open-IsSound _ (λ e. cc (h, e), v.none_dropped)
  step_in-IsSound w draining (received x) h v =
      open-IsSound _
        (take-IsOpen w x (observed w x) (observed-IsOpen w x (λ e. cc (h, e), v.none_dropped))).1
  step_in-IsSound w draining closed h v = finish-IsSound w v.none_dropped
  step_in-IsSound w draining drain_timeout h v = finish-IsSound w v.none_dropped
  step_in-IsSound w draining _ h v = open-IsSound _ (λ e. cc (h, e), v.none_dropped)
  step_in-IsSound w stopped (received x) h v = v
  step_in-IsSound w stopped _ h v = v

  run-IsSound : (es : List Signal) (w : Writer) → IsSound w → IsSound (run d w es)
  unfolding run step
  run-IsSound [] w v = v
  run-IsSound (e ∷ es) w v = run-IsSound es (step d w e) (step_in-IsSound w w.mode e refl v)

closed_stops :
    (d : Database) (w : Writer) (m : Mode) → w.mode ≡ m → (step_in d w m closed).mode ≡ stopped
unfolding step_in step_running step_draining finish
closed_stops d w running h = refl
closed_stops d w draining h = refl
closed_stops d w stopped h = h

pub run-append :
    (d : Database) (xs ys : List Signal) (w : Writer) → run d w (xs ++ ys) ≡ run d (run d w xs) ys
unfolding run
run-append d [] ys w = refl
run-append d (x ∷ xs) ys w = run-append d xs ys (step d w x)

pub run_closed_stops :
    (d : Database) (es : List Signal) (w : Writer) → (run d w (es ++ closed ∷ [])).mode ≡ stopped
run_closed_stops d es w =
    ap (λ (u : Writer). u.mode) (run-append d es (closed ∷ []) w)
    ∙ unfold run step in closed_stops d (run d w es) (run d w es).mode refl

Held-stored :
    (w : Writer) (rs : List Result)
    → IsSound w
    → w.mode ≡ stopped
    → All (Held w) rs
    → AllStored rs w.db.table
Held-stored w [] v m h = tt
Held-stored w (r ∷ rs) v m h = (one h.0, Held-stored w rs v m h.1)
  where
    one : Held w r → has_id r.event_id w.db.table ≡ true
    one (inl i) = i
    one (inr (inl i)) = absurd (subst (In r) (v.none_waits m) i)
    one (inr (inr i)) = absurd (subst (In r) v.none_dropped i)

-- Once the channel of results is closed the loop has returned, and with a database that does not fail
-- and no retention meanwhile every result that the policy keeps has a row with its event ID,
-- cancelled or not, whatever the ticks.
pub run_closed_stores :
    (d : Database) (emit_interesting : Bool) (db : Db) (es : List Signal)
    → IsHealthy d
    → All NotRetention es
    → ((run d (new_writer emit_interesting db) (es ++ closed ∷ [])).mode ≡ stopped)
      × AllStored
          (kept_results d (new_writer emit_interesting db) (es ++ closed ∷ []))
          (run d (new_writer emit_interesting db) (es ++ closed ∷ [])).db.table
run_closed_stores d emit db es h n =
    let w = new_writer emit db in
    let all : All NotRetention (es ++ closed ∷ []) =
      All-append NotRetention es (closed ∷ []) n (tt, tt) in
    let sound =
      run-IsSound d h (es ++ closed ∷ []) w
        (record { none_dropped = refl; none_waits = λ _. refl }) in
    let stops = run_closed_stops d es w in
    (stops, Held-stored _ _ sound stops (kept_results-Held d (es ++ closed ∷ []) w all))
