-- ===== src/Pipeline/Drain.antt =====
-- The shutdown of the pipeline (main.go): what is stored when it has ended, and that it ends.
use fruitfly.Base.{
  some_injective, length, replicate, All, select, count_if, Str, ℕ, zero, suc, ◌≡◌, refl, sym, ap,
  ◌∙◌, subst, inl, inr, Bool, true, false, not, Option, none, some, List, [], ◌∷◌, ◌++◌, arith,
}
use mathlib.Core.List.{append-nil}
use fruitfly.Rules.Snapshot.{Snapshot}
use fruitfly.Executor.Pool.{Runtime}
use fruitfly.Output.Store.{Database, Db}
use fruitfly.Output.Store.Laws.{AllStored, IsHealthy}
use fruitfly.Output.Writer.{stopped, Writer, Signal, closed, is_skipped, run, new_writer}
use fruitfly.Output.Writer.Delivery.{run_closed_stores, is_live}
use fruitfly.Output.Writer.Plain.{received_of, IsPlain, kept_results-IsPlain, IsPlain-NotRetention}
use fruitfly.Pipeline.{
  Stage, idle, returned, evaluating, sending, Pipeline, Move, all_returned, move, moves, start,
}
use fruitfly.Pipeline.Accounting.{
  received_of-append, total, is_event, is_result, held, IsCounted, start-IsCounted,
}
use fruitfly.Pipeline.Accounting.Moves.{move-IsCounted}
use fruitfly.Pipeline.Order.{some_returned, IsGentle, IsOrderly, all_returned-some}
use fruitfly.Pipeline.Order.Moves.{move-IsOrderly}

held_returned : (k : Str) (ws : List Stage) → all_returned ws ≡ true → total (held k) ws ≡ 0
held_returned k [] h = refl
held_returned k (returned ∷ ws) h = omega (arith, held_returned k ws h)
held_returned k (idle ∷ ws) h = cc
held_returned k (evaluating e ∷ ws) h = cc
held_returned k (sending x ∷ ws) h = cc

length-replicate : (n : ℕ) → length (replicate n idle) ≡ n
length-replicate zero = refl
length-replicate (suc n) = ap suc (length-replicate n)

some_replicate : (n : ℕ) → some_returned (replicate n idle) ≡ false
some_replicate zero = refl
some_replicate (suc n) = some_replicate n

all_replicate : (n : ℕ) → all_returned (replicate (suc n) idle) ≡ false
all_replicate n = refl

received_of-closed : (es : List Signal) → received_of (es ++ closed ∷ []) ≡ received_of es
received_of-closed es = received_of-append es (closed ∷ []) ∙ append-nil (received_of es)

module _ {S : Type 0} (r : Runtime S) (gc : ℕ → S → S) (d : Database) where
  moves_keep :
      (P : Pipeline S → Type 0) (Q : Move → Type 0)
      → ((p : Pipeline S) (m : Move) (q : Pipeline S) → Q m → move r gc d p m ≡ some q → P p → P q)
      → (p : Pipeline S) (ms : List Move) (q : Pipeline S) → All Q ms
      → moves r gc d p ms ≡ some q
      → P p
      → P q
  unfolding moves
  moves_keep P Q f p [] q g h i = subst P (some_injective h) i
  moves_keep P Q f p (m ∷ ms) q g h i =
      onward (move r gc d p m) refl h (λ u k j. moves_keep P Q f u ms q g.1 k j)
    where
      onward :
          (o : Option (Pipeline S))
          → move r gc d p m ≡ o
          → (elim o [ none ↦ none | some u ↦ moves r gc d u ms ]) ≡ some q
          → ((u : Pipeline S) → moves r gc d u ms ≡ some q → P u → P q)
          → P q
      onward none e k rest = cc
      onward (some u) e k rest = rest u k (f p m u g.0 e i)

  module _ (emit : Bool) (db : Db) where
    start-IsOrderly :
        (n : ℕ) (snap : Option Snapshot) (s : S)
        → IsOrderly d emit (new_writer emit db) (start (suc n) (new_writer emit db) snap s)
    start-IsOrderly n snap s = record {
      crewed = omega (arith, length-replicate n);
      emptied = λ h. absurd (cc (h, some_replicate n));
      joined_all = λ h. absurd (cc h);
      fed = inl ((refl, refl), tt);
      written = unfold run in refl;
    }

    -- No event is lost: with at least one worker and a database that does not fail, in any order of the
    -- goroutines' moves, once the writer has returned because its channel ended, the writer has received
    -- exactly one result for each event that the server accepted, with its identifier, and every one
    -- that the policy keeps has a row in the table. Left out are the end of the time for a drain after a
    -- cancellation, and the daily retention.
    pub moves_stopped_stores :
        (n : ℕ) (snap : Option Snapshot) (s : S) (ms : List Move) (p : Pipeline S)
        → IsHealthy d
        → All IsGentle ms
        → moves r gc d (start (suc n) (new_writer emit db) snap s) ms ≡ some p
        → p.writer.mode ≡ stopped
        → ((k : Str)
            → count_if (is_event k) p.accepted ≡ count_if (is_result k) (received_of p.signals))
          × AllStored
              (select (λ x. not (is_skipped emit x)) (received_of p.signals))
              p.writer.db.table
    moves_stopped_stores n snap s ms p healthy gentle h m = elim orderly.fed [
      | inl (f, g) ↦ absurd (cc (f.0, ap is_live m))
      | inr (_, (none_left, finished), (es, (e, plain))) ↦ (
        λ k.
            let gone = orderly.joined_all finished in
            let c =
              ap (count_if (is_event k))
                (orderly.emptied (all_returned-some p.workers orderly.crewed gone)).1 in
            let x = ap (count_if (is_result k)) none_left in
            let t = held_returned k p.workers gone in omega (arith, counted k, c, x, t),
        stored es e plain,
      )
    ]
      where
        orderly : IsOrderly d emit (new_writer emit db) p
        orderly =
            moves_keep (λ u. IsOrderly d emit (new_writer emit db) u) IsGentle
              (λ u m v g e i. move-IsOrderly r gc d emit (new_writer emit db) u m v g e i)
              (start (suc n) (new_writer emit db) snap s) ms p gentle h (start-IsOrderly n snap s)

        counted : IsCounted p
        counted =
            moves_keep IsCounted IsGentle (λ u m v g e i. move-IsCounted r gc d u m v e i)
              (start (suc n) (new_writer emit db) snap s) ms p gentle h
              (start-IsCounted (suc n) (new_writer emit db) snap s)

        stored :
            (es : List Signal)
            → p.signals ≡ es ++ closed ∷ []
            → All IsPlain es
            → AllStored
                (select (λ x. not (is_skipped emit x)) (received_of p.signals))
                p.writer.db.table
        stored es e plain =
            let w = new_writer emit db in
            let all = (run_closed_stores d emit db es healthy (IsPlain-NotRetention es plain)).1 in
            let kept = kept_results-IsPlain d emit es w plain (refl, refl) in
            let table = ap (λ (u : Writer). u.db.table) (orderly.written ∙ ap (run d w) e) in
            let got : received_of p.signals ≡ received_of es =
              ap received_of e ∙ received_of-closed es in
            subst (λ t. AllStored (select (λ x. not (is_skipped emit x)) (received_of p.signals)) t)
              (sym table)
              (subst
                (λ l.
                  AllStored (select (λ x. not (is_skipped emit x)) l)
                    (run d w (es ++ closed ∷ [])).db.table)
                (sym got)
                (subst (λ l. AllStored l (run d w (es ++ closed ∷ [])).db.table) kept all))
