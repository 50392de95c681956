-- ===== src/Tests/Shutdown.antt =====
-- A run of the pipeline to its end.
use fruitfly.Base.{
  length, select, count_if, Str, str, pos, ℕ, ◌+◌, ◌*◌, ◌≤◌, ◌≡◌, refl, ◌⊎◌, true, false, not,
  Option, none, some, List, [], ◌∷◌, ◌++◌,
}
use fruitfly.Types.{end, Event}
use fruitfly.Executor.Pool.{process_event}
use fruitfly.Output.Store.Laws.{AllStored}
use fruitfly.Output.Writer.{stopped, flush_tick, is_skipped, step, observe, new_writer}
use fruitfly.Output.Writer.Plain.{received_of}
use fruitfly.Pipeline.{
  Pipeline, Move, offer, close_events, close_results, deliver, deliver_closed, take_event, evaluate,
  send_result, leave, notify, move, moves, start,
}
use fruitfly.Pipeline.Accounting.{is_event, is_result}
use fruitfly.Pipeline.Drain.{moves_stopped_stores}
use fruitfly.Pipeline.Progress.Unblocked.{CanWork, moves-terminate}
use fruitfly.Tests.Storage.{healthy, no_rows, healthy-IsHealthy}
use fruitfly.Tests.Verdicts.{counting}

abbrev an_event : Event
an_event = record {
  event_id = str "e1";
  event_type = str "post";
  entity_id = str "u1";
  timestamp = pos 60;
  payload = end;
  raw_json = [];
}

abbrev beginning : Pipeline ℕ
beginning = start 2 (new_writer false no_rows) none 0

-- What happens before the shutdown, and the drain.
abbrev opening : List Move
opening = offer an_event ∷ take_event 1 ∷ notify flush_tick ∷ close_events ∷ []

abbrev closing_moves : List Move
closing_moves =
    leave 0 ∷ evaluate 1 ∷ send_result 1 ∷ leave 1 ∷ close_results ∷ deliver ∷ deliver_closed ∷ []

abbrev reached : Option (Pipeline ℕ) → Pipeline ℕ
reached none = beginning
reached (some p) = p

abbrev shut : Pipeline ℕ
shut = reached (moves counting (λ now s. s) healthy beginning opening)

abbrev over : Pipeline ℕ
over = reached (moves counting (λ now s. s) healthy beginning (opening ++ closing_moves))

runs_over : moves counting (λ now s. s) healthy beginning (opening ++ closing_moves) ≡ some over
unfolding moves move process_event step observe
runs_over = refl

is_over : over.writer.mode ≡ stopped
unfolding moves move process_event step observe
is_over = refl

moves_stopped_stores_example :
    ((k : Str)
      → count_if (is_event k) over.accepted ≡ count_if (is_result k) (received_of over.signals))
    × AllStored
        (select (λ x. not (is_skipped false x)) (received_of over.signals))
        over.writer.db.table
moves_stopped_stores_example =
    moves_stopped_stores counting (λ now s. s) healthy false no_rows 1 none 0
      (opening ++ closing_moves) over healthy-IsHealthy
      (tt, (tt, (tt, (tt, (tt, (tt, (tt, (tt, (tt, (tt, (tt, tt))))))))))) runs_over is_over

is_shut : shut.events_closed ≡ true
unfolding moves move process_event step observe
is_shut = refl

shuts_down : moves counting (λ now s. s) healthy shut closing_moves ≡ some over
unfolding moves move process_event step observe
shuts_down = refl

moves-terminate_example :
    (length closing_moves
      ≤ 4 * length shut.waiting + 4 * length shut.workers + length shut.results + 2)
    × ((over.writer.mode ≡ stopped) ⊎ CanWork counting (λ now s. s) healthy over)
moves-terminate_example =
    moves-terminate counting (λ now s. s) healthy shut closing_moves over is_shut
      (tt, (tt, (tt, (tt, (tt, (tt, (tt, tt))))))) shuts_down
