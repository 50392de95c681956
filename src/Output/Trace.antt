-- ===== src/Output/Trace.antt =====
-- output/trace.go: the recorder of traces. The file is its lines; json.Encoder is the parameter
-- `encode`, none where it fails, which the recorder ignores.
use fruitfly.Base.{
  if◌then◌else◌, Str, ℤ, Bool, true, false, Option, none, some, List, [], ◌∷◌, ◌++◌,
}
use fruitfly.Types.{Event, Result}

pub record TraceEntry : Type 0 where
  pub event : Event
  pub result : Result
  pub snapshot_id : Str
  pub timestamp : ℤ

pub record TraceRecorder : Type 0 where
  pub enabled : Bool
  pub lines : List Str

-- NewTraceRecorder; `opened` is what os.OpenFile finds in the file, none where it fails.
unfoldable pub new_trace_recorder : Bool → Option (List Str) → Option TraceRecorder
new_trace_recorder false opened = some (record { enabled = false; lines = [] })
new_trace_recorder true none = none
new_trace_recorder true (some lines) = some (record { enabled = true; lines = lines })

written : TraceRecorder → Option Str → TraceRecorder
written tr none = tr
written tr (some line) = record tr { lines = tr.lines ++ line ∷ [] }

-- Record, at the time `now`.
unfoldable pub record_entry :
    (TraceEntry → Option Str) → TraceRecorder → Event → Result → Str → ℤ → TraceRecorder
unfolding written
record_entry encode tr event result snapshot_id now =
    if tr.enabled
    then written tr (
        encode
          (record { event = event; result = result; snapshot_id = snapshot_id; timestamp = now }))
    else tr
