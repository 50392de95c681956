-- ===== src/Types.antt =====
-- types/types.go: the event, the verdicts and the results that the stages of the pipeline pass on.
-- A Go string is its bytes; a time is unix seconds; `any` is `Json`, the values that encoding/json
-- decodes into, and the int64 of an event's view. A float64 is its IEEE 754 bit pattern.
use fruitfly.Base.{if◌then◌else◌, Str, str, str_eq, ℤ, ℕ, Bool, Option, none, some, List}

mutual
  pub data Json : Type 0 where
    null : Json
    boolean : Bool → Json
    number : ℕ → Json
    int64 : ℤ → Json
    text : Str → Json
    array : Items → Json
    object : Fields → Json

  pub data Items : Type 0 where
    nil : Items
    cons : Json → Items → Items

  -- A decoded object: its keys in some order, the first entry for a key being the map's.
  pub data Fields : Type 0 where
    end : Fields
    field : Str → Json → Fields → Fields

-- v, ok := m[k]
unfoldable pub get : Fields → Str → Option Json
get end k = none
get (field j v m) k = if str_eq j k then some v else get m k

pub record Event : Type 0 where
  pub event_id : Str
  pub event_type : Str
  pub entity_id : Str
  pub timestamp : ℤ
  pub payload : Fields
  pub raw_json : Str

abbrev pub Verdict : Type 0
Verdict = Str

abbrev pub approve : Verdict
approve = str "approve"

abbrev pub block : Verdict
block = str "block"

abbrev pub review : Verdict
review = str "review"

unfoldable pub verdict_weight : Verdict → ℕ
verdict_weight v =
    if str_eq v block then 3 else if str_eq v review then 2 else if str_eq v approve then 1 else 0

-- `err` stands for both `Err` and the message `ErrMsg` made from it. `Elapsed` is left out: it only
-- feeds the statistics of the rule.
pub record RuleResult : Type 0 where
  pub rule_id : Str
  pub priority : ℤ
  pub verdict : Verdict
  pub reason : Str
  pub err : Option Str

-- `RawPayload`, like `Err`, is tagged json:"-": a result that was encoded is decoded without it.
pub record Result : Type 0 where
  pub event_id : Str
  pub event_type : Str
  pub final_verdict : Verdict
  pub triggered_rules : List RuleResult
  pub failed_rules : List RuleResult
  pub payload : Fields
  pub raw_payload : Str
  pub latency_us : ℕ
  -- Unix seconds, 0 for the zero time.
  pub processed_at : ℕ
