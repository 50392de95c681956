-- ===== src/Tests/Viewing.antt =====
-- Runs of executor/event.go and rules/udfs.go.
use fruitfly.Base.{Str, str, str_eq, pos, ◌≡◌, refl, ◌⊎◌, false, none, some, List, [], ◌∷◌, ◌++◌}
use mathlib.Core.List.{Permᴰ}
use fruitfly.Types.{approve, number, text, object, Fields, end, field, Event, get}
use fruitfly.Starlark.{Value}
use fruitfly.Rules.Match.{resolve_path, descend}
use fruitfly.Executor.Verdict.{interpret_verdict, ok, valid_verdict}
use fruitfly.Rules.Udfs.{value, error, invalid_verdict, verdict_builtin}
use fruitfly.Rules.Udfs.Laws.{verdict_builtin-interpret_verdict}
use fruitfly.Executor.Event.{keys, event_to_starlark}
use fruitfly.Executor.Event.Sight.{read, read_all, shown_found, read-event_to_starlark}

verdict_builtin-interpret_verdict_example :
    ((v : Value) × (verdict_builtin approve (str "fine") ≡ value v)
      × (interpret_verdict v ≡ ok approve (str "fine")))
    ⊎ ((valid_verdict approve ≡ false)
        × (verdict_builtin approve (str "fine") ≡ error (invalid_verdict approve)))
verdict_builtin-interpret_verdict_example = verdict_builtin-interpret_verdict approve (str "fine")

abbrev two_keys : Fields
two_keys = field (str "a") (number 1) (field (str "b") (number 2) end)

abbrev backwards : List Str → List Str
backwards [] = []
backwards (k ∷ ks) = backwards ks ++ k ∷ []

backwards-perm : Permᴰ (backwards (keys two_keys)) (keys two_keys)
unfolding keys str_eq
backwards-perm = Permᴰ.swap refl refl

abbrev post : Event
post = record {
  event_id = str "e1";
  event_type = str "post";
  entity_id = str "u1";
  timestamp = pos 60;
  payload = field (str "user") (object (field (str "name") (text (str "ann")) end)) end;
  raw_json = [];
}

abbrev user_name : List Str
user_name = str "user" ∷ str "name" ∷ []

read-event_to_starlark_example :
    (shown_found
        (read
          (read_all (event_to_starlark post) ((str "payload" ∷ str "user" ∷ []) ∷ []))
          user_name).1
      ≡ none)
    × (shown_found
          (read
            (read_all (event_to_starlark post) ((str "payload" ∷ str "user" ∷ []) ∷ []))
            (str "payload" ∷ user_name)).1
        ≡ some (text (str "ann")))
unfolding descend resolve_path get str_eq
read-event_to_starlark_example =
    read-event_to_starlark post ((str "payload" ∷ str "user" ∷ []) ∷ []) user_name
