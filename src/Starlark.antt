-- ===== src/Starlark.antt =====
-- The Starlark values that the Go code tells apart by type switches (go.starlark.net). What it only
-- passes on, such as a callable, is `other` with the name of its type.
use fruitfly.Base.{if◌then◌else◌, Str, str_eq, ℤ, ℕ, Bool, Option, none, some}

mutual
  pub data Value : Type 0 where
    none_value : Value
    bool : Bool → Value
    int : ℤ → Value
    float : ℕ → Value
    string : Str → Value
    list : Values → Value
    dict : Entries → Value
    struct : Attrs → Value
    other : Str → Value

  pub data Values : Type 0 where
    no_values : Values
    elem : Value → Values → Values

  pub data Entries : Type 0 where
    no_entries : Entries
    entry : Value → Value → Entries → Entries

  pub data Attrs : Type 0 where
    no_attrs : Attrs
    attr : Str → Value → Attrs → Attrs

-- s.Attr(name)
unfoldable pub attr_of : Attrs → Str → Option Value
attr_of no_attrs k = none
attr_of (attr j v m) k = if str_eq j k then some v else attr_of m k
