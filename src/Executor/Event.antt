-- ===== src/Executor/Event.antt =====
-- executor/event.go: the view of an event that rules see. A lazyDict is its Go map with the cache of
-- the values converted so far; a nested view is held in its parent's cache, which is where the code's
-- pointer to it leads. Go visits a map in any order, so the keys come through a parameter `visit`.
use fruitfly.Base.{
  ltb, leb, ◌==◌, if◌then◌else◌, leb→le, le→leb, ltb→lt, ==_iff, &&-true, Bool-cases, Option-cases,
  if_elim, is_some, length, get_or, set, replicate, take, drop, All, In, select, count_if,
  length-append, length-set, All-append, All-In, In-append_left, In-append_right, In-append,
  select-true, select-false, select-append, length-select-le, Str, str, str_eq, str_eq→eq,
  str_eq_refl, str_eq_iff, has_prefix, ℤ, pos, negsuc, pos_part, neg_part, ◌≤ℤ◌, ◌<ℤ◌, ltb_ℤ, leb_ℤ,
  eq_ℤ, eq_ℤ→eq, ≤ℤ_antisymm, StrMap, lookup, insert, lookup-insert, str_leb, sort_strings,
  sort_strings-perm, IsAscending, sort_strings-IsAscending, ℕ, zero, suc, ◌+◌, ◌-◌, ◌*◌, ◌/◌, ◌%◌,
  ◌^◌, ◌≤◌, ◌<◌, ◌≡◌, refl, sym, ap, ◌∙◌, subst, ◌≢◌, ◌↔◌, ◌⊎◌, inl, inr, Bool, true, false, ◌&&◌,
  ◌||◌, not, Option, none, some, List, [], ◌∷◌, ◌++◌, map, arith,
}
use fruitfly.Types.{
  Json, null, boolean, number, int64, text, array, object, Items, nil, cons, Fields, end, field,
  get, Event,
}
pub mod Sight
pub mod Keys

mutual
  -- The Starlark values that lazyConvert makes; all are frozen.
  pub data Lazy : Type 0 where
    none_value : Lazy
    bool : Bool → Lazy
    int : ℤ → Lazy
    float : ℕ → Lazy
    string : Str → Lazy
    list : Elements → Lazy
    view : Fields → Cache → Lazy

  pub data Elements : Type 0 where
    no_elements : Elements
    element : Lazy → Elements → Elements

  pub data Cache : Type 0 where
    no_cache : Cache
    cached : Str → Lazy → Cache → Cache

unfoldable mutual
  pub lazy_convert : Json → Lazy
  lazy_convert null = none_value
  lazy_convert (boolean b) = bool b
  lazy_convert (number f) = float f
  lazy_convert (int64 i) = int i
  lazy_convert (text s) = string s
  lazy_convert (array vs) = list (convert_items vs)
  lazy_convert (object m) = view m no_cache

  -- The loop over a slice.
  pub convert_items : Items → Elements
  convert_items nil = no_elements
  convert_items (cons v vs) = element (lazy_convert v) (convert_items vs)

abbrev pub or_null : Option Json → Json
or_null none = null
or_null (some v) = v

-- v, ok := d.cache[key]
unfoldable pub cache_get : Cache → Str → Option Lazy
cache_get no_cache k = none
cache_get (cached j v c) k = if str_eq j k then some v else cache_get c k

-- d.cache[key] = v
unfoldable pub cache_set : Str → Lazy → Cache → Cache
cache_set k v no_cache = cached k v no_cache
cache_set k v (cached j w c) = if str_eq j k then cached j v c else cached j w (cache_set k v c)

unfoldable pub value_cached : Fields → Cache → Str → Option Lazy → Cache × Lazy
value_cached m c key (some v) = (c, v)
value_cached m c key none = let v = lazy_convert (or_null (get m key)) in (cache_set key v c, v)

-- d.value(key)
unfoldable pub value : Fields → Cache → Str → Cache × Lazy
unfolding value_cached
value m c key = value_cached m c key (cache_get c key)

unfoldable pub found : Cache × Lazy → Cache × Option Lazy
found (c, v) = (c, some v)

unfoldable pub present : Fields → Cache → Str → Option Json → Cache × Option Lazy
unfolding found
present m c key none = (c, none)
present m c key (some v) = found (value m c key)

-- d.Get(k): only a string is a key.
unfoldable pub get_key : Fields → Cache → Lazy → Cache × Option Lazy
unfolding present
get_key m c (string key) = present m c key (get m key)
get_key m c _ = (c, none)

or_default : Lazy → Cache × Option Lazy → Cache × Lazy
or_default dflt (c, none) = (c, dflt)
or_default dflt (c, some v) = (c, v)

-- The method get(key, default) of Attr.
unfoldable pub get_method : Fields → Cache → Lazy → Lazy → Cache × Lazy
unfolding or_default
get_method m c key dflt = or_default dflt (get_key m c key)

-- The view is frozen: d.SetKey is an error and changes nothing.
abbrev pub set_key : Fields → Cache → Lazy → Lazy → Option Cache
set_key m c k v = none

unfoldable pub has_key : Str → List Str → Bool
has_key k [] = false
has_key k (j ∷ js) = str_eq j k || has_key k js

-- The keys of a map; the entries behind an earlier one of the same key are not the map's.
unfoldable pub keys : Fields → List Str
unfolding has_key
keys end = []
keys (field j v m) = let rest = keys m in j ∷ select (λ k. not (str_eq j k)) rest

abbrev pub len : Fields → ℕ
len m = length (keys m)

abbrev pub truth : Fields → Bool
truth m = ltb 0 (len m)

-- d.sortedKeys(), with the keys as the loop over the map visits them.
unfoldable pub sorted_keys : (List Str → List Str) → Fields → List Str
unfolding keys
sorted_keys visit m = sort_strings (visit (keys m))

-- The loops over the sorted keys in Items and in the method values.
unfoldable pub all_values : Fields → Cache → List Str → Cache × List (Str × Lazy)
all_values m c [] = (c, [])
all_values m c (k ∷ ks) =
    let (c', v) = value m c k in let (c'', vs) = all_values m c' ks in (c'', (k, v) ∷ vs)

unfoldable pub items : (List Str → List Str) → Fields → Cache → Cache × List (Str × Lazy)
unfolding all_values
items visit m c = all_values m c (sorted_keys visit m)

unfoldable pub keys_method : (List Str → List Str) → Fields → List Lazy
unfolding sorted_keys
keys_method visit m = map (λ k. string k) (sorted_keys visit m)

unfoldable pub values_method : (List Str → List Str) → Fields → Cache → Cache × List Lazy
unfolding items
values_method visit m c =
    let (c', kvs) = items visit m c in (c', map (λ (kv : Str × Lazy). kv.1) kvs)

pub data Method : Type 0 where
  get_of keys_of items_of values_of : Method

-- The methods by name, d.Attr(name).
unfoldable pub attr : Str → Option Method
attr name =
    if str_eq name (str "get")
    then some get_of
    else if str_eq name (str "keys")
    then some keys_of
    else if str_eq name (str "items")
    then some items_of
    else if str_eq name (str "values")
    then some values_of
    else none

-- lazyDictIterator.Next: the key and the iterator that is left, which is the keys from `i` on.
unfoldable pub next : List Str → Option (Lazy × List Str)
next [] = none
next (k ∷ ks) = some (string k, ks)

abbrev pub event_source : Event → Fields
event_source e = field (str "event_id") (text e.event_id) (
    field (str "event_type") (text e.event_type)
      (field (str "timestamp") (int64 e.timestamp) (field (str "payload") (object e.payload) end)))

-- eventToStarlark
abbrev pub event_to_starlark : Event → Lazy
event_to_starlark e = view (event_source e) no_cache
