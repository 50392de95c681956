-- ===== src/Executor/Event/Sight.antt =====
-- What a rule sees of an event through the view of executor/event.go.
use fruitfly.Base.{
  if◌then◌else◌, if_elim, Str, str, str_eq, str_eq→eq, ◌≡◌, refl, sym, ap, ◌∙◌, subst, Bool, true,
  false, Option, none, some, List, [], ◌∷◌,
}
use fruitfly.Types.{
  Json, null, boolean, number, int64, text, array, object, Items, nil, cons, Fields, get, Event,
}
use fruitfly.Rules.Match.{descend, resolve_path}
use fruitfly.Executor.Event.{
  Lazy, none_value, bool, int, float, string, list, view, Elements, no_elements, element, Cache,
  no_cache, cached, lazy_convert, convert_items, or_null, cache_get, cache_set, value_cached, value,
  found, present, get_key, event_source, event_to_starlark,
}

-- The value that is shown, without the caches.
unfoldable mutual
  pub shown : Lazy → Json
  shown none_value = null
  shown (bool b) = boolean b
  shown (int i) = int64 i
  shown (float f) = number f
  shown (string s) = text s
  shown (list vs) = array (shown_items vs)
  shown (view m c) = object m

  pub shown_items : Elements → Items
  shown_items no_elements = nil
  shown_items (element v vs) = cons (shown v) (shown_items vs)

mutual
  unfolding shown lazy_convert

  pub shown-lazy_convert : (j : Json) → shown (lazy_convert j) ≡ j
  shown-lazy_convert null = refl
  shown-lazy_convert (boolean b) = refl
  shown-lazy_convert (number f) = refl
  shown-lazy_convert (int64 i) = refl
  shown-lazy_convert (text s) = refl
  shown-lazy_convert (array vs) = ap array (shown_items-convert_items vs)
  shown-lazy_convert (object m) = refl

  shown_items-convert_items : (vs : Items) → shown_items (convert_items vs) ≡ vs
  shown_items-convert_items nil = refl
  shown_items-convert_items (cons v vs) =
      rw (shown-lazy_convert v, shown_items-convert_items vs) refl

-- Every cache holds what its map has, and so do the caches of the nested views it holds.
mutual
  IsFaithful : Lazy → Type 0
  IsFaithful (view m c) = IsCacheOf m c
  IsFaithful none_value = Unit {0}
  IsFaithful (bool b) = Unit {0}
  IsFaithful (int i) = Unit {0}
  IsFaithful (float f) = Unit {0}
  IsFaithful (string s) = Unit {0}
  IsFaithful (list vs) = Unit {0}

  IsCacheOf : Fields → Cache → Type 0
  IsCacheOf m no_cache = Unit {0}
  IsCacheOf m (cached k v c) = (shown v ≡ or_null (get m k)) × IsFaithful v × IsCacheOf m c

lazy_convert-IsFaithful : (j : Json) → IsFaithful (lazy_convert j)
unfolding IsFaithful IsCacheOf lazy_convert
lazy_convert-IsFaithful null = tt
lazy_convert-IsFaithful (boolean b) = tt
lazy_convert-IsFaithful (number f) = tt
lazy_convert-IsFaithful (int64 i) = tt
lazy_convert-IsFaithful (text s) = tt
lazy_convert-IsFaithful (array vs) = tt
lazy_convert-IsFaithful (object m) = tt

cache_get-IsCacheOf :
    (m : Fields) (c : Cache) (k : Str) (v : Lazy)
    → IsCacheOf m c
    → cache_get c k ≡ some v
    → (shown v ≡ or_null (get m k)) × IsFaithful v
unfolding IsCacheOf cache_get
cache_get-IsCacheOf m no_cache k v h e = cc
cache_get-IsCacheOf m (cached j w c) k v h e =
    pick (str_eq j k) refl e (cache_get-IsCacheOf m c k v h.2)
  where
    hit : j ≡ k → w ≡ v → (shown v ≡ or_null (get m k)) × IsFaithful v
    hit p q = (sym (ap shown q) ∙ h.0 ∙ ap (λ i. or_null (get m i)) p, subst IsFaithful q h.1)

    pick :
        (b : Bool)
        → str_eq j k ≡ b
        → (if b then some w else cache_get c k) ≡ some v
        → (cache_get c k ≡ some v → (shown v ≡ or_null (get m k)) × IsFaithful v)
        → (shown v ≡ or_null (get m k)) × IsFaithful v
    pick true same f rec = hit (str_eq→eq j k same) cc
    pick false other f rec = rec f

cache_set-IsCacheOf :
    (m : Fields) (k : Str) (v : Lazy) (c : Cache)
    → IsCacheOf m c
    → shown v ≡ or_null (get m k)
    → IsFaithful v
    → IsCacheOf m (cache_set k v c)
unfolding IsCacheOf cache_set
cache_set-IsCacheOf m k v no_cache h e f = (e, f, tt)
cache_set-IsCacheOf m k v (cached j w c) h e f =
    if_elim (IsCacheOf m) (str_eq j k) _ _
      (λ same. (e ∙ ap (λ i. or_null (get m i)) (sym (str_eq→eq j k same)), f, h.2))
      (λ _. (h.0, h.1, cache_set-IsCacheOf m k v c h.2 e f))

-- A value of a view is the converted one, and the cache stays faithful.
value-IsCacheOf :
    (m : Fields) (c : Cache) (k : Str)
    → IsCacheOf m c
    → (shown (value m c k).1 ≡ or_null (get m k))
      × IsFaithful (value m c k).1
      × IsCacheOf m (value m c k).0
unfolding value value_cached
value-IsCacheOf m c k h = by_cache (cache_get c k) refl
  where
    by_cache :
        (o : Option Lazy)
        → cache_get c k ≡ o
        → (shown (value_cached m c k o).1 ≡ or_null (get m k))
          × IsFaithful (value_cached m c k o).1
          × IsCacheOf m (value_cached m c k o).0
    by_cache (some v) e = let s = cache_get-IsCacheOf m c k v h e in (s.0, s.1, h)
    by_cache none e =
        let j = or_null (get m k) in
        (
          shown-lazy_convert j,
          lazy_convert-IsFaithful j,
          cache_set-IsCacheOf m k (lazy_convert j) c h (shown-lazy_convert j)
              (lazy_convert-IsFaithful j),
        )

-- The view after one index operation and what is read from there on.
follow : Fields → Str → Cache × Option Lazy → (Lazy → Lazy × Option Lazy) → Lazy × Option Lazy
follow m k (c, none) onward = (view m c, none)
follow m k (c, some v) onward = let (v', r) = onward v in (view m (cache_set k v' c), r)

-- A chain of index operations, v[k1][k2]…: the value that it leads to, and the views with what they
-- have cached on the way.
pub read : Lazy → List Str → Lazy × Option Lazy
unfolding follow
read v [] = (v, some v)
read (view m c) (k ∷ ks) = follow m k (get_key m c (string k)) (λ v. read v ks)
read v (k ∷ ks) = (v, none)

abbrev pub shown_found : Option Lazy → Option Json
shown_found none = none
shown_found (some v) = some (shown v)

-- A reading is as the descent by the path in what the view shows, and the view still shows the same.
abbrev IsReading : Lazy → List Str → Lazy × Option Lazy → Type 0
IsReading v path q =
    (shown_found q.1 ≡ descend (shown v) path) × IsFaithful q.0 × (shown q.0 ≡ shown v)

descend_found :
    (m : Fields) (k : Str) (ks : List Str) (j : Json)
    → get m k ≡ some j
    → descend j ks ≡ descend (object m) (k ∷ ks)
unfolding descend
descend_found m k ks j e = rw (e, descend) refl

descend_missing :
    (m : Fields) (k : Str) (ks : List Str) → get m k ≡ none → none ≡ descend (object m) (k ∷ ks)
unfolding descend
descend_missing m k ks e = rw (e, descend) refl

follow-IsReading :
    (m : Fields) (c : Cache) (k : Str) (ks : List Str) (onward : Lazy → Lazy × Option Lazy)
    → IsCacheOf m c
    → ((v : Lazy) → IsFaithful v → IsReading v ks (onward v))
    → (o : Option Json) → get m k ≡ o
    → IsReading (view m c) (k ∷ ks) (follow m k (present m c k o) onward)
unfolding follow present found IsFaithful shown
follow-IsReading m c k ks onward h rec none e = (descend_missing m k ks e, h, refl)
follow-IsReading m c k ks onward h rec (some j) e =
    let s = value-IsCacheOf m c k h in
    let r = rec (value m c k).1 s.1 in
    (
      r.0 ∙ ap (λ x. descend x ks) (s.0 ∙ ap or_null e) ∙ descend_found m k ks j e,
      cache_set-IsCacheOf m k (onward (value m c k).1).0 (value m c k).0 s.2 (r.2 ∙ s.0) r.1,
      refl,
    )

read-IsReading : (v : Lazy) (path : List Str) → IsFaithful v → IsReading v path (read v path)
unfolding read descend shown get_key IsFaithful
read-IsReading v [] h = (refl, h, refl)
read-IsReading (view m c) (k ∷ ks) h =
    follow-IsReading m c k ks (λ v. read v ks) h (λ v f. read-IsReading v ks f) (get m k) refl
read-IsReading none_value (k ∷ ks) h = (refl, h, refl)
read-IsReading (bool b) (k ∷ ks) h = (refl, h, refl)
read-IsReading (int i) (k ∷ ks) h = (refl, h, refl)
read-IsReading (float f) (k ∷ ks) h = (refl, h, refl)
read-IsReading (string s) (k ∷ ks) h = (refl, h, refl)
read-IsReading (list vs) (k ∷ ks) h = (refl, h, refl)

-- The view after a history of readings, by any rules.
pub read_all : Lazy → List (List Str) → Lazy
read_all v [] = v
read_all v (path ∷ paths) = read_all (read v path).0 paths

read_all-IsFaithful :
    (v : Lazy) (paths : List (List Str))
    → IsFaithful v
    → IsFaithful (read_all v paths) × (shown (read_all v paths) ≡ shown v)
unfolding read_all
read_all-IsFaithful v [] h = (h, refl)
read_all-IsFaithful v (path ∷ paths) h =
    let r = read-IsReading v path h in
    let rest = read_all-IsFaithful (read v path).0 paths r.1 in (rest.0, rest.1 ∙ r.2)

-- Laziness and the shared caches are invisible: after any history of readings of an event by its
-- rules, a chain of index operations leads to the value that the event's fields have by that path, or
-- to none where they have none; and what stands under "payload" is what the prefilter resolves.
pub read-event_to_starlark :
    (e : Event) (paths : List (List Str)) (path : List Str)
    → (shown_found (read (read_all (event_to_starlark e) paths) path).1
        ≡ descend (object (event_source e)) path)
      × (shown_found (read (read_all (event_to_starlark e) paths) (str "payload" ∷ path)).1
          ≡ resolve_path e (str "payload" ∷ path))
unfolding shown IsFaithful IsCacheOf descend resolve_path get str_eq
read-event_to_starlark e paths path =
    let h = read_all-IsFaithful (event_to_starlark e) paths tt in
    let v = read_all (event_to_starlark e) paths in
    (
      (read-IsReading v path h.0).0 ∙ ap (λ x. descend x path) h.1,
      (read-IsReading v (str "payload" ∷ path) h.0).0
          ∙ ap (λ x. descend x (str "payload" ∷ path)) h.1,
    )
