-- ===== src/Ingest/Parsing.antt =====
-- What parseEvent of ingest/server.go accepts, and the event that it builds.
use fruitfly.Base.{
  some_injective, ◌≢◌, ◌⊎◌, ◌∷◌, ℕ, ltb, if◌then◌else◌, Bool-cases, Option-cases, length, Str, str,
  ℤ, ◌≤◌, ◌≡◌, refl, sym, ap, ◌∙◌, subst, ◌↔◌, inl, inr, false, Option, none, some, [], arith,
}
use fruitfly.Types.{Fields, Event, Json, text, get}
use fruitfly.Ingest.{
  World, Config, parsed, invalid, bad_event_type, get_string, is_empty, or_else, max_id_bytes,
  choose_id, routing_key, make_event, with_time, with_timestamp, with_type, with_payload,
  parse_event,
}

-- The identifier that the client gave, empty where it gave none.
abbrev given_id : Fields → Str
given_id payload = or_else (get_string payload (str "event_id")) []

-- What an accepted body says in the parser's own terms.
record Passes (w : World) (c : Config) (fresh : Option Str) (raw : Str) (e : Event) : Type 0 where
  decoded : w.decode raw ≡ some e.payload
  typed : get_string e.payload (str "event_type") ≡ some e.event_type
  type_nonempty : is_empty e.event_type ≡ false
  stamp : Str
  stamped : get_string e.payload (str "timestamp") ≡ some stamp
  timed : w.parse_time stamp ≡ some e.timestamp
  id_short : length (given_id e.payload) ≤ max_id_bytes
  id_chosen : choose_id fresh (given_id e.payload) ≡ some e.event_id
  keyed : e.entity_id ≡ routing_key e.payload c.routing_field e.event_id
  kept : e.raw_json ≡ raw

-- The object has a non-empty string under the key.
abbrev pub HasText : Fields → Str → Str → Type 0
HasText m k s = (get m k ≡ some (text s)) × (s ≢ [])

-- It has none: the key is missing, or its value is no string or the empty one.
abbrev pub LacksText : Fields → Str → Type 0
LacksText m k = (s : Str) → get m k ≡ some (text s) → s ≡ []

-- What an accepted body says, and what the event takes from it.
pub record IsReading (w : World) (c : Config) (fresh : Option Str) (raw : Str) (e : Event)
    : Type 0 where
  pub decoded : w.decode raw ≡ some e.payload
  pub typed : HasText e.payload (str "event_type") e.event_type
  pub stamp : Str
  pub stamped : get e.payload (str "timestamp") ≡ some (text stamp)
  pub timed : w.parse_time stamp ≡ some e.timestamp
  -- The client's identifier, or a new one.
  pub named :
      (HasText e.payload (str "event_id") e.event_id × (length e.event_id ≤ 256))
      ⊎ (LacksText e.payload (str "event_id") × (fresh ≡ some e.event_id))
  -- The routing field's string, or the identifier.
  pub keyed :
      HasText e.payload c.routing_field e.entity_id
      ⊎ (LacksText e.payload c.routing_field × (e.entity_id ≡ e.event_id))
  pub kept : e.raw_json ≡ raw

get_string_iff : (m : Fields) (k s : Str) → (get_string m k ≡ some s) ↔ (get m k ≡ some (text s))
unfolding get_string
get_string_iff m k s = (λ h. found (get m k) h, λ h. rw (h, get_string) refl)
  where
    found :
        (o : Option Json)
        → (elim o [ none ↦ none | some v ↦ elim v [ text s ↦ some s | _ ↦ none ] ]) ≡ some s
        → o ≡ some (text s)
    found none h = cc
    found (some (text t)) h = ap (λ x. some (text x)) (some_injective h)
    found (some _) h = cc

-- A field is read as a non-empty string, or lacks one.
read_field :
    (m : Fields) (k : Str)
    → ((c : ℕ) × (s : Str) × (or_else (get_string m k) [] ≡ c ∷ s) × HasText m k (c ∷ s))
      ⊎ ((or_else (get_string m k) [] ≡ []) × LacksText m k)
read_field m k = by_read (get_string m k) refl
  where
    by_read :
        (o : Option Str)
        → get_string m k ≡ o
        → ((c : ℕ) × (s : Str) × (or_else o [] ≡ c ∷ s) × HasText m k (c ∷ s))
          ⊎ ((or_else o [] ≡ []) × LacksText m k)
    by_read none h = inr (refl, λ s g. absurd (cc (h, (get_string_iff m k s).1 g)))
    by_read (some []) h = inr (refl, λ s g. some_injective (sym ((get_string_iff m k s).1 g) ∙ h))
    by_read (some (c ∷ s)) h = inl (c, s, refl, ((get_string_iff m k (c ∷ s)).0 h, λ e. cc))

HasText-or_else : (m : Fields) (k s : Str) → HasText m k s → or_else (get_string m k) [] ≡ s
HasText-or_else m k s (g, n) = ap (λ o. or_else o []) ((get_string_iff m k s).1 g)

LacksText-or_else : (m : Fields) (k : Str) → LacksText m k → or_else (get_string m k) [] ≡ []
LacksText-or_else m k l = elim (read_field m k) [
  | inl (c, s, e, (g, n)) ↦ absurd (n (l (c ∷ s) g))
  | inr (e, _) ↦ e
]

nonempty_test : (s : Str) → s ≢ [] → is_empty s ≡ false
nonempty_test [] n = absurd (n refl)
nonempty_test (c ∷ s) n = refl

tested_nonempty : (s : Str) → is_empty s ≡ false → s ≢ []
tested_nonempty s h = λ e. cc (h, ap is_empty e)

module _ (w : World) (c : Config) (fresh : Option Str) (raw : Str) where
  make_event-eq :
      (payload : Fields) (t : Str) (ts : ℤ) (o : Option Str) (e : Event)
      → make_event c raw payload t ts o ≡ parsed e
      → (id : Str) × (o ≡ some id)
        × (e ≡ record {
          event_id = id;
          event_type = t;
          entity_id = routing_key payload c.routing_field id;
          timestamp = ts;
          payload = payload;
          raw_json = raw;
        })
  unfolding make_event
  make_event-eq payload t ts none e h = absurd (ground arith)
  make_event-eq payload t ts (some id) e h = (id, refl, ground arith)

  parsed-Passes :
      (payload : Fields) (t stamp : Str) (ts : ℤ) (e : Event)
      → w.decode raw ≡ some payload
      → get_string payload (str "event_type") ≡ some t
      → is_empty t ≡ false
      → get_string payload (str "timestamp") ≡ some stamp
      → w.parse_time stamp ≡ some ts
      → with_time c fresh raw payload t (some ts) ≡ parsed e
      → Passes w c fresh raw e
  unfolding with_time
  parsed-Passes payload t stamp ts e a b n d f h =
      elim (Bool-cases (ltb max_id_bytes (length (given_id payload)))) [
        | inl l ↦ absurd (ground (arith, l))
        | inr l ↦
            (let (id, k, q) =
                make_event-eq payload t ts (choose_id fresh (given_id payload)) e (rw l at h) in
              subst (Passes w c fresh raw) (sym q) (record {
                decoded = a;
                typed = b;
                type_nonempty = n;
                stamp = stamp;
                stamped = d;
                timed = f;
                id_short = ground arith;
                id_chosen = k;
                keyed = refl;
                kept = refl;
              }))
      ]

  -- The checks before the identifier's, passed one after the other.
  parse_event_passed :
      (payload : Fields) (t stamp : Str) (ts : ℤ)
      → w.decode raw ≡ some payload
      → get_string payload (str "event_type") ≡ some t
      → is_empty t ≡ false
      → get_string payload (str "timestamp") ≡ some stamp
      → w.parse_time stamp ≡ some ts
      → parse_event w c fresh raw ≡ with_time c fresh raw payload t (some ts)
  unfolding parse_event with_payload with_type with_timestamp
  parse_event_passed payload t stamp ts a b n d f =
      ap (with_payload w c fresh raw) a
      ∙ ap (with_type w c fresh raw payload) b
      ∙ ap
          (λ x.
            if x
            then invalid bad_event_type
            else with_timestamp w c fresh raw payload t (get_string payload (str "timestamp")))
          n
      ∙ ap (with_timestamp w c fresh raw payload t) d
      ∙ ap (with_time c fresh raw payload t) f

  parsed_inversion : (e : Event) → parse_event w c fresh raw ≡ parsed e → Passes w c fresh raw e
  unfolding parse_event with_payload with_type with_timestamp
  parsed_inversion e h = elim (Option-cases (w.decode raw)) [
    | inl a ↦ absurd (ground (arith, a))
    | inr (payload, a) ↦ elim (Option-cases (get_string payload (str "event_type"))) [
      | inl b ↦ absurd (ground (arith, a, b))
      | inr (t, b) ↦ elim (Bool-cases (is_empty t)) [
        | inl n ↦ absurd (ground (arith, a, b, n))
        | inr n ↦ elim (Option-cases (get_string payload (str "timestamp"))) [
          | inl d ↦ absurd (ground (arith, a, b, n, d))
          | inr (stamp, d) ↦ elim (Option-cases (w.parse_time stamp)) [
            | inl f ↦ absurd (ground (arith, a, b, n, d, f))
            | inr (ts, f) ↦
                parsed-Passes payload t stamp ts e a b n d f
                  (sym (parse_event_passed payload t stamp ts a b n d f) ∙ h)
          ]
        ]
      ]
    ]
  ]

  parsed_complete : (e : Event) → Passes w c fresh raw e → parse_event w c fresh raw ≡ parsed e
  unfolding with_time make_event
  parsed_complete e r =
      parse_event_passed e.payload e.event_type r.stamp e.timestamp r.decoded r.typed
        r.type_nonempty r.stamped r.timed
      ∙ rw (r.id_chosen) (ground (arith, r.id_short, r.keyed, r.kept))

  chosen_named :
      (e : Event)
      → length (given_id e.payload) ≤ max_id_bytes
      → choose_id fresh (given_id e.payload) ≡ some e.event_id
      → (HasText e.payload (str "event_id") e.event_id × (length e.event_id ≤ 256))
        ⊎ (LacksText e.payload (str "event_id") × (fresh ≡ some e.event_id))
  unfolding choose_id
  chosen_named e short h = elim (read_field e.payload (str "event_id")) [
    | inl (x, s, g, t) ↦
        (let same : x ∷ s ≡ e.event_id = some_injective (rw g at h) in
          inl (
            subst (HasText e.payload (str "event_id")) same t,
            subst (λ v. length v ≤ 256) (g ∙ same) short,
          ))
    | inr (g, l) ↦ inr (l, rw g at h)
  ]

  named_chosen :
      (e : Event)
      → (HasText e.payload (str "event_id") e.event_id × (length e.event_id ≤ 256))
        ⊎ (LacksText e.payload (str "event_id") × (fresh ≡ some e.event_id))
      → (length (given_id e.payload) ≤ max_id_bytes)
        × (choose_id fresh (given_id e.payload) ≡ some e.event_id)
  unfolding choose_id
  named_chosen e (inl (t, short)) =
      let g = HasText-or_else e.payload (str "event_id") e.event_id t in
      (
        subst (λ s. length s ≤ max_id_bytes) (sym g) short,
        ap (choose_id fresh) g ∙ rw (nonempty_test e.event_id t.1) refl,
      )
  named_chosen e (inr (l, f)) =
      let g = LacksText-or_else e.payload (str "event_id") l in
      (subst (λ s. length s ≤ max_id_bytes) (sym g) (omega arith), ap (choose_id fresh) g ∙ f)

  routed_keyed :
      (e : Event)
      → e.entity_id ≡ routing_key e.payload c.routing_field e.event_id
      → HasText e.payload c.routing_field e.entity_id
        ⊎ (LacksText e.payload c.routing_field × (e.entity_id ≡ e.event_id))
  unfolding routing_key
  routed_keyed e h = elim (read_field e.payload c.routing_field) [
    | inl (x, s, g, t) ↦ inl (subst (HasText e.payload c.routing_field) (sym (rw g at h)) t)
    | inr (g, l) ↦ inr (l, rw g at h)
  ]

  keyed_routed :
      (e : Event)
      → HasText e.payload c.routing_field e.entity_id
        ⊎ (LacksText e.payload c.routing_field × (e.entity_id ≡ e.event_id))
      → e.entity_id ≡ routing_key e.payload c.routing_field e.event_id
  unfolding routing_key
  keyed_routed e (inl t) =
      let g = HasText-or_else e.payload c.routing_field e.entity_id t in
      sym
        (ap (λ v. if is_empty v then e.event_id else v) g ∙ rw (nonempty_test e.entity_id t.1) refl)
  keyed_routed e (inr (l, same)) =
      let g = LacksText-or_else e.payload c.routing_field l in
      sym (ap (λ v. if is_empty v then e.event_id else v) g ∙ sym same)

  Passes-IsReading : (e : Event) → Passes w c fresh raw e → IsReading w c fresh raw e
  Passes-IsReading e p = record {
    decoded = p.decoded;
    typed = (
      (get_string_iff e.payload (str "event_type") e.event_type).0 p.typed,
      tested_nonempty e.event_type p.type_nonempty,
    );
    stamp = p.stamp;
    stamped = (get_string_iff e.payload (str "timestamp") p.stamp).0 p.stamped;
    timed = p.timed;
    named = chosen_named e p.id_short p.id_chosen;
    keyed = routed_keyed e p.keyed;
    kept = p.kept;
  }

  IsReading-Passes : (e : Event) → IsReading w c fresh raw e → Passes w c fresh raw e
  IsReading-Passes e r =
      let (short, chosen) = named_chosen e r.named in
      record {
        decoded = r.decoded;
        typed = (get_string_iff e.payload (str "event_type") e.event_type).1 r.typed.0;
        type_nonempty = nonempty_test e.event_type r.typed.1;
        stamp = r.stamp;
        stamped = (get_string_iff e.payload (str "timestamp") r.stamp).1 r.stamped;
        timed = r.timed;
        id_short = short;
        id_chosen = chosen;
        keyed = keyed_routed e r.keyed;
        kept = r.kept;
      }

  -- A body is accepted as an event exactly when it decodes to an object with a non-empty string
  -- `event_type`, a string `timestamp` that parses, and, if it has a string `event_id`, one of at most
  -- 256 bytes; the event has these, that identifier or a new one in place of an empty one, and the
  -- routing field's string as its key, or its identifier where that is missing or empty.
  pub parse_event_iff :
      (e : Event) → (parse_event w c fresh raw ≡ parsed e) ↔ IsReading w c fresh raw e
  parse_event_iff e = (
    λ h. Passes-IsReading e (parsed_inversion e h),
    λ r. parsed_complete e (IsReading-Passes e r),
  )
