-- ===== src/Executor/Counters.antt =====
-- executor/counters.go: sliding-window counters. A series is a ring of 60 words of 64 bits, one for a
-- minute, each with the minute (the epoch) in its high and the count in its low 32 bits. Unix times
-- are natural numbers (the clock stands after 1970); the array of shards is a function of the index.
use fruitfly.Base.{
  ltb, leb, ◌==◌, if◌then◌else◌, leb→le, le→leb, ltb→lt, ==_iff, &&-true, Bool-cases, Option-cases,
  is_some, length, get_or, set, replicate, All, In, select, count_if, length-append, length-set,
  All-append, All-In, In-append_left, In-append_right, In-append, select-append, length-select-le,
  Str, str, str_eq, str_eq→eq, str_eq_refl, str_eq_iff, has_prefix, ℤ, pos, negsuc, pos_part,
  neg_part, ◌≤ℤ◌, ◌<ℤ◌, ltb_ℤ, leb_ℤ, eq_ℤ, eq_ℤ→eq, ≤ℤ_antisymm, StrMap, lookup, insert,
  lookup-insert, ℕ, zero, suc, ◌+◌, ◌-◌, ◌*◌, ◌/◌, ◌%◌, ◌^◌, ◌≤◌, ◌<◌, ◌≡◌, refl, sym, ap, ◌∙◌,
  subst, ◌≢◌, ◌↔◌, ◌⊎◌, inl, inr, Bool, true, false, ◌&&◌, ◌||◌, not, Option, none, some, List, [],
  ◌∷◌, ◌++◌, map, arith,
}
use Prim.Native.Nat.{bit_xor}
pub mod Ring
pub mod Shards
pub mod Cas
pub mod Progress
pub mod Boundary

abbrev pub bucket_seconds : ℕ
bucket_seconds = 60

abbrev pub max_window_seconds : ℕ
max_window_seconds = 3600

abbrev pub ring_slots : ℕ
ring_slots = 60

abbrev pub shard_count : ℕ
shard_count = 256

abbrev pub u32 : ℕ → ℕ
u32 n = n % 2 ^ 32

abbrev pub u64 : ℕ → ℕ
u64 n = n % 2 ^ 64

pub record CounterKey : Type 0 where
  pub entity_id : Str
  pub event_type : Str

abbrev pub key_eq : CounterKey → CounterKey → Bool
key_eq a b = str_eq a.entity_id b.entity_id && str_eq a.event_type b.event_type

-- One round of FNV-1a.
fnv_step : ℕ → ℕ → ℕ
fnv_step h byte = u32 (bit_xor h byte * 16777619)

fnv_bytes : ℕ → Str → ℕ
unfolding fnv_step
fnv_bytes h [] = h
fnv_bytes h (byte ∷ rest) = fnv_bytes (fnv_step h byte) rest

unfoldable pub shard : CounterKey → ℕ
unfolding fnv_bytes
shard k = fnv_bytes (fnv_step (fnv_bytes 2166136261 k.entity_id) 0xff) k.event_type % shard_count

abbrev pub Series : Type 0
Series = List ℕ

abbrev pub empty_series : Series
empty_series = replicate ring_slots 0

abbrev pub slot_epoch : ℕ → ℕ
slot_epoch v = u32 (v / 2 ^ 32)

abbrev pub slot_count : ℕ → ℕ
slot_count v = u32 v

abbrev pub epoch_of : ℕ → ℕ
epoch_of unix_now = u32 (unix_now / bucket_seconds)

-- The word that the compare-and-swap of `increment` installs over `old`. The shifted epoch has its
-- low 32 bits clear, so `| 1` is `+ 1`.
unfoldable pub bump : ℕ → ℕ → ℕ
bump old epoch = if slot_epoch old == epoch then u64 (old + 1) else u64 (epoch * 2 ^ 32) + 1

unfoldable pub increment : Series → ℕ → Series
increment s unix_now =
    let epoch = epoch_of unix_now in
    let i = epoch % ring_slots in set s i (bump (get_or s i 0) epoch)

-- What one slot adds to the sum.
unfoldable pub slot_share : ℕ → ℕ → ℕ
slot_share window_start v =
    if leb window_start (slot_epoch v * bucket_seconds) then slot_count v else 0

unfoldable pub sum : Series → ℕ → ℕ
sum [] window_start = 0
sum (v ∷ rest) window_start = slot_share window_start v + sum rest window_start

abbrev pub ShardMap : Type 0
ShardMap = List (CounterKey × Series)

pub record CounterStore : Type 0 where
  pub shards : ℕ → ShardMap

abbrev pub empty_store : CounterStore
empty_store = record { shards = λ _. [] }

-- m.Load(key)
unfoldable pub load : ShardMap → CounterKey → Option Series
load [] k = none
load ((j, s) ∷ m) k = if key_eq j k then some s else load m k

-- What an increment of the series under `k` leaves in the map: LoadOrStore puts an empty series in
-- first where there is none.
unfoldable pub bump_key : ShardMap → CounterKey → ℕ → ShardMap
bump_key [] k now = (k, increment empty_series now) ∷ []
bump_key ((j, s) ∷ m) k now =
    if key_eq j k then (j, increment s now) ∷ m else (j, s) ∷ bump_key m k now

unfoldable pub store_increment : CounterStore → CounterKey → ℕ → CounterStore
store_increment cs k now = record {
  shards = λ i. if i == shard k then bump_key (cs.shards i) k now else cs.shards i;
}

sum_loaded : Option Series → ℕ → ℕ
sum_loaded none window_start = 0
sum_loaded (some s) window_start = sum s window_start

unfoldable pub store_sum : CounterStore → CounterKey → ℕ → ℕ
unfolding sum_loaded
store_sum cs k window_start = sum_loaded (load (cs.shards (shard k)) k) window_start

-- uint32((now - 3600) / 60): the division truncates towards zero, the conversion wraps.
unfoldable pub cutoff_epoch : ℕ → ℕ
cutoff_epoch now =
    if leb max_window_seconds now
    then u32 ((now - max_window_seconds) / bucket_seconds)
    else u32 (2 ^ 32 - (max_window_seconds - now) / bucket_seconds)

unfoldable pub any_since : ℕ → Series → Bool
any_since cutoff [] = false
any_since cutoff (v ∷ rest) = leb cutoff (slot_epoch v) || any_since cutoff rest

unfoldable pub gc_shard : ℕ → ShardMap → ShardMap
gc_shard cutoff [] = []
gc_shard cutoff ((j, s) ∷ m) =
    let rest = gc_shard cutoff m in if any_since cutoff s then (j, s) ∷ rest else rest

unfoldable pub gc : CounterStore → ℕ → CounterStore
gc cs now = record { shards = λ i. gc_shard (cutoff_epoch now) (cs.shards i) }
