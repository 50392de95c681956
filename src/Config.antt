-- ===== src/Config.antt =====
-- config/config.go. The decoder of gopkg.in/yaml.v3 is the parameter `unmarshal`, which fills a Config
-- of zero values; the number of processors is `cpus`.
use fruitfly.Base.{
  ltb, leb, ◌==◌, if◌then◌else◌, leb→le, le→leb, ltb→lt, ==_iff, &&-true, Bool-cases, Option-cases,
  if_elim, is_some, length, get_or, set, replicate, take, drop, All, In, select, count_if,
  length-append, length-set, All-append, All-In, In-append_left, In-append_right, In-append,
  select-true, select-false, select-append, length-select-le, Str, str, str_eq, str_eq→eq,
  str_eq_refl, str_eq_iff, has_prefix, ℤ, pos, negsuc, pos_part, neg_part, ◌≤ℤ◌, ◌<ℤ◌, ltb_ℤ, leb_ℤ,
  eq_ℤ, eq_ℤ→eq, ≤ℤ_antisymm, StrMap, lookup, insert, lookup-insert, str_leb, sort_strings,
  sort_strings-perm, IsAscending, sort_strings-IsAscending, ℕ, zero, suc, ◌+◌, ◌-◌, ◌*◌, ◌/◌, ◌%◌,
  ◌^◌, ◌≤◌, ◌<◌, ◌≡◌, refl, sym, ap, ◌∙◌, subst, ◌≢◌, ◌↔◌, ◌⊎◌, inl, inr, Bool, true, false, ◌&&◌,
  ◌||◌, not, Option, none, some, List, [], ◌∷◌, ◌++◌, map, arith,
}
pub mod Settled

pub record Config : Type 0 where
  pub address : Str
  pub rules_dir : Str
  pub duckdb_path : Str
  pub webhook_url : Str
  pub workers : ℤ
  pub log_level : Str
  pub emit : Str
  pub routing_field : Str
  pub cluster_peers : List Str
  pub cluster_self : Str

pub data ConfigError : Type 0 where
  unreadable unparsed cluster_self_required : ConfigError
  invalid_log_level invalid_emit : Str → ConfigError

pub data Loaded : Type 0 where
  ok : Config → Loaded
  err : ConfigError → Loaded

-- os.ReadFile: the bytes, or an error that is or is not os.IsNotExist.
pub data FileRead : Type 0 where
  missing failed : FileRead
  contents : Str → FileRead

-- if s == "" { s = d }
abbrev pub or_str : Str → Str → Str
or_str [] d = d
or_str (c ∷ s) d = c ∷ s

abbrev pub or_count : ℤ → ℤ → ℤ
or_count n cpus = if leb_ℤ n (pos 0) then cpus else n

unfoldable pub apply_defaults : ℤ → Config → Config
apply_defaults cpus c = record c {
  address = or_str c.address (str ":8080");
  rules_dir = or_str c.rules_dir (str "./rules");
  duckdb_path = or_str c.duckdb_path (str "fruitfly.duckdb");
  workers = or_count c.workers cpus;
  log_level = or_str c.log_level (str "info");
  emit = or_str c.emit (str "all");
}

abbrev pub is_log_level : Str → Bool
is_log_level s =
    str_eq s (str "debug")
    || str_eq s (str "info")
    || str_eq s (str "warn")
    || str_eq s (str "error")

abbrev pub is_emit : Str → Bool
is_emit s = str_eq s (str "all") || str_eq s (str "interesting")

abbrev pub with_routing : Config → Config
with_routing c = record c { routing_field = or_str c.routing_field (str "entity_id") }

-- len(cfg.ClusterPeers) > 0 && cfg.ClusterSelf == ""
check_self : Config → List Str → Str → Loaded
check_self c (p ∷ ps) [] = err cluster_self_required
check_self c _ _ = ok c

unfoldable pub validate : Config → Loaded
unfolding check_self
validate c =
    if is_log_level c.log_level
    then if is_emit c.emit
      then check_self (with_routing c) c.cluster_peers c.cluster_self
      else err (invalid_emit c.emit)
    else err (invalid_log_level c.log_level)

abbrev pub settle : ℤ → Config → Loaded
settle cpus c = validate (apply_defaults cpus c)

abbrev pub empty_config : Config
empty_config = record {
  address = [];
  rules_dir = [];
  duckdb_path = [];
  webhook_url = [];
  workers = pos 0;
  log_level = [];
  emit = [];
  routing_field = [];
  cluster_peers = [];
  cluster_self = [];
}

parsed : ℤ → Option Config → Loaded
parsed cpus none = err unparsed
parsed cpus (some c) = settle cpus c

load_file : (Str → Option Config) → ℤ → FileRead → Loaded
unfolding parsed
load_file unmarshal cpus missing = settle cpus empty_config
load_file unmarshal cpus failed = err unreadable
load_file unmarshal cpus (contents s) = parsed cpus (unmarshal s)

-- Load; `file` is what reading the path gives.
unfoldable pub load : (Str → Option Config) → ℤ → Str → FileRead → Loaded
unfolding load_file
load unmarshal cpus [] file = settle cpus empty_config
load unmarshal cpus (c ∷ path) file = load_file unmarshal cpus file
