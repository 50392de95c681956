-- ===== src/Rules/Udfs.antt =====
-- rules/udfs.go: the builtins that rules call, with their arguments as starlark.UnpackArgs leaves them.
-- The stateful ones reach their worker through the interface EvalEnv, over an abstract state; a none
-- among its answers is an error. SHA-256 is a parameter.
use fruitfly.Base.{
  ltb, leb, ◌==◌, if◌then◌else◌, leb→le, le→leb, ltb→lt, ==_iff, &&-true, Bool-cases, Option-cases,
  if_elim, is_some, length, get_or, set, replicate, take, drop, All, In, select, count_if,
  length-append, length-set, All-append, All-In, In-append_left, In-append_right, In-append,
  select-true, select-false, select-append, length-select-le, Str, str, str_eq, str_eq→eq,
  str_eq_refl, str_eq_iff, has_prefix, ℤ, pos, negsuc, pos_part, neg_part, ◌≤ℤ◌, ◌<ℤ◌, ltb_ℤ, leb_ℤ,
  eq_ℤ, eq_ℤ→eq, ≤ℤ_antisymm, StrMap, lookup, insert, lookup-insert, ℕ, zero, suc, ◌+◌, ◌-◌, ◌*◌,
  ◌/◌, ◌%◌, ◌^◌, ◌≤◌, ◌<◌, ◌≡◌, refl, sym, ap, ◌∙◌, subst, ◌≢◌, ◌↔◌, ◌⊎◌, inl, inr, Bool, true,
  false, ◌&&◌, ◌||◌, not, Option, none, some, List, [], ◌∷◌, ◌++◌, map, arith,
}
use fruitfly.Types.{approve, block, review}
use fruitfly.Starlark.{Value, none_value, bool, int, string, struct, no_attrs, attr}
pub mod Laws

pub record EvalEnv (S : Type 0) : Type 0 where
  pub counter : Str → Str → ℤ → S → S × Option ℕ
  pub memo_get : Str → S → Option Value
  pub memo_set : Str → Value → S → S
  pub regex_match : Str → Str → S → S × Option Bool

pub data UdfError : Type 0 where
  -- No evaluation context, as at module scope.
  no_context : UdfError
  invalid_verdict : Str → UdfError
  -- The environment's error, or the called function's.
  passed_on : UdfError

pub data Answer : Type 0 where
  value : Value → Answer
  error : UdfError → Answer

-- starlarkstruct.FromStringDict sorts the names.
abbrev pub verdict_struct : Str → Str → Value
verdict_struct verdict_type reason =
    struct (attr (str "reason") (string reason) (attr (str "type") (string verdict_type) no_attrs))

-- verdict(type, reason="")
unfoldable pub verdict_builtin : Str → Str → Answer
verdict_builtin verdict_type reason =
    if str_eq verdict_type approve || str_eq verdict_type block || str_eq verdict_type review
    then value (verdict_struct verdict_type reason)
    else error (invalid_verdict verdict_type)

unfoldable pub now_builtin : ℤ → Answer
now_builtin unix_now = value (int unix_now)

-- log(message); the line itself goes to the log.
unfoldable pub log_builtin : Str → Answer
log_builtin message = value none_value

abbrev hex_digit : ℕ → ℕ
hex_digit n = if ltb n 10 then b'0' + n else b'a' + (n - 10)

-- fmt.Sprintf("%x", bytes)
unfoldable pub hex : Str → Str
hex [] = []
hex (b ∷ bs) = hex_digit (b / 16) ∷ hex_digit (b % 16) ∷ hex bs

unfoldable pub hash_builtin : (Str → Str) → Str → Answer
unfolding hex
hash_builtin sha256 s = value (string (hex (sha256 s)))

module _ {S : Type 0} where
  memo_called : EvalEnv S → Str → S × Option Value → S × Answer
  memo_called e key (s, none) = (s, error passed_on)
  memo_called e key (s, some v) = (e.memo_set key v s, value v)

  memo_looked_up : EvalEnv S → Str → (S → S × Option Value) → S → Option Value → S × Answer
  unfolding memo_called
  memo_looked_up e key fn s (some cached) = (s, value cached)
  memo_looked_up e key fn s none = memo_called e key (fn s)

  -- memo(key, fn); `fn` is the call of the callable.
  unfoldable pub memo_builtin : Option (EvalEnv S) → Str → (S → S × Option Value) → S → S × Answer
  unfolding memo_looked_up
  memo_builtin none key fn s = (s, error no_context)
  memo_builtin (some e) key fn s = memo_looked_up e key fn s (e.memo_get key s)

  counted : S × Option ℕ → S × Answer
  counted (s, none) = (s, error passed_on)
  counted (s, some total) = (s, value (int (pos total)))

  -- counter(entity_id, event_type, window_seconds)
  unfoldable pub counter_builtin : Option (EvalEnv S) → Str → Str → ℤ → S → S × Answer
  unfolding counted
  counter_builtin none entity_id event_type window s = (s, error no_context)
  counter_builtin (some e) entity_id event_type window s =
      counted (e.counter entity_id event_type window s)

  tested : S × Option Bool → S × Answer
  tested (s, none) = (s, error passed_on)
  tested (s, some matched) = (s, value (bool matched))

  -- regex_match(pattern, text)
  unfoldable pub regex_match_builtin : Option (EvalEnv S) → Str → Str → S → S × Answer
  unfolding tested
  regex_match_builtin none pattern text s = (s, error no_context)
  regex_match_builtin (some e) pattern text s = tested (e.regex_match pattern text s)
