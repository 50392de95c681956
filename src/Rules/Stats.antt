-- ===== src/Rules/Stats.antt =====
-- rules/stats.go: the timing of a rule. Durations are nanoseconds, times unix seconds. The floating
-- point of the moving average is the record `Average`, over the bits that are stored.
use fruitfly.Base.{
  ltb, leb, ◌==◌, if◌then◌else◌, leb→le, le→leb, ltb→lt, ==_iff, &&-true, Bool-cases, Option-cases,
  if_elim, is_some, length, get_or, set, replicate, take, drop, All, In, select, count_if,
  length-append, length-set, All-append, All-In, In-append_left, In-append_right, In-append,
  select-true, select-false, select-append, length-select-le, Str, str, str_eq, str_eq→eq,
  str_eq_refl, str_eq_iff, has_prefix, ℤ, pos, negsuc, pos_part, neg_part, ◌≤ℤ◌, ◌<ℤ◌, ltb_ℤ, leb_ℤ,
  eq_ℤ, eq_ℤ→eq, ≤ℤ_antisymm, StrMap, lookup, insert, lookup-insert, str_leb, sort_strings,
  sort_strings-perm, IsAscending, sort_strings-IsAscending, ℕ, zero, suc, ◌+◌, ◌-◌, ◌*◌, ◌/◌, ◌%◌,
  ◌^◌, ◌≤◌, ◌<◌, ◌≡◌, refl, sym, ap, ◌∙◌, subst, ◌≢◌, ◌↔◌, ◌⊎◌, inl, inr, Bool, true, false, ◌&&◌,
  ◌||◌, not, Option, none, some, List, [], ◌∷◌, ◌++◌, map, arith,
}
pub mod Warnings

pub record RuleStats : Type 0 where
  pub evals : ℕ
  pub ewma_bits : ℕ
  pub last_warn : ℕ

pub record Average : Type 0 where
  -- float64(elapsed.Nanoseconds()), as bits.
  pub sample : ℕ → ℕ
  -- prev + ewmaAlpha*(sample-prev), as bits.
  pub blend : ℕ → ℕ → ℕ
  pub duration : ℕ → ℕ

abbrev pub min_evals_for_slow : ℕ
min_evals_for_slow = 10

abbrev pub slow_factor : ℕ
slow_factor = 16

abbrev pub warn_interval : ℕ
warn_interval = 60

-- Observe, with the swap that succeeds.
unfoldable pub observe : Average → RuleStats → ℕ → RuleStats
observe a s elapsed = record s {
  evals = suc s.evals;
  ewma_bits = if s.ewma_bits == 0 then a.sample elapsed else a.blend s.ewma_bits (a.sample elapsed);
}

abbrev pub ewma : Average → RuleStats → ℕ
ewma a s = a.duration s.ewma_bits

-- budget / matched, with at least one matched rule.
abbrev pub fair_share : ℕ → ℕ → ℕ
fair_share budget matched = budget / (if ltb matched 1 then 1 else matched)

-- The tests of WarnIfSlow before the swap, with `last` as it was loaded: now-last < warnInterval is
-- written without the difference.
unfoldable pub may_warn : Average → RuleStats → ℕ → ℕ → ℕ → ℕ → Bool
may_warn a s budget matched now last =
    not (ltb s.evals min_evals_for_slow)
    && (not (leb (ewma a s) (fair_share budget matched)) && not (ltb now (last + warn_interval)))

-- lastWarn.CompareAndSwap(last, now)
unfoldable pub swap_warn : RuleStats → ℕ → ℕ → RuleStats × Bool
swap_warn s last now =
    if s.last_warn == last then (record s { last_warn = now }, true) else (s, false)

-- WarnIfSlow, when no other worker comes between its load and its swap.
unfoldable pub warn_if_slow : Average → RuleStats → ℕ → ℕ → ℕ → RuleStats × Bool
unfolding may_warn swap_warn
warn_if_slow a s budget matched now =
    if may_warn a s budget matched now s.last_warn then swap_warn s s.last_warn now else (s, false)

unfoldable pub sampled : Average → List (Option RuleStats) → List ℕ
sampled a [] = []
sampled a (none ∷ rules) = sampled a rules
sampled a (some s ∷ rules) =
    let rest = sampled a rules in if leb min_evals_for_slow s.evals then ewma a s ∷ rest else rest

-- SlowRuleThreshold over the statistics of the rules; `sort` is slices.Sort.
unfoldable pub slow_rule_threshold : Average → (List ℕ → List ℕ) → List (Option RuleStats) → ℕ
unfolding sampled
slow_rule_threshold a sort rules =
    let ewmas = sampled a rules in
    if ltb (length ewmas) 2 then 0 else get_or (sort ewmas) (length ewmas / 2) 0 * slow_factor

-- What workers do to the statistics of a rule, one step after the other: an observation, or the swap
-- of a WarnIfSlow whose load read `last` and whose tests passed then.
pub data Step (a : Average) : RuleStats → RuleStats → Option ℕ → Type 0 where
  observes : (s : RuleStats) (elapsed : ℕ) → Step a s (observe a s elapsed) none
  swaps :
      (s then_ : RuleStats) (budget matched now last : ℕ)
      → may_warn a then_ budget matched now last ≡ true
      → (swap_warn s last now).1 ≡ true
      → Step a s (swap_warn s last now).0 (some now)
  fails :
      (s : RuleStats) (now last : ℕ)
      → (swap_warn s last now).1 ≡ false
      → Step a s (swap_warn s last now).0 none

-- Such steps, with the times of the warnings, the last first.
pub data Steps (a : Average) : RuleStats → RuleStats → List ℕ → Type 0 where
  start : (s : RuleStats) → Steps a s s []
  quiet : {s t u : RuleStats} {ws : List ℕ} → Steps a s t ws → Step a t u none → Steps a s u ws
  warned :
      {s t u : RuleStats} {ws : List ℕ} {now : ℕ}
      → Steps a s t ws
      → Step a t u (some now)
      → Steps a s u (now ∷ ws)
