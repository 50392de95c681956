-- ===== src/Rules/Stats/Warnings.antt =====
-- How often a slow rule is warned about (rules/stats.go).
use fruitfly.Base.{
  some_injective, ℕ, ◌+◌, ◌≤◌, ◌≡◌, refl, ◌∙◌, true, false, Option, none, some, List, [], ◌∷◌,
  arith,
}
use fruitfly.Rules.Stats.{
  RuleStats, Average, warn_interval, observe, may_warn, swap_warn, Step, observes, swaps, fails,
  Steps, start, quiet, warned,
}

-- Each time, the last first, is at least the interval after the one before.
abbrev pub AreSpaced : List ℕ → Type 0
AreSpaced [] = Unit {0}
AreSpaced (now ∷ []) = Unit {0}
AreSpaced (now ∷ before ∷ ws) = (before + warn_interval ≤ now) × AreSpaced (before ∷ ws)

-- The stored time is that of the last warning, if there was one.
IsLast : RuleStats → List ℕ → Type 0
IsLast s [] = Unit {0}
IsLast s (now ∷ ws) = s.last_warn ≡ now

last-swap_warn :
    (s : RuleStats) (last now : ℕ)
    → (swap_warn s last now).1 ≡ true
    → (s.last_warn ≡ last) × ((swap_warn s last now).0.last_warn ≡ now)
unfolding swap_warn
last-swap_warn s last now h = ground arith

failed-swap_warn :
    (s : RuleStats) (last now : ℕ)
    → (swap_warn s last now).1 ≡ false
    → (swap_warn s last now).0.last_warn ≡ s.last_warn
unfolding swap_warn
failed-swap_warn s last now h = ground arith

may_warn_interval :
    (a : Average) (s : RuleStats) (budget matched now last : ℕ)
    → may_warn a s budget matched now last ≡ true
    → last + warn_interval ≤ now
unfolding may_warn
may_warn_interval a s budget matched now last h = ground arith

Step-last :
    (a : Average) (s u : RuleStats) (o : Option ℕ)
    → Step a s u o
    → (o ≡ none → u.last_warn ≡ s.last_warn)
      × ((now : ℕ) → o ≡ some now → (u.last_warn ≡ now) × (s.last_warn + warn_interval ≤ now))
unfolding observe
Step-last a _ _ _ (observes s elapsed) = (λ _. refl, λ now h. cc)
Step-last a _ _ _ (swaps s before budget matched t last passed swapped) =
    let l = last-swap_warn s last t swapped in
    let i = may_warn_interval a before budget matched t last passed in
    (λ h. cc, λ now h. let e = some_injective h in (l.1 ∙ e, omega (arith, l.0, i, e)))
Step-last a _ _ _ (fails s t last failed) = (λ _. failed-swap_warn s last t failed, λ now h. cc)

kept-IsLast :
    (t u : RuleStats) (ws : List ℕ) → u.last_warn ≡ t.last_warn → IsLast t ws → IsLast u ws
unfolding IsLast
kept-IsLast t u [] e h = tt
kept-IsLast t u (w ∷ ws) e h = e ∙ h

later-AreSpaced :
    (t : RuleStats) (now : ℕ) (ws : List ℕ)
    → t.last_warn + warn_interval ≤ now
    → IsLast t ws
    → AreSpaced ws
    → AreSpaced (now ∷ ws)
unfolding IsLast
later-AreSpaced t now [] h l p = tt
later-AreSpaced t now (w ∷ ws) h l p = (omega (arith, h, l), p)

Steps-IsLast :
    (a : Average) (s u : RuleStats) (ws : List ℕ) → Steps a s u ws → AreSpaced ws × IsLast u ws
unfolding IsLast
Steps-IsLast a s _ _ (start _) = (tt, tt)
Steps-IsLast a s u ws (quiet {t = t} r step) =
    let h = Steps-IsLast a s t ws r in
    (h.0, kept-IsLast t u ws ((Step-last a t u none step).0 refl) h.1)
Steps-IsLast a s u (now ∷ ws) (warned {t = t} r step) =
    let h = Steps-IsLast a s t ws r in
    let l = (Step-last a t u (some now) step).1 now refl in
    (later-AreSpaced t now ws l.1 h.1 h.0, l.0)

-- Warnings are rate-limited across workers: in whatever order the workers that share a rule's
-- statistics observe, load and swap, any two warnings in a row about it are at least warnInterval
-- seconds apart, by the times that the workers read.
pub Steps-AreSpaced : (a : Average) (s u : RuleStats) (ws : List ℕ) → Steps a s u ws → AreSpaced ws
Steps-AreSpaced a s u ws r = (Steps-IsLast a s u ws r).0
