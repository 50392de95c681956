-- ===== src/Rules/Snapshot/Merge.antt =====
-- mergeByPriority of rules/compiler.go merges: nothing is lost, and the order by priority stays.
use fruitfly.Base.{Bool-cases, All, ◌≤ℤ◌, leb_ℤ, inl, inr, List, [], ◌∷◌, ◌++◌, arith}
use mathlib.Core.List.{Perm, perm_middle, append-nil}
use mathlib.Core.List.Perm
use fruitfly.Rules.Snapshot.{Rule, merge_by_priority}

-- No rule of the list has a priority above `r`'s.
abbrev pub Heads : Rule → List Rule → Type 0
Heads r l = All (λ s. s.priority ≤ℤ r.priority) l

-- Priorities do not rise along the list.
abbrev pub IsSorted : List Rule → Type 0
IsSorted [] = Unit {0}
IsSorted (r ∷ rs) = Heads r rs × IsSorted rs

pub merge-perm : (a b : List Rule) → Perm (merge_by_priority a b) (a ++ b)
unfolding merge_by_priority
merge-perm [] b = Perm.refl b
merge-perm (x ∷ xs) [] = rw append-nil (Perm.refl (x ∷ xs))
merge-perm (x ∷ xs) (y ∷ ys) = elim (Bool-cases (leb_ℤ y.priority x.priority)) [
  | inl e ↦ rw e (Perm.cons x (merge-perm xs (y ∷ ys)))
  | inr e ↦
      rw e (Perm.trans (Perm.cons y (merge-perm (x ∷ xs) ys)) (Perm.symm (perm_middle (x ∷ xs) ys)))
]

pub Heads-trans : (r s : Rule) (l : List Rule) → s.priority ≤ℤ r.priority → Heads s l → Heads r l
Heads-trans r s [] h k = tt
Heads-trans r s (x ∷ l) h k = (omega arith, Heads-trans r s l h k.1)

Heads-merge : (r : Rule) (a b : List Rule) → Heads r a → Heads r b → Heads r (merge_by_priority a b)
unfolding merge_by_priority
Heads-merge r [] b h k = k
Heads-merge r (x ∷ xs) [] h k = h
Heads-merge r (x ∷ xs) (y ∷ ys) h k = elim (Bool-cases (leb_ℤ y.priority x.priority)) [
  | inl e ↦ rw e (h.0, Heads-merge r xs (y ∷ ys) h.1 k)
  | inr e ↦ rw e (k.0, Heads-merge r (x ∷ xs) ys h k.1)
]

pub merge-IsSorted : (a b : List Rule) → IsSorted a → IsSorted b → IsSorted (merge_by_priority a b)
unfolding merge_by_priority
merge-IsSorted [] b h k = k
merge-IsSorted (x ∷ xs) [] h k = h
merge-IsSorted (x ∷ xs) (y ∷ ys) h k = elim (Bool-cases (leb_ℤ y.priority x.priority)) [
  | inl e ↦ rw e (
    Heads-merge x xs (y ∷ ys) h.0 (ground (arith, e), Heads-trans x y ys (ground (arith, e)) k.0),
    merge-IsSorted xs (y ∷ ys) h.1 k,
  )
  | inr e ↦ rw e (
    Heads-merge y (x ∷ xs) ys (ground (arith, e), Heads-trans y x xs (ground (arith, e)) h.0) k.0,
    merge-IsSorted (x ∷ xs) ys h k.1,
  )
]

-- Merging two lists whose priorities do not rise gives such a list, with the rules of both, each as
-- often as there.
pub merge_by_priority_merges :
    (a b : List Rule)
    → IsSorted a
    → IsSorted b
    → IsSorted (merge_by_priority a b) × Perm (merge_by_priority a b) (a ++ b)
merge_by_priority_merges a b h k = (merge-IsSorted a b h k, merge-perm a b)
