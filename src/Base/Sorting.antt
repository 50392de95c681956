-- ===== src/Base/Sorting.antt =====
-- sort.Strings: the order of Go strings and a sort by it, which any other sort agrees with.
use mathlib.Core.Path.{◌≡◌, refl, ap, ◌∙◌, sym}
use mathlib.Core.Logic.{inl, inr}
use mathlib.Core.Bool.{Bool, true, false, ◌&&◌, ◌||◌}
use mathlib.Core.List.{List, [], ◌∷◌, Permᴰ}
use native.Mathlib.Omega.{arith}
use fruitfly.Base.Tests.{ltb, ◌==◌, if◌then◌else◌, Bool-cases, if_elim}
use fruitfly.Base.Lists.{All}
use fruitfly.Base.Text.{Str}

-- a <= b, byte by byte.
unfoldable pub str_leb : Str → Str → Bool
str_leb [] b = true
str_leb (x ∷ xs) [] = false
str_leb (x ∷ xs) (y ∷ ys) = ltb x y || (x == y && str_leb xs ys)

pub str_leb_total : (a b : Str) → str_leb a b ≡ false → str_leb b a ≡ true
unfolding str_leb
str_leb_total [] b h = cc
str_leb_total (x ∷ xs) [] h = refl
str_leb_total (x ∷ xs) (y ∷ ys) h = ground (arith, str_leb_total xs ys)

pub str_leb_antisymm : (a b : Str) → str_leb a b ≡ true → str_leb b a ≡ true → a ≡ b
unfolding str_leb
str_leb_antisymm [] [] h k = refl
str_leb_antisymm [] (y ∷ ys) h k = cc
str_leb_antisymm (x ∷ xs) [] h k = cc
str_leb_antisymm (x ∷ xs) (y ∷ ys) h k = ground (arith, str_leb_antisymm xs ys)

pub str_leb_trans : (a b c : Str) → str_leb a b ≡ true → str_leb b c ≡ true → str_leb a c ≡ true
unfolding str_leb
str_leb_trans [] b c h k = refl
str_leb_trans (x ∷ xs) [] c h k = cc
str_leb_trans (x ∷ xs) (y ∷ ys) [] h k = cc
str_leb_trans (x ∷ xs) (y ∷ ys) (z ∷ zs) h k = ground (arith, str_leb_trans xs ys zs)

unfoldable pub insert_sorted : Str → List Str → List Str
insert_sorted x [] = x ∷ []
insert_sorted x (y ∷ ys) = if str_leb x y then x ∷ y ∷ ys else y ∷ insert_sorted x ys

unfoldable pub sort_strings : List Str → List Str
unfolding insert_sorted
sort_strings [] = []
sort_strings (x ∷ xs) = insert_sorted x (sort_strings xs)

module _ (x y : Str) (ys : List Str) where
  insert_before : str_leb x y ≡ true → insert_sorted x (y ∷ ys) ≡ x ∷ y ∷ ys
  unfolding insert_sorted
  insert_before h = rw h refl

  insert_after : str_leb x y ≡ false → insert_sorted x (y ∷ ys) ≡ y ∷ insert_sorted x ys
  unfolding insert_sorted
  insert_after h = rw h refl

-- Two insertions commute, the smaller one named first.
insert_below :
    (x y : Str) (l : List Str)
    → str_leb x y ≡ true
    → str_leb y x ≡ false
    → insert_sorted x (insert_sorted y l) ≡ insert_sorted y (insert_sorted x l)
unfolding insert_sorted
insert_below x y [] h k = rw (h, k) refl
insert_below x y (z ∷ zs) h k = elim (Bool-cases (str_leb y z)) [
  | inl a ↦
      ap (insert_sorted x) (insert_before y z zs a)
      ∙ insert_before x y (z ∷ zs) h
      ∙ sym (
          ap (insert_sorted y) (insert_before x z zs (str_leb_trans x y z h a))
          ∙ insert_after y x (z ∷ zs) k
          ∙ ap (λ l. x ∷ l) (insert_before y z zs a))
  | inr a ↦ ap (insert_sorted x) (insert_after y z zs a) ∙ elim (Bool-cases (str_leb x z)) [
    | inl b ↦
        insert_before x z (insert_sorted y zs) b
        ∙ sym (
            ap (insert_sorted y) (insert_before x z zs b)
            ∙ insert_after y x (z ∷ zs) k
            ∙ ap (λ l. x ∷ l) (insert_after y z zs a))
    | inr b ↦
        insert_after x z (insert_sorted y zs) b
        ∙ ap (λ l. z ∷ l) (insert_below x y zs h k)
        ∙ sym
            (ap (insert_sorted y) (insert_after x z zs b) ∙ insert_after y z (insert_sorted x zs) a)
  ]
]

pub insert_sorted_comm :
    (x y : Str) (l : List Str)
    → insert_sorted x (insert_sorted y l) ≡ insert_sorted y (insert_sorted x l)
insert_sorted_comm x y l = elim (Bool-cases (str_leb x y)) [
  | inr a ↦ sym (insert_below y x l (str_leb_total x y a) a)
  | inl a ↦ elim (Bool-cases (str_leb y x)) [
    | inl b ↦ same (str_leb_antisymm x y a b)
    | inr b ↦ insert_below x y l a b
  ]
]
  where
    same : x ≡ y → insert_sorted x (insert_sorted y l) ≡ insert_sorted y (insert_sorted x l)
    same e = rw e refl

-- The sorted list depends on the members only, not on their order.
pub sort_strings-perm : {xs ys : List Str} → Permᴰ xs ys → sort_strings xs ≡ sort_strings ys
unfolding sort_strings
sort_strings-perm Permᴰ.nil = refl
sort_strings-perm (Permᴰ.cons {a} {b} {l₁} {l₂} e p) =
    ap (insert_sorted a) (sort_strings-perm p) ∙ ap (λ x. insert_sorted x (sort_strings l₂)) e
sort_strings-perm (Permᴰ.swap {a} {b} {a'} {b'} {l} e f) =
    insert_sorted_comm a b (sort_strings l)
    ∙ ap (λ x. insert_sorted x (insert_sorted a (sort_strings l))) f
    ∙ ap (λ x. insert_sorted a' (insert_sorted x (sort_strings l))) e
sort_strings-perm (Permᴰ.trans p q) = sort_strings-perm p ∙ sort_strings-perm q

-- No string comes before its predecessor.
abbrev pub IsAscending : List Str → Type 0
IsAscending [] = Unit {0}
IsAscending (x ∷ xs) = All (λ y. str_leb x y ≡ true) xs × IsAscending xs

All-above :
    (x y : Str) (l : List Str)
    → str_leb x y ≡ true
    → All (λ z. str_leb y z ≡ true) l
    → All (λ z. str_leb x z ≡ true) l
All-above x y [] h a = tt
All-above x y (z ∷ l) h a = (str_leb_trans x y z h a.0, All-above x y l h a.1)

All-insert_sorted :
    (P : Str → Type 0) (x : Str) (l : List Str) → P x → All P l → All P (insert_sorted x l)
unfolding insert_sorted
All-insert_sorted P x [] h a = (h, tt)
All-insert_sorted P x (y ∷ ys) h a =
    if_elim (All P) (str_leb x y) _ _ (λ _. (h, a)) (λ _. (a.0, All-insert_sorted P x ys h a.1))

insert_sorted-IsAscending :
    (x : Str) (l : List Str) → IsAscending l → IsAscending (insert_sorted x l)
unfolding insert_sorted
insert_sorted-IsAscending x [] s = (tt, tt)
insert_sorted-IsAscending x (y ∷ ys) s = elim (Bool-cases (str_leb x y)) [
  | inl a ↦ rw a ((a, All-above x y ys a s.0), s)
  | inr a ↦ rw a (
    All-insert_sorted (λ z. str_leb y z ≡ true) x ys (str_leb_total x y a) s.0,
    insert_sorted-IsAscending x ys s.1,
  )
]

pub sort_strings-IsAscending : (l : List Str) → IsAscending (sort_strings l)
unfolding sort_strings
sort_strings-IsAscending [] = tt
sort_strings-IsAscending (x ∷ l) =
    insert_sorted-IsAscending x (sort_strings l) (sort_strings-IsAscending l)
