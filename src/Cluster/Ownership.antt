-- ===== src/Cluster/Ownership.antt =====
-- Who owns a key (Router.Owner of cluster/router.go).
use fruitfly.Base.{
  ltb, Bool-cases, All, In, Str, ℕ, ◌≤◌, ◌≡◌, refl, sym, ◌∙◌, subst, ◌↔◌, ◌⊎◌, inl, inr, true,
  false, ◌||◌, List, [], ◌∷◌, ◌++◌, arith,
}
use fruitfly.Cluster.{Router, is_empty, fnv_sum, score, owner_loop, owner}

abbrev pub AllNamed : List Str → Type 0
AllNamed ps = All (λ p. is_empty p ≡ false) ps

-- `p` is one of the peers and none scores more for the key.
abbrev pub IsTop : ℕ → List Str → Str → Type 0
IsTop h ps p = In p ps × ((q : Str) → In q ps → score h q ≤ score h p)

module _ (h : ℕ) (best : Str) (best_score : ℕ) (p : Str) (ps : List Str) where
  step_replaced :
      (is_empty best || ltb best_score (score h p)) ≡ true
      → owner_loop h best best_score (p ∷ ps) ≡ owner_loop h p (score h p) ps
  unfolding owner_loop
  step_replaced w = rw w

  step_kept :
      (is_empty best || ltb best_score (score h p)) ≡ false
      → owner_loop h best best_score (p ∷ ps) ≡ owner_loop h best best_score ps
  unfolding owner_loop
  step_kept w = rw w

owner_loop-IsTop :
    (h : ℕ) (best : Str) (ps : List Str)
    → is_empty best ≡ false
    → AllNamed ps
    → IsTop h (best ∷ ps) (owner_loop h best (score h best) ps)
owner_loop-IsTop h best [] e a =
    let last : owner_loop h best (score h best) [] ≡ best = unfold owner_loop in refl in
    subst (IsTop h (best ∷ [])) (sym last)
      (inl refl, λ q i. elim i [ inl p ↦ rw p (omega arith) | inr x ↦ absurd x ])
owner_loop-IsTop h best (p ∷ ps) e a = elim (Bool-cases (ltb (score h best) (score h p))) [
  | inl w ↦
      subst (IsTop h (best ∷ p ∷ ps)) (sym (step_replaced h best (score h best) p ps (rw (e, w))))
        (later w (owner_loop-IsTop h p ps a.0 a.1))
  | inr w ↦
      subst (IsTop h (best ∷ p ∷ ps)) (sym (step_kept h best (score h best) p ps (rw (e, w))))
        (stays w (owner_loop-IsTop h best ps e a.1))
]
  where
    later :
        {o : Str}
        → ltb (score h best) (score h p) ≡ true
        → IsTop h (p ∷ ps) o
        → IsTop h (best ∷ p ∷ ps) o
    later w (i, top) =
        (inr i, λ q j. elim j [ inl x ↦ rw x (ground (arith, top p (inl refl))) | inr k ↦ top q k ])

    stays :
        {o : Str}
        → ltb (score h best) (score h p) ≡ false
        → IsTop h (best ∷ ps) o
        → IsTop h (best ∷ p ∷ ps) o
    stays w (i, top) = (
      elim i [ inl x ↦ inl x | inr k ↦ inr (inr k) ],
      λ q j. elim j [
        | inl x ↦ top q (inl x)
        | inr (inl x) ↦ rw x (ground (arith, top best (inl refl)))
        | inr (inr k) ↦ top q (inr k)
      ],
    )

-- With at least one peer, none of them with an empty name, the owner of a key is one of the peers and
-- no peer scores more for the key.
pub owner-IsTop :
    (self : Str) (p : Str) (ps : List Str) (key : Str)
    → AllNamed (p ∷ ps)
    → IsTop (fnv_sum key) (p ∷ ps) (owner (record { self = self; peers = p ∷ ps }) key).0
unfolding owner
owner-IsTop self p ps key a =
    subst (IsTop (fnv_sum key) (p ∷ ps)) (sym (step_replaced (fnv_sum key) [] 0 p ps refl))
      (owner_loop-IsTop (fnv_sum key) p ps a.0 a.1)

top_agreed :
    (self other : Str) (xs ys : List Str) (key : Str)
    → AllNamed xs
    → AllNamed ys
    → ((p : Str) → In p xs ↔ In p ys)
    → ((p q : Str) → In p xs → In q xs → score (fnv_sum key) p ≡ score (fnv_sum key) q → p ≡ q)
    → (owner (record { self = self; peers = xs }) key).0
      ≡ (owner (record { self = other; peers = ys }) key).0
unfolding owner owner_loop
top_agreed self other [] [] key a b same distinct = refl
top_agreed self other [] (y ∷ ys) key a b same distinct = absurd ((same y).1 (inl refl))
top_agreed self other (x ∷ xs) [] key a b same distinct = absurd ((same x).0 (inl refl))
top_agreed self other (x ∷ xs) (y ∷ ys) key a b same distinct =
    let (i, m) = owner-IsTop self x xs key a in
    let (j, n) = owner-IsTop other y ys key b in
    distinct _ _ i ((same _).1 j) (omega (arith, m _ ((same _).1 j), n _ ((same _).0 i)))

-- Two peers with the same members in their lists, in any order and whoever they are, agree on the
-- owner of a key when no two peers score the same for it.
pub owner_agreed :
    (r s : Router) (key : Str)
    → AllNamed r.peers
    → AllNamed s.peers
    → ((p : Str) → In p r.peers ↔ In p s.peers)
    → ((p q : Str)
        → In p r.peers
        → In q r.peers
        → score (fnv_sum key) p ≡ score (fnv_sum key) q
        → p ≡ q)
    → (owner r key).0 ≡ (owner s key).0
owner_agreed r s key = top_agreed r.self s.self r.peers s.peers key

-- What is left of a race in which `p` is ahead of `best`.
raced :
    (h : ℕ) (p best : Str) (best_score : ℕ) (ys : List Str)
    → is_empty p ≡ false
    → AllNamed ys
    → (is_empty best ≡ true) ⊎ (best_score ≤ score h p)
    → (owner_loop h p (score h p) ys ≡ p)
      ⊎ (owner_loop h p (score h p) ys ≡ owner_loop h best best_score ys)
raced h p best best_score [] e a ahead = inl (unfold owner_loop in refl)
raced h p best best_score (y ∷ ys) e a ahead = elim (Bool-cases (ltb (score h p) (score h y))) [
  | inl w ↦ inr (
      step_replaced h p (score h p) y ys (rw (e, w))
      ∙ sym (step_replaced h best best_score y ys (ground arith)))
  | inr w ↦
      (let kept = step_kept h p (score h p) y ys (rw (e, w)) in
        elim (Bool-cases (is_empty best || ltb best_score (score h y))) [
          | inl v ↦
              rw (kept, step_replaced h best best_score y ys v)
                (raced h p y (score h y) ys e a.1 (inr (ground arith)))
          | inr v ↦
              rw (kept, step_kept h best best_score y ys v)
                (raced h p best best_score ys e a.1 ahead)
        ])
]

-- The loop over a list with one more peer ends with that peer, or as it ends over the list without.
inserted_loop :
    (h : ℕ) (best : Str) (best_score : ℕ) (p : Str) (xs ys : List Str)
    → AllNamed (xs ++ p ∷ ys)
    → (owner_loop h best best_score (xs ++ p ∷ ys) ≡ p)
      ⊎ (owner_loop h best best_score (xs ++ p ∷ ys) ≡ owner_loop h best best_score (xs ++ ys))
inserted_loop h best best_score p [] ys a =
    elim (Bool-cases (is_empty best || ltb best_score (score h p))) [
      | inl v ↦
          rw (step_replaced h best best_score p ys v)
            (raced h p best best_score ys a.0 a.1 (ground arith))
      | inr v ↦ inr (step_kept h best best_score p ys v)
    ]
inserted_loop h best best_score p (x ∷ xs) ys a =
    elim (Bool-cases (is_empty best || ltb best_score (score h x))) [
      | inl v ↦
          rw
            (
              step_replaced h best best_score x (xs ++ p ∷ ys) v,
              step_replaced h best best_score x (xs ++ ys) v,
            )
            (inserted_loop h x (score h x) p xs ys a.1)
      | inr v ↦
          rw
            (
              step_kept h best best_score x (xs ++ p ∷ ys) v,
              step_kept h best best_score x (xs ++ ys) v,
            )
            (inserted_loop h best best_score p xs ys a.1)
    ]

-- Adding a peer anywhere in the list, or taking one away, moves only keys that this peer owns in the
-- longer list: every other key keeps its owner. The peers have non-empty names.
pub owner-insert :
    (self p : Str) (xs ys : List Str) (key : Str)
    → AllNamed (xs ++ p ∷ ys)
    → ((owner (record { self = self; peers = xs ++ p ∷ ys }) key).0 ≡ p)
      ⊎ ((owner (record { self = self; peers = xs ++ p ∷ ys }) key).0
          ≡ (owner (record { self = self; peers = xs ++ ys }) key).0)
unfolding owner
owner-insert self p xs ys key a = inserted_loop (fnv_sum key) [] 0 p xs ys a
