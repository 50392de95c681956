-- ===== src/Tests/Peers.antt =====
-- Runs of cluster/router.go.
use fruitfly.Base.{
  In, Str, str, ◌≡◌, refl, sym, ap, ◌∙◌, ◌≢◌, ◌⊎◌, inl, inr, List, [], ◌∷◌, ◌++◌, arith,
}
use fruitfly.Cluster.{Router, fnv_sum, mix64, score, owner}
use fruitfly.Cluster.Ownership.{AllNamed, IsTop, owner-IsTop, owner-insert}

abbrev two_peers : List Str
two_peers = str "a" ∷ str "b" ∷ []

two_peers-AllNamed : AllNamed two_peers
two_peers-AllNamed = (refl, (refl, tt))

owner-IsTop_example :
    IsTop
      (fnv_sum (str "u1"))
      two_peers
      (owner (record { self = str "a"; peers = two_peers }) (str "u1")).0
owner-IsTop_example = owner-IsTop (str "a") (str "a") (str "b" ∷ []) (str "u1") two_peers-AllNamed

scores_differ : score (fnv_sum (str "u1")) (str "a") ≢ score (fnv_sum (str "u1")) (str "b")
unfolding score fnv_sum mix64
scores_differ h = omega arith

apart :
    (p q : Str)
    → In p two_peers
    → In q two_peers
    → score (fnv_sum (str "u1")) p ≡ score (fnv_sum (str "u1")) q
    → p ≡ q
apart p q (inl e) (inl f) h = e ∙ sym f
apart p q (inl e) (inr (inl f)) h = absurd (
    scores_differ (sym (ap (score (fnv_sum (str "u1"))) e) ∙ h ∙ ap (score (fnv_sum (str "u1"))) f))
apart p q (inr (inl e)) (inl f) h = absurd (
    scores_differ
      (sym (ap (score (fnv_sum (str "u1"))) f) ∙ sym h ∙ ap (score (fnv_sum (str "u1"))) e))
apart p q (inr (inl e)) (inr (inl f)) h = e ∙ sym f
apart p q (inr (inr x)) i h = absurd x
apart p q i (inr (inr x)) h = absurd x

abbrev at_a : Router
at_a = record { self = str "a"; peers = two_peers }

abbrev at_b : Router
at_b = record { self = str "b"; peers = str "b" ∷ str "a" ∷ [] }

turned : (p : Str) (x y : Str) → In p (x ∷ y ∷ []) → In p (y ∷ x ∷ [])
turned p x y (inl e) = inr (inl e)
turned p x y (inr (inl e)) = inl e
turned p x y (inr (inr z)) = absurd z

owner-insert_example :
    ((owner
        (record { self = str "a"; peers = (str "a" ∷ []) ++ str "c" ∷ str "b" ∷ [] })
        (str "u1")).0
      ≡ str "c")
    ⊎ ((owner
          (record { self = str "a"; peers = (str "a" ∷ []) ++ str "c" ∷ str "b" ∷ [] })
          (str "u1")).0
        ≡ (owner (record { self = str "a"; peers = (str "a" ∷ []) ++ str "b" ∷ [] }) (str "u1")).0)
owner-insert_example =
    owner-insert (str "a") (str "c") (str "a" ∷ []) (str "b" ∷ []) (str "u1")
      (refl, (refl, (refl, tt)))
