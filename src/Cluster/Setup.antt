-- ===== src/Cluster/Setup.antt =====
-- What NewRouter of cluster/router.go accepts.
use fruitfly.Base.{
  if◌then◌else◌, Bool-cases, In, Str, str_eq, str_eq→eq, str_eq_refl, ◌≡◌, refl, sym, ◌↔◌, ◌⊎◌, inl,
  inr, true, ◌||◌, List, [], ◌∷◌, ◌++◌, map, arith,
}
use fruitfly.Cluster.{
  Router, ready, failed, self_not_in_peers, trim_slashes, contains, set_up, new_router,
}

contains-In : (s : Str) (ps : List Str) → (contains s ps ≡ true) ↔ In s ps
unfolding contains
contains-In s [] = (λ h. cc, λ x. absurd x)
contains-In s (p ∷ ps) = (to (contains-In s ps).0, from (contains-In s ps).1)
  where
    to : (contains s ps ≡ true → In s ps) → (str_eq p s || contains s ps) ≡ true → (s ≡ p) ⊎ In s ps
    to rest h = elim (Bool-cases (str_eq p s)) [
      | inl e ↦ inl (sym (str_eq→eq p s e))
      | inr e ↦ inr (rest (ground (arith, e)))
    ]

    from :
        (In s ps → contains s ps ≡ true) → (s ≡ p) ⊎ In s ps → (str_eq p s || contains s ps) ≡ true
    from rest (inl e) = rw (e, str_eq_refl p)
    from rest (inr i) = ground (arith, rest i)

-- A router starts exactly when this process's own URL, less its trailing slashes, is among the peers'
-- less theirs; it then holds these trimmed URLs, in the order given.
pub new_router_iff :
    (self : Str) (peers : List Str) (r : Router)
    → (new_router self peers ≡ ready r) ↔ (
        In (trim_slashes self) (map trim_slashes peers)
        × (r ≡ record { self = trim_slashes self; peers = map trim_slashes peers }))
unfolding new_router set_up
new_router_iff self [] r = (λ h. cc, λ h. absurd h.0)
new_router_iff self (p ∷ ps) r = (to, from)
  where
    own : Str
    own = trim_slashes self

    names : List Str
    names = map trim_slashes (p ∷ ps)

    to :
        (if contains own names
            then ready (record { self = own; peers = names })
            else failed self_not_in_peers)
          ≡ ready r
        → In own names × (r ≡ record { self = own; peers = names })
    to h = elim (Bool-cases (contains own names)) [
      | inl e ↦ ((contains-In own names).0 e, ground (arith, e))
      | inr e ↦ absurd (ground (arith, e))
    ]

    from :
        In own names × (r ≡ record { self = own; peers = names })
        → (if contains own names
            then ready (record { self = own; peers = names })
            else failed self_not_in_peers)
          ≡ ready r
    from (i, e) = rw ((contains-In own names).1 i, e)

-- A trailing slash more or less makes no other URL.
pub trim_slashes-append : (s : Str) → trim_slashes (s ++ b'/' ∷ []) ≡ trim_slashes s
unfolding trim_slashes
trim_slashes-append [] = refl
trim_slashes-append (c ∷ s) = rw (trim_slashes-append s)
