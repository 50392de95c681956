-- ===== src/Output/Store/Retry.antt =====
-- When flush of output/writer.go gives a batch up.
use fruitfly.Base.{
  if◌then◌else◌, Bool-cases, if_elim, length, In, ℕ, suc, ◌+◌, ◌≤◌, ◌<◌, ◌≡◌, refl, ◌⊎◌, inl, inr,
  Bool, true, false, ◌&&◌, Option, none, some, List, [], ◌∷◌, arith,
}
use fruitfly.Types.{Result}
use fruitfly.Output.Store.{
  Database, Row, Db, row_of, insert_row, insert_all, commit, insert_batch, flush,
}
use fruitfly.Output.Store.Laws.{AllStored, Extends, flush-IsAtomic}

module _ (d : Database) where
  -- A call with a number in the range fails.
  abbrev Fails : ℕ → ℕ → Type 0
  Fails from until = (m : ℕ) × (from ≤ m) × (m < until) × (d.call_ok m ≡ false)

  -- A result of the batch cannot be made a row, as it does not marshal.
  abbrev pub HasUnmarshalled : List Result → Type 0
  HasUnmarshalled rs = (r : Result) × In r rs × (row_of d r ≡ none)

  row_fails :
      (n : ℕ) (t : List Row) (r : Result) (o : Option Row)
      → row_of d r ≡ o
      → insert_row d n t o ≡ none
      → (d.call_ok n ≡ false) ⊎ (row_of d r ≡ none)
  unfolding insert_row
  row_fails n t r none e h = inr e
  row_fails n t r (some row) e h = elim (Bool-cases (d.call_ok n)) [
    | inl c ↦ absurd (cc (rw c at h))
    | inr c ↦ inl c
  ]

  insert_all-Fails :
      (rs : List Result) (n : ℕ) (t : List Row)
      → insert_all d n t rs ≡ none
      → Fails n (n + length rs) ⊎ HasUnmarshalled rs
  unfolding insert_all
  insert_all-Fails [] n t h = cc
  insert_all-Fails (r ∷ rs) n t h =
      by_row (insert_row d n t (row_of d r)) refl h (λ u k. insert_all-Fails rs (suc n) u k)
    where
      by_row :
          (o : Option (List Row))
          → insert_row d n t (row_of d r) ≡ o
          → (elim o [ none ↦ none | some u ↦ insert_all d (suc n) u rs ]) ≡ none
          → ((u : List Row)
              → insert_all d (suc n) u rs ≡ none
              → Fails (suc n) (suc n + length rs) ⊎ HasUnmarshalled rs)
          → Fails n (n + length (r ∷ rs)) ⊎ HasUnmarshalled (r ∷ rs)
      by_row none e k rest = elim (row_fails n t r (row_of d r) refl e) [
        | inl c ↦ inl (n, omega arith, omega arith, c)
        | inr c ↦ inr (r, inl refl, c)
      ]
      by_row (some u) e k rest = elim (rest u k) [
        | inl (m, a, b, c) ↦ inl (m, omega arith, omega arith, c)
        | inr (x, i, c) ↦ inr (x, inr i, c)
      ]

  -- One of the calls of a failed attempt failed, or a result does not marshal.
  abbrev Excused : Db → List Result → Db × Bool → Type 0
  Excused db rs q = q.1 ≡ false → Fails db.calls q.0.calls ⊎ HasUnmarshalled rs

  commit-Excused :
      (db : Db) (n : ℕ) (rs : List Result) (o : Option (List Row))
      → db.calls ≤ n
      → (o ≡ none → Fails db.calls n ⊎ HasUnmarshalled rs)
      → Excused db rs (commit d db n o)
  unfolding commit
  commit-Excused db n rs none l h = λ _. h refl
  commit-Excused db n rs (some t) l h =
      if_elim (Excused db rs) (d.call_ok n) _ _ (λ _ e. cc) (λ c _. inl (n, l, omega arith, c))

  begin-Fails : (n : ℕ) → (d.call_ok n && d.call_ok (n + 1)) ≡ false → Fails n (n + 2)
  begin-Fails n h = elim (Bool-cases (d.call_ok n)) [
    | inl c ↦ (n + 1, omega arith, omega arith, rw c at h)
    | inr c ↦ (n, omega arith, omega arith, c)
  ]

  later-Fails : (from since until : ℕ) → from ≤ since → Fails since until → Fails from until
  later-Fails from since until l (m, a, b, c) = (m, omega arith, b, c)

  insert_batch-Excused : (db : Db) (rs : List Result) → Excused db rs (insert_batch d db rs)
  unfolding insert_batch
  insert_batch-Excused db rs =
      if_elim (Excused db rs) (d.call_ok db.calls && d.call_ok (db.calls + 1)) _ _
        (λ _. commit-Excused db (db.calls + 2 + length rs) rs _ (omega arith) (λ h.
          elim (insert_all-Fails rs (db.calls + 2) db.table h) [
            | inl f ↦
                inl (later-Fails db.calls (db.calls + 2) (db.calls + 2 + length rs) (omega arith) f)
            | inr u ↦ inr u
          ]))
        (λ c _. inl (begin-Fails db.calls c))

  -- Two calls with numbers in the range failed.
  abbrev pub FailTwice : ℕ → ℕ → Type 0
  FailTwice from until =
      (m : ℕ) × (n : ℕ) × (from ≤ m)
      × (m < n)
      × (n < until)
      × (d.call_ok m ≡ false)
      × (d.call_ok n ≡ false)

  retried-Excused :
      (db : Db) (rs : List Result) (first again : Db × Bool)
      → Excused db rs first
      → Excused first.0 rs again
      → (let last = if first.1 then (first.0, true) else again in
          last.1 ≡ false → FailTwice db.calls last.0.calls ⊎ HasUnmarshalled rs)
  retried-Excused db rs (db', true) again f g h = cc
  retried-Excused db rs (db', false) again f g h = elim (f refl) [
    | inl (m, a, b, c) ↦ elim (g h) [
      | inl (n, x, y, z) ↦ inl (m, n, a, omega arith, y, c, z)
      | inr u ↦ inr u
    ]
    | inr u ↦ inr u
  ]

  flush_excused :
      (db : Db) (rs : List Result)
      → (flush d db rs).1 ≡ false
      → FailTwice db.calls (flush d db rs).0.calls ⊎ HasUnmarshalled rs
  unfolding flush
  flush_excused db [] h = cc
  flush_excused db (r ∷ rs) h =
      let first = insert_batch d db (r ∷ rs) in
      retried-Excused db (r ∷ rs) first (insert_batch d first.0 (r ∷ rs))
        (insert_batch-Excused db (r ∷ rs)) (insert_batch-Excused first.0 (r ∷ rs)) h

  -- flush stores a batch or leaves the table alone, and gives up only after a second failure. When it
  -- succeeds, every result of the batch has a row with its event ID, the rows that stood in the table
  -- stand there unchanged, and event IDs stay unique if they were. When it fails, the table is as it
  -- was, and two of the calls of the database that it made have failed, or a result of the batch does
  -- not marshal.
  pub flush_outcome :
      (db : Db) (rs : List Result)
      → (((flush d db rs).1 ≡ true)
          × Extends db.table (flush d db rs).0.table
          × AllStored rs (flush d db rs).0.table)
        ⊎ (((flush d db rs).1 ≡ false)
            × ((flush d db rs).0.table ≡ db.table)
            × (FailTwice db.calls (flush d db rs).0.calls ⊎ HasUnmarshalled rs))
  flush_outcome db rs = elim (flush-IsAtomic d db rs) [
    | inl stored ↦ inl stored
    | inr (failed, kept) ↦ inr (failed, kept, flush_excused db rs failed)
  ]
