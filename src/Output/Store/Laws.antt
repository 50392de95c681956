-- ===== src/Output/Store/Laws.antt =====
-- What the results table keeps (insertBatch, flush of output/writer.go).
use fruitfly.Base.{
  if◌then◌else◌, Bool-cases, Option-cases, if_elim, length, All, Str, str_eq, str_eq_refl,
  str_eq_iff, ℕ, suc, ◌+◌, ◌≡◌, refl, ap, ◌∙◌, subst, ◌⊎◌, inl, inr, Bool, true, false, ◌&&◌, ◌||◌,
  Option, none, some, List, [], ◌∷◌, ◌++◌, arith,
}
use fruitfly.Types.{Result}
use fruitfly.Output.Store.{
  Database, Row, Db, has_id, insert_or_ignore, row_of, make_row, insert_row, insert_all, commit,
  insert_batch, flush,
}

-- No two rows have the same event ID.
abbrev pub IsKeyed : List Row → Type 0
IsKeyed [] = Unit {0}
IsKeyed (r ∷ rs) = (has_id r.event_id rs ≡ false) × IsKeyed rs

-- The row of an event.
unfoldable pub row_at : Str → List Row → Option Row
row_at k [] = none
row_at k (r ∷ rs) = if str_eq r.event_id k then some r else row_at k rs

has_id-append :
    (k : Str) (t : List Row) (r : Row)
    → has_id k (t ++ r ∷ []) ≡ (has_id k t || str_eq r.event_id k)
unfolding has_id
has_id-append k [] r = ground arith
has_id-append k (x ∷ t) r = ground (arith, has_id-append k t r)

append-IsKeyed :
    (t : List Row) (r : Row) → has_id r.event_id t ≡ false → IsKeyed t → IsKeyed (t ++ r ∷ [])
unfolding has_id
append-IsKeyed [] r h k = (refl, tt)
append-IsKeyed (x ∷ t) r h k = (
  has_id-append x.event_id t r
      ∙ ground (arith, h, k.0, str_eq_iff r.event_id x.event_id, str_eq_iff x.event_id r.event_id),
  append-IsKeyed t r (ground (arith, h)) k.1,
)

row_at-append :
    (k : Str) (t : List Row) (r x : Row) → row_at k t ≡ some x → row_at k (t ++ r ∷ []) ≡ some x
unfolding row_at
row_at-append k [] r x h = cc
row_at-append k (y ∷ t) r x h = ground (arith, row_at-append k t r x)

insert_or_ignore-IsKeyed : (r : Row) (t : List Row) → IsKeyed t → IsKeyed (insert_or_ignore r t)
unfolding insert_or_ignore
insert_or_ignore-IsKeyed r t k =
    if_elim IsKeyed (has_id r.event_id t) t (t ++ r ∷ []) (λ _. k) (λ h. append-IsKeyed t r h k)

row_at-insert_or_ignore :
    (r : Row) (t : List Row) (k : Str) (x : Row)
    → row_at k t ≡ some x
    → row_at k (insert_or_ignore r t) ≡ some x
unfolding insert_or_ignore
row_at-insert_or_ignore r t k x h =
    if_elim (λ u. row_at k u ≡ some x) (has_id r.event_id t) t (t ++ r ∷ []) (λ _. h)
      (λ _. row_at-append k t r x h)

has_id-insert_or_ignore : (r : Row) (t : List Row) → has_id r.event_id (insert_or_ignore r t) ≡ true
unfolding insert_or_ignore
has_id-insert_or_ignore r t =
    if_elim (λ u. has_id r.event_id u ≡ true) (has_id r.event_id t) t (t ++ r ∷ []) (λ h. h)
      (λ _. has_id-append r.event_id t r ∙ ground (arith, str_eq_refl r.event_id))

has_id_mono :
    (r : Row) (t : List Row) (k : Str) → has_id k t ≡ true → has_id k (insert_or_ignore r t) ≡ true
unfolding insert_or_ignore
has_id_mono r t k h =
    if_elim (λ u. has_id k u ≡ true) (has_id r.event_id t) t (t ++ r ∷ []) (λ _. h)
      (λ _. has_id-append k t r ∙ ground (arith, h))

-- A later table: keyed if the earlier is, and with every row of the earlier as it was.
pub record Extends (t u : List Row) : Type 0 where
  pub keyed : IsKeyed t → IsKeyed u
  pub rows : (k : Str) (x : Row) → row_at k t ≡ some x → row_at k u ≡ some x
  pub ids : (k : Str) → has_id k t ≡ true → has_id k u ≡ true

Extends-refl : (t : List Row) → Extends t t
Extends-refl t = record { keyed = λ k. k; rows = λ k x h. h; ids = λ k h. h }

Extends-trans : (t u v : List Row) → Extends t u → Extends u v → Extends t v
Extends-trans t u v e f = record {
  keyed = λ k. f.keyed (e.keyed k);
  rows = λ k x h. f.rows k x (e.rows k x h);
  ids = λ k h. f.ids k (e.ids k h);
}

Extends-insert : (r : Row) (t : List Row) → Extends t (insert_or_ignore r t)
Extends-insert r t = record {
  keyed = insert_or_ignore-IsKeyed r t;
  rows = row_at-insert_or_ignore r t;
  ids = has_id_mono r t;
}

id-make_row :
    (d : Database) (r : Result) (a b c : Option Str) (row : Row)
    → make_row d r a b c ≡ some row
    → row.event_id ≡ r.event_id
unfolding make_row
id-make_row d r (some a) (some b) (some c) row h = ground arith
id-make_row d r _ _ _ row h = cc

-- Every result of the batch has a row with its event ID.
abbrev pub AllStored : List Result → List Row → Type 0
AllStored rs t = All (λ (r : Result). has_id r.event_id t ≡ true) rs

AllStored-Extends :
    (rs : List Result) (t u : List Row) → Extends t u → AllStored rs t → AllStored rs u
AllStored-Extends [] t u e h = tt
AllStored-Extends (r ∷ rs) t u e h = (e.ids r.event_id h.0, AllStored-Extends rs t u e h.1)

inserted :
    (d : Database) (n : ℕ) (t u : List Row) (r : Result) (o : Option Row)
    → row_of d r ≡ o
    → insert_row d n t o ≡ some u
    → Extends t u × (has_id r.event_id u ≡ true)
unfolding insert_row row_of
inserted d n t u r none e h = absurd (ground arith)
inserted d n t u r (some row) e h = elim (Bool-cases (d.call_ok n)) [
  | inl c ↦
      (let same : insert_or_ignore row t ≡ u = ground (arith, c) in
        subst (λ v. Extends t v × (has_id r.event_id v ≡ true)) same
          (
            Extends-insert row t,
            rw (← id-make_row d r _ _ _ row e) (has_id-insert_or_ignore row t),
          ))
  | inr c ↦ absurd (ground (arith, c))
]

inserted_all :
    (d : Database) (rs : List Result) (n : ℕ) (t u : List Row)
    → insert_all d n t rs ≡ some u
    → Extends t u × AllStored rs u
unfolding insert_all
inserted_all d [] n t u h =
    let same : t ≡ u = ground arith in subst (λ v. Extends t v × Unit {0}) same (Extends-refl t, tt)
inserted_all d (r ∷ rs) n t u h = elim (Option-cases (insert_row d n t (row_of d r))) [
  | inl e ↦ absurd (ground (arith, rw (e, insert_all) at h))
  | inr (v, e) ↦
      (let (x, i) = inserted d n t v r (row_of d r) refl e in
        let (y, rest) = inserted_all d rs (suc n) v u (rw (e, insert_all) at h) in
        (Extends-trans t v u x y, (y.ids r.event_id i, rest)))
]

-- All of the batch is stored beside what was there, or nothing has changed.
abbrev pub IsAtomic : Db → List Result → Db × Bool → Type 0
IsAtomic db rs q =
    ((q.1 ≡ true) × Extends db.table q.0.table × AllStored rs q.0.table)
    ⊎ ((q.1 ≡ false) × (q.0.table ≡ db.table))

commit-IsAtomic :
    (d : Database) (db : Db) (calls : ℕ) (rs : List Result) (o : Option (List Row))
    → ((t : List Row) → o ≡ some t → Extends db.table t × AllStored rs t)
    → IsAtomic db rs (commit d db calls o)
unfolding commit
commit-IsAtomic d db calls rs none h = inr (refl, refl)
commit-IsAtomic d db calls rs (some t) h =
    if_elim (IsAtomic db rs) (d.call_ok calls) _ _ (λ _. inl (refl, (h t refl).0, (h t refl).1))
      (λ _. inr (refl, refl))

-- insertBatch is atomic: when it succeeds, every result of the batch has a row with its event ID,
-- the rows that stood in the table before stand there unchanged, and event IDs stay unique if they
-- were; when any of its calls fails, the table is as it was.
pub insert_batch-IsAtomic :
    (d : Database) (db : Db) (rs : List Result) → IsAtomic db rs (insert_batch d db rs)
unfolding insert_batch
insert_batch-IsAtomic d db rs =
    if_elim (IsAtomic db rs) (d.call_ok db.calls && d.call_ok (db.calls + 1)) _ _
      (λ _. commit-IsAtomic d db _ rs _ (λ t h. inserted_all d rs (db.calls + 2) db.table t h))
      (λ _. inr (refl, refl))

retried :
    (db : Db) (rs : List Result) (first again : Db × Bool)
    → IsAtomic db rs first
    → IsAtomic first.0 rs again
    → IsAtomic db rs (if first.1 then (first.0, true) else again)
retried db rs first again (inl (e, x, y)) h = rw e (inl (refl, x, y))
retried db rs first again (inr (e, same)) (inl (k, x, y)) =
    rw e (inl (k, subst (λ t. Extends t again.0.table) same x, y))
retried db rs first again (inr (e, same)) (inr (k, kept)) = rw e (inr (k, kept ∙ same))

-- The same of flush, with its retry.
pub flush-IsAtomic : (d : Database) (db : Db) (rs : List Result) → IsAtomic db rs (flush d db rs)
unfolding flush
flush-IsAtomic d db [] = inl (refl, Extends-refl db.table, tt)
flush-IsAtomic d db (r ∷ rs) =
    retried db (r ∷ rs) (insert_batch d db (r ∷ rs))
      (insert_batch d (insert_batch d db (r ∷ rs)).0 (r ∷ rs)) (insert_batch-IsAtomic d db (r ∷ rs))
      (insert_batch-IsAtomic d (insert_batch d db (r ∷ rs)).0 (r ∷ rs))

-- No call of the database fails and every value marshals.
pub record IsHealthy (d : Database) : Type 0 where
  pub calls_ok : (n : ℕ) → d.call_ok n ≡ true
  pub rows_ok : (r : Result) → (row : Row) × (row_of d r ≡ some row)

insert_all_healthy :
    (d : Database) (rs : List Result) (n : ℕ) (t : List Row)
    → IsHealthy d
    → (u : List Row) × (insert_all d n t rs ≡ some u)
unfolding insert_all
insert_all_healthy d [] n t h = (t, refl)
insert_all_healthy d (r ∷ rs) n t h =
    let (row, e) = h.rows_ok r in
    let (u, k) = insert_all_healthy d rs (suc n) (insert_or_ignore row t) h in
    let one : insert_row d n t (row_of d r) ≡ some (insert_or_ignore row t) = stored row e in
    (u, rw (one, insert_all) k)
  where
    stored :
        (row : Row)
        → row_of d r ≡ some row
        → insert_row d n t (row_of d r) ≡ some (insert_or_ignore row t)
    stored row e = ap (insert_row d n t) e ∙ unfold insert_row in rw (h.calls_ok n)

insert_batch_healthy :
    (d : Database) (db : Db) (rs : List Result) → IsHealthy d → (insert_batch d db rs).1 ≡ true
unfolding insert_batch
insert_batch_healthy d db rs h =
    let (u, k) = insert_all_healthy d rs (db.calls + 2) db.table h in
    rw (h.calls_ok db.calls, h.calls_ok (db.calls + 1))
      (ap (λ (o : Option (List Row)). (commit d db (db.calls + 2 + length rs) o).1) k
        ∙ unfold commit in rw (h.calls_ok (db.calls + 2 + length rs)))

first_ok :
    (first again : Db × Bool)
    → first.1 ≡ true
    → (if first.1 then (let r : Db × Bool = (first.0, true) in r) else again).1 ≡ true
first_ok first again e = rw e

pub flush_healthy :
    (d : Database) (db : Db) (rs : List Result) → IsHealthy d → (flush d db rs).1 ≡ true
unfolding flush
flush_healthy d db [] h = refl
flush_healthy d db (r ∷ rs) h =
    first_ok (insert_batch d db (r ∷ rs)) (insert_batch d (insert_batch d db (r ∷ rs)).0 (r ∷ rs))
      (insert_batch_healthy d db (r ∷ rs) h)
