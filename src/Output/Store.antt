-- ===== src/Output/Store.antt =====
-- The results table and its batch insertion: createSchema, insertBatch and flush of output/writer.go.
-- DuckDB is the record `Database`: whether its n-th call succeeds, and json.Marshal's outcomes. A
-- transaction works on a copy that the commit installs.
use fruitfly.Base.{
  ltb, leb, ◌==◌, if◌then◌else◌, leb→le, le→leb, ltb→lt, ==_iff, &&-true, Bool-cases, Option-cases,
  if_elim, is_some, length, get_or, set, replicate, take, drop, All, In, select, count_if,
  length-append, length-set, All-append, All-In, In-append_left, In-append_right, In-append,
  select-true, select-false, select-append, length-select-le, Str, str, str_eq, str_eq→eq,
  str_eq_refl, str_eq_iff, has_prefix, ℤ, pos, negsuc, pos_part, neg_part, ◌≤ℤ◌, ◌<ℤ◌, ltb_ℤ, leb_ℤ,
  eq_ℤ, eq_ℤ→eq, ≤ℤ_antisymm, StrMap, lookup, insert, lookup-insert, ℕ, zero, suc, ◌+◌, ◌-◌, ◌*◌,
  ◌/◌, ◌%◌, ◌^◌, ◌≤◌, ◌<◌, ◌≡◌, refl, sym, ap, ◌∙◌, subst, ◌≢◌, ◌↔◌, ◌⊎◌, inl, inr, Bool, true,
  false, ◌&&◌, ◌||◌, not, Option, none, some, List, [], ◌∷◌, ◌++◌, map, arith,
}
use fruitfly.Types.{Fields, RuleResult, Result}
pub mod Laws
pub mod Retry

pub record Database : Type 0 where
  pub call_ok : ℕ → Bool
  pub marshal_rules : List RuleResult → Option Str
  pub marshal_payload : Fields → Option Str
  pub now : ℕ

pub record Row : Type 0 where
  pub event_id : Str
  pub event_type : Str
  pub verdict : Str
  pub triggered_rules : Str
  pub failed_rules : Str
  pub payload : Str
  pub latency_us : ℕ
  pub processed_at : ℕ

-- The table, and the number of calls made so far.
pub record Db : Type 0 where
  pub table : List Row
  pub calls : ℕ

unfoldable pub has_id : Str → List Row → Bool
has_id k [] = false
has_id k (r ∷ rs) = str_eq r.event_id k || has_id k rs

-- INSERT OR IGNORE over the primary key event_id.
unfoldable pub insert_or_ignore : Row → List Row → List Row
unfolding has_id
insert_or_ignore r t = if has_id r.event_id t then t else t ++ r ∷ []

abbrev is_empty : Str → Bool
is_empty [] = true
is_empty (_ ∷ _) = false

-- The raw payload where there is one.
unfoldable pub payload_json : Database → Result → Option Str
payload_json d r =
    if is_empty r.raw_payload then d.marshal_payload r.payload else some r.raw_payload

unfoldable pub make_row : Database → Result → Option Str → Option Str → Option Str → Option Row
make_row d r (some triggered) (some failed) (some payload) = some (record {
  event_id = r.event_id;
  event_type = r.event_type;
  verdict = r.final_verdict;
  triggered_rules = triggered;
  failed_rules = failed;
  payload = payload;
  latency_us = r.latency_us;
  processed_at = if r.processed_at == 0 then d.now else r.processed_at;
})
make_row d r _ _ _ = none

unfoldable pub row_of : Database → Result → Option Row
unfolding make_row payload_json
row_of d r =
    make_row d r (d.marshal_rules r.triggered_rules) (d.marshal_rules r.failed_rules)
      (payload_json d r)

insert_row : Database → ℕ → List Row → Option Row → Option (List Row)
unfolding insert_or_ignore
insert_row d n t none = none
insert_row d n t (some row) = if d.call_ok n then some (insert_or_ignore row t) else none

-- The loop of insertBatch over the copy; `n` numbers the statements. None is an error.
unfoldable pub insert_all : Database → ℕ → List Row → List Result → Option (List Row)
unfolding insert_row row_of
insert_all d n t [] = some t
insert_all d n t (r ∷ rs) = elim (insert_row d n t (row_of d r)) [
  | none ↦ none
  | some t' ↦ insert_all d (suc n) t' rs
]

commit : Database → Db → ℕ → Option (List Row) → Db × Bool
commit d db calls none = (record db { calls = calls }, false)
commit d db calls (some t) =
    if d.call_ok calls
    then (record { table = t; calls = suc calls }, true)
    else (record db { calls = suc calls }, false)

-- Begin, prepare, one statement for each result, commit; the deferred rollback undoes the rest.
unfoldable pub insert_batch : Database → Db → List Result → Db × Bool
unfolding insert_all commit
insert_batch d db batch =
    if d.call_ok db.calls && d.call_ok (db.calls + 1)
    then commit d db (db.calls + 2 + length batch) (insert_all d (db.calls + 2) db.table batch)
    else (record db { calls = db.calls + 2 }, false)

-- flush: one retry, and then the batch is dropped. The result says whether it was stored.
unfoldable pub flush : Database → Db → List Result → Db × Bool
unfolding insert_batch
flush d db [] = (db, true)
flush d db (r ∷ rs) =
    let (db', ok) = insert_batch d db (r ∷ rs) in
    let again = insert_batch d db' (r ∷ rs) in if ok then (db', true) else again

abbrev pub retention_seconds : ℕ
retention_seconds = 30 * 86400

-- The rows that DELETE … WHERE processed_at < now - 30 days leaves.
unfoldable pub retain : ℕ → List Row → List Row
retain now t = select (λ r. leb now (r.processed_at + retention_seconds)) t

-- runRetention; a failure is only logged.
unfoldable pub run_retention : Database → Db → ℕ → Db
unfolding retain
run_retention d db now =
    if d.call_ok db.calls
    then record { table = retain now db.table; calls = suc db.calls }
    else record db { calls = suc db.calls }
