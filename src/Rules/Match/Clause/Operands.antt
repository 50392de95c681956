-- ===== src/Rules/Match/Clause/Operands.antt =====
-- The values that the clauses of a lowered match take (rules/match.go).
use fruitfly.Base.{
  if◌then◌else◌, Bool-cases, if_elim, Str, str, str_eq, ◌≡◌, refl, inl, inr, Bool, true, false,
  ◌&&◌, arith,
}
use fruitfly.Types.{Json, null, boolean, number, int64, text, array, object, Items, nil, cons}
use fruitfly.Starlark
use fruitfly.Starlark.{
  Value, bool, int, float, string, list, dict, Values, no_values, elem, no_entries, entry,
}
use fruitfly.Rules.Match.{is_order}
use fruitfly.Rules.Match.Float.{float_of}
use fruitfly.Rules.Match.Clause.{
  fits_int64, int_overflow, exists_takes_no_value, value_required, Lowered, ok, err, and_then,
  lower_scalar, scalar_type, lower_items, lower_in, check_prefix, check_order, lower_constant,
  lower_value,
}

is_constant : Json → Bool
is_constant (text s) = true
is_constant (number n) = true
is_constant (boolean b) = true
is_constant _ = false

all_of_type : Str → Items → Bool
unfolding is_constant
all_of_type t nil = true
all_of_type t (cons v vs) = (is_constant v && str_eq (scalar_type v) t) && all_of_type t vs

-- A list of at least one constant, all of one type.
is_uniform : Json → Bool
unfolding all_of_type
is_uniform (array (cons v vs)) = is_constant v && all_of_type (scalar_type v) vs
is_uniform _ = false

-- The values that the operators take.
unfoldable pub fits : Str → Json → Bool
unfolding is_uniform
fits op v =
    if str_eq op (str "exists")
    then elim v [ null ↦ true | _ ↦ false ]
    else if str_eq op (str "in")
    then is_uniform v
    else if str_eq op (str "prefix")
    then elim v [ text s ↦ true | _ ↦ false ]
    else if is_order op
    then elim v [ number n ↦ true | _ ↦ false ]
    else is_constant v

-- What holds of a result that is no error.
abbrev pub OnOk {ℓ κ} : {A : Type ℓ} → (A → Type κ) → Lowered A → Type κ
OnOk P (ok a) = P a
OnOk P (err e) = Unit

pub and_then-OnOk {ℓ ℓ' κ κ'} :
    {A : Type ℓ} {B : Type ℓ'} (P : A → Type κ) (Q : B → Type κ') (r : Lowered A)
    (f : A → Lowered B)
    → OnOk P r
    → ((a : A) → P a → OnOk Q (f a))
    → OnOk Q (and_then r f)
and_then-OnOk P Q (ok a) f h k = k a h
and_then-OnOk P Q (err e) f h k = tt

Constant : Json → Type 0
unfolding is_constant
Constant v = is_constant v ≡ true

lower_scalar-Constant : (v : Value) → OnOk Constant (lower_scalar v)
unfolding Constant lower_scalar is_constant
lower_scalar-Constant (string s) = refl
lower_scalar-Constant (int i) =
    if_elim (OnOk Constant) (fits_int64 i) (ok (number (float_of i))) (err int_overflow) (λ _. refl)
      (λ _. tt)
lower_scalar-Constant (float f) = refl
lower_scalar-Constant (bool b) = refl
lower_scalar-Constant Starlark.none_value = tt
lower_scalar-Constant (list vs) = tt
lower_scalar-Constant (dict es) = tt
lower_scalar-Constant (Starlark.struct s) = tt
lower_scalar-Constant (Starlark.other s) = tt

typed_item :
    (t : Str) (c : Json) (cs : Items)
    → Constant c
    → str_eq (scalar_type c) t ≡ true
    → all_of_type t cs ≡ true
    → all_of_type t (cons c cs) ≡ true
unfolding Constant all_of_type
typed_item t c cs hc same hcs = rw (hc, same, hcs) refl

lower_items-type :
    (t : Str) (vs : Values) → OnOk (λ items. all_of_type t items ≡ true) (lower_items t vs)
unfolding lower_items all_of_type
lower_items-type t no_values = refl
lower_items-type t (elem v vs) =
    and_then-OnOk Constant (λ items. all_of_type t items ≡ true) (lower_scalar v) _
      (lower_scalar-Constant v)
      (λ c hc.
        if_elim (OnOk (λ items. all_of_type t items ≡ true)) _ _ _
          (λ same.
            and_then-OnOk (λ items. all_of_type t items ≡ true) _ (lower_items t vs) _
              (lower_items-type t vs) (λ cs hcs. typed_item t c cs hc same hcs))
          (λ _. tt))

Uniform : Json → Type 0
unfolding is_uniform
Uniform v = is_uniform v ≡ true

Uniform-list :
    (c : Json) (cs : Items)
    → Constant c
    → all_of_type (scalar_type c) cs ≡ true
    → Uniform (array (cons c cs))
unfolding Constant Uniform
Uniform-list c cs hc hcs = rw (hc, hcs) refl

lower_in-Uniform : (v : Value) → OnOk Uniform (lower_in v)
unfolding lower_in
lower_in-Uniform (list (elem v vs)) =
    and_then-OnOk Constant Uniform (lower_scalar v) _ (lower_scalar-Constant v) (λ c hc.
      and_then-OnOk (λ items. all_of_type (scalar_type c) items ≡ true) Uniform
        (lower_items (scalar_type c) vs) _ (lower_items-type (scalar_type c) vs)
        (λ cs hcs. Uniform-list c cs hc hcs))
lower_in-Uniform (list no_values) = tt
lower_in-Uniform (string s) = tt
lower_in-Uniform (int i) = tt
lower_in-Uniform (float f) = tt
lower_in-Uniform (bool b) = tt
lower_in-Uniform Starlark.none_value = tt
lower_in-Uniform (dict es) = tt
lower_in-Uniform (Starlark.struct s) = tt
lower_in-Uniform (Starlark.other s) = tt

unfoldable pub Fits : Str → Json → Type 0
Fits op v = fits op v ≡ true

-- Past both checks a constant fits every operator that is neither `exists` nor `in`.
checked-Fits :
    (op : Str) (c : Json)
    → str_eq op (str "exists") ≡ false
    → str_eq op (str "in") ≡ false
    → Constant c
    → OnOk (Fits op) (and_then (check_prefix op c) (check_order op))
unfolding Fits fits Constant is_constant check_prefix check_order
checked-Fits op (text s) he hi hc =
    if_elim (OnOk (Fits op)) (is_order op) _ _ (λ _. tt) (λ o. rw (he, hi, o) (ground arith))
checked-Fits op (number n) he hi hc = elim (Bool-cases (str_eq op (str "prefix"))) [
  | inl p ↦ rw p tt
  | inr p ↦ rw (p, he, hi, p) (ground arith)
]
checked-Fits op (boolean b) he hi hc = elim (Bool-cases (str_eq op (str "prefix"))) [
  | inl p ↦ rw p tt
  | inr p ↦
      rw p (if_elim (OnOk (Fits op)) (is_order op) _ _ (λ _. tt) (λ o. rw (he, hi, p, o) refl))
]
checked-Fits op null he hi hc = cc
checked-Fits op (int64 i) he hi hc = cc
checked-Fits op (array vs) he hi hc = cc
checked-Fits op (object m) he hi hc = cc

lower_constant-Fits :
    (op : Str) (v : Value)
    → str_eq op (str "exists") ≡ false
    → str_eq op (str "in") ≡ false
    → OnOk (Fits op) (lower_constant op v)
unfolding lower_constant
lower_constant-Fits op v he hi =
    and_then-OnOk Constant (Fits op) (lower_scalar v) _ (lower_scalar-Constant v)
      (λ c hc. checked-Fits op c he hi hc)

in-Fits :
    (op : Str) (v : Value)
    → str_eq op (str "exists") ≡ false
    → str_eq op (str "in") ≡ true
    → OnOk (Fits op) (lower_in v)
unfolding Fits fits Uniform
in-Fits op v he hi = weaken (lower_in v) (lower_in-Uniform v)
  where
    uniform-Fits : (c : Json) → Uniform c → Fits op c
    uniform-Fits c u = rw (he, hi) u

    weaken : (r : Lowered Json) → OnOk Uniform r → OnOk (Fits op) r
    weaken (ok c) u = uniform-Fits c u
    weaken (err e) u = tt

missing-Fits :
    (op : Str) → OnOk (Fits op) (if str_eq op (str "exists") then ok null else err value_required)
unfolding Fits fits
missing-Fits op =
    if_elim (OnOk (Fits op)) (str_eq op (str "exists")) (ok null) (err value_required)
      (λ e. rw e refl) (λ _. tt)

pub lower_value-Fits : (op : Str) (rest : Values) → OnOk (Fits op) (lower_value op rest)
unfolding lower_value
lower_value-Fits op no_values = missing-Fits op
lower_value-Fits op (elem v (elem u rest)) = missing-Fits op
lower_value-Fits op (elem v no_values) =
    if_elim (OnOk (Fits op)) (str_eq op (str "exists")) (err exists_takes_no_value) _ (λ _. tt)
      (λ he.
        if_elim (OnOk (Fits op)) (str_eq op (str "in")) (lower_in v) (lower_constant op v)
          (in-Fits op v he) (lower_constant-Fits op v he))
