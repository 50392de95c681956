-- ===== src/Rules/Match/Float.antt =====
-- Go's float64: bit patterns of IEEE 754 binary64, their comparisons, and the conversion from int64,
-- which rounds to the nearest, ties to even.
use fruitfly.Base.{
  ltb, leb, ◌==◌, if◌then◌else◌, ℤ, pos, negsuc, ltb_ℤ, leb_ℤ, eq_ℤ, ℕ, zero, suc, ◌+◌, ◌-◌, ◌*◌,
  ◌/◌, ◌%◌, ◌^◌, Bool, ◌&&◌, not,
}

abbrev pub infinity : ℕ
infinity = 2047 * 2 ^ 52

-- The pattern without its sign.
abbrev pub magnitude : ℕ → ℕ
magnitude f = f % 2 ^ 63

abbrev pub is_nan : ℕ → Bool
is_nan f = ltb infinity (magnitude f)

-- Patterns in the order of the numbers they stand for; both zeros are 0.
unfoldable pub rank : ℕ → ℤ
rank f =
    if ltb f (2 ^ 63) then pos f else if magnitude f == 0 then pos 0 else negsuc (magnitude f - 1)

unfoldable pub float_lt : ℕ → ℕ → Bool
unfolding rank
float_lt f w = not (is_nan f) && not (is_nan w) && ltb_ℤ (rank f) (rank w)

unfoldable pub float_le : ℕ → ℕ → Bool
unfolding rank
float_le f w = not (is_nan f) && not (is_nan w) && leb_ℤ (rank f) (rank w)

unfoldable pub float_eq : ℕ → ℕ → Bool
unfolding rank
float_eq f w = not (is_nan f) && not (is_nan w) && eq_ℤ (rank f) (rank w)

-- The number of binary digits, at most the fuel.
unfoldable pub digits : ℕ → ℕ → ℕ
digits zero n = 0
digits (suc fuel) n = let rest = digits fuel (n / 2) in if n == 0 then 0 else suc rest

round_even : ℕ → ℕ → ℕ
round_even n d =
    let q = n / d in
    let r = n % d in
    if ltb (2 * r) d then q else if ltb d (2 * r) then suc q else if q % 2 == 0 then q else suc q

-- An int64 has at most 64 digits.
unfoldable pub float_of_nat : ℕ → ℕ
unfolding digits round_even
float_of_nat n =
    let e = digits 64 n in
    if n == 0
    then 0
    else (e + 1021) * 2 ^ 52 + (if leb e 53 then n * 2 ^ (53 - e) else round_even n (2 ^ (e - 53)))

unfoldable pub float_of : ℤ → ℕ
unfolding float_of_nat
float_of (pos n) = float_of_nat n
float_of (negsuc n) = 2 ^ 63 + float_of_nat (suc n)
