-- ===== src/Json/Number.antt =====
-- Python's `float(value)`.
use k3df.Base.{
  ℕ, zero, suc, ◌+◌, ◌-◌, ◌*◌, ◌/◌, ◌%◌, ◌^◌, ◌&&◌, ◌||◌, String, Option, none, some, ltb, eqb,
  if◌then◌else◌, Result, ok, raised, type_error, value_error, overflow_error,
}
use k3df.Base.Int.{ℤ, pos, negsuc}
use k3df.Json.Defs.{Value, bool, int, float, str, Float, finite, scale, bool_int}
use k3df.Json.Defs.{max_float, min_float, one, zero_float}

-- How many binary digits a number below 2^k has.
binary_digits : ℕ → ℕ → ℕ
binary_digits zero n = 0
binary_digits (suc k) n = let rest = binary_digits k (n / 2) in if eqb n 0 then 0 else suc rest

-- Rounding to a multiple of 2^e, ties to the even multiple.
round_to : ℕ → ℕ → ℕ
round_to zero n = n
round_to (suc e) n =
    let step = 2 ^ suc e in
    let q = n / step in
    let up = ltb (2 ^ e) (n % step) || (eqb (n % step) (2 ^ e) && eqb (q % 2) 1) in
    (if up then q + 1 else q) * step

-- The double nearest to `n`, which keeps 53 binary digits.
double_of : ℕ → ℕ
double_of n = if ltb n (2 ^ 53) then n else round_to (binary_digits 1025 n - 53) n

-- The conversion overflows from 2^1024 on.
convert : (ℕ → ℤ) → ℕ → Result Float
convert sign n =
    if ltb n (2 ^ 1024) && ltb (double_of n) (2 ^ 1024)
    then ok (finite (scale (sign (double_of n))))
    else raised overflow_error

abbrev minus : ℕ → ℤ
minus zero = pos 0
minus (suc n) = negsuc n

unfoldable pub float_of_int : ℤ → Result Float
unfolding convert double_of round_to binary_digits
float_of_int (pos n) = convert pos n
float_of_int (negsuc n) = convert minus (suc n)

-- `float(value)`, where `parse` reads a text as a double; `none` is its `ValueError`.
unfoldable pub float_of : (String → Option Float) → Value → Result Float
float_of parse (float x) = ok x
float_of parse (int n) = float_of_int n
float_of parse (bool b) = float_of_int (bool_int b)
float_of parse (str s) = elim (parse s) [ none ↦ raised value_error | some x ↦ ok x ]
float_of parse _ = raised type_error

-- `max(0.0, min(1.0, x))`
unfoldable pub clamp : Float → Float
clamp x = max_float zero_float (min_float one x)
