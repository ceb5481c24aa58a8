-- ===== src/Text.antt =====
-- What the sources use of Python's `str`: `strip`, `split(sep, 1)[0]`, `startswith`, the decimal
-- reading `int(text)` and `str.isascii`. Characters are seen through their code points.
use Prim.Native.Char.{code}
use Prim.Native.String.{String}
use k3df.Base.{ℕ, ◌+◌, ◌-◌, ◌*◌, Bool, true, false, ◌&&◌, ◌||◌, Option, none, some, List, [], ◌∷◌}
use k3df.Base.{codes, ltb, leb, eqb, all, if◌then◌else◌, ◌==◌}
use k3df.Base.Int.{ℤ, pos, negsuc}

-- `str.isspace` of a character.
abbrev pub is_white : ℕ → Bool
is_white c =
    (leb 9 c && leb c 13)
    || (leb 28 c && leb c 32)
    || eqb c 0x85
    || eqb c 0xA0
    || eqb c 0x1680
    || (leb 0x2000 c && leb c 0x200A)
    || eqb c 0x2028
    || eqb c 0x2029
    || eqb c 0x202F
    || eqb c 0x205F
    || eqb c 0x3000

unfoldable pub is_ascii : String → Bool
is_ascii s = all (λ c. ltb c 128) (codes s)

-- Without the characters of a class at its start, or at its end.
unfoldable pub lstrip : (ℕ → Bool) → String → String
lstrip p String.[] = String.[]
lstrip p (String.◌∷◌ c s) = if p (code c) then lstrip p s else String.◌∷◌ c s

unfoldable pub rstrip : (ℕ → Bool) → String → String
rstrip p String.[] = String.[]
rstrip p (String.◌∷◌ c s) =
    let rest = rstrip p s in
    if p (code c) && rest == String.[] then String.[] else String.◌∷◌ c rest

-- `s.strip()`
unfoldable pub strip : String → String
unfolding lstrip rstrip
strip s = rstrip is_white (lstrip is_white s)

-- `s.split(sep, 1)[0]` for a separator of one character.
unfoldable pub before : ℕ → String → String
before sep String.[] = String.[]
before sep (String.◌∷◌ c s) =
    let rest = before sep s in if eqb (code c) sep then String.[] else String.◌∷◌ c rest

abbrev pub is_digit : ℕ → Bool
is_digit c = leb b'0' c && leb c b'9'

-- Decimal digits, where a single `_` may stand between two of them. The flag says that the
-- character before was a digit.
unfoldable pub read_digits : Bool → ℕ → List ℕ → Option ℕ
read_digits after_digit acc [] = if after_digit then some acc else none
read_digits after_digit acc (c ∷ cs) =
    let digit = read_digits true (acc * 10 + (c - b'0')) cs in
    let underscore = read_digits false acc cs in
    if is_digit c then digit else if after_digit && eqb c b'_' then underscore else none

abbrev count_digits : List ℕ → ℕ
count_digits [] = 0
count_digits (c ∷ cs) = let n = count_digits cs in if is_digit c then n + 1 else n

-- More than 4300 digits are refused.
abbrev read_limited : List ℕ → Option ℕ
read_limited cs = if ltb 4300 (count_digits cs) then none else read_digits false 0 cs

abbrev negate : ℕ → ℤ
negate n = if eqb n 0 then pos 0 else negsuc (n - 1)

abbrev read_signed : List ℕ → Option ℤ
read_signed [] = none
read_signed (c ∷ cs) =
    if eqb c b'-'
    then elim (read_limited cs) [ none ↦ none | some n ↦ some (negate n) ]
    else elim (read_limited (if eqb c b'+' then cs else c ∷ cs)) [
      | none ↦ none
      | some n ↦ some (pos n)
    ]

-- What `int` passes over around a number: the white space of C in an ASCII text, and that of
-- Unicode in another.
abbrev is_passed_over : Bool → ℕ → Bool
is_passed_over ascii c = if ascii then (leb 9 c && leb c 13) || eqb c 32 else is_white c

-- `int(text)` with ASCII digits; `none` is its `ValueError`.
unfoldable pub int_of_text : String → Option ℤ
unfolding is_ascii lstrip rstrip read_digits
int_of_text s =
    let blank = is_passed_over (is_ascii s) in read_signed (codes (rstrip blank (lstrip blank s)))

abbrev cons_head : ℕ → List (List ℕ) → List (List ℕ)
cons_head c [] = (c ∷ []) ∷ []
cons_head c (p ∷ ps) = (c ∷ p) ∷ ps

-- `text.split(sep)` for a separator of one character, on code points.
unfoldable pub split : ℕ → List ℕ → List (List ℕ)
split sep [] = [] ∷ []
split sep (c ∷ cs) = let rest = split sep cs in if eqb c sep then [] ∷ rest else cons_head c rest
