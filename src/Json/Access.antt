-- ===== src/Json/Access.antt =====
-- What Python does with a value whose type is not known: `get`, slices, `len`, iteration, `<`. A
-- value of another type raises.
use Prim.Native.String.{String}
use k3df.Base.{
  ℕ, zero, suc, Bool, true, false, Option, none, some, List, [], ◌∷◌, take, length, codes, ltb, eqb,
  if◌then◌else◌, Result, ok, raised, type_error, attribute_error, ◌>>=◌,
}
use k3df.Base.Int.{pos, ltb_ℤ}
use k3df.Json.Defs.{
  Value, bool, int, float, str, arr, obj, Items, nil, cons, Fields, end, field, Float, finite,
  scale, bool_int, ltb_float, elements, items,
}
use k3df.Json.Dict.{value_eq}

-- A value that has `get`.
abbrev pub dict_of : Value → Result Fields
dict_of (obj d) = ok d
dict_of _ = raised attribute_error

abbrev take_text : ℕ → String → String
take_text zero s = String.[]
take_text (suc n) String.[] = String.[]
take_text (suc n) (String.◌∷◌ c s) = String.◌∷◌ c (take_text n s)

-- `v[:n]`
abbrev pub slice : ℕ → Value → Result Value
slice n (arr vs) = ok (arr (items (take n (elements vs))))
slice n (str s) = ok (str (take_text n s))
slice n _ = raised type_error

abbrev pub keys : Fields → List Value
keys end = []
keys (field k v d) = str k ∷ keys d

abbrev characters : String → List Value
characters String.[] = []
characters (String.◌∷◌ c s) = str (String.◌∷◌ c String.[]) ∷ characters s

-- `for x in v`
abbrev pub iterate : Value → Result (List Value)
iterate (arr vs) = ok (elements vs)
iterate (str s) = ok (characters s)
iterate (obj d) = ok (keys d)
iterate _ = raised type_error

-- `len(v)`
abbrev pub len_of : Value → Result ℕ
len_of v = iterate v >>= λ vs. ok (length vs)

abbrev text_lt : List ℕ → List ℕ → Bool
text_lt [] [] = false
text_lt [] (_ ∷ _) = true
text_lt (_ ∷ _) [] = false
text_lt (a ∷ as') (b ∷ bs) = let rest = text_lt as' bs in if eqb a b then rest else ltb a b

abbrev number : Value → Option Float
number (bool b) = some (finite (scale (bool_int b)))
number (int n) = some (finite (scale n))
number (float x) = some x
number _ = none

abbrev numbers_lt : Option Float → Option Float → Result Bool
numbers_lt (some a) (some b) = ok (ltb_float a b)
numbers_lt _ _ = raised type_error

-- `a < b`: numbers by value, texts and lists by their first difference.
unfoldable mutual
  pub value_lt : Value → Value → Result Bool
  value_lt (int a) (int b) = ok (ltb_ℤ a b)
  value_lt (str a) (str b) = ok (text_lt (codes a) (codes b))
  value_lt (arr a) (arr b) = items_lt a b
  value_lt a b = numbers_lt (number a) (number b)

  items_lt : Items → Items → Result Bool
  items_lt nil nil = ok false
  items_lt nil (cons _ _) = ok true
  items_lt (cons _ _) nil = ok false
  items_lt (cons a as') (cons b bs) =
      let rest = items_lt as' bs in let first = value_lt a b in if value_eq a b then rest else first

-- `max(values, default=0)`: a later value takes over only if it is greater.
unfoldable pub max_from : Value → List Value → Result Value
max_from m [] = ok m
max_from m (v ∷ vs) = value_lt m v >>= λ less. max_from (if less then v else m) vs

abbrev pub max_or_zero : List Value → Result Value
max_or_zero [] = ok (int (pos 0))
max_or_zero (v ∷ vs) = max_from v vs
