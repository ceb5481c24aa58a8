-- ===== src/Json/Defs.antt =====
-- Values, numbers and truth. A finite double is a multiple of 2^-1074, so it is that integer.
use k3df.Base.{◌*◌, ◌^◌, ◌-◌, suc, Bool, true, false, String, List, [], ◌∷◌, ◌==◌}
use k3df.Base.Int.{ℤ, pos, negsuc, eqb_ℤ, ltb_ℤ}

-- Python's `float`. `json.load` also reads NaN and the infinities.
pub data Float : Type 0 where
  nan inf neg_inf : Float
  finite : ℤ → Float

mutual
  pub data Value : Type 0 where
    null : Value
    bool : Bool → Value
    int : ℤ → Value
    float : Float → Value
    str : String → Value
    arr : Items → Value
    obj : Fields → Value

  -- A dict's entries, in insertion order.
  pub data Fields : Type 0 where
    end : Fields
    field : String → Value → Fields → Fields

  pub data Items : Type 0 where
    nil : Items
    cons : Value → Items → Items

-- An integer in units of 2^-1074.
unfoldable pub scale : ℤ → ℤ
scale (pos n) = pos (n * 2 ^ 1074)
scale (negsuc n) = negsuc (suc n * 2 ^ 1074 - 1)

-- `a < b`, false where either is NaN.
abbrev pub ltb_float : Float → Float → Bool
ltb_float nan b = false
ltb_float inf b = false
ltb_float neg_inf nan = false
ltb_float neg_inf neg_inf = false
ltb_float neg_inf inf = true
ltb_float neg_inf (finite b) = true
ltb_float (finite a) nan = false
ltb_float (finite a) neg_inf = false
ltb_float (finite a) inf = true
ltb_float (finite a) (finite b) = ltb_ℤ a b

abbrev pub eqb_float : Float → Float → Bool
eqb_float inf inf = true
eqb_float neg_inf neg_inf = true
eqb_float (finite a) (finite b) = eqb_ℤ a b
eqb_float _ _ = false

abbrev pub one : Float
one = finite (scale (pos 1))

abbrev pub zero_float : Float
zero_float = finite (pos 0)

-- `max(a, b)` and `min(a, b)` keep the first argument unless the second compares beyond it.
abbrev pub max_float : Float → Float → Float
max_float a b = elim (ltb_float a b) [ true ↦ b | false ↦ a ]

abbrev pub min_float : Float → Float → Float
min_float a b = elim (ltb_float b a) [ true ↦ b | false ↦ a ]

-- `bool` is a subclass of `int`.
abbrev pub bool_int : Bool → ℤ
bool_int true = pos 1
bool_int false = pos 0

unfoldable pub truthy : Value → Bool
truthy null = false
truthy (bool b) = b
truthy (int (pos suc_n)) = ltb_ℤ (pos 0) (pos suc_n)
truthy (int (negsuc _)) = true
truthy (float (finite (pos n))) = ltb_ℤ (pos 0) (pos n)
truthy (float _) = true
truthy (str s) = elim (s == "") [ true ↦ false | false ↦ true ]
truthy (arr nil) = false
truthy (arr (cons _ _)) = true
truthy (obj end) = false
truthy (obj (field _ _ _)) = true

-- Whether a value may stand in a set or be a key; a list or a dict raises `TypeError` there.
unfoldable pub hashable : Value → Bool
hashable (arr _) = false
hashable (obj _) = false
hashable _ = true

abbrev pub elements : Items → List Value
elements nil = []
elements (cons v vs) = v ∷ elements vs

abbrev pub items : List Value → Items
items [] = nil
items (v ∷ vs) = cons v (items vs)
