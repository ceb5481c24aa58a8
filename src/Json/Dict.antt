-- ===== src/Json/Dict.antt =====
-- A dict in insertion order. The JSON reader keeps one entry for a key, and so do the writes.
use k3df.Base.{Bool, true, false, ◌&&◌, String, Option, none, some, ◌==◌, eqb, ℕ, suc}
use k3df.Base.{if◌then◌else◌}
use k3df.Base.Int.{eqb_ℤ}
use k3df.Json.Defs.{Value, null, bool, int, float, str, arr, obj, Items, nil, cons, Fields, end}
use k3df.Json.Defs.{field, eqb_float, finite, bool_int, scale}

-- `d.get(k)`, with `None` for a missing key told apart from `null`.
unfoldable pub find : String → Fields → Option Value
find k end = none
find k (field j v d) = if k == j then some v else find k d

-- `d.get(k)`
abbrev pub get : String → Fields → Value
get k d = elim (find k d) [ none ↦ null | some v ↦ v ]

-- `d.get(k, default)`
abbrev pub get_or : String → Value → Fields → Value
get_or k default d = elim (find k d) [ none ↦ default | some v ↦ v ]

-- `d[k] = v`
unfoldable pub set : String → Value → Fields → Fields
set k v end = field k v end
set k v (field j w d) = if k == j then field j v d else field j w (set k v d)

-- `d.update(e)`
unfoldable pub update : Fields → Fields → Fields
update d end = d
update d (field k v e) = update (set k v d) e

abbrev count : Fields → ℕ
count end = 0
count (field _ _ d) = suc (count d)

-- `a == b`. Numbers compare by value across their types; dicts compare without their order.
unfoldable mutual
  pub value_eq : Value → Value → Bool
  value_eq null null = true
  value_eq (bool a) (bool b) = eqb_ℤ (bool_int a) (bool_int b)
  value_eq (bool a) (int b) = eqb_ℤ (bool_int a) b
  value_eq (bool a) (float b) = eqb_float (finite (scale (bool_int a))) b
  value_eq (int a) (bool b) = eqb_ℤ a (bool_int b)
  value_eq (int a) (int b) = eqb_ℤ a b
  value_eq (int a) (float b) = eqb_float (finite (scale a)) b
  value_eq (float a) (bool b) = eqb_float a (finite (scale (bool_int b)))
  value_eq (float a) (int b) = eqb_float a (finite (scale b))
  value_eq (float a) (float b) = eqb_float a b
  value_eq (str a) (str b) = a == b
  value_eq (arr a) (arr b) = items_eq a b
  value_eq (obj a) (obj b) = eqb (count a) (count b) && fields_in a b
  value_eq _ _ = false

  items_eq : Items → Items → Bool
  items_eq nil nil = true
  items_eq (cons a as') (cons b bs) = value_eq a b && items_eq as' bs
  items_eq _ _ = false

  fields_in : Fields → Fields → Bool
  fields_in end e = true
  fields_in (field k v d) e =
      elim (find k e) [ none ↦ false | some w ↦ value_eq v w ] && fields_in d e
