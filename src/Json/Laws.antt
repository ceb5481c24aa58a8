-- ===== src/Json/Laws.antt =====
-- Reading a dict after a write.
use k3df.Base.{List, [], ◌∷◌, ap, ◌≡◌, refl, String, none, some, true, arith, ◌==◌, if◌then◌else◌}
use k3df.Json.Defs.{
  Value, null, str, Fields, end, field, Float, zero_float, nan, inf, neg_inf, finite, scale,
  elements, items,
}
use k3df.Base.Int.{pos, ◌≤ℤ◌, eq_of_parts}
use k3df.Json.Number.{clamp}
use k3df.Json.Dict.{find, get, set, value_eq}

pub find-set :
    (j k : String) (v : Value) (d : Fields)
    → find j (set k v d) ≡ (if j == k then some v else find j d)
unfolding find set
find-set j k v end = refl
find-set j k v (field i w d) = ground (arith, find-set j k v d)

pub elements-items : (vs : List Value) → elements (items vs) ≡ vs
elements-items [] = refl
elements-items (v ∷ vs) = ap (◌∷◌ v) (elements-items vs)

-- A number of the unit interval.
abbrev pub InUnit : Float → Type 0
InUnit (finite a) = (pos 0 ≤ℤ a) × (a ≤ℤ scale (pos 1))
InUnit _ = ⊥

zero-le-scale : pos 0 ≤ℤ scale (pos 1)
unfolding scale
zero-le-scale = omega arith

pub clamp-InUnit : (x : Float) → InUnit (clamp x)
unfolding clamp
clamp-InUnit nan = ground (arith, zero-le-scale)
clamp-InUnit inf = ground (arith, zero-le-scale)
clamp-InUnit neg_inf = ground (arith, zero-le-scale)
clamp-InUnit (finite a) = ground (arith, zero-le-scale)

pub clamp_fixed : (x : Float) → InUnit x → clamp x ≡ x
unfolding clamp
clamp_fixed nan h = absurd h
clamp_fixed inf h = absurd h
clamp_fixed neg_inf h = absurd h
clamp_fixed (finite a) h = ground (arith, zero-le-scale, eq_of_parts a (pos 0))

pub zero_float-InUnit : InUnit zero_float
zero_float-InUnit = ground (arith, zero-le-scale)

pub str_of_value_eq : (v : Value) (s : String) → value_eq v (str s) ≡ true → v ≡ str s
unfolding value_eq
str_of_value_eq (str t) s h = ap str (ground arith)
str_of_value_eq null s h = cc
str_of_value_eq v s h = cc

pub get_of_find : (k : String) (d : Fields) (v : Value) → find k d ≡ some v → get k d ≡ v
get_of_find k d v h = ap (λ o. elim o [ none ↦ null | some v ↦ v ]) h
