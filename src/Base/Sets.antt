-- ===== src/Base/Sets.antt =====
-- Lists of texts read as sets: no repetition, inclusion, and their counts.
use k3df.Base.Tests.{Bool-cases}
use k3df.Base.Lists.{length}
use k3df.Base.Equality.{◌==◌, contains, if◌then◌else◌}
use Prim.Native.Nat.{suc, ◌≤◌}
use Prim.Native.String.{String}
use mathlib.Core.Path.{◌≡◌, refl}
use mathlib.Core.Logic.{inl, inr}
use mathlib.Core.Bool.{true, false, ◌||◌}
use mathlib.Core.List.{List, [], ◌∷◌, ◌++◌}
use native.Mathlib.Omega.{arith}

-- No text stands twice.
abbrev pub Unique : List String → Type 0
Unique [] = Unit
Unique (x ∷ xs) = (contains xs x ≡ false) × Unique xs

abbrev pub Within : List String → List String → Type 0
Within ys [] = Unit
Within ys (x ∷ xs) = (contains ys x ≡ true) × Within ys xs

remove : String → List String → List String
remove a [] = []
remove a (x ∷ xs) = if a == x then xs else x ∷ remove a xs

length-remove :
    (a : String) (xs : List String) → contains xs a ≡ true → length xs ≡ suc (length (remove a xs))
unfolding remove
length-remove a [] h = cc
length-remove a (x ∷ xs) h = ground (arith, length-remove a xs)

contains-remove :
    (a b : String) (xs : List String)
    → contains xs b ≡ true
    → (a == b) ≡ false
    → contains (remove a xs) b ≡ true
unfolding remove
contains-remove a b [] h n = h
contains-remove a b (x ∷ xs) h n = ground (arith, contains-remove a b xs)

Within-remove :
    (a : String) (ys xs : List String)
    → Within ys xs
    → contains xs a ≡ false
    → Within (remove a ys) xs
Within-remove a ys [] h n = tt
Within-remove a ys (x ∷ xs) h n =
    ground (arith, contains-remove a x ys h.0, Within-remove a ys xs h.1)

pub Within-length-le : (ys xs : List String) → Unique xs → Within ys xs → length xs ≤ length ys
Within-length-le ys [] u h = omega arith
Within-length-le ys (x ∷ xs) u h = omega (
  arith,
  length-remove x ys h.0,
  Within-length-le (remove x ys) xs u.1 (Within-remove x ys xs h.1 u.0),
)

-- A set of as many texts as a set around it is all of that set.
pub contains_of_full :
    (ys xs : List String) (a : String)
    → Unique xs
    → Within ys xs
    → length ys ≤ length xs
    → contains ys a ≡ true
    → contains xs a ≡ true
contains_of_full ys xs a u h full m = elim (Bool-cases (contains xs a)) [
  | inl there ↦ there
  | inr gone ↦ absurd (
      omega (
        arith,
        length-remove a ys m,
        Within-length-le (remove a ys) xs u (Within-remove a ys xs h gone),
      ))
]

pub Within-of_contains :
    (ys xs : List String)
    → ((a : String) → contains xs a ≡ true → contains ys a ≡ true)
    → Within ys xs
Within-of_contains ys [] h = tt
Within-of_contains ys (x ∷ xs) h =
    (h x (ground arith), Within-of_contains ys xs (λ a m. h a (ground arith)))

pub contains_of_Within :
    (ys xs : List String) (a : String) → Within ys xs → contains xs a ≡ true → contains ys a ≡ true
contains_of_Within ys [] a h m = cc
contains_of_Within ys (x ∷ xs) a h m = ground (arith, contains_of_Within ys xs a h.1)

pub contains-append :
    (xs ys : List String) (a : String) → contains (xs ++ ys) a ≡ (contains xs a || contains ys a)
contains-append [] ys a = refl
contains-append (x ∷ xs) ys a = ground (arith, contains-append xs ys a)

pub Unique-append_one :
    (xs : List String) (a : String) → Unique xs → contains xs a ≡ false → Unique (xs ++ (a ∷ []))
Unique-append_one [] a u n = (refl, tt)
Unique-append_one (x ∷ xs) a u n =
    ground (arith, Unique-append_one xs a u.1, contains-append xs (a ∷ []) x)
