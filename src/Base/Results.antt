-- ===== src/Base/Results.antt =====
-- Python calls that may raise: the exceptions by their class, and sequencing.
use mathlib.Core.Path.{◌≡◌, refl}
use mathlib.Core.List.{List, [], ◌∷◌}

pub data Error : Type 0 where
  type_error value_error overflow_error key_error attribute_error os_error runtime_error : Error

pub data Result (A : Type 0) : Type 0 where
  raised : Error → Result A
  ok : A → Result A

module _ {A B : Type 0} where
  infixl 5 ◌>>=◌
  abbrev pub ◌>>=◌ : Result A → (A → Result B) → Result B
  raised e >>= next = raised e
  ok a >>= next = next a

  -- What a successful sequence went through.
  pub bind-eq-ok :
      (m : Result A) (next : A → Result B) {b : B}
      → (m >>= next) ≡ ok b
      → (a : A) × (m ≡ ok a) × (next a ≡ ok b)
  bind-eq-ok (raised e) next h = cc
  bind-eq-ok (ok a) next h = (a, refl, h)

-- A comprehension whose body may raise.
abbrev pub traverse : {A B : Type 0} → (A → Result B) → List A → Result (List B)
traverse f [] = ok []
traverse f (x ∷ xs) = f x >>= λ y. traverse f xs >>= λ ys. ok (y ∷ ys)

pub ok_inj : {A : Type 0} {a b : A} → ok a ≡ ok b → a ≡ b
ok_inj h = cc
