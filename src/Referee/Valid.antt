-- ===== src/Referee/Valid.antt =====
-- What holds of a running referee: three flags under distinct ids with distinct ASCII values, and
-- a set of accepted ids among them.
use k3df.Base.{
  text_dec, Bool-cases, inl, inr, ◌++◌, contains-append, Unique-append_one, ◌≡◌, true, ◌||◌, String,
  Option, none, some, List, [], ◌∷◌, length, All, arith, contains, Unique, Within, if◌then◌else◌,
  ◌==◌,
}
use k3df.Text.{is_ascii}
use k3df.Referee.State.{Referee, flag_ids, add}
use k3df.Referee.Start.{flag_values}

abbrev pub Flags : Type 0
Flags = List (String × String)

-- `flags[id]`
abbrev pub value_of : String → Flags → Option String
value_of id [] = none
value_of id ((j, v) ∷ flags) = if id == j then some v else value_of id flags

pub record IsFlagSet (flags : Flags) : Type 0 where
  pub three : length flags ≡ 3
  pub ids_unique : Unique (flag_ids flags)
  pub values_unique : Unique (flag_values flags)
  pub values_ascii : All (λ f. is_ascii f.1 ≡ true) flags

pub record IsValid (r : Referee) : Type 0 where
  pub flag_set : IsFlagSet r.flags
  pub accepted_unique : Unique r.accepted
  pub accepted_known : Within (flag_ids r.flags) r.accepted

pub contains-add :
    (x y : String) (s : List String) → contains (add x s) y ≡ (y == x || contains s y)
unfolding add
contains-add x y s = ground (arith, contains-append s (x ∷ []) y)

pub Unique-add : (x : String) (s : List String) → Unique s → Unique (add x s)
unfolding add
Unique-add x s u = elim (Bool-cases (contains s x)) [
  | inl there ↦ rw there u
  | inr fresh ↦ rw fresh (Unique-append_one s x u fresh)
]

pub Within-append : (ys xs zs : List String) → Within ys xs → Within ys zs → Within ys (xs ++ zs)
Within-append ys [] zs h k = k
Within-append ys (x ∷ xs) zs h k = (h.0, Within-append ys xs zs h.1 k)

pub Within-add :
    (ys : List String) (x : String) (s : List String)
    → Within ys s
    → contains ys x ≡ true
    → Within ys (add x s)
unfolding add
Within-add ys x s h m = elim (Bool-cases (contains s x)) [
  | inl there ↦ rw there h
  | inr fresh ↦ rw fresh (Within-append ys s (x ∷ []) h (m, tt))
]

pub value_of-is_ascii :
    (id v : String) (flags : Flags)
    → All (λ f. is_ascii f.1 ≡ true) flags
    → value_of id flags ≡ some v
    → is_ascii v ≡ true
value_of-is_ascii id v [] h e = cc
value_of-is_ascii id v ((j, w) ∷ flags) h e = ground (arith, value_of-is_ascii id v flags h.1)

-- Finding which flag a text is for, by its value.
pub value_of-contains :
    (id : String) (flags : Flags)
    → contains (flag_ids flags) id ≡ true
    → (v : String) × (value_of id flags ≡ some v)
value_of-contains id [] h = cc
value_of-contains id ((j, w) ∷ flags) h = elim (text_dec id j) [
  | yes p ↦ (w, ground arith)
  | no p ↦ let (v, e) = value_of-contains id flags (ground arith) in (v, ground arith)
]
