-- ===== src/Referee/Submit.antt =====
-- `submit`: the invariant, its answers on every branch, and what one call adds.
use k3df.Base.{
  length-map, text_dec, ap, ◌∙◌, ◌+◌, ◌≡◌, ◌↔◌, ◌⊎◌, not, sym, refl, ◌≢◌, Bool, true, false, ◌&&◌,
  ◌||◌, String, Option, none, some, List, [], ◌∷◌, length, arith, contains, Unique, Within,
  if◌then◌else◌, ◌==◌, ok, raised, type_error, Bool-cases, inl, inr, leb, contains_of_full,
  Within-of_contains, Within-length-le,
}
use k3df.Text.{is_ascii}
use k3df.Referee.State.{Referee, save, flag_ids, add, find_match, Write, won, submit}
use k3df.Referee.Valid.{IsValid, value_of-is_ascii, value_of, contains-add, Unique-add, Within-add}
use k3df.Referee.Match.{
  last_match, find_match_ascii, find_match_other, last_match_hit, last_match_miss, last_match_known,
}

find_match_raises :
    (c : String) (flags : List (String × String))
    → length flags ≡ 3
    → is_ascii c ≡ false
    → find_match c flags none ≡ raised type_error
find_match_raises c [] e a = absurd (omega arith)
find_match_raises c ((id, v) ∷ flags) e a = find_match_other c id v flags none a

-- The outcome of the loop at a valid referee.
pub match-cases :
    (c : String) (r : Referee)
    → IsValid r
    → (is_ascii c ≡ true) × (find_match c r.flags none ≡ ok (last_match c r.flags none))
      ⊎ (is_ascii c ≡ false) × (find_match c r.flags none ≡ raised type_error)
match-cases c r v = elim (Bool-cases (is_ascii c)) [
  | inl a ↦ inl (a, find_match_ascii c r.flags none a v.flag_set.values_ascii)
  | inr a ↦ inr (a, find_match_raises c r.flags v.flag_set.three a)
]

-- The accepted ids after the loop has found a flag, or none.
abbrev with_found : Option String → List String → List String
with_found none s = s
with_found (some id) s = add id s

pub submit-flags : (w : Write) (c : String) (r : Referee) → (submit w c r).1.flags ≡ r.flags
unfolding submit save
submit-flags w c r = ground arith

submit-accepted :
    (w : Write) (c : String) (r : Referee)
    → IsValid r
    → (submit w c r).1.accepted ≡ (
        if leb r.max_submissions r.submission_attempts || not (is_ascii c)
        then r.accepted
        else with_found (last_match c r.flags none) r.accepted)
unfolding submit save
submit-accepted w c r v = elim (match-cases c r v) [
  | inl (a, e) ↦ ground arith
  | inr (a, e) ↦ ground arith
]

IsValid-of :
    (r r' : Referee)
    → IsValid r
    → r'.flags ≡ r.flags
    → Unique r'.accepted
    → Within (flag_ids r.flags) r'.accepted
    → IsValid r'
IsValid-of r r' v e u h = record {
  flag_set = rw e v.flag_set;
  accepted_unique = u;
  accepted_known = rw e h;
}

-- Adding what the loop finds keeps a set of known ids.
with_found-Unique : (o : Option String) (s : List String) → Unique s → Unique (with_found o s)
with_found-Unique none s u = u
with_found-Unique (some id) s u = Unique-add id s u

with_found-Within :
    (ids : List String) (o : Option String) (s : List String)
    → ((id : String) → o ≡ some id → contains ids id ≡ true)
    → Within ids s
    → Within ids (with_found o s)
with_found-Within ids none s k h = h
with_found-Within ids (some id) s k h = Within-add ids id s h (k id refl)

found_known :
    (c : String) (r : Referee) (id : String)
    → last_match c r.flags none ≡ some id
    → contains (flag_ids r.flags) id ≡ true
found_known c r id e = last_match_known c r.flags none id e (λ h. cc)

-- Every submission keeps the invariant, also one that raises.
pub submit-IsValid : (w : Write) (c : String) (r : Referee) → IsValid r → IsValid (submit w c r).1
submit-IsValid w c r v =
    let s = with_found (last_match c r.flags none) r.accepted in
    let u : Unique s = with_found-Unique (last_match c r.flags none) r.accepted v.accepted_unique in
    let k : Within (flag_ids r.flags) s =
      with_found-Within _ (last_match c r.flags none) r.accepted (found_known c r)
        v.accepted_known in
    IsValid-of r (submit w c r).1 v (submit-flags w c r)
      (rw (submit-accepted w c r v) (ground arith)) (rw (submit-accepted w c r v) (ground arith))

abbrev is_found : Option String → String → Bool
is_found none id = false
is_found (some j) id = id == j

contains-with_found :
    (o : Option String) (id : String) (s : List String)
    → contains (with_found o s) id ≡ (contains s id || is_found o id)
contains-with_found none id s = ground arith
contains-with_found (some j) id s = ground (arith, contains-add j id s)

not-is_found : (o : Option String) (id : String) → o ≢ some id → is_found o id ≡ false
not-is_found none id n = refl
not-is_found (some j) id n = elim (text_dec id j) [
  | yes p ↦ absurd (n (ap some (sym p)))
  | no p ↦ ground arith
]

is_found-last_match :
    (c id value : String) (r : Referee)
    → IsValid r
    → value_of id r.flags ≡ some value
    → is_found (last_match c r.flags none) id ≡ (value == c)
is_found-last_match c id value r v e = elim (text_dec value c) [
  | yes p ↦
      rw (last_match_hit c id r.flags none v.flag_set.values_unique (e ∙ ap some p)) (ground arith)
  | no p ↦
      not-is_found _ id
        (last_match_miss c id value r.flags none v.flag_set.ids_unique e (λ q. p (sym q)) (λ h. cc))
      ∙ ground arith
]

-- One more submission: a flag is accepted if it was, or if its value is submitted in the budget.
pub contains-submit :
    (w : Write) (c id value : String) (r : Referee)
    → IsValid r
    → value_of id r.flags ≡ some value
    → contains (submit w c r).1.accepted id ≡ (
        contains r.accepted id || (not (leb r.max_submissions r.submission_attempts) && value == c))
contains-submit w c id value r v e = rw (submit-accepted w c r v) (
    ground (
      arith,
      contains-with_found (last_match c r.flags none) id r.accepted,
      is_found-last_match c id value r v e,
      value_of-is_ascii id value r.flags v.flag_set.values_ascii e,
    ))

-- The attempts never pass the budget, and a call inside it counts whatever it answers.
pub attempts-submit :
    (w : Write) (c : String) (r : Referee)
    → (submit w c r).1.submission_attempts ≡ (
        if leb r.max_submissions r.submission_attempts
        then r.submission_attempts
        else r.submission_attempts + 1)
unfolding submit save
attempts-submit w c r = ground arith

pub max-submit :
    (w : Write) (c : String) (r : Referee) → (submit w c r).1.max_submissions ≡ r.max_submissions
unfolding submit save
max-submit w c r = ground arith

three_ids : (r : Referee) → IsValid r → length (flag_ids r.flags) ≡ 3
three_ids r v = length-map _ r.flags ∙ v.flag_set.three

won→length : (r : Referee) → won r ≡ true → length r.accepted ≡ 3
won→length r e = ground arith

-- At a valid referee, won holds exactly if every flag id is accepted.
pub won_iff :
    (r : Referee)
    → IsValid r
    → (won r ≡ true)
      ↔ ((id : String) → contains (flag_ids r.flags) id ≡ true → contains r.accepted id ≡ true)
won_iff r v = (
  λ e id m.
      contains_of_full _ _ id v.accepted_unique v.accepted_known
        (omega (arith, three_ids r v, won→length r e)) m,
  λ all. ground (
    arith,
    three_ids r v,
    Within-length-le (flag_ids r.flags) r.accepted v.accepted_unique v.accepted_known,
    Within-length-le r.accepted (flag_ids r.flags) v.flag_set.ids_unique
        (Within-of_contains r.accepted (flag_ids r.flags) all),
  ),
)
