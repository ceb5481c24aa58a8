-- ===== src/Referee/Match.antt =====
-- The comparison loop of `submit`: over distinct values it finds the flag that has the value.
use k3df.Base.{
  text_dec, ap, sym, ◌∙◌, ◌≡◌, refl, ◌≢◌, true, false, String, Option, none, some, [], ◌∷◌, All,
  arith, contains, Unique, if◌then◌else◌, ◌==◌, ok, raised, type_error, Bool-cases, inl, inr,
}
use k3df.Text.{is_ascii}
use k3df.Referee.State.{flag_ids, find_match}
use k3df.Referee.Start.{flag_values}
use k3df.Referee.Valid.{Flags, value_of, value_of-contains}

-- The loop with its exceptions left out.
abbrev pub last_match : String → Flags → Option String → Option String
last_match c [] found = found
last_match c ((id, v) ∷ flags) found = last_match c flags (if c == v then some id else found)

pub find_match_ascii :
    (c : String) (flags : Flags) (found : Option String)
    → is_ascii c ≡ true
    → All (λ f. is_ascii f.1 ≡ true) flags
    → find_match c flags found ≡ ok (last_match c flags found)
unfolding find_match
find_match_ascii c [] found a h = refl
find_match_ascii c ((id, v) ∷ flags) found a h =
    ground (arith, find_match_ascii c flags (if c == v then some id else found) a h.1)

pub find_match_other :
    (c : String) (id v : String) (flags : Flags) (found : Option String)
    → is_ascii c ≡ false
    → find_match c ((id, v) ∷ flags) found ≡ raised type_error
unfolding find_match
find_match_other c id v flags found a = ground arith

pub last_match_none :
    (c : String) (flags : Flags) (found : Option String)
    → contains (flag_values flags) c ≡ false
    → last_match c flags found ≡ found
last_match_none c [] found h = refl
last_match_none c ((id, v) ∷ flags) found h = ground (arith, last_match_none c flags found)

pub last_match_hit :
    (c id : String) (flags : Flags) (found : Option String)
    → Unique (flag_values flags)
    → value_of id flags ≡ some c
    → last_match c flags found ≡ some id
last_match_hit c id [] found u e = cc
last_match_hit c id ((j, v) ∷ flags) found u e = ground (
  arith,
  last_match_none c flags (some j),
  last_match_hit c id flags found u.1,
  last_match_hit c id flags (some j) u.1,
)

last_match_absent :
    (c id : String) (flags : Flags) (found : Option String)
    → contains (flag_ids flags) id ≡ false
    → found ≢ some id
    → last_match c flags found ≢ some id
last_match_absent c id [] found h n = n
last_match_absent c id ((j, v) ∷ flags) found h n =
    ground (arith, last_match_absent c id flags found, last_match_absent c id flags (some j))

-- A flag with another value is not the one found.
pub last_match_miss :
    (c id v : String) (flags : Flags) (found : Option String)
    → Unique (flag_ids flags)
    → value_of id flags ≡ some v
    → c ≢ v
    → found ≢ some id
    → last_match c flags found ≢ some id
last_match_miss c id v [] found u e d n = n
last_match_miss c id v ((j, w) ∷ flags) found u e d n = ground (
  arith,
  last_match_miss c id v flags found u.1,
  last_match_miss c id v flags (some j) u.1,
  last_match_absent c id flags found,
)

-- What is found is among the flags.
pub last_match_known :
    (c : String) (flags : Flags) (found : Option String) (id : String)
    → last_match c flags found ≡ some id
    → found ≢ some id
    → contains (flag_ids flags) id ≡ true
last_match_known c [] found id e n = absurd (n e)
last_match_known c ((j, v) ∷ flags) found id e n =
    ground (arith, last_match_known c flags found id, last_match_known c flags (some j) id)

last_match_keeps : (c id : String) (flags : Flags) → last_match c flags (some id) ≢ none
last_match_keeps c id [] = λ e. cc
last_match_keeps c id ((j, v) ∷ flags) =
    ground (arith, last_match_keeps c id flags, last_match_keeps c j flags)

-- A value that some flag has is found.
last_match_some :
    (c : String) (flags : Flags) (found : Option String)
    → contains (flag_values flags) c ≡ true
    → last_match c flags found ≢ none
last_match_some c [] found h = cc
last_match_some c ((j, v) ∷ flags) found h =
    ground (arith, last_match_some c flags found, last_match_keeps c j flags)

pub not-contains_of_none :
    (c : String) (flags : Flags)
    → last_match c flags none ≡ none
    → contains (flag_values flags) c ≡ false
not-contains_of_none c flags e = elim (Bool-cases (contains (flag_values flags) c)) [
  | inl h ↦ absurd (last_match_some c flags none h e)
  | inr h ↦ h
]

pub value_of_match :
    (c id : String) (flags : Flags)
    → Unique (flag_ids flags)
    → last_match c flags none ≡ some id
    → value_of id flags ≡ some c
value_of_match c id flags u e =
    let (v, h) = value_of-contains id flags (last_match_known c flags none id e (λ q. cc)) in
    elim (text_dec c v) [
      | yes p ↦ h ∙ ap some (sym p)
      | no n ↦ absurd (last_match_miss c id v flags none u h n (λ q. cc) e)
    ]
