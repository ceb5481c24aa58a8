-- ===== src/Defender/Collect/Pattern.antt =====
-- defender/collectors.py: `ACCESS_PATTERN`. Each run of the pattern stops at the first character
-- outside its class, and the literal after it begins with such a character, so `match` never gives
-- a character back.
use Prim.Native.Char.{code}
use Prim.Native.String.{String}
use k3df.Base.{
  ℕ, Bool, true, false, not, ◌&&◌, Option, none, some, List, [], ◌∷◌, eqb, if◌then◌else◌,
}
use k3df.Text.{is_white}

-- `\S`
abbrev pub is_black : ℕ → Bool
is_black c = not (is_white c)

-- The longest run of a class, and the rest.
unfoldable pub span : (ℕ → Bool) → String → String × String
span p String.[] = (String.[], String.[])
span p (String.◌∷◌ c s) =
    let (run, rest) = span p s in
    if p (code c) then (String.◌∷◌ c run, rest) else (String.[], String.◌∷◌ c s)

-- What follows a literal.
unfoldable pub after_prefix : String → String → Option String
after_prefix String.[] s = some s
after_prefix (String.◌∷◌ d p) String.[] = none
after_prefix (String.◌∷◌ d p) (String.◌∷◌ c s) =
    let rest = after_prefix p s in if eqb (code d) (code c) then rest else none

-- A named or unnamed run of one character or more, a literal, and `\d{3}`.
pub data Piece : Type 0 where
  one_or_more : (ℕ → Bool) → Piece
  literal : String → Piece
  three_digits : Piece

-- The groups of a match: the runs and the digits.
abbrev pub cons_run : String × String → (String → Option (List String)) → Option (List String)
cons_run (String.[], rest) next = none
cons_run (String.◌∷◌ c s, rest) next = elim (next rest) [
  | none ↦ none
  | some groups ↦ some (String.◌∷◌ c s ∷ groups)
]

abbrev pub after_literal : Option String → (String → Option (List String)) → Option (List String)
after_literal none next = none
after_literal (some rest) next = next rest

-- `digit` is the value of a decimal digit of any script, as `unicodedata.decimal` has it.
module _ (digit : ℕ → Option ℕ) where
  abbrev pub is_decimal : ℕ → Bool
  is_decimal c = elim (digit c) [ none ↦ false | some d ↦ true ]

  unfoldable pub read_three : String → Option (String × String)
  read_three (String.◌∷◌ a (String.◌∷◌ b (String.◌∷◌ c s))) =
      if is_decimal (code a) && is_decimal (code b) && is_decimal (code c)
      then some (String.◌∷◌ a (String.◌∷◌ b (String.◌∷◌ c String.[])), s)
      else none
  read_three _ = none

  abbrev pub cons_digits :
      Option (String × String) → (String → Option (List String)) → Option (List String)
  cons_digits none next = none
  cons_digits (some r) next = cons_run r next

  -- `pattern.match(s)`
  unfoldable pub match : List Piece → String → Option (List String)
  match [] s = some []
  match (one_or_more p ∷ pieces) s = cons_run (span p s) (match pieces)
  match (literal t ∷ pieces) s = after_literal (after_prefix t s) (match pieces)
  match (three_digits ∷ pieces) s = cons_digits (read_three s) (match pieces)

abbrev pub access_pattern : List Piece
access_pattern =
    one_or_more is_black
    ∷ literal " "
    ∷ one_or_more is_black
    ∷ literal " "
    ∷ one_or_more is_black
    ∷ literal " ["
    ∷ one_or_more (λ c. not (eqb c b']'))
    ∷ literal "] \""
    ∷ one_or_more is_black
    ∷ literal " "
    ∷ one_or_more is_black
    ∷ literal " "
    ∷ one_or_more (λ c. not (eqb c b'"'))
    ∷ literal "\" "
    ∷ three_digits
    ∷ []

pub record Entry : Type 0 where
  pub ip : String
  pub time : String
  pub method : String
  pub target : String
  pub protocol : String
  pub status : String

abbrev pub entry_of : Option (List String) → Option Entry
entry_of (some (ip ∷ _ ∷ _ ∷ time ∷ method ∷ target ∷ protocol ∷ status ∷ [])) = some (record {
  ip = ip;
  time = time;
  method = method;
  target = target;
  protocol = protocol;
  status = status;
})
entry_of _ = none

-- `match.groupdict()` of a line.
unfoldable pub read_line : (ℕ → Option ℕ) → String → Option Entry
read_line digit line = entry_of (match digit access_pattern line)
