-- ===== src/Defender/Collect/Url.antt =====
-- What defender/collectors.py uses of Python 3.11's `urllib.parse`: `urlsplit` of a target, which
-- has no white space, and the keys of `parse_qs` with blank values.
use Prim.Native.Char.{code}
use Prim.Native.String.{String}
use k3df.Base.{
  ℕ, Bool, true, false, not, ◌&&◌, ◌||◌, Option, none, some, List, [], ◌∷◌, leb, eqb, if◌then◌else◌,
  contains, codes, any, ◌<>◌, all, Result, ok, raised, value_error,
}
use k3df.Text.{before, is_digit, is_ascii}
use k3df.Defender.Collect.Pattern.{span, after_prefix}

-- The part of a target that the collector reads.
pub record Url : Type 0 where
  pub path : String
  pub query : String

abbrev is_letter : ℕ → Bool
is_letter c = (leb b'A' c && leb c b'Z') || (leb b'a' c && leb c b'z')

abbrev is_scheme_character : ℕ → Bool
is_scheme_character c = is_letter c || is_digit c || eqb c b'+' || eqb c b'-' || eqb c b'.'

-- `url.lstrip(…)` of the control characters and the space.
unfoldable pub strip_controls : String → String
strip_controls String.[] = String.[]
strip_controls (String.◌∷◌ c s) =
    let rest = strip_controls s in if leb (code c) 32 then rest else String.◌∷◌ c s

abbrev rest_after : String → String
rest_after String.[] = String.[]
rest_after (String.◌∷◌ c s) = s

abbrev is_blank : String → Bool
is_blank String.[] = true
is_blank (String.◌∷◌ c s) = false

abbrev starts_with_letter : String → Bool
starts_with_letter String.[] = false
starts_with_letter (String.◌∷◌ c s) = is_letter (code c)

-- The url without its scheme.
unfoldable pub without_scheme : String → String
unfolding span
without_scheme url =
    let (scheme, rest) = span (λ c. not (eqb c b':')) url in
    if starts_with_letter scheme && not (is_blank rest) && all is_scheme_character (codes scheme)
    then rest_after rest
    else url

abbrev pub no_delimiter : ℕ → Bool
no_delimiter c = not (eqb c b'/' || eqb c b'?' || eqb c b'#')

abbrev pub has : ℕ → String → Bool
has c s = any (eqb c) (codes s)

abbrev pub split_query : String → Url
split_query url =
    let (path, query) = span (λ c. not (eqb c b'?')) (before b'#' url) in
    record { path = path; query = rest_after query }

-- One bracket without the other.
abbrev pub odd_brackets : String → Bool
odd_brackets netloc =
    (has b'[' netloc && not (has b']' netloc)) || (has b']' netloc && not (has b'[' netloc))

-- `checks` is what Python's library further checks of a netloc: the host between brackets, and
-- characters outside ASCII under normalisation.
module _ (checks : String → Bool) where
  abbrev pub must_check : String → Bool
  must_check netloc = has b'[' netloc || not (is_ascii netloc)

  abbrev pub split_netloc : String → Result Url
  split_netloc url =
      let (netloc, rest) = span no_delimiter url in
      if odd_brackets netloc || (must_check netloc && not (checks netloc))
      then raised value_error
      else ok (split_query rest)

  abbrev pub split_authority : String → Option String → Result Url
  split_authority url none = ok (split_query url)
  split_authority url (some rest) = split_netloc rest

  -- `urlsplit(target)`
  unfoldable pub urlsplit : String → Result Url
  unfolding strip_controls without_scheme span after_prefix before is_ascii
  urlsplit target =
      let url = without_scheme (strip_controls target) in
      split_authority url (after_prefix "//" url)

abbrev plus_to_space : String → String
plus_to_space String.[] = String.[]
plus_to_space (String.◌∷◌ c s) =
    let rest = plus_to_space s in if eqb (code c) b'+' then " " <> rest else String.◌∷◌ c rest

abbrev cons_first : String → List String → List String
cons_first c [] = c ∷ []
cons_first c (s ∷ ss) = (c <> s) ∷ ss

-- `query.split('&')`
unfoldable pub split_fields : String → List String
split_fields String.[] = String.[] ∷ []
split_fields (String.◌∷◌ c s) =
    let rest = split_fields s in
    if eqb (code c) b'&' then String.[] ∷ rest else cons_first (String.◌∷◌ c String.[]) rest

-- `parse_qs(query, keep_blank_values=True).keys()`, where `unquote` decodes percent escapes.
module _ (unquote : String → String) where
  unfoldable pub field_names : List String → List String
  unfolding before
  field_names [] = []
  field_names (f ∷ fs) =
      let rest = field_names fs in
      let name = unquote (plus_to_space (before b'=' f)) in
      if is_blank f || contains rest name then rest else name ∷ rest

  unfoldable pub query_names : String → List String
  unfolding field_names split_fields
  query_names query = field_names (split_fields query)
