-- ===== src/Defender/Collect/Odd.antt =====
-- The targets at which `urlsplit` raises, and what one such line does to the others.
use Prim.Native.Char.{code}
use Prim.Native.String.{String}
use Prim.Native.String.append.{cons, nil}
use k3df.Base.{
  ◌≡◌, refl, ap, ◌∙◌, ◌⊎◌, inl, inr, ℕ, Bool, true, not, ◌&&◌, ◌||◌, Bool-cases, Option, none, some,
  List, [], ◌∷◌, ◌++◌, all, codes, ok, raised, value_error, ◌<>◌, arith,
}
use k3df.Json.{Value}
use k3df.Defender.Collect.Pattern.{span, after_prefix, Entry, read_line}
use k3df.Defender.Collect.Url.{
  Url, strip_controls, without_scheme, no_delimiter, odd_brackets, split_query, split_netloc,
  split_authority, urlsplit, must_check,
}
use k3df.Defender.Collect.Sources.{Library, add_access, access_items}

span_whole : (p : ℕ → Bool) (s : String) → all p (codes s) ≡ true → span p s ≡ (s, String.[])
unfolding span
span_whole p String.[] h = refl
span_whole p (String.◌∷◌ c s) h = elim (Bool-cases (p (code c))) [
  | inl first ↦ rw (first, span_whole p s (rw first at h)) refl
  | inr other ↦ absurd (ground (arith, h))
]

slashes : (s : String) → "//" <> s ≡ String.◌∷◌ "/" (String.◌∷◌ "/" s)
slashes s =
    cons "/" "/" s ∙ ap (String.◌∷◌ "/") (cons "/" String.[] s ∙ ap (String.◌∷◌ "/") (nil s))

-- A target of two slashes and an authority in which one bracket stands without the other.
pub urlsplit_odd :
    (checks : String → Bool) (netloc : String)
    → all no_delimiter (codes netloc) ≡ true
    → odd_brackets netloc ≡ true
    → urlsplit checks ("//" <> netloc) ≡ raised value_error
unfolding urlsplit strip_controls without_scheme span after_prefix
urlsplit_odd checks netloc h odd = rw (slashes netloc, span_whole no_delimiter netloc h, odd) refl

split_netloc_cases :
    (checks : String → Bool) (rest : String)
    → ((url : Url) × (split_netloc checks rest ≡ ok url))
      ⊎ (split_netloc checks rest ≡ raised value_error)
split_netloc_cases checks rest =
    let netloc = (span no_delimiter rest).0 in
    elim (Bool-cases (odd_brackets netloc || (must_check checks netloc && not (checks netloc)))) [
      | inl refused ↦ inr (rw refused refl)
      | inr fine ↦ inl (split_query (span no_delimiter rest).1, rw fine refl)
    ]

authority_cases :
    (checks : String → Bool) (url : String) (o : Option String)
    → ((u : Url) × (split_authority checks url o ≡ ok u))
      ⊎ (split_authority checks url o ≡ raised value_error)
authority_cases checks url none = inl (_, refl)
authority_cases checks url (some rest) = split_netloc_cases checks rest

-- `urlsplit` raises nothing but a `ValueError`.
urlsplit_cases :
    (checks : String → Bool) (target : String)
    → ((url : Url) × (urlsplit checks target ≡ ok url))
      ⊎ (urlsplit checks target ≡ raised value_error)
unfolding urlsplit
urlsplit_cases checks target =
    let url = without_scheme (strip_controls target) in
    authority_cases checks url (after_prefix "//" url)

module _ (l : Library) (path : String) (now : Value) where
  add_access_raised :
      (line : String) (o : Option Entry)
      → add_access l path now line o (raised value_error) ≡ raised value_error
  add_access_raised line none = refl
  add_access_raised line (some e) = elim (urlsplit_cases l.checks e.target) [
    | inl (url, split) ↦ rw split refl
    | inr odd ↦ rw odd refl
  ]

  -- If a line matches and its target cannot be split, then the lines as a whole raise a
  -- `ValueError`, whatever stands before and after it.
  pub access_items_raised :
      (pre post : List String) (line : String) (e : Entry)
      → read_line l.digit line ≡ some e
      → urlsplit l.checks e.target ≡ raised value_error
      → access_items l path now (pre ++ (line ∷ post)) ≡ raised value_error
  unfolding access_items
  access_items_raised [] post line e read odd = rw (read, odd) refl
  access_items_raised (first ∷ pre) post line e read odd =
      rw (access_items_raised pre post line e read odd)
        (add_access_raised first (read_line l.digit first))
