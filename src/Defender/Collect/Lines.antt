-- ===== src/Defender/Collect/Lines.antt =====
-- The line that nginx writes is read back: its `log_format main` and `ACCESS_PATTERN` fit.
use Prim.Native.Char.{Char, code}
use Prim.Native.String.{String}
use Prim.Native.String.append.{cons, nil}
use k3df.Base.{
  ◌≡◌, refl, ap, inl, inr, ℕ, Bool, true, false, not, Bool-cases, Option, some, List, [], ◌∷◌, all,
  codes, ◌<>◌, arith, eqb,
}
use k3df.Defender.Collect.Pattern.{
  is_black, span, after_prefix, Piece, one_or_more, literal, three_digits, match, entry_of,
  read_line, read_three, is_decimal,
}

-- The text is not empty, and all of it is in the class.
abbrev pub IsRun : (ℕ → Bool) → String → Type 0
IsRun p String.[] = ⊥
IsRun p (String.◌∷◌ c s) = (p (code c) ≡ true) × (all p (codes s) ≡ true)

-- The text begins with a character outside the class.
abbrev pub Stops : (ℕ → Bool) → String → Type 0
Stops p String.[] = Unit
Stops p (String.◌∷◌ c s) = p (code c) ≡ false

span-append :
    (p : ℕ → Bool) (s t : String) → all p (codes s) ≡ true → Stops p t → span p (s <> t) ≡ (s, t)
unfolding span
span-append p String.[] String.[] h stop = refl
span-append p String.[] (String.◌∷◌ c t) h stop = rw (nil (String.◌∷◌ c t), stop) refl
span-append p (String.◌∷◌ c s) t h stop = elim (Bool-cases (p (code c))) [
  | inl first ↦ rw (cons c s t, first, span-append p s t (rw first at h) stop) refl
  | inr other ↦ absurd (ground (arith, h))
]

after_prefix-append : (p s : String) → after_prefix p (p <> s) ≡ some s
unfolding after_prefix
after_prefix-append String.[] s = ap some (nil s)
after_prefix-append (String.◌∷◌ c p) s = rw (cons c p s, after_prefix-append p s) (ground arith)

abbrev pub three : Char → Char → Char → String
three a b c = String.◌∷◌ a (String.◌∷◌ b (String.◌∷◌ c String.[]))

-- `log_format main`, from the request on, with the rest of the line.
abbrev pub main_line :
    String → String → String → String → String → String → String → String → String
main_line ip user time method target protocol status tail =
    ip <> " " <> "-" <> " " <> user <> " [" <> time <> "] \"" <> method <> " " <> target <> " "
    <> protocol <> "\" " <> status <> tail

module _ (digit : ℕ → Option ℕ) where
  match_run :
      (p : ℕ → Bool) (pieces : List Piece) (s t : String) (groups : List String)
      → IsRun p s
      → Stops p t
      → match digit pieces t ≡ some groups
      → match digit (one_or_more p ∷ pieces) (s <> t) ≡ some (s ∷ groups)
  unfolding match
  match_run p pieces String.[] t groups h stop rest = absurd h
  match_run p pieces (String.◌∷◌ c s) t groups (first, others) stop rest =
      rw (span-append p (String.◌∷◌ c s) t (rw first others) stop, rest) refl

  match_literal :
      (pieces : List Piece) (l t : String) (groups : List String)
      → match digit pieces t ≡ some groups
      → match digit (literal l ∷ pieces) (l <> t) ≡ some groups
  unfolding match
  match_literal pieces l t groups rest = rw (after_prefix-append l t) rest

  -- A run and the literal after it, whose first character is not in the class.
  match_field :
      (p : ℕ → Bool) (pieces : List Piece) (s : String) (c : Char) (l t : String)
      (groups : List String)
      → IsRun p s
      → p (code c) ≡ false
      → match digit pieces t ≡ some groups
      → match digit (one_or_more p ∷ literal (String.◌∷◌ c l) ∷ pieces) (s <> (String.◌∷◌ c l) <> t)
        ≡ some (s ∷ groups)
  match_field p pieces s c l t groups h stop rest =
      match_run p (literal (String.◌∷◌ c l) ∷ pieces) s (String.◌∷◌ c l <> t) groups h
        (rw (cons c l t) stop) (match_literal pieces (String.◌∷◌ c l) t groups rest)

  match_status :
      (a b c : Char) (tail : String)
      → is_decimal digit (code a) ≡ true
      → is_decimal digit (code b) ≡ true
      → is_decimal digit (code c) ≡ true
      → match digit (three_digits ∷ []) (three a b c <> tail) ≡ some (three a b c ∷ [])
  unfolding match read_three
  match_status a b c tail da db dc =
      rw (cons a _ tail, cons b _ tail, cons c _ tail, nil tail, da, db, dc) refl

  -- The line of nginx's log_format main, whose address, user, method and target are not empty
  -- and have no white space, whose time is not empty and has no closing bracket, whose protocol
  -- is not empty and has no quote, and whose status is three decimal digits, is read back field
  -- by field.
  pub read_line_main :
      (ip user time method target protocol : String) (a b c : Char) (tail : String)
      → IsRun is_black ip
      → IsRun is_black user
      → IsRun (λ c. not (eqb c b']')) time
      → IsRun is_black method
      → IsRun is_black target
      → IsRun (λ c. not (eqb c b'"')) protocol
      → is_decimal digit (code a) ≡ true
      → is_decimal digit (code b) ≡ true
      → is_decimal digit (code c) ≡ true
      → read_line digit (main_line ip user time method target protocol (three a b c) tail)
        ≡ some (record {
          ip = ip;
          time = time;
          method = method;
          target = target;
          protocol = protocol;
          status = three a b c;
        })
  unfolding read_line
  read_line_main ip user time method target protocol a b c tail hi hu ht hm hg hp da db dc =
      ap entry_of (
        match_field is_black _ ip " " "" _ _ hi refl (
          match_field is_black _ "-" " " "" _ _ (refl, refl) refl
            (match_field (is_black) _ user " " "[" _ _ hu refl (
              match_field (λ c. not (eqb c b']')) _ time "]" " \"" _ _ ht refl
                (match_field is_black _ method " " "" _ _ hm refl (
                  match_field is_black _ target " " "" _ _ hg refl (
                    match_field (λ c. not (eqb c b'"')) _ protocol "\"" " " _ _ hp refl
                      (match_status a b c tail da db dc))))))))
