-- ===== src/Dashboard/Request.antt =====
-- dashboard/app.py: `SUSPICIOUS_REQUEST`. Only whether it is found matters, so a regular expression is
-- followed to all the places where a match of it may end.
use k3df.Base.{
  ℕ, ◌+◌, Bool, true, false, not, ◌&&◌, ◌||◌, String, Option, none, some, List, [], ◌∷◌, ◌++◌,
  codes, eqb, if◌then◌else◌,
}
use k3df.Text.{is_white}

-- The repetitions of this expression are of single characters.
pub data Regex : Type 0 where
  one : (ℕ → Bool) → Regex
  some_of many_of : (ℕ → Bool) → Regex
  boundary : Regex
  maybe : Regex → Regex
  both either : Regex → Regex → Regex

-- The character before a place, and the characters after it.
pub record Place : Type 0 where
  pub left : Option ℕ
  pub rest : List ℕ

abbrev place : ℕ → List ℕ → Place
place c cs = record { left = some c; rest = cs }

abbrev first_if : (ℕ → Bool) → List ℕ → List Place
first_if p [] = []
first_if p (c ∷ cs) = if p c then place c cs ∷ [] else []

-- After one character of the class or more.
unfoldable pub run_ends : (ℕ → Bool) → List ℕ → List Place
run_ends p [] = []
run_ends p (c ∷ cs) = let more = run_ends p cs in if p c then place c cs ∷ more else []

abbrev differ : Bool → Bool → Bool
differ true b = not b
differ false b = b

abbrev each_end : (Place → List Place) → List Place → List Place
each_end f [] = []
each_end f (k ∷ ks) = f k ++ each_end f ks

-- `is_word` is `str.isalnum`, or the underscore.
module _ (is_word : ℕ → Bool) where
  abbrev left_word : Option ℕ → Bool
  left_word none = false
  left_word (some c) = is_word c

  abbrev right_word : List ℕ → Bool
  right_word [] = false
  right_word (c ∷ cs) = is_word c

  unfoldable pub ends : Regex → Place → List Place
  ends (one p) k = first_if p k.rest
  ends (some_of p) k = run_ends p k.rest
  ends (many_of p) k = k ∷ run_ends p k.rest
  ends boundary k = if differ (left_word k.left) (right_word k.rest) then k ∷ [] else []
  ends (maybe r) k = k ∷ ends r k
  ends (either r t) k = ends r k ++ ends t k
  ends (both r t) k = each_end (ends t) (ends r k)

  abbrev is_some : List Place → Bool
  is_some [] = false
  is_some (_ ∷ _) = true

  -- `pattern.search`, from the place on.
  unfoldable pub found_from : Regex → Option ℕ → List ℕ → Bool
  found_from r left [] = is_some (ends r (record { left = left; rest = [] }))
  found_from r left (c ∷ cs) =
      let later = found_from r (some c) cs in
      is_some (ends r (record { left = left; rest = c ∷ cs })) || later

-- A letter in either case. Ignoring case also joins two further letters to i, and one to s.
abbrev folds : ℕ → ℕ → Bool
folds l c =
    eqb c l
    || eqb (c + 32) l
    || (eqb l b'i' && (eqb c 0x130 || eqb c 0x131))
    || (eqb l b's' && eqb c 0x17F)

abbrev pub letters : List ℕ → Regex
letters [] = maybe boundary
letters (l ∷ []) = one (folds l)
letters (l ∷ ls) = both (one (folds l)) (letters ls)

-- `\bword\b`
abbrev whole_word : String → Regex
whole_word w = both boundary (both (letters (codes w)) boundary)

-- The letters alone.
abbrev word_start : String → Regex
word_start w = letters (codes w)

abbrev exactly : ℕ → Regex
exactly c = one (eqb c)

module _ (is_word : ℕ → Bool) where
  -- `[\w'"]`
  abbrev is_operand : ℕ → Bool
  is_operand c = is_word c || eqb c b'\'' || eqb c b'"'

  abbrev union_select : Regex
  union_select = both (whole_word "union") (
      both (some_of is_white)
        (both (maybe (both (word_start "all") (some_of is_white))) (whole_word "select")))

  abbrev select_from : Regex
  select_from =
      both (whole_word "select") (both (some_of (λ c. not (eqb c 10))) (whole_word "from"))

  abbrev or_equal : Regex
  or_equal = both (whole_word "or") (
      both (some_of is_white) (
        both (some_of is_operand) (
          both (many_of is_white)
            (both (exactly b'=') (both (many_of is_white) (some_of is_operand))))))

  abbrev sleep_call : Regex
  sleep_call = both boundary (both (word_start "sleep") (both (many_of is_white) (exactly b'(')))

  abbrev drop_table : Regex
  drop_table = both (whole_word "drop") (both (some_of is_white) (whole_word "table"))

  abbrev pub suspicious_request : Regex
  suspicious_request = either union_select (
      either select_from (
        either or_equal (
          either (both (exactly b'-') (exactly b'-'))
            (either (both (exactly b'/') (exactly b'*')) (either sleep_call drop_table)))))

  -- `SUSPICIOUS_REQUEST.search(request)`
  unfoldable pub is_suspicious : String → Bool
  unfolding found_from ends run_ends
  is_suspicious request = found_from is_word suspicious_request none (codes request)
