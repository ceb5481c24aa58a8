-- ===== src/Scanner/Detect.antt =====
-- When the scanner reports, in terms of the two responses.
use k3df.Base.{
  ◌∙◌, sym, ℕ, ◌*◌, ◌<◌, ◌≡◌, ◌↔◌, ◌≢◌, refl, ap, inl, inr, Bool, true, false, String, Option, none,
  some, List, [], ◌∷◌, ◌++◌, codes, length, if◌then◌else◌, arith, Bool-cases,
}
use k3df.Scanner.{
  Response, Finding, is_prefix, is_in, is_ok, finding, is_suspicious, scan_sql_injection, url_of,
  attack_value,
}

is_prefix-append : (xs ys : List ℕ) → is_prefix xs ys ≡ true → (v : List ℕ) × (ys ≡ xs ++ v)
is_prefix-append [] ys h = (ys, refl)
is_prefix-append (x ∷ xs) [] h = cc
is_prefix-append (x ∷ xs) (y ∷ ys) h =
    let (v, e) = is_prefix-append xs ys (ground arith) in
    let same : x ≡ y = ground arith in (v, ap (λ z. z ∷ ys) (sym same) ∙ ap (◌∷◌ x) e)

is_prefix_of_append : (xs v : List ℕ) → is_prefix xs (xs ++ v) ≡ true
is_prefix_of_append [] v = refl
is_prefix_of_append (x ∷ xs) v = ground (arith, is_prefix_of_append xs v)

is_in-append : (xs ys : List ℕ) → is_in xs ys ≡ true → (u v : List ℕ) × (ys ≡ u ++ (xs ++ v))
is_in-append xs [] h = let (v, e) = is_prefix-append xs [] h in ([], v, e)
is_in-append xs (y ∷ ys) h = elim (Bool-cases (is_prefix xs (y ∷ ys))) [
  | inl here ↦ let (v, e) = is_prefix-append xs (y ∷ ys) here in ([], v, e)
  | inr later ↦ let (u, v, e) = is_in-append xs ys (ground arith) in (y ∷ u, v, ap (◌∷◌ y) e)
]

is_in_of_prefix : (xs ys : List ℕ) → is_prefix xs ys ≡ true → is_in xs ys ≡ true
is_in_of_prefix xs [] h = h
is_in_of_prefix xs (y ∷ ys) h = ground arith

is_in_of_append : (xs u v : List ℕ) → is_in xs (u ++ (xs ++ v)) ≡ true
is_in_of_append xs [] v = is_in_of_prefix xs (xs ++ v) (is_prefix_of_append xs v)
is_in_of_append xs (y ∷ u) v = ground (arith, is_in_of_append xs u v)

-- The responses of a server that is open to the attack, as the scanner sees it.
abbrev pub IsOpen : Response → Response → Type 0
IsOpen normal attack =
    (normal.status ≡ some 200)
    × (attack.status ≡ some 200)
    × (3 * length (codes normal.body) < 2 * length (codes attack.body))
    × ((u v : List ℕ) × (codes attack.body ≡ u ++ (codes "\"customers\"" ++ v)))

is_ok-some : (o : Option ℕ) → is_ok o ≡ true → o ≡ some 200
is_ok-some none h = cc
is_ok-some (some n) h = ap some (ground arith)

is_suspicious-IsOpen :
    (normal attack : Response) → is_suspicious normal attack ≡ true → IsOpen normal attack
unfolding is_suspicious
is_suspicious-IsOpen normal attack h = (
  is_ok-some normal.status (ground arith),
  is_ok-some attack.status (ground arith),
  ground arith,
  is_in-append (codes "\"customers\"") (codes attack.body) (ground arith),
)

IsOpen-is_suspicious :
    (normal attack : Response) → IsOpen normal attack → is_suspicious normal attack ≡ true
unfolding is_suspicious
IsOpen-is_suspicious normal attack (n, a, big, (u, v, e)) =
    let there : is_in (codes "\"customers\"") (codes attack.body) ≡ true =
      rw e (is_in_of_append (codes "\"customers\"") u v) in
    ground (arith, n, a, big, there)

finding_iff : (b : Bool) (f : Finding) → ((if b then f ∷ [] else []) ≢ []) ↔ (b ≡ true)
finding_iff true f = (λ h. refl, λ h e. cc)
finding_iff false f = (λ h. absurd (h refl), λ h e. cc)

-- The scanner has a finding exactly if both responses have the status 200, twice the length of
-- the attack response is more than three times that of the normal one, and the attack response
-- contains the quoted word customers.
pub scan_sql_injection_iff :
    (request : String → Response) (base_url : String)
    → ((scan_sql_injection request base_url).findings ≢ [])
      ↔ IsOpen (request (url_of base_url "1")) (request (url_of base_url attack_value))
unfolding scan_sql_injection
scan_sql_injection_iff request base_url =
    let normal = request (url_of base_url "1") in
    let attack = request (url_of base_url attack_value) in
    let reports = finding_iff (is_suspicious normal attack) (finding normal attack) in
    (
      λ h. is_suspicious-IsOpen normal attack (reports.0 h),
      λ o. reports.1 (IsOpen-is_suspicious normal attack o),
    )
