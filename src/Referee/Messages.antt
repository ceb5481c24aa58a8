-- ===== src/Referee/Messages.antt =====
-- What the printed diagnostics of referee/service.py keep back.
use k3df.Base.{
  zero, suc, ℕ, codes, String, refl, all, ◌≡◌, inl, inr, true, false, List, [], ◌∷◌, ◌++◌, Bool,
  ◌&&◌, ◌||◌, arith, eqb, all-append, ap, ◌∙◌, ◌≢◌, not,
}
use mathlib.Core.List.{append_assoc}
use k3df.Referee.Files.{
  is_safe, Diagnostic, Init, ready, failed, uncaught, matches_flag, matches_tail, matches_prefix,
}
use k3df.Referee.State.{Environment, Referee}
use k3df.Referee.Start.{start}
use k3df.Referee.Diagnostic.{diagnostic_text, main, exits, after_start, actual_text}
use k3df.Referee.PlainText.{plain, plain-append, plain_label, labelled, plain-actual_text}
use k3df.Referee.Reserved.{IsReserved, Reserved, flag_form, start-Reserved}

-- The characters after an opening brace: so many safe ones and a closing brace.
starts : ℕ → List ℕ → Bool
starts zero (c ∷ cs) = eqb c b'}'
starts (suc n) (c ∷ cs) = is_safe c && starts n cs
starts zero [] = false
starts (suc n) [] = false

-- Somewhere stands the part of a flag that follows its first letters.
has_secret : List ℕ → Bool
has_secret [] = false
has_secret (c ∷ cs) = (eqb c b'{' && starts 43 cs) || has_secret cs

has_secret-append : (xs ys : List ℕ) → plain xs ≡ true → has_secret (xs ++ ys) ≡ has_secret ys
unfolding has_secret plain
has_secret-append [] ys p = refl
has_secret-append (x ∷ xs) ys p = ground (arith, has_secret-append xs ys)

has_secret-form : (ys : List ℕ) → has_secret (codes flag_form ++ ys) ≡ has_secret ys
unfolding has_secret starts
has_secret-form ys = refl

has_secret-append_right : (xs ys : List ℕ) → has_secret ys ≡ true → has_secret (xs ++ ys) ≡ true
unfolding has_secret
has_secret-append_right [] ys h = h
has_secret-append_right (x ∷ xs) ys h = ground (arith, has_secret-append_right xs ys h)

starts-append : (n : ℕ) (cs ys : List ℕ) → matches_tail n cs ≡ true → starts n (cs ++ ys) ≡ true
unfolding matches_tail starts
starts-append zero [] ys h = ground (arith, h)
starts-append zero (c ∷ []) ys h = h
starts-append zero (c ∷ d ∷ cs) ys h = ground (arith, h)
starts-append (suc n) [] ys h = ground (arith, h)
starts-append (suc n) (c ∷ cs) ys h = ground (arith, starts-append n cs ys)

abbrev front : Diagnostic → List ℕ
front d =
    codes "Referee initialization failed: category="
    ++ codes d.category
    ++ codes "; target="
    ++ codes d.target
    ++ codes "; check="
    ++ codes d.check
    ++ codes "; expected="

abbrev back : Diagnostic → List ℕ
back d = codes "; actual=" ++ actual_text d.actual ++ codes "."

diagnostic_text_parts :
    (d : Diagnostic) → diagnostic_text d ≡ front d ++ (codes d.expected ++ back d)
unfolding diagnostic_text
diagnostic_text_parts d = simp append_assoc

plain-front : (d : Diagnostic) → IsReserved d → plain (front d) ≡ true
plain-front d r =
    plain-append _ (codes "; expected=")
      (labelled _ "; check=" (codes d.check)
        (labelled _ "; target=" (codes d.target)
          (plain-append (codes "Referee initialization failed: category=") (codes d.category)
            (plain_label "Referee initialization failed: category=" refl)
            (plain_label d.category r.category))
          refl (plain_label d.target r.target))
        refl (plain_label d.check r.check))
      (plain_label "; expected=" refl)

plain-back : (d : Diagnostic) → plain (back d) ≡ true
plain-back d =
    plain-append (codes "; actual=" ++ actual_text d.actual) (codes ".")
      (plain-append (codes "; actual=") (actual_text d.actual) (plain_label "; actual=" refl)
        (plain-actual_text d.actual))
      (plain_label "." refl)

plain-has_secret : (xs : List ℕ) → plain xs ≡ true → has_secret xs ≡ false
unfolding has_secret plain
plain-has_secret [] p = refl
plain-has_secret (x ∷ xs) p = ground (arith, plain-has_secret xs)

has_secret-diagnostic_text :
    (d : Diagnostic) → IsReserved d → has_secret (diagnostic_text d) ≡ false
has_secret-diagnostic_text d r =
    ap has_secret (diagnostic_text_parts d)
    ∙ has_secret-append (front d) (codes d.expected ++ back d) (plain-front d r)
    ∙ elim r.expected [
      | inl p ↦
          has_secret-append (codes d.expected) (back d) (plain_label d.expected p)
          ∙ plain-has_secret (back d) (plain-back d)
      | inr e ↦
          ap (λ s. has_secret (codes s ++ back d)) e
          ∙ has_secret-form (back d)
          ∙ plain-has_secret (back d) (plain-back d)
    ]

abbrev no_slash : ℕ → Bool
no_slash c = not (eqb c b'/')

plain-no_slash : (xs : List ℕ) → plain xs ≡ true → all no_slash xs ≡ true
unfolding plain
plain-no_slash [] p = refl
plain-no_slash (x ∷ xs) p = ground (arith, plain-no_slash xs)

expected-no_slash : (d : Diagnostic) → IsReserved d → all no_slash (codes d.expected) ≡ true
expected-no_slash d r = elim r.expected [
  | inl p ↦ plain-no_slash (codes d.expected) (plain_label d.expected p)
  | inr e ↦ ap (λ s. all no_slash (codes s)) e
]

diagnostic_text-no_slash : (d : Diagnostic) → IsReserved d → all no_slash (diagnostic_text d) ≡ true
diagnostic_text-no_slash d r =
    ap (all no_slash) (diagnostic_text_parts d)
    ∙ all-append no_slash (front d) (codes d.expected ++ back d)
        (plain-no_slash (front d) (plain-front d r))
        (all-append no_slash (codes d.expected) (back d) (expected-no_slash d r)
          (plain-no_slash (back d) (plain-back d)))

-- A flag inside a text is found.
has_secret-matches_prefix :
    (cs ys : List ℕ) → matches_prefix (codes "K3DF{") cs ≡ true → has_secret (cs ++ ys) ≡ true
unfolding has_secret
has_secret-matches_prefix (a ∷ b ∷ c ∷ d ∷ e ∷ cs) ys m = ground (arith, starts-append 43 cs ys)
has_secret-matches_prefix (a ∷ b ∷ c ∷ d ∷ []) ys m = ground arith
has_secret-matches_prefix (a ∷ b ∷ c ∷ []) ys m = ground arith
has_secret-matches_prefix (a ∷ b ∷ []) ys m = ground arith
has_secret-matches_prefix (a ∷ []) ys m = ground arith
has_secret-matches_prefix [] ys m = ground arith

has_secret-matches_flag :
    (value : String) (xs ys : List ℕ)
    → matches_flag value ≡ true
    → has_secret (xs ++ (codes value ++ ys)) ≡ true
unfolding matches_flag
has_secret-matches_flag value xs ys m =
    has_secret-append_right xs (codes value ++ ys) (has_secret-matches_prefix (codes value) ys m)

exits-of :
    (m : Init Referee) (code : ℕ) (text : List ℕ)
    → after_start m ≡ exits code text
    → Reserved m
    → (code ≡ 1) × ((d : Diagnostic) × IsReserved d × (text ≡ diagnostic_text d))
exits-of (ready s) code text e r = cc
exits-of (failed d) code text e r = (cc, (d, r, cc))
exits-of (uncaught x) code text e r = cc

-- If the start of the referee ends the process with a code and a printed text, whatever the
-- environment, the flag files, the state directory and the state file are, then the code is 1, no
-- character of the text is a slash, and no text of the form of a flag stands anywhere in it.
pub main-keeps_flags :
    (env : Environment) (code : ℕ) (text : List ℕ) (value : String) (before after : List ℕ)
    → main env ≡ exits code text
    → matches_flag value ≡ true
    → (code ≡ 1)
      × (all (λ c. not (eqb c b'/')) text ≡ true)
      × (text ≢ before ++ codes value ++ after)
unfolding main
main-keeps_flags env code text value before after e m =
    let (one, (d, r, same)) = exits-of (start env) code text e (start-Reserved env) in
    (
      one,
      ap (all no_slash) same ∙ diagnostic_text-no_slash d r,
      λ within.
          let found : has_secret text ≡ true =
            ap has_secret (within ∙ append_assoc before (codes value) after)
            ∙ has_secret-matches_flag value before after m in
          let none : has_secret text ≡ false =
            ap has_secret same ∙ has_secret-diagnostic_text d r in
          cc,
    )
