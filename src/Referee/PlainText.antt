-- ===== src/Referee/PlainText.antt =====
-- The texts in the diagnostics of referee/service.py: numbers in digits, and what does not stand in
-- them.
use native.Mathlib.Nat.{mul_comm, div-add-mod, mod-lt, div-lt_self}
use k3df.Base.{
  ℕ, zero, suc, ◌+◌, ◌-◌, ◌*◌, ◌/◌, ◌%◌, ◌<◌, ◌≤◌, ◌≡◌, ap, ◌∙◌, refl, List, [], ◌∷◌, ◌++◌, codes,
  String, arith, ltb, Bool, true, false, not, ◌&&◌, all, all-append, length, eqb, Bool-cases, inl,
  inr,
}
use k3df.Base.Int.{pos, negsuc}
use k3df.Referee.Files.{
  FileType, regular_file, directory, symlink, other, Actual, missing_or_unreadable, invalid,
  unreadable, duplicate_values, invalid_or_unreadable, kind, number, size, summary,
}
use k3df.Referee.Diagnostic.{
  digits, decimal_text, integer_text, padding, octal_text, file_type_text, actual_text,
}

-- What a list of digits says, after the number `n`.
abbrev number_of : ℕ → ℕ → List ℕ → ℕ
number_of base n [] = n
number_of base n (c ∷ cs) = number_of base (n * base + (c - b'0')) cs

digits_add : (base n : ℕ) → n / base * base + (b'0' + n % base - b'0') ≡ n
digits_add base n =
    let e : base * (n / base) + n % base ≡ n = div-add-mod n base in
    let c : base * (n / base) ≡ n / base * base = mul_comm base (n / base) in omega (arith, e, c)

digit_dropped : (base fuel n : ℕ) → 1 < base → n < suc fuel → ltb n base ≡ false → n / base < fuel
digit_dropped base fuel n b h e =
    let pos : 0 < n = ground arith in
    let less : n / base < n = div-lt_self pos b in omega (arith, less)

-- The fuel is enough: the digits say the number.
number_of-digits :
    (base fuel n : ℕ) (acc : List ℕ)
    → 1 < base
    → n < fuel
    → number_of base 0 (digits base fuel n acc) ≡ number_of base n acc
unfolding digits
number_of-digits base zero n acc b h = absurd (omega arith)
number_of-digits base (suc fuel) n acc b h = elim (Bool-cases (ltb n base)) [
  | inl e ↦ rw e (ap (λ k. number_of base k acc) (omega arith))
  | inr e ↦ rw e (
      number_of-digits base fuel (n / base) ((b'0' + n % base) ∷ acc) b
        (digit_dropped base fuel n b h e)
      ∙ ap (λ k. number_of base k acc) (digits_add base n))
]

number_of-decimal_text : (n : ℕ) → number_of 10 0 (decimal_text n) ≡ n
unfolding decimal_text
number_of-decimal_text n = number_of-digits 10 (suc n) n [] (omega arith) (omega arith)

abbrev pub plain_code : ℕ → Bool
plain_code c = not (eqb c b'/') && not (eqb c b'{')

-- Neither a slash nor an opening brace stands in the text.
unfoldable pub plain : List ℕ → Bool
plain cs = all plain_code cs

pub plain-append : (xs ys : List ℕ) → plain xs ≡ true → plain ys ≡ true → plain (xs ++ ys) ≡ true
unfolding plain
plain-append xs ys = all-append plain_code xs ys

plain-digits :
    (base fuel n : ℕ) (acc : List ℕ)
    → 0 < base
    → base ≤ 10
    → plain acc ≡ true
    → plain (digits base fuel n acc) ≡ true
unfolding digits plain
plain-digits base zero n acc b h p = p
plain-digits base (suc fuel) n acc b h p =
    ground (arith, mod-lt n b, plain-digits base fuel (n / base) ((b'0' + n % base) ∷ acc))

plain-decimal_text : (n : ℕ) → plain (decimal_text n) ≡ true
unfolding decimal_text plain
plain-decimal_text n = plain-digits 10 (suc n) n [] (omega arith) (omega arith) refl

plain-padding : (n : ℕ) → plain (padding n) ≡ true
unfolding plain
plain-padding zero = refl
plain-padding (suc n) = plain-padding n

plain-octal_text : (n : ℕ) → plain (octal_text n) ≡ true
unfolding octal_text plain
plain-octal_text n =
    let text = digits 8 (suc n) n [] in
    plain-append (padding (4 - length text)) text (plain-padding (4 - length text))
      (plain-digits 8 (suc n) n [] (omega arith) (omega arith) refl)

plain-file_type_text : (t : FileType) → plain (file_type_text t) ≡ true
unfolding file_type_text plain
plain-file_type_text regular_file = refl
plain-file_type_text directory = refl
plain-file_type_text symlink = refl
plain-file_type_text other = refl

pub plain_label : (s : String) → all plain_code (codes s) ≡ true → plain (codes s) ≡ true
unfolding plain
plain_label s h = h

pub labelled :
    (xs : List ℕ) (label : String) (ys : List ℕ)
    → plain xs ≡ true
    → all plain_code (codes label) ≡ true
    → plain ys ≡ true
    → plain (xs ++ codes label ++ ys) ≡ true
labelled xs label ys px l py =
    plain-append (xs ++ codes label) ys (plain-append xs (codes label) px (plain_label label l)) py

plain-summary :
    (t : FileType) (uid gid mode : ℕ) → plain (actual_text (summary t uid gid mode)) ≡ true
unfolding actual_text
plain-summary t uid gid mode =
    labelled _ ",mode=" (octal_text mode)
      (labelled _ ",gid=" (decimal_text gid)
        (labelled _ ",uid=" (decimal_text uid)
          (plain-append (codes "type=") (file_type_text t) (plain_label "type=" refl)
            (plain-file_type_text t))
          refl (plain-decimal_text uid))
        refl (plain-decimal_text gid))
      refl (plain-octal_text mode)

pub plain-actual_text : (a : Actual) → plain (actual_text a) ≡ true
unfolding actual_text integer_text plain
plain-actual_text missing_or_unreadable = refl
plain-actual_text invalid = refl
plain-actual_text unreadable = refl
plain-actual_text duplicate_values = refl
plain-actual_text invalid_or_unreadable = refl
plain-actual_text (kind t) = plain-file_type_text t
plain-actual_text (number (pos n)) = plain-decimal_text n
plain-actual_text (number (negsuc n)) = plain-decimal_text (suc n)
plain-actual_text (size n) = plain-decimal_text n
plain-actual_text (summary t uid gid mode) = plain-summary t uid gid mode
