-- ===== src/Provision/Partial.antt =====
-- A run of the provisioning that fails half-way.
use Prim.Native.String.{String}
use k3df.Base.{
  ℕ, ◌≡◌, ◌≢◌, refl, Bool, true, false, not, ◌&&◌, List, [], ◌∷◌, map, codes, any, leb, text_dec,
  ap, arith, some, none, value_error, Bool-cases, inl, inr, all, ltb,
}
use k3df.Text.{is_ascii, is_white, lstrip, rstrip, strip}
use k3df.Provision.{Random, is_placeholder, write_files, provision, lower, same_codes, is_empty}

-- Stripping white space keeps what is none.
module _ (white : ℕ → Bool) where
  abbrev outside : ℕ → Bool
  outside c = leb 128 c && not (white c)

  outside-lstrip :
      (s : String) → any outside (codes s) ≡ true → any outside (codes (lstrip white s)) ≡ true
  unfolding lstrip
  outside-lstrip String.[] h = h
  outside-lstrip (String.◌∷◌ c s) h = ground (arith, outside-lstrip s)

  outside-rstrip :
      (s : String) → any outside (codes s) ≡ true → any outside (codes (rstrip white s)) ≡ true
  unfolding rstrip
  outside-rstrip String.[] h = h
  outside-rstrip (String.◌∷◌ c s) h = elim (text_dec (rstrip white s) String.[]) [
    | yes e ↦
        let none_left : any outside (codes (rstrip white s)) ≡ false =
          ap (λ t. any outside (codes t)) e in
        ground (arith, none_left, outside-rstrip s)
    | no n ↦ ground (arith, outside-rstrip s)
  ]

  outside-lower : (cs : List ℕ) → any outside cs ≡ true → any outside (map lower cs) ≡ true
  outside-lower [] h = h
  outside-lower (c ∷ cs) h = ground (arith, outside-lower cs)

  not-same_codes :
      (xs ys : List ℕ)
      → any outside xs ≡ true
      → all (λ c. ltb c 128) ys ≡ true
      → same_codes xs ys ≡ false
  not-same_codes [] ys h a = ground arith
  not-same_codes (x ∷ xs) [] h a = refl
  not-same_codes (x ∷ xs) (y ∷ ys) h a = ground (arith, not-same_codes xs ys)

  not_empty : (xs : List ℕ) → any outside xs ≡ true → is_empty xs ≡ false
  not_empty [] h = ground arith
  not_empty (x ∷ xs) h = refl

  is_ascii-outside : (s : String) → any outside (codes s) ≡ true → is_ascii s ≡ false
  unfolding is_ascii
  is_ascii-outside String.[] h = ground arith
  is_ascii-outside (String.◌∷◌ c s) h = ground (arith, is_ascii-outside s)

-- A character that is neither ASCII nor white space.
abbrev pub is_foreign : ℕ → Bool
is_foreign = outside is_white

foreign-is_placeholder :
    (hint : String) → any is_foreign (codes hint) ≡ true → is_placeholder hint ≡ false
unfolding is_placeholder strip
foreign-is_placeholder hint h =
    let stripped =
      outside-rstrip is_white (lstrip is_white hint) (outside-lstrip is_white hint h) in
    let text = map lower (codes (rstrip is_white (lstrip is_white hint))) in
    let there : any is_foreign text ≡ true =
      outside-lower is_white (codes (rstrip is_white (lstrip is_white hint))) stripped in
    rw
      (
        not_empty is_white text there,
        not-same_codes is_white text (codes "placeholder") there refl,
        not-same_codes is_white text (codes "todo") there refl,
      )
      refl

-- In an empty directory, a hint with a character that is neither ASCII nor white space makes the
-- provisioning raise a ValueError and leave the three flag files and a hint file behind, without
-- the files of the run. A second run, with whatever hint and whatever random bytes, then raises
-- as well and leaves every file as it is.
pub provision_non_ascii :
    (r again : Random) (hint next : String)
    → any is_foreign (codes hint) ≡ true
    → ((provision r hint []).1 ≡ some value_error)
      × (map (λ f. f.path) (provision r hint []).0
          ≡ "flag-1/flag-1.value" ∷ "flag-2/flag-2.value" ∷ "flag-3/flag-3.value"
            ∷ "flag-1/flag-1-hint.txt" ∷ [])
      × ((provision again next (provision r hint []).0).0 ≡ (provision r hint []).0)
      × ((provision again next (provision r hint []).0).1 ≢ none)
unfolding provision write_files
provision_non_ascii r again hint next h =
    rw (foreign-is_placeholder hint h, is_ascii-outside is_white hint h)
      (
        refl,
        refl,
        elim (Bool-cases (is_placeholder next)) [ inl p ↦ rw p refl | inr n ↦ rw n refl ],
        elim (Bool-cases (is_placeholder next)) [ inl p ↦ rw p (λ e. cc) | inr n ↦ rw n (λ e. cc) ],
      )
