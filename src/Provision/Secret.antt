-- ===== src/Provision/Secret.antt =====
-- Every secret that is provisioned has the form that the referee asks of a flag.
use k3df.Base.{
  ℕ, zero, suc, ◌+◌, ◌*◌, ◌/◌, ◌%◌, ◌<◌, ◌≡◌, refl, true, false, String, List, [], ◌∷◌, ◌++◌, codes,
  length, eqb, arith, All,
}
use k3df.Referee.{matches_flag, matches_tail, is_safe}
use k3df.Provision.{digit, encode, strip_padding, secret}

pub digit-is_safe : (n : ℕ) → n < 64 → is_safe (digit n) ≡ true
digit-is_safe n h = ground arith

pub not_padding : (c : ℕ) → is_safe c ≡ true → eqb c b'=' ≡ false
not_padding c h = ground arith

-- One safe character in front.
matches_tail-safe :
    (n c : ℕ) (cs : List ℕ)
    → is_safe c ≡ true
    → matches_tail n (strip_padding cs ++ (b'}' ∷ [])) ≡ true
    → matches_tail (suc n) (strip_padding (c ∷ cs) ++ (b'}' ∷ [])) ≡ true
unfolding matches_tail strip_padding
matches_tail-safe n c cs safe h = rw (not_padding c safe, safe) h

abbrev pub IsByte : ℕ → Type 0
IsByte n = n < 256

matches_tail-digit :
    (n d : ℕ) (cs : List ℕ)
    → d < 64
    → matches_tail n (strip_padding cs ++ (b'}' ∷ [])) ≡ true
    → matches_tail (suc n) (strip_padding (digit d ∷ cs) ++ (b'}' ∷ [])) ≡ true
matches_tail-digit n d cs h m = matches_tail-safe n (digit d) cs (digit-is_safe d h) m

end_of_padding : matches_tail 0 (strip_padding (b'=' ∷ []) ++ (b'}' ∷ [])) ≡ true
unfolding matches_tail strip_padding
end_of_padding = refl

-- Three bytes more are four characters more.
matches_tail-encode :
    (k : ℕ) (bytes : List ℕ)
    → length bytes ≡ 3 * k + 2
    → All IsByte bytes
    → matches_tail (4 * k + 3) (strip_padding (encode bytes) ++ (b'}' ∷ [])) ≡ true
unfolding encode
matches_tail-encode k [] l h = absurd (omega (arith, l))
matches_tail-encode k (a ∷ []) l h = absurd (omega (arith, l))
matches_tail-encode zero (a ∷ b ∷ []) l h = matches_tail-digit 2 (a / 4) _ (omega (arith, h.0)) (
    matches_tail-digit 1 (a % 4 * 16 + b / 16) _ (omega (arith, h.1.0))
      (matches_tail-digit 0 (b % 16 * 4) _ (omega arith) end_of_padding))
matches_tail-encode (suc k) (a ∷ b ∷ []) l h = absurd (omega (arith, l))
matches_tail-encode zero (a ∷ b ∷ c ∷ bytes) l h = absurd (omega (arith, l))
matches_tail-encode (suc k) (a ∷ b ∷ c ∷ bytes) l h =
    let rest = matches_tail-encode k bytes (omega (arith, l)) h.1.1.1 in
    let four : 4 * suc k + 3 ≡ suc (suc (suc (suc (4 * k + 3)))) = omega arith in
    rw four (
      matches_tail-digit (suc (suc (suc (4 * k + 3)))) (a / 4) _ (omega (arith, h.0)) (
        matches_tail-digit (suc (suc (4 * k + 3))) (a % 4 * 16 + b / 16) _ (omega (arith, h.1.0)) (
          matches_tail-digit (suc (4 * k + 3)) (b % 16 * 4 + c / 64) _ (omega (arith, h.1.1.0))
            (matches_tail-digit (4 * k + 3) (c % 64) _ (omega arith) rest))))

-- A text that the provisioning makes as a secret of 32 random bytes is of the form that the
-- referee asks of a flag.
pub matches_flag-secret :
    (bytes : List ℕ) (value : String)
    → length bytes ≡ 32
    → All IsByte bytes
    → codes value ≡ secret bytes
    → matches_flag value ≡ true
unfolding matches_flag
matches_flag-secret bytes value l h e = rw e (matches_tail-encode 10 bytes (omega (arith, l)) h)
