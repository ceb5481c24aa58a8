-- ===== src/Ssh/SelfTest.antt =====
-- challenge-ap2-ssh/selftest.py: the passwords it draws, and how it ends with one.
use k3df.Base.{
  ℕ, zero, suc, ◌+◌, ◌*◌, ◌/◌, ◌%◌, ◌<◌, ◌≡◌, ◌≢◌, refl, ap, true, false, String, none, some, List,
  [], ◌∷◌, codes, length, ltb, any, all, arith, All,
}
use k3df.Text.{is_ascii}
use k3df.Referee.{is_safe}
use k3df.Credential.{IsConfigured, is_forbidden}
use k3df.Provision.{digit, encode, strip_padding, token_urlsafe}
use k3df.Provision.Secret.{IsByte, digit-is_safe, not_padding}
use k3df.Ssh.{Asyncssh, passed, self_test, start_server}
use k3df.Ssh.Accepts.{Laws, verify-passed}

-- A text of `n` characters of the URL-safe alphabet.
record IsSafe (n : ℕ) (cs : List ℕ) : Type 0 where
  size : length cs ≡ n
  safe : all is_safe cs ≡ true

keep_digit :
    (n d : ℕ) (cs : List ℕ)
    → d < 64
    → IsSafe n (strip_padding cs)
    → IsSafe (suc n) (strip_padding (digit d ∷ cs))
unfolding strip_padding
keep_digit n d cs h s =
    let safe = digit-is_safe d h in
    rw (not_padding (digit d) safe) (record { size = ap suc s.size; safe = rw (safe, s.safe) refl })

-- Three bytes more are four characters more.
encode-IsSafe :
    (k : ℕ) (bytes : List ℕ)
    → length bytes ≡ 3 * k
    → All IsByte bytes
    → IsSafe (4 * k) (token_urlsafe bytes)
unfolding encode strip_padding
encode-IsSafe zero [] l h = record { size = refl; safe = refl }
encode-IsSafe (suc k) [] l h = absurd (omega (arith, l))
encode-IsSafe zero (a ∷ bytes) l h = absurd (omega (arith, l))
encode-IsSafe (suc k) (a ∷ []) l h = absurd (omega (arith, l))
encode-IsSafe (suc k) (a ∷ b ∷ []) l h = absurd (omega (arith, l))
encode-IsSafe (suc k) (a ∷ b ∷ c ∷ bytes) l h =
    let rest = encode-IsSafe k bytes (omega (arith, l)) h.1.1.1 in
    let four : 4 * suc k ≡ suc (suc (suc (suc (4 * k)))) = omega arith in
    let cs = encode bytes in
    let cs₁ = digit (c % 64) ∷ cs in
    let cs₂ = digit (b % 16 * 4 + c / 64) ∷ cs₁ in
    let cs₃ = digit (a % 4 * 16 + b / 16) ∷ cs₂ in
    rw four (
      keep_digit _ (a / 4) cs₃ (omega (arith, h.0)) (
        keep_digit _ (a % 4 * 16 + b / 16) cs₂ (omega (arith, h.1.0)) (
          keep_digit _ (b % 16 * 4 + c / 64) cs₁ (omega (arith, h.1.1.0))
            (keep_digit _ (c % 64) cs (omega arith) rest))))

safe-is_ascii : (cs : List ℕ) → all is_safe cs ≡ true → all (λ c. ltb c 128) cs ≡ true
safe-is_ascii [] h = refl
safe-is_ascii (c ∷ cs) h = ground (arith, h, safe-is_ascii cs)

safe_allowed : (cs : List ℕ) → all is_safe cs ≡ true → any is_forbidden cs ≡ false
safe_allowed [] h = refl
safe_allowed (c ∷ cs) h = ground (arith, h, safe_allowed cs)

-- A password that `token_urlsafe` makes of 36 bytes.
pub token_urlsafe-IsConfigured :
    (bytes : List ℕ) (password : String)
    → length bytes ≡ 36
    → All IsByte bytes
    → codes password ≡ token_urlsafe bytes
    → IsConfigured (some password) password
unfolding is_ascii
token_urlsafe-IsConfigured bytes password l h e =
    let s = encode-IsSafe 12 bytes l h in
    record {
      set = refl;
      long = rw (e, s.size) (omega arith);
      clean = rw e (safe_allowed (token_urlsafe bytes) s.safe);
      ascii = rw e (safe-is_ascii (token_urlsafe bytes) s.safe);
    }

-- With asyncssh as documented, a suffix that is ASCII and not empty and a listener that can be
-- created, the self-test of such a password passes.
pub self_test-passed :
    (a : Asyncssh) (bytes : List ℕ) (password suffix : String)
    → Laws a
    → length bytes ≡ 36
    → All IsByte bytes
    → codes password ≡ token_urlsafe bytes
    → is_ascii suffix ≡ true
    → suffix ≢ ""
    → a.create_server (start_server (some password) "127.0.0.1") ≡ none
    → self_test a password suffix ≡ passed
unfolding self_test
self_test-passed a bytes password suffix laws l h e ascii some_text free = rw free (
    verify-passed a laws (some password) suffix ascii some_text "127.0.0.1" password
      (token_urlsafe-IsConfigured bytes password l h e))
