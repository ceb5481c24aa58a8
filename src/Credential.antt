-- ===== src/Credential.antt =====
-- challenge-ap2-ssh/credential.py: the password of the SSH account.
use k3df.Base.{
  ℕ, ◌≡◌, ◌↔◌, ◌≤◌, refl, ap, Bool, true, false, not, ◌||◌, String, Option, none, some, codes,
  length, any, arith, ltb, eqb, if◌then◌else◌, ◌==◌, Result, ok, text_dec,
}
use k3df.Text.{is_ascii}
use k3df.Json.{Value, null, str}
use k3df.Referee.{compare_digest}

-- A character of `"\r\n\0"`.
abbrev pub is_forbidden : ℕ → Bool
is_forbidden c = eqb c 13 || eqb c 10 || eqb c 0

-- `configured_password` of the environment variable; `none` is its `ValueError`.
unfoldable pub configured_password : Option String → Option String
configured_password none = none
configured_password (some p) =
    if ltb (length (codes p)) 32 || any is_forbidden (codes p) then none else some p

abbrev check_expected : String → Option String → Result Bool
check_expected password none = ok false
check_expected password (some expected) = compare_digest password expected

abbrev check_user : Option String → String → Value → Result Bool
check_user env username (str password) =
    if not (username == "ap02user")
    then ok false
    else check_expected password (configured_password env)
check_user env username _ = ok false

unfoldable pub verify_password : Option String → String → Value → Result Bool
verify_password env username password = check_user env username password

-- The environment holds a password that the service accepts as its own.
pub record IsConfigured (env : Option String) (p : String) : Type 0 where
  pub set : env ≡ some p
  pub long : 32 ≤ length (codes p)
  pub clean : any is_forbidden (codes p) ≡ false
  pub ascii : is_ascii p ≡ true

same_text : (q p : String) → configured_password (some q) ≡ some p → q ≡ p
unfolding configured_password
same_text q p h = ground arith

configured_password-IsConfigured :
    (env : Option String) (p : String)
    → configured_password env ≡ some p
    → is_ascii p ≡ true
    → IsConfigured env p
unfolding configured_password
configured_password-IsConfigured none p h a = cc
configured_password-IsConfigured (some q) p h a = record {
  set = ap some (same_text q p h);
  long = ground (arith, same_text q p h);
  clean = ground (arith, same_text q p h);
  ascii = a;
}

pub compare_digest-true :
    (a b : String) → compare_digest a b ≡ ok true → (is_ascii b ≡ true) × (a ≡ b)
unfolding compare_digest
compare_digest-true a b h = ground arith

compare_digest_self : (a : String) → is_ascii a ≡ true → compare_digest a a ≡ ok true
unfolding compare_digest
compare_digest_self a h = ground arith

check_expected-IsConfigured :
    (env : Option String) (q : String) (o : Option String)
    → configured_password env ≡ o
    → check_expected q o ≡ ok true
    → IsConfigured env q
check_expected-IsConfigured env q none e h = cc
check_expected-IsConfigured env q (some p) e h =
    let (a, same) = compare_digest-true q p h in
    rw same (configured_password-IsConfigured env p e a)

pub configured_password_good :
    (env : Option String) (p : String) → IsConfigured env p → configured_password env ≡ some p
unfolding configured_password
configured_password_good env p c = rw (c.set) (ground (arith, c.long, c.clean))

accepted_by :
    (env : Option String) (username : String) (password : Value)
    → verify_password env username password ≡ ok true
    → (p : String) × (username ≡ "ap02user") × (password ≡ str p) × IsConfigured env p
unfolding verify_password
accepted_by env username (str q) h = elim (text_dec username "ap02user") [
  | yes u ↦ (
    q,
    u,
    refl,
    check_expected-IsConfigured env q (configured_password env) refl (ground (arith, u)),
  )
  | no n ↦ absurd (ground (arith, n))
]
accepted_by env username null h = cc
accepted_by env username v h = cc

accepts :
    (env : Option String) (username : String) (password : Value)
    → ((p : String) × (username ≡ "ap02user") × (password ≡ str p) × IsConfigured env p)
    → verify_password env username password ≡ ok true
unfolding verify_password text_dec
accepts env username password (p, u, same, c) =
    rw (same, u, configured_password_good env p c) (compare_digest_self p c.ascii)

-- A password is verified exactly if the account is ap02user, the password is a text, and the
-- environment holds that text, which is ASCII, of at least 32 characters, without a carriage
-- return, a line feed or a NUL.
pub verify_password_iff :
    (env : Option String) (username : String) (password : Value)
    → (verify_password env username password ≡ ok true)
      ↔ ((p : String) × (username ≡ "ap02user") × (password ≡ str p) × IsConfigured env p)
verify_password_iff env username password =
    (accepted_by env username password, accepts env username password)
