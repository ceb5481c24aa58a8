-- ===== src/Web/Init.antt =====
-- What the web application stores is what the SSH service verifies.
use k3df.Base.{
  ◌≡◌, ◌≢◌, refl, ap, ◌⊎◌, inl, inr, true, false, ◌||◌, Bool-cases, String, none, some, List, [],
  ◌∷◌, codes, length, any, ltb, arith, value_error, ok,
}
use k3df.Text.{is_ascii}
use k3df.Json.{str}
use k3df.Credential.{configured_password, verify_password, verify_password_iff}
use k3df.Web.{Database, fill, is_line_end, first_users, first_customers, store_password, init_db}

fill-fill :
    {A : Type 0} (x : A) (xs ys : List A) → fill (x ∷ xs) (fill (x ∷ xs) ys) ≡ fill (x ∷ xs) ys
fill-fill x xs [] = refl
fill-fill x xs (y ∷ ys) = refl

-- An empty table gets the rows; another one is kept.
abbrev pub IsFilled : {A : Type 0} → List A → List A → List A → Type 0
IsFilled rows before after = ((before ≡ []) × (after ≡ rows)) ⊎ ((before ≢ []) × (after ≡ before))

fill-IsFilled : {A : Type 0} (rows before : List A) → IsFilled rows before (fill rows before)
fill-IsFilled rows [] = inl (refl, refl)
fill-IsFilled rows (x ∷ xs) = inr (λ h. cc, refl)

-- Nothing is changed, and the SSH service has no password either.
pub record Refused (p : String) (db : Database) : Type 0 where
  raised : (init_db (some p) db).1 ≡ some value_error
  unchanged : (init_db (some p) db).0 ≡ db
  unconfigured : configured_password (some p) ≡ none

-- The account is stored and verified, rows that were there are kept, and starting again
-- changes nothing.
pub record Stored (p : String) (db : Database) : Type 0 where
  returned : (init_db (some p) db).1 ≡ none
  account :
      (init_db (some p) db).0.credential ≡ some (record { username = "ap02user"; password = p })
  verified : verify_password (some p) "ap02user" (str p) ≡ ok true
  users : IsFilled first_users db.users (init_db (some p) db).0.users
  customers : IsFilled first_customers db.customers (init_db (some p) db).0.customers
  again : init_db (some p) (init_db (some p) db).0 ≡ ((init_db (some p) db).0, none)

stored_twice :
    (p : String) (db : Database) → store_password p (store_password p db) ≡ store_password p db
stored_twice p db = rw (fill-fill _ _ db.users, fill-fill _ _ db.customers) refl

refuses :
    (p : String) (db : Database)
    → (ltb (length (codes p)) 32 || any is_line_end (codes p)) ≡ true
    → Refused p db
unfolding init_db configured_password
refuses p db bad = record {
  raised = rw bad refl;
  unchanged = rw bad refl;
  unconfigured = rw bad refl;
}

verifies :
    (p : String)
    → is_ascii p ≡ true
    → (ltb (length (codes p)) 32 || any is_line_end (codes p)) ≡ false
    → verify_password (some p) "ap02user" (str p) ≡ ok true
verifies p ascii good = (verify_password_iff (some p) "ap02user" (str p)).1 (
  p,
  refl,
  refl,
  record { set = refl; long = ground (arith, good); clean = ground (arith, good); ascii = ascii },
)

stores :
    (p : String) (db : Database)
    → is_ascii p ≡ true
    → (ltb (length (codes p)) 32 || any is_line_end (codes p)) ≡ false
    → Stored p db
unfolding init_db
stores p db ascii good = record {
  returned = rw good refl;
  account = rw good refl;
  verified = verifies p ascii good;
  users = rw good (fill-IsFilled first_users db.users);
  customers = rw good (fill-IsFilled first_customers db.customers);
  again = rw good (ap (λ d. (d, none)) (stored_twice p db));
}

-- For a password of ASCII characters that both services are given: either the web application's
-- start-up raises a ValueError, changes no row, and the SSH service has no password; or it
-- returns, has stored the account ap02user with the password, which the SSH service verifies, has
-- filled each of the other tables only where it was empty, and does nothing more when it starts
-- again.
pub init_db-verify_password :
    (p : String) (db : Database) → is_ascii p ≡ true → Refused p db ⊎ Stored p db
init_db-verify_password p db ascii =
    elim (Bool-cases (ltb (length (codes p)) 32 || any is_line_end (codes p))) [
      | inl bad ↦ inl (refuses p db bad)
      | inr good ↦ inr (stores p db ascii good)
    ]
