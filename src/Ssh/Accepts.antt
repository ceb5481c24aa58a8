-- ===== src/Ssh/Accepts.antt =====
-- When the server is up and the probe of it passes.
use k3df.Text.{is_ascii}
use k3df.Referee.{compare_digest}
use k3df.Base.{
  codes-append, all-append, ℕ, text_dec, ◌≡◌, ◌≢◌, ◌↔◌, ◌∙◌, sym, refl, ap, true, false, String,
  ◌<>◌, Option, none, some, codes, ok, arith, Error, type_error, value_error, overflow_error,
  key_error, attribute_error, os_error, runtime_error, List, [], ◌∷◌, ◌++◌,
}
use k3df.Json.{str}
use k3df.Credential.{
  IsConfigured, configured_password_good, configured_password, verify_password, verify_password_iff,
}
use k3df.Ssh.{
  Server, challenge_server, Connecting, connected, permission_denied, channel_open_error, Asyncssh,
  Probing, acceptance, lost, passed, verify, probe_with, listen, serve, run_probe, serves, start,
  Listener, start_server,
}

-- The server asks for a password and for nothing else.
abbrev pub PasswordOnly : Server → Type 0
PasswordOnly s =
    ((u : String) → s.begin_auth u ≡ true)
    × (s.password_auth_supported ≡ true)
    × (s.public_key_auth_supported ≡ false)
    × (s.host_based_auth_supported ≡ false)
    × (s.kbdint_auth_supported ≡ false)

-- What asyncssh promises about a listener whose server asks for passwords only, and about
-- sessions.
pub record Laws (a : Asyncssh) : Type 0 where
  pub lets_in :
      (l : Listener) (u p : String)
      → PasswordOnly l.server
      → (a.connect l u p ≡ connected) ↔ (l.server.validate_password u p ≡ ok true)
  pub denies :
      (l : Listener) (u p : String)
      → PasswordOnly l.server
      → l.server.validate_password u p ≡ ok false
      → a.connect l u p ≡ permission_denied
  pub no_session :
      (l : Listener)
      → l.process_factory ≡ none
      → l.sftp_factory ≡ none
      → l.server.session_requested ≡ none
      → a.create_process l ≡ channel_open_error

challenge_server-PasswordOnly : (env : Option String) → PasswordOnly (challenge_server env)
challenge_server-PasswordOnly env = (λ u. refl, refl, refl, refl, refl)

is_ascii-append : (s t : String) → is_ascii s ≡ true → is_ascii t ≡ true → is_ascii (s <> t) ≡ true
unfolding is_ascii
is_ascii-append s t hs ht = rw (codes-append s t) (all-append _ (codes s) (codes t) hs ht)

nothing_added : (xs ys : List ℕ) → xs ++ ys ≡ xs → ys ≡ []
nothing_added [] ys e = e
nothing_added (x ∷ xs) ys e = nothing_added xs ys cc

no_text : (t : String) → codes t ≡ [] → t ≡ ""
no_text String.[] h = refl
no_text (String.◌∷◌ c t) h = cc

append_longer : (s t : String) → t ≢ "" → s <> t ≢ s
append_longer s t h e =
    h (no_text t (nothing_added (codes s) (codes t) (sym (codes-append s t) ∙ ap codes e)))

wrong_password :
    (env : Option String) (p q : String)
    → IsConfigured env p
    → is_ascii q ≡ true
    → q ≢ p
    → verify_password env "ap02user" (str q) ≡ ok false
unfolding verify_password compare_digest text_dec
wrong_password env p q c ascii differ =
    rw (configured_password_good env p c) (ground (arith, ascii, c.ascii, differ))

acceptance-passed : (c : Connecting) (next : Probing) → acceptance c next ≡ passed → c ≡ connected
acceptance-passed connected next h = refl
acceptance-passed permission_denied next h = cc
acceptance-passed lost next h = cc

listen-serves : (l m : Listener) (e : Option Error) → listen l e ≡ serves m → e ≡ none
listen-serves l m none h = refl
listen-serves l m (some type_error) h = cc
listen-serves l m (some value_error) h = cc
listen-serves l m (some overflow_error) h = cc
listen-serves l m (some key_error) h = cc
listen-serves l m (some attribute_error) h = cc
listen-serves l m (some os_error) h = cc
listen-serves l m (some runtime_error) h = cc

module _ (a : Asyncssh) (laws : Laws a) (env : Option String) (suffix : String)
    (ascii : is_ascii suffix ≡ true) (some_text : suffix ≢ "") where
  pub verify-passed :
      (host p : String)
      → IsConfigured env p
      → verify a (start_server env host) suffix "ap02user" p ≡ passed
  unfolding verify
  verify-passed host p c =
      let l = start_server env host in
      let only = challenge_server-PasswordOnly env in
      let right = (verify_password_iff env "ap02user" (str p)).1 (p, refl, refl, c) in
      let wrong =
        wrong_password env p (p <> suffix) c (is_ascii-append p suffix c.ascii ascii)
          (append_longer p suffix some_text) in
      rw
        (
          (laws.lets_in l "ap02user" p only).1 right,
          laws.no_session l refl refl refl,
          laws.denies l "ap02user" (p <> suffix) only wrong,
        )
        refl

  passes : (p : String) → IsConfigured env p → run_probe a env suffix ≡ passed
  unfolding run_probe
  passes p c =
      ap (probe_with a (start_server env "0.0.0.0") suffix) (configured_password_good env p c)
      ∙ verify-passed "0.0.0.0" p c

  IsConfigured-of_passing :
      (o : Option String)
      → probe_with a (start_server env "0.0.0.0") suffix o ≡ passed
      → (p : String) × IsConfigured env p
  unfolding verify
  IsConfigured-of_passing none h = cc
  IsConfigured-of_passing (some q) h =
      let connects = acceptance-passed _ _ h in
      let only = challenge_server-PasswordOnly env in
      let l = start_server env "0.0.0.0" in
      let verified = (laws.lets_in l "ap02user" q only).0 connects in
      let (p, u, same, c) = (verify_password_iff env "ap02user" (str q)).0 verified in (p, c)

  starts :
      (p : String)
      → IsConfigured env p
      → start a ("serve" ∷ []) env
        ≡ listen (start_server env "0.0.0.0") (a.create_server (start_server env "0.0.0.0"))
  unfolding start text_dec
  starts p c = ap (serve a (start_server env "0.0.0.0")) (configured_password_good env p c)

  -- With asyncssh as documented, and for a random suffix that is ASCII and not empty: the
  -- environment holds an ASCII password of at least 32 characters, without a carriage return, a
  -- line feed or a NUL, and the listener can be created, exactly if the SSH server serves and
  -- the probe of it, run in the same environment, passes.
  pub run_probe_iff :
      (((p : String) × IsConfigured env p) × (a.create_server (start_server env "0.0.0.0") ≡ none))
      ↔ ((start a ("serve" ∷ []) env ≡ serves (start_server env "0.0.0.0"))
          × (run_probe a env suffix ≡ passed))
  unfolding run_probe
  run_probe_iff = (
    λ ((p, c), free). (starts p c ∙ ap (listen (start_server env "0.0.0.0")) free, passes p c),
    λ (up, h).
        let (p, c) = IsConfigured-of_passing (configured_password env) h in
        ((p, c), listen-serves _ _ _ (sym (starts p c) ∙ up)),
  )
