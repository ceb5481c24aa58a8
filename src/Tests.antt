-- ===== src/Tests.antt =====
-- The scanner, the SSH account's password, the provisioning and the web application at concrete
-- inputs.
use k3df.Base.{◌≡◌, refl, ◌⊎◌, String, none, [], ok}
use k3df.Text.{is_ascii}
use k3df.Web.{Database}
use k3df.Web.Init.{Refused, Stored, init_db-verify_password}
use k3df.Base.{
  map, ℕ, zero, suc, List, ◌∷◌, All, codes, arith, value_error, ◌≡◌, ◌↔◌, ◌≢◌, refl, String, some,
  [], ok, true,
}
use k3df.Text.{is_ascii, strip}
use k3df.Referee.{matches_flag}
use k3df.Provision.{secret, encode, strip_padding, Random, provision, is_placeholder}
use k3df.Provision.Secret.{IsByte, matches_flag-secret}
use k3df.Provision.Partial.{provision_non_ascii}
use k3df.Credential.{IsConfigured}
use k3df.Scanner.{attack_value, quote}
use k3df.Ssh.{
  Connecting, connected, permission_denied, lost, Opening, channel_open_error, opened, Asyncssh,
  passed, run_probe, start, serves, start_server,
}
use k3df.Ssh.Accepts.{Laws, run_probe_iff}
use k3df.Base.{ap, Result, raised, Bool, false, Option}
use k3df.Json.{Value}

abbrev password : String
password = "0123456789abcdef0123456789abcdef"

abbrev connects_by : Result Bool → Connecting
connects_by (ok true) = connected
connects_by (ok false) = permission_denied
connects_by (raised e) = lost

abbrev opens_by : Option Value → Option Value → Option Value → Opening
opens_by none none none = channel_open_error
opens_by _ _ _ = opened

-- A client that the server's answers alone decide.
abbrev client : Asyncssh
client = record {
  create_server = λ l. none;
  connect = λ l u p. connects_by (l.server.validate_password u p);
  create_process = λ l. opens_by l.process_factory l.sftp_factory l.server.session_requested;
}

connects-true : (r : Result Bool) → (connects_by r ≡ connected) ↔ (r ≡ ok true)
connects-true (ok true) = (λ h. refl, λ h. refl)
connects-true (ok false) = (λ h. cc, λ h. cc)
connects-true (raised e) = (λ h. cc, λ h. cc)

client-Laws : Laws client
client-Laws = record {
  lets_in = λ l u p only. connects-true (l.server.validate_password u p);
  denies = λ l u p only h. ap connects_by h;
  no_session = λ l h i j. cc;
}

no_codes : (c : ℕ) (cs : List ℕ) → c ∷ cs ≢ []
no_codes c cs h = cc

suffix_not_empty : ◌≢◌ {A = String} "x" ""
suffix_not_empty h = no_codes 120 [] (ap codes h)

suffix-is_ascii : is_ascii "x" ≡ true
unfolding is_ascii
suffix-is_ascii = refl

run_probe_iff_example :
    (((p : String) × IsConfigured (some password) p)
      × (client.create_server (start_server (some password) "0.0.0.0") ≡ none))
    ↔ ((start client ("serve" ∷ []) (some password)
          ≡ serves (start_server (some password) "0.0.0.0"))
        × (run_probe client (some password) "x" ≡ passed))
run_probe_iff_example =
    run_probe_iff client client-Laws (some password) "x" suffix-is_ascii suffix_not_empty

quoted : quote attack_value ≡ "1%20OR%201%3D1"
unfolding quote
quoted = refl

abbrev null_bytes : ℕ → List ℕ
null_bytes zero = []
null_bytes (suc n) = 0 ∷ null_bytes n

null_bytes-IsByte : (n : ℕ) → All IsByte (null_bytes n)
null_bytes-IsByte zero = tt
null_bytes-IsByte (suc n) = (omega arith, null_bytes-IsByte n)

abbrev zero_secret : String
zero_secret = "K3DF{AAAAAAAAAAAAAAAAAAAAAAAAAAAAAAAAAAAAAAAAAAA}"

zero_encoded : codes zero_secret ≡ secret (null_bytes 32)
unfolding encode strip_padding
zero_encoded = refl

matches_flag-secret_example : matches_flag zero_secret ≡ true
matches_flag-secret_example =
    matches_flag-secret (null_bytes 32) zero_secret refl (null_bytes-IsByte 32) zero_encoded

abbrev no_randomness : Random
no_randomness = record {
  flag_1 = null_bytes 32;
  flag_2 = null_bytes 32;
  flag_3 = null_bytes 32;
  run_id = null_bytes 18;
  run_auth = null_bytes 32;
}

provision_non_ascii_example :
    ((provision no_randomness "\u{3000}café" []).1 ≡ some value_error)
    × (map (λ f. f.path) (provision no_randomness "\u{3000}café" []).0
        ≡ "flag-1/flag-1.value" ∷ "flag-2/flag-2.value" ∷ "flag-3/flag-3.value"
          ∷ "flag-1/flag-1-hint.txt" ∷ [])
    × ((provision no_randomness "cafe" (provision no_randomness "\u{3000}café" []).0).0
        ≡ (provision no_randomness "\u{3000}café" []).0)
    × ((provision no_randomness "cafe" (provision no_randomness "\u{3000}café" []).0).1 ≢ none)
provision_non_ascii_example =
    provision_non_ascii no_randomness no_randomness "\u{3000}café" "cafe" refl

-- Unicode white space around a word does not hide it.
wide_todo : is_placeholder "\u{3000}Todo" ≡ true
unfolding is_placeholder strip
wide_todo = refl

abbrev new_database : Database
new_database = record { users = []; customers = []; credential = none }

init_db-verify_password_example : Refused password new_database ⊎ Stored password new_database
unfolding is_ascii
init_db-verify_password_example = init_db-verify_password password new_database refl
