-- ===== src/Ssh.antt =====
-- challenge-ap2-ssh/server.py, probe.py and selftest.py: what the server answers asyncssh, its
-- listener, and the probe of it. What asyncssh makes of a listener is a parameter.
pub mod Accepts
pub mod SelfTest
use k3df.Base.{
  ℕ, Bool, true, false, String, ◌<>◌, ◌==◌, Option, none, some, List, [], ◌∷◌, if◌then◌else◌,
  Result, Error, value_error, os_error,
}
use k3df.Json.{Value, str}
use k3df.Credential.{configured_password, verify_password}

-- The callbacks of `asyncssh.SSHServer`; a session of `None` is none.
pub record Server : Type 0 where
  pub begin_auth : String → Bool
  pub password_auth_supported : Bool
  pub validate_password : String → String → Result Bool
  pub public_key_auth_supported : Bool
  pub host_based_auth_supported : Bool
  pub kbdint_auth_supported : Bool
  pub connection_requested : Bool
  pub session_requested : Option Value
  pub server_requested : Bool

-- `ChallengeSSHServer` in the environment of the service.
abbrev pub challenge_server : Option String → Server
challenge_server env = record {
  begin_auth = λ username. true;
  password_auth_supported = true;
  validate_password = λ username password. verify_password env username (str password);
  public_key_auth_supported = false;
  host_based_auth_supported = false;
  kbdint_auth_supported = false;
  connection_requested = false;
  session_requested = none;
  server_requested = false;
}

-- The arguments of `asyncssh.create_server`; `None` is none.
pub record Listener : Type 0 where
  pub server : Server
  pub host : String
  pub port : ℕ
  pub server_host_key : String
  pub process_factory : Option Value
  pub sftp_factory : Option Value
  pub encoding : Option String
  pub agent_forwarding : Bool
  pub x11_forwarding : Bool

-- `start_server` in the environment of the service: the listener that it asks for, whose host key
-- is named by its algorithm.
abbrev pub start_server : Option String → String → Listener
start_server env host = record {
  server = challenge_server env;
  host = host;
  port = 2222;
  server_host_key = "ssh-ed25519";
  process_factory = none;
  sftp_factory = none;
  encoding = none;
  agent_forwarding = false;
  x11_forwarding = false;
}

-- How `asyncssh.connect` ends: any other exception is one of the last kind.
pub data Connecting : Type 0 where
  connected permission_denied lost : Connecting

-- How `create_process` ends.
pub data Opening : Type 0 where
  opened channel_open_error broken_off : Opening

-- `create_server` gives no exception, or one. A client without keys connects with a user name and
-- a password, and then asks for a process.
pub record Asyncssh : Type 0 where
  pub create_server : Listener → Option Error
  pub connect : Listener → String → String → Connecting
  pub create_process : Listener → Opening

-- How the probe ends: it returns, or the exception of a failed check or another one leaves it.
pub data Probing : Type 0 where
  passed : Probing
  assertion_error : Probing
  another_error : Probing

-- The second half of `verify`: the wrong password.
abbrev pub denial : Connecting → Probing
denial permission_denied = passed
denial connected = assertion_error
denial lost = another_error

-- The first half: the session is asked for, and the connection is closed.
abbrev pub session : Opening → Probing → Probing
session channel_open_error next = next
session opened next = assertion_error
session broken_off next = another_error

abbrev pub acceptance : Connecting → Probing → Probing
acceptance connected next = next
acceptance _ next = another_error

-- `verify` against a listener, for the text that `token_urlsafe` has given.
unfoldable pub verify : Asyncssh → Listener → String → String → String → Probing
verify a l suffix username password =
    acceptance (a.connect l username password)
      (session (a.create_process l) (denial (a.connect l username (password <> suffix))))

-- The probe as a program: without a password, a `ValueError` leaves it.
abbrev pub probe_with : Asyncssh → Listener → String → Option String → Probing
probe_with a l suffix none = another_error
probe_with a l suffix (some p) = verify a l suffix "ap02user" p

-- The probe of the listener that `serve` has started in the same environment.
unfoldable pub run_probe : Asyncssh → Option String → String → Probing
run_probe a env suffix = probe_with a (start_server env "0.0.0.0") suffix (configured_password env)

-- `run` of the self-test, which puts the password that `token_urlsafe` has given into the
-- environment; the listener is closed at the end.
abbrev pub test_listener : Option Error → Probing → Probing
test_listener none next = next
test_listener (some e) next = another_error

unfoldable pub self_test : Asyncssh → String → String → Probing
unfolding verify
self_test a password suffix =
    let l = start_server (some password) "127.0.0.1" in
    test_listener (a.create_server l) (verify a l suffix "ap02user" password)

-- `main` of the server serves without end, ends with a text, or with another exception.
pub data Serving : Type 0 where
  serves : Listener → Serving
  system_exit : String → Serving
  stopped : Error → Serving

abbrev invalid_password : Serving
invalid_password = system_exit "AP-02 password configuration is missing or invalid"

-- `start_server` within `serve`, and the `ValueError` that `main` catches.
abbrev pub listen : Listener → Option Error → Serving
listen l none = serves l
listen l (some value_error) = invalid_password
listen l (some e) = stopped e

-- `serve`
abbrev pub serve : Asyncssh → Listener → Option String → Serving
serve a l none = invalid_password
serve a l (some p) = listen l (a.create_server l)

-- The arguments of the program are without its name.
unfoldable pub start : Asyncssh → List String → Option String → Serving
start a (mode ∷ []) env =
    if mode == "serve"
    then serve a (start_server env "0.0.0.0") (configured_password env)
    else system_exit "invalid operation"
start a _ env = system_exit "invalid operation"
