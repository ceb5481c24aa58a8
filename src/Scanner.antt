-- ===== src/Scanner.antt =====
-- scanner/scanner.py: the test for SQL injection. The network is a function from addresses to
-- responses; the output file and the printing are left out.
pub mod Detect
pub mod Report
pub mod Atomic
use Prim.Native.Char.{code}
use k3df.Base.{
  ℕ, zero, suc, ◌+◌, ◌*◌, ◌/◌, ◌%◌, ◌<◌, Bool, true, false, not, ◌&&◌, ◌||◌, String, ◌<>◌, Option,
  none, some, List, [], ◌∷◌, ◌++◌, codes, length, ltb, leb, eqb, if◌then◌else◌,
}

-- What `request` returns: no status, and the error's text, for any exception.
pub record Response : Type 0 where
  pub status : Option ℕ
  pub body : String

pub record Probe : Type 0 where
  pub url : String
  pub status : Option ℕ
  pub response_length : ℕ

pub record Finding : Type 0 where
  pub kind : String
  pub endpoint : String
  pub parameter : String
  pub severity : String
  pub normal_response_length : ℕ
  pub attack_response_length : ℕ
  pub payload : String

pub record ScanResult : Type 0 where
  pub normal_request : Probe
  pub test_request : Probe
  pub findings : List Finding

-- `urllib.parse.quote` of ASCII text: letters, digits and `_.-~/` stay, the rest is `%XX`.
abbrev is_safe : ℕ → Bool
is_safe c =
    (leb b'0' c && leb c b'9')
    || (leb b'A' c && leb c b'Z')
    || (leb b'a' c && leb c b'z')
    || eqb c b'_'
    || eqb c b'.'
    || eqb c b'-'
    || eqb c b'~'
    || eqb c b'/'

abbrev hex_digit : ℕ → String
hex_digit n =
    if eqb n 0
    then "0"
    else if eqb n 1
    then "1"
    else if eqb n 2
    then "2"
    else if eqb n 3
    then "3"
    else if eqb n 4
    then "4"
    else if eqb n 5
    then "5"
    else if eqb n 6
    then "6"
    else if eqb n 7
    then "7"
    else if eqb n 8
    then "8"
    else if eqb n 9
    then "9"
    else if eqb n 10
    then "A"
    else if eqb n 11
    then "B"
    else if eqb n 12
    then "C"
    else if eqb n 13
    then "D"
    else if eqb n 14
    then "E"
    else "F"

unfoldable pub quote : String → String
quote String.[] = ""
quote (String.◌∷◌ c s) =
    let rest = quote s in
    if is_safe (code c)
    then String.◌∷◌ c rest
    else "%" <> (hex_digit (code c / 16) <> (hex_digit (code c % 16) <> rest))

abbrev pub attack_value : String
attack_value = "1 OR 1=1"

abbrev pub url_of : String → String → String
url_of base_url value = base_url <> ("/customer" <> ("?id=" <> quote value))

abbrev pub is_prefix : List ℕ → List ℕ → Bool
is_prefix [] ys = true
is_prefix (x ∷ xs) [] = false
is_prefix (x ∷ xs) (y ∷ ys) = eqb x y && is_prefix xs ys

-- `needle in text`, on code points.
abbrev pub is_in : List ℕ → List ℕ → Bool
is_in needle [] = is_prefix needle []
is_in needle (y ∷ ys) = is_prefix needle (y ∷ ys) || is_in needle ys

abbrev pub is_ok : Option ℕ → Bool
is_ok none = false
is_ok (some n) = eqb n 200

abbrev size : Response → ℕ
size r = length (codes r.body)

-- `len(attack_body) > len(normal_body) * 1.5` is written in whole numbers: twice the one against
-- three times the other.
unfoldable pub is_suspicious : Response → Response → Bool
is_suspicious normal attack =
    is_ok normal.status
    && is_ok attack.status
    && ltb (3 * size normal) (2 * size attack)
    && is_in (codes "\"customers\"") (codes attack.body)

abbrev pub finding : Response → Response → Finding
finding normal attack = record {
  kind = "SQL Injection";
  endpoint = "/customer";
  parameter = "id";
  severity = "CRITICAL";
  normal_response_length = size normal;
  attack_response_length = size attack;
  payload = attack_value;
}

abbrev probe : String → Response → Probe
probe url r = record { url = url; status = r.status; response_length = size r }

unfoldable pub scan_sql_injection : (String → Response) → String → ScanResult
scan_sql_injection request base_url =
    let normal = request (url_of base_url "1") in
    let attack = request (url_of base_url attack_value) in
    record {
      normal_request = probe (url_of base_url "1") normal;
      test_request = probe (url_of base_url attack_value) attack;
      findings = if is_suspicious normal attack then finding normal attack ∷ [] else [];
    }
