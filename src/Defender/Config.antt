-- ===== src/Defender/Config.antt =====
-- defender/config.py: the networks of the configuration, and all its settings.
use k3df.Base.{
  ℕ, zero, suc, ◌-◌, ◌*◌, ◌/◌, ◌^◌, Bool, true, false, ◌&&◌, String, Option, none, some, List, [],
  ◌∷◌, length, all, codes, leb, eqb, if◌then◌else◌, Result, ok, raised, value_error, ◌>>=◌,
}
use k3df.Base.Int.{ℤ, pos}
use k3df.Text.{is_digit, is_white, split, int_of_text}
use k3df.Defender.Address.{Network, net4, net6, parse_v4, parse_v6, decimal}

-- `_prefix_from_prefix_string`
prefix_of_digits : ℕ → List ℕ → Option ℕ
prefix_of_digits width cs =
    if leb 1 (length cs) && all is_digit cs && leb (decimal 0 cs) width
    then some (decimal 0 cs)
    else none

-- The shortest prefix whose netmask or hostmask is `n`: `find k` tries the prefixes of 32 - k bits
-- and more.
find_prefix : (ℕ → ℕ) → ℕ → ℕ → Option ℕ
find_prefix mask n zero = if eqb (mask 32) n then some 32 else none
find_prefix mask n (suc k) =
    let rest = find_prefix mask n k in if eqb (mask (32 - suc k)) n then some (32 - suc k) else rest

abbrev netmask : ℕ → ℕ
netmask p = 2 ^ 32 - 2 ^ (32 - p)

abbrev hostmask : ℕ → ℕ
hostmask p = 2 ^ (32 - p) - 1

-- `_prefix_from_ip_string`: a netmask, or else a hostmask.
prefix_of_mask : List ℕ → Option ℕ
prefix_of_mask cs = elim (parse_v4 cs) [
  | none ↦ none
  | some n ↦ elim (find_prefix netmask n 32) [ some p ↦ some p | none ↦ find_prefix hostmask n 32 ]
]

abbrev prefix4 : List ℕ → Option ℕ
prefix4 cs = elim (prefix_of_digits 32 cs) [ some p ↦ some p | none ↦ prefix_of_mask cs ]

abbrev network4 : ℕ → ℕ → Network
network4 n p = net4 (n / 2 ^ (32 - p) * 2 ^ (32 - p)) p

abbrev network6 : ℕ → ℕ → Network
network6 n p = net6 (n / 2 ^ (128 - p) * 2 ^ (128 - p)) p

abbrev both : (ℕ → ℕ → Network) → Option ℕ → Option ℕ → Option Network
both make (some n) (some p) = some (make n p)
both make _ _ = none

abbrev first_of_two : Option Network → Option Network → Option Network
first_of_two (some n) m = some n
first_of_two none m = m

-- `ipaddress.ip_network(text, strict=False)`; `none` is its `ValueError`.
unfoldable pub ip_network : List ℕ → Option Network
unfolding prefix_of_digits prefix_of_mask find_prefix
ip_network cs = elim (split b'/' cs) [
  | a ∷ [] ↦
      first_of_two (both network4 (parse_v4 a) (some 32)) (both network6 (parse_v6 a) (some 128))
  | a ∷ p ∷ [] ↦
      first_of_two (both network4 (parse_v4 a) (prefix4 p))
        (both network6 (parse_v6 a) (prefix_of_digits 128 p))
  | _ ↦ none
]

abbrev strip_left : List ℕ → List ℕ
strip_left [] = []
strip_left (c ∷ cs) = if is_white c then strip_left cs else c ∷ cs

abbrev no_items : List ℕ → Bool
no_items [] = true
no_items (_ ∷ _) = false

abbrev strip_right : List ℕ → List ℕ
strip_right [] = []
strip_right (c ∷ cs) =
    let rest = strip_right cs in if is_white c && no_items rest then [] else c ∷ rest

add_item : List ℕ → Result (List Network) → Result (List Network)
add_item [] rest = rest
add_item (c ∷ cs) rest = elim (ip_network (c ∷ cs)) [
  | none ↦ raised value_error
  | some n ↦ rest >>= λ networks. ok (n ∷ networks)
]

-- The loop of `_networks` over the items between commas; empty items are passed over.
network_items : List (List ℕ) → Result (List Network)
unfolding add_item
network_items [] = ok []
network_items (item ∷ rest) = add_item (strip_right (strip_left item)) (network_items rest)

unfoldable pub networks : String → Result (List Network)
unfolding network_items
networks value = network_items (split b',' (codes value))

pub record Config : Type 0 where
  pub reasoning_interval_sec : ℕ
  pub reasoning_effort : String
  pub ignore_networks : List Network
  pub allow_networks : List Network
  pub state_dir : String
  pub access_log_path : String
  pub scanner_result_path : String
  pub moonshot_api_key : String
  pub moonshot_base_url : String
  pub moonshot_model : String

-- The environment variables behind them; `none` where a variable is not set.
pub record Variables : Type 0 where
  pub interval : Option String
  pub effort : Option String
  pub ignored : Option String
  pub allowed : Option String
  pub state_dir : Option String
  pub access_log_path : Option String
  pub scanner_result_path : Option String
  pub api_key : Option String
  pub base_url : Option String
  pub model : Option String

abbrev getenv : Option String → String → String
getenv none default = default
getenv (some v) default = v

interval_of : Option ℤ → Result ℕ
interval_of (some (pos (suc n))) = ok (suc n)
interval_of _ = raised value_error

-- `Config.from_env`
unfoldable pub from_env : Variables → Result Config
unfolding interval_of
from_env env = do
  interval ← interval_of (int_of_text (getenv env.interval "10"))
  ignored ← networks (getenv env.ignored "10.8.8.0/24")
  allowed ← networks (getenv env.allowed "")
  ok (record {
    reasoning_interval_sec = interval;
    reasoning_effort = getenv env.effort "low";
    ignore_networks = ignored;
    allow_networks = allowed;
    state_dir = getenv env.state_dir "/state";
    access_log_path = getenv env.access_log_path "/var/log/nginx/access.log";
    scanner_result_path = getenv env.scanner_result_path "/state/scanner/latest.json";
    moonshot_api_key = getenv env.api_key "";
    moonshot_base_url = getenv env.base_url "https://api.moonshot.ai/v1";
    moonshot_model = getenv env.model "kimi-k3";
  })
