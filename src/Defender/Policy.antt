-- ===== src/Defender/Policy.antt =====
-- defender/policy.py: which proposed actions are allowed, and the block list. A time is a number
-- of microseconds. The text of `expires_at` has whole seconds, so it stands here as their number.
pub mod Allowed
pub mod Local
pub mod BlockList
use k3df.Base.{
  ℕ, suc, ◌+◌, ◌*◌, ◌/◌, Bool, true, false, not, ◌&&◌, ◌||◌, String, Option, none, some, List, [],
  ◌∷◌, ◌++◌, any, contains, ltb, if◌then◌else◌, ◌==◌, Result, ok, raised, type_error, ◌>>=◌,
}
use k3df.Base.Int.{ℤ, pos, negsuc, ltb_ℤ}
use k3df.Json.{Value, null, bool, int, str, obj, Fields, get, get_or, hashable, bool_int, value_eq}
use k3df.Defender.Address.{Address, Network, net4, ip_address, in_network}
use k3df.Defender.Config.{Config}

pub data Decision : Type 0 where
  allow block : Decision

-- 127.0.0.0/8, 10.0.0.0/8, 172.16.0.0/12 and 192.168.0.0/16
abbrev pub protected_networks : List Network
protected_networks =
    net4 2_130_706_432 8 ∷ net4 167_772_160 8 ∷ net4 2_886_729_728 12 ∷ net4 3_232_235_520 16 ∷ []

unfoldable pub is_protected : Address → Config → Bool
is_protected a c = any (in_network a) (protected_networks ++ c.ignore_networks ++ c.allow_networks)

abbrev pub read_actions : List String
read_actions =
    "observe_logs" ∷ "inspect_scanner_results" ∷ "active_scan" ∷ "verify_containment" ∷ []

-- `isinstance(duration, int)` and the value it compares as.
abbrev pub int_of : Value → Option ℤ
int_of (int n) = some n
int_of (bool b) = some (bool_int b)
int_of _ = none

abbrev unsafe_duration : Value → Bool
unsafe_duration d = elim (int_of d) [ none ↦ true | some n ↦ ltb_ℤ n (pos 1) || ltb_ℤ (pos 3600) n ]

judge_duration : Value → Decision × String
judge_duration d =
    if unsafe_duration d then (block, "unsafe_duration") else (allow, "temporary_nginx_block")

judge_address : Option Address → Value → Config → Decision × String
judge_address none d c = (block, "invalid_ip")
judge_address (some a) d c =
    if is_protected a c then (block, "trusted_or_ignored_network") else judge_duration d

judge_type : Value → Fields → Config → Decision × String
judge_type (str t) action c =
    if contains read_actions t
    then (allow, "approved_read_or_scan_action")
    else if t == "block_ip"
    then judge_address (ip_address (get_or "ip" (str "") action))
        (get_or "duration_sec" (int (pos 300)) action) c
    else (block, "action_not_authorized")
judge_type _ action c = (block, "action_not_authorized")

-- The membership test raises on a type that cannot be in a set.
judge_action : Fields → Config → Result (Decision × String)
judge_action action c =
    if hashable (get "type" action)
    then ok (judge_type (get "type" action) action c)
    else raised type_error

abbrev judge_value : Value → Config → Result (Decision × String)
judge_value (obj action) c = judge_action action c
judge_value _ c = ok (block, "invalid_action")

unfoldable pub validate_scenario : Value → Config → Result (Decision × String)
unfolding judge_action judge_type judge_address judge_duration
validate_scenario (obj scenario) c = judge_value (get "action" scenario) c
validate_scenario _ c = ok (block, "invalid_action")

-- An entry of `blocked_sources`; `expires_at` in seconds.
pub record BlockRecord : Type 0 where
  pub ip : Value
  pub expires_at : ℕ
  pub reason : Value

abbrev pub replace_first : BlockRecord → List BlockRecord → List BlockRecord
replace_first r [] = r ∷ []
replace_first r (b ∷ bs) = if value_eq b.ip r.ip then r ∷ bs else b ∷ replace_first r bs

-- `block_ip` at the time `now`, in microseconds. The first entry of the address is overwritten.
unfoldable pub block_ip : ℕ → List BlockRecord → Value → ℕ → Value → List BlockRecord × BlockRecord
block_ip now blocked ip duration reason =
    let r : BlockRecord = record {
      ip = ip;
      expires_at = now / 1_000_000 + duration;
      reason = reason;
    } in
    (replace_first r blocked, r)

unfoldable pub unexpired : ℕ → List BlockRecord → List BlockRecord
unexpired now [] = []
unexpired now (b ∷ bs) =
    let rest = unexpired now bs in if ltb now (b.expires_at * 1_000_000) then b ∷ rest else rest

-- `active_block`: the expired entries go, and the answer is about those left.
unfoldable pub active_block : ℕ → List BlockRecord → Value → List BlockRecord × Bool
active_block now blocked ip =
    let kept = unexpired now blocked in (kept, any (λ b. value_eq b.ip ip) kept)
