-- ===== src/Defender/Policy/Allowed.antt =====
-- Exactly which scenarios may block an address.
use text.Mathlib.TextEquality.{eq_iff}
use k3df.Base.{
  sym, ◌∙◌, ap, ◌≡◌, ◌≢◌, ◌↔◌, inl, inr, refl, false, String, Option, none, some, contains, arith,
  text_dec, Result, ok, Bool-cases, ok_inj,
}
use k3df.Base.Int.{ℤ, pos, ◌≤ℤ◌}
use k3df.Json.{Value, null, bool, int, str, obj, Fields, get, get_or, hashable, bool_int}
use k3df.Defender.Address.{Address, ip_address}
use k3df.Defender.Config.{Config}
use k3df.Defender.Policy.{
  Decision, allow, is_protected, read_actions, int_of, validate_scenario, judge_duration,
  judge_address, judge_type, judge_action, judge_value,
}

-- A scenario that asks to block the address `a` for `d` seconds, within the policy.
abbrev pub Blockable : Value → Config → Type 0
Blockable s c =
    (scenario action : Fields) × (a : Address) × (d : ℤ) × (s ≡ obj scenario)
    × (get "action" scenario ≡ obj action)
    × (get "type" action ≡ str "block_ip")
    × (ip_address (get_or "ip" (str "") action) ≡ some a)
    × (is_protected a c ≡ false)
    × (int_of (get_or "duration_sec" (int (pos 300)) action) ≡ some d)
    × (pos 1 ≤ℤ d)
    × (d ≤ℤ pos 3600)

-- The answer that makes the defender block an address.
abbrev pub blocks : Result (Decision × String)
blocks = ok (allow, "temporary_nginx_block")

approved-ne : ◌≢◌ {A = String} "approved_read_or_scan_action" "temporary_nginx_block"
approved-ne = ground (arith, eq_iff "approved_read_or_scan_action" "temporary_nginx_block")

duration-blocks :
    (d : Value)
    → judge_duration d ≡ (allow, "temporary_nginx_block")
    → (n : ℤ) × (int_of d ≡ some n) × (pos 1 ≤ℤ n) × (n ≤ℤ pos 3600)
unfolding judge_duration
duration-blocks (int n) h = (n, refl, ground arith, ground arith)
duration-blocks (bool b) h = (bool_int b, refl, ground arith, ground arith)
duration-blocks null h = absurd (ground arith)
duration-blocks d h = absurd (ground arith)

blocks-duration :
    (d : Value) (n : ℤ)
    → int_of d ≡ some n
    → pos 1 ≤ℤ n
    → n ≤ℤ pos 3600
    → judge_duration d ≡ (allow, "temporary_nginx_block")
unfolding judge_duration
blocks-duration d n e lo hi = ground arith

address-blocks :
    (o : Option Address) (d : Value) (c : Config)
    → judge_address o d c ≡ (allow, "temporary_nginx_block")
    → (a : Address) × (o ≡ some a)
      × (is_protected a c ≡ false)
      × (judge_duration d ≡ (allow, "temporary_nginx_block"))
unfolding judge_address
address-blocks none d c h = absurd (ground arith)
address-blocks (some a) d c h = (a, refl, ground arith, ground arith)

type-blocks :
    (t : Value) (action : Fields) (c : Config)
    → judge_type t action c ≡ (allow, "temporary_nginx_block")
    → (t ≡ str "block_ip")
      × (judge_address
            (ip_address (get_or "ip" (str "") action))
            (get_or "duration_sec" (int (pos 300)) action)
            c
          ≡ (allow, "temporary_nginx_block"))
unfolding judge_type
type-blocks (str t) action c h = elim (Bool-cases (contains read_actions t)) [
  | inl reads ↦ absurd (approved-ne (ap (λ p. p.1) (rw reads at h)))
  | inr other ↦ elim (text_dec t "block_ip") [
    | yes p ↦ (ap str p, ground arith)
    | no p ↦ absurd (ground arith)
  ]
]
type-blocks t action c h = absurd (ground arith)

blocks-type :
    (action : Fields) (c : Config)
    → judge_type (str "block_ip") action c
      ≡ judge_address
          (ip_address (get_or "ip" (str "") action))
          (get_or "duration_sec" (int (pos 300)) action)
          c
unfolding judge_type text_dec
blocks-type action c = refl

action-blocks :
    (v : Value) (c : Config)
    → judge_value v c ≡ blocks
    → (action : Fields) × (v ≡ obj action)
      × (judge_type (get "type" action) action c ≡ (allow, "temporary_nginx_block"))
unfolding judge_action
action-blocks (obj action) c h = (action, refl, ground arith)
action-blocks null c h = absurd (ground arith)
action-blocks v c h = absurd (ground arith)

blocks-action :
    (action : Fields) (c : Config)
    → get "type" action ≡ str "block_ip"
    → judge_value (obj action) c ≡ ok (judge_type (str "block_ip") action c)
unfolding judge_action hashable
blocks-action action c e = rw e refl

scenario-blocks :
    (s : Value) (c : Config)
    → validate_scenario s c ≡ blocks
    → (scenario : Fields) × (s ≡ obj scenario) × (judge_value (get "action" scenario) c ≡ blocks)
unfolding validate_scenario
scenario-blocks (obj scenario) c h = (scenario, refl, h)
scenario-blocks null c h = absurd (ground arith)
scenario-blocks s c h = absurd (ground arith)

pub Blockable-of_answer : (s : Value) (c : Config) → validate_scenario s c ≡ blocks → Blockable s c
Blockable-of_answer s c h =
    let (scenario, es, h₁) = scenario-blocks s c h in
    let (action, ea, h₂) = action-blocks (get "action" scenario) c h₁ in
    let (et, h₃) = type-blocks (get "type" action) action c h₂ in
    let (a, eip, free, h₄) = address-blocks _ (get_or "duration_sec" (int (pos 300)) action) c h₃ in
    let (d, ed, lo, hi) = duration-blocks (get_or "duration_sec" (int (pos 300)) action) h₄ in
    (scenario, action, a, d, es, ea, et, eip, free, ed, lo, hi)

blocks-address :
    (a : Address) (d : Value) (c : Config)
    → is_protected a c ≡ false
    → judge_address (some a) d c ≡ judge_duration d
unfolding judge_address
blocks-address a d c free = rw free refl

pub answer_of_Blockable : (s : Value) (c : Config) → Blockable s c → validate_scenario s c ≡ blocks
unfolding validate_scenario
answer_of_Blockable s c (scenario, action, a, d, es, ea, et, eip, free, ed, lo, hi) =
    rw (es, ea)
      (blocks-action action c et
        ∙ ap ok (
            blocks-type action c
            ∙ ap (λ o. judge_address o (get_or "duration_sec" (int (pos 300)) action) c) eip
            ∙ blocks-address a (get_or "duration_sec" (int (pos 300)) action) c free
            ∙ blocks-duration (get_or "duration_sec" (int (pos 300)) action) d ed lo hi))

-- The policy allows a block exactly if the scenario is a dict whose action is a dict of type
-- block_ip, the ip (or the empty text) is an address outside the protected networks, and the
-- duration (300 by default) is an integer from 1 to 3600.
pub validate_scenario_iff :
    (s : Value) (c : Config) → (validate_scenario s c ≡ blocks) ↔ Blockable s c
validate_scenario_iff s c = (Blockable-of_answer s c, answer_of_Blockable s c)

address_allows :
    (o : Option Address) (d : Value) (c : Config) (reason : String)
    → judge_address o d c ≡ (allow, reason)
    → judge_address o d c ≡ (allow, "temporary_nginx_block")
unfolding judge_address judge_duration
address_allows none d c reason h = absurd (ground arith)
address_allows (some a) d c reason h = ground arith

-- An `ALLOW` for a scenario of the type `block_ip` is for an address that is not protected.
pub allowed-address :
    (scenario action : Fields) (c : Config) (reason : String)
    → validate_scenario (obj scenario) c ≡ ok (allow, reason)
    → get "action" scenario ≡ obj action
    → get "type" action ≡ str "block_ip"
    → (a : Address) × (ip_address (get_or "ip" (str "") action) ≡ some a)
      × (is_protected a c ≡ false)
unfolding validate_scenario
allowed-address scenario action c reason h ea et =
    let d = get_or "duration_sec" (int (pos 300)) action in
    let o = ip_address (get_or "ip" (str "") action) in
    let same =
      ap (λ v. judge_value v c) ea ∙ blocks-action action c et ∙ ap ok (blocks-type action c) in
    let (a, is, free, rest) =
      address-blocks o d c (address_allows o d c reason (ok_inj (sym same ∙ h))) in
    (a, is, free)
