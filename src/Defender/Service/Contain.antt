-- ===== src/Defender/Service/Contain.antt =====
-- Whom the defender blocks: only addresses outside the protected networks, whatever is proposed.
use k3df.Base.{
  ℕ, ◌≡◌, refl, Bool, false, inl, inr, String, Option, none, some, List, [], ◌∷◌, arith, All,
  Bool-cases, ltb, Result, ok, raised, Error, ◌*◌,
}
use k3df.Base.Int.{pos}
use k3df.Json.{Value, null, int, str, obj, Fields, get, get_or, find, value_eq}
use k3df.Json.Laws.{str_of_value_eq}
use k3df.Defender.Address.{Address, ip_address, ip_address_empty}
use k3df.Defender.Config.{Config}
use k3df.Defender.Policy.{
  Decision, allow, block, BlockRecord, validate_scenario, block_ip, active_block, unexpired,
  replace_first, is_protected,
}
use k3df.Defender.Policy.Allowed.{allowed-address}
use k3df.Defender.Service.{
  Service, Event, contain, act, decide, execute_scenario, execute_scenarios, then_next, report, log,
  verify_block, act_on, count_blocked, acting, verifying, seconds, policy_event, action_event,
  verify_event,
}
use k3df.Defender.Service.Steps.{log-Steps}

-- The entry's address is one outside the protected networks.
abbrev pub IsPermitted : Config → BlockRecord → Type 0
IsPermitted c b = (a : Address) × (ip_address b.ip ≡ some a) × (is_protected a c ≡ false)

abbrev pub AllPermitted : Config → Service → Type 0
AllPermitted c s = All (IsPermitted c) s.blocked_sources

pub unexpired-All :
    (P : BlockRecord → Type 0) (now : ℕ) (bs : List BlockRecord)
    → All P bs
    → All P (unexpired now bs)
unfolding unexpired
unexpired-All P now [] h = tt
unexpired-All P now (b ∷ bs) h = elim (Bool-cases (ltb now (b.expires_at * 1_000_000))) [
  | inl stays ↦ rw stays (h.0, unexpired-All P now bs h.1)
  | inr gone ↦ rw gone (unexpired-All P now bs h.1)
]

replace_first-All :
    (P : BlockRecord → Type 0) (r : BlockRecord) (bs : List BlockRecord)
    → P r
    → All P bs
    → All P (replace_first r bs)
replace_first-All P r [] p h = (p, tt)
replace_first-All P r (b ∷ bs) p h = elim (Bool-cases (value_eq b.ip r.ip)) [
  | inl same ↦ rw same (p, h.1)
  | inr differ ↦ rw differ (h.0, replace_first-All P r bs p h.1)
]

ip_present :
    (o : Option Value) (a : Address)
    → ip_address (elim o [ none ↦ str "" | some v ↦ v ]) ≡ some a
    → ip_address (elim o [ none ↦ null | some v ↦ v ]) ≡ some a
ip_present none a h = absurd (ground (arith, ip_address_empty))
ip_present (some v) a h = h

report-AllPermitted :
    (iso : ℕ → String) (c : Config) (t : ℕ) (r : BlockRecord) (scenario : Fields) (verified : Bool)
    (ip : Value) (s : Service)
    → AllPermitted c s
    → AllPermitted c (report iso t r scenario verified ip s).0
report-AllPermitted iso c t r scenario verified (str ip) s h = h
report-AllPermitted iso c t r scenario verified null s h = h
report-AllPermitted iso c t r scenario verified ip s h = h

then_next-AllPermitted :
    (c : Config) (next : Service → Service × Option Error) (r : Service × Option Error)
    → ((s : Service) → AllPermitted c s → AllPermitted c (next s).0)
    → AllPermitted c r.0
    → AllPermitted c (then_next next r).0
then_next-AllPermitted c next (s, none) f h = f s h
then_next-AllPermitted c next (s, some e) f h = h

log-AllPermitted :
    (c : Config) (e : Event) (s : Service) → AllPermitted c s → AllPermitted c (log e s).0
log-AllPermitted c = log-Steps (λ s t. AllPermitted c s → AllPermitted c t) (λ s es ws q h. h)

verify_block-AllPermitted :
    (iso : ℕ → String) (c : Config) (t₂ : ℕ) (r : BlockRecord) (scenario : Fields) (s : Service)
    → AllPermitted c s
    → AllPermitted c (verify_block iso t₂ r scenario s).0
unfolding active_block
verify_block-AllPermitted iso c t₂ r scenario s h =
    let (kept, verified) = active_block t₂ s.blocked_sources r.ip in
    then_next-AllPermitted c (report iso t₂ r scenario verified r.ip)
      (log (verify_event r.ip verified) (verifying kept s))
      (λ s' g. report-AllPermitted iso c t₂ r scenario verified r.ip s' g)
      (log-AllPermitted c (verify_event r.ip verified) (verifying kept s)
        (unexpired-All (IsPermitted c) t₂ s.blocked_sources h))

contain-AllPermitted :
    (iso : ℕ → String) (c : Config) (t₁ t₂ : ℕ) (scenario action : Fields) (s : Service)
    → ((a : Address) × (ip_address (get "ip" action) ≡ some a) × (is_protected a c ≡ false))
    → AllPermitted c s
    → AllPermitted c (contain iso t₁ t₂ scenario action s).0
unfolding contain block_ip
contain-AllPermitted iso c t₁ t₂ scenario action s p h =
    let (listed, r) =
      block_ip t₁ s.blocked_sources (get "ip" action)
        (seconds (get_or "duration_sec" (int (pos 300)) action))
        (get_or "hypothesis" (str "defense containment") scenario) in
    then_next-AllPermitted c (verify_block iso t₂ r scenario)
      (log (action_event r) (acting listed r s))
      (λ s' g. verify_block-AllPermitted iso c t₂ r scenario s' g)
      (log-AllPermitted c (action_event r) (acting listed r s)
        (replace_first-All (IsPermitted c) r s.blocked_sources p h))

act-AllPermitted :
    (iso : ℕ → String) (c : Config) (t₁ t₂ : ℕ) (scenario : Fields) (v : Value) (reason : String)
    (s : Service)
    → get "action" scenario ≡ v
    → validate_scenario (obj scenario) c ≡ ok (allow, reason)
    → AllPermitted c s
    → AllPermitted c (act iso t₁ t₂ scenario v s).0
act-AllPermitted iso c t₁ t₂ scenario (obj action) reason s ea ok' h =
    elim (Bool-cases (value_eq (get "type" action) (str "block_ip"))) [
      | inl is ↦
          let (a, eip, free) =
            allowed-address scenario action c reason ok' ea
              (str_of_value_eq (get "type" action) "block_ip" is) in
          rw is (
            contain-AllPermitted iso c t₁ t₂ scenario action s
              (a, ip_present (find "ip" action) a eip, free) h)
      | inr other ↦ rw other h
    ]
act-AllPermitted iso c t₁ t₂ scenario null reason s ea ok' h = h
act-AllPermitted iso c t₁ t₂ scenario v reason s ea ok' h = h

act_on-AllPermitted :
    (iso : ℕ → String) (c : Config) (t₁ t₂ : ℕ) (scenario : Value) (reason : String) (s : Service)
    → validate_scenario scenario c ≡ ok (allow, reason)
    → AllPermitted c s
    → AllPermitted c (act_on iso t₁ t₂ scenario s).0
act_on-AllPermitted iso c t₁ t₂ (obj scenario) reason s v h =
    act-AllPermitted iso c t₁ t₂ scenario (get "action" scenario) reason s refl v h
act_on-AllPermitted iso c t₁ t₂ null reason s v h = h
act_on-AllPermitted iso c t₁ t₂ scenario reason s v h = h

decide-AllPermitted :
    (iso : ℕ → String) (c : Config) (t₁ t₂ : ℕ) (scenario : Value)
    (answer : Result (Decision × String)) (s : Service)
    → validate_scenario scenario c ≡ answer
    → AllPermitted c s
    → AllPermitted c (decide iso t₁ t₂ scenario answer s).0
decide-AllPermitted iso c t₁ t₂ scenario (raised e) s v h = h
decide-AllPermitted iso c t₁ t₂ scenario (ok (block, reason)) s v h =
    then_next-AllPermitted c count_blocked (log (policy_event scenario block reason) s) (λ s' g. g)
      (log-AllPermitted c (policy_event scenario block reason) s h)
decide-AllPermitted iso c t₁ t₂ scenario (ok (allow, reason)) s v h =
    then_next-AllPermitted c (act_on iso t₁ t₂ scenario)
      (log (policy_event scenario allow reason) s)
      (λ s' g. act_on-AllPermitted iso c t₁ t₂ scenario reason s' v g)
      (log-AllPermitted c (policy_event scenario allow reason) s h)

-- Whatever scenarios are proposed, at whatever times, and also when one of them raises: if every
-- entry of the block list is for an address outside the protected networks, then so is every
-- entry after execute_scenarios. The protected networks are the built-in ones and those of the
-- configuration.
pub execute_scenarios-AllPermitted :
    (iso : ℕ → String) (c : Config) (steps : List (ℕ × ℕ × Value)) (s : Service)
    → AllPermitted c s
    → AllPermitted c (execute_scenarios iso c steps s).0
unfolding execute_scenarios execute_scenario
execute_scenarios-AllPermitted iso c [] s h = h
execute_scenarios-AllPermitted iso c ((t₁, t₂, scenario) ∷ rest) s h =
    then_next-AllPermitted c (execute_scenarios iso c rest)
      (execute_scenario iso c t₁ t₂ scenario s)
      (λ s' g. execute_scenarios-AllPermitted iso c rest s' g)
      (decide-AllPermitted iso c t₁ t₂ scenario (validate_scenario scenario c) s refl h)
