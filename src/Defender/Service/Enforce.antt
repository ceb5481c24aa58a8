-- ===== src/Defender/Service/Enforce.antt =====
-- What an allowed block does: nginx is told to refuse the address until the expiry, and no other.
use k3df.Base.{
  ℕ, ◌+◌, ◌*◌, ◌/◌, ◌≤◌, ◌≡◌, refl, ap, ◌∙◌, not, String, none, List, [], arith, if◌then◌else◌,
  ◌==◌, ltb, text_dec,
}
use k3df.Base.Int.{pos}
use k3df.Json.{Value, int, str, obj, Fields, get, get_or, value_eq}
use k3df.Defender.Config.{Config}
use k3df.Defender.Policy.{BlockRecord, allow, validate_scenario, block_ip, active_block}
use k3df.Defender.Policy.Allowed.{blocks}
use k3df.Defender.Policy.BlockList.{IsBlockList, active_block-block_ip, active_block_swept}
use k3df.Defender.Service.{
  Service, add_event, policy_event, auth, contain, execute_scenario, seconds,
}

abbrev pub duration_of : Fields → ℕ
duration_of action = seconds (get_or "duration_sec" (int (pos 300)) action)

abbrev pub reason_of : Fields → Value
reason_of scenario = get_or "hypothesis" (str "defense containment") scenario

-- The block list after the block and the sweep of its verification.
abbrev after : ℕ → ℕ → String → Fields → Fields → List BlockRecord → List BlockRecord
after t₁ t₂ t scenario action bs =
    (active_block t₂ (block_ip t₁ bs (str t) (duration_of action) (reason_of scenario)).0 (str t)).0

contain-after :
    (iso : ℕ → String) (t₁ t₂ : ℕ) (t : String) (scenario action : Fields) (s : Service)
    → get "ip" action ≡ str t
    → s.writes ≡ []
    → ((contain iso t₁ t₂ scenario action s).1 ≡ none)
      × ((contain iso t₁ t₂ scenario action s).0.blocked_sources
          ≡ after t₁ t₂ t scenario action s.blocked_sources)
unfolding contain block_ip
contain-after iso t₁ t₂ t scenario action s e q = rw (e, q) (refl, refl)

execute_scenario-contain :
    (iso : ℕ → String) (c : Config) (t₁ t₂ : ℕ) (scenario action : Fields) (s : Service)
    → validate_scenario (obj scenario) c ≡ blocks
    → get "action" scenario ≡ obj action
    → get "type" action ≡ str "block_ip"
    → s.writes ≡ []
    → (s' : Service) × (s'.blocked_sources ≡ s.blocked_sources)
      × (s'.writes ≡ [])
      × (execute_scenario iso c t₁ t₂ (obj scenario) s ≡ contain iso t₁ t₂ scenario action s')
unfolding execute_scenario value_eq text_dec
execute_scenario-contain iso c t₁ t₂ scenario action s h ea et q = (
  add_event (policy_event (obj scenario) allow "temporary_nginx_block") s,
  refl,
  q,
  rw (h, q, ea, et) refl,
)

auth-after :
    (t₁ t₂ later : ℕ) (t u : String) (scenario action : Fields) (s s' : Service)
    → IsBlockList s.blocked_sources
    → t₂ ≤ later
    → s'.blocked_sources ≡ after t₁ t₂ t scenario action s.blocked_sources
    → (auth later (str u) s').1 ≡ (
        if t == u
        then not (ltb later ((t₁ / 1_000_000 + duration_of action) * 1_000_000))
        else (auth later (str u) s).1)
unfolding auth
auth-after t₁ t₂ later t u scenario action s s' v le e = ground (
  arith,
  ap (λ bs. (active_block later bs (str u)).1) e
      ∙ active_block_swept t₂ later (str t) u _ le
      ∙ active_block-block_ip t₁ later (duration_of action) t u (reason_of scenario)
          s.blocked_sources v,
)

-- If the policy allows a scenario to block a text address, at a block list of distinct texts, and
-- all writes of the event file succeed, then executing it raises nothing. From the time of the
-- verification on, nginx is told to refuse that address exactly until the second of the block
-- plus the duration; for any other address the answer is the one before.
pub execute_scenario-auth :
    (iso : ℕ → String) (c : Config) (t₁ t₂ later : ℕ) (t u : String) (scenario action : Fields)
    (s : Service)
    → IsBlockList s.blocked_sources
    → validate_scenario (obj scenario) c ≡ blocks
    → get "action" scenario ≡ obj action
    → get "type" action ≡ str "block_ip"
    → get "ip" action ≡ str t
    → t₂ ≤ later
    → s.writes ≡ []
    → ((execute_scenario iso c t₁ t₂ (obj scenario) s).1 ≡ none)
      × ((auth later (str u) (execute_scenario iso c t₁ t₂ (obj scenario) s).0).1 ≡ (
          if t == u
          then not (ltb later ((t₁ / 1_000_000 + duration_of action) * 1_000_000))
          else (auth later (str u) s).1))
execute_scenario-auth iso c t₁ t₂ later t u scenario action s v h ea et eip le q =
    let (s', same, q', is) = execute_scenario-contain iso c t₁ t₂ scenario action s h ea et q in
    let (fine, kept) = contain-after iso t₁ t₂ t scenario action s' eip q' in
    rw is (
      fine,
      auth-after t₁ t₂ later t u scenario action s _ v le
          (kept ∙ ap (after t₁ t₂ t scenario action) same),
    )
