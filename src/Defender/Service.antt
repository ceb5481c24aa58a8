-- ===== src/Defender/Service.antt =====
-- defender/service.py: the state of the loop, the part of it that acts, and the answer to nginx. The
-- state is what `load` returns, with the values that other modules check as their types; an event
-- is a call of the store that has written its line, or a save, with the cycle of the state. The
-- printing is left out.
pub mod Steps
pub mod Advised
pub mod Advice
pub mod Permitted
pub mod Plain
pub mod Cycles
pub mod Outcome
pub mod Finished
pub mod Lines
pub mod Completes
pub mod Stops
pub mod Upsert
pub mod Keyed
pub mod Updates
pub mod Analysis
pub mod Context
pub mod Written
pub mod Cycle
pub mod Tick
pub mod Run
pub mod Contain
pub mod Lasting
pub mod Enforce
use k3df.Base.{
  ℕ, zero, suc, ◌+◌, ◌*◌, ◌/◌, Bool, true, false, not, String, ◌<>◌, Option, none, some, List, [],
  ◌∷◌, ◌++◌, if◌then◌else◌, ◌==◌, Result, ok, raised, Error, type_error, os_error,
}
use k3df.Base.Int.{ℤ, pos, negsuc}
use k3df.Json.{
  Value, null, bool, int, str, obj, Fields, end, field, get, get_or, one, value_eq, Float,
}
use k3df.Defender.Config.{Config}
use k3df.Defender.Policy.{
  Decision, allow, block, BlockRecord, validate_scenario, block_ip, active_block, int_of,
}
use k3df.Defender.Evidence.{Evidence}
use k3df.Defender.Graph.{Node}
use k3df.Defender.Flags.{Flag}
use k3df.Defender.Collect.{CollectEvent, Runtime}

-- The last two are a call with its type, summary, data and incident, and a call of `save`.
pub data Event : Type 0 where
  policy_event : Value → Decision → String → Event
  action_event : BlockRecord → Event
  verify_event : Value → Bool → Event
  collect_event : CollectEvent → Event
  note : String → Value → Value → Value → Event
  saved : Event

-- `writes` is whether the next writes of the event file succeed, one after the other; those after
-- them do.
pub record Service : Type 0 where
  pub blocked_sources : List BlockRecord
  pub current_phase : String
  pub active_actions : List BlockRecord
  pub blocked_scenario_count : ℕ
  pub executed_action_count : ℕ
  pub events : List (ℕ × Event)
  pub buffer : List Evidence
  pub cycle : ℕ
  pub threat_level : Value
  pub active_incidents : List Value
  pub estimated_capabilities : List Value
  pub capability_graph : List Node
  pub flag_objectives : List Flag
  pub exposure : List (String × List Value)
  pub authorized_capabilities : Value
  pub unresolved_hypotheses : List Value
  pub watch_conditions : List Value
  pub scenarios : List Value
  pub incident_count : ℕ
  pub evidence_count : ℕ
  pub ignored_evidence_count : ℕ
  pub reasoning_cycle_count : ℕ
  pub last_reasoning : ℕ
  pub last_reasoning_at : Value
  pub runtime : Runtime
  pub scanner_mtime : Float
  pub writes : List Bool

abbrev pub add_event : Event → Service → Service
add_event e s = record s { events = s.events ++ ((s.cycle, e) ∷ []) }

-- A call of `event`: a write that fails raises an `OSError`, and writes nothing.
abbrev pub write_event : Event → List Bool → Service → Service × Option Error
write_event e [] s = (add_event e s, none)
write_event e (true ∷ ws) s = (record (add_event e s) { writes = ws }, none)
write_event e (false ∷ ws) s = (record s { writes = ws }, some os_error)

abbrev pub log : Event → Service → Service × Option Error
log e s = write_event e s.writes s

-- Statements in sequence: an exception leaves the rest undone, and keeps what was done.
abbrev pub then_next :
    (Service → Service × Option Error) → Service × Option Error → Service × Option Error
then_next next (s, none) = next s
then_next next (s, some e) = (s, some e)

-- A call that may raise, and what follows with its result.
abbrev pub with_result :
    {A : Type 0}
    → Result A
    → (A → Service → Service × Option Error)
    → Service
    → Service × Option Error
with_result (raised e) next s = (s, some e)
with_result (ok a) next s = next a s

-- `for x in xs:`
abbrev pub for_each :
    {A : Type 0}
    → (A → Service → Service × Option Error)
    → List A
    → Service
    → Service × Option Error
for_each f [] s = (s, none)
for_each f (x ∷ xs) s = then_next (for_each f xs) (f x s)

-- Statements one after the other.
abbrev pub in_order : List (Service → Service × Option Error) → Service → Service × Option Error
in_order [] s = (s, none)
in_order (f ∷ fs) s = then_next (in_order fs) (f s)

-- `Defender.auth`: what nginx asks at the time `now`.
unfoldable pub auth : ℕ → Value → Service → Service × Bool
auth now source_ip s =
    let (kept, found) = active_block now s.blocked_sources source_ip in
    (record s { blocked_sources = kept }, not found)

-- The seconds of a duration that the policy let through.
abbrev pub seconds : Value → ℕ
seconds d = elim (int_of d) [ some (pos n) ↦ n | _ ↦ 0 ]

abbrev pub acting : List BlockRecord → BlockRecord → Service → Service
acting listed r s = record s {
  blocked_sources = listed;
  current_phase = "CONTAIN";
  active_actions = r ∷ [];
  executed_action_count = suc s.executed_action_count;
}

abbrev pub verifying : List BlockRecord → Service → Service
verifying kept s = record s { blocked_sources = kept; current_phase = "VERIFY" }

abbrev pub count_blocked : Service → Service × Option Error
count_blocked s = (record s { blocked_scenario_count = suc s.blocked_scenario_count }, none)

-- Times are printed by `datetime.isoformat`: `iso` of a number of seconds.
module _ (iso : ℕ → String) where
  abbrev pub record_value : BlockRecord → Value
  record_value r = obj (
      field "ip" r.ip (
        field "expires_at" (str (iso r.expires_at))
          (field "reason" r.reason (field "enforcement" (str "nginx_auth_request") end))))

  abbrev action_evidence : ℕ → String → BlockRecord → Fields → Bool → Evidence
  action_evidence now ip r scenario verified = record {
    evidence_id = "EV-ACTION-" <> ip;
    fingerprint = "action-" <> ip;
    timestamp = str (iso (now / 1_000_000));
    source = "defender_action";
    kind = "action_result";
    summary = "Nginx temporary block for " <> ip;
    raw = record_value r;
    related_endpoint = null;
    related_source_ip = str ip;
    related_incident_id = get "target_incident_id" scenario;
    confidence = one;
    metadata = obj (field "verified" (bool verified) end);
  }

  -- The text of the address is joined to other texts; an address that is a number raises here.
  abbrev pub report : ℕ → BlockRecord → Fields → Bool → Value → Service → Service × Option Error
  report now r scenario verified (str ip) s =
      (record s { buffer = s.buffer ++ (action_evidence now ip r scenario verified ∷ []) }, none)
  report now r scenario verified _ s = (s, some type_error)

  -- The verification of the block, and its evidence, at the time `t₂`.
  abbrev pub verify_block : ℕ → BlockRecord → Fields → Service → Service × Option Error
  verify_block t₂ r scenario s =
      let (kept, verified) = active_block t₂ s.blocked_sources r.ip in
      then_next (report t₂ r scenario verified r.ip)
        (log (verify_event r.ip verified) (verifying kept s))

  -- The block and its record, at the time `t₁`, and its verification.
  unfoldable pub contain : ℕ → ℕ → Fields → Fields → Service → Service × Option Error
  contain t₁ t₂ scenario action s =
      let (listed, r) =
        block_ip t₁ s.blocked_sources (get "ip" action)
          (seconds (get_or "duration_sec" (int (pos 300)) action))
          (get_or "hypothesis" (str "defense containment") scenario) in
      then_next (verify_block t₂ r scenario) (log (action_event r) (acting listed r s))

  -- What follows an `ALLOW`: only `block_ip` does something.
  abbrev pub act : ℕ → ℕ → Fields → Value → Service → Service × Option Error
  act t₁ t₂ scenario (obj action) s =
      if value_eq (get "type" action) (str "block_ip")
      then contain t₁ t₂ scenario action s
      else (s, none)
  act t₁ t₂ scenario _ s = (s, none)

  abbrev pub act_on : ℕ → ℕ → Value → Service → Service × Option Error
  act_on t₁ t₂ (obj scenario) s = act t₁ t₂ scenario (get "action" scenario) s
  act_on t₁ t₂ _ s = (s, none)

  abbrev pub decide : ℕ → ℕ → Value → Result (Decision × String) → Service → Service × Option Error
  decide t₁ t₂ scenario (raised e) s = (s, some e)
  decide t₁ t₂ scenario (ok (block, reason)) s =
      then_next count_blocked (log (policy_event scenario block reason) s)
  decide t₁ t₂ scenario (ok (allow, reason)) s =
      then_next (act_on t₁ t₂ scenario) (log (policy_event scenario allow reason) s)

  -- One round of the loop over the scenarios.
  unfoldable pub execute_scenario : Config → ℕ → ℕ → Value → Service → Service × Option Error
  execute_scenario c t₁ t₂ scenario s = decide t₁ t₂ scenario (validate_scenario scenario c) s

  -- `execute_scenarios`, each scenario with the two times; an exception leaves the rest undone.
  unfoldable pub execute_scenarios :
      Config → List (ℕ × ℕ × Value) → Service → Service × Option Error
  execute_scenarios c [] s = (s, none)
  execute_scenarios c ((t₁, t₂, scenario) ∷ rest) s =
      then_next (execute_scenarios c rest) (execute_scenario c t₁ t₂ scenario s)
