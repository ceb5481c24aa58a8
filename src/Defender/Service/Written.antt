-- ===== src/Defender/Service/Written.antt =====
-- defender/state_store.py: `event`, and what the loop's calls of it write; and the document of the
-- state that `save` writes. A call that fails writes nothing.
use k3df.Base.{ℕ, suc, String, ◌<>◌, Option, none, some, List, [], ◌∷◌, map}
use k3df.Base.Int.{pos}
use k3df.Json.{Value, null, bool, int, float, str, obj, Fields, end}
use k3df.Defender.Policy.{Decision, allow, block, BlockRecord}
use k3df.Defender.Evidence.{evidence_fields}
use k3df.Defender.Graph.{graph_value}
use k3df.Defender.Graph.Observe.{or_value}
use k3df.Defender.Store.{entries, flags_value}
use k3df.Defender.Collect.{CollectEvent, evidence_ignored, evidence_taken}
use k3df.Defender.Service.{
  Event, policy_event, action_event, verify_event, collect_event, note, saved, Service,
  record_value,
}
use k3df.Defender.Service.Context.{raw_key, categories, list_value}

-- What a call takes anew: `uuid4()` and `now_iso()`.
pub record Stamp : Type 0 where
  pub event_id : String
  pub ts : String

-- The arguments of a call of `event`, without the cycle.
pub record Call : Type 0 where
  pub kind : String
  pub summary : Value
  pub data_value : Value
  pub incident_id : Value

-- The document that `event` writes as a line.
abbrev pub event_fields : Stamp → ℕ → Call → Fields
event_fields t cycle c = entries (
    ("event_id", str t.event_id)
    ∷ ("ts", str t.ts)
    ∷ ("type", str c.kind)
    ∷ ("cycle", int (pos cycle))
    ∷ ("incident_id", c.incident_id)
    ∷ ("summary", c.summary)
    ∷ ("data", or_value c.data_value (obj end))
    ∷ [])

abbrev pub call : String → Value → Value → Value → Call
call kind summary data_value incident_id = record {
  kind = kind;
  summary = summary;
  data_value = data_value;
  incident_id = incident_id;
}

abbrev decision_text : Decision → String
decision_text allow = "ALLOW"
decision_text block = "BLOCK"

abbrev collect_call : CollectEvent → Call
collect_call (evidence_ignored source id) =
    call "EVIDENCE_IGNORED" (str "trusted network evidence ignored")
      (obj (entries (("source", source) ∷ ("evidence_id", str id) ∷ []))) null
collect_call (evidence_taken e) =
    call "EVIDENCE" (str e.summary) (obj (evidence_fields (raw_key e) e)) null

abbrev policy_data : Value → Decision → String → Value
policy_data scenario decision reason = obj (
    entries (
      ("scenario", scenario)
      ∷ ("decision", str (decision_text decision))
      ∷ ("reason", str reason)
      ∷ []))

-- What the loop keeps of the state as it was loaded.
pub record Kept : Type 0 where
  pub reasoning_interval_sec : Value
  pub achieved_attack_tactics : Value
  pub achieved_attack_techniques : Value
  pub available_capabilities : Value
  pub configuration : Value

abbrev inode_value : Option ℕ → Value
inode_value none = null
inode_value (some n) = int (pos n)

abbrev runtime_fields : Service → Fields
runtime_fields s = entries (
    ("access_log_offset", int (pos s.runtime.access_log_offset))
    ∷ ("access_log_inode", inode_value s.runtime.access_log_inode)
    ∷ ("scanner_mtime", float s.scanner_mtime)
    ∷ ("last_reasoning_at", s.last_reasoning_at)
    ∷ [])

abbrev pub metrics_fields : Service → Fields
metrics_fields s = entries (
    ("evidence_count", int (pos s.evidence_count))
    ∷ ("ignored_evidence_count", int (pos s.ignored_evidence_count))
    ∷ ("reasoning_cycle_count", int (pos s.reasoning_cycle_count))
    ∷ ("incident_count", int (pos s.incident_count))
    ∷ ("blocked_scenario_count", int (pos s.blocked_scenario_count))
    ∷ ("executed_action_count", int (pos s.executed_action_count))
    ∷ [])

abbrev pub with_line : Stamp → ℕ → Option Call → List Fields → List Fields
with_line t cycle none ds = ds
with_line t cycle (some c) ds = event_fields t cycle c ∷ ds

module _ (iso : ℕ → String) where
  -- A call of `save` writes no line.
  abbrev pub call_of : Event → Option Call
  call_of (policy_event scenario decision reason) = some (
      call "POLICY" (str (decision_text decision <> (": " <> reason)))
        (policy_data scenario decision reason) null)
  call_of (action_event r) =
      some (call "ACTION" (str "temporary Nginx IP block") (record_value iso r) null)
  call_of (verify_event ip verified) = some (
      call "VERIFY" (str "Nginx block list verification")
        (obj (entries (("ip", ip) ∷ ("verified", bool verified) ∷ []))) null)
  call_of (collect_event e) = some (collect_call e)
  call_of (note kind summary data_value incident_id) =
      some (call kind summary data_value incident_id)
  call_of saved = none

  -- The documents of the lines that the calls write, with the stamps from the `i`-th on.
  unfoldable pub event_lines : (ℕ → Stamp) → ℕ → List (ℕ × Event) → List Fields
  event_lines stamps i [] = []
  event_lines stamps i ((cycle, e) ∷ es) =
      with_line (stamps i) cycle (call_of e) (event_lines stamps (suc i) es)

  abbrev records_value : List BlockRecord → Value
  records_value rs = list_value (map (record_value iso) rs)

  abbrev pub defense_fields : Service → Fields
  defense_fields s = entries (
      ("current_phase", str s.current_phase)
      ∷ ("blocked_sources", records_value s.blocked_sources)
      ∷ ("unresolved_hypotheses", list_value s.unresolved_hypotheses)
      ∷ ("watch_conditions", list_value s.watch_conditions)
      ∷ ("scenarios", list_value s.scenarios)
      ∷ [])

  abbrev attacker_fields : Kept → Service → Fields
  attacker_fields k s = entries (
      ("estimated_capabilities", list_value s.estimated_capabilities)
      ∷ ("achieved_attack_tactics", k.achieved_attack_tactics)
      ∷ ("achieved_attack_techniques", k.achieved_attack_techniques)
      ∷ [])

  abbrev defender_fields : Kept → Service → Fields
  defender_fields k s = entries (
      ("available_capabilities", k.available_capabilities)
      ∷ ("authorized_capabilities", s.authorized_capabilities)
      ∷ ("active_actions", records_value s.active_actions)
      ∷ [])

  -- The state as `save` writes it, with the text of the time.
  abbrev pub state_document : Kept → String → Service → Fields
  state_document k now s = entries (
      ("schema_version", str "2.0")
      ∷ ("updated_at", str now)
      ∷ ("cycle", int (pos s.cycle))
      ∷ ("reasoning_interval_sec", k.reasoning_interval_sec)
      ∷ ("threat_level", s.threat_level)
      ∷ ("attacker_state", obj (attacker_fields k s))
      ∷ ("capability_graph", graph_value s.capability_graph)
      ∷ ("flag_objectives", flags_value s.flag_objectives)
      ∷ ("exposure", obj (entries (categories s.exposure)))
      ∷ ("defender_state", obj (defender_fields k s))
      ∷ ("active_incidents", list_value s.active_incidents)
      ∷ ("defense", obj (defense_fields s))
      ∷ ("configuration", k.configuration)
      ∷ ("metrics", obj (metrics_fields s))
      ∷ ("runtime", obj (runtime_fields s))
      ∷ [])
