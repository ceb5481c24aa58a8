-- ===== src/Defender/Store.antt =====
-- defender/state_store.py: the default state, and loading, migrating and saving it. A network's
-- text, `str(network)`, is the parameter `text`; a time's text is given.
pub mod Migrate
pub mod Reload
use k3df.Base.{
  ℕ, Bool, true, false, String, Option, none, some, List, [], ◌∷◌, map, contains, if◌then◌else◌,
  Result, ok, raised, Error, value_error, type_error, attribute_error, os_error, ◌>>=◌,
}
use k3df.Base.Int.{pos}
use k3df.Json.{
  Value, null, bool, int, float, str, arr, obj, Fields, end, field, find, get, set, items, hashable,
}
use k3df.Defender.Address.{Network}
use k3df.Defender.Config.{Config}
use k3df.Defender.Graph.{Node, default_graph, normalize_graph, graph_value, status_text}
use k3df.Defender.Flags.{
  Flag, Submission, not_submitted, detected, accepted, rejected, Provenance, defender_estimate,
  referee, default_flag_objectives, normalize_flags,
}

abbrev pub submission_text : Submission → String
submission_text not_submitted = "not_submitted"
submission_text detected = "detected"
submission_text accepted = "accepted"
submission_text rejected = "rejected"

abbrev pub provenance_text : Provenance → String
provenance_text defender_estimate = "defender_estimate"
provenance_text referee = "referee"

abbrev pub texts : List String → Value
texts ss = arr (items (map str ss))

abbrev pub entries : List (String × Value) → Fields
entries [] = end
entries ((k, v) ∷ kvs) = field k v (entries kvs)

-- The dict of a flag and of the objectives, as the state holds them.
unfoldable pub flag_value : Flag → Value
flag_value f = obj (
    entries (
      ("id", str f.id)
      ∷ ("label", str f.label)
      ∷ ("acquisition_status", str (status_text f.acquisition_status))
      ∷ ("submission_status", str (submission_text f.submission_status))
      ∷ ("evidence_ids", texts f.evidence_ids)
      ∷ ("updated_at", f.updated_at)
      ∷ ("provenance", str (provenance_text f.provenance))
      ∷ []))

unfoldable pub flags_value : List Flag → Value
unfolding flag_value
flags_value fs =
    obj (entries (("version", str "1.0") ∷ ("flags", arr (items (map flag_value fs))) ∷ []))

abbrev pub capabilities : List String
capabilities =
    "observe_http_logs" ∷ "inspect_scanner_results" ∷ "active_scan" ∷ "block_ip"
    ∷ "verify_containment" ∷ []

abbrev pub empty : Value
empty = texts []

abbrev zeros : List String → Fields
zeros [] = end
zeros (k ∷ ks) = field k (int (pos 0)) (zeros ks)

abbrev empties : List String → Fields
empties [] = end
empties (k ∷ ks) = field k empty (empties ks)

-- What `StateStore.load` finds at the path of the state.
pub data StateFile : Type 0 where
  unreadable : StateFile
  document : Value → StateFile

module _ (text : Network → String) where
  unfoldable pub default_state : String → Config → Fields
  default_state now c = entries (
      ("schema_version", str "2.0")
      ∷ ("updated_at", str now)
      ∷ ("cycle", int (pos 0))
      ∷ ("reasoning_interval_sec", int (pos c.reasoning_interval_sec))
      ∷ ("threat_level", str "LOW")
      ∷ (
        "attacker_state",
        obj (
            empties (
              "estimated_capabilities" ∷ "achieved_attack_tactics" ∷ "achieved_attack_techniques"
              ∷ [])),
      )
      ∷ ("capability_graph", graph_value default_graph)
      ∷ ("flag_objectives", flags_value default_flag_objectives)
      ∷ (
        "exposure",
        obj (
            empties (
              "endpoints" ∷ "parameters" ∷ "vulnerabilities" ∷ "exposed_assets" ∷ "attack_paths"
              ∷ [])),
      )
      ∷ (
        "defender_state",
        obj (
            entries (
              ("available_capabilities", texts capabilities)
              ∷ ("authorized_capabilities", texts capabilities)
              ∷ ("active_actions", empty)
              ∷ [])),
      )
      ∷ ("active_incidents", empty)
      ∷ (
        "defense",
        obj (
            field "current_phase" (str "DETECT") (
              empties (
                "blocked_sources" ∷ "unresolved_hypotheses" ∷ "watch_conditions" ∷ "scenarios"
                ∷ []))),
      )
      ∷ ("configuration", obj (field "ignore_networks" (texts (map text c.ignore_networks)) end))
      ∷ (
        "metrics",
        obj (
            zeros (
              "evidence_count" ∷ "ignored_evidence_count" ∷ "reasoning_cycle_count"
              ∷ "incident_count" ∷ "blocked_scenario_count" ∷ "executed_action_count" ∷ [])),
      )
      ∷ (
        "runtime",
        obj (
            entries (
              ("access_log_offset", int (pos 0))
              ∷ ("access_log_inode", null)
              ∷ ("scanner_mtime", int (pos 0))
              ∷ ("last_reasoning_at", null)
              ∷ [])),
      )
      ∷ [])

-- `d.setdefault(key, default)`: the value, and the dict with it.
abbrev pub present : Option Value → Value → Value
present none default = default
present (some v) default = v

-- `state.setdefault("attacker_state", {}).setdefault("estimated_capabilities", [])`
unfoldable pub attacker_state : Value → Result Value
attacker_state (obj d) =
    ok (obj (set "estimated_capabilities" (present (find "estimated_capabilities" d) empty) d))
attacker_state _ = raised attribute_error

unfoldable pub migrate : Fields → Result Fields
unfolding attacker_state
migrate state = do
  graph ← normalize_graph (get "capability_graph" state)
  flags ← normalize_flags (get "flag_objectives" state)
  attacker ← attacker_state (present (find "attacker_state" state) (obj end))
  ok (
      set "attacker_state" attacker (
        set "flag_objectives" (flags_value flags)
          (set "capability_graph" (graph_value graph) (set "schema_version" (str "2.0") state))))

-- `state.get("schema_version") not in {"1.0", "2.0"}`
unfoldable pub check_schema : Value → Result Unit
check_schema (str s) = if contains ("1.0" ∷ "2.0" ∷ []) s then ok tt else raised value_error
check_schema v = if hashable v then raised value_error else raised type_error

abbrev pub read_state : StateFile → Result Fields
read_state unreadable = raised os_error
read_state (document (obj d)) = check_schema (get "schema_version" d) >>= λ _. migrate d
read_state (document _) = raised attribute_error

-- One write of the state file, which is replaced as a whole or left.
pub data Write : Type 0 where
  written write_fails : Write

-- `save` at the time `now`: the state, and the file after it. The file lists the keys sorted, and
-- here they keep their order, which no code reads.
unfoldable pub save : Write → String → Fields → StateFile → Result Fields × StateFile
save written now state old =
    (ok (set "updated_at" (str now) state), document (obj (set "updated_at" (str now) state)))
save write_fails now state old = (raised os_error, old)

module _ (text : Network → String) where
  -- The exceptions that `load` takes for a file that is to be replaced.
  abbrev pub recovers : Write → String → Config → StateFile → Error → Result Fields × StateFile
  recovers w now c old os_error = save w now (default_state text now c) old
  recovers w now c old value_error = save w now (default_state text now c) old
  recovers w now c old e = (raised e, old)

  abbrev pub recover :
      Write → String → Config → StateFile → Result Fields → Result Fields × StateFile
  recover w now c old (ok state) = (ok state, old)
  recover w now c old (raised e) = recovers w now c old e

  -- `StateStore.load`
  unfoldable pub load : Write → String → Config → StateFile → Result Fields × StateFile
  unfolding check_schema
  load w now c file = recover w now c file (read_state file)
