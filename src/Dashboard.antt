-- ===== src/Dashboard.antt =====
-- dashboard/app.py: the dashboard's view of the state and the events that the defender has written.
-- What a file holds is given; its texts for readers are taken over.
pub mod Snapshot
pub mod Depths
pub mod Stored
pub mod Shows
pub mod LastLine
pub mod Assessed
pub mod LastCycle
pub mod Request
pub mod Activity
pub mod Counts
pub mod Health
mod Tests
use k3df.Base.{
  ℕ, zero, suc, ◌+◌, ◌-◌, Bool, true, false, not, ◌&&◌, ◌||◌, String, Option, none, some, List, [],
  ◌∷◌, ◌++◌, map, take, length, if◌then◌else◌, ◌==◌, Result, ok, raised, type_error,
  attribute_error, ◌>>=◌,
}
use k3df.Base.Int.{pos}
use k3df.Json.{
  Value, null, bool, int, float, str, arr, obj, Items, nil, Fields, end, field, find, get, get_or,
  items, hashable, truthy, zero_float, value_eq, dict_of, slice, iterate, len_of, max_or_zero,
}
use k3df.Defender.Graph.Observe.{or_value}
use k3df.Defender.Store.{StateFile, unreadable, document, entries}

-- A line of the event file: blank, no JSON, or a document. A file whose bytes are not UTF-8 has lines
-- where they are read with replacements only.
pub data Line : Type 0 where
  blank broken : Line
  event : Value → Line

pub data EventFile : Type 0 where
  missing : EventFile
  lines undecodable : List Line → EventFile

abbrev pub skip {ℓ} : {A : Type ℓ} → ℕ → List A → List A
skip zero xs = xs
skip (suc n) [] = []
skip (suc n) (x ∷ xs) = skip n xs

-- `xs[-n:]`
abbrev pub last_of : {A : Type 0} → ℕ → List A → List A
last_of n xs = skip (length xs - n) xs

abbrev pub reverse_onto : {A : Type 0} → List A → List A → List A
reverse_onto done [] = done
reverse_onto done (x ∷ xs) = reverse_onto (x ∷ done) xs

-- `_fallback_graph`
abbrev fallback_node : ℕ → String → String → Value
fallback_node depth id label = obj (
    entries (
      ("id", str id)
      ∷ ("label", str label)
      ∷ ("depth", int (pos depth))
      ∷ ("status", str "not_observed")
      ∷ ("confidence", float zero_float)
      ∷ ("evidence_ids", arr nil)
      ∷ ("last_observed_at", null)
      ∷ []))

abbrev pub fallback_nodes : List Value
fallback_nodes =
    fallback_node 1 "depth_1" "Public Endpoint Reached"
    ∷ fallback_node 2 "depth_2" "Service / Protocol Discovered"
    ∷ fallback_node 3 "depth_3" "Exploit Attempt Observed"
    ∷ fallback_node 4 "depth_4" "Exploit Success Confirmed"
    ∷ fallback_node 5 "depth_5" "Application Data Access"
    ∷ fallback_node 6 "depth_6" "Credential Acquired"
    ∷ fallback_node 7 "depth_7" "Challenge Session Established"
    ∷ fallback_node 8 "depth_8" "Command Execution / Filesystem Read"
    ∷ fallback_node 9 "depth_9" "Internal Service Reached"
    ∷ fallback_node 10 "depth_10" "Challenge Database Access"
    ∷ []

abbrev pub fallback_graph : Fields
fallback_graph = field "nodes" (arr (items fallback_nodes)) end

-- `_fallback_flags`
abbrev fallback_flag : String → String → Value
fallback_flag id label = obj (
    entries (
      ("id", str id)
      ∷ ("label", str label)
      ∷ ("acquisition_status", str "not_observed")
      ∷ ("submission_status", str "not_submitted")
      ∷ ("evidence_ids", arr nil)
      ∷ ("updated_at", null)
      ∷ ("provenance", str "defender_estimate")
      ∷ []))

abbrev pub fallback_flag_list : List Value
fallback_flag_list =
    fallback_flag "flag_1" "Flag 1"
    ∷ fallback_flag "flag_2" "Flag 2"
    ∷ fallback_flag "flag_3" "Flag 3"
    ∷ []

abbrev pub fallback_flags : Fields
fallback_flags = field "flags" (arr (items fallback_flag_list)) end

-- `_recent_reasoning_event`, on the last lines in reverse. A line that is JSON but no dict raises.
abbrev is_reasoning : Value → Result Bool
is_reasoning (str s) = ok (s == "REASONING_END" || s == "REASONING_START" || s == "ERROR")
is_reasoning v = if hashable v then ok false else raised type_error

abbrev or_next : Fields → Result (Option Fields) → Bool → Result (Option Fields)
or_next d rest true = ok (some d)
or_next d rest false = rest

unfoldable pub first_reasoning : List Line → Result (Option Fields)
first_reasoning [] = ok none
first_reasoning (event (obj d) ∷ rest) =
    let later = first_reasoning rest in is_reasoning (get "type" d) >>= λ is. or_next d later is
first_reasoning (event _ ∷ rest) = raised attribute_error
first_reasoning (_ ∷ rest) = first_reasoning rest

unfoldable pub recent_reasoning_event : EventFile → Result (Option Fields)
unfolding first_reasoning
recent_reasoning_event missing = ok none
recent_reasoning_event (lines ls) = first_reasoning (reverse_onto [] (last_of 100 ls))
recent_reasoning_event (undecodable ls) = first_reasoning (reverse_onto [] (last_of 100 ls))

-- `event.get("data", {})` of the end of a reasoning.
abbrev pub analysis_of : Option Fields → Value
analysis_of none = obj end
analysis_of (some d) =
    if value_eq (get "type" d) (str "REASONING_END") then get_or "data" (obj end) d else obj end

abbrev summary_of : Option Fields → Value
summary_of none = null
summary_of (some d) = get "summary" d

-- `state.get(k, {}).get(…)` begins with this.
abbrev pub inner : String → Fields → Result Fields
inner k d = dict_of (get_or k (obj end) d)

pub record Reasoning : Type 0 where
  pub available : Bool
  pub cycle : Value
  pub phase : Value
  pub threat_level : Value
  pub updated_at : Value
  pub summary : Value
  pub confidence : Value
  pub evidence_count : Value
  pub hypotheses : Value
  pub watch_conditions : Value
  pub scenarios : Value

abbrev state_or_empty : StateFile → Value
state_or_empty unreadable = obj end
state_or_empty (document v) = v

-- `reasoning_snapshot`, where `no_analysis` is the text for a state without an analysis.
unfoldable pub reasoning_snapshot : Value → StateFile → EventFile → Result Reasoning
unfolding recent_reasoning_event
reasoning_snapshot no_analysis file events = do
  found ← recent_reasoning_event events
  analysis ← dict_of (analysis_of found)
  state ← dict_of (state_or_empty file)
  defense ← inner "defense" state
  metrics ← inner "metrics" state
  hypotheses ← slice 4 (get_or "unresolved_hypotheses" (arr nil) defense)
  watches ← slice 4 (get_or "watch_conditions" (arr nil) defense)
  scenarios ← slice 4 (get_or "scenarios" (arr nil) defense)
  ok (record {
    available = truthy (obj state);
    cycle = get_or "cycle" (int (pos 0)) state;
    phase = get_or "current_phase" (str "WAITING") defense;
    threat_level = get_or "threat_level" (str "--") state;
    updated_at = get "updated_at" state;
    summary = or_value (or_value (get "summary" analysis) (summary_of found)) no_analysis;
    confidence = get "confidence" analysis;
    evidence_count = get_or "evidence_count" (int (pos 0)) metrics;
    hypotheses = hypotheses;
    watch_conditions = watches;
    scenarios = scenarios;
  })
