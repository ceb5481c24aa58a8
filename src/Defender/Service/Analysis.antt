-- ===== src/Defender/Service/Analysis.antt =====
-- defender/service.py: `apply_analysis`, on an analysis that `validate_result` has let through.
-- `dumps` is `json.dumps(…, sort_keys=True)`.
use k3df.Base.{
  Bool, true, String, Option, none, some, List, [], ◌∷◌, map, take, if◌then◌else◌, Result, ok,
  raised, Error, type_error, key_error, attribute_error, ◌>>=◌,
}
use k3df.Json.{
  Value, null, float, str, arr, obj, Fields, find, get, get_or, elements, hashable, value_eq, Float,
  nan,
}
use k3df.Defender.Evidence.{Bucket}
use k3df.Defender.Graph.Observe.{or_value}
use k3df.Defender.Service.{Service, note, log, with_result, for_each, in_order}
use k3df.Defender.Service.Updates.{
  apply_incident, count_incidents, apply_capability, apply_exposure, apply_watch,
}

-- `result[k]` of a list.
abbrev pub list_at : String → Fields → Result (List Value)
list_at k d = elim (find k d) [
  | none ↦ raised key_error
  | some (arr vs) ↦ ok (elements vs)
  | some _ ↦ raised type_error
]

abbrev pub for_list :
    String → (Value → Service → Service × Option Error) → Fields → Service → Service × Option Error
for_list k f result = with_result (list_at k result) (for_each f)

-- `result["analysis"][k]`
abbrev pub analysis_at : String → Fields → Result Value
analysis_at k result = elim (find "analysis" result) [
  | none ↦ raised key_error
  | some (obj analysis) ↦ elim (find k analysis) [ none ↦ raised key_error | some v ↦ ok v ]
  | some _ ↦ raised type_error
]

-- Equality of keys; the JSON reader has one NaN, which is the same key as itself.
abbrev pub same_key : Value → Value → Bool
same_key (float nan) (float nan) = true
same_key a b = value_eq a b

-- `unique_scenarios[scenario_id] = scenario`
unfoldable pub put_scenario : Value → Value → List (Value × Value) → List (Value × Value)
put_scenario k v [] = (k, v) ∷ []
put_scenario k v ((j, w) ∷ rest) =
    if same_key j k then (j, v) ∷ rest else (j, w) ∷ put_scenario k v rest

-- The loop that fills `unique_scenarios`.
unfoldable pub unique_scenarios :
    (Value → String) → List Value → List (Value × Value) → Result (List (Value × Value))
unique_scenarios dumps [] unique = ok unique
unique_scenarios dumps (obj d ∷ vs) unique =
    let id = or_value (get "scenario_id" d) (str (dumps (obj d))) in
    let rest = unique_scenarios dumps vs (put_scenario id (obj d) unique) in
    if hashable id then rest else raised type_error
unique_scenarios dumps (_ ∷ vs) unique = raised attribute_error

abbrev pub scenarios_of : (Value → String) → Fields → Result (List (Value × Value))
scenarios_of dumps result =
    list_at "defense_scenarios" result >>= λ vs. unique_scenarios dumps vs []

abbrev pub set_scenarios : List (Value × Value) → Service → Service × Option Error
set_scenarios unique s = (record s { scenarios = take 10 (map (λ kv. kv.1) unique) }, none)

abbrev pub note_scenario : Value → Service → Service × Option Error
note_scenario (obj d) s =
    log (note "SCENARIO" (get_or "hypothesis" (str "defense scenario") d) (obj d) null) s
note_scenario _ s = (s, some attribute_error)

abbrev pub note_scenarios : Service → Service × Option Error
note_scenarios s = for_each note_scenario s.scenarios s

abbrev pub note_context : Value → Service → Service × Option Error
note_context context s = log (note "ATT&CK" (str "ATT&CK context") context null) s

abbrev pub set_level : Value → Service → Service × Option Error
set_level level s = (record s { threat_level = level }, none)

abbrev pub set_hypotheses : List Value → Service → Service × Option Error
set_hypotheses vs s = (record s { unresolved_hypotheses = take 10 vs }, none)

module _ (parse : String → Option Float) (dumps : Value → String) where
  -- The statements of `apply_analysis`.
  abbrev pub statements : Value → List Bucket → Fields → List (Service → Service × Option Error)
  statements now batch result =
      with_result (analysis_at "threat_level" result) set_level
      ∷ for_list "incident_updates" apply_incident result
      ∷ (λ s. (count_incidents s, none))
      ∷ for_list "capability_updates" (apply_capability parse now batch) result
      ∷ for_list "exposure_updates" apply_exposure result
      ∷ for_list "watch_conditions" apply_watch result
      ∷ with_result (list_at "unresolved_hypotheses" result) set_hypotheses
      ∷ with_result (scenarios_of dumps result) set_scenarios
      ∷ note_scenarios
      ∷ for_list "mitre_attack_context" note_context result
      ∷ []

  unfoldable pub apply_analysis : Value → List Bucket → Fields → Service → Service × Option Error
  apply_analysis now batch result = in_order (statements now batch result)
