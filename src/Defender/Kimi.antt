-- ===== src/Defender/Kimi.antt =====
-- defender/kimi.py: the request to the model, and the check of the analysis that it returns.
pub mod Shape
use k3df.Base.{
  ℕ, Bool, true, false, not, ◌&&◌, ◌||◌, String, Option, none, some, List, [], ◌∷◌, take, contains,
  if◌then◌else◌, ◌==◌, ◌<>◌, Result, ok, raised, type_error, value_error, ◌>>=◌,
}
use k3df.Base.Int.{ℤ, pos, leb_ℤ}
use k3df.Json.{
  Value, null, bool, int, float, str, arr, obj, Items, Fields, end, field, find, get, set, elements,
  items, hashable, Float, nan, inf, neg_inf, finite, scale, bool_int,
}
use k3df.Defender.Config.{Config}

-- What the client of the API is given: the arguments of `OpenAI` and of `create`.
pub record Request : Type 0 where
  pub api_key : String
  pub base_url : String
  pub model : String
  pub system : String
  pub user : Fields
  pub response_format : Fields
  pub extra_body : Fields

-- `SYSTEM_PROMPT`
abbrev system_prompt : String
system_prompt =
    "You are K3DF Defender's analysis component. Analyze only the supplied batch.\n"
    <> ("You must not execute commands, access files, call tools, modify state, or assume facts not in evidence.\n"
        <> ("Return JSON only with analysis, incident_updates, capability_updates, exposure_updates,\n"
            <> ("defense_scenarios, watch_conditions, unresolved_hypotheses, and mitre_attack_context.\n"
                <> "Defense scenarios are proposals; express actions as structured objects, never shell commands.")))

-- The request of `analyze` for a context, whose JSON text is the user's message.
abbrev pub model_request : Config → Fields → Request
model_request c context = record {
  api_key = c.moonshot_api_key;
  base_url = c.moonshot_base_url;
  model = c.moonshot_model;
  system = system_prompt;
  user = context;
  response_format = field "type" (str "json_object") end;
  extra_body = field "reasoning_effort" (str c.reasoning_effort) end;
}

abbrev pub allowed_levels : List String
allowed_levels = "LOW" ∷ "MEDIUM" ∷ "HIGH" ∷ "CRITICAL" ∷ []

abbrev pub list_fields : List String
list_fields =
    "incident_updates" ∷ "capability_updates" ∷ "exposure_updates" ∷ "defense_scenarios"
    ∷ "watch_conditions" ∷ "unresolved_hypotheses" ∷ "mitre_attack_context" ∷ []

-- `analysis.get("threat_level") not in ALLOWED_LEVELS`
check_level : Value → Result Unit
check_level (str s) = if contains allowed_levels s then ok tt else raised value_error
check_level v = if hashable v then raised value_error else raised type_error

check_summary : Value → Result Unit
check_summary (str s) = ok tt
check_summary _ = raised value_error

-- `0 <= confidence <= 1` for a number.
abbrev in_range : Value → Bool
in_range (bool b) = true
in_range (int n) = leb_ℤ (pos 0) n && leb_ℤ n (pos 1)
in_range (float (finite a)) = leb_ℤ (pos 0) a && leb_ℤ a (scale (pos 1))
in_range _ = false

abbrev check_confidence : Value → Result Unit
check_confidence v = if in_range v then ok tt else raised value_error

-- `value[field][:10]` of a list.
first_ten : Value → Result Value
first_ten (arr vs) = ok (arr (items (take 10 (elements vs))))
first_ten _ = raised value_error

abbrev or_empty : Option Value → Value
or_empty none = arr (items [])
or_empty (some v) = v

-- The loop over `LIST_FIELDS`.
trim_fields : List String → Fields → Result Fields
unfolding first_ten
trim_fields [] d = ok d
trim_fields (k ∷ ks) d = first_ten (or_empty (find k d)) >>= λ v. trim_fields ks (set k v d)

check_analysis : Value → Result Unit
unfolding check_level check_summary
check_analysis (obj analysis) = do
  level ← check_level (get "threat_level" analysis)
  summary ← check_summary (get "summary" analysis)
  check_confidence (get "confidence" analysis)
check_analysis _ = raised value_error

unfoldable pub validate_result : Value → Result Fields
unfolding check_analysis trim_fields
validate_result (obj d) = check_analysis (get "analysis" d) >>= λ _. trim_fields list_fields d
validate_result _ = raised value_error
