-- ===== src/Defender/Service/Context.antt =====
-- defender/service.py: `context`, what the model is told of the state and of the batch.
use k3df.Base.{
  ℕ, ◌+◌, not, ◌&&◌, String, List, [], ◌∷◌, map, take, length, any, if◌then◌else◌, ◌==◌,
}
use k3df.Base.Int.{pos}
use k3df.Json.{Value, int, arr, obj, Fields, end, field, items, truthy, value_eq}
use k3df.Defender.Config.{Config}
use k3df.Defender.Evidence.{Evidence, Bucket, evidence_fields}
use k3df.Defender.Store.{entries}
use k3df.Defender.Service.{Service}

abbrev pub raw_key : Evidence → String
raw_key e = if e.source == "defender_action" then "raw_data" else "raw_reference"

abbrev append_fields : Fields → Fields → Fields
append_fields end e = e
append_fields (field k v d) e = field k v (append_fields d e)

abbrev pub bucket_value : Bucket → Value
bucket_value b = obj (
    append_fields (evidence_fields (raw_key b.item) b.item) (
      field "count" (int (pos b.count))
        (field "first_seen" b.first_seen (field "last_seen" b.last_seen end))))

abbrev pub counted : List Bucket → ℕ
counted [] = 0
counted (b ∷ bs) = b.count + counted bs

-- The set of the sources.
abbrev pub sources : List Bucket → List Value
sources [] = []
sources (b ∷ bs) =
    let rest = sources bs in
    if truthy b.item.related_source_ip && not (any (value_eq b.item.related_source_ip) rest)
    then b.item.related_source_ip ∷ rest
    else rest

abbrev findings : List Bucket → List Bucket
findings [] = []
findings (b ∷ bs) =
    let rest = findings bs in if b.item.source == "scanner_result" then b ∷ rest else rest

abbrev pub list_value : List Value → Value
list_value vs = arr (items vs)

abbrev pub categories : List (String × List Value) → List (String × Value)
categories [] = []
categories ((k, vs) ∷ rest) = (k, list_value vs) ∷ categories rest

-- `context(batch)`
unfoldable pub context : Config → List Bucket → Service → Fields
context c batch s = entries (
    ("cycle", int (pos s.cycle))
    ∷ (
      "current_state",
      obj (
          entries (
            ("threat_level", s.threat_level)
            ∷ ("active_incidents", list_value (take 10 s.active_incidents))
            ∷ ("attacker_capabilities", list_value (take 20 s.estimated_capabilities))
            ∷ ("exposure_graph", obj (entries (categories s.exposure)))
            ∷ ("defender_capabilities", s.authorized_capabilities)
            ∷ [])),
    )
    ∷ ("new_evidence", list_value (map bucket_value (take 50 batch)))
    ∷ (
      "batch_summary",
      obj (
          entries (
            ("window_seconds", int (pos c.reasoning_interval_sec))
            ∷ ("request_count", int (pos (counted batch)))
            ∷ ("suspicious_candidate_count", int (pos (length batch)))
            ∷ ("unique_sources", int (pos (length (sources batch))))
            ∷ [])),
    )
    ∷ ("scanner_findings", list_value (map bucket_value (findings batch)))
    ∷ ("recent_events", list_value [])
    ∷ ("unresolved_hypotheses", list_value (take 10 s.unresolved_hypotheses))
    ∷ ("watch_conditions", list_value (take 10 s.watch_conditions))
    ∷ [])
