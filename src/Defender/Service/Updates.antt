-- ===== src/Defender/Service/Updates.antt =====
-- defender/service.py: what `apply_analysis` does with one item of each list of an analysis. `parse`
-- is `float` of a text and `now` is what `now_iso()` returns.
use k3df.Base.{
  Bool, true, false, String, Option, none, some, List, [], ◌∷◌, map, length, if◌then◌else◌, ◌==◌,
  Result, ok, raised, Error, type_error, attribute_error, contains,
}
use k3df.Json.{
  Value, null, float, str, arr, obj, Fields, get, get_or, elements, hashable, truthy, Float,
  zero_float,
}
use k3df.Defender.Evidence.{Bucket}
use k3df.Defender.Graph.{Node, first_texts, graph_value}
use k3df.Defender.Graph.Observe.{apply_observation, or_value}
use k3df.Defender.Service.{Service, note, log, then_next, with_result, for_each}
use k3df.Defender.Service.Upsert.{upsert}

abbrev pub keep_incidents : Fields → List Value → Service → Service × Option Error
keep_incidents d incidents s =
    log (note "INCIDENT" (get_or "summary" (str "incident update") d) (obj d) (get "incident_id" d))
      (record s { active_incidents = incidents })

unfoldable pub apply_incident : Value → Service → Service × Option Error
apply_incident (obj d) s =
    with_result (upsert s.active_incidents (obj d) "incident_id") (keep_incidents d) s
apply_incident _ s = (s, some attribute_error)

abbrev pub count_incidents : Service → Service
count_incidents s = record s { incident_count = length s.active_incidents }

-- `all(item in known_ids for item in evidence_ids)`
unfoldable pub all_known : List Bucket → List Value → Result Bool
all_known batch [] = ok true
all_known batch (str e ∷ vs) =
    let rest = all_known batch vs in
    if contains (map (λ b. b.item.evidence_id) batch) e then rest else ok false
all_known batch (v ∷ vs) = if hashable v then ok false else raised type_error

-- The time of the first item with the id.
unfoldable pub time_of : Value → List Bucket → String → Value
time_of now [] e = now
time_of now (b ∷ bs) e =
    let rest = time_of now bs e in if b.item.evidence_id == e then b.item.timestamp else rest

abbrev pub keep_graph : List Node → Service → Service × Option Error
keep_graph nodes s = (record s { capability_graph = nodes }, none)

abbrev pub keep_capabilities : Fields → List Value → Service → Service × Option Error
keep_capabilities d capabilities s =
    log
      (note "CAPABILITY" (get_or "capability" (str "unknown") d) (obj d)
        (get "related_incident_id" d))
      (record s { estimated_capabilities = capabilities })

module _ (parse : String → Option Float) where
  -- One observation that the model proposes: a suspicion.
  unfoldable pub suspect_by :
      Value → List Bucket → Value → Value → String → Service → Service × Option Error
  suspect_by now batch id confidence e s =
      with_result
        (apply_observation parse (graph_value s.capability_graph) id (str e) (time_of now batch e)
          (str "suspected") confidence)
        keep_graph s

  abbrev pub suspect_known :
      Value → List Bucket → Value → Value → List Value → Bool → Service → Service × Option Error
  suspect_known now batch id confidence vs known =
      for_each (suspect_by now batch id confidence) (if known then first_texts [] vs else [])

  -- `isinstance(evidence_ids, list) and node_id and …`
  abbrev pub suspect_ids :
      Value → List Bucket → Value → Value → Value → Service → Service × Option Error
  suspect_ids now batch id confidence (arr vs) s =
      if truthy id
      then with_result (all_known batch (elements vs))
          (suspect_known now batch id confidence (elements vs)) s
      else (s, none)
  suspect_ids now batch id confidence _ s = (s, none)

  abbrev pub suspect_for : Value → List Bucket → Fields → Service → Service × Option Error
  suspect_for now batch d =
      suspect_ids now batch (or_value (get "node_id" d) (get "capability" d))
        (get_or "confidence" (float zero_float) d) (get "evidence_ids" d)

  unfoldable pub apply_capability : Value → List Bucket → Value → Service → Service × Option Error
  apply_capability now batch (obj d) s =
      then_next (suspect_for now batch d)
        (with_result (upsert s.estimated_capabilities (obj d) "capability") (keep_capabilities d) s)
  apply_capability now batch _ s = (s, some attribute_error)

-- `exposure[category]`
unfoldable pub category_of : String → List (String × List Value) → Option (List Value)
category_of k [] = none
category_of k ((j, vs) ∷ rest) = if k == j then some vs else category_of k rest

unfoldable pub set_category :
    String → List Value → List (String × List Value) → List (String × List Value)
set_category k vs [] = []
set_category k vs ((j, ws) ∷ rest) =
    if k == j then (j, vs) ∷ rest else (j, ws) ∷ set_category k vs rest

abbrev pub keep_category : String → Fields → List Value → Service → Service × Option Error
keep_category category d vs s =
    log (note "EXPOSURE" (str category) (obj d) null)
      (record s { exposure = set_category category vs s.exposure })

abbrev pub expose : String → Fields → Option (List Value) → Service → Service × Option Error
expose category d none s = (s, none)
expose category d (some vs) s = with_result (upsert vs (obj d) "id") (keep_category category d) s

abbrev pub expose_at : Value → Fields → Service → Service × Option Error
expose_at (str category) d s = expose category d (category_of category s.exposure) s
expose_at v d s = (s, if hashable v then none else some type_error)

unfoldable pub apply_exposure : Value → Service → Service × Option Error
apply_exposure (obj d) s = expose_at (get "category" d) d s
apply_exposure _ s = (s, some attribute_error)

abbrev pub keep_watches : Fields → List Value → Service → Service × Option Error
keep_watches d watches s =
    log (note "WATCH" (get_or "reason" (str "watch condition") d) (obj d) null)
      (record s { watch_conditions = watches })

unfoldable pub apply_watch : Value → Service → Service × Option Error
apply_watch (obj d) s =
    with_result (upsert s.watch_conditions (obj d) "watch_id") (keep_watches d) s
apply_watch _ s = (s, some attribute_error)
