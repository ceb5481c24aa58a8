-- ===== src/Defender/FlagTests.antt =====
-- The flags, the analysis and the batch of evidence at concrete inputs.
use k3df.Base.{
  true, ◌⊎◌, ◌≤◌, ◌≡◌, refl, String, List, [], ◌∷◌, ◌++◌, map, arith, ok, text_dec, length,
  contains, Unique,
}
use k3df.Base.Int.{pos}
use k3df.Json.{
  Value, null, int, str, arr, obj, nil, Fields, end, field, find, value_eq, one, hashable, set,
}
use k3df.Defender.Graph.{confirmed, member}
use k3df.Defender.Graph.Observe.{metadata_of}
use k3df.Defender.Flags.{
  Flag, accepted, referee, default_flag_objectives, normalize_flags, apply_flag_evidence, find_flag,
  set_flag, acquire, submitted, append_evidence, update_flag,
}
use k3df.Defender.Flags.Confirm.{AllRevised, apply_flag_evidence-AllRevised}
use k3df.Defender.Kimi.{validate_result, list_fields}
use k3df.Defender.Kimi.Shape.{IsResult, validate_result-IsResult}
use k3df.Defender.Evidence.{Evidence, aggregate, grouped, group}
use k3df.Defender.Evidence.Groups.{counted_as, occurrences, total, aggregate-counts}

abbrev acceptance : Fields
acceptance = field "evidence_id" (str "EV-9") (
    field "timestamp" (str "t") (
      field "metadata"
        (obj (field "flag_id" (str "flag_2") (field "flag_submission_status" (str "accepted") end)))
        end))

abbrev rest_of : List Flag → List Flag
rest_of [] = []
rest_of (f ∷ fs) = fs

abbrev first_of : List Flag → List Flag
first_of [] = []
first_of (f ∷ fs) = f ∷ []

abbrev second_accepted : Flag
second_accepted = record {
  id = "flag_2";
  label = "Flag 2";
  acquisition_status = confirmed;
  submission_status = accepted;
  evidence_ids = "EV-9" ∷ [];
  updated_at = str "t";
  provenance = referee;
}

abbrev after_acceptance : List Flag
after_acceptance =
    first_of default_flag_objectives
    ++ (second_accepted ∷ rest_of (rest_of default_flag_objectives))

accepted_second : apply_flag_evidence null acceptance ≡ ok after_acceptance
unfolding apply_flag_evidence normalize_flags find_flag set_flag acquire submitted append_evidence
    update_flag member find text_dec value_eq hashable
accepted_second = refl

apply_flag_evidence-AllRevised_example :
    (old : List Flag) × (metadata : Fields) × (normalize_flags null ≡ ok old)
    × (metadata_of (
          obj
            (field "flag_id" (str "flag_2") (field "flag_submission_status" (str "accepted") end)))
        ≡ ok metadata)
    × AllRevised metadata old after_acceptance
unfolding find text_dec
apply_flag_evidence-AllRevised_example =
    apply_flag_evidence-AllRevised null acceptance after_acceptance accepted_second

abbrev analysis : Value
analysis = obj (
    field "threat_level" (str "HIGH")
      (field "summary" (str "probe") (field "confidence" (int (pos 1)) end)))

abbrev emptied : List String → Fields
emptied [] = end
emptied (k ∷ ks) = field k (arr nil) (emptied ks)

abbrev checked : Fields
checked = field "analysis" analysis (emptied list_fields)

passes : validate_result (obj (field "analysis" analysis end)) ≡ ok checked
unfolding validate_result find set text_dec
passes = refl

validate_result-IsResult_example :
    IsResult checked
    × ((d : Fields) × (obj (field "analysis" analysis end) ≡ obj d)
        × ((contains list_fields "analysis" ≡ true)
            ⊎ (find "analysis" checked ≡ find "analysis" d)))
validate_result-IsResult_example =
    validate_result-IsResult (obj (field "analysis" analysis end)) checked "analysis" passes

abbrev hit : String → String → Evidence
hit id fingerprint = record {
  evidence_id = id;
  fingerprint = fingerprint;
  timestamp = str id;
  source = "nginx_access_log";
  kind = "http_request";
  summary = "GET / -> 200";
  raw = str "access.log";
  related_endpoint = str "/";
  related_source_ip = str "203.0.113.9";
  related_incident_id = null;
  confidence = one;
  metadata = obj end;
}

abbrev hits : List Evidence
hits = hit "1" "a" ∷ hit "2" "b" ∷ hit "3" "a" ∷ []

two_groups : length (grouped [] hits) ≤ 50
unfolding grouped group text_dec
two_groups = omega arith

aggregate-counts_example :
    ((f : String) → counted_as f (aggregate 50 hits) ≡ occurrences f hits)
    × (total (aggregate 50 hits) ≡ 3)
    × Unique (map (λ b. b.item.fingerprint) (aggregate 50 hits))
aggregate-counts_example = aggregate-counts 50 hits two_groups
