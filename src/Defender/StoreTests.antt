-- ===== src/Defender/StoreTests.antt =====
-- The state store and the collection of evidence at concrete inputs.
use k3df.Base.{◌≡◌, refl, String, List, [], ◌∷◌, text_dec, ok}
use k3df.Json.{set, null, str, arr, nil, obj, Fields, end, field, one, find, set}
use k3df.Defender.Address.{Network, net4}
use k3df.Defender.Config.{Config}
use k3df.Defender.Evidence.{Evidence}
use k3df.Defender.Graph.{default_graph, graph_value, normalize_graph}
use k3df.Defender.Flags.{default_flag_objectives, normalize_flags}
use k3df.Defender.Store.{
  save, default_state, unreadable, document, written, write_fails, load, migrate, check_schema,
  attacker_state, flags_value,
}
use k3df.Defender.Store.Migrate.{IsState, load-IsState, default_state-IsState}
use k3df.Defender.Store.Reload.{load-save}
use k3df.Defender.Collect.{Collected}
use k3df.Defender.Collect.Follow.{at, reads, reads-pieces}

abbrev network_text : Network → String
network_text n = "10.8.8.0/24"

abbrev settings : Config
settings = record {
  reasoning_interval_sec = 10;
  reasoning_effort = "low";
  ignore_networks = net4 168_298_496 24 ∷ [];
  allow_networks = [];
  state_dir = "/state";
  access_log_path = "/var/log/nginx/access.log";
  scanner_result_path = "/result.json";
  moonshot_api_key = "";
  moonshot_base_url = "https://api.moonshot.ai/v1";
  moonshot_model = "kimi-k3";
}

-- A state of the first version, with a key that the second does not know.
abbrev old_state : Fields
old_state = field "schema_version" (str "1.0") (field "legacy" (str "kept") end)

abbrev migrated : Fields
migrated = field "schema_version" (str "2.0") (
    field "legacy" (str "kept") (
      field "capability_graph" (graph_value default_graph) (
        field "flag_objectives" (flags_value default_flag_objectives)
          (field "attacker_state" (obj (field "estimated_capabilities" (arr nil) end)) end))))

loads_old : (load network_text written "t" settings (document (obj old_state))).0 ≡ ok migrated
unfolding load migrate check_schema attacker_state normalize_graph normalize_flags find set text_dec
loads_old = refl

load-IsState_example : IsState migrated
load-IsState_example =
    load-IsState network_text written "t" settings (document (obj old_state)) migrated loads_old

abbrev first_state : Fields
first_state = set "updated_at" (str "t") (default_state network_text "t" settings)

load-save_example :
    load network_text write_fails "u" settings (save written "u" first_state unreadable).1
    ≡ save written "u" first_state unreadable
load-save_example =
    load-save network_text write_fails "u" "u" settings first_state unreadable
      (default_state-IsState network_text "t" "t" settings)

abbrev hit_from : String → Evidence
hit_from ip = record {
  evidence_id = "EV-1";
  fingerprint = "a";
  timestamp = str "t";
  source = "nginx_access_log";
  kind = "http_request";
  summary = "GET / -> 200";
  raw = str "access.log";
  related_endpoint = str "/";
  related_source_ip = str ip;
  related_incident_id = null;
  confidence = one;
  metadata = obj end;
}

abbrev nothing : Collected
nothing = record {
  accepted = [];
  evidence_count = 0;
  ignored_evidence_count = 0;
  events = [];
  writes = [];
}

abbrev two_hits : List Evidence
two_hits = hit_from "10.8.8.20" ∷ hit_from "203.0.113.9" ∷ []

reads-pieces_example :
    reads 7 (b'a' ∷ []) ((b'b' ∷ b'c' ∷ []) ∷ [] ∷ (b'd' ∷ []) ∷ []) (at 7 (b'a' ∷ []))
    ≡ ((b'b' ∷ b'c' ∷ []) ∷ [] ∷ (b'd' ∷ []) ∷ [])
reads-pieces_example = reads-pieces 7 (b'a' ∷ []) ((b'b' ∷ b'c' ∷ []) ∷ [] ∷ (b'd' ∷ []) ∷ [])
