-- ===== src/Defender/Tests.antt =====
-- Runs of the defender at concrete inputs, and the theorems applied to them.
use k3df.Base.{ℕ, ◌≡◌, ◌↔◌, refl, false, String, none, [], ◌∷◌, arith, text_dec, any}
use k3df.Base.Int.{pos}
use k3df.Json.{
  zero_float, null, int, str, arr, nil, obj, Fields, end, field, find, value_eq, hashable,
}
use k3df.Text.{split}
use k3df.Defender.Graph.{default_graph}
use k3df.Defender.Flags.{default_flag_objectives}
use k3df.Defender.Address.{v4, net4, ip_address, in_network, address_of_text}
use k3df.Defender.Config.{Config}
use k3df.Defender.Policy.{validate_scenario, is_protected, BlockRecord, active_block, block_ip}
use k3df.Defender.Policy.Allowed.{Blockable, blocks, validate_scenario_iff}
use k3df.Defender.Policy.Local.{IsLocal, blocks_not-IsLocal, v6_blocks}
use k3df.Defender.Policy.BlockList.{IsBlockList, active_block-block_ip}
use k3df.Defender.Service.{Service, execute_scenario, auth}
use k3df.Defender.Service.Enforce.{execute_scenario-auth}

abbrev pub config : Config
config = record {
  reasoning_interval_sec = 10;
  reasoning_effort = "low";
  ignore_networks = net4 168_298_496 24 ∷ [];
  allow_networks = [];
  state_dir = "/state";
  access_log_path = "/var/log/nginx/access.log";
  scanner_result_path = "/result.json";
  moonshot_api_key = "key";
  moonshot_base_url = "https://api.moonshot.ai/v1";
  moonshot_model = "kimi-k3";
}

abbrev action_on : String → Fields
action_on ip =
    field "type" (str "block_ip") (field "ip" (str ip) (field "duration_sec" (int (pos 60)) end))

abbrev scenario_on : String → Fields
scenario_on ip = field "action" (obj (action_on ip)) end

abbrev iso : ℕ → String
iso n = "2026-01-01T00:00:00+00:00"

abbrev pub listed : BlockRecord
listed = record { ip = str "198.51.100.7"; expires_at = 2_000; reason = str "scan" }

abbrev pub service : Service
service = record {
  blocked_sources = listed ∷ [];
  current_phase = "DETECT";
  active_actions = [];
  blocked_scenario_count = 0;
  executed_action_count = 0;
  events = [];
  buffer = [];
  cycle = 3;
  threat_level = str "LOW";
  active_incidents = [];
  estimated_capabilities = [];
  capability_graph = default_graph;
  flag_objectives = default_flag_objectives;
  exposure = ("endpoints", []) ∷ [];
  authorized_capabilities = arr nil;
  unresolved_hypotheses = [];
  watch_conditions = [];
  scenarios = [];
  incident_count = 0;
  evidence_count = 0;
  ignored_evidence_count = 0;
  reasoning_cycle_count = 3;
  last_reasoning = 0;
  last_reasoning_at = null;
  runtime = record { access_log_offset = 0; access_log_inode = none };
  scanner_mtime = zero_float;
  writes = [];
}

-- 203.0.113.9 is blocked.
outside_blocks : validate_scenario (obj (scenario_on "203.0.113.9")) config ≡ blocks
unfolding validate_scenario is_protected in_network ip_address address_of_text find text_dec
    hashable split value_eq
outside_blocks = refl

abbrev attack : Fields
attack = scenario_on "203.0.113.9"

service-IsBlockList : IsBlockList service.blocked_sources
service-IsBlockList = ("198.51.100.7", refl, refl, tt)

execute_scenario-auth_example :
    ((execute_scenario iso config 1_000_000_000 1_000_000_001 (obj attack) service).1 ≡ none)
    × ((auth 1_000_500_000
          (str "203.0.113.9")
          (execute_scenario iso config 1_000_000_000 1_000_000_001 (obj attack) service).0).1
        ≡ false)
unfolding find text_dec
execute_scenario-auth_example =
    execute_scenario-auth iso config 1_000_000_000 1_000_000_001 1_000_500_000 "203.0.113.9"
      "203.0.113.9" attack (action_on "203.0.113.9") service service-IsBlockList outside_blocks refl
      refl refl (omega arith) refl

validate_scenario_iff_example :
    (validate_scenario (obj attack) config ≡ blocks) ↔ Blockable (obj attack) config
validate_scenario_iff_example = validate_scenario_iff (obj attack) config

blocks_not-IsLocal_example :
    (¬ IsLocal 3_405_803_785)
    × (any (in_network (v4 3_405_803_785)) config.ignore_networks ≡ false)
    × (any (in_network (v4 3_405_803_785)) config.allow_networks ≡ false)
unfolding find text_dec ip_address address_of_text split
blocks_not-IsLocal_example =
    blocks_not-IsLocal attack (action_on "203.0.113.9") 3_405_803_785 config outside_blocks refl
      refl

active_block-block_ip_example :
    (active_block 1_000_500_000
      (block_ip 1_000_000_000 (listed ∷ []) (str "203.0.113.9") 60 (str "probe")).0
      (str "198.51.100.7")).1
    ≡ (active_block 1_000_500_000 (listed ∷ []) (str "198.51.100.7")).1
unfolding text_dec
active_block-block_ip_example =
    active_block-block_ip 1_000_000_000 1_000_500_000 60 "203.0.113.9" "198.51.100.7" (str "probe")
      (listed ∷ []) service-IsBlockList

v6_blocks_example : validate_scenario (obj (scenario_on "::1")) config ≡ blocks
unfolding find text_dec ip_address address_of_text split
v6_blocks_example =
    v6_blocks (scenario_on "::1") (action_on "::1") 1 (pos 60) config (tt, tt) tt refl refl refl
      refl (omega arith) (omega arith)
