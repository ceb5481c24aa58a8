-- ===== src/Dashboard/Snapshot.antt =====
-- dashboard/app.py: `defender_snapshot`.
use k3df.Base.{
  ℕ, suc, ◌+◌, Bool, true, false, ◌||◌, String, Option, none, some, List, [], ◌∷◌, take, length,
  if◌then◌else◌, ◌==◌, Result, ok, raised, type_error, ◌>>=◌,
}
use k3df.Base.Int.{pos}
use k3df.Json.{
  Value, null, int, str, arr, obj, nil, Fields, end, get, get_or, hashable, value_eq, dict_of,
  slice, iterate, len_of, max_or_zero,
}
use k3df.Defender.Store.{StateFile, unreadable, document}
use k3df.Dashboard.{
  Line, blank, broken, event, EventFile, lines, last_of, reverse_onto, fallback_graph,
  fallback_flags, fallback_nodes, fallback_flag_list, inner,
}

pub record Summary : Type 0 where
  pub confirmed_depth : Value
  pub possible_depth : Value
  pub confirmed_count : ℕ
  pub suspected_count : ℕ

pub record Snapshot : Type 0 where
  pub available : Bool
  pub threat_level : Value
  pub phase : Value
  pub updated_at : Value
  pub metrics : Value
  pub incidents : Value
  pub blocked_sources : Value
  pub capabilities : Value
  pub exposure_count : ℕ
  pub recent_events : List Value
  pub nodes : List Fields
  pub depth_summary : Summary
  pub flags : List Fields

abbrev pub dicts_of : List Value → List Fields
dicts_of [] = []
dicts_of (obj d ∷ vs) = d ∷ dicts_of vs
dicts_of (_ ∷ vs) = dicts_of vs

-- The nodes that are shown.
unfoldable pub shown_nodes : Fields → Result (List Fields)
shown_nodes graph = iterate (get_or "nodes" (arr nil) graph) >>= λ vs. ok (take 20 (dicts_of vs))

unfoldable pub shown_flags : Fields → Result (List Fields)
shown_flags flags = iterate (get_or "flags" (arr nil) flags) >>= λ vs. ok (take 3 (dicts_of vs))

abbrev pub status_is : String → Fields → Bool
status_is s node = value_eq (get "status" node) (str s)

abbrev depth_of : Fields → Value
depth_of node = get_or "depth" (int (pos 0)) node

-- The depths of the confirmed nodes.
unfoldable pub confirmed_depths : List Fields → List Value
confirmed_depths [] = []
confirmed_depths (n ∷ ns) =
    let rest = confirmed_depths ns in if status_is "confirmed" n then depth_of n ∷ rest else rest

-- `node.get("status") in {"suspected", "confirmed"}`
abbrev is_possible : Value → Result Bool
is_possible (str s) = ok (s == "suspected" || s == "confirmed")
is_possible v = if hashable v then ok false else raised type_error

unfoldable pub possible_depths : List Fields → Result (List Value)
possible_depths [] = ok []
possible_depths (n ∷ ns) = is_possible (get "status" n) >>= λ possible.
    possible_depths ns >>= λ rest. ok (if possible then depth_of n ∷ rest else rest)

unfoldable pub count_suspected : List Fields → ℕ
count_suspected [] = 0
count_suspected (n ∷ ns) =
    let rest = count_suspected ns in if status_is "suspected" n then suc rest else rest

abbrev pub summary_from : List Fields → List Value → Result Summary
summary_from nodes possible = do
  confirmed_depth ← max_or_zero (confirmed_depths nodes)
  possible_depth ← max_or_zero possible
  ok (record {
    confirmed_depth = confirmed_depth;
    possible_depth = possible_depth;
    confirmed_count = length (confirmed_depths nodes);
    suspected_count = count_suspected nodes;
  })

-- The `depth_summary` of the nodes.
unfoldable pub depth_summary : List Fields → Result Summary
depth_summary nodes = possible_depths nodes >>= summary_from nodes

-- The documents of the lines; one that is no JSON makes the whole raise a `ValueError`.
abbrev with_event : Value → Option (List Value) → Option (List Value)
with_event v none = none
with_event v (some vs) = some (v ∷ vs)

unfoldable pub all_events : List Line → Option (List Value)
all_events [] = some []
all_events (blank ∷ ls) = all_events ls
all_events (broken ∷ ls) = none
all_events (event v ∷ ls) = with_event v (all_events ls)

abbrev or_none : Option (List Value) → List Value
or_none none = []
or_none (some vs) = reverse_onto [] (last_of 6 vs)

unfoldable pub recent_events : EventFile → List Value
unfolding all_events
recent_events (lines ls) = or_none (all_events (last_of 80 ls))
recent_events _ = []

abbrev pub exposure_keys : List String
exposure_keys =
    "endpoints" ∷ "parameters" ∷ "vulnerabilities" ∷ "exposed_assets" ∷ "attack_paths" ∷ []

unfoldable pub exposure_total : List String → Fields → Result ℕ
exposure_total [] exposure = ok 0
exposure_total (k ∷ ks) exposure = len_of (get_or k (arr nil) exposure) >>= λ n.
    exposure_total ks exposure >>= λ rest. ok (n + rest)

-- `state.get(k) if isinstance(state.get(k), dict) else …`
abbrev pub dict_or : Value → Fields → Fields
dict_or (obj d) default = d
dict_or _ default = default

abbrev no_summary : Summary
no_summary = record {
  confirmed_depth = int (pos 0);
  possible_depth = int (pos 0);
  confirmed_count = 0;
  suspected_count = 0;
}

abbrev empty_list : Value
empty_list = arr nil

-- `unavailable`, with the nodes and the flags of the fallbacks.
abbrev pub unavailable : Snapshot
unavailable = record {
  available = false;
  threat_level = str "UNKNOWN";
  phase = str "--";
  updated_at = null;
  metrics = obj end;
  incidents = empty_list;
  blocked_sources = empty_list;
  capabilities = empty_list;
  exposure_count = 0;
  recent_events = [];
  nodes = dicts_of fallback_nodes;
  depth_summary = no_summary;
  flags = dicts_of fallback_flag_list;
}

unfoldable pub snapshot_of : Fields → EventFile → Result Snapshot
unfolding shown_nodes shown_flags depth_summary recent_events exposure_total
snapshot_of state events = do
  exposure ← inner "exposure" state
  count ← exposure_total exposure_keys exposure
  nodes ← shown_nodes (dict_or (get "capability_graph" state) fallback_graph)
  possible ← possible_depths nodes
  defense ← inner "defense" state
  incidents ← slice 5 (get_or "active_incidents" empty_list state)
  blocked ← slice 5 (get_or "blocked_sources" empty_list defense)
  attacker ← inner "attacker_state" state
  capabilities ← slice 6 (get_or "estimated_capabilities" empty_list attacker)
  summary ← summary_from nodes possible
  flags ← shown_flags (dict_or (get "flag_objectives" state) fallback_flags)
  ok (record {
    available = true;
    threat_level = get_or "threat_level" (str "UNKNOWN") state;
    phase = get_or "current_phase" (str "DETECT") defense;
    updated_at = get "updated_at" state;
    metrics = get_or "metrics" (obj end) state;
    incidents = incidents;
    blocked_sources = blocked;
    capabilities = capabilities;
    exposure_count = count;
    recent_events = recent_events events;
    nodes = nodes;
    depth_summary = summary;
    flags = flags;
  })

-- `state.get("schema_version") not in {"1.0", "2.0"}`
abbrev is_known_schema : Value → Result Bool
is_known_schema (str s) = ok (s == "1.0" || s == "2.0")
is_known_schema v = if hashable v then ok false else raised type_error

-- `defender_snapshot`; a document that is no dict raises.
unfoldable pub defender_snapshot : StateFile → EventFile → Result Snapshot
unfolding snapshot_of
defender_snapshot unreadable events = ok unavailable
defender_snapshot (document v) events = dict_of v >>= λ state.
    is_known_schema (get "schema_version" state) >>= λ known.
    if known then snapshot_of state events else ok unavailable
