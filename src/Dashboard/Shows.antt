-- ===== src/Dashboard/Shows.antt =====
-- The dashboard's snapshot of the state that the defender has written.
use k3df.Base.{
  ℕ, ◌≡◌, refl, ap, ◌∙◌, true, String, none, some, List, map, take, Result, ok, ◌>>=◌, bind-eq-ok,
  text_dec,
}
use k3df.Json.{Value, null, str, arr, obj, nil, Fields, end, find, get, get_or, slice, dict_of}
use k3df.Defender.Store.{document, entries, flags_value}
use k3df.Defender.Graph.{graph_value}
use k3df.Defender.Graph.RoundTrip.{fields_of}
use k3df.Defender.Graph.Observe.{depths}
use k3df.Defender.Service.{Service, record_value}
use k3df.Defender.Service.Updates.{category_of}
use k3df.Defender.Service.Context.{categories, list_value}
use k3df.Defender.Service.Written.{Kept, state_document, metrics_fields}
use k3df.Dashboard.{EventFile, fallback_graph, fallback_flags, inner}
use k3df.Dashboard.Snapshot.{
  Snapshot, Summary, dict_or, shown_nodes, shown_flags, possible_depths, summary_from,
  depth_summary, exposure_keys, exposure_total, recent_events, snapshot_of, defender_snapshot,
}
use k3df.Dashboard.Depths.{node_fields, depth_summary-shown, shown}
use k3df.Dashboard.Stored.{
  slice-list_value, total, flag_fields, exposure_total-categories, shown_nodes-stored,
  shown_flags-stored,
}

-- The parts of a state that the dashboard reads, and what it makes of them.
record IsRead (state : Fields) : Type 0 where
  exposure : Fields
  defense : Fields
  graph : Fields
  attacker : Fields
  flags : Fields
  incidents : List Value
  blocked : List Value
  capabilities : List Value
  count : ℕ
  nodes : List Fields
  flag_list : List Fields
  summary : Summary
  has_exposure : find "exposure" state ≡ some (obj exposure)
  has_defense : find "defense" state ≡ some (obj defense)
  has_graph : find "capability_graph" state ≡ some (obj graph)
  has_attacker : find "attacker_state" state ≡ some (obj attacker)
  has_flags : find "flag_objectives" state ≡ some (obj flags)
  has_incidents : find "active_incidents" state ≡ some (list_value incidents)
  has_blocked : find "blocked_sources" defense ≡ some (list_value blocked)
  has_capabilities : find "estimated_capabilities" attacker ≡ some (list_value capabilities)
  counted : exposure_total exposure_keys exposure ≡ ok count
  shows_nodes : shown_nodes graph ≡ ok nodes
  shows_flags : shown_flags flags ≡ ok flag_list
  summed : depth_summary nodes ≡ ok summary

abbrev snapshot_with : (state : Fields) → IsRead state → EventFile → Snapshot
snapshot_with state r events = record {
  available = true;
  threat_level = get_or "threat_level" (str "UNKNOWN") state;
  phase = get_or "current_phase" (str "DETECT") r.defense;
  updated_at = get "updated_at" state;
  metrics = get_or "metrics" (obj end) state;
  incidents = list_value (take 5 r.incidents);
  blocked_sources = list_value (take 5 r.blocked);
  capabilities = list_value (take 6 r.capabilities);
  exposure_count = r.count;
  recent_events = recent_events events;
  nodes = r.nodes;
  depth_summary = r.summary;
  flags = r.flag_list;
}

summary_possible :
    (nodes : List Fields) (summary : Summary)
    → depth_summary nodes ≡ ok summary
    → (possible : List Value) × (possible_depths nodes ≡ ok possible)
      × (summary_from nodes possible ≡ ok summary)
unfolding depth_summary
summary_possible nodes summary h = bind-eq-ok (possible_depths nodes) (summary_from nodes) h

pub inner_of : (k : String) (state d : Fields) → find k state ≡ some (obj d) → inner k state ≡ ok d
inner_of k state d h = ap (λ o. dict_of (elim o [ none ↦ obj end | some v ↦ v ])) h

pub slice_of :
    (n : ℕ) (k : String) (d : Fields) (vs : List Value)
    → find k d ≡ some (list_value vs)
    → slice n (get_or k (arr nil) d) ≡ ok (list_value (take n vs))
slice_of n k d vs h =
    ap (λ o. slice n (elim o [ none ↦ arr nil | some v ↦ v ])) h ∙ slice-list_value n vs

dict_of_found :
    (k : String) (state d default : Fields)
    → find k state ≡ some (obj d)
    → dict_or (get k state) default ≡ d
dict_of_found k state d default h =
    ap (λ o. dict_or (elim o [ none ↦ null | some v ↦ v ]) default) h

pub bind_ok :
    {A B : Type 0} (r : Result A) (a : A) (next : A → Result B) → r ≡ ok a → (r >>= next) ≡ next a
bind_ok r a next h = ap (λ r. r >>= next) h

snapshot_of-IsRead :
    (state : Fields) (r : IsRead state) (events : EventFile)
    → snapshot_of state events ≡ ok (snapshot_with state r events)
unfolding snapshot_of
snapshot_of-IsRead state r events =
    let (possible, hp, hs) = summary_possible r.nodes r.summary r.summed in
    bind_ok _ _ _ (inner_of "exposure" state _ r.has_exposure)
    ∙ bind_ok _ _ _ r.counted
    ∙ bind_ok _ _ _ (
        ap shown_nodes (dict_of_found "capability_graph" state _ fallback_graph r.has_graph)
        ∙ r.shows_nodes)
    ∙ bind_ok _ _ _ hp
    ∙ bind_ok _ _ _ (inner_of "defense" state _ r.has_defense)
    ∙ bind_ok _ _ _ (slice_of 5 "active_incidents" state _ r.has_incidents)
    ∙ bind_ok _ _ _ (slice_of 5 "blocked_sources" r.defense _ r.has_blocked)
    ∙ bind_ok _ _ _ (inner_of "attacker_state" state _ r.has_attacker)
    ∙ bind_ok _ _ _ (slice_of 6 "estimated_capabilities" r.attacker _ r.has_capabilities)
    ∙ bind_ok _ _ _ hs
    ∙ bind_ok _ _ _ (
        ap shown_flags (dict_of_found "flag_objectives" state _ fallback_flags r.has_flags)
        ∙ r.shows_flags)

module _ (iso : ℕ → String) where
  -- What the dashboard shows of a state, saved at the time `now`.
  abbrev pub view_of : String → Service → EventFile → Snapshot
  view_of now s events = record {
    available = true;
    threat_level = s.threat_level;
    phase = str s.current_phase;
    updated_at = str now;
    metrics = obj (metrics_fields s);
    incidents = list_value (take 5 s.active_incidents);
    blocked_sources = list_value (take 5 (map (record_value iso) s.blocked_sources));
    capabilities = list_value (take 6 s.estimated_capabilities);
    exposure_count = total exposure_keys s.exposure;
    recent_events = recent_events events;
    nodes = map node_fields (take 20 s.capability_graph);
    depth_summary = shown (depths (take 20 s.capability_graph));
    flags = map flag_fields (take 3 s.flag_objectives);
  }

  document-IsRead : (k : Kept) (now : String) (s : Service) → IsRead (state_document iso k now s)
  unfolding find text_dec graph_value flags_value
  document-IsRead k now s = record {
    exposure = entries (categories s.exposure);
    defense = _;
    graph = fields_of (graph_value s.capability_graph);
    attacker = _;
    flags = fields_of (flags_value s.flag_objectives);
    incidents = s.active_incidents;
    blocked = map (record_value iso) s.blocked_sources;
    capabilities = s.estimated_capabilities;
    count = total exposure_keys s.exposure;
    nodes = map node_fields (take 20 s.capability_graph);
    flag_list = map flag_fields (take 3 s.flag_objectives);
    summary = shown (depths (take 20 s.capability_graph));
    has_exposure = refl;
    has_defense = refl;
    has_graph = refl;
    has_attacker = refl;
    has_flags = refl;
    has_incidents = refl;
    has_blocked = refl;
    has_capabilities = refl;
    counted = exposure_total-categories exposure_keys s.exposure;
    shows_nodes = shown_nodes-stored s.capability_graph;
    shows_flags = shown_flags-stored s.flag_objectives;
    summed = depth_summary-shown (take 20 s.capability_graph);
  }

  -- For every state of the loop that the defender saves and every event file, defender_snapshot
  -- reads the document without an exception and shows the state: its threat level, phase, time
  -- and counters, the first 5 incidents and blocked sources, the first 6 capabilities, the
  -- number of entries of the five exposure categories, the first 20 nodes with their depths,
  -- and the first 3 flags.
  pub defender_snapshot-state_document :
      (k : Kept) (now : String) (s : Service) (events : EventFile)
      → defender_snapshot (document (obj (state_document iso k now s))) events
        ≡ ok (view_of now s events)
  unfolding defender_snapshot find text_dec document-IsRead category_of
  defender_snapshot-state_document k now s events =
      snapshot_of-IsRead (state_document iso k now s) (document-IsRead k now s) events
