-- ===== src/Defender/Graph/Observe.antt =====
-- defender/capability_graph.py: observations on the graph, and the depths derived from it.
use k3df.Base.{
  ℕ, suc, max, Bool, true, false, ◌||◌, String, Option, none, some, List, [], ◌∷◌, ◌++◌, contains,
  if◌then◌else◌, Result, ok, raised, attribute_error, ◌>>=◌,
}
use k3df.Json.{
  Value, null, float, str, obj, Fields, end, get, get_or, truthy, Float, zero_float, max_float,
  clamp, float_of, value_eq,
}
use k3df.Defender.Graph.{
  Node, NodeStatus, not_observed, suspected, confirmed, read_status, member, normalize_graph,
}

-- `next((item … if item["id"] == node_id), None)`
unfoldable pub find_node : Value → List Node → Option Node
find_node id [] = none
find_node id (n ∷ ns) = if value_eq (str n.id) id then some n else find_node id ns

-- The write to the node that `find_node` found.
unfoldable pub set_node : Value → Node → List Node → List Node
set_node id m [] = []
set_node id m (n ∷ ns) = if value_eq (str n.id) id then m ∷ ns else n ∷ set_node id m ns

abbrev pub or_value : Value → Value → Value
or_value a b = if truthy a then a else b

abbrev pub next_status : NodeStatus → NodeStatus → NodeStatus
next_status confirmed old = confirmed
next_status new not_observed = new
next_status new old = old

-- The node after one new piece of evidence.
unfoldable pub observe : String → Value → NodeStatus → Float → Node → Node
observe evidence timestamp status x n = record n {
  evidence_ids = n.evidence_ids ++ (evidence ∷ []);
  confidence = max_float n.confidence (clamp x);
  first_observed_at = or_value n.first_observed_at timestamp;
  last_observed_at = timestamp;
  status = next_status status n.status;
}

abbrev pub skip_node : String → Option Node → Bool
skip_node evidence none = true
skip_node evidence (some n) = contains n.evidence_ids evidence

abbrev pub update_node : (Node → Node) → Value → Option Node → List Node → List Node
update_node f id none ns = ns
update_node f id (some n) ns = set_node id (f n) ns

-- `evidence.get("metadata") or {}`, which must be a dict.
abbrev pub metadata_of : Value → Result Fields
metadata_of (obj d) = ok d
metadata_of v = if truthy v then raised attribute_error else ok end

abbrev is_source : Fields → String → Bool
is_source evidence s = value_eq (get "source" evidence) (str s)

-- The node and the status that the evidence is for.
abbrev target : Fields → Fields → Value × Value
target metadata evidence =
    if truthy (get "capability_node_id" metadata)
    then (get "capability_node_id" metadata, get_or "capability_status" (str "confirmed") metadata)
    else if is_source evidence "nginx_access_log"
    then (str "public_endpoint_reached", str "confirmed")
    else if is_source evidence "scanner_result"
    then (str "exploit_attempt_observed", str "suspected")
    else (null, null)

module _ (parse : String → Option Float) where
  -- The part after the first test, for a status that is `suspected` or `confirmed`.
  unfoldable pub record_evidence :
      List Node → Value → String → Value → NodeStatus → Value → Result (List Node)
  record_evidence nodes id evidence timestamp status confidence =
      if skip_node evidence (find_node id nodes)
      then ok nodes
      else (float_of parse confidence >>= λ x.
          ok (update_node (observe evidence timestamp status x) id (find_node id nodes) nodes))

  abbrev pub accept_status :
      List Node → Value → Value → Value → Option NodeStatus → Value → Result (List Node)
  accept_status nodes id (str e) t (some suspected) c = record_evidence nodes id e t suspected c
  accept_status nodes id (str e) t (some confirmed) c = record_evidence nodes id e t confirmed c
  accept_status nodes id e t s c = ok nodes

  -- `apply_observation(graph, node_id, evidence_id, timestamp, status, confidence)`
  unfoldable pub apply_observation :
      Value → Value → Value → Value → Value → Value → Result (List Node)
  apply_observation graph id evidence timestamp status confidence = do
    nodes ← normalize_graph graph
    s ← member read_status status
    accept_status nodes id evidence timestamp s confidence

  unfoldable pub apply_target : Value → Fields → Value × Value → Result (List Node)
  apply_target graph evidence (id, status) =
      if truthy id
      then apply_observation graph id (get "evidence_id" evidence) (get "timestamp" evidence) status
          (get_or "confidence" (float zero_float) evidence)
      else normalize_graph graph

  unfoldable pub apply_system_evidence : Value → Fields → Result (List Node)
  unfolding apply_target
  apply_system_evidence graph evidence = metadata_of (get "metadata" evidence) >>= λ metadata.
      apply_target graph evidence (target metadata evidence)

-- `derived_depths`
pub record Depths : Type 0 where
  pub confirmed_depth : ℕ
  pub possible_depth : ℕ
  pub confirmed_count : ℕ
  pub suspected_count : ℕ

abbrev pub is_confirmed : NodeStatus → Bool
is_confirmed confirmed = true
is_confirmed _ = false

abbrev pub is_suspected : NodeStatus → Bool
is_suspected suspected = true
is_suspected _ = false

abbrev pub count_if : (NodeStatus → Bool) → List Node → ℕ
count_if p [] = 0
count_if p (n ∷ ns) = if p n.status then suc (count_if p ns) else count_if p ns

-- `max(…, default=0)` of the depths of the nodes with a status.
abbrev pub deepest : (NodeStatus → Bool) → List Node → ℕ
deepest p [] = 0
deepest p (n ∷ ns) = if p n.status then max n.depth (deepest p ns) else deepest p ns

unfoldable pub depths : List Node → Depths
depths ns = record {
  confirmed_depth = deepest is_confirmed ns;
  possible_depth = deepest (λ s. is_suspected s || is_confirmed s) ns;
  confirmed_count = count_if is_confirmed ns;
  suspected_count = count_if is_suspected ns;
}

unfoldable pub derived_depths : Value → Result Depths
unfolding depths
derived_depths graph = normalize_graph graph >>= λ nodes. ok (depths nodes)
