-- ===== src/Defender/Graph.antt =====
-- defender/capability_graph.py: the capability graph. A node's texts that the code tests against
-- a fixed set are data types; its times are whatever values the evidence carries.
pub mod Observe
pub mod Valid
pub mod RoundTrip
pub mod Progress
pub mod Growth
pub mod Depth
pub mod Again
pub mod Suspect
pub mod Stored
pub mod Lasting
use k3df.Base.{
  ℕ, suc, Bool, true, false, not, ◌&&◌, ◌||◌, String, Option, none, some, List, [], ◌∷◌, ◌++◌, map,
  take, contains, if◌then◌else◌, ◌==◌, Result, ok, raised, type_error, ◌>>=◌, traverse,
}
use k3df.Base.Int.{ℤ, pos}
use k3df.Json.{
  Value, null, bool, int, float, str, arr, obj, Items, Fields, end, field, find, get, elements,
  items, hashable, truthy, Float, zero_float, max_float, clamp, float_of, float_of_int, bool_int,
  value_eq,
}

pub data NodeStatus : Type 0 where
  not_observed suspected confirmed : NodeStatus

pub record Node : Type 0 where
  pub id : String
  pub label : String
  pub category : String
  pub depth : ℕ
  pub status : NodeStatus
  pub confidence : Float
  pub evidence_ids : List String
  pub first_observed_at : Value
  pub last_observed_at : Value

abbrev pub status_text : NodeStatus → String
status_text not_observed = "not_observed"
status_text suspected = "suspected"
status_text confirmed = "confirmed"

abbrev pub read_status : String → Option NodeStatus
read_status s =
    if s == "not_observed"
    then some not_observed
    else if s == "suspected"
    then some suspected
    else if s == "confirmed"
    then some confirmed
    else none

-- `value in NAMES` for a set of names; a value that cannot be in a set raises.
unfoldable pub member : {A : Type 0} → (String → Option A) → Value → Result (Option A)
member read (str s) = ok (read s)
member read v = if hashable v then ok none else raised type_error

-- `_node`
abbrev pub node : String → String → String → ℕ → Node
node id label category depth = record {
  id = id;
  label = label;
  category = category;
  depth = depth;
  status = not_observed;
  confidence = zero_float;
  evidence_ids = [];
  first_observed_at = null;
  last_observed_at = null;
}

-- `default_graph`: the nodes of `ONTOLOGY`.
abbrev pub default_graph : List Node
default_graph =
    node "public_endpoint_reached" "Public Endpoint Reached" "access" 1
    ∷ node "service_protocol_discovered" "Service / Protocol Discovered" "discovery" 2
    ∷ node "exploit_attempt_observed" "Exploit Attempt Observed" "execution" 3
    ∷ node "exploit_success_confirmed" "Exploit Success Confirmed" "execution" 4
    ∷ node "application_data_access" "Application Data Access" "access" 5
    ∷ node "credential_acquired" "Credential Acquired" "credential" 6
    ∷ node "challenge_session_established" "Challenge Session Established" "session" 7
    ∷ node "command_or_filesystem_read" "Command Execution / Filesystem Read" "execution" 8
    ∷ node "internal_service_reached" "Internal Service Reached" "network" 9
    ∷ node "challenge_database_access" "Challenge Database Access" "access" 10
    ∷ []

-- The entries that the comprehension `{node["id"]: node …}` makes of texts, in order. A key of
-- another type is never asked for; one that cannot be a key raises.
unfoldable pub keyed :
    Value → Fields → Result (List (String × Fields)) → Result (List (String × Fields))
keyed (str s) d rest = rest >>= λ known. ok ((s, d) ∷ known)
keyed v d rest = if hashable v then rest else raised type_error

unfoldable pub known_nodes : List Value → Result (List (String × Fields))
unfolding keyed
known_nodes [] = ok []
known_nodes (obj d ∷ vs) =
    let rest = known_nodes vs in if truthy (get "id" d) then keyed (get "id" d) d rest else rest
known_nodes (_ ∷ vs) = known_nodes vs

-- `known.get(id, {})`: of equal keys the last one counts.
abbrev or_last : Fields → Fields → String → String → Fields
or_last d found j id = if id == j then d else found

unfoldable pub known_get : String → List (String × Fields) → Fields → Fields
known_get id [] found = found
known_get id ((j, d) ∷ known) found = known_get id known (or_last d found j id)

-- `list(dict.fromkeys(…))` over the texts of a list: the first of equal texts stays.
unfoldable pub first_texts : List String → List Value → List String
first_texts seen [] = []
first_texts seen (str s ∷ vs) =
    let rest = first_texts (s ∷ seen) vs in
    let same = first_texts seen vs in if contains seen s then same else s ∷ rest
first_texts seen (_ ∷ vs) = first_texts seen vs

abbrev pub stored_ids : Value → List String → List String
stored_ids (arr vs) default = take 100 (first_texts [] (elements vs))
stored_ids _ default = default

abbrev pub stored_text : Value → Value → Value
stored_text (str s) default = str s
stored_text _ default = default

abbrev stored_status : Option NodeStatus → NodeStatus → NodeStatus
stored_status (some s) default = s
stored_status none default = default

-- `isinstance(value, (int, float))`, clamped into the unit interval.
stored_confidence : Value → Float → Result Float
stored_confidence (float x) default = ok (clamp x)
stored_confidence (int n) default = float_of_int n >>= λ x. ok (clamp x)
stored_confidence (bool b) default = float_of_int (bool_int b) >>= λ x. ok (clamp x)
stored_confidence _ default = ok default

-- One round of the loop: what a stored node overrides.
merge_node : Node → Fields → Result Node
unfolding stored_confidence
merge_node n stored = do
  status ← member read_status (get "status" stored)
  confidence ← stored_confidence (get "confidence" stored) n.confidence
  ok (record n {
    status = stored_status status n.status;
    confidence = confidence;
    evidence_ids = stored_ids (get "evidence_ids" stored) n.evidence_ids;
    first_observed_at = stored_text (get "first_observed_at" stored) n.first_observed_at;
    last_observed_at = stored_text (get "last_observed_at" stored) n.last_observed_at;
  })

merge_nodes : List Value → Result (List Node)
unfolding merge_node known_nodes known_get
merge_nodes stored = do
  known ← known_nodes stored
  traverse (λ n. merge_node n (known_get n.id known end)) default_graph

abbrev nodes_of : Value → Result (List Node)
nodes_of (arr vs) = merge_nodes (elements vs)
nodes_of _ = ok default_graph

unfoldable pub normalize_graph : Value → Result (List Node)
unfolding merge_nodes
normalize_graph (obj d) = nodes_of (get "nodes" d)
normalize_graph _ = ok default_graph

-- The dict of a node and of a graph, as the state holds them.
unfoldable pub node_value : Node → Value
node_value n = obj (
    field "id" (str n.id) (
      field "label" (str n.label) (
        field "category" (str n.category) (
          field "depth" (int (pos n.depth)) (
            field "status" (str (status_text n.status)) (
              field "confidence" (float n.confidence) (
                field "evidence_ids" (arr (items (map str n.evidence_ids))) (
                  field "first_observed_at" n.first_observed_at
                    (field "last_observed_at" n.last_observed_at end)))))))))

unfoldable pub graph_value : List Node → Value
unfolding node_value
graph_value nodes =
    obj (field "version" (str "1.0") (field "nodes" (arr (items (map node_value nodes))) end))
