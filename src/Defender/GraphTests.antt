-- ===== src/Defender/GraphTests.antt =====
-- The capability graph, the flags, the analysis and the evidence at concrete inputs.
use k3df.Base.{◌≡◌, refl, String, Option, none, List, [], ◌∷◌, arith, ok, text_dec}
use k3df.Json.{null, float, str, find, value_eq, one, clamp, scale, float_of, truthy, Float}
use k3df.Defender.Graph.{
  Node, confirmed, default_graph, normalize_graph, graph_value, node_value, member, keyed,
  known_get, first_texts,
}
use k3df.Defender.Graph.Valid.{IsGraph}
use k3df.Defender.Graph.Observe.{
  apply_observation, record_evidence, find_node, set_node, observe, depths, derived_depths,
}
use k3df.Defender.Graph.Growth.{GrewBy, apply_observation-GrewBy}
use k3df.Defender.Graph.Again.{IsRoomy, apply_observation_again}

abbrev no_number : String → Option Float
no_number s = none

abbrev seen_node : Node
seen_node = record {
  id = "public_endpoint_reached";
  label = "Public Endpoint Reached";
  category = "access";
  depth = 1;
  status = confirmed;
  confidence = one;
  evidence_ids = "EV-1" ∷ [];
  first_observed_at = str "t";
  last_observed_at = str "t";
}

abbrev rest_of : List Node → List Node
rest_of [] = []
rest_of (n ∷ ns) = ns

abbrev seen_graph : List Node
seen_graph = seen_node ∷ rest_of default_graph

stored_seen : normalize_graph (graph_value seen_graph) ≡ ok seen_graph
unfolding normalize_graph graph_value node_value keyed known_get first_texts member find text_dec
    clamp scale truthy
stored_seen = refl

first_observation :
    apply_observation no_number null
      (str "public_endpoint_reached")
      (str "EV-1")
      (str "t")
      (str "confirmed")
      (float one)
    ≡ ok seen_graph
unfolding apply_observation record_evidence find_node set_node observe normalize_graph member
    text_dec clamp scale float_of value_eq truthy
first_observation = refl

apply_observation-GrewBy_example :
    (old : List Node) × (normalize_graph null ≡ ok old) × GrewBy old seen_graph
apply_observation-GrewBy_example =
    apply_observation-GrewBy no_number null (str "public_endpoint_reached") (str "EV-1") (str "t")
      (str "confirmed") (float one) seen_graph first_observation

default_IsRoomy : IsRoomy default_graph
default_IsRoomy = ground arith

null_graph : normalize_graph null ≡ ok default_graph
unfolding normalize_graph
null_graph = refl

apply_observation_again_example :
    IsGraph seen_graph
    × (apply_observation no_number
          (graph_value seen_graph)
          (str "public_endpoint_reached")
          (str "EV-1")
          (str "t")
          (str "confirmed")
          (float one)
        ≡ ok seen_graph)
apply_observation_again_example =
    apply_observation_again no_number null (str "public_endpoint_reached") (str "EV-1") (str "t")
      (str "confirmed") (float one) default_graph seen_graph null_graph default_IsRoomy tt
      first_observation

seen_depths : derived_depths (graph_value seen_graph) ≡ ok (depths seen_graph)
unfolding derived_depths normalize_graph graph_value node_value keyed known_get first_texts member
    find text_dec clamp scale truthy
seen_depths = refl
