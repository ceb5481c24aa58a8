-- ===== src/Defender/Graph/Again.antt =====
-- An observation keeps the graph well formed, and the same one twice counts once.
use k3df.Base.{
  ◌<◌, ◌≡◌, refl, sym, ap, ◌∙◌, ◌⊎◌, inl, inr, true, false, String, Option, none, some, List, [],
  ◌∷◌, length, arith, All, Bool-cases, contains, contains-append, Unique-append_one, length-append,
  ok, bind-eq-ok,
}
use k3df.Json.{Value, str, Float, ltb_float, max_float, clamp, truthy, value_eq}
use k3df.Json.Laws.{InUnit, clamp-InUnit}
use k3df.Defender.Graph.{
  Node, NodeStatus, not_observed, suspected, confirmed, default_graph, normalize_graph, graph_value,
  member, read_status,
}
use k3df.Defender.Graph.Valid.{IsTime, IsNodeOf, IsGraphOf, IsGraph, normalize_graph-IsGraph}
use k3df.Defender.Graph.RoundTrip.{normalize_graph-graph_value}
use k3df.Defender.Graph.Observe.{
  find_node, set_node, observe, or_value, record_evidence, accept_status, apply_observation,
}
use k3df.Defender.Graph.Progress.{Recorded, accept_status_cases}
use k3df.Defender.Graph.Growth.{find_node_first}

-- Every node has room for one more piece of evidence.
abbrev pub IsRoomy : List Node → Type 0
IsRoomy ns = All (λ n. length n.evidence_ids < 100) ns

max_float-InUnit : (x y : Float) → InUnit x → InUnit y → InUnit (max_float x y)
max_float-InUnit x y hx hy =
    elim (ltb_float x y) as (λ b. InUnit (elim b [ true ↦ y | false ↦ x ])) [
      | true ↦ hy
      | false ↦ hx
    ]

or_value-IsTime : (v t : Value) → IsTime v → IsTime t → IsTime (or_value v t)
or_value-IsTime v t hv ht = elim (Bool-cases (truthy v)) [
  | inl set ↦ rw set hv
  | inr unset ↦ rw unset ht
]

observe-IsNodeOf :
    (e : String) (t : Value) (s : NodeStatus) (x : Float) (n d : Node)
    → IsTime t
    → length n.evidence_ids < 100
    → contains n.evidence_ids e ≡ false
    → IsNodeOf n d
    → IsNodeOf (observe e t s x n) d
unfolding observe
observe-IsNodeOf e t s x n d time room new v = record {
  id = v.id;
  label = v.label;
  category = v.category;
  depth = v.depth;
  unit = max_float-InUnit n.confidence (clamp x) v.unit (clamp-InUnit x);
  few = omega (arith, length-append n.evidence_ids (e ∷ []));
  distinct = Unique-append_one n.evidence_ids e v.distinct new;
  first_time = or_value-IsTime n.first_observed_at t v.first_time time;
  last_time = time;
}

set_node-IsGraphOf :
    (id : Value) (n m : Node) (ns ds : List Node)
    → find_node id ns ≡ some n
    → (length n.evidence_ids < 100 → (d : Node) → IsNodeOf n d → IsNodeOf m d)
    → IsRoomy ns
    → IsGraphOf ns ds
    → IsGraphOf (set_node id m ns) ds
unfolding find_node set_node
set_node-IsGraphOf id n m [] ds h f r g = cc
set_node-IsGraphOf id n m (k ∷ ns) [] h f r g = absurd g
set_node-IsGraphOf id n m (k ∷ ns) (d ∷ ds) h f r g = elim (find_node_first id n k ns h) [
  | inl (here, same) ↦ rw here (f (rw (← same) (r.0)) d (rw (← same) (g.0)), g.1)
  | inr (there, h₁) ↦ rw there (g.0, set_node-IsGraphOf id n m ns ds h₁ f r.1 g.1)
]

first_id :
    (id : Value) (n m k : Node)
    → m.id ≡ n.id
    → k ≡ n
    → value_eq (str k.id) id ≡ true
    → value_eq (str m.id) id ≡ true
first_id id n m k same first here =
    ap (λ i. value_eq (str i) id) (same ∙ sym (ap (λ n. n.id) first)) ∙ here

find_node-set_node :
    (id : Value) (n m : Node) (ns : List Node)
    → find_node id ns ≡ some n
    → m.id ≡ n.id
    → find_node id (set_node id m ns) ≡ some m
unfolding find_node set_node
find_node-set_node id n m [] h same = cc
find_node-set_node id n m (k ∷ ns) h same = elim (find_node_first id n k ns h) [
  | inl (here, first) ↦ rw here (rw (first_id id n m k same first here) refl)
  | inr (there, h₁) ↦ rw (there, there) (find_node-set_node id n m ns h₁ same)
]

observe-id :
    (e : String) (t : Value) (s : NodeStatus) (x : Float) (n : Node) → (observe e t s x n).id ≡ n.id
unfolding observe
observe-id e t s x n = refl

observe-contains :
    (e : String) (t : Value) (s : NodeStatus) (x : Float) (n : Node)
    → contains (observe e t s x n).evidence_ids e ≡ true
unfolding observe
observe-contains e t s x n = ground (arith, contains-append n.evidence_ids (e ∷ []) e)

Recorded-IsGraph :
    (old : List Node) (id e t : Value) (ns : List Node)
    → IsTime t
    → IsRoomy old
    → IsGraph old
    → (ns ≡ old) ⊎ Recorded old id e t ns
    → IsGraph ns
Recorded-IsGraph old id e t ns time room g (inl same) = rw same g
Recorded-IsGraph old id e t ns time room g (inr r) = rw (r.result) (
    set_node-IsGraphOf id r.node _ old default_graph r.at
      (λ few d v. observe-IsNodeOf r.text t r.status r.x r.node d time few r.fresh v) room g)

module _ (parse : String → Option Float) where
  accept_status_there :
      (ns : List Node) (id : Value) (e : String) (t : Value) (s : Option NodeStatus) (c : Value)
      (n : Node)
      → find_node id ns ≡ some n
      → contains n.evidence_ids e ≡ true
      → accept_status parse ns id (str e) t s c ≡ ok ns
  unfolding record_evidence
  accept_status_there ns id e t none c n at there = refl
  accept_status_there ns id e t (some not_observed) c n at there = refl
  accept_status_there ns id e t (some suspected) c n at there = rw (at, there) refl
  accept_status_there ns id e t (some confirmed) c n at there = rw (at, there) refl

  accept_status_again :
      (old : List Node) (id e t : Value) (s : Option NodeStatus) (c : Value) (ns : List Node)
      → accept_status parse old id e t s c ≡ ok ns
      → (ns ≡ old) ⊎ Recorded old id e t ns
      → accept_status parse ns id e t s c ≡ ok ns
  accept_status_again old id e t s c ns h (inl same) =
      ap (λ o. accept_status parse o id e t s c) same ∙ h
  accept_status_again old id e t s c ns h (inr r) = rw (r.given) (
      accept_status_there ns id r.text t s c (observe r.text t r.status r.x r.node)
        (rw (r.result)
          (find_node-set_node id r.node _ old r.at (observe-id r.text t r.status r.x r.node)))
        (observe-contains r.text t r.status r.x r.node))

  -- If every node of the normalised graph has fewer than 100 pieces of evidence and the time is
  -- a text or not set, then an observation that raises nothing leaves a well-formed graph (the
  -- nodes of the ontology, confidences in the unit interval, at most 100 distinct pieces of
  -- evidence a node), and the same observation applied to that graph as it is stored changes
  -- nothing.
  pub apply_observation_again :
      (graph id evidence timestamp status confidence : Value) (old ns : List Node)
      → normalize_graph graph ≡ ok old
      → IsRoomy old
      → IsTime timestamp
      → apply_observation parse graph id evidence timestamp status confidence ≡ ok ns
      → IsGraph ns
        × (apply_observation parse (graph_value ns) id evidence timestamp status confidence ≡ ok ns)
  unfolding apply_observation
  apply_observation_again graph id e t s c old ns ho room time h =
      let g = normalize_graph-IsGraph graph old ho in
      let (r, hr, h₁) = bind-eq-ok (member read_status s) _ (rw ho at h) in
      let r' = accept_status_cases parse old id e t r c h₁ in
      let g' = Recorded-IsGraph old id e t ns time room g r' in
      (g', rw (normalize_graph-graph_value ns g', hr) (accept_status_again old id e t r c ns h₁ r'))
