-- ===== src/Defender/Graph/Suspect.antt =====
-- A suspicion confirms nothing, also at a graph whose nodes have lost evidence to normalisation.
use k3df.Base.{
  ok_inj, ◌≡◌, refl, ◌∙◌, inl, inr, Bool, String, Option, none, some, List, [], ◌∷◌, All, arith,
  Bool-cases, contains, text_dec, map, ok, bind-eq-ok, ◌>>=◌, traverse, if◌then◌else◌,
}
use k3df.Json.{Value, str, Fields, end, find, Float, float_of}
use k3df.Json.Laws.{elements-items}
use k3df.Defender.Graph.{
  Node, NodeStatus, not_observed, suspected, confirmed, default_graph, normalize_graph, graph_value,
  node_value, member, merge_node, merge_nodes, known_get,
}
use k3df.Defender.Graph.RoundTrip.{
  fields_of, pair, ids_of, read_status-status_text, known_nodes-stored, known_get-stored,
  default_truthy, default_Unique, All-imp, merge_at,
}
use k3df.Defender.Graph.Observe.{
  find_node, set_node, observe, skip_node, update_node, record_evidence, apply_observation,
  next_status, is_confirmed,
}
use k3df.Defender.Graph.Growth.{find_node_first}

-- The nodes are those of the ontology, in its order.
abbrev pub IsOntology : List Node → Type 0
IsOntology ns = ids_of ns ≡ ids_of default_graph

abbrev pub confirmations : List Node → List Bool
confirmations ns = map (λ n. is_confirmed n.status) ns

-- The ids and the confirmations of the one list are those of the other.
abbrev pub SameConfirmed : List Node → List Node → Type 0
SameConfirmed ns ms = (ids_of ms ≡ ids_of ns) × (confirmations ms ≡ confirmations ns)

merge_node-status :
    (n d m : Node) (stored : Fields)
    → stored ≡ fields_of (node_value n)
    → merge_node d stored ≡ ok m
    → (m.id ≡ d.id) × (m.status ≡ n.status)
unfolding merge_node node_value find text_dec member
merge_node-status n d m stored is h =
    rw (← ok_inj (rw (is, read_status-status_text n.status) at h)) (refl, refl)

merge-SameConfirmed :
    (known : List (String × Fields)) (ns ds ms : List Node)
    → ids_of ns ≡ ids_of ds
    → All (λ n. known_get n.id known end ≡ fields_of (node_value n)) ns
    → traverse (λ d. merge_node d (known_get d.id known end)) ds ≡ ok ms
    → SameConfirmed ns ms
merge-SameConfirmed known [] [] ms i h e = rw (← ok_inj e) (refl, refl)
merge-SameConfirmed known [] (d ∷ ds) ms i h e = absurd (ground (arith, i))
merge-SameConfirmed known (n ∷ ns) [] ms i h e = absurd (ground (arith, i))
merge-SameConfirmed known (n ∷ ns) (d ∷ ds) ms i h e =
    let (m, hm, e₁) = bind-eq-ok (merge_node d (known_get d.id known end)) _ e in
    let (ms', hms, e₂) = bind-eq-ok (traverse _ ds) _ e₁ in
    let (mi, mst) = merge_node-status n d m _ (merge_at known n d same_id h.0) hm in
    let (is, cs) = merge-SameConfirmed known ns ds ms' same_ids h.1 hms in
    rw (← ok_inj e₂) (rw (mi, mst, is, cs, same_id) (refl, refl))
  where
    same_id : n.id ≡ d.id
    same_id = ground (arith, i)

    same_ids : ids_of ns ≡ ids_of ds
    same_ids = ground (arith, i)

pub normalize_graph-SameConfirmed :
    (ns ms : List Node)
    → IsOntology ns
    → normalize_graph (graph_value ns) ≡ ok ms
    → SameConfirmed ns ms
unfolding normalize_graph merge_nodes graph_value find text_dec
normalize_graph-SameConfirmed ns ms i h =
    merge-SameConfirmed (map pair ns) ns default_graph ms i
      (All-imp (λ n f. f end) ns (known_get-stored ns (rw i default_Unique)))
      (rw (elements-items (map node_value ns), known_nodes-stored ns (rw i default_truthy)) at h)

set_node-SameConfirmed :
    (id : Value) (n m : Node) (ns : List Node)
    → find_node id ns ≡ some n
    → m.id ≡ n.id
    → is_confirmed m.status ≡ is_confirmed n.status
    → SameConfirmed ns (set_node id m ns)
unfolding find_node set_node
set_node-SameConfirmed id n m [] h same c = cc
set_node-SameConfirmed id n m (k ∷ ns) h same c = elim (find_node_first id n k ns h) [
  | inl (here, first) ↦ rw (here, first) (rw (same, c) (refl, refl))
  | inr (there, h₁) ↦
      let (is, cs) = set_node-SameConfirmed id n m ns h₁ same c in rw (there, is, cs) (refl, refl)
]

next_status_suspected : (s : NodeStatus) → is_confirmed (next_status suspected s) ≡ is_confirmed s
next_status_suspected not_observed = refl
next_status_suspected suspected = refl
next_status_suspected confirmed = refl

observe_suspected :
    (e : String) (t : Value) (x : Float) (n : Node)
    → ((observe e t suspected x n).id ≡ n.id)
      × (is_confirmed (observe e t suspected x n).status ≡ is_confirmed n.status)
unfolding observe
observe_suspected e t x n = (refl, next_status_suspected n.status)

SameConfirmed-refl : (ns : List Node) → SameConfirmed ns ns
SameConfirmed-refl ns = (refl, refl)

pub SameConfirmed-trans :
    (ns ms ls : List Node) → SameConfirmed ns ms → SameConfirmed ms ls → SameConfirmed ns ls
SameConfirmed-trans ns ms ls (i, c) (i', c') = (i' ∙ i, c' ∙ c)

module _ (parse : String → Option Float) where
  suspect-SameConfirmed :
      (old : List Node) (id : Value) (e : String) (t c : Value) (found : Option Node)
      (ns : List Node)
      → find_node id old ≡ found
      → (if skip_node e found
          then ok old
          else (float_of parse c >>= λ x. ok (update_node (observe e t suspected x) id found old)))
        ≡ ok ns
      → SameConfirmed old ns
  suspect-SameConfirmed old id e t c none ns at h = rw (← ok_inj h) (SameConfirmed-refl old)
  suspect-SameConfirmed old id e t c (some n) ns at h =
      elim (Bool-cases (contains n.evidence_ids e)) [
        | inl there ↦ rw (← ok_inj (rw there at h)) (SameConfirmed-refl old)
        | inr new ↦
            let (x, hx, h₁) = bind-eq-ok (float_of parse c) _ (rw new at h) in
            let (i, k) = observe_suspected e t x n in
            rw (← ok_inj h₁) (set_node-SameConfirmed id n _ old at i k)
      ]

  -- If an observation of the status suspected is applied without an exception to a stored graph
  -- of the ontology's nodes, then the graph after it has the same nodes, and exactly the same
  -- ones of them are confirmed.
  pub apply_observation-SameConfirmed :
      (ns ms : List Node) (id : Value) (e : String) (t c : Value)
      → IsOntology ns
      → apply_observation parse (graph_value ns) id (str e) t (str "suspected") c ≡ ok ms
      → SameConfirmed ns ms
  unfolding apply_observation record_evidence member text_dec
  apply_observation-SameConfirmed ns ms id e t c i h =
      let (old, ho, h₁) = bind-eq-ok (normalize_graph (graph_value ns)) _ h in
      SameConfirmed-trans ns old ms (normalize_graph-SameConfirmed ns old i ho)
        (suspect-SameConfirmed old id e t c (find_node id old) ms refl h₁)
