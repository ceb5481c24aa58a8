-- ===== src/Defender/Graph/Stored.antt =====
-- A graph that the state holds is read again without an exception, and so is evidence on it.
use k3df.Base.{
  ◌≡◌, refl, ◌⊎◌, inl, inr, String, Option, List, [], ◌∷◌, All, Bool-cases, text_dec, map, Result,
  ok, ◌>>=◌, traverse, if◌then◌else◌, ◌==◌,
}
use k3df.Json.{
  Value, null, str, float, Fields, end, find, get, Float, float_of, truthy, hashable, value_eq,
  get_or, zero_float,
}
use k3df.Json.Laws.{elements-items}
use k3df.Defender.Graph.{
  Node, NodeStatus, suspected, confirmed, default_graph, normalize_graph, graph_value, node_value,
  status_text, member, merge_node, merge_nodes, known_get, known_nodes, keyed, or_last,
}
use k3df.Defender.Graph.RoundTrip.{fields_of, read_status-status_text}
use k3df.Defender.Graph.Observe.{
  find_node, skip_node, record_evidence, apply_observation, metadata_of, apply_target,
  apply_system_evidence,
}

-- The result is there: nothing was raised.
abbrev pub Returns : {A : Type 0} → Result A → Type 0
Returns {A = A} r = (a : A) × (r ≡ ok a)

pub Returns-bind :
    {A B : Type 0} (r : Result A) (next : A → Result B)
    → Returns r
    → ((a : A) → Returns (next a))
    → Returns (r >>= next)
Returns-bind r next (a, h) f = rw h (f a)

pub traverse-Returns :
    {A B : Type 0} (f : A → Result B) (xs : List A)
    → ((a : A) → Returns (f a))
    → Returns (traverse f xs)
traverse-Returns f [] h = ([], refl)
traverse-Returns f (x ∷ xs) h =
    Returns-bind (f x) _ (h x)
      (λ y. Returns-bind (traverse f xs) _ (traverse-Returns f xs h) (λ ys. (y ∷ ys, refl)))

-- What holds of every entry, and of none, holds of the one that is found.
pub known_get-All :
    (P : Fields → Type 0) (id : String) (known : List (String × Fields)) (found : Fields)
    → P found
    → All (λ kd. P kd.1) known
    → P (known_get id known found)
unfolding known_get
known_get-All P id [] found p h = p
known_get-All P id ((j, d) ∷ known) found p h =
    known_get-All P id known (or_last d found j id)
      (elim (Bool-cases (id == j)) [ inl same ↦ rw same (h.0) | inr differ ↦ rw differ p ]) h.1

-- Every node can be merged with the entry.
abbrev Merges : Fields → Type 0
Merges d = (n : Node) → Returns (merge_node n d)

end-Merges : Merges end
unfolding merge_node find member hashable
end-Merges n = (_, refl)

stored-Merges : (m : Node) → Merges (fields_of (node_value m))
unfolding merge_node node_value find text_dec member
stored-Merges m n = rw (read_status-status_text m.status) (_, refl)

known_nodes-Merges :
    (ns : List Node)
    → (known : List (String × Fields)) × (known_nodes (map node_value ns) ≡ ok known)
      × All (λ kd. Merges kd.1) known
unfolding known_nodes node_value find text_dec keyed
known_nodes-Merges [] = ([], refl, tt)
known_nodes-Merges (n ∷ ns) =
    let (known, e, h) = known_nodes-Merges ns in
    elim (Bool-cases (truthy (str n.id))) [
      | inl set ↦ rw (set, e) ((n.id, fields_of (node_value n)) ∷ known, refl, (stored-Merges n, h))
      | inr unset ↦ rw (unset, e) (known, refl, h)
    ]

-- Whatever nodes the state holds, reading them again raises nothing.
pub normalize_graph-Returns : (ns : List Node) → Returns (normalize_graph (graph_value ns))
unfolding normalize_graph merge_nodes graph_value find text_dec
normalize_graph-Returns ns =
    let (known, e, h) = known_nodes-Merges ns in
    rw (elements-items (map node_value ns), e)
      (traverse-Returns _ default_graph (λ n. known_get-All Merges n.id known end end-Merges h n))

module _ (parse : String → Option Float) where
  record_evidence-Returns :
      (nodes : List Node) (id : Value) (e : String) (t : Value) (s : NodeStatus) (x : Float)
      → Returns (record_evidence parse nodes id e t s (float x))
  unfolding record_evidence float_of
  record_evidence-Returns nodes id e t s x = elim (Bool-cases (skip_node e (find_node id nodes))) [
    | inl skipped ↦ rw skipped (_, refl)
    | inr fresh ↦ rw fresh (_, refl)
  ]

  -- An observation of the status suspected or confirmed, with a number as its confidence.
  pub apply_observation-Returns :
      (ns : List Node) (id : Value) (e : String) (t : Value) (status : NodeStatus) (x : Float)
      → (status ≡ suspected) ⊎ (status ≡ confirmed)
      → Returns (
          apply_observation parse
            (graph_value ns)
            id
            (str e)
            t
            (str (status_text status))
            (float x))
  unfolding apply_observation member
  apply_observation-Returns ns id e t status x o =
      Returns-bind (normalize_graph (graph_value ns)) _ (normalize_graph-Returns ns) (λ old.
        rw (read_status-status_text status) (elim o [
          | inl is ↦ rw is (record_evidence-Returns old id e t suspected x)
          | inr is ↦ rw is (record_evidence-Returns old id e t confirmed x)
        ]))

  apply_target-Returns :
      (ns : List Node) (evidence : Fields) (e : String) (x : Float) (source : Value)
      → get "evidence_id" evidence ≡ str e
      → get_or "confidence" (float zero_float) evidence ≡ float x
      → Returns (
          apply_target parse (graph_value ns) evidence (
            if value_eq source (str "nginx_access_log")
            then (str "public_endpoint_reached", str "confirmed")
            else if value_eq source (str "scanner_result")
            then (str "exploit_attempt_observed", str "suspected")
            else (null, null)))
  unfolding apply_target truthy text_dec
  apply_target-Returns ns evidence e x source he hx =
      elim (Bool-cases (value_eq source (str "nginx_access_log"))) [
        | inl access ↦
            rw (access, he, hx)
              (apply_observation-Returns ns (str "public_endpoint_reached") e
                (get "timestamp" evidence) confirmed x (inr refl))
        | inr other ↦ elim (Bool-cases (value_eq source (str "scanner_result"))) [
          | inl scan ↦
              rw (other, scan, he, hx)
                (apply_observation-Returns ns (str "exploit_attempt_observed") e
                  (get "timestamp" evidence) suspected x (inl refl))
          | inr unknown ↦ rw (other, unknown) (normalize_graph-Returns ns)
        ]
      ]

  -- Evidence whose metadata names no capability is applied without an exception.
  pub apply_system_evidence-Returns :
      (ns : List Node) (evidence metadata : Fields) (e : String) (x : Float)
      → metadata_of (get "metadata" evidence) ≡ ok metadata
      → get "capability_node_id" metadata ≡ null
      → get "evidence_id" evidence ≡ str e
      → get_or "confidence" (float zero_float) evidence ≡ float x
      → Returns (apply_system_evidence parse (graph_value ns) evidence)
  unfolding apply_system_evidence truthy
  apply_system_evidence-Returns ns evidence metadata e x hm unnamed he hx =
      rw (hm, unnamed) (apply_target-Returns ns evidence e x (get "source" evidence) he hx)
