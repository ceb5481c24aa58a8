-- ===== src/Defender/Graph/Valid.antt =====
-- What a normalised graph is, node by node.
use k3df.Base.{
  ok_inj, zero, suc, All, ℕ, ◌≤◌, ◌≡◌, refl, true, false, String, List, [], ◌∷◌, length, take,
  arith, contains, Unique, ok, bind-eq-ok, traverse, length-take-le,
}
use k3df.Json.{
  Value, null, bool, int, float, str, arr, obj, Fields, get, elements, Float, zero_float,
  float_of_int, bool_int, end,
}
use k3df.Json.Laws.{InUnit, clamp-InUnit, zero_float-InUnit}
use k3df.Defender.Graph.{
  Node, default_graph, member, read_status, first_texts, stored_ids, stored_text, stored_confidence,
  merge_node, merge_nodes, nodes_of, normalize_graph, known_get, known_nodes,
}

-- A time is not set, or a text.
abbrev pub IsTime : Value → Type 0
IsTime null = Unit
IsTime (str s) = Unit
IsTime _ = ⊥

-- The node is the ontology's node `d`, with a confidence in the unit interval, at most 100
-- distinct pieces of evidence and times.
pub record IsNodeOf (n d : Node) : Type 0 where
  pub id : n.id ≡ d.id
  pub label : n.label ≡ d.label
  pub category : n.category ≡ d.category
  pub depth : n.depth ≡ d.depth
  pub unit : InUnit n.confidence
  pub few : length n.evidence_ids ≤ 100
  pub distinct : Unique n.evidence_ids
  pub first_time : IsTime n.first_observed_at
  pub last_time : IsTime n.last_observed_at

abbrev pub IsGraphOf : List Node → List Node → Type 0
IsGraphOf [] [] = Unit
IsGraphOf (n ∷ ns) (d ∷ ds) = IsNodeOf n d × IsGraphOf ns ds
IsGraphOf _ _ = ⊥

abbrev pub IsGraph : List Node → Type 0
IsGraph ns = IsGraphOf ns default_graph

-- The texts collected are new, and differ.
first_texts-new :
    (seen : List String) (vs : List Value) (s : String)
    → contains seen s ≡ true
    → contains (first_texts seen vs) s ≡ false
unfolding first_texts
first_texts-new seen [] s h = refl
first_texts-new seen (str t ∷ vs) s h =
    ground (arith, first_texts-new seen vs s h, first_texts-new (t ∷ seen) vs s)
first_texts-new seen (v ∷ vs) s h = first_texts-new seen vs s h

first_texts-Unique : (seen : List String) (vs : List Value) → Unique (first_texts seen vs)
unfolding first_texts
first_texts-Unique seen [] = tt
first_texts-Unique seen (str t ∷ vs) = ground (
  arith,
  first_texts-new (t ∷ seen) vs t,
  first_texts-Unique seen vs,
  first_texts-Unique (t ∷ seen) vs,
)
first_texts-Unique seen (v ∷ vs) = first_texts-Unique seen vs

contains-take :
    (n : ℕ) (xs : List String) (a : String) → contains xs a ≡ false → contains (take n xs) a ≡ false
contains-take zero xs a h = refl
contains-take (suc n) [] a h = refl
contains-take (suc n) (x ∷ xs) a h = ground (arith, contains-take n xs a)

Unique-take : (n : ℕ) (xs : List String) → Unique xs → Unique (take n xs)
Unique-take zero xs u = tt
Unique-take (suc n) [] u = tt
Unique-take (suc n) (x ∷ xs) u = (contains-take n xs x u.0, Unique-take n xs u.1)

pub stored_ids-Unique : (v : Value) → Unique (stored_ids v [])
stored_ids-Unique (arr vs) = Unique-take 100 _ (first_texts-Unique [] (elements vs))
stored_ids-Unique null = tt
stored_ids-Unique v = tt

pub stored_ids-few : (v : Value) → length (stored_ids v []) ≤ 100
stored_ids-few (arr vs) = length-take-le 100 (first_texts [] (elements vs))
stored_ids-few null = omega arith
stored_ids-few v = omega arith

pub stored_text-IsTime : (v : Value) → IsTime (stored_text v null)
stored_text-IsTime (str s) = tt
stored_text-IsTime null = tt
stored_text-IsTime v = tt

stored_confidence-InUnit :
    (v : Value) (default : Float) {x : Float}
    → InUnit default
    → stored_confidence v default ≡ ok x
    → InUnit x
unfolding stored_confidence
stored_confidence-InUnit (float y) d i h = rw (← ok_inj h) (clamp-InUnit y)
stored_confidence-InUnit (int n) d i h =
    let (y, e, k) = bind-eq-ok (float_of_int n) _ h in rw (← ok_inj k) (clamp-InUnit y)
stored_confidence-InUnit (bool b) d i h =
    let (y, e, k) = bind-eq-ok (float_of_int (bool_int b)) _ h in rw (← ok_inj k) (clamp-InUnit y)
stored_confidence-InUnit v d i h = rw (← ok_inj h) i

-- A node of the default graph that nothing was merged into.
abbrev pub IsFresh : Node → Type 0
IsFresh d =
    (d.confidence ≡ zero_float)
    × (d.evidence_ids ≡ [])
    × (d.first_observed_at ≡ null)
    × (d.last_observed_at ≡ null)

merge_node-IsNodeOf :
    (d : Node) (stored : Fields) {n : Node} → IsFresh d → merge_node d stored ≡ ok n → IsNodeOf n d
unfolding merge_node
merge_node-IsNodeOf d stored (c, e, f, l) h =
    let (s, hs, h₁) = bind-eq-ok (member read_status (get "status" stored)) _ h in
    let (x, hx, h₂) = bind-eq-ok (stored_confidence (get "confidence" stored) d.confidence) _ h₁ in
    rw (← ok_inj h₂) (record {
      id = refl;
      label = refl;
      category = refl;
      depth = refl;
      unit =
          stored_confidence-InUnit (get "confidence" stored) d.confidence (rw c zero_float-InUnit)
            hx;
      few = rw e (stored_ids-few (get "evidence_ids" stored));
      distinct = rw e (stored_ids-Unique (get "evidence_ids" stored));
      first_time = rw f (stored_text-IsTime (get "first_observed_at" stored));
      last_time = rw l (stored_text-IsTime (get "last_observed_at" stored));
    })

merge-IsGraphOf :
    (known : List (String × Fields)) (ds : List Node) {ns : List Node}
    → All IsFresh ds
    → traverse (λ d. merge_node d (known_get d.id known end)) ds ≡ ok ns
    → IsGraphOf ns ds
merge-IsGraphOf known [] f h = rw (← ok_inj h) tt
merge-IsGraphOf known (d ∷ ds) f h =
    let (n, hn, h₁) = bind-eq-ok (merge_node d (known_get d.id known end)) _ h in
    let (ns, hns, h₂) =
      bind-eq-ok (traverse (λ d. merge_node d (known_get d.id known end)) ds) _ h₁ in
    rw (← ok_inj h₂)
      (merge_node-IsNodeOf d (known_get d.id known end) f.0 hn, merge-IsGraphOf known ds f.1 hns)

fresh_IsNodeOf : (d : Node) → IsFresh d → IsNodeOf d d
fresh_IsNodeOf d (c, e, f, l) = record {
  id = refl;
  label = refl;
  category = refl;
  depth = refl;
  unit = rw c zero_float-InUnit;
  few = rw e (omega arith);
  distinct = rw e tt;
  first_time = rw f tt;
  last_time = rw l tt;
}

fresh-IsGraphOf : (ds : List Node) → All IsFresh ds → IsGraphOf ds ds
fresh-IsGraphOf [] f = tt
fresh-IsGraphOf (d ∷ ds) f = (fresh_IsNodeOf d f.0, fresh-IsGraphOf ds f.1)

pub default_graph-IsFresh : All IsFresh default_graph
default_graph-IsFresh = ground arith

default_IsGraph : {ns : List Node} → ok default_graph ≡ ok ns → IsGraph ns
default_IsGraph h = rw (← ok_inj h) (fresh-IsGraphOf default_graph default_graph-IsFresh)

nodes_of-IsGraph : (v : Value) (ns : List Node) → nodes_of v ≡ ok ns → IsGraph ns
unfolding merge_nodes
nodes_of-IsGraph (arr vs) ns h =
    let (known, hk, h₁) = bind-eq-ok (known_nodes (elements vs)) _ h in
    merge-IsGraphOf known default_graph default_graph-IsFresh h₁
nodes_of-IsGraph null ns h = default_IsGraph h
nodes_of-IsGraph v ns h = default_IsGraph h

-- Whatever value is stored, if normalize_graph raises nothing then its graph has exactly the
-- nodes of the ontology in their order, with confidences in the unit interval, at most 100
-- distinct pieces of evidence a node, and times that are texts or not set.
pub normalize_graph-IsGraph : (v : Value) (ns : List Node) → normalize_graph v ≡ ok ns → IsGraph ns
unfolding normalize_graph
normalize_graph-IsGraph (obj d) ns h = nodes_of-IsGraph (get "nodes" d) ns h
normalize_graph-IsGraph null ns h = default_IsGraph h
normalize_graph-IsGraph v ns h = default_IsGraph h
