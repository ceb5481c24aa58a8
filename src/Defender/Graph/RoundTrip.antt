-- ===== src/Defender/Graph/RoundTrip.antt =====
-- A graph that is stored and normalised again is the same graph.
use k3df.Base.{
  ◌≤◌, ◌≡◌, refl, sym, ap, ◌∙◌, true, false, String, some, List, [], ◌∷◌, length, arith, contains,
  Unique, Unique-append_one, take-append, ◌++◌, All, ok, traverse, take_all, text_dec, map,
}
use k3df.Json.{Value, null, str, arr, obj, Fields, end, find, items, truthy}
use k3df.Json.Laws.{clamp_fixed, elements-items}
use k3df.Defender.Graph.{
  Node, NodeStatus, not_observed, suspected, confirmed, default_graph, member, read_status,
  status_text, first_texts, stored_ids, stored_text, merge_node, merge_nodes, normalize_graph,
  known_get, known_nodes, keyed, or_last, node_value, graph_value,
}
use k3df.Defender.Graph.Valid.{IsTime, IsNodeOf, IsGraphOf, IsGraph, IsFresh, default_graph-IsFresh}

abbrev pub fields_of : Value → Fields
fields_of (obj d) = d
fields_of _ = end

abbrev pub pair : Node → String × Fields
pair n = (n.id, fields_of (node_value n))

pub read_status-status_text : (s : NodeStatus) → read_status (status_text s) ≡ some s
unfolding text_dec
read_status-status_text not_observed = refl
read_status-status_text suspected = refl
read_status-status_text confirmed = refl

first_texts-str :
    (seen ids : List String)
    → Unique ids
    → All (λ s. contains seen s ≡ false) ids
    → first_texts seen (map str ids) ≡ ids
unfolding first_texts
first_texts-str seen [] u h = refl
first_texts-str seen (s ∷ ids) u h =
    rw (h.0) (ap (◌∷◌ s) (first_texts-str (s ∷ seen) ids u.1 (apart s seen ids u.0 h.1)))
  where
    apart :
        (s : String) (seen ids : List String)
        → contains ids s ≡ false
        → All (λ t. contains seen t ≡ false) ids
        → All (λ t. contains (s ∷ seen) t ≡ false) ids
    apart s seen [] n h = tt
    apart s seen (t ∷ ids) n h = (ground arith, apart s seen ids (ground arith) h.1)

none_seen : (ids : List String) → All (λ s. contains [] s ≡ false) ids
none_seen [] = tt
none_seen (s ∷ ids) = (refl, none_seen ids)

pub stored_ids-items :
    (ids default : List String)
    → Unique ids
    → length ids ≤ 100
    → stored_ids (arr (items (map str ids))) default ≡ ids
stored_ids-items ids default u few =
    rw (elements-items (map str ids), first_texts-str [] ids u (none_seen ids))
      (take_all 100 ids few)

-- Of 100 distinct pieces of evidence and a new one appended after them, as an observation leaves
-- them, the next normalisation drops the new one.
stored_ids-append :
    (ids default : List String) (e : String)
    → Unique ids
    → length ids ≡ 100
    → contains ids e ≡ false
    → stored_ids (arr (items (map str (ids ++ (e ∷ []))))) default ≡ ids
stored_ids-append ids default e u full new =
    let all = ids ++ (e ∷ []) in
    rw
      (
        elements-items (map str all),
        first_texts-str [] all (Unique-append_one ids e u new) (none_seen all),
      )
      (take-append 100 ids (e ∷ []) (omega arith) ∙ take_all 100 ids (omega arith))

pub stored_text_time : (t : Value) → IsTime t → stored_text t null ≡ t
stored_text_time null h = refl
stored_text_time (str s) h = refl
stored_text_time v h = absurd h

merge_node-stored :
    (n d : Node) → IsFresh d → IsNodeOf n d → merge_node d (fields_of (node_value n)) ≡ ok n
unfolding merge_node node_value find text_dec member
merge_node-stored n d (c, e, f, l) v =
    rw
      (
        read_status-status_text n.status,
        clamp_fixed n.confidence v.unit,
        stored_ids-items n.evidence_ids d.evidence_ids v.distinct v.few,
        f,
        l,
        stored_text_time n.first_observed_at v.first_time,
        stored_text_time n.last_observed_at v.last_time,
        ← v.id,
        ← v.label,
        ← v.category,
        ← v.depth,
      )
      refl

-- The ids under which the stored nodes are found.
abbrev pub ids_of : List Node → List String
ids_of ns = map (λ n. n.id) ns

pub All-imp :
    {A : Type 0} {P Q : A → Type 0} → ((a : A) → P a → Q a) → (xs : List A) → All P xs → All Q xs
All-imp f [] h = tt
All-imp f (x ∷ xs) h = (f x h.0, All-imp f xs h.1)

pub known_nodes-stored :
    (ns : List Node)
    → All (λ s. truthy (str s) ≡ true) (ids_of ns)
    → known_nodes (map node_value ns) ≡ ok (map pair ns)
unfolding known_nodes node_value find text_dec keyed
known_nodes-stored [] h = refl
known_nodes-stored (n ∷ ns) h = rw (h.0, known_nodes-stored ns h.1) refl

known_get_absent :
    (ns : List Node) (id : String) (found : Fields)
    → contains (ids_of ns) id ≡ false
    → known_get id (map pair ns) found ≡ found
unfolding known_get
known_get_absent [] id found h = refl
known_get_absent (n ∷ ns) id found h =
    ground (arith, known_get_absent ns id (or_last (fields_of (node_value n)) found n.id id))

abbrev FoundIn : List Node → Node → Type 0
FoundIn ns n = (found : Fields) → known_get n.id (map pair ns) found ≡ fields_of (node_value n)

pub known_get-stored : (ns : List Node) → Unique (ids_of ns) → All (FoundIn ns) ns
unfolding known_get
known_get-stored [] u = tt
known_get-stored (n ∷ ns) u = (
  λ found.
      known_get_absent ns n.id (or_last (fields_of (node_value n)) found n.id n.id) u.0
      ∙ ground arith,
  All-imp (λ m f found. f (or_last (fields_of (node_value n)) found n.id m.id)) ns
      (known_get-stored ns u.1),
)

pub merge_at :
    (known : List (String × Fields)) (n d : Node)
    → n.id ≡ d.id
    → known_get n.id known end ≡ fields_of (node_value n)
    → known_get d.id known end ≡ fields_of (node_value n)
merge_at known n d same h = ap (λ id. known_get id known end) (sym same) ∙ h

merge-stored :
    (known : List (String × Fields)) (ns ds : List Node)
    → All IsFresh ds
    → IsGraphOf ns ds
    → All (λ n. known_get n.id known end ≡ fields_of (node_value n)) ns
    → traverse (λ d. merge_node d (known_get d.id known end)) ds ≡ ok ns
merge-stored known [] [] f g h = refl
merge-stored known [] (d ∷ ds) f g h = absurd g
merge-stored known (n ∷ ns) [] f g h = absurd g
merge-stored known (n ∷ ns) (d ∷ ds) f g h =
    let here = merge_at known n d g.0.id h.0 in
    rw (here, merge_node-stored n d f.0 g.0, merge-stored known ns ds f.1 g.1 h.1) refl

ids_of-IsGraphOf : (ns ds : List Node) → IsGraphOf ns ds → ids_of ns ≡ ids_of ds
ids_of-IsGraphOf [] [] g = refl
ids_of-IsGraphOf [] (d ∷ ds) g = absurd g
ids_of-IsGraphOf (n ∷ ns) [] g = absurd g
ids_of-IsGraphOf (n ∷ ns) (d ∷ ds) g = rw (g.0.id, ids_of-IsGraphOf ns ds g.1) refl

pub default_truthy : All (λ s. truthy (str s) ≡ true) (ids_of default_graph)
unfolding text_dec truthy
default_truthy = ground arith

pub default_Unique : Unique (ids_of default_graph)
unfolding text_dec
default_Unique = ground arith

-- A well-formed graph that is stored and normalised again is the same graph.
pub normalize_graph-graph_value :
    (ns : List Node) → IsGraph ns → normalize_graph (graph_value ns) ≡ ok ns
unfolding normalize_graph merge_nodes graph_value find text_dec
normalize_graph-graph_value ns g =
    let same = ids_of-IsGraphOf ns default_graph g in
    rw (elements-items (map node_value ns), known_nodes-stored ns (rw same default_truthy))
      (merge-stored (map pair ns) ns default_graph default_graph-IsFresh g
        (All-imp (λ n f. f end) ns (known_get-stored ns (rw same default_Unique))))
