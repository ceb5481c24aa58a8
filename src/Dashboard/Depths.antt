-- ===== src/Dashboard/Depths.antt =====
-- The dashboard derives the depths of the stored graph as `derived_depths` does.
use k3df.Base.{
  ℕ, suc, max, ltb, ◌+◌, ◌≡◌, refl, ap, ◌∙◌, Bool, true, false, Bool-cases, inl, inr, List, [], ◌∷◌,
  map, length, take_all, length-map, if◌then◌else◌, arith, text_dec, ok, ◌>>=◌,
}
use k3df.Base.Int.{pos}
use k3df.Json.{Value, int, Fields, find, value_eq, value_lt, max_from, max_or_zero}
use k3df.Json.Laws.{elements-items}
use k3df.Defender.Graph.{
  Node, NodeStatus, not_observed, suspected, confirmed, default_graph, node_value, graph_value,
}
use k3df.Defender.Graph.Valid.{IsGraphOf, IsGraph}
use k3df.Defender.Graph.RoundTrip.{fields_of, normalize_graph-graph_value}
use k3df.Defender.Graph.Observe.{
  Depths, depths, deepest, count_if, is_confirmed, is_suspected, derived_depths,
}
use k3df.Defender.Graph.Growth.{is_possible}
use k3df.Dashboard.Snapshot.{
  Summary, dicts_of, shown_nodes, status_is, confirmed_depths, possible_depths, count_suspected,
  depth_summary,
}

abbrev pub node_fields : Node → Fields
node_fields n = fields_of (node_value n)

pub dicts_of-map : (ns : List Node) → dicts_of (map node_value ns) ≡ map node_fields ns
unfolding node_value
dicts_of-map [] = refl
dicts_of-map (n ∷ ns) = ap (◌∷◌ (node_fields n)) (dicts_of-map ns)

length-IsGraphOf : (ns ds : List Node) → IsGraphOf ns ds → length ns ≡ length ds
length-IsGraphOf [] [] g = refl
length-IsGraphOf [] (d ∷ ds) g = absurd g
length-IsGraphOf (n ∷ ns) [] g = absurd g
length-IsGraphOf (n ∷ ns) (d ∷ ds) g = ap suc (length-IsGraphOf ns ds g.1)

shown_nodes-graph_value :
    (ns : List Node)
    → IsGraph ns
    → shown_nodes (fields_of (graph_value ns)) ≡ ok (map node_fields ns)
unfolding shown_nodes graph_value find text_dec
shown_nodes-graph_value ns g =
    rw (elements-items (map node_value ns), dicts_of-map ns)
      (ap ok (
        take_all 20 (map node_fields ns)
          (omega (arith, length-map node_fields ns, length-IsGraphOf ns default_graph g))))

-- The depths of the nodes with a status.
abbrev depths_if : (NodeStatus → Bool) → List Node → List ℕ
depths_if p [] = []
depths_if p (n ∷ ns) = if p n.status then n.depth ∷ depths_if p ns else depths_if p ns

abbrev whole : List ℕ → List Value
whole ks = map (λ k. int (pos k)) ks

whole_if :
    (b : Bool) (k : ℕ) (ks : List ℕ)
    → (if b then int (pos k) ∷ whole ks else whole ks) ≡ whole (if b then k ∷ ks else ks)
whole_if true k ks = refl
whole_if false k ks = refl

abbrev biggest : List ℕ → ℕ
biggest [] = 0
biggest (k ∷ ks) = max k (biggest ks)

status_confirmed : (n : Node) → status_is "confirmed" (node_fields n) ≡ is_confirmed n.status
unfolding node_value find value_eq text_dec
status_confirmed n =
    elim n.status
      as (λ s. status_is "confirmed" (node_fields (record n { status = s })) ≡ is_confirmed s) [
        | confirmed ↦ refl
        | suspected ↦ refl
        | not_observed ↦ refl
      ]

status_suspected : (n : Node) → status_is "suspected" (node_fields n) ≡ is_suspected n.status
unfolding node_value find value_eq text_dec
status_suspected n =
    elim n.status
      as (λ s. status_is "suspected" (node_fields (record n { status = s })) ≡ is_suspected s) [
        | confirmed ↦ refl
        | suspected ↦ refl
        | not_observed ↦ refl
      ]

confirmed_depths-map :
    (ns : List Node) → confirmed_depths (map node_fields ns) ≡ whole (depths_if is_confirmed ns)
unfolding confirmed_depths node_value find text_dec
confirmed_depths-map [] = refl
confirmed_depths-map (n ∷ ns) =
    rw (status_confirmed n, confirmed_depths-map ns)
      (whole_if (is_confirmed n.status) n.depth (depths_if is_confirmed ns))

count_suspected-map :
    (ns : List Node) → count_suspected (map node_fields ns) ≡ count_if is_suspected ns
unfolding count_suspected
count_suspected-map [] = refl
count_suspected-map (n ∷ ns) = rw (status_suspected n, count_suspected-map ns) refl

max_from-whole :
    (m : ℕ) (ks : List ℕ) → max_from (int (pos m)) (whole ks) ≡ ok (int (pos (max m (biggest ks))))
unfolding max_from value_lt
max_from-whole m [] = ap (λ k. ok (int (pos k))) (omega arith)
max_from-whole m (k ∷ ks) = elim (Bool-cases (ltb (m + 0) (k + 0))) [
  | inl less ↦ rw less (max_from-whole k ks ∙ ap (λ k. ok (int (pos k))) (ground arith))
  | inr more ↦ rw more (max_from-whole m ks ∙ ap (λ k. ok (int (pos k))) (ground arith))
]

max_or_zero-whole : (ks : List ℕ) → max_or_zero (whole ks) ≡ ok (int (pos (biggest ks)))
max_or_zero-whole [] = refl
max_or_zero-whole (k ∷ ks) = max_from-whole k ks

deepest-biggest : (p : NodeStatus → Bool) (ns : List Node) → deepest p ns ≡ biggest (depths_if p ns)
deepest-biggest p [] = refl
deepest-biggest p (n ∷ ns) = ground (arith, deepest-biggest p ns)

count-depths_if : (p : NodeStatus → Bool) (ns : List Node) → length (depths_if p ns) ≡ count_if p ns
count-depths_if p [] = refl
count-depths_if p (n ∷ ns) = ground (arith, count-depths_if p ns)

possible_depths-map :
    (ns : List Node) → possible_depths (map node_fields ns) ≡ ok (whole (depths_if is_possible ns))
unfolding possible_depths node_value find text_dec
possible_depths-map [] = refl
possible_depths-map (n ∷ ns) =
    elim n.status
      as (λ s.
        possible_depths (node_fields (record n { status = s }) ∷ map node_fields ns)
        ≡ ok (
            whole (
              if is_possible s
              then n.depth ∷ depths_if is_possible ns
              else depths_if is_possible ns))) [
                | confirmed ↦ rw (possible_depths-map ns) refl
                | suspected ↦ rw (possible_depths-map ns) refl
                | not_observed ↦ rw (possible_depths-map ns) refl
              ]

-- The depths as the dashboard shows them.
abbrev pub shown : Depths → Summary
shown d = record {
  confirmed_depth = int (pos d.confirmed_depth);
  possible_depth = int (pos d.possible_depth);
  confirmed_count = d.confirmed_count;
  suspected_count = d.suspected_count;
}

pub depth_summary-shown :
    (ns : List Node) → depth_summary (map node_fields ns) ≡ ok (shown (depths ns))
unfolding depth_summary depths
depth_summary-shown ns =
    rw
      (
        possible_depths-map ns,
        confirmed_depths-map ns,
        max_or_zero-whole (depths_if is_confirmed ns),
        max_or_zero-whole (depths_if is_possible ns),
        count_suspected-map ns,
        length-map (λ k. int (pos k)) (depths_if is_confirmed ns),
        count-depths_if is_confirmed ns,
        deepest-biggest is_confirmed ns,
        deepest-biggest is_possible ns,
      )
      refl

-- For every well-formed capability graph, as the defender stores it, the defender derives its
-- depths without an exception, and so does the dashboard, which shows those depths: the confirmed
-- and the possible depth, and how many nodes are confirmed and suspected.
pub depth_summary-depths :
    (ns : List Node)
    → IsGraph ns
    → (derived_depths (graph_value ns) ≡ ok (depths ns))
      × ((shown_nodes (fields_of (graph_value ns)) >>= depth_summary) ≡ ok (shown (depths ns)))
unfolding derived_depths
depth_summary-depths ns g = (
  rw (normalize_graph-graph_value ns g) refl,
  rw (shown_nodes-graph_value ns g) (depth_summary-shown ns),
)
