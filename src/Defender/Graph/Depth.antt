-- ===== src/Defender/Graph/Depth.antt =====
-- The bounds of `derived_depths`, and what an observation keeps of a graph's shape.
use k3df.Base.{
  ok_inj, suc, ◌+◌, ◌≤◌, ◌≡◌, refl, Bool, true, List, [], ◌∷◌, length, arith, if◌then◌else◌, ok,
  bind-eq-ok,
}
use k3df.Json.{Value}
use k3df.Defender.Graph.{
  Node, NodeStatus, not_observed, suspected, confirmed, default_graph, normalize_graph,
}
use k3df.Defender.Graph.Valid.{IsGraphOf, normalize_graph-IsGraph}
use k3df.Defender.Graph.Observe.{
  derived_depths, depths, Depths, deepest, count_if, is_confirmed, is_suspected,
}
use k3df.Defender.Graph.Growth.{is_possible}

deepest_imp :
    (p q : NodeStatus → Bool) (ns : List Node)
    → ((s : NodeStatus) → p s ≡ true → q s ≡ true)
    → deepest p ns ≤ deepest q ns
deepest_imp p q [] h = omega arith
deepest_imp p q (n ∷ ns) h = ground (arith, deepest_imp p q ns h, h n.status)

deepest-IsGraphOf :
    (p : NodeStatus → Bool) (ns ds : List Node)
    → IsGraphOf ns ds
    → deepest p ns ≤ deepest (λ s. true) ds
deepest-IsGraphOf p [] [] g = omega arith
deepest-IsGraphOf p [] (d ∷ ds) g = absurd g
deepest-IsGraphOf p (n ∷ ns) [] g = absurd g
deepest-IsGraphOf p (n ∷ ns) (d ∷ ds) g = ground (arith, deepest-IsGraphOf p ns ds g.1, g.0.depth)

counts-IsGraphOf :
    (ns ds : List Node)
    → IsGraphOf ns ds
    → count_if is_confirmed ns + count_if is_suspected ns ≤ length ds
counts-IsGraphOf [] [] g = omega arith
counts-IsGraphOf [] (d ∷ ds) g = absurd g
counts-IsGraphOf (n ∷ ns) [] g = absurd g
counts-IsGraphOf (n ∷ ns) (d ∷ ds) g =
    elim n.status
      as (λ s.
        (if is_confirmed s then suc (count_if is_confirmed ns) else count_if is_confirmed ns)
          + (if is_suspected s then suc (count_if is_suspected ns) else count_if is_suspected ns)
        ≤ suc (length ds)) [
          | confirmed ↦ omega (arith, counts-IsGraphOf ns ds g.1)
          | suspected ↦ omega (arith, counts-IsGraphOf ns ds g.1)
          | not_observed ↦ omega (arith, counts-IsGraphOf ns ds g.1)
        ]

is_possible_of_confirmed : (s : NodeStatus) → is_confirmed s ≡ true → is_possible s ≡ true
is_possible_of_confirmed confirmed h = refl
is_possible_of_confirmed suspected h = refl
is_possible_of_confirmed not_observed h = cc

-- The confirmed depth derived from any stored graph is at most the possible depth, which is at
-- most 10, and the confirmed and suspected nodes together are at most 10.
pub derived_depths_bounds :
    (graph : Value) (d : Depths)
    → derived_depths graph ≡ ok d
    → (d.confirmed_depth ≤ d.possible_depth)
      × (d.possible_depth ≤ 10)
      × (d.confirmed_count + d.suspected_count ≤ 10)
unfolding derived_depths depths
derived_depths_bounds graph d h =
    let (ns, hn, h₁) = bind-eq-ok (normalize_graph graph) _ h in
    let g = normalize_graph-IsGraph graph ns hn in
    rw (← ok_inj h₁) (
      deepest_imp is_confirmed is_possible ns is_possible_of_confirmed,
      deepest-IsGraphOf is_possible ns default_graph g,
      counts-IsGraphOf ns default_graph g,
    )
