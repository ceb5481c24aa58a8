-- ===== src/Defender/Graph/Lasting.antt =====
-- Evidence on a graph that the state holds: its nodes and their confirmations.
use k3df.Base.{
  ◌≤◌, ◌≡◌, refl, ◌∙◌, Bool, true, String, Option, List, [], ◌∷◌, Bool-cases, inl, inr, arith, ok,
  bind-eq-ok,
}
use k3df.Json.{Value, Fields, get, Float, truthy}
use k3df.Defender.Graph.{Node, NodeStatus, not_observed, suspected, confirmed, graph_value}
use k3df.Defender.Graph.RoundTrip.{ids_of}
use k3df.Defender.Graph.Observe.{
  is_confirmed, apply_observation, metadata_of, apply_target, apply_system_evidence,
}
use k3df.Defender.Graph.Growth.{rank, GrewBy, apply_observation-GrewBy}
use k3df.Defender.Graph.Suspect.{
  IsOntology, SameConfirmed, confirmations, normalize_graph-SameConfirmed,
}

-- What is true in the one list is true in the other, of the same length.
abbrev pub Stays : List Bool → List Bool → Type 0
Stays [] [] = Unit
Stays (x ∷ xs) (y ∷ ys) = (x ≡ true → y ≡ true) × Stays xs ys
Stays _ _ = ⊥

-- The nodes are the same ones, and those that were confirmed still are.
abbrev pub StaysConfirmed : List Node → List Node → Type 0
StaysConfirmed ns ms = (ids_of ms ≡ ids_of ns) × Stays (confirmations ns) (confirmations ms)

Stays-refl : (xs : List Bool) → Stays xs xs
Stays-refl [] = tt
Stays-refl (x ∷ xs) = (λ h. h, Stays-refl xs)

Stays-trans : (xs ys zs : List Bool) → Stays xs ys → Stays ys zs → Stays xs zs
Stays-trans [] [] [] f g = tt
Stays-trans (x ∷ xs) (y ∷ ys) (z ∷ zs) (f, fs) (g, gs) = (λ h. g (f h), Stays-trans xs ys zs fs gs)
Stays-trans [] [] (z ∷ zs) f g = g
Stays-trans [] (y ∷ ys) zs f g = absurd f
Stays-trans (x ∷ xs) [] zs f g = absurd f
Stays-trans (x ∷ xs) (y ∷ ys) [] f g = g

pub StaysConfirmed-refl : (ns : List Node) → StaysConfirmed ns ns
StaysConfirmed-refl ns = (refl, Stays-refl (confirmations ns))

pub StaysConfirmed-trans :
    (ns ms ls : List Node) → StaysConfirmed ns ms → StaysConfirmed ms ls → StaysConfirmed ns ls
StaysConfirmed-trans ns ms ls (i, f) (j, g) =
    (j ∙ i, Stays-trans (confirmations ns) (confirmations ms) (confirmations ls) f g)

pub StaysConfirmed-of_same : (ns ms : List Node) → SameConfirmed ns ms → StaysConfirmed ns ms
StaysConfirmed-of_same ns ms (i, c) = (i, rw c (Stays-refl (confirmations ns)))

confirmed_up : (a b : NodeStatus) → rank a ≤ rank b → is_confirmed a ≡ true → is_confirmed b ≡ true
confirmed_up a confirmed r h = refl
confirmed_up confirmed suspected r h = absurd (omega arith)
confirmed_up confirmed not_observed r h = absurd (omega arith)
confirmed_up suspected suspected r h = cc
confirmed_up suspected not_observed r h = cc
confirmed_up not_observed suspected r h = cc
confirmed_up not_observed not_observed r h = cc

StaysConfirmed-of_growth : (ns ms : List Node) → GrewBy ns ms → StaysConfirmed ns ms
StaysConfirmed-of_growth [] [] g = (refl, tt)
StaysConfirmed-of_growth (n ∷ ns) (m ∷ ms) (g, gs) =
    let (i, c) = StaysConfirmed-of_growth ns ms gs in
    (rw (g.id, i) refl, (confirmed_up n.status m.status g.status, c))
StaysConfirmed-of_growth [] (m ∷ ms) g = absurd g
StaysConfirmed-of_growth (n ∷ ns) [] g = absurd g

module _ (parse : String → Option Float) (ns ms : List Node) (ontology : IsOntology ns) where
  observation-StaysConfirmed :
      (id evidence timestamp status confidence : Value)
      → apply_observation parse (graph_value ns) id evidence timestamp status confidence ≡ ok ms
      → StaysConfirmed ns ms
  observation-StaysConfirmed id e t s c h =
      let (old, ho, g) = apply_observation-GrewBy parse (graph_value ns) id e t s c ms h in
      StaysConfirmed-trans ns old ms
        (StaysConfirmed-of_same ns old (normalize_graph-SameConfirmed ns old ontology ho))
        (StaysConfirmed-of_growth old ms g)

  target-StaysConfirmed :
      (evidence : Fields) (id status : Value)
      → apply_target parse (graph_value ns) evidence (id, status) ≡ ok ms
      → StaysConfirmed ns ms
  unfolding apply_target
  target-StaysConfirmed evidence id status h = elim (Bool-cases (truthy id)) [
    | inl named ↦ observation-StaysConfirmed id _ _ status _ (rw named at h)
    | inr unnamed ↦
        StaysConfirmed-of_same ns ms
          (normalize_graph-SameConfirmed ns ms ontology (rw unnamed at h))
  ]

  -- Evidence that is applied without an exception to a stored graph of the ontology's nodes
  -- leaves the same nodes, and those that were confirmed still are.
  pub apply_system_evidence-StaysConfirmed :
      (evidence : Fields)
      → apply_system_evidence parse (graph_value ns) evidence ≡ ok ms
      → StaysConfirmed ns ms
  unfolding apply_system_evidence
  apply_system_evidence-StaysConfirmed evidence h =
      let (metadata, _, h₁) = bind-eq-ok (metadata_of (get "metadata" evidence)) _ h in
      target-StaysConfirmed evidence _ _ h₁
