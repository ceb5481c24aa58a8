-- ===== src/Defender/Graph/Growth.antt =====
-- No observation takes anything from a node, and the derived depths only rise.
use k3df.Base.{
  ℕ, ◌≤◌, ◌≡◌, refl, ◌⊎◌, inl, inr, Bool, true, false, ◌||◌, String, Option, some, List, [], ◌∷◌,
  ◌++◌, arith, Bool-cases, contains-append, Within, Within-of_contains, ok,
}
use k3df.Json.{
  Value, str, Float, finite, nan, inf, neg_inf, ltb_float, max_float, clamp, truthy, value_eq,
}
use k3df.Defender.Graph.{Node, NodeStatus, not_observed, suspected, confirmed, normalize_graph}
use k3df.Defender.Graph.Observe.{
  find_node, set_node, observe, next_status, apply_observation, depths, Depths, derived_depths,
  deepest, is_confirmed, is_suspected,
}
use k3df.Defender.Graph.Progress.{Recorded, apply_observation_cases}

abbrev pub rank : NodeStatus → ℕ
rank not_observed = 0
rank suspected = 1
rank confirmed = 2

-- Of two states of one node, the later one `m` has all that `n` has.
pub record Grew (n m : Node) : Type 0 where
  pub id : m.id ≡ n.id
  pub label : m.label ≡ n.label
  pub category : m.category ≡ n.category
  pub depth : m.depth ≡ n.depth
  pub status : rank n.status ≤ rank m.status
  pub confidence : ltb_float m.confidence n.confidence ≡ false
  pub evidence : Within m.evidence_ids n.evidence_ids
  pub since : truthy n.first_observed_at ≡ true → m.first_observed_at ≡ n.first_observed_at

abbrev pub GrewBy : List Node → List Node → Type 0
GrewBy [] [] = Unit
GrewBy (n ∷ ns) (m ∷ ms) = Grew n m × GrewBy ns ms
GrewBy _ _ = ⊥

ltb_float_irrefl : (x : Float) → ltb_float x x ≡ false
ltb_float_irrefl nan = refl
ltb_float_irrefl inf = refl
ltb_float_irrefl neg_inf = refl
ltb_float_irrefl (finite a) = ground arith

ltb_float_asym : (x y : Float) → ltb_float x y ≡ true → ltb_float y x ≡ false
ltb_float_asym nan y h = cc
ltb_float_asym inf y h = cc
ltb_float_asym neg_inf nan h = cc
ltb_float_asym neg_inf inf h = refl
ltb_float_asym neg_inf neg_inf h = cc
ltb_float_asym neg_inf (finite b) h = refl
ltb_float_asym (finite a) nan h = cc
ltb_float_asym (finite a) inf h = refl
ltb_float_asym (finite a) neg_inf h = cc
ltb_float_asym (finite a) (finite b) h = ground arith

max_float_not_below : (x y : Float) → ltb_float (max_float x y) x ≡ false
max_float_not_below x y = elim (Bool-cases (ltb_float x y)) [
  | inl above ↦ ground (arith, ltb_float_asym x y)
  | inr not_above ↦ ground (arith, ltb_float_irrefl x)
]

Within-refl : (xs : List String) → Within xs xs
Within-refl xs = Within-of_contains xs xs (λ a h. h)

Grew-refl : (n : Node) → Grew n n
Grew-refl n = record {
  id = refl;
  label = refl;
  category = refl;
  depth = refl;
  status = omega arith;
  confidence = ltb_float_irrefl n.confidence;
  evidence = Within-refl n.evidence_ids;
  since = λ h. refl;
}

GrewBy-refl : (ns : List Node) → GrewBy ns ns
GrewBy-refl [] = tt
GrewBy-refl (n ∷ ns) = (Grew-refl n, GrewBy-refl ns)

next_status-rank : (s old : NodeStatus) → rank old ≤ rank (next_status s old)
next_status-rank confirmed not_observed = omega arith
next_status-rank confirmed suspected = omega arith
next_status-rank confirmed confirmed = omega arith
next_status-rank suspected not_observed = omega arith
next_status-rank suspected suspected = omega arith
next_status-rank suspected confirmed = omega arith
next_status-rank not_observed not_observed = omega arith
next_status-rank not_observed suspected = omega arith
next_status-rank not_observed confirmed = omega arith

observe-Grew :
    (e : String) (t : Value) (s : NodeStatus) (x : Float) (n : Node) → Grew n (observe e t s x n)
unfolding observe
observe-Grew e t s x n = record {
  id = refl;
  label = refl;
  category = refl;
  depth = refl;
  status = next_status-rank s n.status;
  confidence = max_float_not_below n.confidence (clamp x);
  evidence =
      Within-of_contains (n.evidence_ids ++ (e ∷ [])) n.evidence_ids
        (λ a h. ground (arith, contains-append n.evidence_ids (e ∷ []) a));
  since = λ h. ground arith;
}

-- What finding a node says of the first one.
pub find_node_first :
    (id : Value) (n k : Node) (ns : List Node)
    → find_node id (k ∷ ns) ≡ some n
    → ((value_eq (str k.id) id ≡ true) × (k ≡ n))
      ⊎ ((value_eq (str k.id) id ≡ false) × (find_node id ns ≡ some n))
unfolding find_node
find_node_first id n k ns h = elim (Bool-cases (value_eq (str k.id) id)) [
  | inl here ↦ inl (here, ground arith)
  | inr there ↦ inr (there, ground arith)
]

set_node-GrewBy :
    (id : Value) (n m : Node) (ns : List Node)
    → find_node id ns ≡ some n
    → Grew n m
    → GrewBy ns (set_node id m ns)
unfolding find_node set_node
set_node-GrewBy id n m [] h g = cc
set_node-GrewBy id n m (k ∷ ns) h g = elim (find_node_first id n k ns h) [
  | inl (here, same) ↦ rw (here, same) (g, GrewBy-refl ns)
  | inr (there, h₁) ↦ rw there (Grew-refl k, set_node-GrewBy id n m ns h₁ g)
]

Recorded-GrewBy :
    (old : List Node) (id e t : Value) (ns : List Node)
    → (ns ≡ old) ⊎ Recorded old id e t ns
    → GrewBy old ns
Recorded-GrewBy old id e t ns (inl same) = rw same (GrewBy-refl old)
Recorded-GrewBy old id e t ns (inr r) =
    rw (r.result) (set_node-GrewBy id r.node _ old r.at (observe-Grew r.text t r.status r.x r.node))

deepest-GrewBy :
    (p : NodeStatus → Bool) (ns ms : List Node)
    → ((a b : NodeStatus) → rank a ≤ rank b → p a ≡ true → p b ≡ true)
    → GrewBy ns ms
    → deepest p ns ≤ deepest p ms
deepest-GrewBy p [] [] up g = omega arith
deepest-GrewBy p [] (m ∷ ms) up g = absurd g
deepest-GrewBy p (n ∷ ns) [] up g = absurd g
deepest-GrewBy p (n ∷ ns) (m ∷ ms) up g =
    ground (arith, deepest-GrewBy p ns ms up g.1, g.0.depth, up n.status m.status g.0.status)

is_confirmed_up :
    (a b : NodeStatus) → rank a ≤ rank b → is_confirmed a ≡ true → is_confirmed b ≡ true
is_confirmed_up confirmed confirmed r h = refl
is_confirmed_up confirmed suspected r h = absurd (omega arith)
is_confirmed_up confirmed not_observed r h = absurd (omega arith)
is_confirmed_up suspected b r h = cc
is_confirmed_up not_observed b r h = cc

abbrev pub is_possible : NodeStatus → Bool
is_possible s = is_suspected s || is_confirmed s

is_possible_up : (a b : NodeStatus) → rank a ≤ rank b → is_possible a ≡ true → is_possible b ≡ true
is_possible_up a confirmed r h = refl
is_possible_up a suspected r h = refl
is_possible_up confirmed not_observed r h = absurd (omega arith)
is_possible_up suspected not_observed r h = absurd (omega arith)
is_possible_up not_observed not_observed r h = cc

module _ (parse : String → Option Float) where
  -- If an observation is applied to a stored graph without an exception, then each node of the
  -- normalised graph keeps its id, label, category and depth, its status does not fall (not
  -- observed, suspected, confirmed), its confidence does not fall, it keeps all its evidence,
  -- and it keeps its first time if that was set.
  pub apply_observation-GrewBy :
      (graph id evidence timestamp status confidence : Value) (ns : List Node)
      → apply_observation parse graph id evidence timestamp status confidence ≡ ok ns
      → (old : List Node) × (normalize_graph graph ≡ ok old) × GrewBy old ns
  apply_observation-GrewBy graph id e t s c ns h =
      let (old, ho, r) = apply_observation_cases parse graph id e t s c h in
      (old, ho, Recorded-GrewBy old id e t ns r)

  -- If an observation is applied to a stored graph without an exception, then neither the
  -- confirmed nor the possible depth derived from it falls.
  pub depths-apply_observation :
      (graph id evidence timestamp status confidence : Value) (ns : List Node)
      → apply_observation parse graph id evidence timestamp status confidence ≡ ok ns
      → (old : Depths) × (derived_depths graph ≡ ok old)
        × (old.confirmed_depth ≤ (depths ns).confirmed_depth)
        × (old.possible_depth ≤ (depths ns).possible_depth)
  unfolding derived_depths depths
  depths-apply_observation graph id e t s c ns h =
      let (old, ho, g) = apply_observation-GrewBy graph id e t s c ns h in
      (
        depths old,
        rw ho refl,
        deepest-GrewBy is_confirmed old ns is_confirmed_up g,
        deepest-GrewBy is_possible old ns is_possible_up g,
      )
