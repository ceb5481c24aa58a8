-- ===== src/Defender/Graph/Progress.antt =====
-- An observation only adds to the graph: what `apply_observation` may change, and what it keeps.
use k3df.Base.{
  ok_inj, ◌≡◌, refl, sym, ◌⊎◌, inl, inr, false, String, Option, none, some, List, arith, Bool-cases,
  contains, if◌then◌else◌, ok, bind-eq-ok, ◌>>=◌,
}
use k3df.Json.{Value, null, str, Float, float_of}
use k3df.Defender.Graph.{
  Node, NodeStatus, not_observed, suspected, confirmed, member, read_status, normalize_graph,
}
use k3df.Defender.Graph.Observe.{
  find_node, set_node, observe, skip_node, update_node, record_evidence, accept_status,
  apply_observation,
}

-- One more piece of evidence `text` at a node that did not have it.
pub record Recorded (old : List Node) (id evidence timestamp : Value) (ns : List Node)
    : Type 0 where
  pub node : Node
  pub text : String
  pub status : NodeStatus
  pub x : Float
  pub given : evidence ≡ str text
  pub observed : (status ≡ suspected) ⊎ (status ≡ confirmed)
  pub at : find_node id old ≡ some node
  pub fresh : contains node.evidence_ids text ≡ false
  pub result : ns ≡ set_node id (observe text timestamp status x node) old

module _ (parse : String → Option Float) where
  Recorded-fresh :
      (old : List Node) (id : Value) (e : String) (t : Value) (s : NodeStatus) (c : Value)
      (n : Node) {ns : List Node}
      → (s ≡ suspected) ⊎ (s ≡ confirmed)
      → find_node id old ≡ some n
      → contains n.evidence_ids e ≡ false
      → (float_of parse c >>= λ x. ok (set_node id (observe e t s x n) old)) ≡ ok ns
      → Recorded old id (str e) t ns
  Recorded-fresh old id e t s c n o at new h =
      let (x, hx, h₁) = bind-eq-ok (float_of parse c) _ h in
      record {
        node = n;
        text = e;
        status = s;
        x = x;
        given = refl;
        observed = o;
        at = at;
        fresh = new;
        result = sym (ok_inj h₁);
      }

  Recorded-from :
      (old : List Node) (id : Value) (e : String) (t : Value) (s : NodeStatus) (c : Value)
      (found : Option Node) {ns : List Node}
      → (s ≡ suspected) ⊎ (s ≡ confirmed)
      → find_node id old ≡ found
      → (if skip_node e found
          then ok old
          else (float_of parse c >>= λ x. ok (update_node (observe e t s x) id found old)))
        ≡ ok ns
      → (ns ≡ old) ⊎ Recorded old id (str e) t ns
  Recorded-from old id e t s c none o at h = inl (sym (ok_inj h))
  Recorded-from old id e t s c (some n) o at h = elim (Bool-cases (contains n.evidence_ids e)) [
    | inl there ↦ inl (ground arith)
    | inr new ↦ inr (Recorded-fresh old id e t s c n o at new (ground arith))
  ]

  record_evidence_cases :
      (old : List Node) (id : Value) (e : String) (t : Value) (s : NodeStatus) (c : Value)
      {ns : List Node}
      → (s ≡ suspected) ⊎ (s ≡ confirmed)
      → record_evidence parse old id e t s c ≡ ok ns
      → (ns ≡ old) ⊎ Recorded old id (str e) t ns
  unfolding record_evidence
  record_evidence_cases old id e t s c o h =
      Recorded-from old id e t s c (find_node id old) o refl h

  pub accept_status_cases :
      (old : List Node) (id e t : Value) (s : Option NodeStatus) (c : Value) {ns : List Node}
      → accept_status parse old id e t s c ≡ ok ns
      → (ns ≡ old) ⊎ Recorded old id e t ns
  accept_status_cases old id (str e) t (some suspected) c h =
      record_evidence_cases old id e t suspected c (inl refl) h
  accept_status_cases old id (str e) t (some confirmed) c h =
      record_evidence_cases old id e t confirmed c (inr refl) h
  accept_status_cases old id (str e) t (some not_observed) c h = inl (sym (ok_inj h))
  accept_status_cases old id (str e) t none c h = inl (sym (ok_inj h))
  accept_status_cases old id null t s c h = inl (sym (ok_inj h))
  accept_status_cases old id e t s c h = inl (sym (ok_inj h))

  pub apply_observation_cases :
      (graph id e t s c : Value) {ns : List Node}
      → apply_observation parse graph id e t s c ≡ ok ns
      → (old : List Node) × (normalize_graph graph ≡ ok old) × ((ns ≡ old) ⊎ Recorded old id e t ns)
  unfolding apply_observation
  apply_observation_cases graph id e t s c h =
      let (old, ho, h₁) = bind-eq-ok (normalize_graph graph) _ h in
      let (r, hr, h₂) = bind-eq-ok (member read_status s) _ h₁ in
      (old, ho, accept_status_cases old id e t r c h₂)
