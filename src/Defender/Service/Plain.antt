-- ===== src/Defender/Service/Plain.antt =====
-- Evidence that names no capability and no flag is applied without an exception, at any state.
use k3df.Base.{
  ◌≡◌, refl, ap, ◌∙◌, ◌⊎◌, inl, inr, Bool-cases, String, Option, none, some, List, [], ◌∷◌, All,
  Result, Error, text_dec, ◌==◌,
}
use k3df.Json.{null, str, obj, float, Fields, find, get, get_or, zero_float}
use k3df.Defender.Evidence.{Evidence, evidence_fields}
use k3df.Defender.Graph.Observe.{metadata_of}
use k3df.Defender.Graph.Stored.{Returns, apply_system_evidence-Returns}
use k3df.Defender.Flags.Stored.{apply_flag_evidence-Returns}
use k3df.Defender.Service.{Service, with_result, then_next, for_each, in_order}
use k3df.Defender.Service.Updates.{keep_graph}
use k3df.Defender.Service.Context.{raw_key}
use k3df.Defender.Service.Cycle.{World}
use k3df.Defender.Service.Tick.{apply_graph, apply_flag, apply_item, keep_flags}

-- The metadata is a dict with neither of the two keys that name a capability and a flag.
abbrev pub IsPlain : Evidence → Type 0
IsPlain e =
    (metadata : Fields) × (e.metadata ≡ obj metadata)
    × (get "capability_node_id" metadata ≡ null)
    × (get "flag_id" metadata ≡ null)

-- What the loop reads of an item, under either key of its raw material.
record Reads (e : Evidence) (d : Fields) : Type 0 where
  metadata : get "metadata" d ≡ e.metadata
  evidence_id : get "evidence_id" d ≡ str e.evidence_id
  confidence : get_or "confidence" (float zero_float) d ≡ float e.confidence

Reads-raw_key :
    (e : Evidence) (k : String)
    → (k ≡ "raw_data") ⊎ (k ≡ "raw_reference")
    → Reads e (evidence_fields k e)
unfolding find text_dec
Reads-raw_key e k (inl is) =
    rw is (record { metadata = refl; evidence_id = refl; confidence = refl })
Reads-raw_key e k (inr is) =
    rw is (record { metadata = refl; evidence_id = refl; confidence = refl })

raw_key_cases : (e : Evidence) → (raw_key e ≡ "raw_data") ⊎ (raw_key e ≡ "raw_reference")
raw_key_cases e = elim (Bool-cases (e.source == "defender_action")) [
  | inl action ↦ inl (rw action refl)
  | inr other ↦ inr (rw other refl)
]

with_result-none :
    {A : Type 0} (r : Result A) (next : A → Service → Service × Option Error) (s : Service)
    → Returns r
    → ((a : A) → (next a s).1 ≡ none)
    → (with_result r next s).1 ≡ none
with_result-none r next s (a, e) h = rw e (h a)

then_next-none :
    (r : Service × Option Error) (next : Service → Service × Option Error)
    → r.1 ≡ none
    → ((s : Service) → (next s).1 ≡ none)
    → (then_next next r).1 ≡ none
then_next-none (s, none) next e h = h s
then_next-none (s, some x) next e h = cc

module _ (w : World) where
  apply_graph-none : (e : Evidence) (s : Service) → IsPlain e → (apply_graph w e s).1 ≡ none
  unfolding apply_graph
  apply_graph-none e s (metadata, is, unnamed, _) =
      let d = evidence_fields (raw_key e) e in
      let reads = Reads-raw_key e (raw_key e) (raw_key_cases e) in
      with_result-none _ keep_graph s
        (apply_system_evidence-Returns w.parse s.capability_graph d metadata e.evidence_id
          e.confidence (ap metadata_of (reads.metadata ∙ is)) unnamed reads.evidence_id
          reads.confidence)
        (λ nodes. refl)

  apply_flag-none : (e : Evidence) (s : Service) → IsPlain e → (apply_flag w e s).1 ≡ none
  unfolding apply_flag
  apply_flag-none e s (metadata, is, _, unnamed) =
      let d = evidence_fields (raw_key e) e in
      let reads = Reads-raw_key e (raw_key e) (raw_key_cases e) in
      with_result-none _ keep_flags s
        (apply_flag_evidence-Returns s.flag_objectives d metadata
          (ap metadata_of (reads.metadata ∙ is)) unnamed)
        (λ flags. refl)

  apply_item-none : (e : Evidence) (s : Service) → IsPlain e → (apply_item w e s).1 ≡ none
  apply_item-none e s p =
      then_next-none (apply_graph w e s) (in_order (apply_flag w e ∷ [])) (apply_graph-none e s p)
        (λ t. then_next-none (apply_flag w e t) (in_order []) (apply_flag-none e t p) (λ u. refl))

  pub apply_items-none :
      (es : List Evidence) (s : Service) → All IsPlain es → (for_each (apply_item w) es s).1 ≡ none
  apply_items-none [] s h = refl
  apply_items-none (e ∷ es) s h =
      then_next-none (apply_item w e s) (for_each (apply_item w) es) (apply_item-none e s h.0)
        (λ t. apply_items-none es t h.1)
