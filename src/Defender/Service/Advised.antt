-- ===== src/Defender/Service/Advised.antt =====
-- What the advice of the model cannot touch: the updates of `apply_analysis`, one by one.
use k3df.Base.{ℕ, ◌≡◌, refl, ◌∙◌, Bool-cases, inl, inr, String, Option, none, some, List, []}
use k3df.Json.{Value, null, str, arr, obj, Fields, Float, elements, truthy, get}
use k3df.Defender.Policy.{BlockRecord}
use k3df.Defender.Evidence.{Evidence, Bucket}
use k3df.Defender.Graph.Suspect.{
  IsOntology, SameConfirmed, SameConfirmed-trans, apply_observation-SameConfirmed,
}
use k3df.Defender.Flags.{Flag}
use k3df.Defender.Service.{Service, Event, log, with_result}
use k3df.Defender.Service.Steps.{
  Steps, log-Steps, then_next-Steps, with_result-Steps, for_each-Steps,
}
use k3df.Defender.Service.Upsert.{upsert}
use k3df.Defender.Service.Updates.{
  keep_incidents, keep_watches, keep_graph, keep_capabilities, keep_category, time_of,
  suspect_known, suspect_for, apply_incident, suspect_by, suspect_ids, all_known, apply_capability,
  expose, expose_at, apply_exposure, apply_watch, category_of,
}

-- What the state enforces, and what it counts.
pub record Enforced : Type 0 where
  pub blocked_sources : List BlockRecord
  pub active_actions : List BlockRecord
  pub current_phase : String
  pub flag_objectives : List Flag
  pub buffer : List Evidence
  pub cycle : ℕ
  pub counters : ℕ × ℕ × ℕ × ℕ × ℕ

abbrev pub enforced : Service → Enforced
enforced s = record {
  blocked_sources = s.blocked_sources;
  active_actions = s.active_actions;
  current_phase = s.current_phase;
  flag_objectives = s.flag_objectives;
  buffer = s.buffer;
  cycle = s.cycle;
  counters = (
    s.blocked_scenario_count, s.executed_action_count, s.evidence_count, s.ignored_evidence_count,
    s.reasoning_cycle_count,
  );
}

-- Of two states, the later one `t` enforces, counts and confirms what `s` does.
abbrev pub Advised : Service → Service → Type 0
Advised s t =
    (enforced t ≡ enforced s)
    × (IsOntology s.capability_graph → SameConfirmed s.capability_graph t.capability_graph)

Advised-trans : (s t u : Service) → Advised s t → Advised t u → Advised s u
Advised-trans s t u (e, g) (e', g') = (
  e' ∙ e,
  λ i.
      SameConfirmed-trans s.capability_graph t.capability_graph u.capability_graph (g i)
        (g' ((g i).0 ∙ i)),
)

-- If all writes succeed at `s`, then so they do at `t`.
abbrev pub Quiet : Service → Service → Type 0
Quiet s t = s.writes ≡ [] → t.writes ≡ []

abbrev pub Steady : Service → Service → Type 0
Steady s t = Advised s t × Quiet s t

pub Steady-refl : (s : Service) → Steady s s
Steady-refl s = ((refl, λ i. (refl, refl)), λ q. q)

pub Steady-trans : (s t u : Service) → Steady s t → Steady t u → Steady s u
Steady-trans s t u (a, q) (b, r) = (Advised-trans s t u a b, λ h. r (q h))

pub log-Steady : (e : Event) → Steps Steady (log e)
log-Steady = log-Steps Steady (λ s es ws q. ((refl, λ i. (refl, refl)), q))

pub incident-Steady : (v : Value) → Steps Steady (apply_incident v)
unfolding apply_incident
incident-Steady (obj d) s =
    with_result-Steps Steady Steady-refl Steady-trans
      (upsert s.active_incidents (obj d) "incident_id") (keep_incidents d) s
      (λ vs h. log-Steady _ _)
incident-Steady null s = Steady-refl s
incident-Steady v s = Steady-refl s

pub watch-Steady : (v : Value) → Steps Steady (apply_watch v)
unfolding apply_watch
watch-Steady (obj d) s =
    with_result-Steps Steady Steady-refl Steady-trans (upsert s.watch_conditions (obj d) "watch_id")
      (keep_watches d) s (λ vs h. log-Steady _ _)
watch-Steady null s = Steady-refl s
watch-Steady v s = Steady-refl s

expose-Steady :
    (category : String) (d : Fields) (found : Option (List Value))
    → Steps Steady (expose category d found)
expose-Steady category d none s = Steady-refl s
expose-Steady category d (some vs) s =
    with_result-Steps Steady Steady-refl Steady-trans (upsert vs (obj d) "id")
      (keep_category category d) s (λ vs' h. log-Steady _ _)

expose_at-Steady : (category : Value) (d : Fields) → Steps Steady (expose_at category d)
expose_at-Steady (str category) d s = expose-Steady category d (category_of category s.exposure) s
expose_at-Steady null d s = Steady-refl s
expose_at-Steady v d s = Steady-refl s

pub exposure-Steady : (v : Value) → Steps Steady (apply_exposure v)
unfolding apply_exposure
exposure-Steady (obj d) s = expose_at-Steady (get "category" d) d s
exposure-Steady null s = Steady-refl s
exposure-Steady v s = Steady-refl s

module _ (parse : String → Option Float) (now : Value) (batch : List Bucket) where
  suspect-Steady :
      (id confidence : Value) (e : String)
      → Steps Steady (suspect_by parse now batch id confidence e)
  unfolding suspect_by
  suspect-Steady id confidence e s =
      with_result-Steps Steady Steady-refl Steady-trans _ keep_graph s (λ nodes h. (
        (
          refl,
          λ i.
              apply_observation-SameConfirmed parse s.capability_graph nodes id e
                (time_of now batch e) confidence i h,
        ),
        λ q. q,
      ))

  suspect_ids-Steady :
      (id confidence ids : Value) → Steps Steady (suspect_ids parse now batch id confidence ids)
  suspect_ids-Steady id confidence (arr vs) s = elim (Bool-cases (truthy id)) [
    | inl set ↦ rw set (
        with_result-Steps Steady Steady-refl Steady-trans (all_known batch (elements vs))
          (suspect_known parse now batch id confidence (elements vs)) s
          (λ known h.
            for_each-Steps Steady Steady-refl Steady-trans
              (suspect_by parse now batch id confidence) _ (suspect-Steady id confidence) s))
    | inr unset ↦ rw unset (Steady-refl s)
  ]
  suspect_ids-Steady id confidence null s = Steady-refl s
  suspect_ids-Steady id confidence v s = Steady-refl s

  pub capability-Steady : (v : Value) → Steps Steady (apply_capability parse now batch v)
  unfolding apply_capability
  capability-Steady (obj d) s =
      then_next-Steps Steady Steady-refl Steady-trans s
        (with_result (upsert s.estimated_capabilities (obj d) "capability") (keep_capabilities d) s)
        (suspect_for parse now batch d)
        (with_result-Steps Steady Steady-refl Steady-trans
          (upsert s.estimated_capabilities (obj d) "capability") (keep_capabilities d) s
          (λ vs h. log-Steady _ _))
        (suspect_ids-Steady _ _ (get "evidence_ids" d))
  capability-Steady null s = Steady-refl s
  capability-Steady v s = Steady-refl s
