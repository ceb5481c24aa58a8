-- ===== src/Defender/Service/Advice.antt =====
-- `apply_analysis` as a whole leaves what is enforced as it is.
use k3df.Base.{All, refl, String, Option, List, Error}
use k3df.Json.{Value, null, obj, Fields, Float}
use k3df.Defender.Evidence.{Bucket}
use k3df.Defender.Service.{Service, for_each}
use k3df.Defender.Service.Steps.{Steps, with_result-Steps, for_each-Steps, in_order-Steps}
use k3df.Defender.Service.Updates.{apply_incident, apply_capability, apply_exposure, apply_watch}
use k3df.Defender.Service.Analysis.{
  list_at, for_list, analysis_at, set_level, set_hypotheses, set_scenarios, scenarios_of,
  note_scenario, note_context, statements, apply_analysis,
}
use k3df.Defender.Service.Advised.{
  Advised, Steady, log-Steady, Steady-refl, Steady-trans, incident-Steady, watch-Steady,
  exposure-Steady, capability-Steady,
}

note_scenario-Steady : (v : Value) → Steps Steady (note_scenario v)
note_scenario-Steady (obj d) s = log-Steady _ s
note_scenario-Steady null s = Steady-refl s
note_scenario-Steady v s = Steady-refl s

for_list-Steady :
    (k : String) (f : Value → Service → Service × Option Error) (result : Fields)
    → ((v : Value) → Steps Steady (f v))
    → Steps Steady (for_list k f result)
for_list-Steady k f result h s =
    with_result-Steps Steady Steady-refl Steady-trans (list_at k result) (for_each f) s
      (λ vs e. for_each-Steps Steady Steady-refl Steady-trans f vs h s)

each_statement :
    (parse : String → Option Float) (dumps : Value → String) (now : Value) (batch : List Bucket)
    (result : Fields)
    → All (Steps Steady) (statements parse dumps now batch result)
each_statement parse dumps now batch result = (
  λ s.
      with_result-Steps Steady Steady-refl Steady-trans (analysis_at "threat_level" result)
        set_level s (λ v h. ((refl, λ i. (refl, refl)), λ q. q)),
  (
    for_list-Steady "incident_updates" apply_incident result incident-Steady,
    (
      (λ s. ((refl, λ i. (refl, refl)), λ q. q)),
      (
        for_list-Steady "capability_updates" (apply_capability parse now batch) result
            (capability-Steady parse now batch),
        (
          for_list-Steady "exposure_updates" apply_exposure result exposure-Steady,
          (
            for_list-Steady "watch_conditions" apply_watch result watch-Steady,
            (
              (λ s.
                  with_result-Steps Steady Steady-refl Steady-trans
                    (list_at "unresolved_hypotheses" result) set_hypotheses s
                    (λ v h. ((refl, λ i. (refl, refl)), λ q. q))),
              (
                (λ s.
                    with_result-Steps Steady Steady-refl Steady-trans (scenarios_of dumps result)
                      set_scenarios s (λ v h. ((refl, λ i. (refl, refl)), λ q. q))),
                (
                  (λ s.
                      for_each-Steps Steady Steady-refl Steady-trans note_scenario s.scenarios
                        note_scenario-Steady s),
                  (
                    for_list-Steady "mitre_attack_context" note_context result (λ v. log-Steady _),
                    tt,
                  ),
                ),
              ),
            ),
          ),
        ),
      ),
    ),
  ),
)

pub apply_analysis-Steady :
    (parse : String → Option Float) (dumps : Value → String) (now : Value) (batch : List Bucket)
    (result : Fields)
    → Steps Steady (apply_analysis parse dumps now batch result)
unfolding apply_analysis
apply_analysis-Steady parse dumps now batch result =
    in_order-Steps Steady Steady-refl Steady-trans (statements parse dumps now batch result)
      (each_statement parse dumps now batch result)

-- Whatever analysis the model returns, whichever writes of the event file fail, and also when
-- applying it raises: apply_analysis leaves the block list, the active actions, the phase, the
-- flag objectives, the buffer, the cycle and the counters of scenarios, actions, evidence and
-- cycles as they are; and if the capability graph has the nodes of the ontology, then it keeps
-- them, and exactly the same ones of them are confirmed.
pub apply_analysis-Advised :
    (parse : String → Option Float) (dumps : Value → String) (now : Value) (batch : List Bucket)
    (result : Fields) (s : Service)
    → Advised s (apply_analysis parse dumps now batch result s).0
apply_analysis-Advised parse dumps now batch result s =
    (apply_analysis-Steady parse dumps now batch result s).0
