-- ===== src/Dashboard/Assessed.antt =====
-- What the dashboard makes of a state document and the event that it finds.
use k3df.Base.{ℕ, ◌≡◌, refl, ◌∙◌, true, String, some, List, take, ok, text_dec}
use k3df.Base.Int.{pos}
use k3df.Json.{Value, int, str, obj, Fields, find, get, get_or, dict_of, truthy}
use k3df.Defender.Store.{document}
use k3df.Defender.Graph.Observe.{or_value}
use k3df.Defender.Service.{Service}
use k3df.Defender.Service.Context.{list_value}
use k3df.Defender.Service.Written.{Kept, defense_fields, metrics_fields, state_document}
use k3df.Dashboard.{EventFile, recent_reasoning_event, analysis_of, Reasoning, reasoning_snapshot}
use k3df.Dashboard.Shows.{bind_ok, inner_of, slice_of}

-- The assessment of a state with the parts `defense` and `metrics`, of an event and of an analysis.
abbrev assessment_with :
    Value
    → Fields
    → Fields
    → Fields
    → List Value
    → List Value
    → List Value
    → Fields
    → Fields
    → Reasoning
assessment_with no_analysis state defense metrics hypotheses watches scenarios ev analysis =
    record {
      available = truthy (obj state);
      cycle = get_or "cycle" (int (pos 0)) state;
      phase = get_or "current_phase" (str "WAITING") defense;
      threat_level = get_or "threat_level" (str "--") state;
      updated_at = get "updated_at" state;
      summary = or_value (or_value (get "summary" analysis) (get "summary" ev)) no_analysis;
      confidence = get "confidence" analysis;
      evidence_count = get_or "evidence_count" (int (pos 0)) metrics;
      hypotheses = list_value (take 4 hypotheses);
      watch_conditions = list_value (take 4 watches);
      scenarios = list_value (take 4 scenarios);
    }

reasoning_snapshot-found :
    (no_analysis : Value) (state defense metrics ev analysis : Fields)
    (hypotheses watches scenarios : List Value) (events : EventFile)
    → recent_reasoning_event events ≡ ok (some ev)
    → dict_of (analysis_of (some ev)) ≡ ok analysis
    → find "defense" state ≡ some (obj defense)
    → find "metrics" state ≡ some (obj metrics)
    → find "unresolved_hypotheses" defense ≡ some (list_value hypotheses)
    → find "watch_conditions" defense ≡ some (list_value watches)
    → find "scenarios" defense ≡ some (list_value scenarios)
    → reasoning_snapshot no_analysis (document (obj state)) events
      ≡ ok (
          assessment_with no_analysis state defense metrics hypotheses watches scenarios ev
            analysis)
unfolding reasoning_snapshot
reasoning_snapshot-found no_analysis state defense metrics ev analysis hypotheses watches scenarios
      events found read hd hm hh hw hs =
    bind_ok _ _ _ found
    ∙ bind_ok _ _ _ read
    ∙ bind_ok _ _ _ (inner_of "defense" state defense hd)
    ∙ bind_ok _ _ _ (inner_of "metrics" state metrics hm)
    ∙ bind_ok _ _ _ (slice_of 4 "unresolved_hypotheses" defense hypotheses hh)
    ∙ bind_ok _ _ _ (slice_of 4 "watch_conditions" defense watches hw)
    ∙ bind_ok _ _ _ (slice_of 4 "scenarios" defense scenarios hs)

module _ (iso : ℕ → String) (no_analysis : Value) (k : Kept) (now : String) where
  -- The assessment that is shown of a state, of an event and of an analysis.
  abbrev pub assessment : Service → Fields → Fields → Reasoning
  assessment s ev analysis = record {
    available = true;
    cycle = int (pos s.cycle);
    phase = str s.current_phase;
    threat_level = s.threat_level;
    updated_at = str now;
    summary = or_value (or_value (get "summary" analysis) (get "summary" ev)) no_analysis;
    confidence = get "confidence" analysis;
    evidence_count = int (pos s.evidence_count);
    hypotheses = list_value (take 4 s.unresolved_hypotheses);
    watch_conditions = list_value (take 4 s.watch_conditions);
    scenarios = list_value (take 4 s.scenarios);
  }

  pub reasoning_snapshot-document :
      (s : Service) (events : EventFile) (ev analysis : Fields)
      → recent_reasoning_event events ≡ ok (some ev)
      → dict_of (analysis_of (some ev)) ≡ ok analysis
      → reasoning_snapshot no_analysis (document (obj (state_document iso k now s))) events
        ≡ ok (assessment s ev analysis)
  unfolding reasoning_snapshot find text_dec truthy
  reasoning_snapshot-document s events ev analysis found read =
      reasoning_snapshot-found no_analysis (state_document iso k now s) (defense_fields iso s)
        (metrics_fields s) ev analysis s.unresolved_hypotheses s.watch_conditions s.scenarios events
        found read refl refl refl refl refl
