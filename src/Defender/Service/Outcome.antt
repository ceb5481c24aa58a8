-- ===== src/Defender/Service/Outcome.antt =====
-- How a reasoning cycle ends: the last event tells what the model answered, or that it failed.
use k3df.Base.{
  ℕ, ◌≡◌, refl, ap, sym, ◌∙◌, ◌⊎◌, inl, inr, Bool, true, false, subst, String, Option, none, some,
  List, [], ◌∷◌, ◌++◌, Result, ok, raised, ok_inj, key_error, type_error, Error,
}
use k3df.Json.Laws.{get_of_find}
use k3df.Json.{Value, null, obj, Fields, find}
use k3df.Defender.Config.{Config}
use k3df.Defender.Evidence.{Bucket, aggregate}
use k3df.Defender.Service.{Service, Event, log, write_event, note, then_next, with_result, in_order}
use k3df.Defender.Service.Analysis.{list_at, analysis_at, apply_analysis}
use k3df.Defender.Service.Context.{context}
use k3df.Defender.Service.Cycle.{
  World, Moment, analyze, execute_listed, use_result, think, contained, open_cycle, close_cycle,
  reason, note_end, log_end, attempt, begin_cycle, start_event, empty_buffer, error_event,
}

-- A call of REASONING_END for an analysis.
abbrev pub end_event : Fields → Value → Event
end_event analysis summary = note "REASONING_END" summary (obj analysis) null

-- The analysis of a result that the model gave for the context, with its summary.
pub record Answered (w : World) (c : Config) (d : Fields) (analysis : Fields) (summary : Value)
    : Type 0 where
  pub result : Fields
  pub answer : analyze w c d ≡ ok result
  pub has_analysis : find "analysis" result ≡ some (obj analysis)
  pub has_summary : find "summary" analysis ≡ some summary

pub then_next_split :
    (r : Service × Option Error) (next : Service → Service × Option Error)
    → (then_next next r).1 ≡ none
    → (r.1 ≡ none) × (then_next next r ≡ next r.0)
then_next_split (s, none) next h = (refl, refl)
then_next_split (s, some e) next h = cc

pub with_result_split :
    {A : Type 0} (r : Result A) (next : A → Service → Service × Option Error) (s : Service)
    → (with_result r next s).1 ≡ none
    → (a : A) × (r ≡ ok a) × (with_result r next s ≡ next a s)
with_result_split (raised e) next s h = cc
with_result_split (ok a) next s h = (a, refl, refl)

module _ (result : Fields) (v : Value) where
  summary_in :
      (d : Fields) (o : Option Value)
      → find "summary" d ≡ o
      → elim o as (λ o. Result Value) [ none ↦ raised key_error | some v ↦ ok v ] ≡ ok v
      → find "summary" d ≡ some v
  summary_in d none e h = cc
  summary_in d (some x) e h = e ∙ ap some (ok_inj h)

  analysis_in :
      (o : Option Value)
      → find "analysis" result ≡ o
      → elim o as (λ o. Result Value) [
        | none ↦ raised key_error
        | some (obj analysis) ↦ elim (find "summary" analysis) [
          | none ↦ raised key_error
          | some v ↦ ok v
        ]
        | some _ ↦ raised type_error
      ]
        ≡ ok v
      → (d : Fields) × (find "analysis" result ≡ some (obj d)) × (find "summary" d ≡ some v)
  analysis_in none e h = cc
  analysis_in (some (obj d)) e h = (d, e, summary_in d (find "summary" d) refl h)
  analysis_in (some null) e h = cc
  analysis_in (some x) e h = cc

  summary_found :
      analysis_at "summary" result ≡ ok v
      → (d : Fields) × (find "analysis" result ≡ some (obj d)) × (find "summary" d ≡ some v)
  summary_found h = analysis_in (find "analysis" result) refl h

-- The call of an event is the last one of the state.
abbrev pub EndsWith : ℕ → Event → Service → Type 0
EndsWith cycle e s = (es : List (ℕ × Event)) × (s.events ≡ es ++ ((cycle, e) ∷ []))

-- A call that raises nothing has written its event last.
written_last :
    (e : Event) (ws : List Bool) (s : Service)
    → (write_event e ws s).1 ≡ none
    → EndsWith (write_event e ws s).0.cycle e (write_event e ws s).0
written_last e [] s h = (s.events, refl)
written_last e (true ∷ ws) s h = (s.events, refl)
written_last e (false ∷ ws) s h = cc

then_nothing :
    (r : Service × Option Error)
    → (then_next (in_order []) r).1 ≡ none
    → then_next (in_order []) r ≡ r
then_nothing (s, none) h = refl
then_nothing (s, some e) h = refl

-- If statements run to their end, then the last of them has given the result.
end_of_order :
    (fs : List (Service → Service × Option Error)) (f : Service → Service × Option Error)
    (s : Service)
    → (in_order (fs ++ (f ∷ [])) s).1 ≡ none
    → (t : Service) × (in_order (fs ++ (f ∷ [])) s ≡ f t)
end_of_order [] f s h = (s, then_nothing (f s) h)
end_of_order (g ∷ fs) f s h =
    let (_, e) = then_next_split (g s) (in_order (fs ++ (f ∷ []))) h in
    let (t, e') = end_of_order fs f (g s).0 (ap (λ r. r.1) (sym e) ∙ h) in (t, e ∙ e')

module _ (w : World) (c : Config) (m : Moment) where
  note_end_returns :
      (result : Fields) (t : Service)
      → (note_end result t).1 ≡ none
      → (d : Fields) × (v : Value) × (find "analysis" result ≡ some (obj d))
        × (find "summary" d ≡ some v)
        × (note_end result t ≡ log (end_event d v) t)
  note_end_returns result t h =
      let (v, found, e) = with_result_split (analysis_at "summary" result) (log_end result) t h in
      let (d, has_analysis, has_summary) = summary_found result v found in
      (
        d,
        v,
        has_analysis,
        has_summary,
        e
            ∙ ap (λ a. log (note "REASONING_END" v a null) t)
                (get_of_find "analysis" result (obj d) has_analysis),
      )

  -- A round of reasoning that raises nothing has read a summary, and has logged it last.
  think_returns :
      (batch : List Bucket) (s : Service)
      → (think w c m batch s).1 ≡ none
      → (d : Fields) × (v : Value) × (t : Service) × Answered w c (context c batch s) d v
        × (think w c m batch s ≡ log (end_event d v) t)
  unfolding think
  think_returns batch s h =
      let (result, answer, e₀) =
        with_result_split (analyze w c (context c batch s)) (use_result w c m batch) s h in
      let h₀ : (use_result w c m batch result s).1 ≡ none = ap (λ r. r.1) (sym e₀) ∙ h in
      let (t, e₁) =
        end_of_order
          (apply_analysis w.parse w.dumps m.stamp batch result
            ∷ with_result (list_at "defense_scenarios" result) (execute_listed w c m)
            ∷ [])
          (note_end result) s h₀ in
      let (d, v, has_analysis, has_summary, e₂) =
        note_end_returns result t (ap (λ r. r.1) (sym e₁) ∙ h₀) in
      (
        d,
        v,
        t,
        record {
          result = result;
          answer = answer;
          has_analysis = has_analysis;
          has_summary = has_summary;
        },
        e₀ ∙ e₁ ∙ e₂,
      )

  -- The call that ends a reasoning cycle.
  abbrev pub Outcome : List Bucket → Service → Service → Type 0
  Outcome batch s t =
      ((d : Fields) × (v : Value) × Answered w c (context c batch (begin_cycle batch s)) d v
        × EndsWith t.cycle (end_event d v) t)
      ⊎ ((message : String) × EndsWith t.cycle (error_event message) t)

  context_begun :
      (batch : List Bucket) (s : Service) (ws : List Bool)
      → context c batch (write_event (start_event batch) ws (empty_buffer s)).0
        ≡ context c batch (begin_cycle batch s)
  unfolding context
  context_begun batch s [] = refl
  context_begun batch s (true ∷ ws) = refl
  context_begun batch s (false ∷ ws) = refl

  outcome_by :
      (batch : List Bucket) (s : Service) (r : Service × Option Error)
      → think w c m batch (open_cycle batch s).0 ≡ r
      → (contained w r).1 ≡ none
      → Outcome batch s (contained w r).0
  outcome_by batch s (t, some e) h returned =
      inr (w.message e, written_last (error_event (w.message e)) t.writes t returned)
  outcome_by batch s (t, none) h returned =
      let (d, v, u, answered, logged) =
        think_returns batch (open_cycle batch s).0 (ap (λ r. r.1) h) in
      let same : (t, none) ≡ log (end_event d v) u = sym h ∙ logged in
      let ends = written_last (end_event d v) u.writes u (sym (ap (λ r. r.1) same)) in
      inl (
        d,
        v,
        subst (λ f. Answered w c f d v) (context_begun batch s s.writes) answered,
        subst (λ t. EndsWith t.cycle (end_event d v) t) (sym (ap (λ r. r.0) same)) ends,
      )

  -- A reasoning that raises nothing has ended with one of the two calls.
  pub reason-Outcome :
      (s : Service)
      → (reason w c m s).1 ≡ none
      → Outcome (aggregate 50 s.buffer) s (reason w c m s).0
  unfolding reason
  reason-Outcome s h =
      let batch = aggregate 50 s.buffer in
      let b = (open_cycle batch s).0 in
      let body = in_order (attempt w c m batch ∷ close_cycle m.finish ∷ []) in
      let (_, e₀) = then_next_split (open_cycle batch s) body h in
      let tried = attempt w c m batch b in
      let (fine, e₁) =
        then_next_split tried (in_order (close_cycle m.finish ∷ [])) (ap (λ r. r.1) (sym e₀) ∙ h) in
      subst (λ r. Outcome batch s r.0) (sym (e₀ ∙ e₁))
        (outcome_by batch s (think w c m batch b) refl fine)
