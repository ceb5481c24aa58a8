-- ===== src/Defender/Service/Lasting.antt =====
-- The capability graph over whole runs: no evidence, no answer of the model and no request takes a
-- confirmation back.
use k3df.Base.{
  ℕ, ◌≡◌, ap, ◌∙◌, Bool, true, false, Bool-cases, inl, inr, if◌then◌else◌, String, Option, none,
  some, List, [], ◌∷◌, Error, ◌==◌,
}
use k3df.Json.{Value, Fields}
use k3df.Defender.Config.{Config}
use k3df.Defender.Evidence.{Evidence, Bucket, aggregate, evidence_fields}
use k3df.Defender.Graph.{graph_value}
use k3df.Defender.Graph.Observe.{apply_system_evidence}
use k3df.Defender.Graph.Suspect.{IsOntology}
use k3df.Defender.Graph.Lasting.{
  StaysConfirmed, StaysConfirmed-refl, StaysConfirmed-trans, StaysConfirmed-of_same,
  apply_system_evidence-StaysConfirmed,
}
use k3df.Defender.Service.{Service, Event, log, then_next, in_order, with_result, for_each, auth}
use k3df.Defender.Service.Steps.{
  Steps, log-Steps, then_next-Steps, with_result-Steps, for_each-Steps, in_order-Steps,
}
use k3df.Defender.Service.Updates.{keep_graph}
use k3df.Defender.Service.Context.{context, raw_key}
use k3df.Defender.Service.Analysis.{list_at, analysis_at, apply_analysis}
use k3df.Defender.Service.Advice.{apply_analysis-Advised}
use k3df.Defender.Service.Cycles.{execute-Untouched}
use k3df.Defender.Service.Cycle.{
  World, Moment, timed, analyze, execute_listed, use_result, think, contained, open_cycle, reason,
  note_end, log_end, end_of, attempt, close_cycle, start_event, empty_buffer, error_event,
}
use k3df.Defender.Service.Tick.{
  gather, is_due, apply_graph, apply_flag, apply_item, keep_flags, extend, sweep, store_state,
  finish_tick, tick_on, tick, do_get,
}
use k3df.Defender.Service.Run.{Turn, tick_turn, request, turn, run}

-- A graph of the ontology's nodes keeps them, and keeps the confirmed ones confirmed.
abbrev pub Lasting : Service → Service → Type 0
Lasting s t = IsOntology s.capability_graph → StaysConfirmed s.capability_graph t.capability_graph

Lasting-refl : (s : Service) → Lasting s s
Lasting-refl s i = StaysConfirmed-refl s.capability_graph

Lasting-trans : (s t u : Service) → Lasting s t → Lasting t u → Lasting s u
Lasting-trans s t u f g i =
    StaysConfirmed-trans s.capability_graph t.capability_graph u.capability_graph (f i)
      (g ((f i).0 ∙ i))

Lasting-of_same : (s t : Service) → t.capability_graph ≡ s.capability_graph → Lasting s t
Lasting-of_same s t e i = rw e (StaysConfirmed-refl s.capability_graph)

log-Lasting : (e : Event) → Steps Lasting (log e)
log-Lasting = log-Steps Lasting (λ s es ws q. Lasting-refl s)

module _ (w : World) (c : Config) where
  use_result-Lasting :
      (m : Moment) (batch : List Bucket) (result : Fields)
      → Steps Lasting (use_result w c m batch result)
  use_result-Lasting m batch result =
      in_order-Steps Lasting Lasting-refl Lasting-trans
        (apply_analysis w.parse w.dumps m.stamp batch result
          ∷ with_result (list_at "defense_scenarios" result) (execute_listed w c m)
          ∷ note_end result
          ∷ [])
        (
          (λ s i.
              StaysConfirmed-of_same _ _
                ((apply_analysis-Advised w.parse w.dumps m.stamp batch result s).1 i)),
          (
            (λ s.
                with_result-Steps Lasting Lasting-refl Lasting-trans
                  (list_at "defense_scenarios" result) (execute_listed w c m) s
                  (λ vs e.
                    Lasting-of_same s (execute_listed w c m vs s).0
                      (ap (λ q. q.2) (execute-Untouched w.iso c (timed m.times 0 vs) s).0))),
            (
              (λ s.
                  with_result-Steps Lasting Lasting-refl Lasting-trans
                    (analysis_at "summary" result) (log_end result) s
                    (λ v e. log-Lasting (end_of result v) s)),
              tt,
            ),
          ),
        )

  contained-Lasting :
      (s : Service) (r : Service × Option Error) → Lasting s r.0 → Lasting s (contained w r).0
  contained-Lasting s (t, none) h = h
  contained-Lasting s (t, some e) h =
      Lasting-trans s t (contained w (t, some e)).0 h (log-Lasting (error_event (w.message e)) t)

  think-Lasting : (m : Moment) (batch : List Bucket) → Steps Lasting (think w c m batch)
  unfolding think
  think-Lasting m batch s =
      with_result-Steps Lasting Lasting-refl Lasting-trans (analyze w c (context c batch s))
        (use_result w c m batch) s (λ result e. use_result-Lasting m batch result s)

  reason-Lasting : (m : Moment) → Steps Lasting (reason w c m)
  unfolding reason
  reason-Lasting m s =
      let batch = aggregate 50 s.buffer in
      then_next-Steps Lasting Lasting-refl Lasting-trans (empty_buffer s) (open_cycle batch s)
        (in_order (attempt w c m batch ∷ close_cycle m.finish ∷ []))
        (log-Lasting (start_event batch) (empty_buffer s))
        (in_order-Steps Lasting Lasting-refl Lasting-trans
          (attempt w c m batch ∷ close_cycle m.finish ∷ [])
          (
            (λ t. contained-Lasting t (think w c m batch t) (think-Lasting m batch t)),
            ((λ t. Lasting-refl t), tt),
          ))

  maybe_reason-Lasting :
      (m : Moment) (due : Bool) (s : Service)
      → Lasting s (if due then reason w c m s else (s, none)).0
  maybe_reason-Lasting m true s = reason-Lasting m s
  maybe_reason-Lasting m false s = Lasting-refl s

  store-Lasting : (saves : Bool) (stamp : Value) → Steps Lasting (store_state saves stamp)
  store-Lasting true stamp s = Lasting-refl s
  store-Lasting false stamp s = Lasting-refl s

  finish-Lasting :
      (m : Moment) (collected : List Evidence) → Steps Lasting (finish_tick w c m collected)
  finish-Lasting m collected s =
      let s₁ = sweep m.now (extend collected s) in
      then_next-Steps Lasting Lasting-refl Lasting-trans s₁
        (if is_due c m.start s₁ then reason w c m s₁ else (s₁, none)) (store_state m.saves m.stamp)
        (maybe_reason-Lasting m (is_due c m.start s₁) s₁) (store-Lasting m.saves m.stamp)

  item-Lasting : (e : Evidence) → Steps Lasting (apply_item w e)
  unfolding apply_graph apply_flag
  item-Lasting e =
      in_order-Steps Lasting Lasting-refl Lasting-trans (apply_graph w e ∷ apply_flag w e ∷ []) (
        (λ s.
            let d = evidence_fields (raw_key e) e in
            with_result-Steps Lasting Lasting-refl Lasting-trans
              (apply_system_evidence w.parse (graph_value s.capability_graph) d) keep_graph s
              (λ ns h i. apply_system_evidence-StaysConfirmed w.parse s.capability_graph ns i d h)),
        (
          (λ s.
              with_result-Steps Lasting Lasting-refl Lasting-trans _ keep_flags s
                (λ v h. Lasting-refl s)),
          tt,
        ),
      )

  tick_on-Lasting : (m : Moment) (found : List Evidence) → Steps Lasting (tick_on w c m found)
  unfolding tick_on gather
  tick_on-Lasting m found s =
      let (collected, s₁, e) = gather c found s in
      then_next-Steps Lasting Lasting-refl Lasting-trans s₁
        (then_next (for_each (apply_item w) collected) (s₁, e)) (finish_tick w c m collected)
        (then_next-Steps Lasting Lasting-refl Lasting-trans s₁ (s₁, e)
          (for_each (apply_item w) collected) (Lasting-refl s₁)
          (for_each-Steps Lasting Lasting-refl Lasting-trans (apply_item w) collected item-Lasting))
        (finish-Lasting m collected)

  tick-Lasting : (m : Moment) → Steps Lasting (tick w c m)
  unfolding tick
  tick-Lasting m s =
      with_result-Steps Lasting Lasting-refl Lasting-trans _ (tick_on w c m) _
        (λ found e. tick_on-Lasting m found _)

  request-Lasting :
      (now : ℕ) (path : String) (header : Option String) (s : Service)
      → Lasting s (do_get now path header s).0
  unfolding do_get auth
  request-Lasting now path header s = elim (Bool-cases (path == "/nginx/auth")) [
    | inl auth ↦ rw auth (Lasting-refl s)
    | inr other ↦ elim (Bool-cases (path == "/health")) [
      | inl health ↦ rw (other, health) (Lasting-refl s)
      | inr missing ↦ rw (other, missing) (Lasting-refl s)
    ]
  ]

  turn-Lasting : (t : Turn) → Steps Lasting (turn w c t)
  unfolding turn
  turn-Lasting (tick_turn m) s = tick-Lasting m s
  turn-Lasting (request now path header) s = request-Lasting now path header s

  -- Over any run of ticks and requests, in any order, whatever the sources hold, the model
  -- answers and the requests ask, whichever writes fail, and also when a tick ends the run with
  -- an exception: if the capability graph has the nodes of the ontology, then it has them after
  -- the run, and every node that was confirmed still is.
  pub run-StaysConfirmed :
      (turns : List Turn) (s : Service)
      → IsOntology s.capability_graph
      → StaysConfirmed s.capability_graph (run w c turns s).0.capability_graph
  unfolding run
  run-StaysConfirmed turns s =
      for_each-Steps Lasting Lasting-refl Lasting-trans (turn w c) turns turn-Lasting s
