-- ===== src/Defender/Service/Permitted.antt =====
-- The block list over whole runs: no answer of the model, no evidence and no request brings a
-- protected address into it.
use k3df.Base.{
  ℕ, ap, Bool, true, false, if◌then◌else◌, Bool-cases, inl, inr, String, Option, none, some, List,
  [], ◌∷◌, All, Error, ◌==◌,
}
use k3df.Json.{Value, str, Fields}
use k3df.Defender.Config.{Config}
use k3df.Defender.Policy.{BlockRecord, active_block}
use k3df.Defender.Evidence.{Evidence, Bucket, aggregate}
use k3df.Defender.Service.{Service, Event, log, then_next, in_order, with_result, for_each, auth}
use k3df.Defender.Service.Contain.{
  IsPermitted, AllPermitted, unexpired-All, execute_scenarios-AllPermitted,
}
use k3df.Defender.Service.Steps.{
  Steps, log-Steps, then_next-Steps, with_result-Steps, for_each-Steps, in_order-Steps,
}
use k3df.Defender.Service.Advice.{apply_analysis-Advised}
use k3df.Defender.Service.Analysis.{list_at, analysis_at, apply_analysis}
use k3df.Defender.Service.Updates.{keep_graph}
use k3df.Defender.Service.Context.{context}
use k3df.Defender.Service.Cycle.{
  World, Moment, timed, analyze, execute_listed, use_result, think, contained, open_cycle, reason,
  note_end, log_end, end_of, attempt, close_cycle, start_event, empty_buffer, error_event,
}
use k3df.Defender.Service.Tick.{
  gather, is_due, apply_graph, apply_flag, apply_item, header_or, extend, sweep, finish_tick,
  tick_on, tick, do_get, keep_flags, store_state,
}
use k3df.Defender.Service.Run.{Turn, tick_turn, request, turn, run}

module _ (c : Config) where
  -- The block list stays permitted.
  abbrev Safe : Service → Service → Type 0
  Safe s t = AllPermitted c s → AllPermitted c t

  Safe-refl : (s : Service) → Safe s s
  Safe-refl s h = h

  Safe-trans : (s t u : Service) → Safe s t → Safe t u → Safe s u
  Safe-trans s t u f g h = g (f h)

  log-Safe : (e : Event) → Steps Safe (log e)
  log-Safe = log-Steps Safe (λ s es ws q h. h)

  active_block-Safe :
      (now : ℕ) (ip : Value) (bs : List BlockRecord)
      → All (IsPermitted c) bs
      → All (IsPermitted c) (active_block now bs ip).0
  unfolding active_block
  active_block-Safe now ip bs h = unexpired-All (IsPermitted c) now bs h

  module _ (w : World) where
    analysis-Safe :
        (now : Value) (batch : List Bucket) (result : Fields)
        → Steps Safe (apply_analysis w.parse w.dumps now batch result)
    analysis-Safe now batch result s h =
        rw
          (ap (λ e. e.blocked_sources)
            (apply_analysis-Advised w.parse w.dumps now batch result s).0)
          h

    statements-Safe :
        (m : Moment) (batch : List Bucket) (result : Fields)
        → Steps Safe (use_result w c m batch result)
    statements-Safe m batch result =
        in_order-Steps Safe Safe-refl Safe-trans
          (apply_analysis w.parse w.dumps m.stamp batch result
            ∷ with_result (list_at "defense_scenarios" result) (execute_listed w c m)
            ∷ note_end result
            ∷ [])
          (
            analysis-Safe m.stamp batch result,
            (
              λ s.
                  with_result-Steps Safe Safe-refl Safe-trans (list_at "defense_scenarios" result)
                    (execute_listed w c m) s
                    (λ vs e. execute_scenarios-AllPermitted w.iso c (timed m.times 0 vs) s),
              (
                λ s.
                    with_result-Steps Safe Safe-refl Safe-trans (analysis_at "summary" result)
                      (log_end result) s (λ v e. log-Safe (end_of result v) s),
                tt,
              ),
            ),
          )

    think-Safe : (m : Moment) (batch : List Bucket) → Steps Safe (think w c m batch)
    unfolding think
    think-Safe m batch s =
        with_result-Steps Safe Safe-refl Safe-trans (analyze w c (context c batch s))
          (use_result w c m batch) s (λ result e. statements-Safe m batch result s)

    contained-Safe :
        (s : Service) (r : Service × Option Error) → Safe s r.0 → Safe s (contained w r).0
    contained-Safe s (t, none) h = h
    contained-Safe s (t, some e) h =
        Safe-trans s t (contained w (t, some e)).0 h (log-Safe (error_event (w.message e)) t)

    reason-Safe : (m : Moment) → Steps Safe (reason w c m)
    unfolding reason
    reason-Safe m s =
        let batch = aggregate 50 s.buffer in
        then_next-Steps Safe Safe-refl Safe-trans (empty_buffer s) (open_cycle batch s)
          (in_order (attempt w c m batch ∷ close_cycle m.finish ∷ []))
          (log-Safe (start_event batch) (empty_buffer s))
          (in_order-Steps Safe Safe-refl Safe-trans
            (attempt w c m batch ∷ close_cycle m.finish ∷ [])
            (
              (λ t. contained-Safe t (think w c m batch t) (think-Safe m batch t)),
              ((λ t h. h), tt),
            ))

    item-Safe : (e : Evidence) → Steps Safe (apply_item w e)
    unfolding apply_graph apply_flag
    item-Safe e = in_order-Steps Safe Safe-refl Safe-trans (apply_graph w e ∷ apply_flag w e ∷ []) (
      (λ s. with_result-Steps Safe Safe-refl Safe-trans _ keep_graph s (λ v e h. h)),
      ((λ s. with_result-Steps Safe Safe-refl Safe-trans _ keep_flags s (λ v e h. h)), tt),
    )

    maybe_reason-Safe :
        (m : Moment) (due : Bool) (s : Service)
        → Safe s (if due then reason w c m s else (s, none)).0
    maybe_reason-Safe m true s h = reason-Safe m s h
    maybe_reason-Safe m false s h = h

    store-Safe : (saves : Bool) (stamp : Value) → Steps Safe (store_state saves stamp)
    store-Safe true stamp s h = h
    store-Safe false stamp s h = h

    finish-Safe :
        (m : Moment) (collected : List Evidence) → Steps Safe (finish_tick w c m collected)
    finish-Safe m collected s h =
        let s₁ = sweep m.now (extend collected s) in
        then_next-Steps Safe Safe-refl Safe-trans s₁
          (if is_due c m.start s₁ then reason w c m s₁ else (s₁, none))
          (store_state m.saves m.stamp) (maybe_reason-Safe m (is_due c m.start s₁) s₁)
          (store-Safe m.saves m.stamp) (active_block-Safe m.now (str "0.0.0.0") s.blocked_sources h)

    tick_on-Safe : (m : Moment) (found : List Evidence) → Steps Safe (tick_on w c m found)
    unfolding tick_on gather
    tick_on-Safe m found s h =
        let (collected, s₁, e) = gather c found s in
        then_next-Steps Safe Safe-refl Safe-trans s₁
          (then_next (for_each (apply_item w) collected) (s₁, e)) (finish_tick w c m collected)
          (then_next-Steps Safe Safe-refl Safe-trans s₁ (s₁, e) (for_each (apply_item w) collected)
            (Safe-refl s₁)
            (for_each-Steps Safe Safe-refl Safe-trans (apply_item w) collected item-Safe))
          (finish-Safe m collected) h

    tick-Safe : (m : Moment) → Steps Safe (tick w c m)
    unfolding tick
    tick-Safe m s =
        with_result-Steps Safe Safe-refl Safe-trans _ (tick_on w c m) _
          (λ found e. tick_on-Safe m found _)

    request-Safe :
        (now : ℕ) (path : String) (header : Option String) (s : Service)
        → Safe s (do_get now path header s).0
    unfolding do_get auth
    request-Safe now path header s h = elim (Bool-cases (path == "/nginx/auth")) [
      | inl auth ↦ rw auth (active_block-Safe now (str (header_or "" header)) s.blocked_sources h)
      | inr other ↦ elim (Bool-cases (path == "/health")) [
        | inl health ↦ rw (other, health) h
        | inr missing ↦ rw (other, missing) h
      ]
    ]

    turn-Safe : (t : Turn) → Steps Safe (turn w c t)
    unfolding turn
    turn-Safe (tick_turn m) s = tick-Safe m s
    turn-Safe (request now path header) s = request-Safe now path header s

    -- Over any run of ticks and requests, in any order, whatever the sources hold, the model
    -- answers and the requests ask, whichever writes fail, and also when a tick ends the run
    -- with an exception: if every entry of the block list is for an address outside the
    -- protected networks, then so is every entry after the run.
    pub run-AllPermitted :
        (turns : List Turn) (s : Service) → AllPermitted c s → AllPermitted c (run w c turns s).0
    unfolding run
    run-AllPermitted turns s = for_each-Steps Safe Safe-refl Safe-trans (turn w c) turns turn-Safe s
