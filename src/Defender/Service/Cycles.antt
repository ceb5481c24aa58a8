-- ===== src/Defender/Service/Cycles.antt =====
-- A reasoning cycle is counted once, whatever the model answers and whether or not it raises.
use k3df.Base.{
  ℕ, suc, ◌≡◌, refl, ap, ◌∙◌, Bool, Bool-cases, inl, inr, String, Option, none, some, List, [], ◌∷◌,
  Result, ok, raised, Error,
}
use k3df.Base.Int.{pos}
use k3df.Json.{Value, null, int, str, obj, Fields, get, get_or, value_eq}
use k3df.Defender.Config.{Config}
use k3df.Defender.Policy.{
  Decision, allow, block, BlockRecord, validate_scenario, block_ip, active_block,
}
use k3df.Defender.Evidence.{Bucket, aggregate}
use k3df.Defender.Graph.{Node}
use k3df.Defender.Service.{
  Service, Event, log, write_event, then_next, in_order, with_result, report, contain, act, decide,
  execute_scenario, execute_scenarios, verify_block, verifying, acting, act_on, count_blocked,
  seconds, policy_event, action_event, verify_event,
}
use k3df.Defender.Service.Steps.{
  Steps, log-Steps, then_next-Steps, with_result-Steps, in_order-Steps,
}
use k3df.Defender.Service.Advice.{apply_analysis-Steady}
use k3df.Defender.Service.Advised.{Quiet}
use k3df.Defender.Service.Analysis.{list_at, analysis_at, apply_analysis}
use k3df.Defender.Service.Context.{context}
use k3df.Defender.Service.Cycle.{
  World, Moment, timed, analyze, execute_listed, use_result, think, contained, reason, note_end,
  log_end, attempt, error_event, close_cycle, start_event, empty_buffer, begin_cycle,
}

-- What the execution of scenarios leaves as it is: the counters of the cycles, and the graph.
abbrev untouched : Service → ℕ × ℕ × List Node
untouched s = (s.cycle, s.reasoning_cycle_count, s.capability_graph)

abbrev pub Untouched : Service → Service → Type 0
Untouched s t = (untouched t ≡ untouched s) × Quiet s t

Untouched-refl : (s : Service) → Untouched s s
Untouched-refl s = (refl, λ q. q)

Untouched-trans : (s t u : Service) → Untouched s t → Untouched t u → Untouched s u
Untouched-trans s t u (h, q) (k, r) = (k ∙ h, λ e. r (q e))

log-Untouched : (e : Event) → Steps Untouched (log e)
log-Untouched = log-Steps Untouched (λ s es ws q. (refl, q))

report-Untouched :
    (iso : ℕ → String) (t : ℕ) (r : BlockRecord) (scenario : Fields) (verified : Bool) (ip : Value)
    → Steps Untouched (report iso t r scenario verified ip)
report-Untouched iso t r scenario verified (str ip) s = (refl, λ q. q)
report-Untouched iso t r scenario verified null s = (refl, λ q. q)
report-Untouched iso t r scenario verified ip s = (refl, λ q. q)

verify_block-Untouched :
    (iso : ℕ → String) (t₂ : ℕ) (r : BlockRecord) (scenario : Fields)
    → Steps Untouched (verify_block iso t₂ r scenario)
verify_block-Untouched iso t₂ r scenario s =
    let (kept, verified) = active_block t₂ s.blocked_sources r.ip in
    then_next-Steps Untouched Untouched-refl Untouched-trans (verifying kept s)
      (log (verify_event r.ip verified) (verifying kept s)) (report iso t₂ r scenario verified r.ip)
      (log-Untouched (verify_event r.ip verified) (verifying kept s))
      (report-Untouched iso t₂ r scenario verified r.ip)

contain-Untouched :
    (iso : ℕ → String) (t₁ t₂ : ℕ) (scenario action : Fields)
    → Steps Untouched (contain iso t₁ t₂ scenario action)
unfolding contain
contain-Untouched iso t₁ t₂ scenario action s =
    let (listed, r) =
      block_ip t₁ s.blocked_sources (get "ip" action)
        (seconds (get_or "duration_sec" (int (pos 300)) action))
        (get_or "hypothesis" (str "defense containment") scenario) in
    then_next-Steps Untouched Untouched-refl Untouched-trans (acting listed r s)
      (log (action_event r) (acting listed r s)) (verify_block iso t₂ r scenario)
      (log-Untouched (action_event r) (acting listed r s))
      (verify_block-Untouched iso t₂ r scenario)

act-Untouched :
    (iso : ℕ → String) (t₁ t₂ : ℕ) (scenario : Fields) (v : Value)
    → Steps Untouched (act iso t₁ t₂ scenario v)
act-Untouched iso t₁ t₂ scenario (obj action) s =
    elim (Bool-cases (value_eq (get "type" action) (str "block_ip"))) [
      | inl is ↦ rw is (contain-Untouched iso t₁ t₂ scenario action s)
      | inr other ↦ rw other (refl, λ q. q)
    ]
act-Untouched iso t₁ t₂ scenario null s = (refl, λ q. q)
act-Untouched iso t₁ t₂ scenario v s = (refl, λ q. q)

act_on-Untouched :
    (iso : ℕ → String) (t₁ t₂ : ℕ) (scenario : Value) → Steps Untouched (act_on iso t₁ t₂ scenario)
act_on-Untouched iso t₁ t₂ (obj scenario) s =
    act-Untouched iso t₁ t₂ scenario (get "action" scenario) s
act_on-Untouched iso t₁ t₂ null s = (refl, λ q. q)
act_on-Untouched iso t₁ t₂ scenario s = (refl, λ q. q)

decide-Untouched :
    (iso : ℕ → String) (t₁ t₂ : ℕ) (scenario : Value) (answer : Result (Decision × String))
    → Steps Untouched (decide iso t₁ t₂ scenario answer)
decide-Untouched iso t₁ t₂ scenario (raised e) s = (refl, λ q. q)
decide-Untouched iso t₁ t₂ scenario (ok (block, reason)) s =
    let e = policy_event scenario block reason in
    then_next-Steps Untouched Untouched-refl Untouched-trans s (log e s) count_blocked
      (log-Untouched e s) (λ t. (refl, λ q. q))
decide-Untouched iso t₁ t₂ scenario (ok (allow, reason)) s =
    let e = policy_event scenario allow reason in
    then_next-Steps Untouched Untouched-refl Untouched-trans s (log e s) (act_on iso t₁ t₂ scenario)
      (log-Untouched e s) (act_on-Untouched iso t₁ t₂ scenario)

pub execute-Untouched :
    (iso : ℕ → String) (c : Config) (steps : List (ℕ × ℕ × Value))
    → Steps Untouched (execute_scenarios iso c steps)
unfolding execute_scenarios execute_scenario
execute-Untouched iso c [] s = (refl, λ q. q)
execute-Untouched iso c ((t₁, t₂, scenario) ∷ rest) s =
    then_next-Steps Untouched Untouched-refl Untouched-trans s
      (execute_scenario iso c t₁ t₂ scenario s) (execute_scenarios iso c rest)
      (decide-Untouched iso t₁ t₂ scenario (validate_scenario scenario c) s)
      (execute-Untouched iso c rest)

-- The counters of the cycles; and if all writes succeed, they still do.
abbrev cycles : Service → ℕ × ℕ
cycles s = (s.cycle, s.reasoning_cycle_count)

abbrev pub SameCycles : Service → Service → Type 0
SameCycles s t = (cycles t ≡ cycles s) × Quiet s t

SameCycles-refl : (s : Service) → SameCycles s s
SameCycles-refl s = (refl, λ q. q)

SameCycles-trans : (s t u : Service) → SameCycles s t → SameCycles t u → SameCycles s u
SameCycles-trans s t u (h, q) (k, r) = (k ∙ h, λ e. r (q e))

log-SameCycles : (e : Event) → Steps SameCycles (log e)
log-SameCycles = log-Steps SameCycles (λ s es ws q. (refl, q))

module _ (w : World) (c : Config) where
  use_result_cycles :
      (m : Moment) (batch : List Bucket) (result : Fields)
      → Steps SameCycles (use_result w c m batch result)
  use_result_cycles m batch result =
      in_order-Steps SameCycles SameCycles-refl SameCycles-trans
        (apply_analysis w.parse w.dumps m.stamp batch result
          ∷ with_result (list_at "defense_scenarios" result) (execute_listed w c m)
          ∷ note_end result
          ∷ [])
        (
          (λ s.
              let (advised, quiet) = apply_analysis-Steady w.parse w.dumps m.stamp batch result s in
              (ap (λ e. (e.cycle, e.counters.4)) advised.0, quiet)),
          (
            (λ s.
                with_result-Steps SameCycles SameCycles-refl SameCycles-trans
                  (list_at "defense_scenarios" result) (execute_listed w c m) s
                  (λ vs e.
                    let (same, quiet) = execute-Untouched w.iso c (timed m.times 0 vs) s in
                    (ap (λ q. (q.0, q.1)) same, quiet))),
            (
              (λ s.
                  with_result-Steps SameCycles SameCycles-refl SameCycles-trans
                    (analysis_at "summary" result) (log_end result) s (λ v e. log-SameCycles _ s)),
              tt,
            ),
          ),
        )

  pub contained_cycles :
      (s : Service) (r : Service × Option Error) → SameCycles s r.0 → SameCycles s (contained w r).0
  contained_cycles s (t, none) h = h
  contained_cycles s (t, some e) h =
      SameCycles-trans s t (contained w (t, some e)).0 h (log-SameCycles _ t)

  pub think_cycles : (m : Moment) (batch : List Bucket) → Steps SameCycles (think w c m batch)
  unfolding think
  think_cycles m batch s =
      with_result-Steps SameCycles SameCycles-refl SameCycles-trans
        (analyze w c (context c batch s)) (use_result w c m batch) s
        (λ result e. use_result_cycles m batch result s)

  contained_returns : (r : Service × Option Error) → r.0.writes ≡ [] → (contained w r).1 ≡ none
  contained_returns (t, none) q = refl
  contained_returns (t, some e) q = ap (λ ws. (write_event (error_event (w.message e)) ws t).1) q

  close_after :
      (finish : ℕ) (r : Service × Option Error)
      → r.1 ≡ none
      → then_next (in_order (close_cycle finish ∷ [])) r ≡ close_cycle finish r.0
  close_after finish (t, none) h = refl
  close_after finish (t, some e) h = cc

  -- If all writes succeed, a reasoning raises nothing and is counted once.
  pub reason_cycles :
      (m : Moment) (s : Service)
      → s.writes ≡ []
      → ((reason w c m s).1 ≡ none)
        × ((reason w c m s).0.cycle ≡ suc s.cycle)
        × ((reason w c m s).0.reasoning_cycle_count ≡ suc s.reasoning_cycle_count)
  unfolding reason
  reason_cycles m s q =
      let batch = aggregate 50 s.buffer in
      let begun = begin_cycle batch s in
      let thought = think w c m batch begun in
      let (counted, quiet) = think_cycles m batch begun in
      let (same, _) = contained_cycles begun thought (counted, quiet) in
      let eq =
        ap (then_next (in_order (attempt w c m batch ∷ close_cycle m.finish ∷ [])))
          (ap (λ ws. write_event (start_event batch) ws (empty_buffer s)) q)
        ∙ close_after m.finish (contained w thought) (contained_returns thought (quiet q)) in
      (
        ap (λ r. r.1) eq,
        ap (λ r. r.0.cycle) eq ∙ ap (λ n. n.0) same,
        ap (λ r. r.0.reasoning_cycle_count) eq ∙ ap (λ n. suc n.1) same,
      )
