-- ===== src/Defender/Service/Finished.antt =====
-- A tick that raises nothing and goes to the next cycle has reasoned, and has saved what it left.
use k3df.Base.{
  ℕ, suc, ok, [], ◌∷◌, ◌++◌, ◌≡◌, ◌≢◌, refl, ap, sym, ◌∙◌, Bool-cases, inl, inr, Bool, true, false,
  none, List, if◌then◌else◌,
}
use k3df.Json.{Value, Fields}
use k3df.Defender.Config.{Config}
use k3df.Defender.Evidence.{Evidence, Bucket, aggregate}
use k3df.Defender.Collect.Filter.{untrusted, collect-accepted}
use k3df.Defender.Service.Context.{context}
use k3df.Defender.Service.Cycles.{contained_cycles, think_cycles}
use k3df.Defender.Collect.Sources.{read_sources}
use k3df.Defender.Service.{Service, then_next, for_each, in_order}
use k3df.Defender.Service.Steps.{then_next-Steps, for_each-Steps, in_order-Steps, log-Steps}
use k3df.Defender.Service.Cycle.{
  World, Moment, reason, begin_cycle, empty_buffer, open_cycle, close_cycle, attempt, think,
  start_event,
}
use k3df.Defender.Service.Tick.{
  gather, is_due, apply_item, extend, sweep, finish_tick, tick_on, tick, save_state, store_state,
}
use k3df.Defender.Service.Completes.{
  Told, told, Waiting, Waiting-refl, Waiting-trans, apply_item-Waiting,
}
use k3df.Defender.Service.Outcome.{then_next_split, with_result_split}

store_state-saved :
    (saves : Bool) (stamp : Value) (s : Service)
    → (store_state saves stamp s).1 ≡ none
    → (store_state saves stamp s).0 ≡ save_state stamp s
store_state-saved true stamp s h = refl
store_state-saved false stamp s h = cc

-- The batch of a tick at a state that finds these items.
abbrev pub batch_of : Config → List Evidence → Service → List Bucket
batch_of c found s = aggregate 50 (s.buffer ++ untrusted c.ignore_networks found)

-- What the model is told in the cycle that this tick opens.
abbrev pub cycle_context : Config → List Evidence → Service → Fields
cycle_context c found s = context c (batch_of c found s) (record s { cycle = suc s.cycle })

abbrev brief : Service → ℕ × Told
brief s = (s.cycle, told s)

told_context : Config → List Bucket → Service → ℕ × Told → Fields
told_context c batch s (n, q) = context c batch (record s {
  cycle = suc n;
  threat_level = q.threat_level;
  active_incidents = q.active_incidents;
  estimated_capabilities = q.estimated_capabilities;
  exposure = q.exposure;
  authorized_capabilities = q.authorized_capabilities;
  unresolved_hypotheses = q.unresolved_hypotheses;
  watch_conditions = q.watch_conditions;
})

begin_cycle-context :
    (c : Config) (batch : List Bucket) (s x : Service)
    → brief x ≡ brief s
    → context c batch (begin_cycle batch x) ≡ context c batch (record s { cycle = suc s.cycle })
unfolding context told_context
begin_cycle-context c batch s x e = ap (told_context c batch s) e

gather-accepted :
    (c : Config) (es : List Evidence) (s : Service)
    → (gather c es s).2 ≡ none
    → (gather c es s).0 ≡ untrusted c.ignore_networks es
unfolding gather
gather-accepted c es s h = collect-accepted c.ignore_networks es _ h

SameCycle : Service → Service → Type 0
SameCycle s t = t.cycle ≡ s.cycle

-- A reasoning opens the next cycle, also where it raises.
reason-cycle :
    (w : World) (c : Config) (m : Moment) (s : Service) → (reason w c m s).0.cycle ≡ suc s.cycle
unfolding reason SameCycle
reason-cycle w c m s =
    let batch = aggregate 50 s.buffer in
    let same : (s : Service) → SameCycle s s = λ s. refl in
    let trans : (s t u : Service) → SameCycle s t → SameCycle t u → SameCycle s u =
      λ s t u h k. k ∙ h in
    then_next-Steps SameCycle same trans (empty_buffer s) (open_cycle batch s)
      (in_order (attempt w c m batch ∷ close_cycle m.finish ∷ []))
      (log-Steps SameCycle (λ s es ws q. refl) (start_event batch) (empty_buffer s))
      (in_order-Steps SameCycle same trans (attempt w c m batch ∷ close_cycle m.finish ∷ []) (
        (λ t.
            ap (λ n. n.0)
              (contained_cycles w c t (think w c m batch t) (think_cycles w c m batch t)).0),
        ((λ t. refl), tt),
      ))

module _ (w : World) (c : Config) (m : Moment) (s : Service) where
  tick_finishes :
      (tick w c m s).1 ≡ none
      → (found : List Evidence) × ((read_sources w.library c m.stamp m.log m.scan s.runtime
            s.scanner_mtime).2
          ≡ ok found)
        × (t : Service) × (brief t ≡ brief s)
        × (t.buffer ≡ s.buffer)
        × (tick w c m s ≡ finish_tick w c m (untrusted c.ignore_networks found) t)
  unfolding tick tick_on gather
  tick_finishes h =
      let sources = read_sources w.library c m.stamp m.log m.scan s.runtime s.scanner_mtime in
      let s₀ = record s { runtime = sources.0; scanner_mtime = sources.1 } in
      let (found, read, e₀) = with_result_split sources.2 (tick_on w c m) s₀ h in
      let (collected, s₁, e) = gather c found s₀ in
      let returned = ap (λ r. r.1) (sym e₀) ∙ h in
      let items = then_next (for_each (apply_item w) collected) (s₁, e) in
      let (ran, e₁) = then_next_split items (finish_tick w c m collected) returned in
      let (gathered, _) = then_next_split (s₁, e) (for_each (apply_item w) collected) ran in
      let taken = gather-accepted c found s₀ gathered in
      let kept =
        then_next-Steps Waiting Waiting-refl Waiting-trans s₁ (s₁, e)
          (for_each (apply_item w) collected) (Waiting-refl s₁)
          (for_each-Steps Waiting Waiting-refl Waiting-trans (apply_item w) collected
            (apply_item-Waiting w c)) in
      (
        found,
        read,
        items.0,
        ap (λ q. (q.0, q.5)) kept,
        ap (λ q. q.2) kept,
        e₀ ∙ e₁ ∙ ap (λ es. finish_tick w c m es items.0) taken,
      )

  pub tick_reasons :
      (tick w c m s).1 ≡ none
      → (tick w c m s).0.cycle ≢ s.cycle
      → (found : List Evidence) × ((read_sources w.library c m.stamp m.log m.scan s.runtime
            s.scanner_mtime).2
          ≡ ok found)
        × (x : Service) × (context c (aggregate 50 x.buffer) (begin_cycle (aggregate 50 x.buffer) x)
            ≡ cycle_context c found s)
        × ((reason w c m x).1 ≡ none)
        × ((tick w c m s).0 ≡ save_state m.stamp (reason w c m x).0)
        × ((tick w c m s).0.cycle ≡ suc s.cycle)
  tick_reasons h next =
      let (found, read, t, same, waits, e) = tick_finishes h in
      let x = sweep m.now (extend (untrusted c.ignore_networks found) t) in
      let kept = if is_due c m.start x then reason w c m x else (x, none) in
      let (fine, e₁) =
        then_next_split kept (store_state m.saves m.stamp) (ap (λ r. r.1) (sym e) ∙ h) in
      let stored = store_state-saved m.saves m.stamp kept.0 (ap (λ r. r.1) (sym (e ∙ e₁)) ∙ h) in
      let saved = ap (λ r. r.0) (e ∙ e₁) ∙ stored in
      let brief =
        begin_cycle-context c (aggregate 50 x.buffer) s x same
        ∙ ap
            (λ es.
              context c (aggregate 50 (es ++ untrusted c.ignore_networks found))
                (record s { cycle = suc s.cycle }))
            waits in
      elim (Bool-cases (is_due c m.start x)) [
        | inl due ↦
            let kept_state = rw due at saved in
            (
              found,
              read,
              x,
              brief,
              rw due at fine,
              kept_state,
              ap (λ t. t.cycle) kept_state ∙ reason-cycle w c m x ∙ ap (λ q. suc q.0) same,
            )
        | inr early ↦ absurd (next (ap (λ t. t.cycle) saved ∙ rw early (ap (λ q. q.0) same)))
      ]
