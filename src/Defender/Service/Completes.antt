-- ===== src/Defender/Service/Completes.antt =====
-- A tick on plain evidence runs to its end, whatever the model answers, and counts its cycle.
use k3df.Base.{
  ℕ, suc, String, leb, ◌+◌, ◌*◌, ◌≡◌, refl, ap, sym, ◌∙◌, Bool, false, Bool-cases, inl, inr, Option,
  none, some, List, [], ◌∷◌, ◌++◌, All, ok, Error, os_error, if◌then◌else◌,
}
use k3df.Json.{Value}
use k3df.Defender.Address.{Network}
use k3df.Defender.Config.{Config}
use k3df.Defender.Evidence.{Evidence}
use k3df.Defender.Collect.{Collected, is_trusted, follow}
use k3df.Defender.Collect.Filter.{append_nil, untrusted, collect-untrusted}
use k3df.Defender.Collect.Sources.{access_log, scanner_result, read_sources}
use k3df.Defender.Service.Lines.{access_items-IsPlain}
use k3df.Defender.Service.{Service, Event, saved, then_next, for_each}
use k3df.Defender.Service.Steps.{
  Steps, then_next-Steps, with_result-Steps, for_each-Steps, in_order-Steps,
}
use k3df.Defender.Service.Updates.{keep_graph}
use k3df.Defender.Service.Cycle.{World, Moment, reason}
use k3df.Defender.Service.Tick.{
  gather, is_due, apply_graph, apply_flag, apply_item, extend, sweep, finish_tick, tick_on, tick,
  keep_flags, store_state,
}
use k3df.Defender.Service.Plain.{IsPlain, apply_items-none}
use k3df.Defender.Service.Cycles.{reason_cycles}

-- What the model is told of the state.
pub record Told : Type 0 where
  pub threat_level : Value
  pub active_incidents : List Value
  pub estimated_capabilities : List Value
  pub exposure : List (String × List Value)
  pub authorized_capabilities : Value
  pub unresolved_hypotheses : List Value
  pub watch_conditions : List Value

abbrev pub told : Service → Told
told s = record {
  threat_level = s.threat_level;
  active_incidents = s.active_incidents;
  estimated_capabilities = s.estimated_capabilities;
  exposure = s.exposure;
  authorized_capabilities = s.authorized_capabilities;
  unresolved_hypotheses = s.unresolved_hypotheses;
  watch_conditions = s.watch_conditions;
}

-- What the loop over the items leaves as it is.
abbrev pub waiting : Service → ℕ × ℕ × List Evidence × ℕ × List Bool × Told
waiting s = (s.cycle, s.reasoning_cycle_count, s.buffer, s.last_reasoning, s.writes, told s)

abbrev pub Waiting : Service → Service → Type 0
Waiting s t = waiting t ≡ waiting s

pub Waiting-refl : (s : Service) → Waiting s s
Waiting-refl s = refl

pub Waiting-trans : (s t u : Service) → Waiting s t → Waiting t u → Waiting s u
Waiting-trans s t u h k = k ∙ h

-- A tick at this state reasons.
abbrev pub reasons : Config → Moment → List Evidence → Service → Bool
reasons c m found s = is_due c m.start (extend (untrusted c.ignore_networks found) s)

then_next_of_none :
    (r : Service × Option Error) (next : Service → Service × Option Error)
    → r.1 ≡ none
    → then_next next r ≡ next r.0
then_next_of_none (s, none) next h = refl
then_next_of_none (s, some e) next h = cc

untrusted-IsPlain :
    (networks : List Network) (es : List Evidence)
    → All IsPlain es
    → All IsPlain (untrusted networks es)
untrusted-IsPlain networks [] h = tt
untrusted-IsPlain networks (e ∷ es) h = elim (Bool-cases (is_trusted networks e)) [
  | inl trusted ↦ rw trusted (untrusted-IsPlain networks es h.1)
  | inr other ↦ rw other (h.0, untrusted-IsPlain networks es h.1)
]

gather-untrusted :
    (c : Config) (es : List Evidence) (s : Service)
    → s.writes ≡ []
    → ((gather c es s).0 ≡ untrusted c.ignore_networks es)
      × ((gather c es s).1.writes ≡ [])
      × ((gather c es s).2 ≡ none)
unfolding gather
gather-untrusted c es s q =
    let start : Collected = record {
      accepted = [];
      evidence_count = s.evidence_count;
      ignored_evidence_count = s.ignored_evidence_count;
      events = [];
      writes = s.writes;
    } in
    let kept = collect-untrusted c.ignore_networks es start q in (kept.2, kept.1, kept.0)

-- The result of a tick at `s`.
abbrev pub Completes : Config → Moment → List Evidence → Service → Service × Option Error → Type 0
Completes c m found s r =
    (r.1 ≡ (if m.saves then none else some os_error))
    × (r.0.cycle ≡ (if reasons c m found s then suc s.cycle else s.cycle))
    × (r.0.reasoning_cycle_count
        ≡ (if reasons c m found s then suc s.reasoning_cycle_count else s.reasoning_cycle_count))
    × (r.0.last_reasoning_at ≡ m.stamp)
    × ((es : List (ℕ × Event)) × (r.0.events
          ≡ es ++ (if m.saves then (r.0.cycle, saved) ∷ [] else [])))

store_state-Completes :
    (c : Config) (m : Moment) (found : List Evidence) (s t : Service)
    → t.cycle ≡ (if reasons c m found s then suc s.cycle else s.cycle)
    → t.reasoning_cycle_count
      ≡ (if reasons c m found s then suc s.reasoning_cycle_count else s.reasoning_cycle_count)
    → Completes c m found s (store_state m.saves m.stamp t)
store_state-Completes c m found s t cycle count = elim (Bool-cases m.saves) [
  | inl saves ↦ rw saves (refl, cycle, count, refl, (t.events, refl))
  | inr fails ↦ rw fails (refl, cycle, count, refl, (t.events, sym (append_nil t.events)))
]

module _ (w : World) (c : Config) where
  pub apply_item-Waiting : (e : Evidence) → Steps Waiting (apply_item w e)
  unfolding apply_graph apply_flag
  apply_item-Waiting e =
      in_order-Steps Waiting Waiting-refl Waiting-trans (apply_graph w e ∷ apply_flag w e ∷ []) (
        (λ s. with_result-Steps Waiting Waiting-refl Waiting-trans _ keep_graph s (λ v e. refl)),
        (
          (λ s. with_result-Steps Waiting Waiting-refl Waiting-trans _ keep_flags s (λ v e. refl)),
          tt,
        ),
      )

  same_due :
      (collected : List Evidence) (start : ℕ) (s t : Service)
      → Waiting s t
      → is_due c start (extend collected t) ≡ is_due c start (extend collected s)
  unfolding is_due
  same_due collected start s t same =
      ap
        (λ q. elim (q.2 ++ collected) [
          | [] ↦ false
          | _ ∷ _ ↦ leb (q.3 + c.reasoning_interval_sec * 1_000_000) start
        ])
        same

  finish-Completes :
      (m : Moment) (found collected : List Evidence) (s t : Service)
      → collected ≡ untrusted c.ignore_networks found
      → Waiting s t
      → s.writes ≡ []
      → Completes c m found s (finish_tick w c m collected t)
  unfolding is_due
  finish-Completes m found collected s t taken same q =
      let x = sweep m.now (extend collected t) in
      let (fine, cycle, count) = reason_cycles w c m x (ap (λ q. q.4) same ∙ q) in
      let due_x =
        same_due collected m.start s t same ∙ ap (λ es. is_due c m.start (extend es s)) taken in
      let kept = if is_due c m.start x then reason w c m x else (x, none) in
      let counted : (kept.1 ≡ none)
          × (kept.0.cycle ≡ (if reasons c m found s then suc s.cycle else s.cycle))
          × (kept.0.reasoning_cycle_count ≡ (
              if reasons c m found s
              then suc s.reasoning_cycle_count
              else s.reasoning_cycle_count)) =
        elim (Bool-cases (reasons c m found s)) [
          | inl due ↦
              rw (due_x, due) (fine, cycle ∙ ap (λ q. suc q.0) same, count ∙ ap (λ q. suc q.1) same)
          | inr early ↦ rw (due_x, early) (refl, ap (λ q. q.0) same, ap (λ q. q.1) same)
        ] in
      rw (then_next_of_none kept (store_state m.saves m.stamp) counted.0)
        (store_state-Completes c m found s kept.0 counted.1 counted.2)

  tick_on-Completes :
      (m : Moment) (found : List Evidence) (s : Service)
      → All IsPlain found
      → s.writes ≡ []
      → Completes c m found s (tick_on w c m found s)
  unfolding tick_on gather is_due
  tick_on-Completes m found s plain q =
      let (collected, s₁, e) = gather c found s in
      let (taken, quiet, returned) = gather-untrusted c found s q in
      let items = then_next (for_each (apply_item w) collected) (s₁, e) in
      let begun = then_next_of_none (s₁, e) (for_each (apply_item w) collected) returned in
      let ran =
        apply_items-none w collected s₁
          (rw taken (untrusted-IsPlain c.ignore_networks found plain)) in
      rw (then_next_of_none items (finish_tick w c m collected) (ap (λ r. r.1) begun ∙ ran)) (
        finish-Completes m found collected s₁ items.0 taken
          (then_next-Steps Waiting Waiting-refl Waiting-trans s₁ (s₁, e)
            (for_each (apply_item w) collected) (Waiting-refl s₁)
            (for_each-Steps Waiting Waiting-refl Waiting-trans (apply_item w) collected
              apply_item-Waiting))
          quiet)

  -- If the targets of the new lines of the access log can all be split, and the scanner has no
  -- new finding, and all writes of the event file succeed, then a tick at any state, whatever
  -- the model answers, raises nothing if its save succeeds, and an OSError if its save fails.
  -- In both cases the cycle and the count of reasoning cycles go up by one if the tick reasons,
  -- and stay otherwise, and the time of the tick is noted. If the save succeeds, it is the last
  -- call to the store.
  pub tick-Completes :
      (m : Moment) (found : List Evidence) (s : Service)
      → (access_log w.library c.access_log_path m.stamp m.log s.runtime).1 ≡ ok found
      → (scanner_result w.library c.scanner_result_path m.stamp m.scan s.scanner_mtime).1 ≡ ok []
      → s.writes ≡ []
      → Completes c m found s (tick w c m s)
  unfolding tick read_sources access_log follow is_due
  tick-Completes m found s lines nothing q =
      let plain = access_items-IsPlain w.library c.access_log_path m.stamp _ found lines in
      rw (lines, nothing, append_nil found) (tick_on-Completes m found _ plain q)
