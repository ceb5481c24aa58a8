-- ===== src/Defender/Service/Tick.antt =====
-- defender/service.py: `tick`, and the answers of the HTTP handler.
use k3df.Base.{
  ℕ, ◌+◌, ◌*◌, Bool, true, false, String, Option, none, some, List, [], ◌∷◌, ◌++◌, map, leb,
  if◌then◌else◌, ◌==◌, Error, os_error,
}
use k3df.Json.{Value, str, obj, end, field}
use k3df.Defender.Config.{Config}
use k3df.Defender.Policy.{active_block}
use k3df.Defender.Evidence.{Evidence, evidence_fields}
use k3df.Defender.Graph.{graph_value}
use k3df.Defender.Graph.Observe.{apply_system_evidence}
use k3df.Defender.Flags.{Flag, apply_flag_evidence}
use k3df.Defender.Store.{flags_value}
use k3df.Defender.Collect.{collect}
use k3df.Defender.Service.{
  Service, collect_event, saved, add_event, then_next, with_result, for_each, in_order, auth,
}
use k3df.Defender.Service.Updates.{keep_graph}
use k3df.Defender.Collect.Sources.{read_sources}
use k3df.Defender.Service.Context.{raw_key}
use k3df.Defender.Service.Cycle.{World, Moment, reason}

-- `collect`, on the counters and the events of the state.
unfoldable pub gather : Config → List Evidence → Service → List Evidence × Service × Option Error
gather c found s =
    let (r, e) = collect c.ignore_networks found (record {
      accepted = [];
      evidence_count = s.evidence_count;
      ignored_evidence_count = s.ignored_evidence_count;
      events = [];
      writes = s.writes;
    }) in
    (
      r.accepted,
      record s {
        evidence_count = r.evidence_count;
        ignored_evidence_count = r.ignored_evidence_count;
        events = s.events ++ map (λ e. (s.cycle, collect_event e)) r.events;
        writes = r.writes;
      },
      e,
    )

unfoldable pub is_due : Config → ℕ → Service → Bool
is_due c start s = elim s.buffer [
  | [] ↦ false
  | _ ∷ _ ↦ leb (s.last_reasoning + c.reasoning_interval_sec * 1_000_000) start
]

abbrev pub keep_flags : List Flag → Service → Service × Option Error
keep_flags flags s = (record s { flag_objectives = flags }, none)

abbrev pub extend : List Evidence → Service → Service
extend collected s = record s { buffer = s.buffer ++ collected }

abbrev pub sweep : ℕ → Service → Service
sweep now s = record s { blocked_sources = (active_block now s.blocked_sources (str "0.0.0.0")).0 }

abbrev pub save_state : Value → Service → Service
save_state stamp s = record (add_event saved s) { last_reasoning_at = stamp }

-- A `save` that fails raises an `OSError` and leaves the file as it was.
abbrev pub store_state : Bool → Value → Service → Service × Option Error
store_state true stamp s = (save_state stamp s, none)
store_state false stamp s = (record s { last_reasoning_at = stamp }, some os_error)

module _ (w : World) where
  -- One round of the loop over the collected items.
  unfoldable pub apply_graph : Evidence → Service → Service × Option Error
  apply_graph e s =
      with_result
        (apply_system_evidence w.parse (graph_value s.capability_graph)
          (evidence_fields (raw_key e) e))
        keep_graph s

  unfoldable pub apply_flag : Evidence → Service → Service × Option Error
  apply_flag e s =
      with_result
        (apply_flag_evidence (flags_value s.flag_objectives) (evidence_fields (raw_key e) e))
        keep_flags s

  abbrev pub apply_item : Evidence → Service → Service × Option Error
  apply_item e = in_order (apply_graph e ∷ apply_flag e ∷ [])

  -- From the end of that loop on.
  abbrev pub finish_tick : Config → Moment → List Evidence → Service → Service × Option Error
  finish_tick c m collected s =
      let s₁ = sweep m.now (extend collected s) in
      then_next (store_state m.saves m.stamp)
        (if is_due c m.start s₁ then reason w c m s₁ else (s₁, none))

  unfoldable pub tick_on : Config → Moment → List Evidence → Service → Service × Option Error
  tick_on c m found s =
      let (collected, s₁, e) = gather c found s in
      then_next (finish_tick c m collected) (then_next (for_each apply_item collected) (s₁, e))

  -- An exception of the sources or of the loop over the items ends the program, with nothing
  -- saved.
  unfoldable pub tick : Config → Moment → Service → Service × Option Error
  tick c m s =
      let (r, mtime, found) =
        read_sources w.library c m.stamp m.log m.scan s.runtime s.scanner_mtime in
      with_result found (tick_on c m) (record s { runtime = r; scanner_mtime = mtime })

-- What `do_GET` answers: the status and the document of the body.
pub record Reply : Type 0 where
  pub status : ℕ
  pub body : Option Value

abbrev status_reply : ℕ → Reply
status_reply status = record { status = status; body = none }

abbrev pub header_or : String → Option String → String
header_or default none = default
header_or default (some h) = h

-- `do_GET` for a path and the header `X-Original-Remote-Addr`, at the time `now`.
unfoldable pub do_get : ℕ → String → Option String → Service → Service × Reply
do_get now path header s =
    if path == "/nginx/auth"
    then (let (s', allowed) = auth now (str (header_or "" header)) s in
        (s', status_reply (if allowed then 204 else 403)))
    else if path == "/health"
    then (s, record { status = 200; body = some (obj (field "status" (str "ok") end)) })
    else (s, status_reply 404)
